-- ===== src/Playbooks.antt =====
-- internal/playbooks/playbooks.go: signals, findings, the plugin interface and its registry.
-- A playbook is a record of functions over the cluster's API; `recheck` is the optional interface
-- `Recheckable`, which answers `none` where its `ok` is false.
pub mod Waiting
pub mod CoreK8s
pub mod Extensions
pub mod BuiltIn
pub mod Laws
use k8s_ts_mcp.Common.{
  String, Bool, true, false, Option, none, some, List, [], ◌∷◌, find, Map, Error, errorf, end, str,
  Call,
}
use k8s_ts_mcp.ExecEngine.{Ladder}

pub record Signal : Type 0 where
  pub kind : String
  pub namespace : String
  pub name : String
  pub node_name : String

pub record Finding : Type 0 where
  pub signal : Signal
  pub summary : String
  pub meta : Map String

pub record Playbook (W : Type 0) : Type 0 where
  pub id : String
  pub resource : String
  pub detect : Signal → Bool
  pub diagnose : Signal → Call W Finding
  pub ladder : Finding → Ladder W
  pub recheck : Option (Signal → Map String → Call W (Option (Finding × Ladder W)))

-- The first registered playbook that detects the signal.
unfoldable pub find_playbook : {W : Type 0} → List (Playbook W) → Signal → Option (Playbook W)
unfolding find
find_playbook registry sig = find (λ p. p.detect sig) registry

abbrev pub err_no_playbook : Signal → Error
err_no_playbook sig =
    errorf "nenhum playbook registrado sabe lidar com o sinal %q (namespace=%s, name=%s)"
      (str sig.kind (str sig.namespace (str sig.name end)))
