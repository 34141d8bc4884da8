-- ===== src/Audit.antt =====
-- internal/audit/audit.go: what is recorded of an incident, and the interface of a store.
pub mod FileStore
pub mod Lines
pub mod Logging
use k8s_ts_mcp.Common.{ℕ, String, Option, none, some, List, map, Map, Call, Args, end, str, num}
use k8s_ts_mcp.Policy.{Decision}
use k8s_ts_mcp.Redact.{Fields, empty}
use k8s_ts_mcp.ExecEngine.{AttemptResult, RunResult}

pub record SignalRecord : Type 0 where
  pub kind : String
  pub namespace : String
  pub name : String
  pub node_name : String

pub record ProposedActionRecord : Type 0 where
  pub name : String
  pub description : String
  pub risk : String

-- `time` is in nanoseconds; a nil `Result` is `none`.
pub record Entry : Type 0 where
  pub id : String
  pub time : ℕ
  pub cluster_id : String
  pub groups : List String
  pub playbook_id : String
  pub summary : String
  pub decision : Decision
  pub signal : SignalRecord
  pub meta : Map String
  pub proposed_actions : List ProposedActionRecord
  pub proposed_commands : List String
  pub result : Option RunResult

-- What the tags of package encoding/json leave of an entry that is written and read again: a decision
-- loses its tier (`json:"-"`), and a snapshot without fields is left out (`omitempty`).
abbrev stored_decision : Decision → Decision
stored_decision d = record d { tier = "" }

abbrev pub stored_snapshot : Option Fields → Option Fields
stored_snapshot (some empty) = none
stored_snapshot snapshot = snapshot

abbrev pub stored_attempt : AttemptResult → AttemptResult
stored_attempt a = record a { snapshot = stored_snapshot a.snapshot }

abbrev pub stored_result : Option RunResult → Option RunResult
stored_result none = none
stored_result (some r) = some (record r { attempts = map stored_attempt r.attempts })

abbrev pub as_stored : Entry → Entry
as_stored e = record e { decision = stored_decision e.decision; result = stored_result e.result }

-- `NewID`; `random` gives the digits of random bytes.
abbrev pub new_id :
    {W : Type 0} → (String → Args → String) → (W → ℕ) → (W → String × W) → W → String × W
new_id sprintf now random w =
    let (digits, w') = random w in (sprintf "%d-%s" (num (now w') (str digits end)), w')

-- The interface `audit.Store`.
pub record Store (W : Type 0) : Type 0 where
  pub append : Entry → Call W (Unit {0})
  pub get : String → Call W (Option Entry)
  pub list_by_cluster : String → Call W (List Entry)
