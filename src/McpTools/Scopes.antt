-- ===== src/McpTools/Scopes.antt =====
-- Which clusters a caller reaches: internal/mcptools/mcptools.go, `checkClusterScope` and the tools
-- that call it first.
use k8s_ts_mcp.Common.{
  String, true, ◌≡◌, refl, inl, inr, Option, none, some, Error, Result, ok, err, continue,
  Bool-cases,
}
use k8s_ts_mcp.AgentAuth.{Scope, allows_account}
use k8s_ts_mcp.Inventory.{ClusterInfo}
use k8s_ts_mcp.McpTools.{Server, check_cluster_scope, look_up, scoped}
use k8s_ts_mcp.McpTools.Clusters.{scan_cluster, list_nodes}
use k8s_ts_mcp.McpTools.Troubleshoot.{TroubleshootIn, troubleshoot}

module _ {W : Type 0} (s : Server W) (sc : Scope) where
  -- What a call with a scope learnt of its cluster: the inventory knows it, and the scope allows its
  -- account.
  abbrev pub InScope : Result (Option ClusterInfo) × W → Type 0
  InScope (err e, w) = Unit
  InScope (ok o, w) =
      (info : ClusterInfo) × (o ≡ some info) × (allows_account (some sc) info.aws_account_id ≡ true)

  scoped-InScope :
      (id : String) (o : Option ClusterInfo) (w : W) → InScope (scoped s (some sc) id o w)
  scoped-InScope id none w = tt
  scoped-InScope id (some info) w =
      elim (Bool-cases (allows_account (some sc) info.aws_account_id)) [
        | inl within ↦ rw within (info, refl, within)
        | inr outside ↦ rw outside tt
      ]

  after_look_up :
      (id : String) (r : Result (Option ClusterInfo) × W)
      → InScope (continue r (scoped s (some sc) id) (λ e w. (err e, w)))
  after_look_up id (err e, w) = tt
  after_look_up id (ok o, w) = scoped-InScope id o w

  -- With a scope the check succeeds only for a cluster that the inventory knows and whose AWS account
  -- the scope allows.
  pub check-InScope :
      (id : String) (w : W) → s.agent_scope ≡ some sc → InScope (check_cluster_scope s id w)
  unfolding check_cluster_scope
  check-InScope id w e = simp e (after_look_up id (look_up s s.inventory id w))

module _ {W : Type 0} (s : Server W) (id : String) where
  -- A tool's answer starts with the check: where that fails, so does the tool, at the same world.
  abbrev Refused : {A : Type 0} → Error → W → Result A × W → Type 0
  Refused e w' o = o ≡ (err e, w')

  -- Where the scope check of a cluster fails, scan_cluster, list_nodes and troubleshoot give the
  -- check's own error, in the world that the inventory's lookup left: the hub is not asked and no
  -- incident recorded.
  pub out_of_scope_is_refused :
      (ns region : String) (x : TroubleshootIn) (e : Error) (w w' : W)
      → x.cluster_id ≡ id
      → check_cluster_scope s id w ≡ (err e, w')
      → (scan_cluster s id ns w ≡ (err e, w'))
        × (list_nodes s id region w ≡ (err e, w'))
        × (troubleshoot s x w ≡ (err e, w'))
  unfolding scan_cluster list_nodes troubleshoot
  out_of_scope_is_refused ns region x e w w' same refused =
      (simp refused refl, simp refused refl, simp (same, refused) refl)
