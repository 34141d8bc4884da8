-- ===== src/HubServer/Sessions.antt =====
-- Sessions without a known token: cmd/hub-server/main.go, `newSessionServer`, with the checks of
-- internal/mcptools.
use k8s_ts_mcp.Common.{
  String, ◌≡◌, refl, Option, none, some, Map, Error, Call, ◌∙◌, sym, ap, Result, ok, err,
  if◌then◌else◌, Bool-cases, inl, inr, continue,
}
use k8s_ts_mcp.Policy.{Tier, caller_tier, highest_tier, highest_from}
use k8s_ts_mcp.AgentAuth.{Scope, token_from_header, deny_all_scope, allows_account, resolve}
use k8s_ts_mcp.Inventory.{ClusterInfo}
use k8s_ts_mcp.McpTools.{Server, check_cluster_scope}
use k8s_ts_mcp.McpTools.Clusters.{scan_cluster, list_nodes}
use k8s_ts_mcp.McpTools.Troubleshoot.{TroubleshootIn, troubleshoot}
use k8s_ts_mcp.McpTools.Scopes.{InScope, check-InScope, out_of_scope_is_refused}
use k8s_ts_mcp.McpTools.Approve.{
  ApproveActionIn, execution_off, authorise, with_entry, with_target, get_entry, run_approval,
  approve_action,
}
use k8s_ts_mcp.Audit.{Entry}
use k8s_ts_mcp.HubServer.{with_scope, new_session_server}

module _ {W : Type 0} (s : Server W) where
  -- Approving leaves the world where its checks end: the agent is not asked.
  abbrev pub checked_world : ApproveActionIn → W → W
  checked_world y w = if s.execution_flag then (authorise s y w).1 else w

  abbrev pub IsUnapproved : ApproveActionIn → W → Type 0
  IsUnapproved y w = (e : Error) × (approve_action s y w ≡ (err e, checked_world y w))

  -- The caller is at no tier, the tools of a cluster fail where the check of the cluster does, and
  -- an approval fails too.
  abbrev pub IsShutOut : String → String → String → TroubleshootIn → ApproveActionIn → W → Type 0
  IsShutOut id ns region x y w =
      (caller_tier s.policy s.caller_groups ≡ none)
      × ((e : Error) × (scan_cluster s id ns w ≡ (err e, (check_cluster_scope s id w).1))
          × (list_nodes s id region w ≡ (err e, (check_cluster_scope s id w).1))
          × (troubleshoot s x w ≡ (err e, (check_cluster_scope s id w).1)))
      × IsUnapproved y w

  -- The scope that allows no account leaves a check nothing but an error.
  deny_all_refuses :
      (r : Result (Option ClusterInfo) × W)
      → InScope s deny_all_scope r
      → (e : Error) × (r ≡ (err e, r.1))
  unfolding allows_account
  deny_all_refuses (err e, w) h = (e, refl)
  deny_all_refuses (ok o, w) (info, known, allowed) = absurd (cc)

-- Calls that end in an error.
module _ {W : Type 0} where
  abbrev Fails : {A : Type 0} → Result A × W → Type 0
  Fails r = (e : Error) × (r ≡ (err e, r.1))

  -- A chain whose first call fails ends there,
  first-Fails :
      {A B : Type 0} (r : Result A × W) (f : A → Call W B)
      → Fails r
      → (e : Error) × (continue {B = Result B × W} r f (λ e w. (err e, w)) ≡ (err e, r.1))
  first-Fails (ok a, w) f (e, h) = absurd (cc)
  first-Fails (err x, w) f h = (x, refl)

  -- and one whose second call fails, with that call or before it.
  second-Fails :
      {A B : Type 0} (r : Result A × W) (f : A → Call W B)
      → ((a : A) (w : W) → Fails (f a w))
      → Fails (continue {B = Result B × W} r f (λ e w. (err e, w)))
  second-Fails (ok a, w) f h = h a w
  second-Fails (err x, w) f h = (x, refl)

-- Where no cluster passes the check, no approval passes `authorise`.
module _ {W : Type 0} (t : Server W)
    (refused : (id : String) (w : W) → Fails (check_cluster_scope t id w)) where
  with_entry-Fails : (y : ApproveActionIn) (e : Entry) (w : W) → Fails (with_entry t y e w)
  with_entry-Fails y e w =
      let (x, h) =
        first-Fails (check_cluster_scope t e.cluster_id w) (λ _. with_target t y e)
          (refused e.cluster_id w) in
      (x, h ∙ ap (λ (r : Result (Entry × Tier) × W). (err x, r.1)) (sym h))

  authorise-Fails : (y : ApproveActionIn) (w : W) → Fails (authorise t y w)
  authorise-Fails y w =
      second-Fails (get_entry t y.incident_id w) (with_entry t y) (with_entry-Fails y)

  approve_action-IsUnapproved : (y : ApproveActionIn) (w : W) → IsUnapproved t y w
  unfolding approve_action
  approve_action-IsUnapproved y w = elim (Bool-cases t.execution_flag) [
    | inl on ↦ rw on (first-Fails (authorise t y w) (run_approval t y) (authorise-Fails y w))
    | inr off ↦ rw off (execution_off, refl)
  ]

module _ {W : Type 0} (s : Server W) where
  with_deny_all-IsShutOut :
      (id ns region : String) (x : TroubleshootIn) (y : ApproveActionIn) (w : W)
      → x.cluster_id ≡ id
      → IsShutOut (with_scope deny_all_scope s) id ns region x y w
  unfolding caller_tier highest_tier highest_from
  with_deny_all-IsShutOut id ns region x y w same =
      let t : Server W = with_scope deny_all_scope s in
      let refuses : (id : String) (w : W) → Fails (check_cluster_scope t id w) = λ id w.
        deny_all_refuses t (check_cluster_scope t id w)
          (check-InScope t deny_all_scope id w refl) in
      let (e, refused) = refuses id w in
      let (scan, list, run) =
        out_of_scope_is_refused t id ns region x e w (check_cluster_scope t id w).1 same refused in
      (refl, (e, scan, list, run), approve_action-IsUnapproved t refuses y w)

  -- On a hub with a registry of agents, a session whose token the registry does not know is at no
  -- tier. Its scan_cluster, list_nodes and troubleshoot fail for every cluster, in the world that the
  -- check of the cluster left, and its approve_action fails for every incident, in the world that its
  -- checks left.
  pub unknown_token_is_refused :
      (hash : String → String) (r : Map Scope) (auth id ns region : String) (x : TroubleshootIn)
      (y : ApproveActionIn) (w : W)
      → resolve hash (some r) (token_from_header auth) ≡ none
      → x.cluster_id ≡ id
      → IsShutOut (new_session_server hash (some r) auth s) id ns region x y w
  unfolding new_session_server
  unknown_token_is_refused hash r auth id ns region x y w unknown same =
      simp unknown (with_deny_all-IsShutOut id ns region x y w same)
