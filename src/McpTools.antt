-- ===== src/McpTools.antt =====
-- internal/mcptools: the tools of the hub. The hub's connections (`transport.Server`), the audit
-- store, the catalogue of runbooks and the inventory are interfaces here: records of operations.
pub mod Clusters
pub mod Troubleshoot
pub mod Approve
pub mod Risk
pub mod Scopes
pub mod Gates
pub mod Record
pub mod Postmortem
use k8s_ts_mcp.Common.{
  text_contains, insert, Result, ok, err, ℕ, String, Bool, true, false, not, ◌&&◌, ◌||◌, Option,
  none, some, List, [], ◌∷◌, ◌==◌, if◌then◌else◌, ltb, any, Map, lookup, Error, Args, errorf, end,
  str, cause, Call, ◌>>=◌, pure, raise, wrap_err,
}
use k8s_ts_mcp.Policy.{
  RiskLevel, ClusterEnv, GroupMapping, risk_safe, risk_medium, risk_high, env_prod, env_non_prod,
}
use k8s_ts_mcp.K8sClient.Nodes.{NodeInfo}
use k8s_ts_mcp.Playbooks.{Signal}
use k8s_ts_mcp.AgentCore.{ProposedAction, Attempt, Diagnosis, Execution}
use k8s_ts_mcp.AgentCore.Scan.{PodIssue}
use k8s_ts_mcp.Transport.{Response}
use k8s_ts_mcp.AgentAuth.{Scope, allows_account, is_true}
use k8s_ts_mcp.Inventory.{ClusterInfo}
use k8s_ts_mcp.Runbooks.{Runbook}
use k8s_ts_mcp.Postmortem.{Formats}
use k8s_ts_mcp.Audit.{Store, Entry}

-- What the tools ask of `transport.Server`. A nil attempt reads as the zero one.
pub record Hub (W : Type 0) : Type 0 where
  pub scan : String → String → Call W (Response (List PodIssue))
  pub diagnose : String → Signal → Call W (Response Diagnosis)
  pub execute : String → String → Signal → Call W (Response Execution)
  pub approve_action : String → String → Signal → String → Map String → Call W (Response Attempt)
  pub get_logs : String → String → String → String → ℕ → Call W (Response String)
  pub list_nodes : String → Call W (Response (List NodeInfo))
  pub connected_clusters : Call W (List String)

-- `Store.Find` and `Entry.MatchesLogs` of package runbooks.
pub record Runbooks : Type 0 where
  pub find_entry : String → String → Option Runbook
  pub matches_logs : Runbook → String → Bool

-- `random` is `rand.Read` of eight bytes, in hexadecimal digits; `now` is the clock.
pub record System (W : Type 0) : Type 0 where
  pub sprintf : String → Args → String
  pub to_upper : String → String
  pub equal_fold : String → String → Bool
  pub random : W → String × W
  pub now : W → ℕ
  pub formats : Formats

pub record Server (W : Type 0) : Type 0 where
  pub hub : Hub W
  pub policy : GroupMapping
  pub audit : Store W
  pub execution_flag : Bool
  pub prod_clusters : Map Bool
  pub caller_groups : List String
  pub runbooks : Option Runbooks
  pub inventory : Option (String → Call W (Option ClusterInfo))
  pub agent_scope : Option Scope
  pub tool_access : Map String
  pub system : System W

abbrev pub agent_error : String → String → Error
agent_error cluster e = errorf "agente do cluster %s: %s" (str cluster (str e end))

-- `if resp.Error != "" { return …, fmt.Errorf("agente do cluster %s: %s", …) }`.
abbrev pub answered : {W A : Type 0} → String → Response A → Call W A
answered cluster resp =
    if resp.error == "" then pure resp.value else raise (agent_error cluster resp.error)

-- `riskRank` of an action that may run on its own, against the best so far; `none` is its -1.
abbrev pub risk_rank : RiskLevel → Option ℕ
risk_rank r =
    if r == risk_safe
    then some 0
    else if r == risk_medium
    then some 1
    else if r == risk_high
    then some 2
    else none

abbrev pub exceeds : Option ℕ → Option ℕ → Bool
exceeds none best = false
exceeds (some r) none = true
exceeds (some r) (some best) = ltb best r

-- The loop of `maxRisk`, with its `best`, `bestRank` and `sawOnlyHigh`.
unfoldable pub max_risk_from : RiskLevel → Option ℕ → Bool → List ProposedAction → RiskLevel
max_risk_from best rank only_high [] = if only_high then risk_high else best
max_risk_from best rank only_high (a ∷ actions) = elim (a.risk == risk_high) [
  | true ↦ max_risk_from best rank only_high actions
  | false ↦ elim (exceeds (risk_rank a.risk) rank) [
    | true ↦ max_risk_from a.risk (risk_rank a.risk) false actions
    | false ↦ max_risk_from best rank false actions
  ]
]

unfoldable pub max_risk : List ProposedAction → RiskLevel
unfolding max_risk_from
max_risk actions = max_risk_from risk_safe none true actions

-- A rule of the file of tool access.
pub record ToolRule : Type 0 where
  pub name : String
  pub requires_group_name : String

-- The loop of `LoadToolAccess`, with the map so far; `shown` is the verb `%+v` of a rule.
unfoldable pub access_from : (ToolRule → String) → Map String → List ToolRule → Result (Map String)
unfolding insert
access_from shown access [] = ok access
access_from shown access (t ∷ rules) =
    let rest = access_from shown (insert t.name t.requires_group_name access) rules in
    if t.name == ""
    then err (errorf "tool access config entry missing name: %+v" (str (shown t) end))
    else rest

abbrev loaded_access : (ToolRule → String) → Result (List ToolRule) → Result (Map String)
loaded_access shown (err e) = err (errorf "decoding tool access config: %w" (cause e end))
loaded_access shown (ok rules) = access_from shown [] rules

-- `LoadToolAccess`, of what the YAML decoder gives.
unfoldable pub load_tool_access : (ToolRule → String) → Result (List ToolRule) → Result (Map String)
unfolding access_from
load_tool_access shown decoded = loaded_access shown decoded

abbrev required_by : Option String → String
required_by none = ""
required_by (some r) = r

module _ {W : Type 0} (s : Server W) where
  open s use {system}

  -- `ToolAccess.Allows`.
  unfoldable pub allows : String → Bool
  unfolding lookup any
  allows tool =
      let required = required_by (lookup tool s.tool_access) in
      if required == ""
      then true
      else any (λ g. text_contains (system.to_upper g) (system.to_upper required)) s.caller_groups

  abbrev pub look_up :
      Option (String → Call W (Option ClusterInfo)) → String → Call W (Option ClusterInfo)
  look_up none id = pure none
  look_up (some f) id =
      wrap_err (λ e. errorf "consultando inventário de clusters: %w" (cause e end)) (f id)

  abbrev pub unknown_cluster : String → Error
  unknown_cluster id =
      errorf
        "cluster %q não está cadastrado no inventário — não é possível validar a conta AWS para este chamador, acesso negado"
        (str id end)

  abbrev pub out_of_scope : String → Error
  out_of_scope id =
      errorf "cluster %q está fora do escopo de conta AWS autorizado para este chamador"
        (str id end)

  abbrev pub scoped : Option Scope → String → Option ClusterInfo → Call W (Option ClusterInfo)
  scoped none id info = pure info
  scoped (some sc) id none = raise (unknown_cluster id)
  scoped (some sc) id (some info) =
      if allows_account (some sc) info.aws_account_id
      then pure (some info)
      else raise (out_of_scope id)

  -- `checkClusterScope`; an unknown cluster is `none`.
  unfoldable pub check_cluster_scope : String → Call W (Option ClusterInfo)
  check_cluster_scope id = do info ← look_up s.inventory id; scoped s.agent_scope id info

  unfoldable pub cluster_env : String → ClusterEnv
  unfolding lookup
  cluster_env id = if is_true (lookup id s.prod_clusters) then env_prod else env_non_prod
