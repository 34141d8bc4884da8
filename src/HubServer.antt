-- ===== src/HubServer.antt =====
-- cmd/hub-server/main.go: how the hub's program puts its parts together, and the tools of a session.
-- Options has the flags, Startup and Main the start.
pub mod Sessions
pub mod Main
pub mod Guards
pub mod Started
pub mod Startup
pub mod Options
use k8s_ts_mcp.Common.{
  Unicode, trimmed_parts, trim_space, split, ℕ, String, Bool, true, false, Option, none, some, List,
  [], ◌∷◌, ◌==◌, if◌then◌else◌, Map, insert_all, Result, Call, ◌>>=◌, pure,
}
use k8s_ts_mcp.Policy.{GroupMapping, tier_prod_admin, load_groups}
use k8s_ts_mcp.AgentAuth.{Scope, deny_all_scope, resolve, token_from_header}
use k8s_ts_mcp.Inventory.{ClusterInfo}
use k8s_ts_mcp.Audit.{Store}
use k8s_ts_mcp.Transport.Replica.{Config, Replica, RoleResolver, connected_clusters}
use k8s_ts_mcp.Transport.Replica.Requests.{
  request, diagnose, execute, scan, approve_action, get_logs, list_nodes,
}
use k8s_ts_mcp.Runbooks.{Entries, matches_logs}
use k8s_ts_mcp.Runbooks.Similarity.{Floats}
use k8s_ts_mcp.Runbooks.Lookup.{find_entry}
use k8s_ts_mcp.McpTools.{Server, Hub, Runbooks, System}

unfoldable pub env_or : (String → String) → String → String → String
env_or getenv key fallback = let v = getenv key in if v == "" then fallback else v

unfoldable pub split_csv : String → List String
split_csv s = if trim_space s == "" then [] else trimmed_parts (split "," s)

unfoldable pub to_set : String → Map Bool
unfolding split_csv insert_all
to_set csv = insert_all (λ id. id) (λ _. true) (split_csv csv) []

abbrev default_group_mapping : GroupMapping
default_group_mapping = ("infra-prod-admins", tier_prod_admin) ∷ []

-- `open_file` reads the file and decodes it.
unfoldable pub load_group_mapping :
    {W : Type 0} → (String → Call W (Result GroupMapping)) → String → Call W GroupMapping
unfolding load_groups
load_group_mapping open_file path =
    if path == ""
    then pure default_group_mapping
    else (do decoded ← open_file path; λ w. (load_groups decoded, w))

-- `runbooks.Store` as the catalogue of the tools.
abbrev pub runbooks_of : {F : Type 0} → Floats F → Unicode → Entries → Runbooks
runbooks_of floats unicode entries = record {
  find_entry = find_entry floats unicode entries;
  matches_logs = matches_logs unicode;
}

-- `transport.Server` as the hub of the tools.
abbrev pub hub_of : {W : Type 0} → Config W → Hub (Replica × W)
hub_of config = record {
  scan = λ id ns. request config (scan config ns) id;
  diagnose = λ id sig. request config (diagnose config sig) id;
  execute = λ id playbook_id sig. request config (execute config playbook_id sig) id;
  approve_action = λ id playbook_id sig name meta.
      request config (approve_action config playbook_id sig name meta) id;
  get_logs = λ id ns name deployment tail_lines.
      request config (get_logs config ns name deployment tail_lines) id;
  list_nodes = λ id. request config (list_nodes config) id;
  connected_clusters = connected_clusters config;
}

-- What `main` reads from its flags and files.
pub record Flags (W : Type 0) : Type 0 where
  pub transport : Config W
  pub groups : GroupMapping
  pub audit : Store (Replica × W)
  pub execution_flag : Bool
  pub prod_clusters_csv : String
  pub test_caller_groups_csv : String
  pub runbooks : Option Runbooks
  pub inventory : Option (String → Call (Replica × W) (Option ClusterInfo))
  pub tool_access : Map String
  pub system : System (Replica × W)

unfoldable pub tools : {W : Type 0} → Flags W → Server (Replica × W)
unfolding to_set split_csv
tools f = record {
  hub = hub_of f.transport;
  policy = f.groups;
  audit = f.audit;
  execution_flag = f.execution_flag;
  prod_clusters = to_set f.prod_clusters_csv;
  caller_groups = split_csv f.test_caller_groups_csv;
  runbooks = f.runbooks;
  inventory = f.inventory;
  agent_scope = none;
  tool_access = f.tool_access;
  system = f.system;
}

abbrev pub or_deny_all : Option Scope → Scope
or_deny_all none = deny_all_scope
or_deny_all (some s) = s

abbrev pub with_scope : {W : Type 0} → Scope → Server W → Server W
with_scope scope s = record s { agent_scope = some scope; caller_groups = scope.ad_groups }

-- `newSessionServer`: the tools of a session, by the value of its request's header.
unfoldable pub new_session_server :
    {W : Type 0} → (String → String) → Option (Map Scope) → String → Server W → Server W
unfolding resolve token_from_header
new_session_server hash none auth s = s
new_session_server hash (some r) auth s =
    with_scope (or_deny_all (resolve hash (some r) (token_from_header auth))) s
