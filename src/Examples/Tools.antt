-- ===== src/Examples/Tools.antt =====
-- Examples of internal/mcptools.
use k8s_ts_mcp.Common.{
  ℕ, suc, String, Bool, true, false, ◌≡◌, refl, inl, none, some, [], ◌∷◌, ◌==◌, lookup, find,
  foreign, ok, err, Call,
}
use k8s_ts_mcp.Policy.{
  Tier, decide, evaluate, agree, rules, rules_by, highest_tier, highest_from, caller_tier,
}
use k8s_ts_mcp.Playbooks.{Signal}
use k8s_ts_mcp.AgentCore.{ProposedAction, Attempt, Diagnosis, Execution}
use k8s_ts_mcp.AgentAuth.{Scope, allows_account}
use k8s_ts_mcp.Inventory.{ClusterInfo}
use k8s_ts_mcp.Audit.{Entry}
use k8s_ts_mcp.Transport.{Response}
use k8s_ts_mcp.McpTools.{
  Server, Hub, check_cluster_scope, out_of_scope, max_risk, max_risk_from, cluster_env,
}
use k8s_ts_mcp.McpTools.Clusters.{scan_cluster, list_nodes}
use k8s_ts_mcp.McpTools.Troubleshoot.{TroubleshootIn, TroubleshootOut, troubleshoot}
use k8s_ts_mcp.McpTools.Approve.{ApproveActionIn, ApproveActionOut, authorise, approve_action}
use k8s_ts_mcp.McpTools.Scopes.{InScope, check-InScope, out_of_scope_is_refused}
use k8s_ts_mcp.McpTools.Gates.{
  with_execute, gated_never_executes, IsApproved, approval_is_authorised,
}
use k8s_ts_mcp.McpTools.Record.{IsRecorded, troubleshoot-IsRecorded}

-- The world counts the calls that change something.
abbrev answer : {A : Type 0} → A → Call ℕ (Response A)
answer a w = (ok (record { value = a; error = "" }), w)

abbrev failing : {A : Type 0} → Call ℕ A
failing w = (err (foreign "no such object"), w)

abbrev proposed : String → String → ProposedAction
proposed name risk = record { name = name; description = name; risk = risk }

abbrev pub diagnosis : Diagnosis
diagnosis = record {
  playbook_id = "core/oomkilled";
  summary = "killed";
  proposed_actions = proposed "restart" "safe" ∷ proposed "raise" "high" ∷ [];
  meta = [];
  no_playbook = false;
}

abbrev attempt : Attempt
attempt = record {
  action = "raise";
  description = "raise";
  risk = "high";
  output = "raised";
  error = "";
  validated = true;
  rolled_back = false;
  skipped = false;
}

abbrev hub : Hub ℕ
hub = record {
  scan = λ id ns. answer [];
  diagnose = λ id sig. answer diagnosis;
  execute = λ id p sig w.
      (ok (record { value = record { resolved = true; attempts = [] }; error = "" }), suc w);
  approve_action = λ id p sig name meta w. (ok (record { value = attempt; error = "" }), suc w);
  get_logs = λ id ns name dep tail. failing;
  list_nodes = λ id. answer [];
  connected_clusters = failing;
}

abbrev pub incident : Entry
incident = record {
  id = "i-1";
  time = 0;
  cluster_id = "spoke-1";
  groups = [];
  playbook_id = "core/oomkilled";
  summary = "";
  decision = record { allow = true; dry_run = true; reason = ""; tier = "readonly" };
  signal = record { kind = "PodOOMKilled"; namespace = "shop"; name = "web-1"; node_name = "" };
  meta = [];
  proposed_actions = record { name = "raise"; description = "raise"; risk = "high" } ∷ [];
  proposed_commands = [];
  result = none;
}

abbrev pub info : ClusterInfo
info = record {
  cluster_id = "spoke-1";
  aws_account_id = "111";
  region = "us-east-1";
  eks_cluster_name = "spoke-1";
}

abbrev pub scope : String → Scope
scope account = record { agent_name = "a"; allowed_accounts = (account, true) ∷ []; ad_groups = [] }

abbrev pub server : Bool → String → Server ℕ
server flag account = record {
  hub = hub;
  policy = ("sre", "prod-admin") ∷ [];
  audit = record {
    append = λ e w. (ok tt, suc w);
    get = λ id w. (ok (some incident), w);
    list_by_cluster = λ id. failing;
  };
  execution_flag = flag;
  prod_clusters = [];
  caller_groups = "sre" ∷ [];
  runbooks = none;
  inventory = some (λ id w. (ok (some info), w));
  agent_scope = some (scope account);
  tool_access = [];
  system = record {
    sprintf = λ f args. f;
    to_upper = λ s. s;
    equal_fold = λ s t. s == t;
    random = λ w. ("00", w);
    now = λ w. w;
    formats = record { format_time = λ t. ""; decimal = λ n. "" };
  };
}

abbrev pub killed_pod : TroubleshootIn
killed_pod = record {
  cluster_id = "spoke-1";
  kind = "PodOOMKilled";
  namespace = "shop";
  name = "web-1";
  node_name = "";
}

abbrev refuse : String → String → Signal → Call ℕ (Response Execution)
refuse id p sig = failing

gated_never_executes_example :
    troubleshoot (server false "111") killed_pod 0
    ≡ troubleshoot (with_execute (server false "111") refuse) killed_pod 0
gated_never_executes_example =
    gated_never_executes (server false "111") refuse killed_pod 0 (inl refl)

abbrev pub approval : ApproveActionIn
approval = record { incident_id = "i-1"; action_name = "raise" }

abbrev approved_out : ApproveActionOut
approved_out = record { incident_id = "%d-%s"; original_incident_id = "i-1"; attempt = attempt }

approval_is_authorised_example :
    (true ≡ true)
    × (e : Entry) × (t : Tier) × (w1 : ℕ) × (authorise (server true "111") approval 0
        ≡ (ok (e, t), w1))
    × IsApproved (server true "111") approval e t
unfolding approve_action check_cluster_scope allows_account lookup find caller_tier highest_tier
    highest_from
approval_is_authorised_example =
    approval_is_authorised (server true "111") approval 0 2 approved_out refl

out_of_scope_is_refused_example :
    (scan_cluster (server true "999") "spoke-1" "" 0
      ≡ (err (out_of_scope (server true "999") "spoke-1"), 0))
    × (list_nodes (server true "999") "spoke-1" "" 0
        ≡ (err (out_of_scope (server true "999") "spoke-1"), 0))
    × (troubleshoot (server true "999") killed_pod 0
        ≡ (err (out_of_scope (server true "999") "spoke-1"), 0))
unfolding check_cluster_scope allows_account lookup
out_of_scope_is_refused_example =
    out_of_scope_is_refused (server true "999") "spoke-1" "" "" killed_pod
      (out_of_scope (server true "999") "spoke-1") 0 0 refl refl

check-InScope_example :
    InScope (server true "111") (scope "111") (check_cluster_scope (server true "111") "spoke-1" 0)
check-InScope_example = check-InScope (server true "111") (scope "111") "spoke-1" 0 refl

abbrev pub executed_out : TroubleshootOut
executed_out = record {
  incident_id = "%d-%s";
  playbook_id = "core/oomkilled";
  summary = "killed";
  allowed = true;
  dry_run = false;
  reason = "ação segura, dentro do tier do chamador";
  proposed_commands = [];
  resolved = true;
  attempts = [];
}

troubleshoot-IsRecorded_example : IsRecorded (server true "111") killed_pod executed_out 2
unfolding troubleshoot check_cluster_scope allows_account lookup decide highest_tier highest_from
    rules rules_by evaluate agree max_risk max_risk_from cluster_env
troubleshoot-IsRecorded_example =
    troubleshoot-IsRecorded (server true "111") killed_pod 0 2 executed_out refl
