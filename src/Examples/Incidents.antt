-- ===== src/Examples/Incidents.antt =====
-- Examples of incidents that are stored and read again, of internal/mcptools and internal/postmortem.
use k8s_ts_mcp.Common.{
  ℕ, All, text_contains, String, Bool, false, if◌then◌else◌, true, ◌≡◌, refl, Option, none, some,
  List, [], ◌∷◌, ◌==◌, find, foreign, err, Call,
}
use k8s_ts_mcp.ExecEngine.{AttemptResult}
use k8s_ts_mcp.Audit.{Entry, SignalRecord, as_stored}
use k8s_ts_mcp.Audit.FileStore.{append, file_store}
use k8s_ts_mcp.Postmortem.{Formats, render}
use k8s_ts_mcp.Postmortem.Complete.{shown, render_shows}
use k8s_ts_mcp.McpTools.{Server, Hub}
use k8s_ts_mcp.McpTools.Approve.{ApproveActionIn, authorise, get_postmortem}
use k8s_ts_mcp.McpTools.Postmortem.{text_of_incident, resumed, appended_are_rendered}
use k8s_ts_mcp.Examples.Tools.{incident}
use k8s_ts_mcp.Examples.Stores.{
  json, os, os-IsFile, file, incidents, incident-IsJson, other-IsJson, incident-IsShort,
  other-IsShort,
}

abbrev formats : Formats
formats = record { format_time = λ t. "2024-05-01"; decimal = λ n. "n" }

abbrev attempt : String → Bool → Bool → AttemptResult
attempt name skipped failed = record {
  action = name;
  description = "kubectl delete pod web-1 -n shop";
  risk = "safe";
  output = if skipped then "" else "pod deleted";
  error = if failed then "still crashing" else "";
  snapshot = none;
  validated = false;
  rolled_back = failed;
  skipped = skipped;
}

abbrev unresolved : Entry
unresolved = record incident {
  groups = "sre" ∷ "ops" ∷ [];
  summary = "pod em CrashLoopBackOff";
  proposed_commands = "kubectl get pods" ∷ [];
  result = some (record {
    playbook_id = "core/oomkilled";
    resolved = false;
    attempts = attempt "restart" false true ∷ attempt "raise" true false ∷ [];
  });
}

abbrev another_signal : SignalRecord
another_signal = record { kind = "PodPending"; namespace = "x"; name = "y"; node_name = "" }

render_shows_example :
    All (λ t. text_contains (render formats unresolved) t ≡ true) (shown formats unresolved)
    × (render formats (record (as_stored unresolved) {
      signal = another_signal;
      meta = ("owner", "web") ∷ [];
      proposed_actions = [];
    })
        ≡ render formats unresolved)
render_shows_example = render_shows formats unresolved another_signal (("owner", "web") ∷ []) []

-- A hub over the file of Stores, on which the two incidents there are recorded.
abbrev failing : {A : Type 0} → Call (List ℕ) A
failing w = (err (foreign "unavailable"), w)

abbrev hub : Hub (List ℕ)
hub = record {
  scan = λ id ns. failing;
  diagnose = λ id sig. failing;
  execute = λ id p sig. failing;
  approve_action = λ id p sig name meta. failing;
  get_logs = λ id ns name dep tail. failing;
  list_nodes = λ id. failing;
  connected_clusters = failing;
}

abbrev server : Server (List ℕ)
server = record {
  hub = hub;
  policy = ("sre", "prod-admin") ∷ [];
  audit = file_store os (json 3) "audit.jsonl";
  execution_flag = true;
  prod_clusters = [];
  caller_groups = "sre" ∷ [];
  runbooks = none;
  inventory = none;
  agent_scope = none;
  tool_access = [];
  system = record {
    sprintf = λ f args. f;
    to_upper = λ s. s;
    equal_fold = λ s t. s == t;
    random = λ w. ("00", w);
    now = λ w. 7;
    formats = formats;
  };
}

abbrev asked : ApproveActionIn
asked = record { incident_id = "i-9"; action_name = "raise" }

abbrev first : Option Entry
first = find (λ e. e.id == "i-9") incidents

appended_are_rendered_example :
    (get_postmortem server "i-9" (file 3) ≡ (text_of_incident server "i-9" first, file 3))
    × (authorise server asked (file 3) ≡ resumed server asked first (file 3))
unfolding append
appended_are_rendered_example =
    appended_are_rendered server os (json 3) "audit.jsonl" (λ w. w) os-IsFile incidents asked []
      (file 3) (file 3) (file 3) refl refl (incident-IsJson 2, (other-IsJson 3, tt)) refl refl
      (incident-IsShort, (other-IsShort, tt))
