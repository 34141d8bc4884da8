-- ===== src/Examples/Watching.antt =====
-- Examples of internal/k8sclient, internal/playbooks and internal/agentcore.
use k8s_ts_mcp.Common.{
  text_contains, has_prefix, cut_prefix, ℕ, suc, ◌+◌, Bool, false, ◌≡◌, refl, Option, none, some,
  List, [], ◌∷◌, foreign, Result, ok, err, Call, arith, find, ap, append_text,
}
use k8s_ts_mcp.ExecEngine.{done, panic, Texts}
use k8s_ts_mcp.K8sClient.{Terminated, Waiting, ContainerStatus, Pod, Api}
use k8s_ts_mcp.K8sClient.Pods.{container_termination, pod_node_name}
use k8s_ts_mcp.Playbooks.{Signal, Finding, find_playbook}
use k8s_ts_mcp.Playbooks.Waiting.{poll, wait_for, IsClock, wait_for_terminates}
use k8s_ts_mcp.Playbooks.CoreK8s.ExecFormat.{exec_format_error, exec_format_diagnose}
use k8s_ts_mcp.Playbooks.BuiltIn.{Settings, built_in}
use k8s_ts_mcp.Playbooks.Laws.{IsSound, built_in-IsSound}
use k8s_ts_mcp.AgentCore.{Execution, handle_execute, handle_approve_action}
use k8s_ts_mcp.AgentCore.Laws.{agent, execute_returns}
use k8s_ts_mcp.AgentCore.Approvals.{approve_exec_format_panics}

abbrev pub texts : Texts
texts = record { sprintf = λ f args. f; scrub = λ s. s; sensitive = λ k. false }

abbrev failing : {A : Type 0} → Call ℕ A
failing w = (err (foreign "no such object"), w)

abbrev nothing : Call ℕ (Unit {0})
nothing w = (ok tt, w)

abbrev status : Bool → Option Waiting → Option Terminated → ℕ → ContainerStatus
status up waits last restarts = record {
  running = up;
  waiting = waits;
  terminated = none;
  last_terminated = last;
  restart_count = restarts;
}

abbrev pod_of : List ContainerStatus → Pod
pod_of css = record {
  namespace = "shop";
  name = "web-1";
  phase = "Running";
  node_name = "";
  owner_references = [];
  container_statuses = css;
  conditions = [];
}

abbrev failed : Terminated
failed = record { reason = "Error"; message = "exit"; exit_code = 1 }

abbrev broken : ContainerStatus
broken = status false none (some failed) 1

-- A cluster of one pod whose world is the clock.
abbrev pub api : Api ℕ
api = record {
  get_pod = λ ns name w. (ok (pod_of (broken ∷ [])), w);
  list_pods = λ ns w. (ok (pod_of (broken ∷ []) ∷ []), w);
  list_pods_by = λ ns sel w. (ok [], w);
  delete_pod = λ ns name. nothing;
  get_logs = λ ns name previous tail. failing;
  get_deployment = λ ns name. failing;
  update_deployment = λ ns name d. nothing;
  get_replica_set = λ ns name. failing;
  get_daemon_set = λ ns name. failing;
  delete_hpa = λ ns name. nothing;
  scaled_object_conditions = λ ns name. failing;
  list_nodes = λ w. (ok [], w);
  get_node = λ name. failing;
  parse_selector = λ s. none;
  now = λ w. w;
  wait = λ d w. (none, w + d);
  sleep = λ d w. w + d;
  timestamp = λ w. "now";
  sprintf = λ f args. f;
  to_lower = λ s. s;
  scale_quantity = λ q. "1Gi";
}

abbrev settings : Settings
settings = record { sorted = λ xs. xs; percent = "50%"; calico_namespace = "calico-system" }

abbrev waiting_check : Call ℕ Bool
waiting_check w = (ok false, w)

IsClock-api : IsClock api waiting_check 5
IsClock-api = record {
  positive = omega arith;
  wait_advances = λ w w' e. omega (arith, ap (λ r. r.1) e);
  check_keeps = λ w. omega arith;
}

wait_for_terminates_example :
    poll api (suc (suc (60 + 7))) 5 (3 + 60) waiting_check 3 ≡ wait_for api 5 60 waiting_check 3
wait_for_terminates_example = wait_for_terminates api waiting_check 5 IsClock-api 60 7 3

abbrev signal : Signal
signal = record { kind = "PodExecFormatError"; namespace = "shop"; name = "web-1"; node_name = "" }

abbrev finding : Finding
finding = record { signal = signal; summary = ""; meta = [] }

built_in-IsSound_example :
    IsSound
      (exec_format_error api settings.sorted)
      ((exec_format_error api settings.sorted).ladder finding)
unfolding find_playbook find built_in exec_format_error
built_in-IsSound_example =
    built_in-IsSound api settings signal (exec_format_error api settings.sorted) finding refl

execute_returns_example :
    (r : Result Execution) × ((handle_execute
        (agent api settings texts)
        "core/crashloopbackoff"
        signal
        0).0
      ≡ done r)
execute_returns_example = execute_returns api settings texts "core/crashloopbackoff" signal 0

abbrev unexecutable : Finding
unexecutable = record {
  signal = signal;
  summary =
      append_text "pod %s/%s não conseguiu executar o entrypoint do container (exit code %d)"
        ": exit";
  meta = [];
}

approve_exec_format_panics_example :
    handle_approve_action
      (agent api settings texts)
      "core/execformaterror"
      signal
      "corrigir incompatibilidade de arquitetura"
      []
      0
    ≡ (panic, 0)
unfolding exec_format_diagnose container_termination pod_node_name text_contains has_prefix
    cut_prefix
approve_exec_format_panics_example =
    approve_exec_format_panics api settings texts "shop" "web-1" "" [] unexecutable 0 0 refl
