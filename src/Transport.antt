-- ===== src/Transport.antt =====
-- internal/transport: the messages between the hub and the agents of clusters (the generated types
-- of package pb, by the fields that the code sets), the interface `Handler` of client.go, and
-- handlerresponses.go, which turns a handler's answer into a response.
pub mod Connections
pub mod Client
pub mod Replica
pub mod Replies
pub mod Correlation
pub mod Sessions
pub mod Backoff
pub mod Routing
pub mod Forwarding
use k8s_ts_mcp.Common.{
  ℕ, String, Bool, false, Option, none, some, List, [], Map, Args, Error, error_text, Result, ok,
  err, Call,
}
use k8s_ts_mcp.K8sClient.Nodes.{NodeInfo}
use k8s_ts_mcp.Playbooks.{Signal}
use k8s_ts_mcp.AgentCore.{ProposedAction, Attempt, Diagnosis, Execution}
use k8s_ts_mcp.AgentCore.Scan.{PodIssue}

-- An agent's answer: its error text is empty where the call succeeded.
pub record Response (A : Type 0) : Type 0 where
  pub value : A
  pub error : String

-- `pb.HubMessage`, each with its request id first.
pub data HubMessage : Type 0 where
  diagnose_request : String → Signal → HubMessage
  execute_request : String → String → Signal → HubMessage
  scan_request : String → String → HubMessage
  approve_action_request : String → String → Signal → String → Map String → HubMessage
  get_logs_request : String → String → String → String → ℕ → HubMessage
  list_nodes_request : String → HubMessage

-- `pb.AgentMessage`: a hello with the cluster's id and the agent's version, or a response with the
-- id of its request.
pub data AgentMessage : Type 0 where
  hello : String → String → AgentMessage
  diagnose_reply : String → Response Diagnosis → AgentMessage
  execute_reply : String → Response Execution → AgentMessage
  scan_reply : String → Response (List PodIssue) → AgentMessage
  approve_action_reply : String → Response Attempt → AgentMessage
  get_logs_reply : String → Response String → AgentMessage
  list_nodes_reply : String → Response (List NodeInfo) → AgentMessage

-- The interface `Handler`.
pub record Handler (W : Type 0) : Type 0 where
  pub diagnose : Signal → Call W Diagnosis
  pub execute : String → Signal → Call W Execution
  pub scan : String → Call W (List PodIssue)
  pub approve_action : String → Signal → String → Map String → Call W Attempt
  pub get_logs : String → String → String → ℕ → Call W String
  pub list_nodes : Call W (List NodeInfo)

abbrev pub zero_diagnosis : Diagnosis
zero_diagnosis = record {
  playbook_id = "";
  summary = "";
  proposed_actions = [];
  meta = [];
  no_playbook = false;
}

abbrev pub zero_execution : Execution
zero_execution = record { resolved = false; attempts = [] }

abbrev pub zero_attempt : Attempt
zero_attempt = record {
  action = "";
  description = "";
  risk = "";
  output = "";
  error = "";
  validated = false;
  rolled_back = false;
  skipped = false;
}

module _ {W : Type 0} (sprintf : String → Args → String) (h : Handler W) where
  -- The value that a handler returns beside an error is the zero one.
  abbrev pub response : {A : Type 0} → A → Result A × W → Response A × W
  response zero (ok a, w) = (record { value = a; error = "" }, w)
  response zero (err e, w) = (record { value = zero; error = error_text sprintf e }, w)

  unfoldable pub diagnose_response : Signal → W → Response Diagnosis × W
  diagnose_response sig w = response zero_diagnosis (h.diagnose sig w)

  unfoldable pub execute_response : String → Signal → W → Response Execution × W
  execute_response playbook_id sig w = response zero_execution (h.execute playbook_id sig w)

  unfoldable pub scan_response : String → W → Response (List PodIssue) × W
  scan_response ns w = response [] (h.scan ns w)

  unfoldable pub approve_action_response :
      String → Signal → String → Map String → W → Response Attempt × W
  approve_action_response playbook_id sig name meta w =
      response zero_attempt (h.approve_action playbook_id sig name meta w)

  unfoldable pub get_logs_response : String → String → String → ℕ → W → Response String × W
  get_logs_response ns name deployment tail_lines w =
      response "" (h.get_logs ns name deployment tail_lines w)

  unfoldable pub list_nodes_response : W → Response (List NodeInfo) × W
  list_nodes_response w = response [] (h.list_nodes w)
