-- ===== src/Transport/Replica/Requests.antt =====
-- internal/transport/server.go: the six requests of `Server`, each with its local form
-- (`diagnoseLocal` and so on), and `internalServiceServer`, which other replicas call.
-- The six bodies differ in the message that they send and in the reply that they read.
use k8s_ts_mcp.Common.{
  ℕ, String, Option, none, some, List, Map, insert, Error, errorf, end, str, cause, Result, ok, err,
  Call, ◌>>=◌, raise,
}
use k8s_ts_mcp.K8sClient.Nodes.{NodeInfo}
use k8s_ts_mcp.Playbooks.{Signal}
use k8s_ts_mcp.AgentCore.{Attempt, Diagnosis, Execution}
use k8s_ts_mcp.AgentCore.Scan.{PodIssue}
use k8s_ts_mcp.Transport.{
  HubMessage, diagnose_request, execute_request, scan_request, approve_action_request,
  get_logs_request, list_nodes_request, AgentMessage, diagnose_reply, execute_reply, scan_reply,
  approve_action_reply, get_logs_reply, list_nodes_reply, Handler, Response, diagnose_response,
  execute_response, scan_response, approve_action_response, get_logs_response, list_nodes_response,
}
use k8s_ts_mcp.Transport.Connections.{Conn, await, forget, dispatch_all}
use k8s_ts_mcp.Transport.Replica.{Peer, Config, Replica, not_connected, outside, get}
use k8s_ts_mcp.Transport.Replica.Peers.{peer_for, try_role}

-- What tells the requests apart: the message, the reply that is read, the call of a handler and the
-- call of a peer, and the formats of two errors.
pub record Request (W A : Type 0) : Type 0 where
  pub message : String → HubMessage
  pub read : AgentMessage → Option (Response A)
  pub in_process : Handler W → W → Response A × W
  pub forwarded : Peer W → String → String → Call W (Response A)
  pub sending : String
  pub unexpected : String

abbrev pub as_diagnose : AgentMessage → Option (Response Diagnosis)
as_diagnose (diagnose_reply id r) = some r
as_diagnose _ = none

abbrev pub as_execute : AgentMessage → Option (Response Execution)
as_execute (execute_reply id r) = some r
as_execute _ = none

abbrev pub as_scan : AgentMessage → Option (Response (List PodIssue))
as_scan (scan_reply id r) = some r
as_scan _ = none

abbrev pub as_approve_action : AgentMessage → Option (Response Attempt)
as_approve_action (approve_action_reply id r) = some r
as_approve_action _ = none

abbrev pub as_get_logs : AgentMessage → Option (Response String)
as_get_logs (get_logs_reply id r) = some r
as_get_logs _ = none

abbrev pub as_list_nodes : AgentMessage → Option (Response (List NodeInfo))
as_list_nodes (list_nodes_reply id r) = some r
as_list_nodes _ = none

module _ {W : Type 0} (config : Config W) where
  open config use {wire}

  -- The connection is a shared object: what happens to it is written back.
  abbrev pub with_conn : Conn → Replica × W → Replica × W
  with_conn c (r, w) = (record r { agents = insert c.cluster_id c r.agents }, w)

  module _ {A : Type 0} (q : Request W A) where
    -- What the request reads from its channel when it stops waiting. Where a reply and the end of
    -- the context are both there the code takes either; here it takes the reply.
    abbrev pub selected : Conn → Error → Option AgentMessage → Result (Response A)
    selected c ended none = err ended
    selected c ended (some m) = elim (q.read m) [
      | none ↦ err (errorf q.unexpected (str c.cluster_id end))
      | some r ↦ ok r
    ]

    abbrev pub replied_to :
        String → ℕ → Conn → (List AgentMessage × Error) × W → Result (Response A) × Conn × W
    replied_to id ch c ((ms, ended), w) =
        let after = dispatch_all ms c in (selected c ended (after.channels ch), forget id after, w)

    abbrev pub sent : String → ℕ → Conn → Result (Unit {0}) × W → Result (Response A) × Conn × W
    sent id ch c (err e, w) =
        (err (errorf q.sending (str c.cluster_id (cause e end))), forget id c, w)
    sent id ch c (ok _, w) = replied_to id ch c (wire.arrivals c.cluster_id w)

    abbrev pub awaited : String → ℕ × Conn → W → Result (Response A) × Conn × W
    awaited id (ch, c) w = sent id ch c (wire.send c.cluster_id (q.message id) w)

    -- The request on a connection: its answer, the connection afterwards and the world.
    unfoldable pub exchange : Conn → W → Result (Response A) × Conn × W
    unfolding await forget dispatch_all
    exchange c w = let (id, w') = wire.new_request_id w in awaited id (await id c) w'

    abbrev pub locally : Conn → Call (Replica × W) (Response A)
    locally c (r, w) = let (answer, c', w') = exchange c w in (answer, with_conn c' (r, w'))

    abbrev pub fresh_id : Call (Replica × W) String
    fresh_id (r, w) = let (id, w') = wire.new_request_id w in (ok id, (r, w'))

    abbrev pub by_peer : String → Call (Replica × W) (Response A)
    by_peer id = do peer ← peer_for config id; req ← fresh_id; outside (q.forwarded peer req id)

    abbrev pub by_agent : String → Option Conn → Call (Replica × W) (Response A)
    by_agent id none = by_peer id
    by_agent id (some c) = locally c

    abbrev pub by_role :
        String → Replica → Option (Result (Handler W)) × W → Result (Response A) × (Replica × W)
    by_role id r (none, w) = by_agent id (get config id r) (r, w)
    by_role id r (some (err e), w) = (err e, (r, w))
    by_role id r (some (ok h), w) = let (resp, w') = q.in_process h w in (ok resp, (r, w'))

    -- A request of the hub: a role's handler first, then this replica's agents, then a peer.
    unfoldable pub request : String → Call (Replica × W) (Response A)
    unfolding try_role get exchange peer_for
    request id (r, w) = by_role id r (try_role config id w)

    abbrev pub only_here : String → Option Conn → Call (Replica × W) (Response A)
    only_here id none = raise (not_connected id)
    only_here id (some c) = locally c

    -- A request of another replica, which is answered here or not at all.
    unfoldable pub internal_request : String → Call (Replica × W) (Response A)
    unfolding get exchange
    internal_request id (r, w) = only_here id (get config id r) (r, w)

  -- Each request by what tells it apart.
  abbrev pub diagnose : Signal → Request W Diagnosis
  diagnose sig = record {
    message = λ id. diagnose_request id sig;
    read = as_diagnose;
    in_process = λ h. diagnose_response wire.sprintf h sig;
    forwarded = λ p id cluster. p.diagnose id sig cluster;
    sending = "sending diagnose request to %s: %w";
    unexpected = "cluster %s sent an unexpected reply to a diagnose request";
  }

  abbrev pub execute : String → Signal → Request W Execution
  execute playbook_id sig = record {
    message = λ id. execute_request id playbook_id sig;
    read = as_execute;
    in_process = λ h. execute_response wire.sprintf h playbook_id sig;
    forwarded = λ p id cluster. p.execute id playbook_id sig cluster;
    sending = "sending execute request to %s: %w";
    unexpected = "cluster %s sent an unexpected reply to an execute request";
  }

  abbrev pub scan : String → Request W (List PodIssue)
  scan ns = record {
    message = λ id. scan_request id ns;
    read = as_scan;
    in_process = λ h. scan_response wire.sprintf h ns;
    forwarded = λ p id cluster. p.scan id ns cluster;
    sending = "sending scan request to %s: %w";
    unexpected = "cluster %s sent an unexpected reply to a scan request";
  }

  abbrev pub approve_action : String → Signal → String → Map String → Request W Attempt
  approve_action playbook_id sig name meta = record {
    message = λ id. approve_action_request id playbook_id sig name meta;
    read = as_approve_action;
    in_process = λ h. approve_action_response wire.sprintf h playbook_id sig name meta;
    forwarded = λ p id cluster. p.approve_action id playbook_id sig name meta cluster;
    sending = "sending approve_action request to %s: %w";
    unexpected = "cluster %s sent an unexpected reply to an approve_action request";
  }

  abbrev pub get_logs : String → String → String → ℕ → Request W String
  get_logs ns name deployment tail_lines = record {
    message = λ id. get_logs_request id ns name deployment tail_lines;
    read = as_get_logs;
    in_process = λ h. get_logs_response wire.sprintf h ns name deployment tail_lines;
    forwarded = λ p id cluster. p.get_logs id ns name deployment tail_lines cluster;
    sending = "sending get_logs request to %s: %w";
    unexpected = "cluster %s sent an unexpected reply to a get_logs request";
  }

  abbrev pub list_nodes : Request W (List NodeInfo)
  list_nodes = record {
    message = λ id. list_nodes_request id;
    read = as_list_nodes;
    in_process = λ h. list_nodes_response wire.sprintf h;
    forwarded = λ p id cluster. p.list_nodes id cluster;
    sending = "sending list_nodes request to %s: %w";
    unexpected = "cluster %s sent an unexpected reply to a list_nodes request";
  }

-- `internalServiceServer`: what a replica answers to the others.
abbrev pub internal_service : {W : Type 0} → Config W → Peer (Replica × W)
internal_service config = record {
  diagnose = λ id sig cluster. internal_request config (diagnose config sig) cluster;
  execute = λ id playbook_id sig cluster.
      internal_request config (execute config playbook_id sig) cluster;
  scan = λ id ns cluster. internal_request config (scan config ns) cluster;
  approve_action = λ id playbook_id sig name meta cluster.
      internal_request config (approve_action config playbook_id sig name meta) cluster;
  get_logs = λ id ns name deployment tail_lines cluster.
      internal_request config (get_logs config ns name deployment tail_lines) cluster;
  list_nodes = λ id cluster. internal_request config (list_nodes config) cluster;
}
