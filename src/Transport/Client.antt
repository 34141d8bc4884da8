-- ===== src/Transport/Client.antt =====
-- internal/transport/client.go: the agent's side. `Run` keeps a session with the hub up, and each
-- request that arrives is answered by the handler in a goroutine of its own.
use k8s_ts_mcp.Common.{
  Option, none, some, Error, errorf, end, str, cause, Result, err, Call, ◌>>=◌, pure, raise,
  wrap_err, ℕ, ◌*◌, String, List, [], ◌∷◌, ltb, if◌then◌else◌, Args,
}
use k8s_ts_mcp.Transport.{
  HubMessage, diagnose_request, execute_request, scan_request, approve_action_request,
  get_logs_request, list_nodes_request, AgentMessage, hello, diagnose_reply, execute_reply,
  scan_reply, approve_action_reply, get_logs_reply, list_nodes_reply, Handler, Response,
  diagnose_response, execute_response, scan_response, approve_action_response, get_logs_response,
  list_nodes_response,
}

-- Times in nanoseconds.
abbrev pub second : ℕ
second = 1000000000

abbrev pub max_backoff : ℕ
max_backoff = 30 * second

abbrev pub capped : ℕ → ℕ
capped b = if ltb max_backoff b then max_backoff else b

-- A session that stayed up a while starts the backoff anew.
abbrev pub after_session : (uptime backoff : ℕ) → ℕ
after_session uptime backoff = if ltb max_backoff uptime then second else backoff

-- The loop of `Run`: what it waits after each of its sessions, by how long that one was up.
unfoldable pub run_from : ℕ → List ℕ → List ℕ
run_from backoff [] = []
run_from backoff (uptime ∷ sessions) =
    let wait = after_session uptime backoff in wait ∷ run_from (capped (wait * 2)) sessions

unfoldable pub run : List ℕ → List ℕ
unfolding run_from
run sessions = run_from second sessions

module _ {W : Type 0} (sprintf : String → Args → String) (h : Handler W) where
  abbrev reply : {A : Type 0} → (Response A → AgentMessage) → Response A × W → AgentMessage × W
  reply message (r, w) = (message r, w)

  -- `handleDiagnose` and so on: the message that is sent back.
  unfoldable pub handle : HubMessage → W → AgentMessage × W
  unfolding diagnose_response execute_response scan_response approve_action_response
      get_logs_response list_nodes_response
  handle (diagnose_request id sig) w = reply (diagnose_reply id) (diagnose_response sprintf h sig w)
  handle (execute_request id playbook_id sig) w =
      reply (execute_reply id) (execute_response sprintf h playbook_id sig w)
  handle (scan_request id ns) w = reply (scan_reply id) (scan_response sprintf h ns w)
  handle (approve_action_request id playbook_id sig name meta) w =
      reply (approve_action_reply id)
        (approve_action_response sprintf h playbook_id sig name meta w)
  handle (get_logs_request id ns name deployment tail_lines) w =
      reply (get_logs_reply id) (get_logs_response sprintf h ns name deployment tail_lines w)
  handle (list_nodes_request id) w = reply (list_nodes_reply id) (list_nodes_response sprintf h w)

-- The agent's stream: the errors of dialling and of opening it, and the messages that arrive until it
-- ends, with the error that ends it.
pub record Link (W : Type 0) : Type 0 where
  pub dial : Option Error
  pub open_session : Call W (Unit {0})
  pub send : AgentMessage → Call W (Unit {0})
  pub arrivals : W → (List HubMessage × Error) × W

-- `Client`.
pub record Client (W : Type 0) : Type 0 where
  pub addr : String
  pub cluster_id : String
  pub version : String
  pub handler : Handler W
  pub link : Link W
  pub sprintf : String → Args → String

module _ {W : Type 0} (c : Client W) where
  open c use {link}

  -- The requests that arrive, each with its goroutine; here one runs after the other. An error of a
  -- send is only logged.
  unfoldable pub answer_all : List HubMessage → W → W
  unfolding handle
  answer_all [] w = w
  answer_all (m ∷ ms) w =
      let (answer, w') = handle c.sprintf c.handler m w in answer_all ms (link.send answer w').1

  abbrev ended : (List HubMessage × Error) × W → Result (Unit {0}) × W
  ended ((ms, e), w) = (err (errorf "receiving from hub: %w" (cause e end)), answer_all ms w)

  abbrev dialled : Option Error → Call W (Unit {0})
  dialled none = pure tt
  dialled (some e) = raise (errorf "dialing hub at %s: %w" (str c.addr (cause e end)))

  -- `runOnce`, which ends with an error.
  unfoldable pub run_once : Call W (Unit {0})
  unfolding answer_all
  run_once = do
    _ ← dialled link.dial
    _ ← wrap_err (λ e. errorf "opening session: %w" (cause e end)) link.open_session
    _ ←
        wrap_err (λ e. errorf "sending hello: %w" (cause e end))
          (link.send (hello c.cluster_id c.version))
    λ w. ended (link.arrivals w)
