-- ===== src/Examples/Channels.antt =====
-- Examples of internal/transport and internal/registry.
use k8s_ts_mcp.Common.{
  ℕ, ◌≤◌, ◌↔◌, suc, ◌*◌, String, true, false, ◌≡◌, refl, none, some, List, [], ◌∷◌, find, foreign,
  ok, err, Call, Args, All, lookup, insert, delete,
}
use k8s_ts_mcp.Playbooks.{Signal}
use k8s_ts_mcp.AgentCore.{Diagnosis}
use k8s_ts_mcp.Registry.{Registry, announce_at, lookup_at, list_at}
use k8s_ts_mcp.Registry.Directory.{
  Change, announced, run as run_changes, Announces, in_memory_refines,
}
use k8s_ts_mcp.Transport.{
  AgentMessage, diagnose_reply, list_nodes_reply, Handler, diagnose_response,
}
use k8s_ts_mcp.Transport.Connections.{Conn, new_conn, await, dispatch, dispatch_all, request_id}
use k8s_ts_mcp.Transport.Client.{handle, second, run}
use k8s_ts_mcp.Transport.Backoff.{Within, backoff_bounds}
use k8s_ts_mcp.Transport.Replies.{
  awaits, dispatches, none_left, more, Inv, new_conn-Inv, dispatch_returns,
}
use k8s_ts_mcp.Transport.Correlation.{replies_correlated}
use k8s_ts_mcp.Transport.Replica.{Config, Wire, Peer, new_server, get, register, unregister}
use k8s_ts_mcp.Transport.Replica.Requests.{diagnose, exchange}
use k8s_ts_mcp.Transport.Routing.{is_diagnose, exchange_is_transparent}
use k8s_ts_mcp.Transport.Sessions.{
  begins, nothing_yet, then_one, Beats, heartbeats_held, overlapping_sessions_leak,
}

abbrev pub failing : {A : Type 0} → Call ℕ A
failing w = (err (foreign "unavailable"), w)

abbrev pub killed : Signal
killed = record { kind = "PodOOMKilled"; namespace = "shop"; name = "web-1"; node_name = "" }

abbrev pub diagnosis : Diagnosis
diagnosis = record {
  playbook_id = "core/oomkilled";
  summary = "killed";
  proposed_actions = [];
  meta = [];
  no_playbook = false;
}

abbrev pub agent : Handler ℕ
agent = record {
  diagnose = λ sig w. (ok diagnosis, suc w);
  execute = λ id sig. failing;
  scan = λ ns. failing;
  approve_action = λ id sig name meta. failing;
  get_logs = λ ns name deployment tail_lines. failing;
  list_nodes = failing;
}

-- A stream on which a reply to an older request comes before the one that is waited for.
abbrev pub stale : AgentMessage
stale = list_nodes_reply "r-0" (record { value = []; error = "" })

abbrev pub reply : AgentMessage
reply = diagnose_reply "r-1" (record { value = diagnosis; error = "" })

abbrev no_peer : Peer ℕ
no_peer = record {
  diagnose = λ id sig cluster. failing;
  execute = λ id playbook_id sig cluster. failing;
  scan = λ id ns cluster. failing;
  approve_action = λ id playbook_id sig name meta cluster. failing;
  get_logs = λ id ns name deployment tail_lines cluster. failing;
  list_nodes = λ id cluster. failing;
}

abbrev pub format : String → Args → String
format f args = f

abbrev wire : Wire ℕ
wire = record {
  sprintf = format;
  new_request_id = λ w. ("r-1", w);
  send = λ id m w. (ok tt, w);
  arrivals = λ id w. ((stale ∷ reply ∷ [], foreign "context canceled"), w);
  dial = λ addr. none;
  peer = λ addr. no_peer;
}

abbrev silent_registry : Registry ℕ
silent_registry = record {
  announce = λ id addr ttl w. (ok tt, w);
  heartbeat = λ id addr ttl w. (ok tt, w);
  lookup_replica = λ id. failing;
  forget = λ id w. (ok tt, w);
  list_clusters = failing;
}

abbrev pub config : Config ℕ
config = record {
  registry = some silent_registry;
  self_addr = "10.0.0.1:9443";
  has_peer_creds = true;
  ttl = 0;
  heartbeat_interval = 0;
  role_resolver = none;
  wire = wire;
}

abbrev pub spoke : Conn
spoke = new_conn "spoke-1" 0

exchange_is_transparent_example :
    (exchange config (diagnose config killed) spoke 0).0
    ≡ ok (diagnose_response format agent killed 7).0
unfolding find handle diagnose_response
exchange_is_transparent_example =
    exchange_is_transparent config (diagnose config killed) agent spoke "r-1" 0 0 0 0 7
      (stale ∷ reply ∷ []) (foreign "context canceled") (is_diagnose killed)
      (new_conn-Inv "spoke-1" 0) refl refl refl refl

dispatch_returns_example : (c' : Conn) × (dispatch reply (await "r-1" spoke).1 ≡ some c') × Inv c'
dispatch_returns_example =
    dispatch_returns "spoke-1" 0 (await "r-1" spoke).1 reply (more none_left (awaits spoke "r-1"))

-- The connection after the reply was handed on.
abbrev answered : Conn
answered = dispatch_all (reply ∷ []) (await "r-1" spoke).1

replies_correlated_example : request_id reply ≡ some "r-1"
unfolding await dispatch dispatch_all insert lookup delete
replies_correlated_example =
    replies_correlated "spoke-1" 0 "r-1" spoke answered reply none_left
      (more none_left (dispatches (await "r-1" spoke).1 answered reply refl)) refl

backoff_bounds_example : All Within (run (0 ∷ 0 ∷ 40 * second ∷ 0 ∷ []))
backoff_bounds_example = backoff_bounds (0 ∷ 0 ∷ 40 * second ∷ 0 ∷ [])

heartbeats_held_example : Beats config (register config spoke (new_server, 0)).0
unfolding lookup
heartbeats_held_example =
    heartbeats_held config 0 (register config spoke (new_server, 0))
      (then_one nothing_yet (begins (new_server, 0) spoke refl))

overlapping_sessions_leak_example :
    let both =
      register config
        (new_conn "spoke-1" 1)
        (register config (new_conn "spoke-1" 0) (new_server, 0)) in
    let one = unregister config "spoke-1" both in
    let over = unregister config "spoke-1" one in
    (get config "spoke-1" one.0 ≡ none)
    × (get config "spoke-1" over.0 ≡ none)
    × (over.0.heartbeats ≡ (0, "spoke-1") ∷ [])
overlapping_sessions_leak_example =
    overlapping_sessions_leak config silent_registry "spoke-1" 0 refl

abbrev changes : List Change
changes = announced 0 "spoke-1" "10.0.0.1:9443" 30 ∷ announced 20 "spoke-1" "10.0.0.2:9443" 30 ∷ []

in_memory_refines_example :
    (lookup_at 40 "spoke-1" (run_changes changes []) ≡ some "10.0.0.2:9443")
    ↔ ((until : ℕ) × Announces "spoke-1" "10.0.0.2:9443" until changes × (40 ≤ until))
in_memory_refines_example = in_memory_refines changes 40 "spoke-1" "10.0.0.2:9443"

-- A lookup at the very end of a record's time still finds it, a list does not.
expires_tests :
    (lookup_at 30 "spoke-1" (announce_at 0 "spoke-1" "10.0.0.1:9443" 30 []) ≡ some "10.0.0.1:9443")
    × (list_at 30 (announce_at 0 "spoke-1" "10.0.0.1:9443" 30 []) ≡ [])
unfolding lookup_at announce_at list_at lookup insert
expires_tests = (refl, refl)
