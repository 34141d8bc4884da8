-- ===== src/Transport/Connections.antt =====
-- internal/transport/server.go, `agentConn`: one agent's stream and the requests in flight on it.
-- A reply's channel has room for one message; channels are named by numbers, in the order in which
-- they are made, and hold what was sent and not yet taken.
use k8s_ts_mcp.Common.{
  ℕ, suc, String, Bool, false, Option, none, some, List, [], ◌∷◌, if◌then◌else◌, eqb, Map, lookup,
  insert, delete,
}
use k8s_ts_mcp.Transport.{
  AgentMessage, hello, diagnose_reply, execute_reply, scan_reply, approve_action_reply,
  get_logs_reply, list_nodes_reply,
}

-- `serial` tells connections of one cluster apart, as their pointers do; `stop_heartbeat` is whether
-- there is a loop to stop.
pub record Conn : Type 0 where
  pub cluster_id : String
  pub serial : ℕ
  pub pending : Map ℕ
  pub channels : ℕ → Option AgentMessage
  pub next : ℕ
  pub stop_heartbeat : Bool

abbrev pub new_conn : String → ℕ → Conn
new_conn id serial = record {
  cluster_id = id;
  serial = serial;
  pending = [];
  channels = λ _. none;
  next = 0;
  stop_heartbeat = false;
}

abbrev pub put_in : ℕ → Option AgentMessage → (ℕ → Option AgentMessage) → ℕ → Option AgentMessage
put_in ch m channels k = if eqb ch k then m else channels k

-- `await`: the new channel and the connection that knows it.
unfoldable pub await : String → Conn → ℕ × Conn
unfolding insert
await id c = (c.next, record c { pending = insert id c.next c.pending; next = suc c.next })

unfoldable pub forget : String → Conn → Conn
unfolding delete
forget id c = record c { pending = delete id c.pending }

abbrev pub request_id : AgentMessage → Option String
request_id (hello cluster version) = none
request_id (diagnose_reply id r) = some id
request_id (execute_reply id r) = some id
request_id (scan_reply id r) = some id
request_id (approve_action_reply id r) = some id
request_id (get_logs_reply id r) = some id
request_id (list_nodes_reply id r) = some id

-- `ch <- msg`: `none` where the channel is full, so that the sender is stuck.
abbrev pub send_to : ℕ → AgentMessage → Conn → Option AgentMessage → Option Conn
send_to ch msg c none = some (record c { channels = put_in ch (some msg) c.channels })
send_to ch msg c (some m) = none

abbrev pub dispatch_to : AgentMessage → String → Conn → Option ℕ → Option Conn
dispatch_to msg id c none = some c
dispatch_to msg id c (some ch) =
    send_to ch msg (record c { pending = delete id c.pending }) (c.channels ch)

abbrev pub dispatch_by : AgentMessage → Conn → Option String → Option Conn
dispatch_by msg c none = some c
dispatch_by msg c (some id) = dispatch_to msg id c (lookup id c.pending)

-- `dispatch`; `none` where it does not return.
unfoldable pub dispatch : AgentMessage → Conn → Option Conn
unfolding lookup delete
dispatch msg c = dispatch_by msg c (request_id msg)

-- `<-ch` of a channel that holds a message, which leaves it empty.
unfoldable pub take : ℕ → Conn → Conn
take ch c = record c { channels = put_in ch none c.channels }

-- The receiving loop of `Session`, on the messages that arrive.
unfoldable pub dispatch_all : List AgentMessage → Conn → Conn
unfolding dispatch
dispatch_all [] c = c
dispatch_all (m ∷ ms) c = elim (dispatch m c) [ none ↦ c | some c' ↦ dispatch_all ms c' ]
