-- ===== src/Transport/Replica.antt =====
-- internal/transport/server.go, `Server`: one replica of the hub. Its mutable state is `Replica`,
-- its configuration `Config`; a call acts on the replica and on the rest of the world.
pub mod Peers
pub mod Requests
use k8s_ts_mcp.Common.{
  ℕ, suc, String, Bool, true, false, not, Option, none, some, List, [], ◌∷◌, ◌++◌, ◌==◌,
  if◌then◌else◌, eqb, ltb, contains, select, Map, lookup, insert, delete, Error, errorf, end, str,
  cause, Args, Result, ok, err, Call, continue, ◌>>=◌, pure, raise, wrap_err,
}
use k8s_ts_mcp.K8sClient.Nodes.{NodeInfo}
use k8s_ts_mcp.Playbooks.{Signal}
use k8s_ts_mcp.AgentCore.{Attempt, Diagnosis, Execution}
use k8s_ts_mcp.AgentCore.Scan.{PodIssue}
use k8s_ts_mcp.Registry.{Registry}
use k8s_ts_mcp.Transport.{HubMessage, AgentMessage, hello, Handler, Response}
use k8s_ts_mcp.Transport.Connections.{Conn, new_conn, dispatch_all}

-- A client of another replica's `InternalService`: each call with its request id and its cluster.
pub record Peer (W : Type 0) : Type 0 where
  pub diagnose : String → Signal → String → Call W (Response Diagnosis)
  pub execute : String → String → Signal → String → Call W (Response Execution)
  pub scan : String → String → String → Call W (Response (List PodIssue))
  pub approve_action :
      String → String → Signal → String → Map String → String → Call W (Response Attempt)
  pub get_logs : String → String → String → String → ℕ → String → Call W (Response String)
  pub list_nodes : String → String → Call W (Response (List NodeInfo))

-- `handler` answers `none` where its `ok` is false.
pub record RoleResolver (W : Type 0) : Type 0 where
  pub cluster_ids : List String
  pub handler : String → W → Option (Result (Handler W)) × W

-- gRPC and package rand. `arrivals id` are the messages that the receiving loop of the cluster's
-- connection hands on while a request waits, up to its reply or the end of its context, whose error
-- is given too; `dial` is the error of `grpc.NewClient`.
pub record Wire (W : Type 0) : Type 0 where
  pub sprintf : String → Args → String
  pub new_request_id : W → String × W
  pub send : String → HubMessage → Call W (Unit {0})
  pub arrivals : String → W → (List AgentMessage × Error) × W
  pub dial : String → Option Error
  pub peer : String → Peer W

pub record Config (W : Type 0) : Type 0 where
  pub registry : Option (Registry W)
  pub self_addr : String
  pub has_peer_creds : Bool
  pub ttl : ℕ
  pub heartbeat_interval : ℕ
  pub role_resolver : Option (RoleResolver W)
  pub wire : Wire W

-- `agents` and `peers`, with the heartbeat loops that run, each by its connection and cluster, and
-- the number of the next connection.
pub record Replica : Type 0 where
  pub agents : Map Conn
  pub peers : List String
  pub heartbeats : List (ℕ × String)
  pub next_serial : ℕ

abbrev pub new_server : Replica
new_server = record { agents = []; peers = []; heartbeats = []; next_serial = 0 }

-- `ErrClusterNotConnected`.
abbrev pub not_connected : String → Error
not_connected id = errorf "cluster %q não está conectado ao hub agora" (str id end)

abbrev pub default_ttl : ℕ
default_ttl = 30000000000

abbrev pub default_heartbeat_interval : ℕ
default_heartbeat_interval = 10000000000

abbrev or_default : ℕ → ℕ → ℕ
or_default n default = if ltb 0 n then n else default

-- A call that leaves the replica alone.
abbrev pub outside : {W A : Type 0} → Call W A → Call (Replica × W) A
outside m (r, w) = continue (m w) (λ a w'. (ok a, (r, w'))) (λ e w'. (err e, (r, w')))

-- An error is only logged.
abbrev pub ignored : {W A : Type 0} → Call W A → W → W
ignored m w = (m w).1

module _ {W : Type 0} (config : Config W) where
  open config use {registry, self_addr, role_resolver, wire}

  abbrev pub record_ttl : ℕ
  record_ttl = or_default config.ttl default_ttl

  abbrev pub heartbeat_every : ℕ
  heartbeat_every = or_default config.heartbeat_interval default_heartbeat_interval

  abbrev pub register_with : Option (Registry W) → Conn → Replica × W → Replica × W
  register_with none c (r, w) = (record r { agents = insert c.cluster_id c r.agents }, w)
  register_with (some g) c (r, w) = (
    record r {
      agents = insert c.cluster_id (record c { stop_heartbeat = true }) r.agents;
      heartbeats = (c.serial, c.cluster_id) ∷ r.heartbeats;
    },
    ignored (g.announce c.cluster_id self_addr record_ttl) w,
  )

  unfoldable pub register : Conn → Replica × W → Replica × W
  unfolding insert
  register c s = register_with registry c s

  -- One tick of the loop of a connection that has not been told to stop.
  abbrev beat_with : Option (Registry W) → String → W → W
  beat_with none id w = w
  beat_with (some g) id w = ignored (g.heartbeat id self_addr record_ttl) w

  unfoldable pub heartbeat_loop_tick : ℕ × String → Replica × W → Replica × W
  heartbeat_loop_tick (serial, id) (r, w) = (r, beat_with registry id w)

  abbrev pub stopped : Option Conn → List (ℕ × String) → List (ℕ × String)
  stopped none beats = beats
  stopped (some c) beats =
      if c.stop_heartbeat then select (λ (b : ℕ × String). not (eqb b.0 c.serial)) beats else beats

  abbrev pub forget_with : Option (Registry W) → String → W → W
  forget_with none id w = w
  forget_with (some g) id w = ignored (g.forget id) w

  -- `unregister` has the cluster's id alone: what it removes is whatever connection is there.
  unfoldable pub unregister : String → Replica × W → Replica × W
  unfolding lookup delete select
  unregister id (r, w) = (
    record r {
      agents = delete id r.agents;
      heartbeats = stopped (lookup id r.agents) r.heartbeats;
    },
    forget_with registry id w,
  )

  -- The first message of a session.
  abbrev no_hello : Error
  no_hello = errorf "first message on a session must be a Hello with a cluster_id" end

  unfoldable pub hello_of : Result AgentMessage → Result String
  hello_of (err e) = err (errorf "receiving hello: %w" (cause e end))
  hello_of (ok (hello id version)) = if id == "" then err no_hello else ok id
  hello_of (ok _) = err no_hello

  -- The receiving loop works on the connection that the map holds, where it is still this one.
  abbrev received : ℕ → String → List AgentMessage → Replica → Option Conn → Replica
  received serial id ms r none = r
  received serial id ms r (some c) =
      if eqb c.serial serial
      then record r { agents = insert id (dispatch_all ms c) r.agents }
      else r

  abbrev numbered : Replica × W → Replica × W
  numbered (r, w) = (record r { next_serial = suc r.next_serial }, w)

  abbrev run_session :
      ℕ
      → List AgentMessage
      → Error
      → Result String
      → Replica × W
      → Result (Unit {0}) × (Replica × W)
  run_session serial ms last (err e) s = (err e, s)
  run_session serial ms last (ok id) s =
      let (r, w) = register (new_conn id serial) (numbered s) in
      (err last, unregister id (received serial id ms r (lookup id r.agents), w))

  -- `Session`, from its first message to the error that ends it, where nothing else runs.
  unfoldable pub session :
      Result AgentMessage → List AgentMessage → Error → Call (Replica × W) (Unit {0})
  unfolding register unregister hello_of dispatch_all lookup
  session first ms last (r, w) = run_session r.next_serial ms last (hello_of first) (r, w)

  unfoldable pub get : String → Replica → Option Conn
  unfolding lookup
  get id r = lookup id r.agents

  unfoldable pub local_clusters : Map Conn → List String
  local_clusters [] = []
  local_clusters ((id, c) ∷ m) = id ∷ local_clusters m

  abbrev role_clusters : Option (RoleResolver W) → List String
  role_clusters none = []
  role_clusters (some rr) = rr.cluster_ids

  abbrev agent_clusters : Option (Registry W) → Call (Replica × W) (List String)
  agent_clusters none (r, w) = (ok (local_clusters r.agents), (r, w))
  agent_clusters (some g) s = outside g.list_clusters s

  unfoldable pub connected_clusters : Call (Replica × W) (List String)
  unfolding local_clusters
  connected_clusters = do ids ← agent_clusters registry; pure (ids ++ role_clusters role_resolver)
