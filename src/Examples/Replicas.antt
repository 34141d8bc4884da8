-- ===== src/Examples/Replicas.antt =====
-- Examples of two replicas of internal/transport.
use k8s_ts_mcp.Common.{
  inr, find, ℕ, ◌≡◌, refl, true, none, some, [], ◌∷◌, foreign, ok, err, Call, contains, lookup,
}
use k8s_ts_mcp.Registry.{Registry}
use k8s_ts_mcp.Transport.Replica.{Config, Replica, Wire, RoleResolver, new_server, get}
use k8s_ts_mcp.Transport.Replica.Requests.{diagnose, request, internal_service}
use k8s_ts_mcp.Transport.{diagnose_response}
use k8s_ts_mcp.Transport.Client.{handle}
use k8s_ts_mcp.Transport.Replies.{new_conn-Inv}
use k8s_ts_mcp.Transport.Replica.Peers.{try_role}
use k8s_ts_mcp.Transport.Forwarding.{same_diagnose, forwarded_is_transparent}
use k8s_ts_mcp.Examples.Channels.{killed, config, spoke, format, agent, stale, reply}

abbrev unavailable : {A : Type 0} → Call (Replica × ℕ) A
unavailable s = (err (foreign "unavailable"), s)

-- The registry knows one replica, at the address of `config`.
abbrev shared_registry : Registry (Replica × ℕ)
shared_registry = record {
  announce = λ id addr ttl. unavailable;
  heartbeat = λ id addr ttl. unavailable;
  lookup_replica = λ id s. (ok (some "10.0.0.1:9443"), s);
  forget = λ id. unavailable;
  list_clusters = unavailable;
}

abbrev wire_to_other : Wire (Replica × ℕ)
wire_to_other = record {
  sprintf = format;
  new_request_id = λ s. ("r-9", s);
  send = λ id m. unavailable;
  arrivals = λ id s. (([], foreign "unavailable"), s);
  dial = λ addr. none;
  peer = λ addr. internal_service config;
}

-- No role serves the cluster.
abbrev no_roles : RoleResolver (Replica × ℕ)
no_roles = record { cluster_ids = "eks-1" ∷ []; handler = λ id s. (none, s) }

abbrev here : Config (Replica × ℕ)
here = record {
  registry = some shared_registry;
  self_addr = "10.0.0.2:9443";
  has_peer_creds = true;
  ttl = 0;
  heartbeat_interval = 0;
  role_resolver = some no_roles;
  wire = wire_to_other;
}

abbrev holder : Replica
holder = record new_server { agents = ("spoke-1", spoke) ∷ [] }

forwarded_is_transparent_example :
    (request here (diagnose here killed) "spoke-1" (new_server, (holder, 0))).0
    ≡ ok (diagnose_response format agent killed 7).0
unfolding get lookup contains find handle diagnose_response try_role
forwarded_is_transparent_example =
    forwarded_is_transparent here config (diagnose here killed) (diagnose config killed)
      shared_registry "spoke-1" "10.0.0.1:9443" "r-9" "r-1" new_server holder (holder, 0)
      (holder, 0) 0 0 0 0 0 7 spoke agent (stale ∷ reply ∷ []) (foreign "context canceled")
      (same_diagnose killed) refl refl refl refl (inr (refl, refl, refl)) refl refl refl
      (new_conn-Inv "spoke-1" 0) refl refl refl refl
