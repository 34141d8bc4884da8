-- ===== src/Transport/Replica/Peers.antt =====
-- internal/transport/server.go: the other ways to a cluster, `peerFor` and `tryRole`.
use k8s_ts_mcp.Common.{
  String, not, Option, none, some, ◌∷◌, if◌then◌else◌, contains, errorf, end, str, cause, Result,
  ok, err, Call, ◌>>=◌, pure, raise, wrap_err,
}
use k8s_ts_mcp.Registry.{Registry}
use k8s_ts_mcp.Transport.{Handler}
use k8s_ts_mcp.Transport.Replica.{Peer, RoleResolver, Config, Replica, not_connected, outside}

module _ {W : Type 0} (config : Config W) where
  open config use {registry, role_resolver, wire}

  -- `peerConn`: a connection is dialled once.
  unfoldable pub peer_conn : String → Call (Replica × W) (Unit {0})
  unfolding contains
  peer_conn addr (r, w) =
      if contains addr r.peers
      then (ok tt, (r, w))
      else if not config.has_peer_creds
      then (err (errorf "no PeerCreds configured for replica-to-replica forwarding" end), (r, w))
      else elim (wire.dial addr) [
        | some e ↦ (err e, (r, w))
        | none ↦ (ok tt, (record r { peers = addr ∷ r.peers }, w))
      ]

  abbrev peer_at : String → Option String → Call (Replica × W) (Peer W)
  peer_at id none = raise (not_connected id)
  peer_at id (some addr) = do
    _ ←
        wrap_err
          (λ e.
            errorf "dialing peer replica %s for cluster %s: %w" (str addr (str id (cause e end))))
          (peer_conn addr)
    pure (wire.peer addr)

  abbrev pub peer_by : String → Option (Registry W) → Call (Replica × W) (Peer W)
  peer_by id none = raise (not_connected id)
  peer_by id (some g) = do
    addr ←
        wrap_err (λ e. errorf "looking up cluster %s in registry: %w" (str id (cause e end)))
          (outside (g.lookup_replica id))
    peer_at id addr

  unfoldable pub peer_for : String → Call (Replica × W) (Peer W)
  unfolding peer_conn
  peer_for id = peer_by id registry

  abbrev pub role_by : Option (RoleResolver W) → String → W → Option (Result (Handler W)) × W
  role_by none id w = (none, w)
  role_by (some rr) id w = rr.handler id w

  -- `tryRole`; `none` where nothing is found.
  unfoldable pub try_role : String → W → Option (Result (Handler W)) × W
  try_role id w = role_by role_resolver id w
