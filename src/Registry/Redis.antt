-- ===== src/Registry/Redis.antt =====
-- internal/registry/redis.go: the registry that replicas share, over a client of Redis.
use k8s_ts_mcp.Common.{
  ℕ, String, append_text, Option, List, errorf, end, str, cause, Call, ◌>>=◌, pure, wrap_err, map,
  trim_prefix,
}
use k8s_ts_mcp.Registry.{Registry}

abbrev pub key_prefix : String
key_prefix = "k8sts:agent:"

-- The client: `get` answers `none` for a key that is not there, `scan` the keys of a pattern.
pub record Client (W : Type 0) : Type 0 where
  pub set : String → String → ℕ → Call W (Unit {0})
  pub get : String → Call W (Option String)
  pub del : String → Call W (Unit {0})
  pub scan : String → Call W (List String)

module _ {W : Type 0} (client : Client W) where
  abbrev pub key : String → String
  key id = append_text key_prefix id

  unfoldable pub announce_in_redis : String → String → ℕ → Call W (Unit {0})
  announce_in_redis id addr ttl =
      wrap_err (λ e. errorf "announcing %s in redis: %w" (str id (cause e end)))
        (client.set (key id) addr ttl)

  unfoldable pub lookup_in_redis : String → Call W (Option String)
  lookup_in_redis id =
      wrap_err (λ e. errorf "looking up %s in redis: %w" (str id (cause e end)))
        (client.get (key id))

  unfoldable pub forget_in_redis : String → Call W (Unit {0})
  forget_in_redis id =
      wrap_err (λ e. errorf "forgetting %s in redis: %w" (str id (cause e end)))
        (client.del (key id))

  unfoldable pub list_in_redis : Call W (List String)
  list_in_redis = do
    keys ←
        wrap_err (λ e. errorf "listing clusters in redis: %w" (cause e end))
          (client.scan (append_text key_prefix "*"))
    pure (map (trim_prefix key_prefix) keys)

  abbrev pub redis : Registry W
  redis = record {
    announce = announce_in_redis;
    heartbeat = announce_in_redis;
    lookup_replica = lookup_in_redis;
    forget = forget_in_redis;
    list_clusters = list_in_redis;
  }
