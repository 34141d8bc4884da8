-- ===== src/Registry.antt =====
-- internal/registry: the directory of which replica holds each cluster's connection, as an interface
-- (registry.go), and its implementation in one process (inmemory.go).
pub mod Directory
pub mod Redis
pub mod Shared
use k8s_ts_mcp.Common.{
  ℕ, ◌+◌, String, Bool, true, false, Option, none, some, List, [], ◌∷◌, if◌then◌else◌, ltb, Map,
  lookup, insert, delete, Call, Result, ok,
}

-- The interface `Registry`; times are in nanoseconds.
pub record Registry (W : Type 0) : Type 0 where
  pub announce : String → String → ℕ → Call W (Unit {0})
  pub heartbeat : String → String → ℕ → Call W (Unit {0})
  pub lookup_replica : String → Call W (Option String)
  pub forget : String → Call W (Unit {0})
  pub list_clusters : Call W (List String)

-- `inMemoryRecord` and the records of `InMemory`.
pub record InMemoryRecord : Type 0 where
  pub addr : String
  pub expires : ℕ

abbrev pub Records : Type 0
Records = Map InMemoryRecord

unfoldable pub announce_at : ℕ → String → String → ℕ → Records → Records
unfolding insert
announce_at now id addr ttl m = insert id (record { addr = addr; expires = now + ttl }) m

-- A record is past its time where `now` is after `expires`.
abbrev pub live_addr : ℕ → Option InMemoryRecord → Option String
live_addr now none = none
live_addr now (some r) = if ltb r.expires now then none else some r.addr

unfoldable pub lookup_at : ℕ → String → Records → Option String
unfolding lookup
lookup_at now id m = live_addr now (lookup id m)

unfoldable pub forget_record : String → Records → Records
unfolding delete
forget_record id m = delete id m

-- The loop of `List`, which wants `now` before `expires`.
unfoldable pub list_at : ℕ → Records → List String
list_at now [] = []
list_at now ((id, r) ∷ m) =
    let rest = list_at now m in if ltb now r.expires then id ∷ rest else rest

-- `InMemory` as a registry: its records and the rest of the world, which has the clock.
module _ {W : Type 0} (clock : W → ℕ) where
  abbrev pub announce_in_memory : String → String → ℕ → Call (Records × W) (Unit {0})
  announce_in_memory id addr ttl (m, w) = (ok tt, (announce_at (clock w) id addr ttl m, w))

  abbrev pub in_memory : Registry (Records × W)
  in_memory = record {
    announce = announce_in_memory;
    heartbeat = announce_in_memory;
    lookup_replica = λ id (m, w). (ok (lookup_at (clock w) id m), (m, w));
    forget = λ id (m, w). (ok tt, (forget_record id m, w));
    list_clusters = λ (m, w). (ok (list_at (clock w) m), (m, w));
  }
