-- ===== src/Registry/Shared.antt =====
-- The directory that the registry in Redis implements: internal/registry/redis.go over a Redis that
-- keeps its promises.
use text.Mathlib.TextLemmas.{append_cancel_left}
use k8s_ts_mcp.Common.{
  ℕ, ◌+◌, ◌*◌, ◌≤◌, ◌<◌, All, String, append_text, ◌≡◌, refl, sym, ap, ◌∙◌, Bool-cases, inl, inr,
  eq_iff, Option, none, some, List, [], ◌∷◌, ◌==◌, if◌then◌else◌, ok, Call, ◌>>=◌, bind-ok,
  wrap_err-ok, ok_injective,
}
use mathlib.Core.Path.{fun_ext}
use k8s_ts_mcp.Registry.{InMemoryRecord}
use k8s_ts_mcp.Registry.Directory.{
  Change, announced, forgotten, Directory, spec_change, spec_run, Announces, spec_run-Announces,
  spec_run-announced,
}
use k8s_ts_mcp.Registry.Redis.{
  Client, key_prefix, key, announce_in_redis, forget_in_redis, lookup_in_redis,
}

-- A time to live that is not zero, in whole milliseconds: go-redis takes zero for no expiry at all,
-- and Redis counts in milliseconds.
abbrev pub IsTimed : ℕ → Type 0
IsTimed ttl = (ms : ℕ) × (0 < ms) × (ttl ≡ ms * 1000000)

-- What Redis documents of SET with an expiry, GET and DEL, for calls that succeed: `stored` is what a
-- key was given with the end of its time to live. A key is there before that time and not after it.
pub record KeepsPromises {W : Type 0} (client : Client W) : Type 0 where
  pub clock : W → ℕ
  pub stored : W → String → Option InMemoryRecord
  pub set_stores :
      (k v : String) (ttl : ℕ) (w w' : W)
      → IsTimed ttl
      → client.set k v ttl w ≡ (ok tt, w')
      → (other : String)
      → stored w' other ≡ (
          if k == other
          then some (record { addr = v; expires = clock w + ttl })
          else stored w other)
  pub del_removes :
      (k : String) (w w' : W)
      → client.del k w ≡ (ok tt, w')
      → (other : String) → stored w' other ≡ (if k == other then none else stored w other)
  pub get_finds :
      (k v : String) (w w' : W)
      → client.get k w ≡ (ok (some v), w')
      → (until : ℕ) × (stored w k ≡ some (record { addr = v; expires = until })) × (clock w ≤ until)
  pub get_misses :
      (k v : String) (until : ℕ) (w w' : W)
      → client.get k w ≡ (ok none, w')
      → stored w k ≡ some (record { addr = v; expires = until })
      → until ≤ clock w

-- A call of the registry that changes it; a heartbeat is an announcement.
pub data Operation : Type 0 where
  announcing : (id addr : String) → (ttl : ℕ) → Operation
  forgetting : (id : String) → Operation

abbrev pub IsTimely : Operation → Type 0
IsTimely (announcing id addr ttl) = IsTimed ttl
IsTimely (forgetting id) = Unit

same_prefix : (p a b : String) → (append_text p a == append_text p b) ≡ (a == b)
same_prefix p a b = elim (Bool-cases (a == b)) [
  | inl same ↦
      let e : append_text p a ≡ append_text p b = ap (append_text p) ((eq_iff a b).0 same) in
      (eq_iff (append_text p a) (append_text p b)).1 e ∙ sym same
  | inr other ↦ elim (Bool-cases (append_text p a == append_text p b)) [
    | inl bad ↦
        let e = append_cancel_left p a b ((eq_iff (append_text p a) (append_text p b)).0 bad) in
        let back = (eq_iff a b).1 e in absurd (cc)
    | inr apart ↦ apart ∙ sym other
  ]
]

module _ {W : Type 0} (client : Client W) (p : KeepsPromises client) where
  open p use {clock, stored}

  abbrev pub perform : Operation → Call W (Unit {0})
  perform (announcing id addr ttl) = announce_in_redis client id addr ttl
  perform (forgetting id) = forget_in_redis client id

  abbrev pub change_at : ℕ → Operation → Change
  change_at now (announcing id addr ttl) = announced now id addr ttl
  change_at now (forgetting id) = forgotten id

  -- The directory that is in Redis.
  abbrev pub reads : W → Directory
  reads w id = stored w (key client id)

  perform-reads :
      (op : Operation) (w w' : W)
      → IsTimely op
      → perform op w ≡ (ok tt, w')
      → reads w' ≡ spec_change (change_at (clock w) op) (reads w)
  unfolding announce_in_redis forget_in_redis
  perform-reads (announcing id addr ttl) w w' timed h = fun_ext λ other.
      p.set_stores (key client id) addr ttl w w' timed (wrap_err-ok _ _ tt w' h) (key client other)
      ∙ rw (same_prefix key_prefix id other) refl
  perform-reads (forgetting id) w w' timed h = fun_ext λ other.
      p.del_removes (key client id) w w' (wrap_err-ok _ _ tt w' h) (key client other)
      ∙ rw (same_prefix key_prefix id other) refl

  -- The operations, whichever replica makes them; before each of them the rest of the world moves on.
  module _ (elapse : W → W) where
    unfoldable pub perform_all : List Operation → Call W (Unit {0})
    perform_all [] w = (ok tt, w)
    perform_all (op ∷ ops) w = (perform op >>= λ _. perform_all ops) (elapse w)

    -- The changes of the operations, each at the time of its call.
    unfoldable pub timeline : List Operation → W → List Change
    timeline [] w = []
    timeline (op ∷ ops) w = change_at (clock (elapse w)) op ∷ timeline ops (perform op (elapse w)).1

    perform_all-reads :
        (ops : List Operation) (w w' : W)
        → ((v : W) → stored (elapse v) ≡ stored v)
        → All IsTimely ops
        → perform_all ops w ≡ (ok tt, w')
        → reads w' ≡ spec_run (timeline ops w) (reads w)
    unfolding perform_all timeline spec_run
    perform_all-reads [] w w' quiet timed h = ap reads (sym (ok_injective tt tt w w' h).1)
    perform_all-reads (op ∷ ops) w w' quiet (now, later) h =
        let (_, v, first, rest) = bind-ok (perform op (elapse w)) (λ _. perform_all ops) tt w' h in
        perform_all-reads ops v w' quiet later rest
        ∙ ap (λ x. spec_run (timeline ops x.1) (reads v)) (sym first)
        ∙ ap (spec_run (timeline ops (perform op (elapse w)).1)) (
            perform-reads op (elapse w) v now first
            ∙ ap (λ m. spec_change (change_at (clock (elapse w)) op) (λ id. m (key client id)))
                (quiet w))

    -- What a lookup says of the changes so far, at its time.
    abbrev pub Tells : String → List Change → ℕ → Option String → Type 0
    Tells id cs now (some addr) = (until : ℕ) × Announces id addr until cs × (now ≤ until)
    Tells id cs now none = (addr : String) (until : ℕ) → Announces id addr until cs → until ≤ now

    Tells-answer :
        (o : Option String) (id : String) (w w' w'' : W) (cs : List Change)
        → reads w id ≡ none
        → reads w' ≡ spec_run cs (reads w)
        → client.get (key client id) w' ≡ (ok o, w'')
        → Tells id cs (clock w') o
    Tells-answer (some addr) id w w' w'' cs empty same found =
        let (until, held, alive) = p.get_finds (key client id) addr w' w'' found in
        (
          until,
          spec_run-announced id cs (reads w) (record { addr = addr; expires = until }) empty
              (ap (λ d. d id) (sym same) ∙ held),
          alive,
        )
    Tells-answer none id w w' w'' cs empty same missed = λ addr until a.
        p.get_misses (key client id) addr until w' w'' missed
          (ap (λ d. d id) same ∙ spec_run-Announces id addr until cs (reads w) a)

    -- After any announcements, heartbeats and removals that succeed, of any replica, on a Redis
    -- without the cluster's key, a lookup that answers an address answers that of the cluster's last
    -- change, which announced it, before its time to live was over; and one that answers nothing comes
    -- where no announcement was the last change, or its time to live was over. Times to live are whole
    -- milliseconds and not zero; Redis keeps its promises and nothing else writes its keys.
    pub redis_refines :
        (ops : List Operation) (id : String) (w w' w'' : W) (o : Option String)
        → ((v : W) → stored (elapse v) ≡ stored v)
        → All IsTimely ops
        → reads w id ≡ none
        → perform_all ops w ≡ (ok tt, w')
        → lookup_in_redis client id w' ≡ (ok o, w'')
        → Tells id (timeline ops w) (clock w') o
    unfolding lookup_in_redis
    redis_refines ops id w w' w'' o quiet timed empty h found =
        Tells-answer o id w w' w'' (timeline ops w) empty (perform_all-reads ops w w' quiet timed h)
          (wrap_err-ok _ _ o w'' found)
