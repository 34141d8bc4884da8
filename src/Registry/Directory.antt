-- ===== src/Registry/Directory.antt =====
-- The directory that the in-memory registry implements: internal/registry/inmemory.go.
use k8s_ts_mcp.Common.{
  ℕ, ◌+◌, ◌≤◌, String, true, false, ◌≡◌, refl, sym, ◌∙◌, ap, subst, Option, none, some, List, [],
  ◌∷◌, ◌==◌, if◌then◌else◌, All, ◌⊎◌, ◌↔◌, inl, inr, Bool-cases, arith, lookup, lookup-insert,
  lookup-delete,
}
use mathlib.Core.Path.{fun_ext}
use k8s_ts_mcp.Registry.{InMemoryRecord, Records, announce_at, live_addr, lookup_at, forget_record}

-- A call that changes the directory, with the time at which it is made.
pub data Change : Type 0 where
  announced : (now : ℕ) → (id addr : String) → (ttl : ℕ) → Change
  forgotten : (id : String) → Change

-- What the directory promises: for each cluster the address last announced and not forgotten since,
-- up to the end of its time to live.
abbrev pub Directory : Type 0
Directory = String → Option InMemoryRecord

abbrev pub spec_change : Change → Directory → Directory
spec_change (announced now id addr ttl) d other =
    if id == other then some (record { addr = addr; expires = now + ttl }) else d other
spec_change (forgotten id) d other = if id == other then none else d other

unfoldable pub spec_run : List Change → Directory → Directory
spec_run [] d = d
spec_run (c ∷ cs) d = spec_run cs (spec_change c d)

abbrev pub change : Change → Records → Records
change (announced now id addr ttl) m = announce_at now id addr ttl m
change (forgotten id) m = forget_record id m

pub run : List Change → Records → Records
run [] m = m
run (c ∷ cs) m = run cs (change c m)

-- The directory that a map of records stands for.
abbrev pub reads : Records → Directory
reads m id = lookup id m

reads-change : (c : Change) (m : Records) → reads (change c m) ≡ spec_change c (reads m)
unfolding announce_at forget_record
reads-change (announced now id addr ttl) m =
    fun_ext λ other. lookup-insert m (record { addr = addr; expires = now + ttl }) id other
reads-change (forgotten id) m = fun_ext λ other. lookup-delete m id other

reads-run : (cs : List Change) (m : Records) → reads (run cs m) ≡ spec_run cs (reads m)
unfolding run spec_run
reads-run [] m = refl
reads-run (c ∷ cs) m = reads-run cs (change c m) ∙ ap (spec_run cs) (reads-change c m)

-- A change of another cluster's record.
abbrev pub IsOther : String → Change → Type 0
IsOther id (announced now other addr ttl) = (other == id) ≡ false
IsOther id (forgotten other) = (other == id) ≡ false

-- The last change of the cluster announces the address, up to the given time.
pub data Announces (id addr : String) (until : ℕ) : List Change → Type 0 where
  last_one :
      {now ttl : ℕ} {cs : List Change} {same : String}
      → (same == id) ≡ true
      → until ≡ now + ttl
      → All (IsOther id) cs
      → Announces id addr until (announced now same addr ttl ∷ cs)
  before_it :
      {c : Change} {cs : List Change}
      → Announces id addr until cs
      → Announces id addr until (c ∷ cs)

spec_run-others :
    (id : String) (cs : List Change) (d : Directory) → All (IsOther id) cs → spec_run cs d id ≡ d id
unfolding spec_run
spec_run-others id [] d h = refl
spec_run-others id (announced now other addr ttl ∷ cs) d (o, h) =
    spec_run-others id cs (spec_change (announced now other addr ttl) d) h ∙ rw o refl
spec_run-others id (forgotten other ∷ cs) d (o, h) =
    spec_run-others id cs (spec_change (forgotten other) d) h ∙ rw o refl

-- The directory holds what was announced last,
pub spec_run-Announces :
    (id addr : String) (until : ℕ) (cs : List Change) (d : Directory)
    → Announces id addr until cs
    → spec_run cs d id ≡ some (record { addr = addr; expires = until })
unfolding spec_run
spec_run-Announces id addr until [] d never = elim never [ ]
spec_run-Announces id addr until (announced now same addr' ttl ∷ cs) d (last_one here e h) =
    spec_run-others id cs (spec_change (announced now same addr ttl) d) h ∙ rw (here, e) refl
spec_run-Announces id addr until (c ∷ cs) d (before_it a) =
    spec_run-Announces id addr until cs (spec_change c d) a

-- and nothing else, where it was empty.
abbrev Held : String → Directory → List Change → InMemoryRecord → Type 0
Held id d cs r = Announces id r.addr r.expires cs ⊎ (All (IsOther id) cs × (d id ≡ some r))

some_injective : {r r' : InMemoryRecord} → some r ≡ some r' → r ≡ r'
some_injective e = cc

Held-announced :
    (id : String) (now : ℕ) (other addr : String) (ttl : ℕ) (d : Directory) (cs : List Change)
    (r : InMemoryRecord)
    → Held id (spec_change (announced now other addr ttl) d) cs r
    → Held id d (announced now other addr ttl ∷ cs) r
Held-announced id now other addr ttl d cs r (inl a) = inl (before_it a)
Held-announced id now other addr ttl d cs r (inr (h, e)) = elim (Bool-cases (other == id)) [
  | inl same ↦
      let p : record { addr = addr; expires = now + ttl } ≡ r = some_injective (rw same at e) in
      inl (
        subst
          (λ (r : InMemoryRecord).
            Announces id r.addr r.expires (announced now other addr ttl ∷ cs))
          p (last_one same refl h))
  | inr apart ↦ inr ((apart, h), rw apart at e)
]

Held-forgotten :
    (id other : String) (d : Directory) (cs : List Change) (r : InMemoryRecord)
    → Held id (spec_change (forgotten other) d) cs r
    → Held id d (forgotten other ∷ cs) r
Held-forgotten id other d cs r (inl a) = inl (before_it a)
Held-forgotten id other d cs r (inr (h, e)) = elim (Bool-cases (other == id)) [
  | inl same ↦ let no : none ≡ some r = rw same at e in absurd (cc)
  | inr apart ↦ inr ((apart, h), rw apart at e)
]

spec_run-Held :
    (id : String) (cs : List Change) (d : Directory) (r : InMemoryRecord)
    → spec_run cs d id ≡ some r
    → Held id d cs r
unfolding spec_run
spec_run-Held id [] d r e = inr (tt, e)
spec_run-Held id (announced now other addr ttl ∷ cs) d r e =
    Held-announced id now other addr ttl d cs r (spec_run-Held id cs _ r e)
spec_run-Held id (forgotten other ∷ cs) d r e =
    Held-forgotten id other d cs r (spec_run-Held id cs _ r e)

pub spec_run-announced :
    (id : String) (cs : List Change) (d : Directory) (r : InMemoryRecord)
    → d id ≡ none
    → spec_run cs d id ≡ some r
    → Announces id r.addr r.expires cs
spec_run-announced id cs d r empty e = elim (spec_run-Held id cs d r e) [
  | inl a ↦ a
  | inr (h, bad) ↦ absurd (cc)
]

lookup_at-spec :
    (cs : List Change) (now : ℕ) (id : String)
    → lookup_at now id (run cs []) ≡ live_addr now (spec_run cs (λ _. none) id)
unfolding lookup_at run
lookup_at-spec cs now id =
    ap (λ d. live_addr now (d id)) (reads-run cs [] ∙ ap (spec_run cs) (fun_ext λ other. refl))

live_addr-some :
    (now : ℕ) (o : Option InMemoryRecord) (addr : String)
    → live_addr now o ≡ some addr
    → (r : InMemoryRecord) × (o ≡ some r) × (r.addr ≡ addr) × (now ≤ r.expires)
live_addr-some now none addr h = absurd (cc)
live_addr-some now (some r) addr h = (r, refl, ground arith, ground arith)

-- After any announcements, heartbeats and removals, a lookup in the in-memory registry answers an
-- address exactly where the last change of the cluster announced that address and the time of the
-- lookup is not past the time of the announcement plus its time to live.
pub in_memory_refines :
    (cs : List Change) (now : ℕ) (id addr : String)
    → (lookup_at now id (run cs []) ≡ some addr)
      ↔ ((until : ℕ) × Announces id addr until cs × (now ≤ until))
in_memory_refines cs now id addr = (
  λ h.
      let (r, held, same, alive) = live_addr-some now _ addr (sym (lookup_at-spec cs now id) ∙ h) in
      (
        r.expires,
        subst (λ a. Announces id a r.expires cs) same
            (spec_run-announced id cs (λ _. none) r refl held),
        alive,
      ),
  λ (until, a, alive).
      lookup_at-spec cs now id
      ∙ rw (spec_run-Announces id addr until cs (λ _. none) a) (ground arith),
)
