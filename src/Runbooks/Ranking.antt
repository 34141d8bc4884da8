-- ===== src/Runbooks/Ranking.antt =====
-- What a search in the catalogue finds: internal/runbooks/runbooks.go, `Find`, and similarity.go,
-- `score`.
use k8s_ts_mcp.Common.{
  String, true, false, ◌≡◌, ◌∙◌, sym, ap, ◌⊎◌, inl, inr, Option, none, some, List, [], ◌∷◌, ◌==◌,
  if◌then◌else◌, find-test, All, Bool-cases, Option-cases, Unicode, trim_space,
}
use mathlib.Core.List.{Memᴰ}
use k8s_ts_mcp.Runbooks.{Runbook, Entries}
use k8s_ts_mcp.Runbooks.Similarity.{
  Floats, tokenize, similarity, score_of, best_from, scored, score,
}
use k8s_ts_mcp.Runbooks.Lookup.{min_match_score, good_enough, by_query, by_kind, find_entry}

module _ {F : Type 0} (floats : Floats F) (unicode : Unicode) where
  open floats use {below}

  -- The comparison of float64, NaN included.
  pub record IsOrder : Type 0 where
    pub irreflexive : (a : F) → below a a ≡ false
    pub transitive : (a b c : F) → below a b ≡ true → below b c ≡ true → below a c ≡ true

  module _ (order : IsOrder) (sim : Runbook → F) where
    beaten_before : (a b c : F) → below a b ≡ true → below a c ≡ false → below b c ≡ false
    beaten_before a b c up under = elim (Bool-cases (below b c)) [
      | inr e ↦ e
      | inl e ↦ let bad : below a c ≡ true = order.transitive a b c up e in cc
    ]

    abbrev better : Option (Runbook × F) → Runbook → Option (Runbook × F)
    better best d = if below (score_of floats unicode best) (sim d) then some (d, sim d) else best

    better-keeps :
        (best : Option (Runbook × F)) (d : Runbook) (x : F)
        → below (score_of floats unicode best) x ≡ false
        → below (score_of floats unicode (better best d)) x ≡ false
    better-keeps best d x under = elim (Bool-cases (below (score_of floats unicode best) (sim d))) [
      | inl up ↦ rw up (beaten_before (score_of floats unicode best) (sim d) x up under)
      | inr low ↦ rw low under
    ]

    better-new :
        (best : Option (Runbook × F)) (d : Runbook)
        → below (score_of floats unicode (better best d)) (sim d) ≡ false
    better-new best d = elim (Bool-cases (below (score_of floats unicode best) (sim d))) [
      | inl up ↦ rw up (order.irreflexive (sim d))
      | inr low ↦ rw low low
    ]

    best_from-keeps :
        (entries : List Runbook) (best : Option (Runbook × F)) (x : F)
        → below (score_of floats unicode best) x ≡ false
        → below (score_of floats unicode (best_from floats unicode sim best entries)) x ≡ false
    unfolding best_from
    best_from-keeps [] best x under = under
    best_from-keeps (d ∷ entries) best x under =
        best_from-keeps entries (better best d) x (better-keeps best d x under)

    abbrev Unbeaten : F → Runbook → Type 0
    Unbeaten s d = below s (sim d) ≡ false

    best_from-Unbeaten :
        (entries : List Runbook) (best : Option (Runbook × F))
        → All
            (Unbeaten (score_of floats unicode (best_from floats unicode sim best entries)))
            entries
    unfolding best_from
    best_from-Unbeaten [] best = tt
    best_from-Unbeaten (d ∷ entries) best = (
      best_from-keeps entries (better best d) (sim d) (better-new best d),
      best_from-Unbeaten entries (better best d),
    )

    better-one :
        (best : Option (Runbook × F)) (d e : Runbook) (s : F)
        → better best d ≡ some (e, s)
        → (best ≡ some (e, s)) ⊎ ((d ≡ e) × (s ≡ sim d))
    better-one best d e s h = elim (Bool-cases (below (score_of floats unicode best) (sim d))) [
      | inl up ↦
          let same : ◌≡◌ {A = Option (Runbook × F)} (some (d, sim d)) (some (e, s)) = rw up at h in
          inr (cc, cc)
      | inr low ↦ inl (rw low at h)
    ]

    best_from-one :
        (entries : List Runbook) (best : Option (Runbook × F)) (e : Runbook) (s : F)
        → best_from floats unicode sim best entries ≡ some (e, s)
        → (best ≡ some (e, s)) ⊎ (Memᴰ e entries × (s ≡ sim e))
    unfolding best_from
    best_from-one [] best e s h = inl h
    best_from-one (d ∷ entries) best e s h = elim (best_from-one entries (better best d) e s h) [
      | inr (later, same) ↦ inr (Memᴰ.tail later, same)
      | inl now ↦ elim (better-one best d e s now) [
        | inl before ↦ inl before
        | inr (here, same) ↦ inr (Memᴰ.head (sym here), same ∙ ap sim here)
      ]
    ]

    -- The entry is one of the catalogue, and none of the catalogue is more similar.
    abbrev pub IsBest : List Runbook → Runbook → F → Type 0
    IsBest entries e s = Memᴰ e entries × (s ≡ sim e) × All (Unbeaten s) entries

    best_from-IsBest :
        (entries : List Runbook) (e : Runbook) (s : F)
        → best_from floats unicode sim none entries ≡ some (e, s)
        → IsBest entries e s
    best_from-IsBest entries e s h = elim (best_from-one entries none e s h) [
      | inl never ↦ absurd (cc)
      | inr (there, same) ↦ (there, same, rw h at (best_from-Unbeaten entries none))
    ]

  module _ (order : IsOrder) where
    scored-IsBest :
        (entries : List Runbook) (query : List String) (e : Runbook) (s : F)
        → scored floats unicode entries query ≡ some (e, s)
        → IsBest order (similarity floats unicode entries query) entries e s
    scored-IsBest entries [] e s h = absurd (cc)
    scored-IsBest entries (tok ∷ query) e s h =
        best_from-IsBest order (similarity floats unicode entries (tok ∷ query)) entries e s h

    score-IsBest :
        (entries : List Runbook) (query : String) (e : Runbook) (s : F)
        → score floats unicode entries query ≡ some (e, s)
        → IsBest order
            (similarity floats unicode entries (tokenize floats unicode query))
            entries
            e
            s
    unfolding score
    score-IsBest entries query e s h = scored-IsBest entries (tokenize floats unicode query) e s h

    -- The answer of a search: an entry of that kind, or, where there is none, an entry of which no
    -- other is more similar to the query, with a score that is not below the least.
    abbrev pub IsFound : Entries → String → String → Runbook → Type 0
    IsFound entries kind query e =
        ((e.kind == kind) ≡ true)
        ⊎ ((by_kind floats unicode entries kind ≡ none)
            × ((s : F) × IsBest order
                  (similarity floats unicode entries (tokenize floats unicode query)) entries e s
                × (below s (min_match_score floats unicode) ≡ false)))

    good_enough-some :
        (o : Option (Runbook × F)) (e : Runbook)
        → good_enough floats unicode o ≡ some e
        → (s : F) × (o ≡ some (e, s)) × (below s (min_match_score floats unicode) ≡ false)
    good_enough-some none e h = absurd (cc)
    good_enough-some (some (d, s)) e h =
        elim (Bool-cases (below s (min_match_score floats unicode))) [
          | inl low ↦ let bad : none ≡ some e = rw low at h in absurd (cc)
          | inr well ↦ let one : some d ≡ some e = rw well at h in (s, cc, well)
        ]

    by_query-some :
        (entries : Entries) (query : String) (e : Runbook)
        → by_query floats unicode entries query ≡ some e
        → good_enough floats unicode (score floats unicode entries query) ≡ some e
    by_query-some entries query e h = elim (Bool-cases (trim_space query == "")) [
      | inl blank ↦ let bad : none ≡ some e = rw blank at h in absurd (cc)
      | inr worded ↦ rw worded at h
    ]

    by_kind-some :
        (entries : Entries) (kind : String) (e : Runbook)
        → by_kind floats unicode entries kind ≡ some e
        → (e.kind == kind) ≡ true
    by_kind-some entries kind e h = elim (Bool-cases (kind == "")) [
      | inl blank ↦ let bad : none ≡ some e = rw blank at h in absurd (cc)
      | inr named ↦ find-test (λ e. e.kind == kind) entries e (rw named at h)
    ]

    -- What Find answers is an entry of the signal's kind; where the catalogue has none of that kind,
    -- it is one of its entries, no other entry is more similar to the query, and its score is not
    -- below the least score.
    pub find_entry-IsFound :
        (entries : Entries) (kind query : String) (e : Runbook)
        → find_entry floats unicode entries kind query ≡ some e
        → IsFound entries kind query e
    unfolding find_entry
    find_entry-IsFound entries kind query e h =
        elim (Option-cases (by_kind floats unicode entries kind)) [
          | inr (d, there) ↦
              let one : some d ≡ some e = rw there at h in
              inl (by_kind-some entries kind e (there ∙ one))
          | inl absent ↦
              let (s, scored, well) =
                good_enough-some (score floats unicode entries query) e
                  (by_query-some entries query e (rw absent at h)) in
              inr (absent, (s, score-IsBest entries query e s scored, well))
        ]
