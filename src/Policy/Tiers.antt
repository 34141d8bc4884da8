-- ===== src/Policy/Tiers.antt =====
-- `GroupMapping.HighestTier`: the most privileged of the tiers that the caller's groups map to.
use k8s_ts_mcp.Common.{
  ◌≤◌, String, ◌≡◌, refl, ◌⊎◌, inl, inr, none, some, List, [], ◌∷◌, arith, Bool-cases, Option-cases,
  tests, ltb, lookup, All,
}
use k8s_ts_mcp.Policy.{Tier, GroupMapping, tier_rank, highest_from, highest_tier}

-- A tier at least as high as every tier that the groups map to.
abbrev pub Covers : GroupMapping → Tier → String → Type 0
Covers m t g = (u : Tier) → lookup g m ≡ some u → tier_rank u ≤ tier_rank t

-- A tier that one of the groups maps to.
pub data From (m : GroupMapping) (t : Tier) : List String → Type 0 where
  here : {g : String} {gs : List String} → lookup g m ≡ some t → From m t (g ∷ gs)
  there : {g : String} {gs : List String} → From m t gs → From m t (g ∷ gs)

Covers-of :
    (m : GroupMapping) (g : String) (s u : Tier)
    → lookup g m ≡ some s
    → tier_rank s ≤ tier_rank u
    → Covers m u g
Covers-of m g s u e le v h = let p : s ≡ v = cc in rw (← p) le

-- The loop with a best tier found: it ends with that one or a later one, above all it met.
highest_from-some :
    (m : GroupMapping) (t : Tier) (groups : List String)
    → (u : Tier) × (highest_from m (some (tier_rank t)) (some t) groups ≡ some u)
      × (tier_rank t ≤ tier_rank u)
      × All (Covers m u) groups
      × ((u ≡ t) ⊎ From m u groups)
unfolding highest_from
highest_from-some m t [] = (t, refl, omega arith, tt, inl refl)
highest_from-some m t (g ∷ groups) = elim (Option-cases (lookup g m)) [
  | inl e ↦
      let (u, eq, le, all, from) = highest_from-some m t groups in
      (
        u,
        rw (e, highest_from) eq,
        le,
        ((λ v h. cc), all),
        elim from [ inl p ↦ inl p | inr f ↦ inr (there f) ],
      )
  | inr (s, e) ↦ elim (Bool-cases (ltb (tier_rank t) (tier_rank s))) [
    | inl up ↦
        let (u, eq, le, all, from) = highest_from-some m s groups in
        (
          u,
          rw (e, highest_from, up) eq,
          omega (tests, up),
          (Covers-of m g s u e le, all),
          elim from [ inl p ↦ inr (here (rw p e)) | inr f ↦ inr (there f) ],
        )
    | inr down ↦
        let (u, eq, le, all, from) = highest_from-some m t groups in
        (
          u,
          rw (e, highest_from, down) eq,
          le,
          (Covers-of m g s u e (omega (tests, down)), all),
          elim from [ inl p ↦ inl p | inr f ↦ inr (there f) ],
        )
  ]
]

highest_from-none :
    (m : GroupMapping) (groups : List String)
    → ((highest_from m none none groups ≡ none) × All (λ g. lookup g m ≡ none) groups)
      ⊎ ((u : Tier) × (highest_from m none none groups ≡ some u)
          × All (Covers m u) groups
          × From m u groups)
unfolding highest_from
highest_from-none m [] = inl (refl, tt)
highest_from-none m (g ∷ groups) = elim (Option-cases (lookup g m)) [
  | inl e ↦ elim (highest_from-none m groups) [
    | inl (eq, all) ↦ inl (rw (e, highest_from) eq, (e, all))
    | inr (u, eq, all, from) ↦ inr (u, rw (e, highest_from) eq, ((λ v h. cc), all), there from)
  ]
  | inr (s, e) ↦
      let (u, eq, le, all, from) = highest_from-some m s groups in
      inr (
        u,
        rw (e, highest_from) eq,
        (Covers-of m g s u e le, all),
        elim from [ inl p ↦ here (rw p e) | inr f ↦ there f ],
      )
]

-- `HighestTier` finds no tier exactly where none of the groups is mapped, and otherwise the tier of
-- one of the groups that ranks at least as high as the tier of every group.
pub highest_tier_exact :
    (m : GroupMapping) (groups : List String)
    → ((highest_tier m groups ≡ none) × All (λ g. lookup g m ≡ none) groups)
      ⊎ ((u : Tier) × (highest_tier m groups ≡ some u) × All (Covers m u) groups × From m u groups)
unfolding highest_tier
highest_tier_exact m groups = highest_from-none m groups
