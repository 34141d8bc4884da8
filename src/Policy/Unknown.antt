-- ===== src/Policy/Unknown.antt =====
-- Groups that are mapped to a text which is none of the tiers: internal/policy/types.go, HighestTier,
-- under the rules of policy.rego.
use k8s_ts_mcp.Common.{
  String, true, false, ◌≡◌, ◌∙◌, refl, none, some, List, All, inl, inr, ◌==◌, eq_iff, lookup, ok,
  [], ◌∷◌, Bool-cases,
}
use k8s_ts_mcp.Policy.{
  Tier, GroupMapping, Request, Decision, tier_read_only, risk_safe, highest_tier, decide,
}
use k8s_ts_mcp.Policy.Tiers.{From, here, there, highest_tier_exact}
use k8s_ts_mcp.Policy.Laws.{IsKnown, decide_exact}

-- No tier of the source is what the group is mapped to.
abbrev pub IsMisspelt : GroupMapping → String → Type 0
IsMisspelt m g = (t : Tier) → lookup g m ≡ some t → ¬ (IsKnown t)

From-unknown :
    (m : GroupMapping) (t : Tier) (groups : List String)
    → All (IsMisspelt m) groups
    → From m t groups
    → ¬ (IsKnown t)
From-unknown m t [] h never = elim never [ ]
From-unknown m t (g ∷ groups) (h, hs) (here e) = h t e
From-unknown m t (g ∷ groups) (h, hs) (there f) = From-unknown m t groups hs f

-- With a tier other than readonly, safe actions run where the flag is on.
safe_executes :
    (m : GroupMapping) (req : Request) (t : Tier)
    → highest_tier m req.groups ≡ some t
    → (t == tier_read_only) ≡ false
    → req.action_risk ≡ risk_safe
    → req.execution_flag ≡ true
    → (d : Decision) × (decide m req ≡ ok d) × (d.allow ≡ true) × (d.dry_run ≡ false)
safe_executes m req t ht ro low on =
    let (d, e, a, r) = decide_exact m req in
    (d, e, a ∙ rw (ht, low, ro) refl, r ∙ rw (ht, low, ro, on) refl)

-- A caller, some of whose groups are mapped, and none of them to one of the three tiers, is not
-- denied: with the flag on, safe actions run for it.
pub unknown_tier_executes :
    (m : GroupMapping) (req : Request)
    → All (IsMisspelt m) req.groups
    → ¬ (All (λ g. lookup g m ≡ none) req.groups)
    → req.action_risk ≡ risk_safe
    → req.execution_flag ≡ true
    → (d : Decision) × (decide m req ≡ ok d) × (d.allow ≡ true) × (d.dry_run ≡ false)
unknown_tier_executes m req misspelt mapped low on = elim (highest_tier_exact m req.groups) [
  | inl (e, all) ↦ absurd (mapped all)
  | inr (t, e, covers, from) ↦
      let unknown = From-unknown m t req.groups misspelt from in
      let other : (t == tier_read_only) ≡ false = elim (Bool-cases (t == tier_read_only)) [
        | inl same ↦ absurd (unknown (inl ((eq_iff t tier_read_only).0 same)))
        | inr apart ↦ apart
      ] in
      safe_executes m req t e other low on
]
