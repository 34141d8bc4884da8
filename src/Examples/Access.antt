-- ===== src/Examples/Access.antt =====
-- Examples of internal/policy, internal/redact, internal/agentauth and internal/inventory.
use k8s_ts_mcp.Common.{
  String, Bool, true, false, not, ◌≡◌, ◌∙◌, refl, inl, inr, none, some, [], ◌∷◌, ◌==◌, eq_iff, All,
  lookup, ok,
}
use k8s_ts_mcp.Policy.{
  GroupMapping, Request, Decision, decide, highest_tier, risk_safe, risk_medium, env_prod,
}
use k8s_ts_mcp.Policy.Table.{granted, may_request, may_execute}
use k8s_ts_mcp.Policy.Laws.{decide_exact}
use k8s_ts_mcp.Policy.Unknown.{IsMisspelt, unknown_tier_executes}
use k8s_ts_mcp.Redact.{Value, text, object, empty, field, redact_value}
use k8s_ts_mcp.Redact.Object.{Clean, redact_value-Clean}

abbrev groups : GroupMapping
groups =
    ("viewers", "readonly")
    ∷ ("operators", "nonprod-admin")
    ∷ ("sre", "prod-admin")
    ∷ ("typo", "prodadmin")
    ∷ []

abbrev asking : String → String → String → Bool → Request
asking g env risk flag = record {
  groups = g ∷ [];
  cluster_env = env;
  action_risk = risk;
  execution_flag = flag;
}

decide_exact_example :
    (d : Decision) × (decide groups (asking "sre" env_prod risk_medium true) ≡ ok d)
    × (d.allow
        ≡ granted (highest_tier groups ("sre" ∷ [])) (λ t. may_request t env_prod risk_medium))
    × (d.dry_run
        ≡ not (
            granted
              (highest_tier groups ("sre" ∷ []))
              (λ t. may_execute t env_prod risk_medium true)))
decide_exact_example = decide_exact groups (asking "sre" env_prod risk_medium true)

apart : {s t : String} → s ≡ t → (s == t) ≡ false → ⊥
apart {s = s} {t = t} e other = let yes = (eq_iff s t).1 e in absurd (cc)

some_injective : {A : Type 0} {a b : A} → some a ≡ some b → a ≡ b
some_injective e = cc

typo-IsMisspelt : IsMisspelt groups "typo"
unfolding lookup
typo-IsMisspelt t e known =
    let same : "prodadmin" ≡ t = some_injective e in
    elim known [
      | inl a ↦ absurd (apart (same ∙ a) refl)
      | inr (inl b) ↦ absurd (apart (same ∙ b) refl)
      | inr (inr c) ↦ absurd (apart (same ∙ c) refl)
    ]

typo_mapped : ¬ (All (λ g. lookup g groups ≡ none) ("typo" ∷ []))
unfolding lookup
typo_mapped (none_of, done) = absurd (cc)

unknown_tier_executes_example :
    (d : Decision) × (decide groups (asking "typo" env_prod risk_safe true) ≡ ok d)
    × (d.allow ≡ true)
    × (d.dry_run ≡ false)
unknown_tier_executes_example =
    unknown_tier_executes groups (asking "typo" env_prod risk_safe true) (typo-IsMisspelt, tt)
      typo_mapped refl refl

-- A scrubber that keeps nothing, and a test that knows one key.
abbrev blank : String → String
blank s = "[REDACTED]"

abbrev is_token : String → Bool
is_token k = k == "token"

abbrev decoded : Value
decoded = object (field "token" (text "abc") (field "note" (text "Bearer abc") empty))

redact_value-Clean_example :
    Clean is_token (λ s. s ≡ "[REDACTED]") (redact_value blank is_token decoded)
redact_value-Clean_example =
    redact_value-Clean blank is_token (λ s. s ≡ "[REDACTED]") (λ s. refl) decoded
