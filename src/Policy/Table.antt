-- ===== src/Policy/Table.antt =====
-- What the rules of policy.rego evaluate to, by a table over the constants that they test.
use k8s_ts_mcp.Common.{
  Bool, true, false, not, ◌&&◌, ◌||◌, ◌≡◌, refl, inl, inr, Option, none, some, List, arith, ◌==◌,
  eq_exclusive, Bool-cases,
}
use k8s_ts_mcp.Policy.{
  Tier, RiskLevel, ClusterEnv, tier_read_only, tier_non_prod_admin, tier_prod_admin, risk_safe,
  risk_medium, risk_high, env_prod, env_non_prod, Input, Verdict, rules_by, rules, evaluate,
  default_result,
}

abbrev pub admin_tier : Tier → Bool
admin_tier t = t == tier_non_prod_admin || t == tier_prod_admin

-- The access rules, read as one test: who may run an action of this risk for real.
abbrev pub may_execute : Tier → ClusterEnv → RiskLevel → Bool → Bool
may_execute t env risk flag =
    flag
    && ((risk == risk_safe && not (t == tier_read_only))
        || (risk == risk_medium
            && ((env == env_non_prod && admin_tier t)
                || (env == env_prod && t == tier_prod_admin))))

-- What a test of the tier gives where the caller may have none.
abbrev pub granted : Option Tier → (Tier → Bool) → Bool
granted none p = false
granted (some t) p = p t

-- Who may see or request it.
abbrev pub may_request : Tier → ClusterEnv → RiskLevel → Bool
may_request t env risk =
    risk == risk_high
    || (t == tier_read_only
        || (risk == risk_safe
            || (risk == risk_medium
                && ((env == env_non_prod && admin_tier t)
                    || (env == env_prod && t == tier_prod_admin)))))

-- The tests that the rules make of a text, by which constant it is.
pub data Risk : Type 0 where
  safe medium high other : Risk

pub data Level : Type 0 where
  read_only non_prod_admin prod_admin other : Level

pub data Env : Type 0 where
  prod non_prod other : Env

abbrev pub is_safe : Risk → Bool
is_safe safe = true
is_safe _ = false

abbrev pub is_medium : Risk → Bool
is_medium medium = true
is_medium _ = false

abbrev pub is_high : Risk → Bool
is_high high = true
is_high _ = false

abbrev pub is_read_only : Level → Bool
is_read_only read_only = true
is_read_only _ = false

abbrev pub is_non_prod_admin : Level → Bool
is_non_prod_admin non_prod_admin = true
is_non_prod_admin _ = false

abbrev pub is_prod_admin : Level → Bool
is_prod_admin prod_admin = true
is_prod_admin _ = false

abbrev pub is_prod : Env → Bool
is_prod prod = true
is_prod _ = false

abbrev pub is_non_prod : Env → Bool
is_non_prod non_prod = true
is_non_prod _ = false

pub read_risk :
    (r : RiskLevel)
    → (k : Risk) × ((r == risk_high) ≡ is_high k)
      × ((r == risk_safe) ≡ is_safe k)
      × ((r == risk_medium) ≡ is_medium k)
read_risk r = elim (Bool-cases (r == risk_high)) [
  | inl h ↦ (
    Risk.high,
    h,
    eq_exclusive r risk_high risk_safe refl h,
    eq_exclusive r risk_high risk_medium refl h,
  )
  | inr h ↦ elim (Bool-cases (r == risk_safe)) [
    | inl s ↦ (Risk.safe, h, s, eq_exclusive r risk_safe risk_medium refl s)
    | inr s ↦ elim (Bool-cases (r == risk_medium)) [
      | inl m ↦ (Risk.medium, h, s, m)
      | inr m ↦ (Risk.other, h, s, m)
    ]
  ]
]

pub read_level :
    (t : Tier)
    → (k : Level) × ((t == tier_read_only) ≡ is_read_only k)
      × ((t == tier_non_prod_admin) ≡ is_non_prod_admin k)
      × ((t == tier_prod_admin) ≡ is_prod_admin k)
read_level t = elim (Bool-cases (t == tier_read_only)) [
  | inl h ↦ (
    Level.read_only,
    h,
    eq_exclusive t tier_read_only tier_non_prod_admin refl h,
    eq_exclusive t tier_read_only tier_prod_admin refl h,
  )
  | inr h ↦ elim (Bool-cases (t == tier_non_prod_admin)) [
    | inl s ↦
        (Level.non_prod_admin, h, s, eq_exclusive t tier_non_prod_admin tier_prod_admin refl s)
    | inr s ↦ elim (Bool-cases (t == tier_prod_admin)) [
      | inl m ↦ (Level.prod_admin, h, s, m)
      | inr m ↦ (Level.other, h, s, m)
    ]
  ]
]

pub read_env :
    (e : ClusterEnv)
    → (k : Env) × ((e == env_prod) ≡ is_prod k) × ((e == env_non_prod) ≡ is_non_prod k)
read_env e = elim (Bool-cases (e == env_prod)) [
  | inl h ↦ (Env.prod, h, eq_exclusive e env_prod env_non_prod refl h)
  | inr h ↦ elim (Bool-cases (e == env_non_prod)) [
    | inl s ↦ (Env.non_prod, h, s)
    | inr s ↦ (Env.other, h, s)
  ]
]

-- An evaluation that gives a verdict, never the conflict of two rules, by the two tests above.
abbrev pub Agrees : List (Bool × Verdict) → Bool → Bool → Type 0
Agrees rs request execute =
    (v : Verdict) × (evaluate rs ≡ some v) × (v.allow ≡ request) × (v.dry_run ≡ not execute)

abbrev or_default : Option Verdict → Verdict
or_default none = default_result
or_default (some v) = v

abbrev rules_for : Risk → Level → Env → Bool → List (Bool × Verdict)
rules_for r t e flag =
    rules_by (is_high r) (is_safe r) (is_medium r) (is_read_only t) (is_non_prod_admin t)
      (is_prod_admin t) (is_prod e) (is_non_prod e) flag

abbrev pub in_env : Level → Env → Bool
in_env t e =
    (is_non_prod e && (is_non_prod_admin t || is_prod_admin t)) || (is_prod e && is_prod_admin t)

table :
    (r : Risk) (t : Level) (e : Env) (flag : Bool)
    → Agrees
        (rules_for r t e flag)
        (is_high r || (is_read_only t || (is_safe r || (is_medium r && in_env t e))))
        (flag && ((is_safe r && not (is_read_only t)) || (is_medium r && in_env t e)))
unfolding rules_by evaluate
table r t e flag =
    (or_default (evaluate (rules_for r t e flag)), ground arith, ground arith, ground arith)

pub evaluate-rules :
    (i : Input)
    → Agrees
        (rules i)
        (may_request i.tier i.cluster_env i.action_risk)
        (may_execute i.tier i.cluster_env i.action_risk i.execution_flag)
unfolding rules
evaluate-rules i =
    let (r, h, s, m) = read_risk i.action_risk in
    let (t, ro, np, pa) = read_level i.tier in
    let (e, ep, en) = read_env i.cluster_env in
    rw (h, s, m, ro, np, pa, ep, en) (table r t e i.execution_flag)
