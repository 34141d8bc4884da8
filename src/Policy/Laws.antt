-- ===== src/Policy/Laws.antt =====
-- What `Engine.Decide` answers: internal/policy/engine.go over the rules of policy.rego.
use k8s_ts_mcp.Common.{
  ℕ, ◌≤◌, String, Bool, true, false, not, ◌&&◌, ◌||◌, ◌≡◌, ◌≢◌, refl, ◌∙◌, ◌⊎◌, inl, inr, Option,
  none, some, List, arith, ◌==◌, eq_iff, Option-cases, ok,
}
use k8s_ts_mcp.Policy.{
  tier_rank, Tier, RiskLevel, ClusterEnv, GroupMapping, tier_read_only, tier_non_prod_admin,
  tier_prod_admin, risk_medium, risk_high, env_prod, highest_tier, Request, Decision, input_for,
  denied_caller, decide,
}
use k8s_ts_mcp.Policy.Table.{
  Risk, Level, Env, granted, may_request, may_execute, is_safe, is_medium, is_read_only,
  is_non_prod_admin, is_prod_admin, in_env, read_risk, read_level, read_env, evaluate-rules,
}

-- `Decide` always answers. It allows exactly what `may_request` grants the caller's tier, and leaves
-- the dry run exactly for what `may_execute` grants it; a caller without a tier is granted nothing.
pub decide_exact :
    (m : GroupMapping) (req : Request)
    → (d : Decision) × (decide m req ≡ ok d)
      × (d.allow
          ≡ granted
              (highest_tier m req.groups)
              (λ t. may_request t req.cluster_env req.action_risk))
      × (d.dry_run
          ≡ not (
              granted
                (highest_tier m req.groups)
                (λ t. may_execute t req.cluster_env req.action_risk req.execution_flag)))
unfolding decide
decide_exact m req = elim (Option-cases (highest_tier m req.groups)) [
  | inl e ↦ rw e (denied_caller, refl, refl, refl)
  | inr (t, e) ↦
      let (v, ev, a, d) = evaluate-rules (input_for t req) in
      rw (e, ev)
        (record { allow = v.allow; dry_run = v.dry_run; reason = v.reason; tier = t }, refl, a, d)
]

-- Where the tier's test fails, or there is no tier, the decision is a dry run.
pub dry_run_unless :
    (m : GroupMapping) (req : Request) (d : Decision)
    → decide m req ≡ ok d
    → granted
        (highest_tier m req.groups)
        (λ t. may_execute t req.cluster_env req.action_risk req.execution_flag)
      ≡ false
    → d.dry_run ≡ true
dry_run_unless m req d e g = let (d', e', a, r) = decide_exact m req in ground (arith, r, g, e, e')

granted_flag_off :
    (o : Option Tier) (env : ClusterEnv) (r : RiskLevel)
    → granted o (λ t. may_execute t env r false) ≡ false
granted_flag_off none env r = refl
granted_flag_off (some t) env r = refl

-- With the global flag off no caller gets a decision that runs.
pub flag_off_dry_run :
    (m : GroupMapping) (req : Request) (d : Decision)
    → req.execution_flag ≡ false
    → decide m req ≡ ok d
    → d.dry_run ≡ true
flag_off_dry_run m req d off e =
    dry_run_unless m req d e
      (rw off (granted_flag_off (highest_tier m req.groups) req.cluster_env req.action_risk))

granted_high :
    (o : Option Tier) (env : ClusterEnv) (flag : Bool)
    → granted o (λ t. may_execute t env risk_high flag) ≡ false
granted_high none env flag = refl
granted_high (some t) env true = refl
granted_high (some t) env false = refl

-- For a high risk no caller gets a decision that runs.
pub high_risk_dry_run :
    (m : GroupMapping) (req : Request) (d : Decision)
    → req.action_risk ≡ risk_high
    → decide m req ≡ ok d
    → d.dry_run ≡ true
high_risk_dry_run m req d top e =
    dry_run_unless m req d e
      (rw top (granted_high (highest_tier m req.groups) req.cluster_env req.execution_flag))

abbrev level_rank : Level → ℕ
level_rank Level.prod_admin = 2
level_rank Level.non_prod_admin = 1
level_rank _ = 0

tier_rank-level :
    (t : Tier) (k : Level)
    → (t == tier_non_prod_admin) ≡ is_non_prod_admin k
    → (t == tier_prod_admin) ≡ is_prod_admin k
    → tier_rank t ≡ level_rank k
unfolding tier_rank
tier_rank-level t k np pa = ground arith

-- One of the three tiers of the source.
abbrev pub IsKnown : Tier → Type 0
IsKnown t = (t ≡ tier_read_only) ⊎ ((t ≡ tier_non_prod_admin) ⊎ (t ≡ tier_prod_admin))

level_monotone-execute :
    (r : Risk) (e : Env) (flag : Bool) (t u : Level)
    → t ≢ Level.other
    → u ≢ Level.other
    → level_rank t ≤ level_rank u
    → (flag && ((is_safe r && not (is_read_only t)) || (is_medium r && in_env t e))) ≡ true
    → (flag && ((is_safe r && not (is_read_only u)) || (is_medium r && in_env u e))) ≡ true
level_monotone-execute r e flag t u kt ku le h = ground arith

IsKnown-level :
    (t : Tier) (k : Level)
    → IsKnown t
    → (t == tier_read_only) ≡ is_read_only k
    → (t == tier_non_prod_admin) ≡ is_non_prod_admin k
    → (t == tier_prod_admin) ≡ is_prod_admin k
    → k ≢ Level.other
IsKnown-level t k known ro np pa =
    ground (arith, eq_iff t tier_read_only, eq_iff t tier_non_prod_admin, eq_iff t tier_prod_admin)

may_execute_monotone :
    (t u : Tier) (cluster_env : ClusterEnv) (risk : RiskLevel) (flag : Bool)
    → IsKnown t
    → IsKnown u
    → tier_rank t ≤ tier_rank u
    → may_execute t cluster_env risk flag ≡ true
    → may_execute u cluster_env risk flag ≡ true
may_execute_monotone t u cluster_env risk flag kt ku le =
    let (r, _, s, med) = read_risk risk in
    let (k, ro, np, pa) = read_level t in
    let (k', ro', np', pa') = read_level u in
    let (e, ep, en) = read_env cluster_env in
    let up : level_rank k ≤ level_rank k' =
      rw (← tier_rank-level t k np pa, ← tier_rank-level u k' np' pa') le in
    rw (s, med, ro, np, pa, ro', np', pa', ep, en)
      (level_monotone-execute r e flag k k' (IsKnown-level t k kt ro np pa)
        (IsKnown-level u k' ku ro' np' pa') up)

dry_run_at :
    (m : GroupMapping) (req : Request) (t : Tier) (d : Decision)
    → highest_tier m req.groups ≡ some t
    → decide m req ≡ ok d
    → d.dry_run ≡ not (may_execute t req.cluster_env req.action_risk req.execution_flag)
dry_run_at m req t d ht e =
    let (d', e', a, r) = decide_exact m req in let same : d ≡ d' = cc in rw (same, r, ht) refl

-- A caller at one of the three tiers whose requests run for real keeps that at a higher tier.
pub tier_monotone :
    (m : GroupMapping) (req : Request) (better : List String) (t u : Tier) (d e : Decision)
    → highest_tier m req.groups ≡ some t
    → highest_tier m better ≡ some u
    → IsKnown t
    → IsKnown u
    → tier_rank t ≤ tier_rank u
    → decide m req ≡ ok d
    → decide m (record req { groups = better }) ≡ ok e
    → d.dry_run ≡ false
    → e.dry_run ≡ false
tier_monotone m req better t u d e ht hu kt ku le dd de runs = ground (
  arith,
  dry_run_at m req t d ht dd,
  dry_run_at m (record req { groups = better }) u e hu de,
  may_execute_monotone t u req.cluster_env req.action_risk req.execution_flag kt ku le,
)

-- Medium risk in prod is shown as a proposal to the readonly tier, and to nonprod-admin, a higher
-- tier, not even that: `allow` does not grow with the tier.
pub allow_not_monotone :
    (m : GroupMapping) (req : Request) (better : List String)
    → highest_tier m req.groups ≡ some tier_read_only
    → highest_tier m better ≡ some tier_non_prod_admin
    → req.action_risk ≡ risk_medium
    → req.cluster_env ≡ env_prod
    → (d : Decision) × (e : Decision) × (decide m req ≡ ok d)
      × (decide m (record req { groups = better }) ≡ ok e)
      × (d.allow ≡ true)
      × (e.allow ≡ false)
allow_not_monotone m req better ht hu med prod =
    let (d, eq, a, _) = decide_exact m req in
    let (e, eq', a', _) = decide_exact m (record req { groups = better }) in
    (d, e, eq, eq', a ∙ rw (ht, med) refl, a' ∙ rw (hu, med, prod) refl)
