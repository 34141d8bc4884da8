-- ===== src/Policy.antt =====
-- internal/policy: tiers, risks, the group mapping, the rules of policy.rego and `Engine.Decide`.
-- Tiers, risks and environments are texts, as in the source, so a value outside the constants is
-- a case of the model.
pub mod Table
pub mod Laws
pub mod Tiers
pub mod Unknown
use k8s_ts_mcp.Common.{
  ℕ, String, Bool, true, false, not, ◌&&◌, ◌||◌, Option, none, some, List, [], ◌∷◌, ltb, ◌==◌,
  if◌then◌else◌, Map, lookup, foreign, errorf, end, cause, Result, ok, err,
}

abbrev pub Tier : Type 0
Tier = String

abbrev pub RiskLevel : Type 0
RiskLevel = String

abbrev pub ClusterEnv : Type 0
ClusterEnv = String

abbrev pub tier_read_only : Tier
tier_read_only = "readonly"

abbrev pub tier_non_prod_admin : Tier
tier_non_prod_admin = "nonprod-admin"

abbrev pub tier_prod_admin : Tier
tier_prod_admin = "prod-admin"

abbrev pub risk_safe : RiskLevel
risk_safe = "safe"

abbrev pub risk_medium : RiskLevel
risk_medium = "medium"

abbrev pub risk_high : RiskLevel
risk_high = "high"

abbrev pub env_prod : ClusterEnv
env_prod = "prod"

abbrev pub env_non_prod : ClusterEnv
env_non_prod = "nonprod"

abbrev pub GroupMapping : Type 0
GroupMapping = Map Tier

-- A tier outside the map ranks 0, the zero value that a missing key reads as.
unfoldable pub tier_rank : Tier → ℕ
tier_rank t = if t == tier_prod_admin then 2 else if t == tier_non_prod_admin then 1 else 0

-- `rank > best`, where `none` is the initial -1.
abbrev pub above : ℕ → Option ℕ → Bool
above rank none = true
above rank (some best) = ltb best rank

-- The loop of `HighestTier`: what it has found so far is `best` and its tier.
unfoldable pub highest_from : GroupMapping → Option ℕ → Option Tier → List String → Option Tier
highest_from m best tier [] = tier
highest_from m best tier (g ∷ groups) = elim (lookup g m) [
  | none ↦ highest_from m best tier groups
  | some t ↦ elim (above (tier_rank t) best) [
    | true ↦ highest_from m (some (tier_rank t)) (some t) groups
    | false ↦ highest_from m best tier groups
  ]
]

unfoldable pub highest_tier : GroupMapping → List String → Option Tier
unfolding highest_from
highest_tier m groups = highest_from m none none groups

pub record Request : Type 0 where
  pub groups : List String
  pub cluster_env : ClusterEnv
  pub action_risk : RiskLevel
  pub execution_flag : Bool

pub record Decision : Type 0 where
  pub allow : Bool
  pub dry_run : Bool
  pub reason : String
  pub tier : Tier

-- The input document of the policy, and the object that a rule assigns.
pub record Input : Type 0 where
  pub tier : Tier
  pub cluster_env : ClusterEnv
  pub action_risk : RiskLevel
  pub execution_flag : Bool

pub record Verdict : Type 0 where
  pub allow : Bool
  pub dry_run : Bool
  pub reason : String

abbrev pub verdict : Bool → Bool → String → Verdict
verdict a d r = record { allow = a; dry_run = d; reason = r }

-- The rules of policy.rego, each with its body as a test and the value it assigns to `result`.
-- The arguments are the tests that the bodies make of the input.
unfoldable pub rules_by :
    (high safe medium read_only non_prod_admin prod_admin prod non_prod flag : Bool)
    → List (Bool × Verdict)
rules_by high safe medium read_only non_prod_admin prod_admin prod non_prod flag =
    (high, verdict true true "ação de alto risco: sempre requer aprovação humana")
    ∷ (not high && read_only, verdict true true "tier readonly: apenas diagnóstico")
    ∷ (
      safe && (not read_only && flag),
      verdict true false "ação segura, dentro do tier do chamador",
    )
    ∷ (
      safe && (not read_only && not flag),
      verdict true true
          "ação segura, dentro do tier do chamador, mas flag de execução está desligada",
    )
    ∷ (
      medium && (non_prod && ((non_prod_admin || prod_admin) && flag)),
      verdict true false "ação de risco médio em não-prod, tier compatível",
    )
    ∷ (
      medium && (non_prod && ((non_prod_admin || prod_admin) && not flag)),
      verdict true true
          "ação de risco médio em não-prod, tier compatível, mas flag de execução está desligada",
    )
    ∷ (
      medium && (prod && (prod_admin && flag)),
      verdict true false "ação de risco médio em prod, tier compatível",
    )
    ∷ (
      medium && (prod && (prod_admin && not flag)),
      verdict true true
          "ação de risco médio em prod, tier compatível, mas flag de execução está desligada",
    )
    ∷ []

unfoldable pub rules : Input → List (Bool × Verdict)
unfolding rules_by
rules i =
    rules_by (i.action_risk == risk_high) (i.action_risk == risk_safe)
      (i.action_risk == risk_medium) (i.tier == tier_read_only) (i.tier == tier_non_prod_admin)
      (i.tier == tier_prod_admin) (i.cluster_env == env_prod) (i.cluster_env == env_non_prod)
      i.execution_flag

abbrev pub default_result : Verdict
default_result = verdict false true "negado por padrão: nenhuma regra de política corresponde"

abbrev pub same_bool : Bool → Bool → Bool
same_bool true b = b
same_bool false b = not b

abbrev pub same : Verdict → Verdict → Bool
same a b = same_bool a.allow b.allow && (same_bool a.dry_run b.dry_run && a.reason == b.reason)

-- The value of a complete rule: the one that its true bodies agree on, the default where no body
-- is true, and an evaluation error where two of them assign different values.
unfoldable pub agree : Verdict → List (Bool × Verdict) → Option Verdict
agree v [] = some v
agree v ((false, u) ∷ rest) = agree v rest
agree v ((true, u) ∷ rest) = if same v u then agree v rest else none

unfoldable pub evaluate : List (Bool × Verdict) → Option Verdict
unfolding agree
evaluate [] = some default_result
evaluate ((false, u) ∷ rest) = evaluate rest
evaluate ((true, u) ∷ rest) = agree u rest

abbrev pub denied_caller : Decision
denied_caller = record {
  allow = false;
  dry_run = true;
  reason = "chamador não pertence a nenhum grupo AD mapeado para um tier de acesso";
  tier = "";
}

abbrev pub to_decision : Tier → Option Verdict → Result Decision
to_decision t none =
    err (foreign "eval_conflict_error: complete rules must not produce multiple outputs")
to_decision t (some v) =
    ok (record { allow = v.allow; dry_run = v.dry_run; reason = v.reason; tier = t })

abbrev pub input_for : Tier → Request → Input
input_for t req = record {
  tier = t;
  cluster_env = req.cluster_env;
  action_risk = req.action_risk;
  execution_flag = req.execution_flag;
}

abbrev decide_at : Request → Option Tier → Result Decision
unfolding rules evaluate
decide_at req none = ok denied_caller
decide_at req (some t) = to_decision t (evaluate (rules (input_for t req)))

-- `LoadGroupMapping`, of what the YAML decoder gives.
unfoldable pub load_groups : Result GroupMapping → Result GroupMapping
load_groups (err e) = err (errorf "decoding group mapping: %w" (cause e end))
load_groups (ok groups) = ok groups

unfoldable pub caller_tier : GroupMapping → List String → Option Tier
unfolding highest_tier
caller_tier m groups = highest_tier m groups

unfoldable pub decide : GroupMapping → Request → Result Decision
unfolding rules evaluate
decide m req = decide_at req (highest_tier m req.groups)
