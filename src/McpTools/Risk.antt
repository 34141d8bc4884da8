-- ===== src/McpTools/Risk.antt =====
-- What `maxRisk` asks of the policy: internal/mcptools/mcptools.go.
use k8s_ts_mcp.Common.{
  ℕ, Bool, true, false, not, ◌≡◌, refl, ◌⊎◌, inl, inr, Option, none, some, List, [], ◌∷◌, ◌==◌,
  if◌then◌else◌, any, arith, eq_iff, eq_exclusive,
}
use k8s_ts_mcp.Policy.{risk_safe, risk_medium, risk_high}
use k8s_ts_mcp.AgentCore.{ProposedAction}
use k8s_ts_mcp.McpTools.{max_risk_from, max_risk}

abbrev is_high : ProposedAction → Bool
is_high a = a.risk == risk_high

abbrev is_medium : ProposedAction → Bool
is_medium a = a.risk == risk_medium

-- The ranked risks are three texts, and no two of them are the same.
exclusive :
    (a : ProposedAction)
    → (is_high a ≡ true → is_medium a ≡ false)
      × (is_medium a ≡ true → (a.risk == risk_safe) ≡ false)
      × (is_medium a ≡ true → a.risk ≡ risk_medium)
      × ((a.risk == risk_safe) ≡ true → a.risk ≡ risk_safe)
exclusive a = (
  eq_exclusive a.risk risk_high risk_medium refl,
  eq_exclusive a.risk risk_medium risk_safe refl,
  (eq_iff a.risk risk_medium).0,
  (eq_iff a.risk risk_safe).0,
)

-- The loop, from what it has seen.
max_risk_from_medium :
    (actions : List ProposedAction) → max_risk_from risk_medium (some 1) false actions ≡ risk_medium
unfolding max_risk_from
max_risk_from_medium [] = refl
max_risk_from_medium (a ∷ actions) = ground (arith, max_risk_from_medium actions, exclusive a)

max_risk_from_safe :
    (rank : Option ℕ) (actions : List ProposedAction)
    → (rank ≡ none) ⊎ (rank ≡ some 0)
    → max_risk_from risk_safe rank false actions
      ≡ (if any is_medium actions then risk_medium else risk_safe)
unfolding max_risk_from any
max_risk_from_safe rank [] seen = refl
max_risk_from_safe rank (a ∷ actions) seen = ground (
  arith,
  max_risk_from_safe rank actions seen,
  max_risk_from_safe (some 0) actions (inr refl),
  max_risk_from_medium actions,
  exclusive a,
)

-- The risk that the policy is asked about is high where every proposed action is, else medium where
-- some action is, else safe.
pub max_risk_exact :
    (actions : List ProposedAction)
    → max_risk actions ≡ (
        if any (λ a. not (is_high a)) actions
        then (if any is_medium actions then risk_medium else risk_safe)
        else risk_high)
unfolding max_risk max_risk_from any
max_risk_exact [] = refl
max_risk_exact (a ∷ actions) = ground (
  arith,
  max_risk_exact actions,
  max_risk_from_safe none actions (inl refl),
  max_risk_from_safe (some 0) actions (inr refl),
  max_risk_from_medium actions,
  exclusive a,
)
