-- ===== src/Playbooks/Laws.antt =====
-- What holds of every ladder of the built-in playbooks: internal/playbooks.
use k8s_ts_mcp.Common.{
  ℕ, ◌≤◌, ◌<◌, false, ◌≡◌, ◌≢◌, none, some, List, [], ◌∷◌, arith, ◌==◌, if◌then◌else◌, length, All,
  find-All,
}
use k8s_ts_mcp.Policy.{RiskLevel, risk_medium, risk_high}
use k8s_ts_mcp.ExecEngine.{Action, Ladder, max_actions}
use k8s_ts_mcp.K8sClient.{Api}
use k8s_ts_mcp.Playbooks.{Signal, Finding, Playbook, find_playbook}
use k8s_ts_mcp.Playbooks.BuiltIn.{Settings, built_in}

-- `safe` before `medium` before `high`; no other risk.
abbrev pub risk_number : RiskLevel → ℕ
risk_number r = if r == risk_high then 2 else if r == risk_medium then 1 else 0

abbrev pub NoLower : {W : Type 0} → ℕ → List (Action W) → Type 0
NoLower n [] = Unit
NoLower n (a ∷ rest) = (n ≤ risk_number a.risk) × NoLower (risk_number a.risk) rest

module _ {W : Type 0} where
  -- What `execengine.Run` asks of a ladder: one to three actions, and a `Run` in each of them that
  -- may run on its own.
  pub record IsSound (p : Playbook W) (l : Ladder W) : Type 0 where
    pub named : l.playbook_id ≡ p.id
    pub some_action : 0 < length l.actions
    pub at_most_three : length l.actions ≤ max_actions
    pub rising : NoLower 0 l.actions
    pub runnable : All (λ a. (a.risk == risk_high) ≡ false → a.run ≢ none) l.actions

  module _ (api : Api W) (s : Settings) where
    All-IsSound : All (λ p. (f : Finding) → IsSound p (p.ladder f)) (built_in api s)
    unfolding built_in
    All-IsSound = (
      (λ f. ground arith),
      (
        (λ f. ground arith),
        (
          (λ f. ground arith),
          ((λ f. ground arith), ((λ f. ground arith), ((λ f. ground arith), tt))),
        ),
      ),
    )

    -- Whatever playbook the registry finds for a signal, and whatever it found, its ladder has one to
    -- three actions in rising order of risk, bears the playbook's id, and every action in it that is
    -- not of high risk has a `Run`.
    pub built_in-IsSound :
        (sig : Signal) (p : Playbook W) (f : Finding)
        → find_playbook (built_in api s) sig ≡ some p
        → IsSound p (p.ladder f)
    unfolding find_playbook
    built_in-IsSound sig p f e =
        find-All (λ q. (g : Finding) → IsSound q (q.ladder g)) (λ q. q.detect sig) (built_in api s)
          p All-IsSound e f
