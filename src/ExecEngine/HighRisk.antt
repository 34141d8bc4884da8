-- ===== src/ExecEngine/HighRisk.antt =====
-- High risk: internal/execengine/execengine.go, `Run`, never calls a closure of a high-risk action.
use k8s_ts_mcp.Common.{
  String, true, false, ◌≡◌, refl, ap, inl, inr, List, [], ◌∷◌, ◌++◌, arith, ◌==◌, length, All,
  Bool-cases, ltb,
}
use mathlib.Core.Path.{fun_ext}
use k8s_ts_mcp.Policy.{risk_high}
use k8s_ts_mcp.ExecEngine.{
  Action, Ladder, AttemptResult, RunResult, Outcome, done, panic, Texts, add_attempt, no_attempts,
  run_one, run_actions, run, after_action, max_actions, returned,
}
use k8s_ts_mcp.ExecEngine.Steps.{Keeps, run_one-Keeps}

module _ {W : Type 0} (x : Texts) where
  after_action-Keeps :
      (P : W → Type 0) (next : RunResult → W → Outcome RunResult × W) (r : RunResult)
      (o : Outcome AttemptResult × W)
      → P o.1
      → ((r' : RunResult) (w : W) → P w → P (next r' w).1)
      → P (after_action x next r o).1
  after_action-Keeps P next r (panic, w) h ih = h
  after_action-Keeps P next r (done t, w) h ih = elim (Bool-cases t.validated) [
    | inl healthy ↦ simp healthy h
    | inr unhealthy ↦ simp unhealthy (ih (add_attempt t r) w h)
  ]

  -- What may run on its own keeps `P`.
  abbrev pub SafeKeeps : (W → Type 0) → Action W → Type 0
  SafeKeeps P a = (a.risk == risk_high) ≡ false → Keeps P a

  run_actions-Keeps :
      (P : W → Type 0) (actions : List (Action W)) (r : RunResult) (w : W)
      → All (SafeKeeps P) actions
      → P w
      → P (run_actions x actions r w).1
  unfolding run_actions
  run_actions-Keeps P [] r w k h = h
  run_actions-Keeps P (a ∷ rest) r w (k, ks) h = elim (Bool-cases (a.risk == risk_high)) [
    | inl high ↦ rw (high, run_actions) h
    | inr low ↦
        rw (low, run_actions)
          (after_action-Keeps P (run_actions x rest) r (run_one x a w)
            (run_one-Keeps x a (k low) w h) (λ r' w' h'. run_actions-Keeps P rest r' w' ks h'))
  ]

  returned-world : (o : Outcome RunResult × W) → (returned o).1 ≡ o.1
  returned-world (panic, w) = refl
  returned-world (done r, w) = refl

  -- What every closure of the actions below high risk keeps, `Run` keeps: no closure of a high-risk
  -- action is ever called.
  pub run-Keeps :
      (P : W → Type 0) (l : Ladder W) (w : W) → All (SafeKeeps P) l.actions → P w → P (run x l w).1
  unfolding run
  run-Keeps P l w k h = elim (Bool-cases (ltb 0 (length l.actions))) [
    | inr e ↦ rw (e, run) h
    | inl lo ↦ elim (Bool-cases (ltb max_actions (length l.actions))) [
      | inl e ↦ rw (lo, e, run) h
      | inr hi ↦
          rw (lo, hi, run)
            (rw (returned-world (run_actions x l.actions (no_attempts l.playbook_id) w))
              (run_actions-Keeps P l.actions (no_attempts l.playbook_id) w k h))
    ]
  ]

  run_actions_inert :
      (before : List (Action W)) (a b : Action W) (rest rest' : List (Action W)) (r : RunResult)
      (w : W)
      → (a.risk == risk_high) ≡ true
      → a.name ≡ b.name
      → a.description ≡ b.description
      → a.risk ≡ b.risk
      → run_actions x (before ++ a ∷ rest) r w ≡ run_actions x (before ++ b ∷ rest') r w
  unfolding run_actions
  run_actions_inert [] a b rest rest' r w high n d k = rw (← k, high, run_actions) cc
  run_actions_inert (c ∷ before) a b rest rest' r w high n d k =
      elim (Bool-cases (c.risk == risk_high)) [
        | inl top ↦ rw (top, run_actions) refl
        | inr low ↦
            rw (low, run_actions)
              (ap (λ next. after_action x next r (run_one x c w))
                (fun_ext
                  λ r'. fun_ext λ w'. run_actions_inert before a b rest rest' r' w' high n d k))
      ]

  length_ladder :
      (before : List (Action W)) (a b : Action W) (rest rest' : List (Action W))
      → length rest ≡ length rest'
      → length (before ++ a ∷ rest) ≡ length (before ++ b ∷ rest')
  length_ladder [] a b rest rest' e = omega (arith, e)
  length_ladder (c ∷ before) a b rest rest' e = omega (arith, length_ladder before a b rest rest' e)

  -- What stands in the closures of a high-risk action, and in the actions after it, whose number is
  -- kept, has no influence on `Run`: neither on the result nor on the world.
  pub high_risk_inert :
      (id : String) (before : List (Action W)) (a b : Action W) (rest rest' : List (Action W))
      (w : W)
      → (a.risk == risk_high) ≡ true
      → a.name ≡ b.name
      → a.description ≡ b.description
      → a.risk ≡ b.risk
      → length rest ≡ length rest'
      → run x (record { playbook_id = id; actions = before ++ a ∷ rest }) w
        ≡ run x (record { playbook_id = id; actions = before ++ b ∷ rest' }) w
  unfolding run
  high_risk_inert id before a b rest rest' w high n d k e = simp (
    length_ladder before a b rest rest' e,
    run_actions_inert before a b rest rest' (no_attempts id) w high n d k,
  )
