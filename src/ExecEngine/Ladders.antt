-- ===== src/ExecEngine/Ladders.antt =====
-- The whole ladder: internal/execengine/execengine.go, `Run`.
use k8s_ts_mcp.Common.{
  ◌≤◌, ◌<◌, Bool, true, false, ◌≡◌, ◌≢◌, refl, sym, subst, ◌∙◌, ◌⊎◌, inl, inr, none, List, [], ◌∷◌,
  ◌++◌, arith, ◌==◌, ok, err, length, All, Bool-cases, ltb, ltb→lt, lt→ltb, ltb-false→le,
  le→ltb-false,
}
use mathlib.Core.List.{append-nil, append_assoc}
use k8s_ts_mcp.Policy.{risk_high}
use k8s_ts_mcp.ExecEngine.{
  Action, Ladder, AttemptResult, RunResult, Outcome, done, panic, Texts, skipped_attempt,
  add_attempt, no_attempts, run_one, run_actions, run, after_action, max_actions, no_actions,
  too_many_actions, returned,
}
use k8s_ts_mcp.ExecEngine.Steps.{IsOf, run_one-IsOf, run_one_done}

-- The attempts that the loop records for a ladder, and whether it ends resolved: one attempt for each
-- action in order, up to the first that is validated or that is of high risk.
pub data Trace {W : Type 0} : List (Action W) → List AttemptResult → Bool → Type 0 where
  exhausted : Trace [] [] false
  refused :
      {a : Action W} {rest : List (Action W)}
      → (a.risk == risk_high) ≡ true
      → Trace (a ∷ rest) (skipped_attempt a ∷ []) false
  resolved :
      {a : Action W} {rest : List (Action W)} {t : AttemptResult}
      → (a.risk == risk_high) ≡ false
      → IsOf a t
      → t.validated ≡ true
      → Trace (a ∷ rest) (t ∷ []) true
  escalated :
      {a : Action W} {rest : List (Action W)} {t : AttemptResult} {ts : List AttemptResult}
      {b : Bool}
      → (a.risk == risk_high) ≡ false
      → IsOf a t
      → t.validated ≡ false
      → Trace rest ts b
      → Trace (a ∷ rest) (t ∷ ts) b

module _ {W : Type 0} (x : Texts) where
  -- What the loop adds to a result.
  abbrev Adds : List (Action W) → RunResult → Outcome RunResult × W → Type 0
  Adds actions r (panic, w) = Unit
  Adds actions r (done r', w) =
      (ts : List AttemptResult) × (r'.attempts ≡ r.attempts ++ ts)
      × Trace actions ts r'.resolved
      × (r'.playbook_id ≡ r.playbook_id)

  Adds-escalated :
      (a : Action W) (rest : List (Action W)) (t : AttemptResult) (r : RunResult)
      (o : Outcome RunResult × W)
      → (a.risk == risk_high) ≡ false
      → IsOf a t
      → t.validated ≡ false
      → Adds rest (add_attempt t r) o
      → Adds (a ∷ rest) r o
  Adds-escalated a rest t r (panic, w) low of unhealthy h = tt
  Adds-escalated a rest t r (done r', w) low of unhealthy (ts, eq, trace, id) =
      (t ∷ ts, eq ∙ append_assoc r.attempts (t ∷ []) ts, escalated low of unhealthy trace, id)

  after_action-Adds :
      (a : Action W) (rest : List (Action W)) (next : RunResult → W → Outcome RunResult × W)
      (r : RunResult) (w : W) (o : Outcome AttemptResult × W)
      → (a.risk == risk_high) ≡ false
      → run_one x a w ≡ o
      → ((r' : RunResult) (w' : W) → r'.resolved ≡ r.resolved → Adds rest r' (next r' w'))
      → Adds (a ∷ rest) r (after_action x next r o)
  after_action-Adds a rest next r w (panic, w') low e ih = tt
  after_action-Adds a rest next r w (done t, w') low e ih = elim (Bool-cases t.validated) [
    | inl healthy ↦ simp healthy (t ∷ [], refl, resolved low (run_one-IsOf x a w e) healthy, refl)
    | inr unhealthy ↦ simp unhealthy (
        Adds-escalated a rest t r (next (add_attempt t r) w') low (run_one-IsOf x a w e) unhealthy
          (ih (add_attempt t r) w' refl))
  ]

  run_actions-Adds :
      (actions : List (Action W)) (r : RunResult) (w : W)
      → r.resolved ≡ false
      → Adds actions r (run_actions x actions r w)
  unfolding run_actions
  run_actions-Adds [] r w fresh = ([], sym (append-nil r.attempts), rw fresh exhausted, refl)
  run_actions-Adds (a ∷ rest) r w fresh = elim (Bool-cases (a.risk == risk_high)) [
    | inl high ↦
        rw (high, run_actions) (skipped_attempt a ∷ [], refl, rw fresh (refused high), refl)
    | inr low ↦
        rw (low, run_actions)
          (after_action-Adds a rest (run_actions x rest) r w (run_one x a w) low refl
            (λ r' w' e. run_actions-Adds rest r' w' (e ∙ fresh)))
  ]

  -- `Run` refuses a ladder with no action or with more than three, and touches nothing.
  abbrev pub InBounds : Ladder W → Type 0
  InBounds l = (0 < length l.actions) × (length l.actions ≤ max_actions)

  pub run-eq :
      (l : Ladder W) (w : W)
      → InBounds l
      → run x l w ≡ returned (run_actions x l.actions (no_attempts l.playbook_id) w)
  unfolding run
  run-eq l w (lo, hi) = rw (lt→ltb _ _ lo, le→ltb-false _ _ hi) refl

  ok-InBounds :
      (l : Ladder W) (w w' : W) (r : RunResult) → run x l w ≡ (done (ok r), w') → InBounds l
  unfolding run
  ok-InBounds l w w' r h = ground arith

  returned-ok :
      (o : Outcome RunResult × W) (r : RunResult) (w : W)
      → returned o ≡ (done (ok r), w)
      → o ≡ (done r, w)
  returned-ok (panic, w') r w h = cc
  returned-ok (done r', w') r w h = cc

  returned_done :
      (o : Outcome RunResult × W) (r : RunResult) → o.0 ≡ done r → (returned o).0 ≡ done (ok r)
  returned_done (panic, w) r h = cc
  returned_done (done r', w) r h = cc

  -- The attempts of a finished run are those of its ladder, in order, up to the first that is
  -- validated or of high risk, and the run is resolved exactly when that one was validated.
  pub run-Trace :
      (l : Ladder W) (w w' : W) (r : RunResult)
      → run x l w ≡ (done (ok r), w')
      → Trace l.actions r.attempts r.resolved × (r.playbook_id ≡ l.playbook_id)
  run-Trace l w w' r h =
      let e : run_actions x l.actions (no_attempts l.playbook_id) w ≡ (done r, w') =
        returned-ok _ r w' (sym (run-eq l w (ok-InBounds l w w' r h)) ∙ h) in
      let adds : Adds l.actions (no_attempts l.playbook_id) (done r, w') =
        rw e at (run_actions-Adds l.actions (no_attempts l.playbook_id) w refl) in
      let (ts, eq, trace, id) = adds in
      (subst (λ ts. Trace l.actions ts r.resolved) (sym eq) trace, id)

  after_action_done :
      (next : RunResult → W → Outcome RunResult × W) (r : RunResult) (o : Outcome AttemptResult × W)
      → ((t : AttemptResult) × (o.0 ≡ done t))
      → ((r' : RunResult) (w : W) → (r'' : RunResult) × ((next r' w).0 ≡ done r''))
      → (r'' : RunResult) × ((after_action x next r o).0 ≡ done r'')
  after_action_done next r (panic, w) (t, e) ih = cc
  after_action_done next r (done t, w) _ ih = elim (Bool-cases t.validated) [
    | inl healthy ↦ simp healthy (_, refl)
    | inr unhealthy ↦ simp unhealthy (ih (add_attempt t r) w)
  ]

  -- Every action that may run on its own has a `Run`.
  abbrev pub Runnable : Action W → Type 0
  Runnable a = (a.risk == risk_high) ≡ false → a.run ≢ none

  run_actions_done :
      (actions : List (Action W)) (r : RunResult) (w : W)
      → All Runnable actions
      → (r' : RunResult) × ((run_actions x actions r w).0 ≡ done r')
  unfolding run_actions
  run_actions_done [] r w h = (r, refl)
  run_actions_done (a ∷ rest) r w (runnable, h) = elim (Bool-cases (a.risk == risk_high)) [
    | inl high ↦ rw (high, run_actions) (_, refl)
    | inr low ↦
        rw (low, run_actions)
          (after_action_done (run_actions x rest) r (run_one x a w)
            (run_one_done x a w (runnable low)) (λ r' w'. run_actions_done rest r' w' h))
  ]

  -- A ladder of one to three actions runs to a result, without a panic, where every action that is
  -- not of high risk has a `Run`; a high-risk one need not have any.
  pub run_total :
      (l : Ladder W) (w : W)
      → InBounds l
      → All Runnable l.actions
      → (r : RunResult) × ((run x l w).0 ≡ done (ok r))
  run_total l w bounds runnable =
      let (r, e) = run_actions_done l.actions (no_attempts l.playbook_id) w runnable in
      (r, rw (run-eq l w bounds) (returned_done _ r e))

  -- On a ladder without actions or with more than three `Run` returns one of its two errors and
  -- leaves the world alone.
  pub run_refuses :
      (l : Ladder W) (w : W)
      → ¬ (InBounds l)
      → (run x l w ≡ (done (err (no_actions l)), w))
        ⊎ (run x l w ≡ (done (err (too_many_actions l)), w))
  unfolding run
  run_refuses l w out = elim (Bool-cases (ltb 0 (length l.actions))) [
    | inr e ↦ inl (rw (e, run) refl)
    | inl lo ↦ elim (Bool-cases (ltb max_actions (length l.actions))) [
      | inl e ↦ inr (rw (lo, e, run) refl)
      | inr hi ↦ absurd (out (ltb→lt _ _ lo, ltb-false→le _ _ hi))
    ]
  ]
