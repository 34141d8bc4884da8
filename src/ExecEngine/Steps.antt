-- ===== src/ExecEngine/Steps.antt =====
-- One action of a ladder: internal/execengine/execengine.go, `runOne` and `rollback`.
use k8s_ts_mcp.Common.{
  String, Bool, true, false, ◌≡◌, ◌≢◌, refl, Option, none, some, arith, Error, Result, ok, err,
  Call, CallBoth,
}
use k8s_ts_mcp.Redact.{Fields}
use k8s_ts_mcp.ExecEngine.{
  State, Action, AttemptResult, done, panic, Texts, roll_back, run_one, record_rollback,
  rollback_with, validated_step, validate_with, run_step, run_with, snapshot_step, snapshot_with,
}

-- The closures of an action keep a predicate on the world.
pub record Keeps {W : Type 0} (P : W → Type 0) (a : Action W) : Type 0 where
  pub snapshot_keeps : (f : Call W State) → a.snapshot ≡ some f → (w : W) → P w → P (f w).1
  pub run_keeps : (f : CallBoth W String) → a.run ≡ some f → (w : W) → P w → P (f w).1
  pub validate_keeps : (f : CallBoth W Bool) → a.validate ≡ some f → (w : W) → P w → P (f w).1
  pub rollback_keeps :
      (f : Fields → W → Option Error × W)
      → a.rollback ≡ some f
      → (s : Fields) (w : W) → P w
      → P (f s w).1

-- What an attempt says of its action.
pub record IsOf {W : Type 0} (a : Action W) (t : AttemptResult) : Type 0 where
  pub action_is : t.action ≡ a.name
  pub description_is : t.description ≡ a.description
  pub risk_is : t.risk ≡ a.risk
  pub not_skipped : t.skipped ≡ false

module _ {W : Type 0} (x : Texts) where
  -- The record of an attempt is about its action, and says that it was not skipped.
  pub run_one-IsOf :
      (a : Action W) (w : W) {t : AttemptResult} {w' : W} → run_one x a w ≡ (done t, w') → IsOf a t
  unfolding run_one
  run_one-IsOf a w h = ground arith

  record_rollback-world :
      (t : AttemptResult) (r : Option Error × W) → (record_rollback x t r).1 ≡ r.1
  record_rollback-world t (none, w) = refl
  record_rollback-world t (some e, w) = refl

  module _ {P : W → Type 0} (a : Action W) (k : Keeps P a) where
    rollback_with-Keeps :
        (o : Option (Fields → W → Option Error × W)) (snap : State) (t : AttemptResult) (w : W)
        → a.rollback ≡ o
        → P w
        → P (rollback_with x o snap t w).1
    rollback_with-Keeps none snap t w e h = h
    rollback_with-Keeps (some f) none t w e h = h
    rollback_with-Keeps (some f) (some s) t w e h =
        rw (record_rollback-world t (f s w)) (k.rollback_keeps f e s w h)

    roll_back-Keeps :
        (snap : State) (t : AttemptResult) (w : W) → P w → P (roll_back x a snap t w).1
    unfolding roll_back
    roll_back-Keeps snap t w h = rollback_with-Keeps a.rollback snap t w refl h

    validated_step-Keeps :
        (snap : State) (t : AttemptResult) (r : (Bool × Option Error) × W)
        → P r.1
        → P (validated_step x a snap t r).1
    validated_step-Keeps snap t ((true, e), w) h = h
    validated_step-Keeps snap t ((false, e), w) h = roll_back-Keeps snap _ w h

    validate_with-Keeps :
        (o : Option (CallBoth W Bool)) (snap : State) (t : AttemptResult) (w : W)
        → a.validate ≡ o
        → P w
        → P (validate_with x o a snap t w).1
    validate_with-Keeps none snap t w e h = h
    validate_with-Keeps (some f) snap t w e h =
        validated_step-Keeps snap t (f w) (k.validate_keeps f e w h)

    run_step-Keeps :
        (snap : State) (t : AttemptResult) (r : (String × Option Error) × W)
        → P r.1
        → P (run_step x a snap t r).1
    run_step-Keeps snap t ((out, some e), w) h = roll_back-Keeps snap _ w h
    run_step-Keeps snap t ((out, none), w) h = validate_with-Keeps a.validate snap _ w refl h

    run_with-Keeps :
        (o : Option (CallBoth W String)) (snap : State) (t : AttemptResult) (w : W)
        → a.run ≡ o
        → P w
        → P (run_with x o a snap t w).1
    run_with-Keeps none snap t w e h = h
    run_with-Keeps (some f) snap t w e h = run_step-Keeps snap t (f w) (k.run_keeps f e w h)

    snapshot_step-Keeps : (r : Result State × W) → P r.1 → P (snapshot_step x a r).1
    snapshot_step-Keeps (err e, w) h = h
    snapshot_step-Keeps (ok s, w) h = run_with-Keeps a.run s _ w refl h

    snapshot_with-Keeps :
        (o : Option (Call W State)) (w : W) → a.snapshot ≡ o → P w → P (snapshot_with x o a w).1
    snapshot_with-Keeps none w e h = run_with-Keeps a.run none _ w refl h
    snapshot_with-Keeps (some f) w e h = snapshot_step-Keeps (f w) (k.snapshot_keeps f e w h)

    -- An action whose closures keep a predicate keeps it, on every path through `runOne`.
    pub run_one-Keeps : (w : W) → P w → P (run_one x a w).1
    unfolding run_one
    run_one-Keeps w h = snapshot_with-Keeps a.snapshot w refl h

  run_with_done :
      (o : Option (CallBoth W String)) (a : Action W) (snap : State) (t : AttemptResult) (w : W)
      → o ≢ none
      → (u : AttemptResult) × ((run_with x o a snap t w).0 ≡ done u)
  run_with_done none a snap t w h = absurd (h refl)
  run_with_done (some f) a snap t w h = ((run_step x a snap t (f w)).0, refl)

  snapshot_step_done :
      (a : Action W) (r : Result State × W)
      → a.run ≢ none
      → (u : AttemptResult) × ((snapshot_step x a r).0 ≡ done u)
  snapshot_step_done a (err e, w) h = (_, refl)
  snapshot_step_done a (ok s, w) h = run_with_done a.run a s _ w h

  snapshot_with_done :
      (o : Option (Call W State)) (a : Action W) (w : W)
      → a.run ≢ none
      → (u : AttemptResult) × ((snapshot_with x o a w).0 ≡ done u)
  snapshot_with_done none a w h = run_with_done a.run a none _ w h
  snapshot_with_done (some f) a w h = snapshot_step_done a (f w) h

  -- Only a nil `Run` panics.
  pub run_one_done :
      (a : Action W) (w : W) → a.run ≢ none → (t : AttemptResult) × ((run_one x a w).0 ≡ done t)
  unfolding run_one
  run_one_done a w h = snapshot_with_done a.snapshot a w h

  pub run_one_panics :
      (a : Action W) (w : W) → a.run ≡ none → a.snapshot ≡ none → run_one x a w ≡ (panic, w)
  unfolding run_one
  run_one_panics a w r s = rw (s, r) refl
