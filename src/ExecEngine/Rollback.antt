-- ===== src/ExecEngine/Rollback.antt =====
-- What a rolled-back attempt leaves of the world, and what an attempt's record shows of it:
-- internal/execengine/execengine.go, `runOne` and `rollback`.
use k8s_ts_mcp.Common.{
  String, Bool, true, false, ◌≡◌, refl, Option, none, some, Error, Result, ok, err, Call, CallBoth,
}
use k8s_ts_mcp.Redact.{Fields}
use k8s_ts_mcp.ExecEngine.{
  State, Action, AttemptResult, Outcome, done, panic, Texts, roll_back, run_one, record_rollback,
  rollback_with, validated_step, validate_with, run_step, run_with, snapshot_step, snapshot_with,
}

-- The rollback, given the snapshot of a world, restores what `view` shows of that world.
abbrev pub Restores : {W V : Type 0} → (W → V) → Action W → Type 0
Restores {W} view a =
    (s : Call W State) (g : Fields → W → Option Error × W) (w w1 : W) (fs : Fields) (w2 w3 : W)
    → a.snapshot ≡ some s
    → a.rollback ≡ some g
    → s w ≡ (ok (some fs), w1)
    → g fs w2 ≡ (none, w3)
    → view w3 ≡ view w

module _ {W V : Type 0} (x : Texts) (view : W → V) (a : Action W) (restores : Restores view a) where
  -- Where a rollback is recorded the attempt is not validated, and the world shows what `before` did.
  abbrev Undone : W → AttemptResult × W → Type 0
  Undone before r = r.0.rolled_back ≡ true → (r.0.validated ≡ false) × (view r.1 ≡ view before)

  -- The state is the snapshot that the action took of the world `before`, if it took any.
  abbrev Taken : W → State → Type 0
  Taken before none = Unit
  Taken before (some fs) =
      (s : Call W State) × (w1 : W) × (a.snapshot ≡ some s) × (s before ≡ (ok (some fs), w1))

  record_rollback-Undone :
      (before w1 w : W) (fs : Fields) (s : Call W State) (g : Fields → W → Option Error × W)
      (t : AttemptResult) (r : Option Error × W)
      → a.snapshot ≡ some s
      → a.rollback ≡ some g
      → s before ≡ (ok (some fs), w1)
      → g fs w ≡ r
      → t.rolled_back ≡ false
      → t.validated ≡ false
      → Undone before (record_rollback x t r)
  record_rollback-Undone before w1 w fs s g t (none, w3) es eg e1 e fresh failed rolled =
      (failed, restores s g before w1 fs w w3 es eg e1 e)
  record_rollback-Undone before w1 w fs s g t (some x', w3) es eg e1 e fresh failed rolled = cc

  rollback_with-Undone :
      (o : Option (Fields → W → Option Error × W)) (before : W) (snap : State) (t : AttemptResult)
      (w : W)
      → a.rollback ≡ o
      → Taken before snap
      → t.rolled_back ≡ false
      → t.validated ≡ false
      → Undone before (rollback_with x o snap t w)
  rollback_with-Undone none before snap t w e taken fresh failed = λ rolled. cc
  rollback_with-Undone (some g) before none t w e taken fresh failed = λ rolled. cc
  rollback_with-Undone (some g) before (some fs) t w e (s, w1, es, e1) fresh failed =
      record_rollback-Undone before w1 w fs s g t (g fs w) es e e1 refl fresh failed

  validated_step-Undone :
      (before : W) (snap : State) (t : AttemptResult) (r : (Bool × Option Error) × W)
      → Taken before snap
      → t.rolled_back ≡ false
      → Undone before (validated_step x a snap t r)
  unfolding roll_back
  validated_step-Undone before snap t ((true, e), w) taken fresh = λ rolled. cc
  validated_step-Undone before snap t ((false, e), w) taken fresh =
      rollback_with-Undone a.rollback before snap _ w refl taken fresh refl

  validate_with-Undone :
      (o : Option (CallBoth W Bool)) (before : W) (snap : State) (t : AttemptResult) (w : W)
      → Taken before snap
      → t.rolled_back ≡ false
      → Undone before (validate_with x o a snap t w)
  validate_with-Undone none before snap t w taken fresh = λ rolled. cc
  validate_with-Undone (some f) before snap t w taken fresh =
      validated_step-Undone before snap t (f w) taken fresh

  run_step-Undone :
      (before : W) (snap : State) (t : AttemptResult) (r : (String × Option Error) × W)
      → Taken before snap
      → t.rolled_back ≡ false
      → t.validated ≡ false
      → Undone before (run_step x a snap t r)
  unfolding roll_back
  run_step-Undone before snap t ((out, some e), w) taken fresh failed =
      rollback_with-Undone a.rollback before snap _ w refl taken fresh failed
  run_step-Undone before snap t ((out, none), w) taken fresh failed =
      validate_with-Undone a.validate before snap _ w taken fresh

  -- The same of a step that may panic.
  abbrev Finished : W → Outcome AttemptResult × W → Type 0
  Finished before (panic, w) = Unit
  Finished before (done t, w) = Undone before (t, w)

  run_with-Undone :
      (o : Option (CallBoth W String)) (before : W) (snap : State) (t : AttemptResult) (w : W)
      → Taken before snap
      → t.rolled_back ≡ false
      → t.validated ≡ false
      → Finished before (run_with x o a snap t w)
  run_with-Undone none before snap t w taken fresh failed = tt
  run_with-Undone (some f) before snap t w taken fresh failed =
      run_step-Undone before snap t (f w) taken fresh failed

  snapshot_step-Undone :
      (before : W) (s : Call W State) (r : Result State × W)
      → a.snapshot ≡ some s
      → s before ≡ r
      → Finished before (snapshot_step x a r)
  snapshot_step-Undone before s (err e, w) es e1 = λ rolled. cc
  snapshot_step-Undone before s (ok none, w) es e1 =
      run_with-Undone a.run before none _ w tt refl refl
  snapshot_step-Undone before s (ok (some fs), w) es e1 =
      run_with-Undone a.run before (some fs) _ w (s, w, es, e1) refl refl

  snapshot_with-Undone :
      (o : Option (Call W State)) (w : W) → a.snapshot ≡ o → Finished w (snapshot_with x o a w)
  snapshot_with-Undone none w e = run_with-Undone a.run w none _ w tt refl refl
  snapshot_with-Undone (some s) w e = snapshot_step-Undone w s (s w) e refl

  -- An attempt that is recorded as rolled back was not validated, and the world shows again what it
  -- showed before the action, where the action's rollback restores that from its snapshot.
  pub run_one_restores :
      (w w' : W) (t : AttemptResult)
      → run_one x a w ≡ (done t, w')
      → t.rolled_back ≡ true
      → (t.validated ≡ false) × (view w' ≡ view w)
  unfolding run_one
  run_one_restores w w' t h =
      let f : Finished w (run_one x a w) = snapshot_with-Undone a.snapshot w refl in rw h at f
