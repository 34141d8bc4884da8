-- ===== src/ExecEngine.antt =====
-- internal/execengine/execengine.go: running the escalation ladder of a playbook.
-- An action's closures act on a world `W`, which stands for the cluster and for the context that is
-- passed on to them. A call through a nil `Run` is Go's nil dereference: `panic`.
pub mod Steps
pub mod Ladders
pub mod HighRisk
pub mod Rollback
use k8s_ts_mcp.Common.{
  ℕ, String, Bool, true, false, Option, none, some, List, [], ◌∷◌, ◌++◌, ltb, ◌==◌, if◌then◌else◌,
  length, Error, Args, errorf, end, str, num, cause, error_text, Result, ok, err, Call, CallBoth,
}
use k8s_ts_mcp.Policy.{RiskLevel, risk_high}
use k8s_ts_mcp.Redact.{Fields, empty, redact_fields}

abbrev pub max_actions : ℕ
max_actions = 3

-- A nil map is `none`.
abbrev pub State : Type 0
State = Option Fields

pub record Action (W : Type 0) : Type 0 where
  pub name : String
  pub description : String
  pub risk : RiskLevel
  pub snapshot : Option (Call W State)
  pub run : Option (CallBoth W String)
  pub validate : Option (CallBoth W Bool)
  pub rollback : Option (Fields → W → Option Error × W)

pub record Ladder (W : Type 0) : Type 0 where
  pub playbook_id : String
  pub actions : List (Action W)

pub record AttemptResult : Type 0 where
  pub action : String
  pub description : String
  pub risk : RiskLevel
  pub output : String
  pub error : String
  pub snapshot : Option Fields
  pub validated : Bool
  pub rolled_back : Bool
  pub skipped : Bool

-- The struct `Result` of the package.
pub record RunResult : Type 0 where
  pub playbook_id : String
  pub resolved : Bool
  pub attempts : List AttemptResult

pub data Outcome {ℓ} (A : Type ℓ) : Type ℓ where
  done : A → Outcome A
  panic : Outcome A

-- `fmt.Sprintf`, `redact.Text` and the test of keys of `redact.Object`.
pub record Texts : Type 0 where
  pub sprintf : String → Args → String
  pub scrub : String → String
  pub sensitive : String → Bool

abbrev pub new_attempt : {W : Type 0} → Action W → AttemptResult
new_attempt a = record {
  action = a.name;
  description = a.description;
  risk = a.risk;
  output = "";
  error = "";
  snapshot = none;
  validated = false;
  rolled_back = false;
  skipped = false;
}

abbrev pub skipped_attempt : {W : Type 0} → Action W → AttemptResult
skipped_attempt a = record (new_attempt a) {
  skipped = true;
  error = "ação de alto risco — não executada automaticamente, requer aprovação manual";
}

-- `redact.Object` of a state; the range over a nil map makes an empty one.
abbrev pub redact_state : Texts → State → Fields
redact_state x none = redact_fields x.scrub x.sensitive empty
redact_state x (some fs) = redact_fields x.scrub x.sensitive fs

abbrev pub error_or_empty : Texts → Option Error → String
error_or_empty x none = ""
error_or_empty x (some e) = x.scrub (error_text x.sprintf e)

abbrev pub add_attempt : AttemptResult → RunResult → RunResult
add_attempt attempt r = record r { attempts = r.attempts ++ attempt ∷ [] }

abbrev pub no_attempts : String → RunResult
no_attempts id = record { playbook_id = id; resolved = false; attempts = [] }

module _ {W : Type 0} where
  abbrev pub returned : Outcome RunResult × W → Outcome (Result RunResult) × W
  returned (panic, w) = (panic, w)
  returned (done r, w) = (done (ok r), w)

  abbrev pub finish : AttemptResult × W → Outcome AttemptResult × W
  finish (attempt, w) = (done attempt, w)

  abbrev pub no_actions : Ladder W → Error
  no_actions l = errorf "execengine: ladder %q has no actions" (str l.playbook_id end)

  abbrev pub too_many_actions : Ladder W → Error
  too_many_actions l =
      errorf "execengine: ladder %q has %d actions, max is %d"
        (str l.playbook_id (num (length l.actions) (num max_actions end)))

module _ {W : Type 0} (x : Texts) where
  open x use {sprintf, scrub}

  abbrev record_rollback : AttemptResult → Option Error × W → AttemptResult × W
  record_rollback attempt (none, w) = (record attempt { rolled_back = true }, w)
  record_rollback attempt (some e, w) = (
    record attempt {
      error = scrub (sprintf "%s; rollback failed: %v" (str attempt.error (cause e end)));
    },
    w,
  )

  abbrev rollback_with :
      Option (Fields → W → Option Error × W) → State → AttemptResult → W → AttemptResult × W
  rollback_with none snap attempt w = (attempt, w)
  rollback_with (some f) none attempt w = (attempt, w)
  rollback_with (some f) (some snap) attempt w = record_rollback attempt (f snap w)

  unfoldable pub roll_back : Action W → State → AttemptResult → W → AttemptResult × W
  roll_back a snap attempt w = rollback_with a.rollback snap attempt w

  -- After `Validate`: its verdict, and its error beside it.
  abbrev validated_step :
      Action W → State → AttemptResult → (Bool × Option Error) × W → AttemptResult × W
  validated_step a snap attempt ((true, e), w) =
      (record attempt { error = error_or_empty x e; validated = true }, w)
  validated_step a snap attempt ((false, e), w) =
      roll_back a snap (record attempt { error = error_or_empty x e; validated = false }) w

  abbrev validate_with :
      Option (CallBoth W Bool) → Action W → State → AttemptResult → W → AttemptResult × W
  validate_with none a snap attempt w = (record attempt { validated = true }, w)
  validate_with (some f) a snap attempt w = validated_step a snap attempt (f w)

  -- After `Run`: its output is kept whether or not it failed.
  abbrev run_step :
      Action W → State → AttemptResult → (String × Option Error) × W → AttemptResult × W
  run_step a snap attempt ((out, some e), w) =
      roll_back a snap (record attempt { output = scrub out; error = scrub (error_text sprintf e) })
        w
  run_step a snap attempt ((out, none), w) =
      validate_with a.validate a snap (record attempt { output = scrub out }) w

  abbrev run_with :
      Option (CallBoth W String) → Action W → State → AttemptResult → W → Outcome AttemptResult × W
  run_with none a snap attempt w = (panic, w)
  run_with (some f) a snap attempt w = finish (run_step a snap attempt (f w))

  abbrev snapshot_step : Action W → Result State × W → Outcome AttemptResult × W
  snapshot_step a (err e, w) = (
    done (record (new_attempt a) { error = scrub (sprintf "snapshot failed: %v" (cause e end)) }),
    w,
  )
  snapshot_step a (ok s, w) =
      run_with a.run a s (record (new_attempt a) { snapshot = some (redact_state x s) }) w

  abbrev snapshot_with : Option (Call W State) → Action W → W → Outcome AttemptResult × W
  snapshot_with none a w = run_with a.run a none (new_attempt a) w
  snapshot_with (some f) a w = snapshot_step a (f w)

  unfoldable pub run_one : Action W → W → Outcome AttemptResult × W
  unfolding roll_back
  run_one a w = snapshot_with a.snapshot a w

  unfoldable pub run_approved : Action W → W → Outcome AttemptResult × W
  run_approved a w = run_one a w

  -- After one action of the loop of `Run`, with the rest of the loop as `next`.
  abbrev after_action :
      (RunResult → W → Outcome RunResult × W)
      → RunResult
      → Outcome AttemptResult × W
      → Outcome RunResult × W
  after_action next r (panic, w) = (panic, w)
  after_action next r (done attempt, w) =
      if attempt.validated
      then (done (record (add_attempt attempt r) { resolved = true }), w)
      else next (add_attempt attempt r) w

  -- The loop of `Run` over the actions that are left.
  unfoldable pub run_actions : List (Action W) → RunResult → W → Outcome RunResult × W
  run_actions [] r w = (done r, w)
  run_actions (a ∷ rest) r w = elim (a.risk == risk_high) [
    | true ↦ (done (add_attempt (skipped_attempt a) r), w)
    | false ↦ after_action (run_actions rest) r (run_one a w)
  ]

  unfoldable pub run : Ladder W → W → Outcome (Result RunResult) × W
  unfolding run_actions
  run l w =
      if ltb 0 (length l.actions)
      then (if ltb max_actions (length l.actions)
          then (done (err (too_many_actions l)), w)
          else returned (run_actions l.actions (no_attempts l.playbook_id) w))
      else (done (err (no_actions l)), w)
