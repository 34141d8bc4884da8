-- ===== src/AgentCore.antt =====
-- internal/agentcore/agentcore.go: the handler that a cluster's agent answers requests with.
-- A call may panic, so where the handler reaches `execengine` its answer is an `Outcome`.
pub mod Classify
pub mod Verdicts
pub mod Scan
pub mod Laws
pub mod Approvals
pub mod Logs
use k8s_ts_mcp.Common.{
  ℕ, String, Bool, true, false, not, Option, none, some, List, [], ◌∷◌, map, leb, ◌==◌,
  if◌then◌else◌, find, Map, Error, errorf, end, str, cause, Result, ok, err, Call, ◌>>=◌, pure,
  raise, wrap_err, continue,
}
use k8s_ts_mcp.ExecEngine.{
  Action, Ladder, AttemptResult, RunResult, Outcome, done, panic, Texts, run, run_approved,
}
use k8s_ts_mcp.K8sClient.{Api}
use k8s_ts_mcp.K8sClient.Pods.{container_logs, pod_for_deployment}
use k8s_ts_mcp.K8sClient.Nodes.{NodeInfo, list_nodes}
use k8s_ts_mcp.Playbooks.{Signal, Finding, Playbook, find_playbook, err_no_playbook}

-- `pb.ProposedAction`, `pb.Attempt` and the results of `Handler`'s methods.
pub record ProposedAction : Type 0 where
  pub name : String
  pub description : String
  pub risk : String

pub record Attempt : Type 0 where
  pub action : String
  pub description : String
  pub risk : String
  pub output : String
  pub error : String
  pub validated : Bool
  pub rolled_back : Bool
  pub skipped : Bool

pub record Diagnosis : Type 0 where
  pub playbook_id : String
  pub summary : String
  pub proposed_actions : List ProposedAction
  pub meta : Map String
  pub no_playbook : Bool

pub record Execution : Type 0 where
  pub resolved : Bool
  pub attempts : List Attempt

abbrev pub to_attempt : AttemptResult → Attempt
to_attempt a = record {
  action = a.action;
  description = a.description;
  risk = a.risk;
  output = a.output;
  error = a.error;
  validated = a.validated;
  rolled_back = a.rolled_back;
  skipped = a.skipped;
}

-- The answer where no playbook knows the signal.
abbrev pub no_diagnosis : Diagnosis
no_diagnosis = record {
  playbook_id = "";
  summary = "";
  proposed_actions = [];
  meta = [];
  no_playbook = true;
}

abbrev pub redact_meta : (String → String) → Map String → Map String
redact_meta scrub m = map (λ (e : String × String). (e.0, scrub e.1)) m

pub record Handler (W : Type 0) : Type 0 where
  pub api : Api W
  pub registry : List (Playbook W)
  pub texts : Texts

-- A finding with the playbook that made it and the ladder that it would run.
pub record Diagnosed (W : Type 0) : Type 0 where
  pub playbook : Playbook W
  pub finding : Finding
  pub ladder : Ladder W

abbrev pub execute_mismatch : String → String → Error
execute_mismatch now asked =
    errorf
      "playbook mismatch: signal now matches %q, execute was requested for %q (cluster state likely changed)"
      (str now (str asked end))

abbrev pub approve_mismatch : String → String → Error
approve_mismatch now asked =
    errorf
      "playbook mismatch: signal now matches %q, approve_action was requested for %q (cluster state likely changed)"
      (str now (str asked end))

module _ {W : Type 0} (h : Handler W) where
  open h use {api, registry, texts}

  abbrev pub to_proposed : Action W → ProposedAction
  to_proposed a = record { name = a.name; description = texts.scrub a.description; risk = a.risk }

  abbrev pub diagnose_by : Signal → Option (Playbook W) → Call W (Diagnosed W)
  diagnose_by sig none = raise (err_no_playbook sig)
  diagnose_by sig (some p) = do
    f ← wrap_err (λ e. errorf "playbook %s: %w" (str p.id (cause e end))) (p.diagnose sig)
    pure (record { playbook = p; finding = f; ladder = p.ladder f })

  unfoldable pub diagnose : Signal → Call W (Diagnosed W)
  diagnose sig = diagnose_by sig (find_playbook registry sig)

  abbrev to_diagnosis : Diagnosed W → Diagnosis
  to_diagnosis d = record {
    playbook_id = d.playbook.id;
    summary = texts.scrub d.finding.summary;
    proposed_actions = map to_proposed d.ladder.actions;
    meta = redact_meta texts.scrub d.finding.meta;
    no_playbook = false;
  }

  abbrev answer_by : Signal → Option (Playbook W) → Call W Diagnosis
  answer_by sig none = pure no_diagnosis
  answer_by sig (some p) = do d ← diagnose sig; pure (to_diagnosis d)

  -- `Handler.Diagnose`.
  unfoldable pub handle_diagnose : Signal → Call W Diagnosis
  unfolding diagnose
  handle_diagnose sig = answer_by sig (find_playbook registry sig)

  abbrev pub to_execution : Outcome (Result RunResult) × W → Outcome (Result Execution) × W
  to_execution (panic, w) = (panic, w)
  to_execution (done (err e), w) = (done (err e), w)
  to_execution (done (ok r), w) =
      (done (ok (record { resolved = r.resolved; attempts = map to_attempt r.attempts })), w)

  abbrev pub execute_diagnosed : String → Result (Diagnosed W) × W → Outcome (Result Execution) × W
  execute_diagnosed playbook_id (err e, w) = (done (err e), w)
  execute_diagnosed playbook_id (ok d, w) =
      if d.playbook.id == playbook_id
      then to_execution (run texts d.ladder w)
      else (done (err (execute_mismatch d.playbook.id playbook_id)), w)

  -- `Handler.Execute`: the ladder is derived anew from the live state.
  unfoldable pub handle_execute : String → Signal → W → Outcome (Result Execution) × W
  unfolding diagnose
  handle_execute playbook_id sig w = execute_diagnosed playbook_id (diagnose sig w)

  abbrev pub rechecking : Playbook W → Error → Error
  rechecking p e = errorf "playbook %s: rechecando antes de aprovar: %w" (str p.id (cause e end))

  abbrev pub resolved_meanwhile : Playbook W → Error
  resolved_meanwhile p =
      errorf "playbook %s: o problema já não está mais presente — aprovação cancelada, nada a rodar"
        (str p.id end)

  abbrev pub still_needed : Playbook W → Option (Finding × Ladder W) → Call W (Ladder W)
  still_needed p none = raise (resolved_meanwhile p)
  still_needed p (some (f, l)) = pure l

  -- The ladder that an approval is checked against.
  abbrev pub current_ladder :
      Playbook W
      → Option (Signal → Map String → Call W (Option (Finding × Ladder W)))
      → Signal
      → Map String
      → Call W (Ladder W)
  current_ladder p none sig meta = do d ← diagnose sig; pure d.ladder
  current_ladder p (some recheck) sig meta = do
    found ← wrap_err (rechecking p) (recheck sig meta)
    still_needed p found

  abbrev pub approved : Outcome AttemptResult × W → Outcome (Result Attempt) × W
  approved (panic, w) = (panic, w)
  approved (done t, w) = (done (ok (to_attempt t)), w)

  abbrev not_on_ladder : String → String → Error
  not_on_ladder name id =
      errorf "action %q não está na ladder atual do playbook %q" (str name (str id end))

  abbrev pub approve_named : String → String → Option (Action W) → W → Outcome (Result Attempt) × W
  approve_named id name none w = (done (err (not_on_ladder name id)), w)
  approve_named id name (some a) w = approved (run_approved texts a w)

  abbrev pub approve_on : String → String → Result (Ladder W) × W → Outcome (Result Attempt) × W
  approve_on id name (err e, w) = (done (err e), w)
  approve_on id name (ok l, w) = approve_named id name (find (λ a. a.name == name) l.actions) w

  abbrev pub approve_by :
      Option (Playbook W) → String → Signal → String → Map String → W → Outcome (Result Attempt) × W
  approve_by none id sig name meta w = (done (err (err_no_playbook sig)), w)
  approve_by (some p) id sig name meta w =
      if p.id == id
      then approve_on id name (current_ladder p p.recheck sig meta w)
      else (done (err (approve_mismatch p.id id)), w)

  -- `Handler.ApproveAction`: one action of the ladder that the current state gives.
  unfoldable pub handle_approve_action :
      String → Signal → String → Map String → W → Outcome (Result Attempt) × W
  unfolding diagnose run_approved find
  handle_approve_action id sig name meta w =
      approve_by (find_playbook registry sig) id sig name meta w
