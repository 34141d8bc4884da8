-- ===== src/AgentCore/Approvals.antt =====
-- What an approval runs: internal/agentcore/agentcore.go, `ApproveAction`.
use k8s_ts_mcp.Common.{
  String, true, false, ◌≡◌, ◌∙◌, refl, Option, none, some, List, ◌==◌, find, find-test, Map, Result,
  ok, err, Bool-cases, eq_iff, inl, inr,
}
use k8s_ts_mcp.ExecEngine.{
  Action, Ladder, AttemptResult, Outcome, done, panic, Texts, run_approved, run_one,
}
use k8s_ts_mcp.ExecEngine.Steps.{IsOf, run_one-IsOf}
use k8s_ts_mcp.K8sClient.{Api}
use k8s_ts_mcp.Playbooks.{Signal, Finding, Playbook, find_playbook}
use k8s_ts_mcp.Playbooks.CoreK8s.ExecFormat.{
  exec_format_error, exec_format_diagnose, exec_format_ladder, exec_format_action,
}
use k8s_ts_mcp.Playbooks.BuiltIn.{Settings, built_in}
use k8s_ts_mcp.AgentCore.{
  Handler, Attempt, handle_approve_action, approve_by, approve_on, approve_named, approved,
  current_ladder, diagnose,
}
use k8s_ts_mcp.AgentCore.Laws.{agent}

module _ {W : Type 0} (h : Handler W) (name : String) where
  -- An approval that succeeds reports an action of that name.
  abbrev IsNamed : Outcome (Result Attempt) × W → Type 0
  IsNamed (panic, w) = Unit
  IsNamed (done (err e), w) = Unit
  IsNamed (done (ok t), w) = (t.action ≡ name) × (t.skipped ≡ false)

  approved-IsNamed :
      (a : Action W) (w : W) (o : Outcome AttemptResult × W)
      → (a.name == name) ≡ true
      → run_one h.texts a w ≡ o
      → IsNamed (approved h o)
  approved-IsNamed a w (panic, w') e ran = tt
  approved-IsNamed a w (done t, w') e ran =
      let of : IsOf a t = run_one-IsOf h.texts a w ran in
      (of.action_is ∙ (eq_iff a.name name).0 e, of.not_skipped)

  approve_named-IsNamed :
      (id : String) (actions : List (Action W)) (o : Option (Action W)) (w : W)
      → find (λ a. a.name == name) actions ≡ o
      → IsNamed (approve_named h id name o w)
  unfolding run_approved
  approve_named-IsNamed id actions none w e = tt
  approve_named-IsNamed id actions (some a) w e =
      approved-IsNamed a w (run_one h.texts a w) (find-test _ actions a e) refl

  approve_on-IsNamed : (id : String) (r : Result (Ladder W) × W) → IsNamed (approve_on h id name r)
  approve_on-IsNamed id (err e, w) = tt
  approve_on-IsNamed id (ok l, w) = approve_named-IsNamed id l.actions _ w refl

  approve_by-IsNamed :
      (o : Option (Playbook W)) (id : String) (sig : Signal) (meta : Map String) (w : W)
      → IsNamed (approve_by h o id sig name meta w)
  approve_by-IsNamed none id sig meta w = tt
  approve_by-IsNamed (some p) id sig meta w = elim (Bool-cases (p.id == id)) [
    | inl same ↦ simp same (approve_on-IsNamed id (current_ladder h p p.recheck sig meta w))
    | inr other ↦ simp other tt
  ]

  -- An approval that succeeds reports one attempt, of the action that was named, which was not
  -- skipped.
  pub approved_is_named :
      (id : String) (sig : Signal) (meta : Map String) (w w' : W) (t : Attempt)
      → handle_approve_action h id sig name meta w ≡ (done (ok t), w')
      → (t.action ≡ name) × (t.skipped ≡ false)
  unfolding handle_approve_action
  approved_is_named id sig meta w w' t e =
      let n : IsNamed (handle_approve_action h id sig name meta w) =
        approve_by-IsNamed (find_playbook h.registry sig) id sig meta w in
      rw e at n

module _ {W : Type 0} (api : Api W) (s : Settings) (texts : Texts) where
  abbrev wrong_architecture : String → String → String → Signal
  wrong_architecture ns name node = record {
    kind = "PodExecFormatError";
    namespace = ns;
    name = name;
    node_name = node;
  }

  -- `ApproveAction` panics on the one action of core/execformaterror, whose `Run` is nil, whenever
  -- the diagnosis succeeds.
  pub approve_exec_format_panics :
      (ns name node : String) (meta : Map String) (f : Finding) (w w' : W)
      → exec_format_diagnose api s.sorted (wrong_architecture ns name node) w ≡ (ok f, w')
      → handle_approve_action
          (agent api s texts)
          "core/execformaterror"
          (wrong_architecture ns name node)
          "corrigir incompatibilidade de arquitetura"
          meta
          w
        ≡ (panic, w')
  unfolding handle_approve_action find_playbook find built_in exec_format_error exec_format_ladder
      exec_format_action run_approved run_one diagnose
  approve_exec_format_panics ns name node meta f w w' e = simp e refl
