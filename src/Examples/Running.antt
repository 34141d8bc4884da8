-- ===== src/Examples/Running.antt =====
-- Examples of internal/execengine.
use k8s_ts_mcp.Common.{
  ℕ, suc, String, true, false, ◌≡◌, refl, Option, none, some, List, [], ◌∷◌, Error, foreign, Result,
  ok, Call, CallBoth, arith, ap, sym, ◌∙◌,
}
use k8s_ts_mcp.Policy.{risk_safe, risk_medium, risk_high}
use k8s_ts_mcp.Redact.{Fields, empty, field, num, redact_fields, redact_value, redact_items}
use k8s_ts_mcp.ExecEngine.{
  State, Action, Ladder, AttemptResult, RunResult, done, Texts, run, run_one, run_actions,
  roll_back,
}
use k8s_ts_mcp.ExecEngine.Ladders.{Trace, run-Trace, run_total}
use k8s_ts_mcp.ExecEngine.Rollback.{Restores, run_one_restores}
use k8s_ts_mcp.ExecEngine.HighRisk.{high_risk_inert}

abbrev texts : Texts
texts = record { sprintf = λ f args. f; scrub = λ s. s; sensitive = λ k. false }

-- A deployment by its number of replicas. The first action fails its validation and goes back.
abbrev saved : Call ℕ State
saved w = (ok (some (field "replicas" (num w) empty)), w)

abbrev back_to : Fields → ℕ → Option Error × ℕ
back_to (field k (num n) rest) w = (none, n)
back_to _ w = (some (foreign "no replicas"), w)

abbrev grow : Action ℕ
grow = record {
  name = "grow";
  description = "one more replica";
  risk = risk_safe;
  snapshot = some saved;
  run = some (λ w. (("grown", none), suc w));
  validate = some (λ w. ((false, none), w));
  rollback = some back_to;
}

abbrev settle : Action ℕ
settle = record {
  name = "settle";
  description = "accept";
  risk = risk_medium;
  snapshot = none;
  run = some (λ w. (("settled", none), w));
  validate = none;
  rollback = none;
}

abbrev destroy : Option (CallBoth ℕ String) → Action ℕ
destroy run = record {
  name = "destroy";
  description = "delete it";
  risk = risk_high;
  snapshot = none;
  run = run;
  validate = none;
  rollback = none;
}

abbrev ladder : List (Action ℕ) → Ladder ℕ
ladder actions = record { playbook_id = "test/replicas"; actions = actions }

abbrev grown : AttemptResult
grown = record {
  action = "grow";
  description = "one more replica";
  risk = risk_safe;
  output = "grown";
  error = "";
  snapshot = some (field "replicas" (num 2) empty);
  validated = false;
  rolled_back = true;
  skipped = false;
}

abbrev destroyed : AttemptResult
destroyed = record {
  action = "destroy";
  description = "delete it";
  risk = risk_high;
  output = "";
  error = "ação de alto risco — não executada automaticamente, requer aprovação manual";
  snapshot = none;
  validated = false;
  rolled_back = false;
  skipped = true;
}

abbrev called : Option (Call ℕ State) → ℕ → Result State × ℕ
called none w = saved w
called (some f) w = f w

abbrev undone : Option (Fields → ℕ → Option Error × ℕ) → Fields → ℕ → Option Error × ℕ
undone none fs w = back_to fs w
undone (some g) fs w = g fs w

abbrev fields_of : Result State × ℕ → Fields
fields_of (ok (some fs), w) = fs
fields_of _ = empty

grow-Restores : Restores (λ w. w) grow
grow-Restores s g w w1 fs w2 w3 es eg e1 e2 =
    let kept : field "replicas" (num w) empty ≡ fs = ap fields_of (ap (λ o. called o w) es ∙ e1) in
    let back : back_to (field "replicas" (num w) empty) w2 ≡ (none, w3) =
      ap (λ fs. back_to fs w2) kept ∙ (ap (λ o. undone o fs w2) eg ∙ e2) in
    sym (ap (λ r. r.1) back)

run_one_restores_example : (grown.validated ≡ false) × ◌≡◌ {A = ℕ} 2 2
unfolding run_one roll_back redact_fields redact_value redact_items
run_one_restores_example = run_one_restores texts (λ w. w) grow grow-Restores 2 2 grown refl refl

abbrev ended : RunResult
ended = record {
  playbook_id = "test/replicas";
  resolved = false;
  attempts = grown ∷ destroyed ∷ [];
}

run-Trace_example :
    Trace (grow ∷ destroy none ∷ []) (grown ∷ destroyed ∷ []) false
    × (ended.playbook_id ≡ (ladder (grow ∷ [])).playbook_id)
unfolding run run_actions run_one roll_back redact_fields redact_value redact_items
run-Trace_example = run-Trace texts (ladder (grow ∷ destroy none ∷ [])) 2 2 ended refl

run_total_example :
    (r : RunResult) × ((run texts (ladder (settle ∷ destroy none ∷ [])) 2).0 ≡ done (ok r))
run_total_example =
    run_total texts (ladder (settle ∷ destroy none ∷ [])) 2 (omega arith, omega arith)
      ((λ low e. cc), ((λ low e. cc), tt))

high_risk_inert_example :
    run texts (ladder (settle ∷ destroy none ∷ settle ∷ [])) 2
    ≡ run texts (ladder (settle ∷ destroy (some (λ w. (("gone", none), 0))) ∷ grow ∷ [])) 2
high_risk_inert_example =
    high_risk_inert texts "test/replicas" (settle ∷ []) (destroy none)
      (destroy (some (λ w. (("gone", none), 0)))) (settle ∷ []) (grow ∷ []) 2 refl refl refl refl
      refl
