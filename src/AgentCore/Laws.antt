-- ===== src/AgentCore/Laws.antt =====
-- The agent's handler over the built-in playbooks: internal/agentcore/agentcore.go, `Execute` and
-- `ApproveAction`.
use k8s_ts_mcp.Common.{
  String, ◌≡◌, refl, inl, inr, Option, none, some, ◌==◌, Bool-cases, Error, Result, ok, err,
  continue,
}
use k8s_ts_mcp.ExecEngine.{RunResult, Outcome, done, panic, Texts, run}
use k8s_ts_mcp.ExecEngine.Ladders.{run_total}
use k8s_ts_mcp.K8sClient.{Api}
use k8s_ts_mcp.Playbooks.{Signal, Finding, Playbook, find_playbook}
use k8s_ts_mcp.Playbooks.BuiltIn.{Settings, built_in}
use k8s_ts_mcp.Playbooks.Laws.{IsSound, built_in-IsSound}
use k8s_ts_mcp.AgentCore.{
  Handler, Diagnosed, Execution, diagnose, diagnose_by, handle_execute, execute_diagnosed,
  to_execution,
}

module _ {W : Type 0} (api : Api W) (s : Settings) (texts : Texts) where
  abbrev pub agent : Handler W
  agent = record { api = api; registry = built_in api s; texts = texts }

  abbrev IsSoundAnswer : Result (Diagnosed W) × W → Type 0
  IsSoundAnswer (err e, w) = Unit
  IsSoundAnswer (ok d, w) = IsSound d.playbook d.ladder

  diagnosed-IsSound :
      (p : Playbook W) (r : Result Finding × W) (g : Error → Error)
      → ((f : Finding) → IsSound p (p.ladder f))
      → IsSoundAnswer (
          continue
            (continue r (λ f w. (ok f, w)) (λ e w. (err (g e), w)))
            (λ f w. (ok (record { playbook = p; finding = f; ladder = p.ladder f }), w))
            (λ e w. (err e, w)))
  diagnosed-IsSound p (ok f, w) g sound = sound f
  diagnosed-IsSound p (err e, w) g sound = tt

  diagnose_by-IsSound :
      (sig : Signal) (o : Option (Playbook W)) (w : W)
      → find_playbook (built_in api s) sig ≡ o
      → IsSoundAnswer (diagnose_by agent sig o w)
  diagnose_by-IsSound sig none w e = tt
  diagnose_by-IsSound sig (some p) w e =
      diagnosed-IsSound p (p.diagnose sig w) _ (λ f. built_in-IsSound api s sig p f e)

  abbrev Returns {ℓ} : {A : Type ℓ} → Outcome A × W → Type ℓ
  Returns {A} o = (a : A) × (o.0 ≡ done a)

  to_execution-Returns :
      (o : Outcome (Result RunResult) × W) → Returns o → Returns (to_execution agent o)
  to_execution-Returns (panic, w) (r, e) = cc
  to_execution-Returns (done (ok r), w) _ = (_, refl)
  to_execution-Returns (done (err e), w) _ = (_, refl)

  execute_done :
      (id : String) (r : Result (Diagnosed W) × W)
      → IsSoundAnswer r
      → Returns (execute_diagnosed agent id r)
  execute_done id (err e, w) sound = (_, refl)
  execute_done id (ok d, w) sound = elim (Bool-cases (d.playbook.id == id)) [
    | inr other ↦ simp other (_, refl)
    | inl same ↦
        let (r, e) =
          run_total texts d.ladder w (sound.some_action, sound.at_most_three) sound.runnable in
        simp same (to_execution-Returns (run texts d.ladder w) (ok r, e))
  ]

  -- Over the built-in playbooks `Execute` returns a result or an error, and does not panic, whatever
  -- the API answers.
  pub execute_returns :
      (id : String) (sig : Signal) (w : W)
      → (r : Result Execution) × ((handle_execute agent id sig w).0 ≡ done r)
  unfolding handle_execute diagnose
  execute_returns id sig w =
      execute_done id (diagnose agent sig w)
        (diagnose_by-IsSound sig (find_playbook (built_in api s) sig) w refl)
