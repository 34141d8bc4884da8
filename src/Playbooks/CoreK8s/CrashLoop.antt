-- ===== src/Playbooks/CoreK8s/CrashLoop.antt =====
-- internal/playbooks/corek8s/crashloopbackoff.go.
use k8s_ts_mcp.Common.{
  ℕ, String, true, false, Option, none, some, List, [], ◌∷◌, ◌==◌, if◌then◌else◌, Error, end, str,
  num, ok, Call, ◌>>=◌, pure, wrap_err, continue,
}
use k8s_ts_mcp.Policy.{risk_medium}
use k8s_ts_mcp.Redact.{Fields, Value, empty, field}
use k8s_ts_mcp.ExecEngine.{State, Action, Ladder}
use k8s_ts_mcp.K8sClient.{Api}
use k8s_ts_mcp.K8sClient.Pods.{pod_restart_count}
use k8s_ts_mcp.K8sClient.Deployments.{
  deployment_replicas, scale_deployment, rollout_restart_deployment,
}
use k8s_ts_mcp.Playbooks.{Signal, Finding, Playbook}
use k8s_ts_mcp.Playbooks.CoreK8s.{
  both, await_replicas, restart_pod_action, deployment_of, owner_meta, diagnosing, found,
}

abbrev value_number : Value → ℕ
value_number (Value.num n) = n
value_number _ = 0

-- `n, _ := snap["replicas"].(int32)`.
abbrev pub replicas_in : Fields → ℕ
replicas_in empty = 0
replicas_in (field k v rest) =
    let others = replicas_in rest in if k == "replicas" then value_number v else others

module _ {W : Type 0} (api : Api W) where
  abbrev pub scale_snapshot : String → String → Call W State
  scale_snapshot ns dep = do
    n ← deployment_replicas api ns dep
    pure (some (field "replicas" (Value.num n) empty))

  abbrev pause : ℕ → Call W (Unit {0})
  pause seconds w = (ok tt, api.sleep seconds w)

  abbrev scale_down_and_up : String → String → Call W String
  scale_down_and_up ns dep = do
    n ← deployment_replicas api ns dep
    scale_deployment api ns dep 0 >>= λ _. do pause 2 >>= λ _. scale_deployment api ns dep n

  abbrev pub scale_back : String → String → Fields → W → Option Error × W
  scale_back ns dep snap w =
      continue (scale_deployment api ns dep (replicas_in snap) w) (λ _ w'. (none, w'))
        (λ e w'. (some e, w'))

  unfoldable pub scale_action : String → String → Action W
  scale_action ns dep = record {
    name = "scale deployment down and up";
    description =
        api.sprintf
          "kubectl scale deployment %s -n %s --replicas=0 && kubectl scale deployment %s -n %s --replicas=<original>"
          (str dep (str ns (str dep (str ns end))));
    risk = risk_medium;
    snapshot = some (scale_snapshot ns dep);
    run = some (both "" (scale_down_and_up ns dep));
    validate = some (await_replicas api 60 ns dep);
    rollback = some (scale_back ns dep);
  }

  unfoldable pub rollout_action : String → String → Action W
  rollout_action ns dep = record {
    name = "rollout restart deployment";
    description = api.sprintf "kubectl rollout restart deployment %s -n %s" (str dep (str ns end));
    risk = risk_medium;
    snapshot = none;
    run = some (both "" (rollout_restart_deployment api ns dep));
    validate = some (await_replicas api 90 ns dep);
    rollback = none;
  }

  abbrev actions_for : String → String → Option String → List (Action W)
  actions_for ns pod none = restart_pod_action api ns pod "" false ∷ []
  actions_for ns pod (some dep) =
      restart_pod_action api ns pod dep true ∷ scale_action ns dep ∷ rollout_action ns dep ∷ []

  unfoldable pub crash_loop_ladder : Finding → Ladder W
  unfolding restart_pod_action scale_action rollout_action
  crash_loop_ladder f = record {
    playbook_id = "core/crashloopbackoff";
    actions = actions_for f.signal.namespace f.signal.name (deployment_of f.meta);
  }

  unfoldable pub crash_loop_diagnose : Signal → Call W Finding
  crash_loop_diagnose sig = do
    restarts ←
        wrap_err (diagnosing sig.namespace sig.name) (pod_restart_count api sig.namespace sig.name)
    owner_meta api sig.namespace sig.name (
        found sig (
          api.sprintf "pod %s/%s está em CrashLoopBackOff, %d restarts registrados"
            (str sig.namespace (str sig.name (num restarts end)))))

  unfoldable pub crash_loop_back_off : Playbook W
  unfolding crash_loop_ladder
  crash_loop_back_off = record {
    id = "core/crashloopbackoff";
    resource = "core";
    detect = λ sig. sig.kind == "PodCrashLoopBackOff";
    diagnose = crash_loop_diagnose;
    ladder = crash_loop_ladder;
    recheck = none;
  }
