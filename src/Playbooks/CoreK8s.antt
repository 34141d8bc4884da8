-- ===== src/Playbooks/CoreK8s.antt =====
-- internal/playbooks/corek8s: the playbooks over the built-in Kubernetes API.
pub mod CrashLoop
pub mod Restoring
pub mod Oom
pub mod ImagePull
pub mod ExecFormat
use k8s_ts_mcp.Common.{
  ℕ, zero, suc, String, Bool, true, false, not, ◌&&◌, Option, none, some, List, [], ◌∷◌, ◌++◌, leb,
  ◌==◌, if◌then◌else◌, select, Map, lookup, Error, Args, errorf, end, str, num, cause, is_not_found,
  Result, ok, err, Call, CallBoth, ◌>>=◌, pure, raise, wrap_err, continue,
}
use k8s_ts_mcp.Policy.{risk_safe, risk_medium, risk_high}
use k8s_ts_mcp.Redact.{Fields, Value, num as num_value, empty, field}
use k8s_ts_mcp.ExecEngine.{State, Action, Ladder}
use k8s_ts_mcp.K8sClient.{Api}
use k8s_ts_mcp.K8sClient.Pods.{
  restart_pod, pod_phase, pod_restart_count, pod_node_name, container_termination,
  container_waiting, owning_deployment_name, TerminationInfo,
}
use k8s_ts_mcp.K8sClient.Deployments.{
  deployment_replicas, deployment_ready_replicas, scale_deployment, rollout_restart_deployment,
  container_memory_limit, increase_container_memory_limit, quantity_text,
}
use k8s_ts_mcp.K8sClient.Nodes.{node_architecture, cluster_architectures, label}
use k8s_ts_mcp.Playbooks.{Signal, Finding, Playbook}
use k8s_ts_mcp.Playbooks.Waiting.{wait_for}

-- A call that returns no value beside an error.
abbrev pub both : {W A : Type 0} → A → Call W A → CallBoth W A
both zero_value m w = continue (m w) (λ a w'. ((a, none), w')) (λ e w'. ((zero_value, some e), w'))

-- `dep, hasDep := meta["deployment"]; hasDep = hasDep && dep != ""`.
abbrev pub deployment_of : Map String → Option String
deployment_of meta = elim (lookup "deployment" meta) [
  | none ↦ none
  | some dep ↦ if dep == "" then none else some dep
]

abbrev pub diagnosing : String → String → Error → Error
diagnosing ns name e = errorf "diagnosing %s/%s: %w" (str ns (str name (cause e end)))

abbrev pub found : {W : Type 0} → Signal → String → Map String → Call W Finding
found sig summary meta = pure (record { signal = sig; summary = summary; meta = meta })

module _ {W : Type 0} (api : Api W) where
  -- The check of one poll: the pod is gone.
  abbrev pod_gone : String → String → Call W Bool
  pod_gone ns pod w =
      continue (pod_phase api ns pod w) (λ _ w'. (ok false, w')) (λ e w'. (ok (is_not_found e), w'))

  abbrev pub replicas_ready : String → String → ℕ → Call W Bool
  replicas_ready ns dep want = do
    ready ← deployment_ready_replicas api ns dep
    pure (leb want ready)

  -- Waits until the deployment has its replicas ready.
  abbrev pub await_replicas : ℕ → String → String → CallBoth W Bool
  await_replicas timeout ns dep w =
      continue (deployment_replicas api ns dep w)
        (λ want w'. wait_for api 1 timeout (replicas_ready ns dep want) w')
        (λ e w'. ((false, some e), w'))

  abbrev restart_checked :
      String → String → Bool → (Bool × Option Error) × W → (Bool × Option Error) × W
  restart_checked ns dep has_dep ((gone, some e), w) = ((false, some e), w)
  restart_checked ns dep has_dep ((false, none), w) = ((false, none), w)
  restart_checked ns dep true ((true, none), w) = await_replicas 60 ns dep w
  restart_checked ns dep false ((true, none), w) = ((true, none), w)

  unfoldable pub restart_pod_action : String → String → String → Bool → Action W
  restart_pod_action ns pod dep has_dep = record {
    name = "restart pod";
    description = api.sprintf "kubectl delete pod %s -n %s" (str pod (str ns end));
    risk = risk_safe;
    snapshot = none;
    run = some (both "" (restart_pod api ns pod));
    validate = some (λ w. restart_checked ns dep has_dep (wait_for api 1 30 (pod_gone ns pod) w));
    rollback = none;
  }

  -- The owner's name in the finding's map, if the lookup of the owner succeeds.
  abbrev pub owner_meta : String → String → (Map String → Call W Finding) → Call W Finding
  owner_meta ns pod next w =
      continue (owning_deployment_name api ns pod w) (λ dep. next (("deployment", dep) ∷ []))
        (λ e. next [])
