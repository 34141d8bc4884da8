-- ===== src/K8sClient/Deployments.antt =====
-- internal/k8sclient/k8sclient.go and diagnostics.go: the methods that read and change deployments,
-- autoscalers and scaled objects.
use k8s_ts_mcp.Common.{
  ℕ, String, Bool, false, Option, none, some, List, [], ◌∷◌, ◌==◌, find, errorf, end, str, num,
  cause, ok, Call, ◌>>=◌, pure, raise, wrap_err,
}
use k8s_ts_mcp.K8sClient.{Condition, Deployment, Quantity, Api}
use k8s_ts_mcp.K8sClient.Pods.{names, failed}

abbrev pub replicas_or_one : Option ℕ → ℕ
replicas_or_one none = 1
replicas_or_one (some n) = n

abbrev pub quantity_text : Option Quantity → String
quantity_text none = "0"
quantity_text (some q) = q

abbrev pub ready_of : Option Condition → Bool × String
ready_of none = (false, "no Ready condition reported yet")
ready_of (some c) = (c.status == "True", c.message)

module _ {W : Type 0} (api : Api W) where
  abbrev pub deployment_at : String → String → Call W Deployment
  deployment_at ns name =
      wrap_err (failed api "getting deployment %s/%s: %w" ns name) (api.get_deployment ns name)

  unfoldable pub deployment_replicas : String → String → Call W ℕ
  deployment_replicas ns name = do dep ← deployment_at ns name; pure (replicas_or_one dep.replicas)

  unfoldable pub deployment_ready_replicas : String → String → Call W ℕ
  deployment_ready_replicas ns name = do dep ← deployment_at ns name; pure dep.ready_replicas

  unfoldable pub update_replicas : String → String → ℕ → Deployment → Call W (Unit {0})
  update_replicas ns name replicas dep =
      wrap_err
        (λ e.
          errorf "scaling deployment %s/%s to %d: %w"
            (str ns (str name (num replicas (cause e end)))))
        (api.update_deployment ns name (record dep { replicas = some replicas }))

  unfoldable pub scale_deployment : String → String → ℕ → Call W String
  unfolding update_replicas
  scale_deployment ns name replicas = do
    dep ← deployment_at ns name
    update_replicas ns name replicas dep >>= λ _. pure (
        api.sprintf "deployment %s/%s scaled to %d replicas" (str ns (str name (num replicas end))))

  -- `restarted_at` is the annotation that kubectl bumps too.
  unfoldable pub rollout_restart_deployment : String → String → Call W String
  rollout_restart_deployment ns name = do
    dep ← deployment_at ns name
    stamp ← λ w. (ok (api.timestamp w), w)
    wrap_err (failed api "rollout-restarting deployment %s/%s: %w" ns name)
          (api.update_deployment ns name (record dep { restarted_at = some stamp }))
        >>= λ _. pure (api.sprintf "deployment %s/%s rollout restarted" (names ns name))

  abbrev first_limit : String → String → List (Option Quantity) → Call W (Option Quantity)
  first_limit ns name [] = raise (errorf "deployment %s/%s has no containers" (names ns name))
  first_limit ns name (q ∷ _) = pure q

  unfoldable pub container_memory_limit : String → String → Call W (Option Quantity)
  container_memory_limit ns name = do
    dep ← deployment_at ns name
    first_limit ns name dep.containers

  abbrev pub set_first : Quantity → List (Option Quantity) → List (Option Quantity)
  set_first q [] = []
  set_first q (_ ∷ rest) = some q ∷ rest

  -- `scale_quantity` is the current limit times the factor, which is a float64.
  unfoldable pub increase_container_memory_limit : String → String → Call W String
  increase_container_memory_limit ns name = do
    dep ← deployment_at ns name
    current ← first_limit ns name dep.containers
    wrap_err (failed api "updating memory limit on %s/%s: %w" ns name) (
          api.update_deployment ns name
            (record dep { containers = set_first (api.scale_quantity current) dep.containers }))
        >>= λ _. pure (
            api.sprintf "deployment %s/%s memory limit: %s -> %s" (
              str ns
                (str name (str (quantity_text current) (str (api.scale_quantity current) end)))))

  unfoldable pub delete_hpa : String → String → Call W String
  delete_hpa ns name =
      wrap_err (failed api "deleting hpa %s/%s: %w" ns name) (api.delete_hpa ns name) >>= λ _.
      pure (api.sprintf "hpa %s/%s deleted, KEDA will recreate it" (names ns name))

  abbrev conditions_ready : Option (List Condition) → Bool × String
  conditions_ready none = (false, "no status.conditions reported yet")
  conditions_ready (some cs) = ready_of (find (λ c. c.kind == "Ready") cs)

  unfoldable pub scaled_object_ready : String → String → Call W (Bool × String)
  unfolding find
  scaled_object_ready ns name = do
    conditions ←
        wrap_err (failed api "getting scaledobject %s/%s: %w" ns name)
          (api.scaled_object_conditions ns name)
    pure (conditions_ready conditions)
