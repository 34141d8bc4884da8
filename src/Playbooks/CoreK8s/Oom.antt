-- ===== src/Playbooks/CoreK8s/Oom.antt =====
-- internal/playbooks/corek8s/oomkilled.go. The factor of the memory limit is a float64: it is part
-- of `Api.scale_quantity`, and `percent` is its text `%.0f%%`.
use k8s_ts_mcp.Common.{
  append_text, String, true, false, Option, none, some, List, [], ◌∷◌, leb, ◌==◌, if◌then◌else◌,
  Map, Error, errorf, end, str, num, cause, Call, CallBoth, ◌>>=◌, pure, raise, wrap_err, continue,
}
use k8s_ts_mcp.Policy.{risk_high}
use k8s_ts_mcp.ExecEngine.{Action, Ladder}
use k8s_ts_mcp.K8sClient.{Api}
use k8s_ts_mcp.K8sClient.Pods.{container_termination, owning_deployment_name}
use k8s_ts_mcp.K8sClient.Deployments.{
  deployment_replicas, deployment_ready_replicas, rollout_restart_deployment,
  container_memory_limit, increase_container_memory_limit, quantity_text,
}
use k8s_ts_mcp.K8sClient.Nodes.{label}
use k8s_ts_mcp.Playbooks.{Signal, Finding, Playbook}
use k8s_ts_mcp.Playbooks.CoreK8s.{restart_pod_action, deployment_of, diagnosing, found}

module _ {W : Type 0} (api : Api W) (percent : String) where
  -- The output of the limit's change stands beside a failed restart.
  abbrev raise_limit : String → String → CallBoth W String
  raise_limit ns dep w =
      continue (increase_container_memory_limit api ns dep w)
        (λ out w'.
          continue (rollout_restart_deployment api ns dep w') (λ _ w''. ((out, none), w''))
            (λ e w''. ((out, some e), w'')))
        (λ e w'. (("", some e), w'))

  unfoldable pub memory_action : String → String → Action W
  memory_action ns dep = record {
    name = "increase memory limit";
    description =
        api.sprintf
          "kubectl set resources deployment/%s -n %s --limits=memory=<%.0f%% do atual> && kubectl rollout restart deployment/%s -n %s"
          (str dep (str ns (str percent (str dep (str ns end)))));
    risk = risk_high;
    snapshot = none;
    run = some (raise_limit ns dep);
    validate = none;
    rollback = none;
  }

  abbrev actions_for : String → String → Option String → List (Action W)
  actions_for ns pod none = restart_pod_action api ns pod "" false ∷ []
  actions_for ns pod (some dep) = restart_pod_action api ns pod dep true ∷ memory_action ns dep ∷ []

  unfoldable pub oom_ladder : Finding → Ladder W
  unfolding restart_pod_action memory_action
  oom_ladder f = record {
    playbook_id = "core/oomkilled";
    actions = actions_for f.signal.namespace f.signal.name (deployment_of f.meta);
  }

  -- The summary gets the current limit if the owner and its limit can be read.
  abbrev with_limit : Signal → String → String → Call W Finding
  with_limit sig summary dep w =
      continue (container_memory_limit api sig.namespace dep w)
        (λ limit.
          found sig
            (append_text summary
              (api.sprintf ", limite de memória atual: %s" (str (quantity_text limit) end)))
            (("deployment", dep) ∷ []))
        (λ _. found sig summary (("deployment", dep) ∷ []))

  abbrev with_owner : Signal → String → Call W Finding
  with_owner sig summary w =
      continue (owning_deployment_name api sig.namespace sig.name w) (with_limit sig summary)
        (λ _. found sig summary [])

  unfoldable pub oom_diagnose : Signal → Call W Finding
  oom_diagnose sig = do
    info ←
        wrap_err (diagnosing sig.namespace sig.name)
          (container_termination api sig.namespace sig.name)
    with_owner sig (
        api.sprintf "pod %s/%s foi morto por OOM (Reason=%s)"
          (str sig.namespace (str sig.name (str info.reason end))))

  abbrev checking : String → String → Error → Error
  checking ns dep e = errorf "checando deployment %s/%s: %w" (str ns (str dep (cause e end)))

  -- Approval needs the deployment to miss replicas at this moment.
  abbrev recheck_at : Signal → Map String → String → Call W (Option (Finding × Ladder W))
  recheck_at sig meta dep = do
    want ← wrap_err (checking sig.namespace dep) (deployment_replicas api sig.namespace dep)
    ready ← wrap_err (checking sig.namespace dep) (deployment_ready_replicas api sig.namespace dep)
    let f : Finding = record {
      signal = sig;
      summary =
          api.sprintf
            "deployment %s/%s ainda não está saudável (%d/%d réplicas prontas) — ação de alto risco continua necessária"
            (str sig.namespace (str dep (num ready (num want end))));
      meta = meta;
    }
    pure (if leb want ready then none else some (f, oom_ladder f))

  unfoldable pub oom_recheck : Signal → Map String → Call W (Option (Finding × Ladder W))
  oom_recheck sig meta =
      if label "deployment" meta == ""
      then raise (
          errorf
            "incidente original não tem deployment registrado — não é possível reavaliar sem o pod, que já não existe mais"
            end)
      else recheck_at sig meta (label "deployment" meta)

  unfoldable pub oom_killed : Playbook W
  unfolding oom_ladder
  oom_killed = record {
    id = "core/oomkilled";
    resource = "core";
    detect = λ sig. sig.kind == "PodOOMKilled";
    diagnose = oom_diagnose;
    ladder = oom_ladder;
    recheck = some oom_recheck;
  }
