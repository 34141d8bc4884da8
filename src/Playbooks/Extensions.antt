-- ===== src/Playbooks/Extensions.antt =====
-- internal/playbooks/calico/node_degraded.go and keda/scaledobject_stuck.go.
use k8s_ts_mcp.Common.{
  String, append_text, Bool, true, false, not, ◌&&◌, none, some, [], ◌∷◌, ◌==◌, if◌then◌else◌,
  errorf, end, str, cause, ok, Call, ◌>>=◌, pure, wrap_err, continue,
}
use k8s_ts_mcp.Policy.{risk_medium}
use k8s_ts_mcp.ExecEngine.{Action}
use k8s_ts_mcp.K8sClient.{Api}
use k8s_ts_mcp.K8sClient.Pods.{daemon_set_pod_on_node, restart_pod, pod_running}
use k8s_ts_mcp.K8sClient.Deployments.{delete_hpa, scaled_object_ready}
use k8s_ts_mcp.K8sClient.Nodes.{label}
use k8s_ts_mcp.Playbooks.{Signal, Finding, Playbook}
use k8s_ts_mcp.Playbooks.Waiting.{wait_for}
use k8s_ts_mcp.Playbooks.CoreK8s.{both, found}

module _ {W : Type 0} (api : Api W) where
  -- `NodeDegraded.namespace`.
  abbrev pub calico_namespace : String → String
  calico_namespace ns = if ns == "" then "calico-system" else ns

  abbrev restart_node_pod : String → String → Call W String
  restart_node_pod ns node = do
    pod ← daemon_set_pod_on_node api ns "calico-node" node
    restart_pod api pod.namespace pod.name

  -- A pod that is not there yet is polled for again.
  abbrev node_pod_running : String → String → Call W Bool
  node_pod_running ns node w =
      continue (daemon_set_pod_on_node api ns "calico-node" node w)
        (λ pod w'. (ok (pod.phase == pod_running), w')) (λ _ w'. (ok false, w'))

  unfoldable pub calico_action : String → String → Action W
  calico_action ns node = record {
    name = "restart calico-node pod on node";
    description =
        api.sprintf
          "kubectl delete pod -n %s -l k8s-app=calico-node --field-selector spec.nodeName=%s"
          (str ns (str node end));
    risk = risk_medium;
    snapshot = none;
    run = some (both "" (restart_node_pod ns node));
    validate = some (wait_for api 1 60 (node_pod_running ns node));
    rollback = none;
  }

  unfoldable pub calico_diagnose : String → Signal → Call W Finding
  calico_diagnose ns sig = do
    pod ←
        wrap_err (λ e. errorf "diagnosing calico node %s: %w" (str sig.node_name (cause e end)))
          (daemon_set_pod_on_node api (calico_namespace ns) "calico-node" sig.node_name)
    found sig
        (api.sprintf "nó %s reportando degradação de rede Calico; pod calico-node atual: %s/%s"
          (str sig.node_name (str pod.namespace (str pod.name end))))
        []

  unfoldable pub node_degraded : String → Playbook W
  unfolding calico_action
  node_degraded ns = record {
    id = "calico/node-degraded";
    resource = "calico";
    detect = λ sig. sig.kind == "CalicoNodeDegraded" && not (sig.node_name == "");
    diagnose = calico_diagnose ns;
    ladder = λ f. record {
      playbook_id = "calico/node-degraded";
      actions = calico_action (calico_namespace ns) f.signal.node_name ∷ [];
    };
    recheck = none;
  }

  abbrev object_ready : String → String → Call W Bool
  object_ready ns name = do (ready, _) ← scaled_object_ready api ns name; pure ready

  unfoldable pub keda_action : String → String → String → Action W
  keda_action ns name hpa = record {
    name = "delete stuck HPA to force KEDA to recreate it";
    description = api.sprintf "kubectl delete hpa %s -n %s" (str hpa (str ns end));
    risk = risk_medium;
    snapshot = none;
    run = some (both "" (delete_hpa api ns hpa));
    validate = some (wait_for api 2 90 (object_ready ns name));
    rollback = none;
  }

  abbrev truth : Bool → String
  truth true = "true"
  truth false = "false"

  unfoldable pub keda_diagnose : Signal → Call W Finding
  keda_diagnose sig = do
    (ready, msg) ←
        wrap_err
          (λ e.
            errorf "diagnosing scaledobject %s/%s: %w"
              (str sig.namespace (str sig.name (cause e end))))
          (scaled_object_ready api sig.namespace sig.name)
    found sig
        (api.sprintf "scaledobject %s/%s ready=%v: %s"
          (str sig.namespace (str sig.name (str (truth ready) (str msg end)))))
        (("hpa", append_text "keda-hpa-" sig.name) ∷ [])

  unfoldable pub scaled_object_stuck : Playbook W
  unfolding keda_action
  scaled_object_stuck = record {
    id = "keda/scaledobject-stuck";
    resource = "keda";
    detect = λ sig. sig.kind == "KEDAScaledObjectStuck";
    diagnose = keda_diagnose;
    ladder = λ f. record {
      playbook_id = "keda/scaledobject-stuck";
      actions = keda_action f.signal.namespace f.signal.name (label "hpa" f.meta) ∷ [];
    };
    recheck = none;
  }
