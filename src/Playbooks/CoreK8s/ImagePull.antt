-- ===== src/Playbooks/CoreK8s/ImagePull.antt =====
-- internal/playbooks/corek8s/imagepullbackoff.go.
use k8s_ts_mcp.Common.{
  String, true, false, Option, none, some, [], ◌∷◌, ◌==◌, end, str, Call, ◌>>=◌, wrap_err,
}
use k8s_ts_mcp.ExecEngine.{Action, Ladder}
use k8s_ts_mcp.K8sClient.{Api}
use k8s_ts_mcp.K8sClient.Pods.{container_waiting}
use k8s_ts_mcp.Playbooks.{Signal, Finding, Playbook}
use k8s_ts_mcp.Playbooks.CoreK8s.{restart_pod_action, deployment_of, owner_meta, diagnosing, found}

module _ {W : Type 0} (api : Api W) where
  abbrev pub restart_for : String → String → Option String → Action W
  restart_for ns pod none = restart_pod_action api ns pod "" false
  restart_for ns pod (some dep) = restart_pod_action api ns pod dep true

  unfoldable pub image_pull_ladder : Finding → Ladder W
  unfolding restart_pod_action
  image_pull_ladder f = record {
    playbook_id = "core/imagepullbackoff";
    actions = restart_for f.signal.namespace f.signal.name (deployment_of f.meta) ∷ [];
  }

  unfoldable pub image_pull_diagnose : Signal → Call W Finding
  image_pull_diagnose sig = do
    info ←
        wrap_err (diagnosing sig.namespace sig.name) (container_waiting api sig.namespace sig.name)
    owner_meta api sig.namespace sig.name (
        found sig (
          api.sprintf "pod %s/%s não consegue baixar a imagem (%s): %s"
            (str sig.namespace (str sig.name (str info.reason (str info.message end))))))

  unfoldable pub image_pull_back_off : Playbook W
  unfolding image_pull_ladder
  image_pull_back_off = record {
    id = "core/imagepullbackoff";
    resource = "core";
    detect = λ sig. sig.kind == "PodImagePullBackOff";
    diagnose = image_pull_diagnose;
    ladder = image_pull_ladder;
    recheck = none;
  }
