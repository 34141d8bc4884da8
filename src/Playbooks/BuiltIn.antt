-- ===== src/Playbooks/BuiltIn.antt =====
-- The registry that cmd/cluster-agent/main.go and cmd/hub-server/main.go build.
use k8s_ts_mcp.Common.{String, List, [], ◌∷◌}
use k8s_ts_mcp.K8sClient.{Api}
use k8s_ts_mcp.Playbooks.{Playbook}
use k8s_ts_mcp.Playbooks.CoreK8s.CrashLoop.{crash_loop_back_off}
use k8s_ts_mcp.Playbooks.CoreK8s.Oom.{oom_killed}
use k8s_ts_mcp.Playbooks.CoreK8s.ImagePull.{image_pull_back_off}
use k8s_ts_mcp.Playbooks.CoreK8s.ExecFormat.{exec_format_error}
use k8s_ts_mcp.Playbooks.Extensions.{node_degraded, scaled_object_stuck}

-- What the playbooks take beside the API: package sort, the factor's text, the flag.
pub record Settings : Type 0 where
  pub sorted : List String → List String
  pub percent : String
  pub calico_namespace : String

unfoldable pub built_in : {W : Type 0} → Api W → Settings → List (Playbook W)
unfolding crash_loop_back_off oom_killed image_pull_back_off exec_format_error node_degraded
    scaled_object_stuck
built_in api s =
    crash_loop_back_off api
    ∷ oom_killed api s.percent
    ∷ image_pull_back_off api
    ∷ exec_format_error api s.sorted
    ∷ node_degraded api s.calico_namespace
    ∷ scaled_object_stuck api
    ∷ []
