-- ===== src/K8sClient/Connecting.antt =====
-- internal/k8sclient/k8sclient.go, `New`: a client of the cluster that the agent runs in, or of a
-- kubeconfig. Packages clientcmd, rest, kubernetes and dynamic are the record `ClientGo`.
use k8s_ts_mcp.Common.{
  String, not, ◌==◌, if◌then◌else◌, Option, none, some, Error, errorf, end, cause, Result, ok, err,
  Call, ◌>>=◌, pure, raise, wrap_err,
}
use k8s_ts_mcp.K8sClient.{Api}

pub record ClientGo (W Cfg : Type 0) : Type 0 where
  pub build_config_from_flags : String → Call W Cfg
  pub in_cluster_config : Call W Cfg
  pub new_clientset : Cfg → Result (Api W)
  pub new_dynamic : Cfg → Option Error

module _ {W Cfg : Type 0} (go : ClientGo W Cfg) where
  abbrev clientset : Result (Api W) → Call W (Api W)
  clientset (ok api) = pure api
  clientset (err e) = raise (errorf "building clientset: %w" (cause e end))

  abbrev dynamic : Api W → Option Error → Call W (Api W)
  dynamic api none = pure api
  dynamic api (some e) = raise (errorf "building dynamic client: %w" (cause e end))

  unfoldable pub new_client : String → Call W (Api W)
  new_client kubeconfig_path = do
    cfg ←
        wrap_err (λ e. errorf "building kube config: %w" (cause e end))
          (if not (kubeconfig_path == "")
            then go.build_config_from_flags kubeconfig_path
            else go.in_cluster_config)
    api ← clientset (go.new_clientset cfg)
    dynamic api (go.new_dynamic cfg)
