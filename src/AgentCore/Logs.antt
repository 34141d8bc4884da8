-- ===== src/AgentCore/Logs.antt =====
-- internal/agentcore/agentcore.go: the requests that only read, `GetLogs` and `ListNodes`.
use k8s_ts_mcp.Common.{
  trim_space, ℕ, String, Bool, true, false, List, leb, ◌==◌, if◌then◌else◌, errorf, end, str, cause,
  Result, ok, err, Call, ◌>>=◌, pure, wrap_err,
}
use k8s_ts_mcp.K8sClient.Pods.{container_logs, pod_for_deployment}
use k8s_ts_mcp.K8sClient.Nodes.{NodeInfo, list_nodes}
use k8s_ts_mcp.AgentCore.{Handler}

module _ {W : Type 0} (h : Handler W) where
  open h use {api, texts}

  abbrev blank : String → Bool
  blank s = trim_space s == ""

  abbrev logs_pod : String → String → String → Call W String
  logs_pod ns name deployment =
      if deployment == ""
      then pure name
      else wrap_err
          (λ e.
            errorf "resolvendo pod do deployment %s/%s: %w" (str ns (str deployment (cause e end))))
          (pod_for_deployment api ns deployment)

  -- The previous instance's log stands in for an empty current one, if it can be read and is not
  -- empty itself.
  abbrev or_previous : Result String → Result String × W → Result String × W
  or_previous first (err e, w) = (first, w)
  or_previous first (ok prev, w) = if blank prev then (first, w) else (ok prev, w)

  -- A failed read has the empty log.
  abbrev pub log_text : Result String → String
  log_text (err e) = ""
  log_text (ok s) = s

  abbrev read_logs : String → String → ℕ → Call W String
  read_logs ns pod tail_lines w =
      let (first, w') = container_logs api ns pod false tail_lines w in
      let again = or_previous first (container_logs api ns pod true tail_lines w') in
      if blank (log_text first) then again else (first, w')

  abbrev lines_or_fifty : ℕ → ℕ
  lines_or_fifty n = if leb n 0 then 50 else n

  -- `Handler.GetLogs`.
  unfoldable pub handle_get_logs : String → String → String → ℕ → Call W String
  handle_get_logs ns name deployment tail_lines = do
    pod ← logs_pod ns name deployment
    logs ←
        wrap_err (λ e. errorf "lendo log de %s/%s: %w" (str ns (str pod (cause e end))))
          (read_logs ns pod (lines_or_fifty tail_lines))
    pure (texts.scrub logs)

  -- `Handler.ListNodes`.
  unfoldable pub handle_list_nodes : Call W (List NodeInfo)
  handle_list_nodes = wrap_err (λ e. errorf "listando nodes: %w" (cause e end)) (list_nodes api)
