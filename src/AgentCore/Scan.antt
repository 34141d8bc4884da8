-- ===== src/AgentCore/Scan.antt =====
-- internal/agentcore/scan.go: `Scan` and `refineExecFormatError`. The signatures of
-- execformat_heuristic.go are regular expressions: `signatures` matches one line.
use k8s_ts_mcp.Common.{
  ℕ, String, Bool, true, false, ◌&&◌, Option, none, some, List, [], ◌∷◌, ◌++◌, ◌==◌, ltb,
  if◌then◌else◌, any, split, trim_space, Result, ok, err, Call, ◌>>=◌,
}
use k8s_ts_mcp.K8sClient.{ContainerStatus, Pod}
use k8s_ts_mcp.K8sClient.Pods.{container_logs, list_pods}
use k8s_ts_mcp.AgentCore.{Handler}
use k8s_ts_mcp.AgentCore.Classify.{PodVerdict, classify_pod}

pub record PodIssue : Type 0 where
  pub namespace : String
  pub name : String
  pub kind : String
  pub detail : String

pub record Heuristic : Type 0 where
  pub signatures : List (String → Bool)

unfoldable pub looks_like_exec_format_error : Heuristic → String → Bool
unfolding any
looks_like_exec_format_error x logs =
    any (λ line. any (λ matches. matches line) x.signatures) (split "\n" logs)

-- `pod.Status.ContainerStatuses[0].RestartCount`; without a container the code panics, and
-- `classify_pod` gives no such pod the kind that is refined.
abbrev pub first_restarts : List ContainerStatus → ℕ
first_restarts [] = 0
first_restarts (cs ∷ _) = cs.restart_count

module _ {W : Type 0} (h : Handler W) (x : Heuristic) where
  open h use {api, texts}

  abbrev unread : Result String → Bool
  unread (err e) = true
  unread (ok s) = trim_space s == ""

  abbrev refine_logs : Pod → Call W String
  refine_logs pod w =
      let (first, w') = container_logs api pod.namespace pod.name false 20 w in
      let again = container_logs api pod.namespace pod.name true 20 w' in
      if unread first && ltb 0 (first_restarts pod.container_statuses) then again else (first, w')

  abbrev refined : Result String × W → Option PodVerdict × W
  refined (err e, w) = (none, w)
  refined (ok logs, w) =
      if looks_like_exec_format_error x logs
      then (some (record { kind = "PodExecFormatError"; detail = trim_space logs }), w)
      else (none, w)

  unfoldable pub refine_exec_format_error : Pod → W → Option PodVerdict × W
  unfolding looks_like_exec_format_error
  refine_exec_format_error pod w = refined (refine_logs pod w)

  abbrev to_issue : Pod → PodVerdict → PodIssue
  to_issue pod v = record {
    namespace = pod.namespace;
    name = pod.name;
    kind = v.kind;
    detail = texts.scrub v.detail;
  }

  abbrev or_refined : PodVerdict → Option PodVerdict × W → PodVerdict × W
  or_refined v (none, w) = (v, w)
  or_refined v (some v', w) = (v', w)

  abbrev refine_unknown : Pod → PodVerdict → W → PodVerdict × W
  refine_unknown pod v w =
      if v.kind == "PodUnknownError" then or_refined v (refine_exec_format_error pod w) else (v, w)

  abbrev issues_of : Pod → Option PodVerdict → W → List PodIssue × W
  issues_of pod none w = ([], w)
  issues_of pod (some v) w = let (v', w') = refine_unknown pod v w in (to_issue pod v' ∷ [], w')

  -- The loop over the pods.
  unfoldable pub scan_pods : List Pod → W → List PodIssue × W
  unfolding refine_exec_format_error classify_pod
  scan_pods [] w = ([], w)
  scan_pods (pod ∷ rest) w =
      let (found, w') = issues_of pod (classify_pod texts.sprintf pod) w in
      let (more, w'') = scan_pods rest w' in (found ++ more, w'')

  -- `Handler.Scan`.
  unfoldable pub handle_scan : String → Call W (List PodIssue)
  handle_scan ns = do
    pods ← list_pods api ns
    λ w. let (issues, w') = scan_pods pods w in (ok issues, w')
