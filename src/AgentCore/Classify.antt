-- ===== src/AgentCore/Classify.antt =====
-- internal/agentcore/scan.go: `classifyPod` and `schedulingFailureMessage`. A healthy pod has no
-- verdict; `sprintf` is `fmt.Sprintf`.
use k8s_ts_mcp.Common.{
  ℕ, String, Bool, not, ◌&&◌, ◌||◌, Option, none, some, List, [], ◌∷◌, ◌==◌, ltb, if◌then◌else◌,
  find, Args, end, str,
}
use k8s_ts_mcp.K8sClient.{Terminated, Waiting, ContainerStatus, Condition, Pod}

pub record PodVerdict : Type 0 where
  pub kind : String
  pub detail : String

abbrev pub verdict : String → String → Option PodVerdict
verdict kind detail = some (record { kind = kind; detail = detail })

abbrev condition_message : Option Condition → String
condition_message none = ""
condition_message (some c) = c.message

unfoldable pub scheduling_failure_message : Pod → String
unfolding find
scheduling_failure_message pod =
    condition_message
      (find (λ c. (c.kind == "PodScheduled") && (c.status == "False")) pod.conditions)

-- A reason to wait that every starting pod passes through.
abbrev pub is_transient : String → Bool
is_transient reason = (reason == "ContainerCreating") || (reason == "PodInitializing")

abbrev image_reason : String → Bool
image_reason r = (r == "ImagePullBackOff") || (r == "ErrImagePull")

abbrev config_reason : String → Bool
config_reason r = (r == "CreateContainerConfigError") || (r == "CreateContainerError")

-- The tests of one container, each with what follows where it does not apply.
abbrev by_waiting : Option Waiting → Option PodVerdict → Option PodVerdict
by_waiting none next = next
by_waiting (some x) next =
    if image_reason x.reason
    then verdict "PodImagePullBackOff" x.message
    else if config_reason x.reason
    then verdict "PodCreateContainerError" x.message
    else next

abbrev pub termination : ContainerStatus → Option Terminated
termination cs = elim cs.terminated [ some t ↦ some t | none ↦ cs.last_terminated ]

abbrev by_memory : Option Terminated → Option PodVerdict → Option PodVerdict
by_memory none next = next
by_memory (some t) next = if t.reason == "OOMKilled" then verdict "PodOOMKilled" t.message else next

abbrev by_crash : Option Waiting → Option PodVerdict → Option PodVerdict
by_crash none next = next
by_crash (some x) next =
    if x.reason == "CrashLoopBackOff" then verdict "PodCrashLoopBackOff" x.message else next

abbrev by_exit : Option Terminated → ℕ → Option PodVerdict → Option PodVerdict
by_exit none restarts next = next
by_exit (some t) restarts next =
    if ltb 0 t.exit_code && ltb 0 restarts then verdict "PodUnknownError" t.message else next

abbrev stuck : (String → Args → String) → Option Waiting → Option PodVerdict → Option PodVerdict
stuck sprintf none next = next
stuck sprintf (some x) next =
    if not (x.reason == "") && not (is_transient x.reason)
    then verdict "PodUnknownError" (sprintf "%s: %s" (str x.reason (str x.message end)))
    else next

abbrev pub of_container :
    (String → Args → String) → ContainerStatus → Option PodVerdict → Option PodVerdict
of_container sprintf cs next =
    if cs.running
    then next
    else by_waiting cs.waiting (
        by_memory (termination cs) (
          by_crash cs.waiting
            (by_exit (termination cs) cs.restart_count (stuck sprintf cs.waiting next))))

-- The loop over the containers: the first that has a verdict gives the pod's.
unfoldable pub classify_containers :
    (String → Args → String) → List ContainerStatus → Option PodVerdict
classify_containers sprintf [] = none
classify_containers sprintf (cs ∷ rest) = of_container sprintf cs (classify_containers sprintf rest)

abbrev pub classify_unscheduled :
    (String → Args → String) → Pod → List ContainerStatus → Option PodVerdict
classify_unscheduled sprintf pod [] =
    if pod.phase == "Pending" then verdict "PodPending" (scheduling_failure_message pod) else none
classify_unscheduled sprintf pod (cs ∷ rest) = classify_containers sprintf (cs ∷ rest)

unfoldable pub classify_pod : (String → Args → String) → Pod → Option PodVerdict
unfolding classify_containers scheduling_failure_message
classify_pod sprintf pod = classify_unscheduled sprintf pod pod.container_statuses
