-- ===== src/AgentCore/Verdicts.antt =====
-- What a scan reports of a pod: internal/agentcore/scan.go, `classifyPod`.
use k8s_ts_mcp.Common.{
  String, true, false, ◌≡◌, ◌≢◌, refl, inl, inr, Option, none, some, List, [], ◌∷◌, ◌++◌, ◌==◌, All,
  Bool-cases, Args, arith,
}
use mathlib.Core.List.{append-nil}
use k8s_ts_mcp.K8sClient.{Terminated, Waiting, ContainerStatus, Pod}
use k8s_ts_mcp.AgentCore.Classify.{
  PodVerdict, verdict, is_transient, termination, of_container, classify_containers,
  classify_unscheduled, classify_pod,
}

-- A container that waits for a reason which is not part of a normal start.
abbrev pub Stuck : ContainerStatus → Type 0
Stuck cs =
    (cs.running ≡ false)
    × (x : Waiting) × (cs.waiting ≡ some x)
    × ((x.reason == "") ≡ false)
    × (is_transient x.reason ≡ false)

module _ (sprintf : String → Args → String) where
  classify-running :
      (before rest : List ContainerStatus)
      → All (λ cs. cs.running ≡ true) before
      → classify_containers sprintf (before ++ rest) ≡ classify_containers sprintf rest
  unfolding classify_containers
  classify-running [] rest h = refl
  classify-running (cs ∷ before) rest (up, h) = simp up (classify-running before rest h)

  unscheduled-running :
      (pod : Pod) (css : List ContainerStatus)
      → css ≢ []
      → All (λ cs. cs.running ≡ true) css
      → classify_unscheduled sprintf pod css ≡ none
  unfolding classify_containers
  unscheduled-running pod [] some_container h = absurd (some_container refl)
  unscheduled-running pod (cs ∷ rest) some_container (up, h) =
      simp up (rw (append-nil rest) at (classify-running rest [] h))

  -- A pod whose containers all run now, with at least one of them, is healthy, however its containers
  -- ended before and however often they restarted.
  pub running_is_healthy :
      (pod : Pod)
      → pod.container_statuses ≢ []
      → All (λ cs. cs.running ≡ true) pod.container_statuses
      → classify_pod sprintf pod ≡ none
  unfolding classify_pod
  running_is_healthy pod some_container h =
      unscheduled-running pod pod.container_statuses some_container h

  -- A container that was killed for its memory is reported as such although it now waits in
  -- `CrashLoopBackOff`, where the containers before it run.
  pub memory_before_crash :
      (pod : Pod) (before rest : List ContainerStatus) (cs : ContainerStatus) (message : String)
      (t : Terminated)
      → pod.container_statuses ≡ before ++ (cs ∷ rest)
      → All (λ c. c.running ≡ true) before
      → cs.running ≡ false
      → cs.waiting ≡ some (record { reason = "CrashLoopBackOff"; message = message })
      → termination cs ≡ some t
      → (t.reason == "OOMKilled") ≡ true
      → classify_pod sprintf pod ≡ verdict "PodOOMKilled" t.message
  unfolding classify_pod classify_containers
  memory_before_crash pod before rest cs message t e h down waits ended oom =
      ground (arith, classify-running before (cs ∷ rest) h)

  verdict_kind : {k d : String} {v : PodVerdict} → verdict k d ≡ some v → v.kind ≡ k
  verdict_kind e = ground arith

  unscheduled-unknown :
      (pod : Pod) (css : List ContainerStatus) (v : PodVerdict)
      → classify_unscheduled sprintf pod css ≡ some v
      → (v.kind == "PodUnknownError") ≡ true
      → css ≢ []
  unscheduled-unknown pod [] v e unknown = elim (Bool-cases (pod.phase == "Pending")) [
    | inl pending ↦
        let k : v.kind ≡ "PodPending" = verdict_kind (simp pending at e) in
        let clash : ("PodPending" == "PodUnknownError") ≡ true = rw k at unknown in cc
    | inr other ↦ let clash : none ≡ some v = simp other at e in cc
  ]
  unscheduled-unknown pod (cs ∷ rest) v e unknown = λ f. cc

  -- A pod without containers is never given the kind that `Scan` refines by the first container.
  pub unknown_has_container :
      (pod : Pod) (v : PodVerdict)
      → classify_pod sprintf pod ≡ some v
      → (v.kind == "PodUnknownError") ≡ true
      → pod.container_statuses ≢ []
  unfolding classify_pod
  unknown_has_container pod v e unknown = unscheduled-unknown pod pod.container_statuses v e unknown

  of_container-none :
      (cs : ContainerStatus) (next : Option PodVerdict)
      → of_container sprintf cs next ≡ none
      → (next ≡ none) × ¬ (Stuck cs)
  of_container-none cs next e = ground arith

  quiet_containers :
      (css : List ContainerStatus)
      → classify_containers sprintf css ≡ none
      → All (λ cs. ¬ (Stuck cs)) css
  unfolding classify_containers
  quiet_containers [] e = tt
  quiet_containers (cs ∷ rest) e =
      let (next, calm) = of_container-none cs (classify_containers sprintf rest) e in
      (calm, quiet_containers rest next)

  unscheduled-quiet :
      (pod : Pod) (css : List ContainerStatus)
      → classify_unscheduled sprintf pod css ≡ none
      → All (λ cs. ¬ (Stuck cs)) css
  unscheduled-quiet pod [] e = tt
  unscheduled-quiet pod (cs ∷ rest) e = quiet_containers (cs ∷ rest) e

  -- A pod is called healthy only where no container of it is stuck.
  pub quiet-Stuck :
      (pod : Pod)
      → classify_pod sprintf pod ≡ none
      → All (λ cs. ¬ (Stuck cs)) pod.container_statuses
  unfolding classify_pod
  quiet-Stuck pod e = unscheduled-quiet pod pod.container_statuses e
