-- ===== src/K8sClient/Pods.antt =====
-- internal/k8sclient/k8sclient.go and diagnostics.go: the methods that read and delete pods.
use k8s_ts_mcp.Common.{
  ℕ, ◌+◌, String, Bool, true, false, Option, none, some, List, [], ◌∷◌, ◌==◌, if◌then◌else◌, find,
  Error, Args, errorf, end, str, cause, Call, ◌>>=◌, pure, raise, wrap_err,
}
use k8s_ts_mcp.K8sClient.{Terminated, Waiting, ContainerStatus, OwnerReference, Pod, Api}

abbrev pub pod_running : String
pod_running = "Running"

pub record TerminationInfo : Type 0 where
  pub found : Bool
  pub reason : String
  pub message : String
  pub exit_code : ℕ

pub record WaitingInfo : Type 0 where
  pub found : Bool
  pub reason : String
  pub message : String

abbrev pub no_termination : TerminationInfo
no_termination = record { found = false; reason = ""; message = ""; exit_code = 0 }

abbrev pub no_waiting : WaitingInfo
no_waiting = record { found = false; reason = ""; message = "" }

abbrev pub from_terminated : Terminated → TerminationInfo
from_terminated t = record {
  found = true;
  reason = t.reason;
  message = t.message;
  exit_code = t.exit_code;
}

-- The current termination, else the last one.
abbrev pub first_termination : Option Terminated → Option Terminated → TerminationInfo
first_termination (some t) last = from_terminated t
first_termination none (some t) = from_terminated t
first_termination none none = no_termination

-- The first container's status is the one that is read.
abbrev pub termination_of : List ContainerStatus → TerminationInfo
termination_of [] = no_termination
termination_of (cs ∷ _) = first_termination cs.terminated cs.last_terminated

abbrev waiting_info : Option Waiting → WaitingInfo
waiting_info none = no_waiting
waiting_info (some x) = record { found = true; reason = x.reason; message = x.message }

abbrev pub waiting_of : List ContainerStatus → WaitingInfo
waiting_of [] = no_waiting
waiting_of (cs ∷ _) = waiting_info cs.waiting

-- `for _, ref := range refs { if ref.Kind == kind { … } }`.
abbrev pub owner_of_kind : String → List OwnerReference → Option OwnerReference
owner_of_kind kind refs = find (λ r. r.kind == kind) refs

abbrev pub names : String → String → Args
names ns name = str ns (str name end)

module _ {W : Type 0} (api : Api W) where
  abbrev pub failed : String → String → String → Error → Error
  failed format ns name e = errorf format (str ns (str name (cause e end)))

  abbrev pub pod_at : String → String → Call W Pod
  pod_at ns name = wrap_err (failed "getting pod %s/%s: %w" ns name) (api.get_pod ns name)

  unfoldable pub list_pods : String → Call W (List Pod)
  list_pods ns =
      wrap_err (λ e. errorf "listing pods in %q: %w" (str ns (cause e end))) (api.list_pods ns)

  unfoldable pub restart_pod : String → String → Call W String
  restart_pod ns name = do
    wrap_err (failed "deleting pod %s/%s: %w" ns name) (api.delete_pod ns name) >>= λ _.
        pure (api.sprintf "pod %s/%s deleted, controller will recreate it" (names ns name))

  unfoldable pub pod_phase : String → String → Call W String
  pod_phase ns name = do pod ← pod_at ns name; pure pod.phase

  abbrev pub restarts : List ContainerStatus → ℕ
  restarts [] = 0
  restarts (cs ∷ rest) = cs.restart_count + restarts rest

  unfoldable pub pod_restart_count : String → String → Call W ℕ
  pod_restart_count ns name = do pod ← pod_at ns name; pure (restarts pod.container_statuses)

  unfoldable pub pod_node_name : String → String → Call W String
  pod_node_name ns name = do pod ← pod_at ns name; pure pod.node_name

  unfoldable pub container_termination : String → String → Call W TerminationInfo
  container_termination ns name = do
    pod ← pod_at ns name
    pure (termination_of pod.container_statuses)

  unfoldable pub container_waiting : String → String → Call W WaitingInfo
  container_waiting ns name = do pod ← pod_at ns name; pure (waiting_of pod.container_statuses)

  unfoldable pub container_logs : String → String → Bool → ℕ → Call W String
  container_logs ns name previous tail_lines =
      wrap_err (failed "reading logs for %s/%s: %w" ns name)
        (api.get_logs ns name previous tail_lines)

  -- A running pod of the list if there is one, else the first.
  abbrev pub pick_pod : List Pod → Option Pod
  pick_pod [] = none
  pick_pod (p ∷ ps) = elim (find (λ q. q.phase == pod_running) (p ∷ ps)) [
    | none ↦ some p
    | some q ↦ some q
  ]

  abbrev selector_ok : Option Error → (Error → Error) → Call W (Unit {0})
  selector_ok none f = pure tt
  selector_ok (some e) f = raise (f e)

  abbrev name_or : Option Pod → Error → Call W String
  name_or none e = raise e
  name_or (some p) e = pure p.name

  unfoldable pub pod_for_deployment : String → String → Call W String
  unfolding find
  pod_for_deployment ns deployment = do
    dep ←
        wrap_err (failed "getting deployment %s/%s: %w" ns deployment)
          (api.get_deployment ns deployment)
    selector_ok (api.parse_selector dep.selector)
          (failed "deployment %s/%s has an invalid selector: %w" ns deployment)
        >>= λ _. do
          pods ←
              wrap_err (failed "listing pods for deployment %s/%s: %w" ns deployment)
                (api.list_pods_by ns dep.selector)
          name_or (pick_pod pods)
              (errorf "deployment %s/%s has no pods right now" (names ns deployment))

  abbrev owner_name_or : Option OwnerReference → Error → Call W String
  owner_name_or none e = raise e
  owner_name_or (some r) e = pure r.name

  -- An owner whose name is empty counts as none.
  abbrev non_empty_name : Option OwnerReference → Option OwnerReference
  non_empty_name none = none
  non_empty_name (some r) = if r.name == "" then none else some r

  unfoldable pub owning_deployment_name : String → String → Call W String
  unfolding find
  owning_deployment_name ns pod_name = do
    pod ← pod_at ns pod_name
    rs_name ←
        owner_name_or (non_empty_name (owner_of_kind "ReplicaSet" pod.owner_references))
          (errorf "pod %s/%s is not owned by a ReplicaSet" (names ns pod_name))
    rs ←
        wrap_err (failed "getting replicaset %s/%s: %w" ns rs_name) (api.get_replica_set ns rs_name)
    owner_name_or (owner_of_kind "Deployment" rs.owner_references)
        (errorf "replicaset %s/%s is not owned by a Deployment" (names ns rs_name))

  abbrev pod_or : Option Pod → Error → Call W Pod
  pod_or none e = raise e
  pod_or (some p) e = pure p

  unfoldable pub daemon_set_pod_on_node : String → String → String → Call W Pod
  unfolding find
  daemon_set_pod_on_node ns ds_name node = do
    ds ← wrap_err (failed "getting daemonset %s/%s: %w" ns ds_name) (api.get_daemon_set ns ds_name)
    selector_ok (api.parse_selector ds.selector)
          (failed "parsing daemonset %s/%s selector: %w" ns ds_name)
        >>= λ _. do
          pods ←
              wrap_err (failed "listing pods for daemonset %s/%s: %w" ns ds_name)
                (api.list_pods_by ns ds.selector)
          pod_or (find (λ p. p.node_name == node) pods)
              (errorf "daemonset %s/%s has no pod on node %s" (str ns (str ds_name (str node end))))
