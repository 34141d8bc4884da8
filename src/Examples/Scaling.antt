-- ===== src/Examples/Scaling.antt =====
-- Examples of the rollback of internal/playbooks/corek8s/crashloopbackoff.go and of the registry of
-- internal/registry/redis.go.
use k8s_ts_mcp.Common.{
  ℕ, suc, ◌+◌, ◌≤◌, String, Option, true, false, ◌≡◌, refl, none, some, List, [], ◌∷◌,
  if◌then◌else◌, eqb, lookup, insert, delete, lookup-insert, lookup-delete, foreign, Error,
  ok_injective, Result, ok, err, Call, Map, arith, Bool-cases, inl, inr, sym, ap, ◌∙◌,
}
use k8s_ts_mcp.ExecEngine.{AttemptResult, run_one, roll_back}
use k8s_ts_mcp.Redact.{empty, field, num, redact_fields, redact_value}
use k8s_ts_mcp.K8sClient.{Api, Deployment}
use k8s_ts_mcp.K8sClient.Deployments.{
  replicas_or_one, deployment_replicas, update_replicas, scale_deployment,
}
use k8s_ts_mcp.Playbooks.CoreK8s.CrashLoop.{scale_action}
use k8s_ts_mcp.Playbooks.CoreK8s.Restoring.{ServesReplicas, scaling_is_undone}
use k8s_ts_mcp.Registry.{InMemoryRecord, live_addr}
use k8s_ts_mcp.Registry.Directory.{Announces}
use k8s_ts_mcp.Registry.Redis.{Client, announce_in_redis, forget_in_redis, lookup_in_redis}
use k8s_ts_mcp.Registry.Shared.{
  KeepsPromises, Operation, announcing, forgetting, IsTimed, perform_all, timeline, redis_refines,
}
use k8s_ts_mcp.Examples.Watching.{texts}

-- A deployment by the replicas wanted of it, and how often it was updated; the second update fails.
abbrev Cluster : Type 0
Cluster = ℕ × ℕ

abbrev failing : {A : Type 0} → Call Cluster A
failing w = (err (foreign "no such object"), w)

abbrev deployment : ℕ → Deployment
deployment n = record {
  selector = "";
  replicas = some n;
  ready_replicas = 0;
  containers = [];
  restarted_at = none;
}

abbrev updated : Deployment → Call Cluster (Unit {0})
updated d (n, k) =
    if eqb k 1
    then (err (foreign "conflict"), (n, suc k))
    else (ok tt, (replicas_or_one d.replicas, suc k))

abbrev api : Api Cluster
api = record {
  get_pod = λ ns name. failing;
  list_pods = λ ns. failing;
  list_pods_by = λ ns sel. failing;
  delete_pod = λ ns name. failing;
  get_logs = λ ns name previous tail. failing;
  get_deployment = λ ns name w. (ok (deployment w.0), w);
  update_deployment = λ ns name. updated;
  get_replica_set = λ ns name. failing;
  get_daemon_set = λ ns name. failing;
  delete_hpa = λ ns name. failing;
  scaled_object_conditions = λ ns name. failing;
  list_nodes = failing;
  get_node = λ name. failing;
  parse_selector = λ s. none;
  now = λ w. 0;
  wait = λ d w. (none, w);
  sleep = λ d w. w;
  timestamp = λ w. "now";
  sprintf = λ f args. f;
  to_lower = λ s. s;
  scale_quantity = λ q. "1Gi";
}

refused :
    {A : Type 0} (e : Error) (w w' : Cluster) (a : A)
    → ◌≡◌ {A = Result A × Cluster} (err e, w) (ok a, w')
    → ⊥
refused e w w' a h = ground arith

updated_writes :
    (w w' : Cluster) (d : Deployment)
    → updated d w ≡ (ok tt, w')
    → w'.0 ≡ replicas_or_one d.replicas
updated_writes (n, k) w' d h = elim (Bool-cases (eqb k 1)) [
  | inl second ↦ absurd (refused (foreign "conflict") (n, suc k) w' tt (simp second at h))
  | inr other ↦
      let now = (ok_injective tt tt (replicas_or_one d.replicas, suc k) w' (simp other at h)).1 in
      ap (λ v. v.0) (sym now)
]

serves : ServesReplicas api "shop" "web"
serves = record {
  wanted = λ w. w.0;
  get_reads = λ w w' d h.
      ap (λ (d : Deployment). replicas_or_one d.replicas)
        (sym (ok_injective (deployment w.0) d w w' h).0);
  update_writes = updated_writes;
}

-- The second update of the run fails, and the third brings the replicas back.
abbrev attempted : AttemptResult
attempted = record {
  action = "scale deployment down and up";
  description =
      "kubectl scale deployment %s -n %s --replicas=0 && kubectl scale deployment %s -n %s --replicas=<original>";
  risk = "medium";
  output = "";
  error = "scaling deployment %s/%s to %d: %w";
  snapshot = some (field "replicas" (num 3) empty);
  validated = false;
  rolled_back = true;
  skipped = false;
}

scaling_is_undone_example :
    (attempted.validated ≡ false) × (serves.wanted (3, 3) ≡ serves.wanted (3, 0))
unfolding scale_action deployment_replicas update_replicas scale_deployment run_one roll_back
    redact_fields redact_value
scaling_is_undone_example =
    scaling_is_undone api "shop" "web" serves texts (3, 0) (3, 3) attempted refl refl

-- Redis by what its keys hold and the time.
abbrev Keys : Type 0
Keys = Map InMemoryRecord × ℕ

abbrev client : Client Keys
client = record {
  set = λ k v ttl (m, t). (ok tt, (insert k (record { addr = v; expires = t + ttl }) m, t));
  get = λ k (m, t). (ok (live_addr t (lookup k m)), (m, t));
  del = λ k (m, t). (ok tt, (delete k m, t));
  scan = λ pattern (m, t). (ok [], (m, t));
}

live_finds :
    (t : ℕ) (o : Option InMemoryRecord) (v : String)
    → live_addr t o ≡ some v
    → (until : ℕ) × (o ≡ some (record { addr = v; expires = until })) × (t ≤ until)
live_finds t none v h = absurd (cc)
live_finds t (some r) v h = (
  r.expires,
  ap (λ a. some (record { addr = a; expires = r.expires })) (ground arith),
  ground arith,
)

live_misses :
    (t : ℕ) (o : Option InMemoryRecord) (v : String) (until : ℕ)
    → live_addr t o ≡ none
    → o ≡ some (record { addr = v; expires = until })
    → until ≤ t
live_misses t o v until h e =
    let gone : live_addr t (some (record { addr = v; expires = until })) ≡ none = rw e at h in
    ground arith

abbrev keeps : KeepsPromises client
unfolding lookup insert delete
keeps = record {
  clock = λ w. w.1;
  stored = λ w k. lookup k w.0;
  set_stores = λ k v ttl (m, t) w' timed h other.
      ap (λ (v : Keys). lookup other v.0)
        (sym (ok_injective tt tt (insert k (record { addr = v; expires = t + ttl }) m, t) w' h).1)
      ∙ lookup-insert m (record { addr = v; expires = t + ttl }) k other;
  del_removes = λ k (m, t) w' h other.
      ap (λ (v : Keys). lookup other v.0) (sym (ok_injective tt tt (delete k m, t) w' h).1)
      ∙ lookup-delete m k other;
  get_finds = λ k v (m, t) w' h.
      live_finds t (lookup k m) v (ok_injective (live_addr t (lookup k m)) (some v) (m, t) w' h).0;
  get_misses = λ k v until (m, t) w' h e.
      live_misses t (lookup k m) v until
        (ok_injective (live_addr t (lookup k m)) none (m, t) w' h).0 e;
}

-- The second replica takes the cluster over, and the first one's record of another is forgotten.
abbrev operations : List Operation
operations =
    announcing "spoke-1" "10.0.0.1:7443" 30000000
    ∷ announcing "spoke-2" "10.0.0.1:7443" 30000000
    ∷ announcing "spoke-1" "10.0.0.2:7443" 30000000
    ∷ forgetting "spoke-2"
    ∷ []

abbrev tick : Keys → Keys
tick (m, t) = (m, suc t)

abbrev after : Keys
after = (perform_all client keeps tick operations ([], 0)).1

timed : IsTimed 30000000
timed = (30, omega arith, refl)

redis_refines_example :
    (until : ℕ) × Announces "spoke-1" "10.0.0.2:7443" until
      (timeline client keeps tick operations ([], 0))
    × (4 ≤ until)
unfolding announce_in_redis forget_in_redis lookup_in_redis lookup insert delete perform_all
    timeline
redis_refines_example =
    redis_refines client keeps tick operations "spoke-1" ([], 0) after after (some "10.0.0.2:7443")
      (λ v. refl) (timed, (timed, (timed, (tt, tt)))) refl refl refl
