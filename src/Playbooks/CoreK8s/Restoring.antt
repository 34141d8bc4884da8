-- ===== src/Playbooks/CoreK8s/Restoring.antt =====
-- The rollback of "scale deployment down and up": internal/playbooks/corek8s/crashloopbackoff.go,
-- run by internal/execengine over an API server that keeps what it is given.
use k8s_ts_mcp.Common.{
  ℕ, String, true, false, ◌≡◌, refl, sym, ap, ◌∙◌, Option, none, some, Error, Result, ok, err,
  continue, Call, wrap_err-ok, arith,
}
use k8s_ts_mcp.Common.Ensures.{After, After-pure, After-bind}
use k8s_ts_mcp.Redact.{Fields}
use k8s_ts_mcp.ExecEngine.{State, AttemptResult, Texts, done, run_one}
use k8s_ts_mcp.ExecEngine.Rollback.{Restores, run_one_restores}
use k8s_ts_mcp.K8sClient.{Api, Deployment}
use k8s_ts_mcp.K8sClient.Deployments.{
  replicas_or_one, deployment_at, deployment_replicas, update_replicas, scale_deployment,
}
use k8s_ts_mcp.Playbooks.CoreK8s.CrashLoop.{replicas_in, scale_snapshot, scale_back, scale_action}

-- What an API server documents of reading and updating one deployment, of which `wanted` is the
-- number of replicas asked for.
pub record ServesReplicas {W : Type 0} (api : Api W) (ns dep : String) : Type 0 where
  pub wanted : W → ℕ
  pub get_reads :
      (w w' : W) (d : Deployment)
      → api.get_deployment ns dep w ≡ (ok d, w')
      → replicas_or_one d.replicas ≡ wanted w
  pub update_writes :
      (w w' : W) (d : Deployment)
      → api.update_deployment ns dep d w ≡ (ok tt, w')
      → wanted w' ≡ replicas_or_one d.replicas

module _ {W : Type 0} (api : Api W) (ns dep : String) (serves : ServesReplicas api ns dep) where
  open serves use {wanted}

  deployment_replicas-wanted :
      (w : W) → After (deployment_replicas api ns dep) w (λ n w'. n ≡ wanted w)
  unfolding deployment_replicas
  deployment_replicas-wanted w =
      After-bind (deployment_at api ns dep) _ w _
        λ d v got. After-pure _ v _ (serves.get_reads w v d (wrap_err-ok _ _ d v got))

  -- A snapshot that is taken.
  abbrev Shows : W → State → Type 0
  Shows w none = Unit
  Shows w (some fs) = replicas_in fs ≡ wanted w

  snapshot-wanted : (w : W) → After (scale_snapshot api ns dep) w (λ s w'. Shows w s)
  snapshot-wanted w =
      After-bind (deployment_replicas api ns dep) _ w _
        λ n v got. After-pure _ v _ ((deployment_replicas-wanted w).holds n v got)

  update_replicas-wanted :
      (n : ℕ) (d : Deployment) (w : W)
      → After (update_replicas api ns dep n d) w (λ _ w'. wanted w' ≡ n)
  unfolding update_replicas
  update_replicas-wanted n d w = record {
    holds = λ _ w' h.
        serves.update_writes w w' (record d { replicas = some n }) (wrap_err-ok _ _ tt w' h);
  }

  scale_deployment-wanted :
      (n : ℕ) (w : W) → After (scale_deployment api ns dep n) w (λ out w'. wanted w' ≡ n)
  unfolding scale_deployment
  scale_deployment-wanted n w = After-bind (deployment_at api ns dep) _ w _ λ d v got.
      After-bind (update_replicas api ns dep n d) _ v _
        λ _ u updated. After-pure _ u _ ((update_replicas-wanted n d v).holds tt u updated)

  scale_back-wanted :
      (n : ℕ) (w' : W) (r : Result String × W)
      → ((out : String) (v : W) → r ≡ (ok out, v) → wanted v ≡ n)
      → continue {B = Option Error × W} r (λ _ w'. (none, w')) (λ e w'. (some e, w')) ≡ (none, w')
      → wanted w' ≡ n
  scale_back-wanted n w' (ok out, v) finished h = ap (λ r. wanted r.1) (sym h) ∙ finished out v refl
  scale_back-wanted n w' (err e, v) finished h = absurd (ground arith)

  use_snapshot :
      (s : Call W State) (w w1 : W) (fs : Fields)
      → (scale_action api ns dep).snapshot ≡ some s
      → s w ≡ (ok (some fs), w1)
      → scale_snapshot api ns dep w ≡ (ok (some fs), w1)
  unfolding scale_action
  use_snapshot s w w1 fs e h =
      let same : scale_snapshot api ns dep ≡ s = cc in ap (λ f. f w) same ∙ h

  use_rollback :
      (g : Fields → W → Option Error × W) (w w' : W) (fs : Fields)
      → (scale_action api ns dep).rollback ≡ some g
      → g fs w ≡ (none, w')
      → scale_back api ns dep fs w ≡ (none, w')
  unfolding scale_action
  use_rollback g w w' fs e h =
      let same : scale_back api ns dep ≡ g = cc in ap (λ f. f fs w) same ∙ h

  scale_action-Restores : Restores wanted (scale_action api ns dep)
  unfolding scale_action
  scale_action-Restores s g w w1 fs w2 w3 es eg taken back =
      let back' : scale_back api ns dep fs w2 ≡ (none, w3) = use_rollback g w2 w3 fs eg back in
      scale_back-wanted (replicas_in fs) w3 (scale_deployment api ns dep (replicas_in fs) w2)
        (λ out v h. (scale_deployment-wanted (replicas_in fs) w2).holds out v h) back'
      ∙ (snapshot-wanted w).holds (some fs) w1 (use_snapshot s w w1 fs es taken)

  -- An attempt to scale the deployment down and up that is recorded as rolled back was not validated,
  -- and as many replicas are wanted as before it, where the API server keeps what it is given.
  pub scaling_is_undone :
      (x : Texts) (w w' : W) (t : AttemptResult)
      → run_one x (scale_action api ns dep) w ≡ (done t, w')
      → t.rolled_back ≡ true
      → (t.validated ≡ false) × (wanted w' ≡ wanted w)
  scaling_is_undone x = run_one_restores x wanted (scale_action api ns dep) scale_action-Restores
