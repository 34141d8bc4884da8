-- ===== src/McpTools/Gates.antt =====
-- When a tool reaches the agent: internal/mcptools/mcptools.go, troubleshoot and approve_action.
-- A call that a handler does not make is one whose function may be replaced by any other.
use k8s_ts_mcp.Common.{
  String, Bool, true, false, ◌≡◌, ◌≢◌, refl, sym, subst, ◌⊎◌, inl, inr, Option, none, some, ◌==◌,
  find, Result, ok, err, Call, continue, continue_same, bind-ok, pure, arith, Bool-cases,
}
use k8s_ts_mcp.Policy.{
  Tier, RiskLevel, Decision, decide, highest_tier, caller_tier, tier_read_only, tier_prod_admin,
  risk_high,
}
use k8s_ts_mcp.Policy.Table.{granted, may_execute}
use k8s_ts_mcp.Policy.Laws.{dry_run_unless}
use k8s_ts_mcp.Playbooks.{Signal}
use k8s_ts_mcp.AgentCore.{Diagnosis, Execution}
use k8s_ts_mcp.Audit.{Entry, ProposedActionRecord}
use k8s_ts_mcp.Transport.{Response}
use k8s_ts_mcp.McpTools.{Server, cluster_env, max_risk, check_cluster_scope, answered}
use k8s_ts_mcp.McpTools.Troubleshoot.{
  TroubleshootIn, decided, request_for, carry_out, remediate, respond, troubleshoot, signal_of,
  runbook_fallback, confirm_via_logs,
}
use k8s_ts_mcp.McpTools.Approve.{
  ApproveActionIn, ApproveActionOut, authorise, run_approval, approve_action, check_target,
  check_tier, execution_off, get_entry, with_entry, with_target, with_tier,
}

module _ {W : Type 0} (s : Server W)
    (execute' : String → String → Signal → Call W (Response Execution)) where
  -- The same server over a hub that executes in another way.
  abbrev pub with_execute : Server W
  with_execute = record s { hub = record s.hub { execute = execute' } }

  carry_out-dry :
      (x : TroubleshootIn) (d : Diagnosis) (decision : Decision) (w : W)
      → decision.dry_run ≡ true
      → carry_out s x d decision w ≡ carry_out with_execute x d decision w
  carry_out-dry x d decision w dry = elim (Bool-cases decision.allow) [
    | inl allowed ↦ simp (dry, allowed) refl
    | inr denied ↦ simp (dry, denied) refl
  ]

  remediate-decided :
      (x : TroubleshootIn) (d : Diagnosis) (r : Result Decision) (w : W)
      → ((decision : Decision) → r ≡ ok decision → decision.dry_run ≡ true)
      → continue (decided s r w) (carry_out s x d) (λ e w. (err e, w))
        ≡ continue (decided with_execute r w) (carry_out with_execute x d) (λ e w. (err e, w))
  remediate-decided x d (err e) w dry = refl
  remediate-decided x d (ok decision) w dry = carry_out-dry x d decision w (dry decision refl)

  -- No tier of the caller's groups may execute anything on the cluster.
  abbrev pub Unable : String → Type 0
  Unable id =
      (r : RiskLevel)
      → granted (highest_tier s.policy s.caller_groups)
          (λ t. may_execute t (cluster_env s id) r s.execution_flag)
        ≡ false

  remediate-Unable :
      (x : TroubleshootIn) (d : Diagnosis) (w : W)
      → Unable x.cluster_id
      → remediate s x d w ≡ remediate with_execute x d w
  unfolding cluster_env
  remediate-Unable x d w unable =
      remediate-decided x d (decide s.policy (request_for s x d)) w (λ decision e.
        dry_run_unless s.policy (request_for s x d) decision e
          (unable (max_risk d.proposed_actions)))

  respond-Unable :
      (x : TroubleshootIn) (d : Diagnosis) (w : W)
      → Unable x.cluster_id
      → respond s x d w ≡ respond with_execute x d w
  unfolding runbook_fallback confirm_via_logs
  respond-Unable x d w unable = elim (Bool-cases d.no_playbook) [
    | inl none_known ↦ simp none_known refl
    | inr known ↦ simp known (remediate-Unable x d w unable)
  ]

  -- Where the caller's tier may execute nothing on the cluster, `troubleshoot` does not call
  -- `Execute`: whatever that would do, the answer and the world are the same.
  pub troubleshoot-Unable :
      (x : TroubleshootIn) (w : W)
      → Unable x.cluster_id
      → troubleshoot s x w ≡ troubleshoot with_execute x w
  unfolding troubleshoot
  troubleshoot-Unable x w unable =
      continue_same (check_cluster_scope s x.cluster_id w) _ _ _ (λ info w1.
        continue_same (s.hub.diagnose x.cluster_id (signal_of x) w1) _ _ _ (λ resp w2.
          continue_same (answered x.cluster_id resp w2) _ _ _
            (λ d w3. respond-Unable x d w3 unable)))

  granted_read_only :
      (o : Option Tier) (env : String) (r : RiskLevel) (flag : Bool)
      → (o ≡ none) ⊎ (o ≡ some tier_read_only)
      → granted o (λ t. may_execute t env r flag) ≡ false
  granted_read_only o env r flag (inl e) = rw e refl
  granted_read_only o env r flag (inr e) = rw e (ground arith)

  granted_off :
      (o : Option Tier) (env : String) (r : RiskLevel)
      → granted o (λ t. may_execute t env r false) ≡ false
  granted_off none env r = refl
  granted_off (some t) env r = refl

  -- With the hub's execution flag off, or for a caller without a tier or at the readonly one,
  -- `troubleshoot` does not call the agent's `Execute`: with any other function in its place the
  -- answer and the world are the same.
  pub gated_never_executes :
      (x : TroubleshootIn) (w : W)
      → (s.execution_flag ≡ false)
        ⊎ (highest_tier s.policy s.caller_groups ≡ none)
        ⊎ (highest_tier s.policy s.caller_groups ≡ some tier_read_only)
      → troubleshoot s x w ≡ troubleshoot with_execute x w
  gated_never_executes x w (inl off) = troubleshoot-Unable x w (λ r.
      subst
        (λ flag.
          granted (highest_tier s.policy s.caller_groups)
            (λ t. may_execute t (cluster_env s x.cluster_id) r flag)
          ≡ false)
        (sym off) (granted_off _ (cluster_env s x.cluster_id) r))
  gated_never_executes x w (inr low) =
      troubleshoot-Unable x w
        (λ r. granted_read_only _ (cluster_env s x.cluster_id) r s.execution_flag low)

module _ {W : Type 0} (s : Server W) where
  -- What the handler has made sure of before it asks an agent to run the named action.
  pub record IsApproved (x : ApproveActionIn) (e : Entry) (t : Tier) : Type 0 where
    pub target : ProposedActionRecord
    pub is_proposed : find (λ a. a.name == x.action_name) e.proposed_actions ≡ some target
    pub is_high : (target.risk == risk_high) ≡ true
    pub caller_is : caller_tier s.policy s.caller_groups ≡ some t
    pub is_admin : (t == tier_prod_admin) ≡ true

  check_target-ok :
      (x : ApproveActionIn) (o : Option ProposedActionRecord) (w w' : W)
      → check_target s x o w ≡ (ok tt, w')
      → (a : ProposedActionRecord) × (o ≡ some a) × ((a.risk == risk_high) ≡ true)
  check_target-ok x o w w' e = ground arith

  check_tier-ok :
      (o : Option Tier) (t : Tier) (w w' : W)
      → check_tier s o w ≡ (ok t, w')
      → (o ≡ some t) × ((t == tier_prod_admin) ≡ true)
  check_tier-ok o t w w' e = ground arith

  same_pair :
      (e e' : Entry) (t t' : Tier) (w w' : W)
      → ◌≡◌ {A = Result (Entry × Tier) × W} (ok (e, t), w) (ok (e', t'), w')
      → (e ≡ e') × (t ≡ t')
  same_pair e e' t t' w w' h = ground arith

  authorise-IsApproved :
      (x : ApproveActionIn) (w w' : W) (e : Entry) (t : Tier)
      → authorise s x w ≡ (ok (e, t), w')
      → IsApproved x e t
  authorise-IsApproved x w w' e t h =
      let (e1, w1, got, h1) = bind-ok (get_entry s x.incident_id w) (with_entry s x) (e, t) w' h in
      let (info, w2, within, h2) =
        bind-ok (check_cluster_scope s e1.cluster_id w1) (λ _. with_target s x e1) (e, t) w' h1 in
      let (u, w3, targeted, h3) =
        bind-ok (check_target s x (find (λ a. a.name == x.action_name) e1.proposed_actions) w2)
          (λ _. with_tier s e1) (e, t) w' h2 in
      let (t1, w4, tiered, h4) =
        bind-ok (check_tier s (caller_tier s.policy s.caller_groups) w3) (λ t. pure (e1, t)) (e, t)
          w' h3 in
      let same : (e1 ≡ e) × (t1 ≡ t) = same_pair e1 e t1 t w4 w' h4 in
      let (target, proposed, high) =
        check_target-ok x (find (λ a. a.name == x.action_name) e1.proposed_actions) w2 w3
          targeted in
      let (caller, admin) = check_tier-ok (caller_tier s.policy s.caller_groups) t1 w3 w4 tiered in
      let approved : IsApproved x e1 t1 = record {
        target = target;
        is_proposed = proposed;
        is_high = high;
        caller_is = caller;
        is_admin = admin;
      } in
      subst (λ e. IsApproved x e t) same.0 (subst (λ t. IsApproved x e1 t) same.1 approved)

  refused_not_ok :
      (w w' : W) (out : ApproveActionOut)
      → ◌≢◌ {A = Result ApproveActionOut × W} (err execution_off, w) (ok out, w')
  refused_not_ok w w' out e = ground arith

  -- An approval that succeeds had the flag on and passed the checks of `authorise`: the incident
  -- proposed the named action with high risk, and the caller's tier is prod-admin.
  pub approval_is_authorised :
      (x : ApproveActionIn) (w w' : W) (out : ApproveActionOut)
      → approve_action s x w ≡ (ok out, w')
      → (s.execution_flag ≡ true)
        × (e : Entry) × (t : Tier) × (w1 : W) × (authorise s x w ≡ (ok (e, t), w1))
        × IsApproved x e t
  unfolding approve_action
  approval_is_authorised x w w' out h = elim (Bool-cases s.execution_flag) [
    | inr off ↦ absurd (refused_not_ok w w' out (simp off at h))
    | inl on ↦
        let ((e, t), w1, granted, _) =
          bind-ok (authorise s x w) (run_approval s x) out w' (simp on at h) in
        (on, e, t, w1, granted, authorise-IsApproved x w w1 e t granted)
  ]
