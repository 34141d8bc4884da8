-- ===== src/McpTools/Record.antt =====
-- What troubleshoot records of its answers: internal/mcptools/mcptools.go.
use k8s_ts_mcp.Common.{
  ◌≡◌, refl, subst, inl, inr, Result, ok, bind-ok, wrap_err-ok, ok_injective, pure, Bool-cases,
}
use k8s_ts_mcp.Policy.{Decision, decide}
use k8s_ts_mcp.AgentCore.{Diagnosis}
use k8s_ts_mcp.Audit.{Entry}
use k8s_ts_mcp.McpTools.{Server, answered, check_cluster_scope}
use k8s_ts_mcp.McpTools.Troubleshoot.{
  TroubleshootIn, TroubleshootOut, act, decided, request_for, stamped, append_entry, entry_for,
  out_for, carry_out, remediate, respond, runbook_fallback, troubleshoot, signal_of, runbook_entry,
  runbook_out, acted_run, stamped_run, advised_run, runbook_run, advice_for, diagnosed_run,
  scoped_run,
}

module _ {W : Type 0} (s : Server W) (x : TroubleshootIn) where
  -- The entry was stored last, and it says of the incident what the caller is told: its id, the
  -- playbook, the decision and the commands, with the cluster and the caller's groups.
  pub record IsRecorded (out : TroubleshootOut) (w' : W) : Type 0 where
    pub entry : Entry
    pub before : W
    pub stored : s.audit.append entry before ≡ (ok tt, w')
    pub same_id : entry.id ≡ out.incident_id
    pub same_cluster : entry.cluster_id ≡ x.cluster_id
    pub same_playbook : entry.playbook_id ≡ out.playbook_id
    pub same_groups : entry.groups ≡ s.caller_groups
    pub same_allow : entry.decision.allow ≡ out.allowed
    pub same_dry_run : entry.decision.dry_run ≡ out.dry_run
    pub same_commands : entry.proposed_commands ≡ out.proposed_commands

  stored_ok :
      (e : Entry) (w w' : W) → append_entry s e w ≡ (ok tt, w') → s.audit.append e w ≡ (ok tt, w')
  stored_ok e w w' h = wrap_err-ok _ (s.audit.append e w) tt w' h

  IsRecorded-same :
      (out out' : TroubleshootOut) (w w' : W)
      → ◌≡◌ {A = Result TroubleshootOut × W} (ok out, w) (ok out', w')
      → IsRecorded out w
      → IsRecorded out' w'
  IsRecorded-same out out' w w' h r =
      let (same, at) = ok_injective out out' w w' h in
      subst (λ o. IsRecorded o w') same (subst (λ v. IsRecorded out v) at r)

  carry_out-IsRecorded :
      (d : Diagnosis) (decision : Decision) (w w' : W) (out : TroubleshootOut)
      → carry_out s x d decision w ≡ (ok out, w')
      → IsRecorded out w'
  carry_out-IsRecorded d decision w w' out h =
      let (stamp, w1, stamped1, h1) = bind-ok (stamped s w) (stamped_run s x d decision) out w' h in
      let (a, w2, acted, h2) =
        bind-ok (act s x d decision.allow decision.dry_run w1) (acted_run s x d decision stamp) out
          w' h1 in
      let (u, w3, stored, h3) =
        bind-ok (append_entry s (entry_for s x d decision stamp a) w2)
          (λ _. pure (out_for s d decision stamp a)) out w' h2 in
      IsRecorded-same (out_for s d decision stamp a) out w3 w' h3 (record {
        entry = entry_for s x d decision stamp a;
        before = w2;
        stored = stored_ok _ w2 w3 stored;
        same_id = refl;
        same_cluster = refl;
        same_playbook = refl;
        same_groups = refl;
        same_allow = refl;
        same_dry_run = refl;
        same_commands = refl;
      })

  runbook-IsRecorded :
      (w w' : W) (out : TroubleshootOut) → runbook_fallback s x w ≡ (ok out, w') → IsRecorded out w'
  unfolding runbook_fallback
  runbook-IsRecorded w w' out h =
      let (stamp, w1, _, h1) = bind-ok (stamped s w) (runbook_run s x) out w' h in
      let (advice, w2, _, h2) = bind-ok (advice_for s x w1) (advised_run s x stamp) out w' h1 in
      let (u, w3, stored, h3) =
        bind-ok (append_entry s (runbook_entry s x stamp advice) w2)
          (λ _. pure (runbook_out s stamp advice)) out w' h2 in
      IsRecorded-same (runbook_out s stamp advice) out w3 w' h3 (record {
        entry = runbook_entry s x stamp advice;
        before = w2;
        stored = stored_ok _ w2 w3 stored;
        same_id = refl;
        same_cluster = refl;
        same_playbook = refl;
        same_groups = refl;
        same_allow = refl;
        same_dry_run = refl;
        same_commands = refl;
      })

  decided-IsRecorded :
      (d : Diagnosis) (w w' : W) (out : TroubleshootOut)
      → remediate s x d w ≡ (ok out, w')
      → IsRecorded out w'
  decided-IsRecorded d w w' out h =
      let (decision, w1, _, h1) =
        bind-ok (decided s (decide s.policy (request_for s x d)) w) (carry_out s x d) out w' h in
      carry_out-IsRecorded d decision w1 w' out h1

  respond-IsRecorded :
      (d : Diagnosis) (w w' : W) (out : TroubleshootOut)
      → respond s x d w ≡ (ok out, w')
      → IsRecorded out w'
  respond-IsRecorded d w w' out h = elim (Bool-cases d.no_playbook) [
    | inl none_known ↦ runbook-IsRecorded w w' out (simp none_known at h)
    | inr known ↦ decided-IsRecorded d w w' out (simp known at h)
  ]

  -- Every answer of `troubleshoot` is of an incident that was just recorded, with the decision and
  -- the commands that the caller is given.
  pub troubleshoot-IsRecorded :
      (w w' : W) (out : TroubleshootOut) → troubleshoot s x w ≡ (ok out, w') → IsRecorded out w'
  unfolding troubleshoot
  troubleshoot-IsRecorded w w' out h =
      let (info, w1, _, h1) =
        bind-ok (check_cluster_scope s x.cluster_id w) (λ _. scoped_run s x) out w' h in
      let (resp, w2, _, h2) =
        bind-ok (s.hub.diagnose x.cluster_id (signal_of x) w1) (diagnosed_run s x) out w' h1 in
      let (d, w3, _, h3) = bind-ok (answered x.cluster_id resp w2) (respond s x) out w' h2 in
      respond-IsRecorded d w3 w' out h3
