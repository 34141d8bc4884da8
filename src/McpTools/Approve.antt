-- ===== src/McpTools/Approve.antt =====
-- internal/mcptools/mcptools.go: the tools approve_action and get_postmortem.
use k8s_ts_mcp.Common.{
  ℕ, String, true, false, Option, none, some, [], ◌∷◌, ◌==◌, if◌then◌else◌, find, Error, errorf,
  end, str, cause, Call, ◌>>=◌, pure, raise, wrap_err,
}
use k8s_ts_mcp.Policy.{Tier, caller_tier, tier_prod_admin, risk_high}
use k8s_ts_mcp.Playbooks.{Signal}
use k8s_ts_mcp.AgentCore.{Attempt}
use k8s_ts_mcp.Audit.{SignalRecord, ProposedActionRecord, Entry}
use k8s_ts_mcp.Postmortem.{render}
use k8s_ts_mcp.McpTools.{Server, answered, check_cluster_scope}
use k8s_ts_mcp.McpTools.Troubleshoot.{to_result, stamped, append_entry}

pub record ApproveActionIn : Type 0 where
  pub incident_id : String
  pub action_name : String

pub record ApproveActionOut : Type 0 where
  pub incident_id : String
  pub original_incident_id : String
  pub attempt : Attempt

abbrev to_signal : SignalRecord → Signal
to_signal r = record {
  kind = r.kind;
  namespace = r.namespace;
  name = r.name;
  node_name = r.node_name;
}

abbrev pub execution_off : Error
execution_off =
    errorf
      "execução está desligada globalmente neste hub (--execution-enabled=false) — aprovação explícita não é uma exceção a isso"
      end

abbrev pub no_incident : String → Error
no_incident id = errorf "incidente %q não encontrado" (str id end)

abbrev pub not_proposed : ApproveActionIn → Error
not_proposed x =
    errorf "ação %q não foi proposta no incidente %s" (str x.action_name (str x.incident_id end))

abbrev pub not_high : ApproveActionIn → ProposedActionRecord → Error
not_high x a =
    errorf
      "ação %q é risco %q, não \"high\" — não precisa de aprovação explícita, chame troubleshoot de novo"
      (str x.action_name (str a.risk end))

abbrev pub not_admin : Error
not_admin = errorf "aprovar uma ação de alto risco requer tier %q" (str tier_prod_admin end)

module _ {W : Type 0} (s : Server W) where
  open s use {hub, system, audit}

  abbrev pub found_entry : String → Option Entry → Call W Entry
  found_entry id none = raise (no_incident id)
  found_entry id (some e) = pure e

  -- The incident of an id, from the audit store.
  abbrev pub get_entry : String → Call W Entry
  get_entry id = do
    o ← wrap_err (λ e. errorf "buscando incidente %s: %w" (str id (cause e end))) (audit.get id)
    found_entry id o

  abbrev pub check_target : ApproveActionIn → Option ProposedActionRecord → Call W (Unit {0})
  check_target x none = raise (not_proposed x)
  check_target x (some a) = if a.risk == risk_high then pure tt else raise (not_high x a)

  abbrev pub check_tier : Option Tier → Call W Tier
  check_tier none = raise not_admin
  check_tier (some t) = if t == tier_prod_admin then pure t else raise not_admin

  abbrev pub approving : String → Error → Error
  approving id e = errorf "executando aprovação no cluster %s: %w" (str id (cause e end))

  abbrev approval_entry : ApproveActionIn → Entry → Tier → Attempt → String × ℕ → Entry
  approval_entry x e tier a stamp = record {
    id = stamp.0;
    time = stamp.1;
    cluster_id = e.cluster_id;
    groups = s.caller_groups;
    playbook_id = e.playbook_id;
    summary =
        system.sprintf "aprovação explícita de %q para o incidente %s"
          (str x.action_name (str x.incident_id end));
    decision = record {
      allow = true;
      dry_run = false;
      reason = "ação de alto risco aprovada explicitamente por chamador prod-admin";
      tier = tier;
    };
    signal = e.signal;
    meta = [];
    proposed_actions = [];
    proposed_commands = [];
    result = some (record {
      playbook_id = e.playbook_id;
      resolved = a.validated;
      attempts = to_result a ∷ [];
    });
  }

  abbrev pub with_tier : Entry → Call W (Entry × Tier)
  with_tier e = do t ← check_tier (caller_tier s.policy s.caller_groups); pure (e, t)

  abbrev pub with_target : ApproveActionIn → Entry → Call W (Entry × Tier)
  with_target x e = do
    _ ← check_target x (find (λ a. a.name == x.action_name) e.proposed_actions)
    with_tier e

  abbrev pub with_entry : ApproveActionIn → Entry → Call W (Entry × Tier)
  with_entry x e = do _ ← check_cluster_scope s e.cluster_id; with_target x e

  -- What the handler asks before it reaches the agent: the incident, and the caller's tier.
  abbrev pub authorise : ApproveActionIn → Call W (Entry × Tier)
  authorise x = do e ← get_entry x.incident_id; with_entry x e

  -- The rest of the handler.
  abbrev pub run_approval : ApproveActionIn → Entry × Tier → Call W ApproveActionOut
  run_approval x (e, t) = do
    resp ←
        wrap_err (approving e.cluster_id)
          (hub.approve_action e.cluster_id e.playbook_id (to_signal e.signal) x.action_name e.meta)
    a ← answered e.cluster_id resp
    stamp ← stamped s
    _ ← append_entry s (approval_entry x e t a stamp)
    pure (record { incident_id = stamp.0; original_incident_id = x.incident_id; attempt = a })

  abbrev pub authorised : ApproveActionIn → Call W ApproveActionOut
  authorised x = do granted ← authorise x; run_approval x granted

  unfoldable pub approve_action : ApproveActionIn → Call W ApproveActionOut
  unfolding check_cluster_scope find caller_tier
  approve_action x = if s.execution_flag then authorised x else raise execution_off

  unfoldable pub get_postmortem : String → Call W String
  get_postmortem id = do e ← get_entry id; pure (render system.formats e)
