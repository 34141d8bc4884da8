-- ===== src/McpTools/Troubleshoot/Fallback.antt =====
-- internal/mcptools/mcptools.go, the tool troubleshoot where no playbook knows the signal:
-- `runbookFallback` and `confirmViaLogs`.
use k8s_ts_mcp.Common.{
  cut, ℕ, String, append_text, Bool, true, false, not, ◌&&◌, ◌||◌, Option, none, some, List, [],
  ◌∷◌, ◌==◌, if◌then◌else◌, end, str, ok, Call, ◌>>=◌, pure, continue,
}
use k8s_ts_mcp.Policy.{Decision}
use k8s_ts_mcp.Audit.{Entry}
use k8s_ts_mcp.Transport.{Response}
use k8s_ts_mcp.Runbooks.{Runbook}
use k8s_ts_mcp.McpTools.{Server, Runbooks}
use k8s_ts_mcp.McpTools.Troubleshoot.Remedy.{TroubleshootIn, TroubleshootOut, stamped, append_entry}

module _ {W : Type 0} (s : Server W) where
  open s use {hub, system}

  abbrev no_empty : List String → Bool
  no_empty [] = false
  no_empty (_ ∷ _) = true

  -- The pod or the deployment whose log a runbook is confirmed by: namespace, name, deployment.
  abbrev own_source : TroubleshootIn → String × String × String
  own_source x = (x.namespace, x.name, "")

  abbrev cut_source : TroubleshootIn → Option (String × String) → String × String × String
  cut_source x none = own_source x
  cut_source x (some (before, after)) = (before, "", after)

  abbrev log_source : TroubleshootIn → Runbook → String × String × String
  log_source x rb =
      if not (rb.log_source == "") && not (rb.log_source == "self")
      then cut_source x (cut "/" rb.log_source)
      else own_source x

  abbrev unconfirmed : Runbook → String × List String
  unconfirmed rb = (rb.title, rb.body ∷ [])

  abbrev confirmed_by : Runbooks → Runbook → Response String → String × List String
  confirmed_by rs rb resp =
      if not (resp.error == "") || not (rs.matches_logs rb resp.value) then unconfirmed rb else (
        append_text rb.title " — confirmado pelo log (assinatura conhecida encontrada)",
        rb.body ∷ append_text "Evidência no log:\n" resp.value ∷ [],
      )

  unfoldable pub confirm_via_logs :
      Runbooks → TroubleshootIn → Runbook → W → (String × List String) × W
  confirm_via_logs rs x rb w =
      let (ns, name, dep) = log_source x rb in
      continue (hub.get_logs x.cluster_id ns name dep 0 w)
        (λ resp w'. (confirmed_by rs rb resp, w')) (λ e w'. (unconfirmed rb, w'))

  abbrev advise_by : Runbooks → TroubleshootIn → Option Runbook → W → (String × List String) × W
  advise_by rs x none w = (
    (
      system.sprintf
          "nenhum playbook automatizado nem entrada no catálogo de runbooks para o sinal %q — sem sugestão automática pra esse caso ainda."
          (str x.kind end),
      [],
    ),
    w,
  )
  advise_by rs x (some rb) w =
      if no_empty rb.log_signatures then confirm_via_logs rs x rb w else (unconfirmed rb, w)

  abbrev pub advise : TroubleshootIn → Option Runbooks → W → (String × List String) × W
  advise x none w = (
    (
      system.sprintf
          "nenhum playbook automatizado conhece o sinal %q, e não há catálogo de runbooks configurado neste hub."
          (str x.kind end),
      [],
    ),
    w,
  )
  advise x (some rs) w = advise_by rs x (rs.find_entry x.kind x.kind) w

  abbrev pub runbook_decision : Decision
  runbook_decision = record {
    allow = true;
    dry_run = true;
    reason =
        "sem playbook automatizado para esse sinal — resposta vem do catálogo de runbooks, sempre só como proposta";
    tier = "";
  }

  abbrev pub runbook_entry : TroubleshootIn → String × ℕ → String × List String → Entry
  runbook_entry x stamp advice = record {
    id = stamp.0;
    time = stamp.1;
    cluster_id = x.cluster_id;
    groups = s.caller_groups;
    playbook_id = "runbook";
    summary = advice.0;
    decision = runbook_decision;
    signal = record { kind = ""; namespace = ""; name = ""; node_name = "" };
    meta = [];
    proposed_actions = [];
    proposed_commands = advice.1;
    result = none;
  }

  abbrev pub runbook_out : String × ℕ → String × List String → TroubleshootOut
  runbook_out stamp advice = record {
    incident_id = stamp.0;
    playbook_id = "runbook";
    summary = advice.0;
    allowed = true;
    dry_run = true;
    reason = runbook_decision.reason;
    proposed_commands = advice.1;
    resolved = false;
    attempts = [];
  }

  abbrev pub advised_run :
      TroubleshootIn → String × ℕ → String × List String → Call W TroubleshootOut
  advised_run x stamp advice = do
    _ ← append_entry s (runbook_entry x stamp advice)
    pure (runbook_out stamp advice)

  abbrev pub advice_for : TroubleshootIn → Call W (String × List String)
  advice_for x w = let (a, w') = advise x s.runbooks w in (ok a, w')

  abbrev pub runbook_run : TroubleshootIn → String × ℕ → Call W TroubleshootOut
  runbook_run x stamp = do advice ← advice_for x; advised_run x stamp advice

  unfoldable pub runbook_fallback : TroubleshootIn → Call W TroubleshootOut
  runbook_fallback x = do stamp ← stamped s; runbook_run x stamp
