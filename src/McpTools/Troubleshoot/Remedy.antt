-- ===== src/McpTools/Troubleshoot/Remedy.antt =====
-- internal/mcptools/mcptools.go, the tool troubleshoot: what it takes and answers, and what it does
-- with a diagnosis.
use k8s_ts_mcp.Common.{
  ℕ, String, Bool, true, false, Option, none, some, List, [], map, Error, errorf, end, str, cause,
  Result, ok, err, Call, ◌>>=◌, pure, raise, wrap_err,
}
use k8s_ts_mcp.Policy.{Decision, Request, decide}
use k8s_ts_mcp.ExecEngine.{AttemptResult, RunResult}
use k8s_ts_mcp.Playbooks.{Signal}
use k8s_ts_mcp.AgentCore.{ProposedAction, Attempt, Diagnosis, Execution}
use k8s_ts_mcp.Audit.{new_id, SignalRecord, ProposedActionRecord, Entry}
use k8s_ts_mcp.McpTools.{Server, answered, max_risk, cluster_env}

pub record TroubleshootIn : Type 0 where
  pub cluster_id : String
  pub kind : String
  pub namespace : String
  pub name : String
  pub node_name : String

pub record TroubleshootOut : Type 0 where
  pub incident_id : String
  pub playbook_id : String
  pub summary : String
  pub allowed : Bool
  pub dry_run : Bool
  pub reason : String
  pub proposed_commands : List String
  pub resolved : Bool
  pub attempts : List Attempt

abbrev pub signal_of : TroubleshootIn → Signal
signal_of x = record {
  kind = x.kind;
  namespace = x.namespace;
  name = x.name;
  node_name = x.node_name;
}

abbrev pub record_of : TroubleshootIn → SignalRecord
record_of x = record {
  kind = x.kind;
  namespace = x.namespace;
  name = x.name;
  node_name = x.node_name;
}

abbrev pub to_result : Attempt → AttemptResult
to_result a = record {
  action = a.action;
  description = a.description;
  risk = a.risk;
  output = a.output;
  error = a.error;
  snapshot = none;
  validated = a.validated;
  rolled_back = a.rolled_back;
  skipped = a.skipped;
}

abbrev proposed_record : ProposedAction → ProposedActionRecord
proposed_record a = record { name = a.name; description = a.description; risk = a.risk }

-- What a branch of the handler adds to the entry and to the answer.
pub record Addition : Type 0 where
  pub commands : List String
  pub resolved : Bool
  pub attempts : List Attempt
  pub result : Option RunResult

abbrev pub nothing_run : List String → Addition
nothing_run commands = record {
  commands = commands;
  resolved = false;
  attempts = [];
  result = none;
}

abbrev pub executed : String → Execution → Addition
executed playbook_id x = record {
  commands = [];
  resolved = x.resolved;
  attempts = x.attempts;
  result = some (record {
    playbook_id = playbook_id;
    resolved = x.resolved;
    attempts = map to_result x.attempts;
  });
}

module _ {W : Type 0} (s : Server W) where
  open s use {hub, system}

  abbrev pub command : ProposedAction → String
  command a = system.sprintf "[%s] %s — %s" (str a.risk (str a.name (str a.description end)))

  abbrev pub executing : String → Error → Error
  executing id e = errorf "executando no cluster %s: %w" (str id (cause e end))

  -- The `switch` on the decision.
  abbrev pub act : TroubleshootIn → Diagnosis → (allow dry_run : Bool) → Call W Addition
  act x d false dry_run = pure (nothing_run [])
  act x d true true = pure (nothing_run (map command d.proposed_actions))
  act x d true false = do
    resp ← wrap_err (executing x.cluster_id) (hub.execute x.cluster_id d.playbook_id (signal_of x))
    e ← answered x.cluster_id resp
    pure (executed d.playbook_id e)

  abbrev pub decided : Result Decision → Call W Decision
  decided (ok d) = pure d
  decided (err e) = raise (errorf "avaliando política: %w" (cause e end))

  abbrev pub request_for : TroubleshootIn → Diagnosis → Request
  request_for x d = record {
    groups = s.caller_groups;
    cluster_env = cluster_env s x.cluster_id;
    action_risk = max_risk d.proposed_actions;
    execution_flag = s.execution_flag;
  }

  abbrev pub stamped : Call W (String × ℕ)
  stamped w =
      let (id, w') = new_id system.sprintf system.now system.random w in
      (ok (id, system.now w'), w')

  abbrev pub append_entry : Entry → Call W (Unit {0})
  append_entry e = wrap_err (λ x. errorf "gravando auditoria: %w" (cause x end)) (s.audit.append e)

  abbrev pub entry_for : TroubleshootIn → Diagnosis → Decision → String × ℕ → Addition → Entry
  entry_for x d decision stamp a = record {
    id = stamp.0;
    time = stamp.1;
    cluster_id = x.cluster_id;
    groups = s.caller_groups;
    playbook_id = d.playbook_id;
    summary = d.summary;
    decision = decision;
    signal = record_of x;
    meta = d.meta;
    proposed_actions = map proposed_record d.proposed_actions;
    proposed_commands = a.commands;
    result = a.result;
  }

  abbrev pub out_for : Diagnosis → Decision → String × ℕ → Addition → TroubleshootOut
  out_for d decision stamp a = record {
    incident_id = stamp.0;
    playbook_id = d.playbook_id;
    summary = d.summary;
    allowed = decision.allow;
    dry_run = decision.dry_run;
    reason = decision.reason;
    proposed_commands = a.commands;
    resolved = a.resolved;
    attempts = a.attempts;
  }

  abbrev pub acted_run :
      TroubleshootIn → Diagnosis → Decision → String × ℕ → Addition → Call W TroubleshootOut
  acted_run x d decision stamp a = do
    _ ← append_entry (entry_for x d decision stamp a)
    pure (out_for d decision stamp a)

  abbrev pub stamped_run :
      TroubleshootIn → Diagnosis → Decision → String × ℕ → Call W TroubleshootOut
  stamped_run x d decision stamp = do
    a ← act x d decision.allow decision.dry_run
    acted_run x d decision stamp a

  -- The part of the handler after the decision.
  abbrev pub carry_out : TroubleshootIn → Diagnosis → Decision → Call W TroubleshootOut
  carry_out x d decision = do stamp ← stamped; stamped_run x d decision stamp

  abbrev pub remediate : TroubleshootIn → Diagnosis → Call W TroubleshootOut
  remediate x d = do decision ← decided (decide s.policy (request_for x d)); carry_out x d decision
