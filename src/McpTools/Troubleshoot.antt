-- ===== src/McpTools/Troubleshoot.antt =====
-- internal/mcptools/mcptools.go: the tool troubleshoot.
mod Remedy
mod Fallback
pub use Remedy.*
unfoldable pub use Fallback.*
use k8s_ts_mcp.Common.{
  ℕ, String, append_text, Bool, true, false, not, ◌&&◌, ◌||◌, Option, none, some, List, [], ◌∷◌,
  map, ◌==◌, if◌then◌else◌, Error, errorf, end, str, cause, Result, ok, err, Call, ◌>>=◌, pure,
  raise, wrap_err, continue,
}
use k8s_ts_mcp.Policy.{Decision, Request, decide}
use k8s_ts_mcp.ExecEngine.{AttemptResult, RunResult}
use k8s_ts_mcp.Playbooks.{Signal}
use k8s_ts_mcp.AgentCore.{ProposedAction, Attempt, Diagnosis, Execution}
use k8s_ts_mcp.Audit.{SignalRecord, ProposedActionRecord, Entry}
use k8s_ts_mcp.Transport.{Response}
use k8s_ts_mcp.Runbooks.{Runbook}
use k8s_ts_mcp.McpTools.{Server, Runbooks, answered, max_risk, check_cluster_scope, cluster_env}

module _ {W : Type 0} (s : Server W) where
  open s use {hub}

  abbrev pub respond : TroubleshootIn → Diagnosis → Call W TroubleshootOut
  respond x d = if d.no_playbook then runbook_fallback s x else remediate s x d

  abbrev pub diagnosed_run : TroubleshootIn → Response Diagnosis → Call W TroubleshootOut
  diagnosed_run x resp = do d ← answered x.cluster_id resp; respond x d

  abbrev pub scoped_run : TroubleshootIn → Call W TroubleshootOut
  scoped_run x = do resp ← hub.diagnose x.cluster_id (signal_of x); diagnosed_run x resp

  unfoldable pub troubleshoot : TroubleshootIn → Call W TroubleshootOut
  unfolding check_cluster_scope runbook_fallback decide
  troubleshoot x = do _ ← check_cluster_scope s x.cluster_id; scoped_run x
