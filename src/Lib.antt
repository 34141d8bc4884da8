-- ===== src/Lib.antt =====
-- A model of k8s-ts-mcp, which diagnoses and repairs Kubernetes clusters through playbooks.
--
-- A hub serves tools to callers (internal/mcptools); each tool asks the handler of a cluster
-- (internal/agentcore) over a stream that the cluster's agent keeps to one of the hub's replicas
-- (internal/transport, internal/registry), or in process (internal/rolecluster). The handler
-- finds a playbook for the signal (internal/playbooks), diagnoses through the Kubernetes API
-- (internal/k8sclient) and runs the playbook's ladder of actions (internal/execengine). The hub
-- asks internal/policy whether a caller's groups may execute, internal/agentauth and
-- internal/inventory whether the caller may reach the cluster's AWS account, and records each
-- incident (internal/audit). internal/redact scrubs what leaves an agent.
--
-- Which file models which part:
--   Policy, Policy/Table       internal/policy: types.go (HighestTier is `highest_tier`), engine.go
--                              (Decide is `decide`) and the rules of policy.rego (`rules`)
--   Redact                     internal/redact: Text is `redact_text`, Object is `redact_value`
--   ExecEngine                 internal/execengine: Run, RunApproved, runOne, rollback are `run`,
--                              `run_approved`, `run_one`, `roll_back`
--   K8sClient and children     internal/k8sclient: the methods of Client, by their names; AwsRole
--                              is awsrole.go, Connecting is New
--   Playbooks and children     internal/playbooks: the registry, the polling loop and the six
--                              playbooks; BuiltIn is the registry of cmd/cluster-agent
--   AgentCore, its Classify,   internal/agentcore: Diagnose, Execute, ApproveAction, GetLogs and
--   Scan and Logs              ListNodes are `handle_diagnose` and so on; classifyPod; Scan
--   Transport and its          internal/transport: handlerresponses.go; server.go, agentConn is
--   Connections, Client,       `Conn`, Server is `Replica` with its `Config`, the six requests are
--   Replica and its children   `request` and `internal_request` of six `Request`s; client.go, Run and
--                              the handlers of requests are `run` and `handle`
--   Registry, Registry/Redis   internal/registry: InMemory is `in_memory`, Redis is `redis`
--   RoleCluster                internal/rolecluster: NewManager and Manager.Handler are `new_manager`, `handler`
--   AgentAuth                  internal/agentauth
--   Inventory and HttpClient   internal/inventory: inventory.go and httpclient.go
--   Audit, Audit/FileStore     internal/audit: audit.go and filestore.go
--   Postmortem                 internal/postmortem: Render is `render`, over the parts of the template
--   Runbooks, its Similarity   internal/runbooks: parse, Reload, WatchAndReload and MatchesLogs;
--   and Lookup                 the ranking of similarity.go; Find is `find_entry`
--   McpTools, its Clusters,    internal/mcptools: the tool handlers, `check_cluster_scope`,
--   Troubleshoot (Remedy and   `max_risk`, LoadToolAccess and ToolAccess.Allows
--   Fallback) and Approve
--   HubServer, its Options,    cmd/hub-server/main.go: the tools and each session's tools; the flags;
--   Startup and Main           `main` up to where it serves is `start`
--   ClusterAgent               cmd/cluster-agent/main.go: the flags; `main` up to `Run` is `start`
--   Tls                        internal/tlsutil: the credentials of both sides
--   Common/Texts               package strings, as far as the components use it
-- The other files beside these hold what is proved of them; Examples holds concrete inputs.
--
-- State is explicit: a call acts on a world `W` and returns a result or an error with the next
-- world (`Call` in Common/Errors). What the repository does not contain is a parameter: client-go,
-- the clock and the texts of package fmt are the record `Api` in K8sClient, regular expressions and
-- SHA-256 are functions. A nil function that is called is the outcome `panic` of ExecEngine. Numbers
-- of the API are natural numbers; tiers, risks and environments are texts as in the source.
-- The hub's connections, the audit store and the runbook catalogue are interfaces of McpTools, which
-- `hub_of` and `runbooks_of` of HubServer and `file_store` of Audit/FileStore fill. What runs at once
-- is a sequence of atomic steps (Transport/Replies), or a function for what other calls do meanwhile
-- (RoleCluster). A file is its bytes; float64 is a record of operations.
-- Package strings is written out over the characters of a text, with the tables of Unicode as the
-- record `Unicode`.
--
-- The polling loop has no bound in the source; the model gives it fuel for timeout + 2 rounds, as
-- each wait takes a second at least.
--
-- Not modelled: the streams of gRPC, so a request is given the messages that arrive while it waits;
-- the servers of HTTP and gRPC and their shutdown; packages os, net/http and crypto/tls, the decoders
-- of YAML and JSON, the client of Redis and the SDK of AWS, which are parameters; cmd/smoketest, a check
-- by hand; log lines; generated code.
pub mod Common
pub mod Policy
pub mod Postmortem
pub mod Redact
pub mod ExecEngine
pub mod K8sClient
pub mod Playbooks
pub mod AgentCore
pub mod Registry
pub mod Runbooks
pub mod Transport
pub mod RoleCluster
pub mod AgentAuth
pub mod Inventory
pub mod Audit
pub mod McpTools
pub mod ClusterAgent
pub mod HubServer
pub mod Tls
pub mod Examples
