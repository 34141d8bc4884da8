-- ===== src/HubServer/Main.antt =====
-- cmd/hub-server/main.go, `main`: the steps of the start in their order.
use k8s_ts_mcp.Common.{
  String, Bool, false, true, Option, none, some, Map, errorf, end, str, cause, Call, ◌>>=◌, pure,
  wrap_err,
}
use k8s_ts_mcp.Policy.{GroupMapping}
use k8s_ts_mcp.Inventory.{ClusterInfo}
use k8s_ts_mcp.McpTools.{Runbooks}
use k8s_ts_mcp.Audit.FileStore.{new_file_store, file_store}
use k8s_ts_mcp.RoleCluster.{beside}
use k8s_ts_mcp.Registry.{Registry}
use k8s_ts_mcp.Transport.Replica.{Config, Replica, outside}
use k8s_ts_mcp.Runbooks.{Entries}
use k8s_ts_mcp.Tls.{Credentials, server_credentials}
use k8s_ts_mcp.HubServer.{Flags, load_group_mapping, runbooks_of}
use k8s_ts_mcp.HubServer.Options.{Options}
use k8s_ts_mcp.HubServer.Startup.{
  World, Outside, Started, lifted_registry, lifted_store, fatal, new_engine, check_self_addr,
  shared_registry, Lookup, cluster_inventory, role_resolver, agent_registry, tool_access,
  runbooks_store,
}

module _ {B Cert Pool F : Type 0} (out : Outside B Cert Pool F) (o : Options) where
  abbrev pub Shared : Type 0
  Shared = Option (Registry B × Credentials Cert Pool)

  abbrev pub registry_of : Shared → Option (Registry (World B))
  registry_of none = none
  registry_of (some (g, creds)) = some (lifted_registry g)

  abbrev pub peer_creds_of : Shared → Option (Credentials Cert Pool)
  peer_creds_of none = none
  peer_creds_of (some (g, creds)) = some creds

  abbrev pub self_addr_of : Shared → String
  self_addr_of none = ""
  self_addr_of (some (g, creds)) = o.self_addr

  abbrev is_shared : Shared → Bool
  is_shared none = false
  is_shared (some (g, creds)) = true

  -- `hub`: the durations are the zero values, for which the defaults stand.
  abbrev pub hub_config : Shared → Option (Lookup out o) → Config (World B)
  hub_config s inv = record {
    registry = registry_of s;
    self_addr = self_addr_of s;
    has_peer_creds = is_shared s;
    ttl = 0;
    heartbeat_interval = 0;
    role_resolver = role_resolver out o inv;
    wire = out.wire;
  }

  abbrev lifted_inventory :
      Option (Lookup out o) → Option (String → Call (Replica × World B) (Option ClusterInfo))
  lifted_inventory none = none
  lifted_inventory (some inv) = some (λ id. outside (beside (inv id)))

  abbrev catalogue : Option Entries → Option Runbooks
  catalogue none = none
  catalogue (some entries) = some (runbooks_of out.floats out.unicode entries)

  abbrev pub assembled :
      GroupMapping → Shared → Option (Lookup out o) → Map String → Option Entries → Flags (World B)
  assembled groups s inv access entries = record {
    transport = hub_config s inv;
    groups = groups;
    audit = lifted_store (lifted_store (file_store (out.os o.audit_path) out.json o.audit_path));
    execution_flag = o.execution_flag;
    prod_clusters_csv = o.prod_clusters_csv;
    test_caller_groups_csv = o.test_caller_groups_csv;
    runbooks = catalogue entries;
    inventory = lifted_inventory inv;
    tool_access = access;
    system = out.system;
  }

  unfoldable pub grpc_credentials : Call B (Credentials Cert Pool)
  unfolding server_credentials
  grpc_credentials =
      wrap_err (fatal out o "hub-server: carregando credenciais mTLS: %v")
        (server_credentials out.loader o.cert_file o.key_file o.ca_file o.insecure_mode)

  unfoldable pub listening : Call B (Unit {0})
  listening =
      wrap_err (λ e. errorf "hub-server: escutando gRPC em %s: %v" (str o.grpc_addr (cause e end)))
        (out.listen o.grpc_addr)

  -- The steps after the shared registry.
  abbrev pub furnished : GroupMapping → Shared → Call B (Started B Cert Pool)
  furnished groups s = do
    inv ← cluster_inventory out o
    agents ← agent_registry out o
    access ← tool_access out o
    entries ← runbooks_store out o
    creds ← grpc_credentials
    _ ← listening
    pure (record {
      flags = assembled groups s inv access entries;
      agents = agents;
      peer_creds = peer_creds_of s;
      grpc_creds = creds;
    })

  -- The policy engine and the audit store.
  unfoldable pub prepared : Call B GroupMapping
  unfolding load_group_mapping new_engine new_file_store
  prepared = do
    groups ←
        wrap_err (fatal out o "hub-server: %v")
          (load_group_mapping out.open_groups o.group_mapping_path)
    engine ←
        wrap_err (fatal out o "hub-server: construindo policy engine: %v") (new_engine out o groups)
    _ ←
        wrap_err (fatal out o "hub-server: abrindo audit store: %v")
          (new_file_store (out.os o.audit_path) out.json o.audit_path)
    pure engine

  unfoldable pub start : Call B (Started B Cert Pool)
  unfolding prepared shared_registry cluster_inventory agent_registry tool_access runbooks_store
      grpc_credentials listening role_resolver
  start = do
    groups ← prepared
    _ ← check_self_addr out o
    s ← shared_registry out o
    furnished groups s
