-- ===== src/HubServer/Startup.antt =====
-- cmd/hub-server/main.go, `main` up to where it serves. `log.Fatalf` is an error; what is only logged
-- is left out. The world at start is `B`, the hub adds the handlers that its role clusters keep.
use k8s_ts_mcp.Common.{
  String, not, ◌&&◌, Option, none, some, List, [], ◌==◌, if◌then◌else◌, Map, Error, errorf, end,
  str, cause, Args, Result, Call, ◌>>=◌, pure, raise, wrap_err, Unicode,
}
use k8s_ts_mcp.Policy.{GroupMapping}
use k8s_ts_mcp.ExecEngine.{Texts}
use k8s_ts_mcp.K8sClient.AwsRole.{Aws}
use k8s_ts_mcp.Playbooks.BuiltIn.{Settings, built_in}
use k8s_ts_mcp.AgentCore.Scan.{Heuristic}
use k8s_ts_mcp.AgentAuth.{AgentConfig, Scope, new_registry, load_config as load_agents}
use k8s_ts_mcp.Inventory.{ClusterInfo, new_inventory, lookup_cluster, load_config as load_clusters}
use k8s_ts_mcp.Inventory.HttpClient.{Http, lookup_over_http}
use k8s_ts_mcp.Audit.{Store}
use k8s_ts_mcp.Audit.FileStore.{Os, Json}
use k8s_ts_mcp.Registry.{Registry}
use k8s_ts_mcp.Registry.Redis.{Client, redis}
use k8s_ts_mcp.RoleCluster.{new_manager, Cache, resolver, beside}
use k8s_ts_mcp.Transport.Replica.{Replica, RoleResolver, Wire}
use k8s_ts_mcp.Runbooks.{Entries, new_store}
use k8s_ts_mcp.Runbooks.Similarity.{Floats}
use k8s_ts_mcp.McpTools.{System, ToolRule, load_tool_access}
use k8s_ts_mcp.Tls.{Loader, Credentials, client_credentials}
use k8s_ts_mcp.HubServer.{Flags}
use k8s_ts_mcp.HubServer.Options.{Options}

-- The world of the hub: the handlers of role clusters and the rest.
abbrev pub World : Type 0 → Type 0
World B = Cache B × B

-- What is outside the program. A call `open_…` opens a file and decodes its YAML; `prepare_policy` is
-- `PrepareForEval` of package rego; `shown_…` is the verb `%+v`.
pub record Outside (B Cert Pool F : Type 0) : Type 0 where
  pub loader : Loader B Cert Pool
  pub prepare_policy : Call B (Unit {0})
  pub os : String → Os B
  pub json : Json
  pub ping : String → Call B (Unit {0})
  pub client : String → Client B
  pub http : Http B
  pub open_groups : String → Call B (Result GroupMapping)
  pub open_clusters : String → Call B (Result (List ClusterInfo))
  pub shown_cluster : ClusterInfo → String
  pub open_agents : String → Call B (Result (List AgentConfig))
  pub shown_agent : AgentConfig → String
  pub hash : String → String
  pub open_tool_access : String → Call B (Result (List ToolRule))
  pub shown_rule : ToolRule → String
  pub read_file : String → Call B String
  pub listen : String → Call B (Unit {0})
  pub unicode : Unicode
  pub floats : Floats F
  pub aws : Aws B
  pub sorted : List String → List String
  pub percent : String
  pub sprintf : String → Args → String
  pub texts : Texts
  pub heuristic : Heuristic
  pub crashed : Error
  pub wire : Wire (World B)
  pub system : System (Replica × World B)

-- What `main` serves with: `flags` is what the tools are made of.
pub record Started (B Cert Pool : Type 0) : Type 0 where
  pub flags : Flags (World B)
  pub agents : Option (Map Scope)
  pub peer_creds : Option (Credentials Cert Pool)
  pub grpc_creds : Credentials Cert Pool

-- A registry in the world of the hub.
abbrev pub lifted_registry : {S B : Type 0} → Registry B → Registry (S × B)
lifted_registry g = record {
  announce = λ id addr ttl. beside (g.announce id addr ttl);
  heartbeat = λ id addr ttl. beside (g.heartbeat id addr ttl);
  lookup_replica = λ id. beside (g.lookup_replica id);
  forget = λ id. beside (g.forget id);
  list_clusters = beside g.list_clusters;
}

abbrev pub lifted_store : {S B : Type 0} → Store B → Store (S × B)
lifted_store s = record {
  append = λ e. beside (s.append e);
  get = λ id. beside (s.get id);
  list_by_cluster = λ id. beside (s.list_by_cluster id);
}

abbrev loaded : {B A : Type 0} → Result A → Call B A
loaded r w = (r, w)

module _ {B Cert Pool F : Type 0} (out : Outside B Cert Pool F) (o : Options) where
  abbrev pub fatal : String → Error → Error
  fatal format e = errorf format (cause e end)

  -- Opening, decoding and checking the file of a flag.
  unfoldable pub read_config :
      {D A : Type 0} → String → String → Call B D → (D → Result A) → Call B A
  read_config opening reading open_file check = do
    decoded ← wrap_err (fatal opening) open_file
    wrap_err (fatal reading) (loaded (check decoded))

  -- `policy.NewEngine`; the engine is its mapping of groups.
  unfoldable pub new_engine : GroupMapping → Call B GroupMapping
  new_engine groups = do
    _ ← wrap_err (fatal "preparing policy for eval: %w") out.prepare_policy
    pure groups

  abbrev pub check_self_addr : Call B (Unit {0})
  check_self_addr =
      if not (o.redis_addr == "") && o.self_addr == ""
      then raise (
          errorf
            "hub-server: --self-addr é obrigatório quando --redis-addr é informado (endereço desta réplica alcançável pelas outras)"
            end)
      else pure tt

  abbrev pub shared : Credentials Cert Pool → Option (Registry B × Credentials Cert Pool)
  shared creds = some (redis (out.client o.redis_addr), creds)

  -- `hub.Registry` and `hub.PeerCreds`.
  unfoldable pub shared_registry : Call B (Option (Registry B × Credentials Cert Pool))
  unfolding client_credentials
  shared_registry = if o.redis_addr == "" then pure none else (do
    _ ←
        wrap_err
          (λ e. errorf "hub-server: conectando no Redis %s: %v" (str o.redis_addr (cause e end)))
          (out.ping o.redis_addr)
    creds ←
        wrap_err (fatal "hub-server: carregando credenciais de peer (réplica-a-réplica): %v")
          (client_credentials out.loader o.cert_file o.key_file o.ca_file o.insecure_mode)
    pure (shared creds))

  abbrev pub Lookup : Type 0
  Lookup = String → Call B (Option ClusterInfo)

  abbrev local : List ClusterInfo → Lookup
  local clusters id = pure (lookup_cluster (some (new_inventory clusters)) id)

  -- `clusterInventory`.
  unfoldable pub cluster_inventory : Call B (Option Lookup)
  unfolding read_config lookup_over_http load_clusters lookup_cluster new_inventory
  cluster_inventory =
      if not (o.inventory_api_url == "")
      then pure (some (lookup_over_http out.http o.inventory_api_url))
      else if o.cluster_inventory_path == ""
      then pure none
      else (do
        clusters ←
            read_config "hub-server: abrindo --cluster-inventory-path: %v"
              "hub-server: lendo --cluster-inventory-path: %v"
              (out.open_clusters o.cluster_inventory_path) (load_clusters out.shown_cluster)
        pure (some (local clusters)))

  abbrev settings : Settings
  settings = record { sorted = out.sorted; percent = out.percent; calico_namespace = o.calico_ns }

  -- `hub.RoleResolver`: none without an inventory.
  unfoldable pub role_resolver : Option Lookup → Option (RoleResolver (World B))
  unfolding built_in new_manager
  role_resolver none = none
  role_resolver (some inv) = some (
      resolver (new_manager out.aws out.texts out.sprintf (some inv) (λ api. built_in api settings))
        out.crashed out.heuristic)

  -- `agentCfg.Agents`.
  unfoldable pub agent_entries : Call B (List AgentConfig)
  unfolding load_agents read_config
  agent_entries =
      read_config "hub-server: abrindo --agent-scopes-config: %v"
        "hub-server: lendo --agent-scopes-config: %v" (out.open_agents o.agent_scopes_config_path)
        (load_agents out.shown_agent)

  -- `agentRegistry`.
  unfoldable pub agent_registry : Call B (Option (Map Scope))
  unfolding agent_entries new_registry
  agent_registry =
      if o.agent_scopes_config_path == ""
      then pure none
      else (do agents ← agent_entries; pure (some (new_registry out.hash agents)))

  -- `toolAccess`; a nil one lets every tool through, as an empty one does.
  unfoldable pub tool_access : Call B (Map String)
  unfolding read_config load_tool_access
  tool_access =
      if o.tool_access_config_path == ""
      then pure []
      else read_config "hub-server: abrindo --tool-access-config: %v"
          "hub-server: lendo --tool-access-config: %v"
          (out.open_tool_access o.tool_access_config_path) (load_tool_access out.shown_rule)

  -- `runbooksStore`, as it is at the start.
  unfoldable pub runbooks_store : Call B (Option Entries)
  unfolding new_store
  runbooks_store = if o.runbooks_path == "" then pure none else (do
    entries ←
        wrap_err (fatal "hub-server: carregando runbooks: %v")
          (new_store o.runbooks_path out.read_file)
    pure (some entries))
