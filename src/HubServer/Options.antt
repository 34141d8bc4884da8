-- ===== src/HubServer/Options.antt =====
-- The flags of cmd/hub-server/main.go, each with an environment variable for its default.
use k8s_ts_mcp.Common.{ℕ, ◌*◌, String, Bool, Option, none, some, ◌==◌}
use k8s_ts_mcp.HubServer.{env_or}

pub record Options : Type 0 where
  pub grpc_addr : String
  pub http_addr : String
  pub cert_file : String
  pub key_file : String
  pub ca_file : String
  pub insecure_mode : Bool
  pub group_mapping_path : String
  pub audit_path : String
  pub execution_flag : Bool
  pub prod_clusters_csv : String
  pub test_caller_groups_csv : String
  pub redis_addr : String
  pub self_addr : String
  pub runbooks_path : String
  pub runbooks_reload_every : ℕ
  pub calico_ns : String
  pub cluster_inventory_path : String
  pub inventory_api_url : String
  pub agent_scopes_config_path : String
  pub tool_access_config_path : String

-- Package flag: what the command line gives for a flag, if anything.
pub record CommandLine : Type 0 where
  pub text : String → Option String
  pub switch : String → Option Bool
  pub duration : String → Option ℕ

abbrev pub given {ℓ} : {A : Type ℓ} → Option A → A → A
given none default = default
given (some a) default = a

abbrev thirty_seconds : ℕ
thirty_seconds = 30 * 1000000000

module _ (getenv : String → String) (line : CommandLine) where
  abbrev flag : String → String → String → String
  flag name key fallback = given (line.text name) (env_or getenv key fallback)

  abbrev switched : String → String → Bool
  switched name key = given (line.switch name) (getenv key == "true")

  unfoldable pub parse_flags : Options
  unfolding env_or
  parse_flags = record {
    grpc_addr = flag "grpc-addr" "GRPC_ADDR" ":7443";
    http_addr = flag "http-addr" "HTTP_ADDR" ":8443";
    cert_file = flag "cert" "HUB_CERT" "";
    key_file = flag "key" "HUB_KEY" "";
    ca_file = flag "ca" "AGENT_CA" "";
    insecure_mode = switched "insecure" "INSECURE";
    group_mapping_path = flag "group-mapping" "GROUP_MAPPING_PATH" "";
    audit_path = flag "audit-path" "AUDIT_PATH" "audit.jsonl";
    execution_flag = switched "execution-enabled" "EXECUTION_ENABLED";
    prod_clusters_csv = flag "prod-clusters" "PROD_CLUSTERS" "";
    test_caller_groups_csv = flag "test-caller-groups" "TEST_CALLER_GROUPS" "infra-prod-admins";
    redis_addr = flag "redis-addr" "REDIS_ADDR" "";
    self_addr = flag "self-addr" "SELF_ADDR" "";
    runbooks_path = flag "runbooks-path" "RUNBOOKS_PATH" "";
    runbooks_reload_every = given (line.duration "runbooks-reload-interval") thirty_seconds;
    calico_ns = flag "calico-namespace" "CALICO_NAMESPACE" "calico-system";
    cluster_inventory_path = flag "cluster-inventory-path" "CLUSTER_INVENTORY_PATH" "";
    inventory_api_url = flag "inventory-api-url" "INVENTORY_API_URL" "";
    agent_scopes_config_path = flag "agent-scopes-config" "AGENT_SCOPES_CONFIG_PATH" "";
    tool_access_config_path = flag "tool-access-config" "TOOL_ACCESS_CONFIG_PATH" "";
  }
