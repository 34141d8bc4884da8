-- ===== src/Examples/Starting.antt =====
-- Examples of cmd/hub-server/main.go and of cmd/cluster-agent/main.go.
use k8s_ts_mcp.Common.{
  ℕ, suc, String, true, false, ◌≡◌, refl, ◌==◌, ◌&&◌, if◌then◌else◌, none, some, List, [], ◌∷◌,
  foreign, ok, err, Call, any, contains, lookup, insert, insert_all, has_prefix, cut_prefix,
  trim_prefix,
}
use k8s_ts_mcp.Common.Ensures.{Gives}
use k8s_ts_mcp.AgentAuth.{
  AgentConfig, new_registry, scope_of, resolve, token_from_header, allows_account, load_config,
  first_incomplete,
}
use k8s_ts_mcp.Audit.FileStore.{new_file_store}
use k8s_ts_mcp.Transport.Replica.{Peer}
use k8s_ts_mcp.Tls.{
  Loader, Credentials, tls, load_cert_and_ca, client_credentials, server_credentials,
}
use k8s_ts_mcp.HubServer.{load_group_mapping, env_or, new_session_server}
use k8s_ts_mcp.HubServer.Options.{Options, CommandLine, parse_flags}
use k8s_ts_mcp.HubServer.Startup.{
  Outside, Started, read_config, new_engine, shared_registry, cluster_inventory, agent_entries,
  agent_registry, tool_access, runbooks_store, shared,
}
use k8s_ts_mcp.HubServer.Main.{assembled, grpc_credentials, listening, prepared, start}
use k8s_ts_mcp.HubServer.Guards.{IsMutual, IsDialled, IsReachable}
use k8s_ts_mcp.HubServer.Started.{
  allowed_account_is_listed, channels_are_protected, start-IsReachable,
}
use k8s_ts_mcp.Examples.Watching.{texts}
use k8s_ts_mcp.Examples.Catalogue.{floats, unicode}

abbrev failing : {W A : Type 0} → Call W A
failing w = (err (foreign "unavailable"), w)

-- The world counts what is opened.
abbrev pub loader : Loader ℕ String String
loader = record {
  load_pair = λ cert key w. (ok cert, suc w);
  read_file = λ path w. (ok path, suc w);
  pool_of = λ pem. some pem;
}

abbrev no_peer : {W : Type 0} → Peer W
no_peer = record {
  diagnose = λ id sig cluster. failing;
  execute = λ id playbook_id sig cluster. failing;
  scan = λ id ns cluster. failing;
  approve_action = λ id playbook_id sig name meta cluster. failing;
  get_logs = λ id ns name deployment tail_lines cluster. failing;
  list_nodes = λ id cluster. failing;
}

abbrev agents : List AgentConfig
agents =
    record { name = "ops"; token = "secret"; allowed_accounts = "111" ∷ []; ad_groups = "sre" ∷ [] }
    ∷ []

abbrev out : Outside ℕ String String ℕ
out = record {
  loader = loader;
  prepare_policy = λ w. (ok tt, w);
  os = λ path. record {
    has_dir = false;
    mkdir_all = failing;
    open_append = λ w. (ok tt, suc w);
    write = λ bytes. failing;
    read = failing;
  };
  json = record { marshal = λ e. ok []; unmarshal = λ line. err (foreign "unexpected end") };
  ping = λ addr w. (ok tt, w);
  client = λ addr. record {
    set = λ k v ttl. failing;
    get = λ k. failing;
    del = λ k. failing;
    scan = λ pattern. failing;
  };
  http = record { path_escape = λ s. s; new_request = λ url. none; get = λ url. failing };
  open_groups = λ path. failing;
  open_clusters = λ path. failing;
  shown_cluster = λ c. "";
  open_agents = λ path w. (ok (ok agents), suc w);
  shown_agent = λ a. "";
  hash = λ t. t;
  open_tool_access = λ path. failing;
  shown_rule = λ r. "";
  read_file = λ path. failing;
  listen = λ addr w. (ok tt, w);
  unicode = unicode;
  floats = floats;
  aws = record {
    load_config = λ region. failing;
    describe_cluster = λ arn name. failing;
    decode_base64 = λ s. ok s;
    is_pem = λ s. true;
    new_generator = none;
    new_clientset = λ host ca. err (foreign "no cluster");
    new_dynamic = λ host ca. none;
  };
  sorted = λ xs. xs;
  percent = "50%";
  sprintf = λ f args. f;
  texts = texts;
  heuristic = record { signatures = [] };
  crashed = foreign "panic";
  wire = record {
    sprintf = λ f args. f;
    new_request_id = λ w. ("r-1", w);
    send = λ id m. failing;
    arrivals = λ id w. (([], foreign "context canceled"), w);
    dial = λ addr. none;
    peer = λ addr. no_peer;
  };
  system = record {
    sprintf = λ f args. f;
    to_upper = λ s. s;
    equal_fold = λ s t. s == t;
    random = λ w. ("00", w);
    now = λ w. 0;
    formats = record { format_time = λ t. ""; decimal = λ n. "" };
  };
}

-- The pod's environment and its command line.
abbrev getenv : String → String
getenv key =
    if key == "AGENT_SCOPES_CONFIG_PATH"
    then "scopes.yaml"
    else if key == "SELF_ADDR"
    then "10.0.0.1:7443"
    else ""

abbrev line : CommandLine
line = record {
  text = λ name. if name == "redis-addr" then some "redis:6379" else none;
  switch = λ name. none;
  duration = λ name. none;
}

abbrev options : Options
unfolding parse_flags env_or
options = parse_flags getenv line

abbrev shared_creds : Credentials String String
shared_creds = tls (record {
  certificate = "";
  root_cas = some "";
  client_cas = none;
  require_client_cert = false;
})

abbrev started : Started ℕ String String
unfolding parse_flags env_or
started = record {
  flags =
      assembled out options (("infra-prod-admins", "prod-admin") ∷ [])
        (shared out options shared_creds) none [] none;
  agents = some (new_registry out.hash agents);
  peer_creds = some shared_creds;
  grpc_creds = tls (record {
    certificate = "";
    root_cas = none;
    client_cas = some "";
    require_client_cert = true;
  });
}

starts : start out options 0 ≡ (ok started, 6)
unfolding start prepared load_group_mapping new_engine new_file_store shared_registry
    cluster_inventory agent_registry agent_entries read_config load_config first_incomplete
    tool_access runbooks_store grpc_credentials listening client_credentials server_credentials
    load_cert_and_ca parse_flags env_or
starts = refl

allowed_account_is_listed_example :
    (entries : List AgentConfig) × Gives (agent_entries out options) entries
    × (started.agents ≡ some (new_registry out.hash entries))
    × ((token_from_header "Bearer secret" == "") ≡ false)
    × (any
          (λ a.
            (out.hash a.token == out.hash (token_from_header "Bearer secret"))
            && contains "111" a.allowed_accounts)
          entries
        ≡ true)
unfolding parse_flags env_or new_session_server token_from_header has_prefix cut_prefix trim_prefix
    resolve new_registry scope_of allows_account lookup insert insert_all
allowed_account_is_listed_example =
    allowed_account_is_listed out options 0 6 started starts "Bearer secret" "111" refl refl

channels_are_protected_example :
    IsMutual out options started.grpc_creds × IsDialled out options started.peer_creds
unfolding parse_flags env_or
channels_are_protected_example = channels_are_protected out options 0 6 started starts refl

start-IsReachable_example : IsReachable out options started
start-IsReachable_example = start-IsReachable out options 0 6 started starts
