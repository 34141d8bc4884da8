-- ===== src/Examples/Joining.antt =====
-- Examples of cmd/cluster-agent/main.go.
use k8s_ts_mcp.Common.{
  ℕ, suc, String, false, refl, ◌==◌, if◌then◌else◌, none, some, [], foreign, ok, err, Call,
}
use k8s_ts_mcp.K8sClient.Connecting.{new_client}
use k8s_ts_mcp.Tls.{tls, Credentials, load_cert_and_ca, client_credentials}
use k8s_ts_mcp.Transport.Client.{Link}
use k8s_ts_mcp.HubServer.{env_or}
use k8s_ts_mcp.HubServer.Options.{CommandLine}
use k8s_ts_mcp.ClusterAgent.{
  Options, Outside, parse_flags, kube_client, agent_credentials, client_with, start, IsNamed,
  IsSealed, start-IsSealed,
}
use k8s_ts_mcp.Examples.Watching.{api, texts}
use k8s_ts_mcp.Examples.Starting.{loader}

abbrev failing : {W A : Type 0} → Call W A
failing w = (err (foreign "unavailable"), w)

abbrev link : Link (Unit {0} × ℕ)
link = record {
  dial = none;
  open_session = failing;
  send = λ m. failing;
  arrivals = λ w. (([], foreign "EOF"), w);
}

-- In the cluster: there is no kubeconfig.
abbrev out : Outside ℕ String String String
out = record {
  go = record {
    build_config_from_flags = λ path. failing;
    in_cluster_config = λ w. (ok "https://10.0.0.1", suc w);
    new_clientset = λ cfg. ok api;
    new_dynamic = λ cfg. none;
  };
  loader = loader;
  sorted = λ xs. xs;
  percent = "50%";
  sprintf = λ f args. f;
  texts = texts;
  heuristic = record { signatures = [] };
  crashed = foreign "panic";
  link = λ addr creds. link;
}

abbrev getenv : String → String
getenv key = if key == "CLUSTER_ID" then "spoke-1" else ""

abbrev line : CommandLine
line = record { text = λ name. none; switch = λ name. none; duration = λ name. none }

abbrev options : Options
unfolding parse_flags env_or
options = parse_flags getenv line

abbrev creds : Credentials String String
creds = tls (record {
  certificate = "";
  root_cas = some "";
  client_cas = none;
  require_client_cert = false;
})

start-IsSealed_example :
    IsNamed out options (client_with out options api creds)
    × IsSealed out options (client_with out options api creds)
unfolding parse_flags env_or start kube_client new_client agent_credentials client_credentials
    load_cert_and_ca
start-IsSealed_example = start-IsSealed out options 0 3 (client_with out options api creds) refl
