-- ===== src/ClusterAgent.antt =====
-- cmd/cluster-agent/main.go: what the agent of a cluster is made of when it connects to the hub.
-- `log.Fatalf` is an error; what is only logged is left out.
use k8s_ts_mcp.Common.{
  String, Bool, ◌==◌, if◌then◌else◌, Args, Error, errorf, end, cause, List, Call, ◌>>=◌, pure,
  raise, wrap_err, ◌≡◌, refl, false, ok,
}
use k8s_ts_mcp.Common.Ensures.{
  Ensures, Ensures-pure, Ensures-raise, Ensures-bind, Ensures-after, Ensures-wrap_err, Ensures-if,
}
use k8s_ts_mcp.ExecEngine.{Texts}
use k8s_ts_mcp.K8sClient.{Api}
use k8s_ts_mcp.K8sClient.Connecting.{ClientGo, new_client}
use k8s_ts_mcp.Playbooks.BuiltIn.{Settings, built_in}
use k8s_ts_mcp.AgentCore.{Handler}
use k8s_ts_mcp.AgentCore.Scan.{Heuristic}
use k8s_ts_mcp.RoleCluster.{as_request_handler}
use k8s_ts_mcp.Transport.Client.{Client, Link}
use k8s_ts_mcp.Tls.{Loader, Credentials, tls, client_config, client_credentials}
use k8s_ts_mcp.Tls.Guarded.{IsProtected, client_credentials-IsProtected}
use k8s_ts_mcp.HubServer.{env_or}
use k8s_ts_mcp.HubServer.Options.{CommandLine, given}

pub record Options : Type 0 where
  pub hub_addr : String
  pub cluster_id : String
  pub kubeconfig : String
  pub calico_ns : String
  pub cert_file : String
  pub key_file : String
  pub ca_file : String
  pub insecure_mode : Bool

abbrev version : String
version = "0.1.0"

module _ (getenv : String → String) (line : CommandLine) where
  abbrev flag : String → String → String → String
  flag name key fallback = given (line.text name) (env_or getenv key fallback)

  unfoldable pub parse_flags : Options
  unfolding env_or
  parse_flags = record {
    hub_addr = flag "hub-addr" "HUB_ADDR" "localhost:7443";
    cluster_id = flag "cluster-id" "CLUSTER_ID" "";
    kubeconfig = flag "kubeconfig" "KUBECONFIG_PATH" "";
    calico_ns = flag "calico-namespace" "CALICO_NAMESPACE" "calico-system";
    cert_file = flag "cert" "AGENT_CERT" "";
    key_file = flag "key" "AGENT_KEY" "";
    ca_file = flag "ca" "HUB_CA" "";
    insecure_mode = given (line.switch "insecure") (getenv "INSECURE" == "true");
  }

-- What is outside the program; `link` is gRPC's stream to an address with credentials.
pub record Outside (B Cfg Cert Pool : Type 0) : Type 0 where
  pub go : ClientGo B Cfg
  pub loader : Loader B Cert Pool
  pub sorted : List String → List String
  pub percent : String
  pub sprintf : String → Args → String
  pub texts : Texts
  pub heuristic : Heuristic
  pub crashed : Error
  pub link : String → Credentials Cert Pool → Link (Unit {0} × B)

module _ {B Cfg Cert Pool : Type 0} (out : Outside B Cfg Cert Pool) (o : Options) where
  abbrev check_cluster_id : Call B (Unit {0})
  check_cluster_id =
      if o.cluster_id == ""
      then raise (errorf "cluster-agent: --cluster-id (ou CLUSTER_ID) é obrigatório" end)
      else pure tt

  unfoldable pub kube_client : Call B (Api B)
  unfolding new_client
  kube_client =
      wrap_err (λ e. errorf "cluster-agent: construindo cliente kubernetes: %v" (cause e end))
        (new_client out.go o.kubeconfig)

  abbrev settings : Settings
  settings = record { sorted = out.sorted; percent = out.percent; calico_namespace = o.calico_ns }

  unfoldable pub handler_of : Api B → Handler B
  unfolding built_in
  handler_of api = record { api = api; registry = built_in api settings; texts = out.texts }

  unfoldable pub agent_credentials : Call B (Credentials Cert Pool)
  unfolding client_credentials
  agent_credentials =
      wrap_err (λ e. errorf "cluster-agent: carregando credenciais mTLS: %v" (cause e end))
        (client_credentials out.loader o.cert_file o.key_file o.ca_file o.insecure_mode)

  abbrev pub client_with : Api B → Credentials Cert Pool → Client (Unit {0} × B)
  client_with api creds = record {
    addr = o.hub_addr;
    cluster_id = o.cluster_id;
    version = version;
    handler = as_request_handler out.crashed out.heuristic (handler_of api);
    link = out.link o.hub_addr creds;
    sprintf = out.sprintf;
  }

  -- `main` up to `client.Run`.
  unfoldable pub start : Call B (Client (Unit {0} × B))
  unfolding kube_client agent_credentials handler_of
  start = do
    _ ← check_cluster_id
    api ← kube_client
    creds ← agent_credentials
    pure (client_with api creds)

  abbrev pub IsNamed : Client (Unit {0} × B) → Type 0
  IsNamed c = (c.cluster_id ≡ o.cluster_id) × ((c.cluster_id == "") ≡ false)

  -- The stream goes over credentials that are insecure only in the insecure mode.
  abbrev pub IsSealed : Client (Unit {0} × B) → Type 0
  IsSealed c =
      (creds : Credentials Cert Pool) × (c.link ≡ out.link o.hub_addr creds)
      × IsProtected out.loader o.cert_file o.key_file o.ca_file o.insecure_mode
          (λ l. tls (client_config out.loader o.cert_file o.key_file o.ca_file l)) creds

  start-Ensures : Ensures start (λ c. IsNamed c × IsSealed c)
  unfolding start
  start-Ensures =
      Ensures-bind check_cluster_id _ (λ _. (o.cluster_id == "") ≡ false) _
        (Ensures-if _ _ _ _ (λ missing. Ensures-raise _ _) (λ good. Ensures-pure _ tt good))
        λ _ named. Ensures-after kube_client _ _ λ api.
          Ensures-bind agent_credentials _ _ _
            (unfold agent_credentials in
              Ensures-wrap_err _ _ _ (
                client_credentials-IsProtected out.loader o.cert_file o.key_file o.ca_file
                  o.insecure_mode))
            λ creds sealed. Ensures-pure _ _ ((refl, named), (creds, refl, sealed))

  -- An agent that starts has a cluster's id that is not empty, and its stream to the hub goes over
  -- TLS that trusts the authority in its files alone, unless the insecure mode was asked for.
  pub start-IsSealed :
      (w w' : B) (c : Client (Unit {0} × B)) → start w ≡ (ok c, w') → IsNamed c × IsSealed c
  start-IsSealed w w' c = start-Ensures.holds w c w'
