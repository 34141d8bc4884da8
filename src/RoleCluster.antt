-- ===== src/RoleCluster.antt =====
-- internal/rolecluster/rolecluster.go: clusters that the hub reaches by assuming an IAM role.
-- `Cache` is the map `handlers` of `Manager`, the rest of the world is `W`.
pub mod Caching
use k8s_ts_mcp.Common.{
  String, Option, none, some, List, [], Map, lookup, insert, Error, errorf, end, str, cause, Args,
  Result, ok, err, Call, ◌==◌, if◌then◌else◌,
}
use k8s_ts_mcp.ExecEngine.{Texts, Outcome, done, panic}
use k8s_ts_mcp.K8sClient.AwsRole.{Aws, new_from_aws_role}
use k8s_ts_mcp.K8sClient.{Api}
use k8s_ts_mcp.Playbooks.{Playbook}
use k8s_ts_mcp.AgentCore.{Handler, handle_diagnose, handle_execute, handle_approve_action}
use k8s_ts_mcp.AgentCore.Logs.{handle_get_logs, handle_list_nodes}
use k8s_ts_mcp.AgentCore.Scan.{Heuristic, handle_scan}
use k8s_ts_mcp.Inventory.{ClusterInfo}
use k8s_ts_mcp.Transport.{Handler as RequestHandler}
use k8s_ts_mcp.Transport.Replica.{RoleResolver}

abbrev pub Cache : Type 0 → Type 0
Cache W = Map (Handler W)

-- `new_client` is `k8sclient.NewFromAWSRole`: the role's ARN, the EKS cluster's name and its region.
-- A playbook of Go takes the client at each call, so `registry` is the playbooks of a client.
pub record Manager (W : Type 0) : Type 0 where
  pub inventory : Option (String → Call W (Option ClusterInfo))
  pub registry : Api W → List (Playbook W)
  pub texts : Texts
  pub new_client : String → String → String → Call W (Api W)
  pub sprintf : String → Args → String

-- `NewManager`.
unfoldable pub new_manager :
    {W : Type 0}
    → Aws W
    → Texts
    → (String → Args → String)
    → Option (String → Call W (Option ClusterInfo))
    → (Api W → List (Playbook W))
    → Manager W
unfolding new_from_aws_role
new_manager aws texts sprintf inventory registry = record {
  inventory = inventory;
  registry = registry;
  texts = texts;
  new_client = new_from_aws_role aws;
  sprintf = sprintf;
}

abbrev read_only_role_name : String
read_only_role_name = "k8s-ts-mcp-readonly"

-- What a call learns: nothing, where the cluster is not one of these, or a handler or an error.
abbrev pub Found : Type 0 → Type 0
Found A = Option (Result A)

module _ {W : Type 0} (m : Manager W) where
  unfoldable pub role_arn_for_account : String → String
  role_arn_for_account account =
      m.sprintf "arn:aws:iam::%s:role/%s" (str account (str read_only_role_name end))

  abbrev name_or : String → String → String
  name_or id name = if name == "" then id else name

  abbrev pub built : ClusterInfo → String → Result (Api W) × W → Found (Handler W) × W
  built info id (err e, w) = (
    some (
        err (
          errorf "building client for cluster %s (account %s): %w"
            (str id (str info.aws_account_id (cause e end))))),
    w,
  )
  built info id (ok api, w) =
      (some (ok (record { api = api; registry = m.registry api; texts = m.texts })), w)

  abbrev pub build_for : String → Result (Option ClusterInfo) × W → Found (Handler W) × W
  build_for id (err e, w) =
      (some (err (errorf "looking up cluster %s in inventory: %w" (str id (cause e end)))), w)
  build_for id (ok none, w) = (none, w)
  build_for id (ok (some info), w) = built info id (
      m.new_client (role_arn_for_account info.aws_account_id) (name_or id info.eks_cluster_name)
        info.region w)

  abbrev pub build_with :
      Option (String → Call W (Option ClusterInfo)) → String → W → Found (Handler W) × W
  build_with none id w = (none, w)
  build_with (some f) id w = build_for id (f id w)

  -- The middle of `Handler`, which holds no lock: other calls run beside it.
  unfoldable pub build : String → W → Found (Handler W) × W
  unfolding role_arn_for_account
  build id w = build_with m.inventory id w

  abbrev pub keep_first : String → Handler W → Cache W → Option (Handler W) → Handler W × Cache W
  keep_first id h cache none = (h, insert id h cache)
  keep_first id h cache (some existing) = (existing, cache)

  -- The end of `Handler`: whichever handler landed first is kept.
  unfoldable pub install : String → Handler W → Cache W → Handler W × Cache W
  unfolding lookup insert
  install id h cache = keep_first id h cache (lookup id cache)

  abbrev pub installed : String → Handler W → Cache W × W → Found (Handler W) × (Cache W × W)
  installed id h (cache, w) =
      let (kept, cache') = install id h cache in (some (ok kept), (cache', w))

  abbrev pub finish : String → Cache W → Found (Handler W) × W → Found (Handler W) × (Cache W × W)
  finish id cache (none, w) = (none, (cache, w))
  finish id cache (some (err e), w) = (some (err e), (cache, w))
  finish id cache (some (ok h), w) = installed id h (cache, w)

  -- `others` is what the calls that run beside this one do to the cache before it installs.
  abbrev pub handler_from :
      String
      → (Cache W → Cache W)
      → Option (Handler W)
      → Cache W × W
      → Found (Handler W) × (Cache W × W)
  handler_from id others (some existing) (cache, w) = (some (ok existing), (cache, w))
  handler_from id others none (cache, w) = finish id (others cache) (build id w)

  -- `Manager.Handler`.
  unfoldable pub handler :
      String → (Cache W → Cache W) → Cache W × W → Found (Handler W) × (Cache W × W)
  unfolding lookup build install
  handler id others (cache, w) = handler_from id others (lookup id cache) (cache, w)

-- `*agentcore.Handler` as `transport.Handler`, called in process. Nothing recovers a panic, which ends
-- the program: `crashed` stands for what is seen then.
abbrev pub beside : {S W A : Type 0} → Call W A → Call (S × W) A
beside call (s, w) = let (r, w') = call w in (r, (s, w'))

abbrev pub returned : {W A : Type 0} → Error → Outcome (Result A) × W → Result A × W
returned crashed (panic, w) = (err crashed, w)
returned crashed (done r, w) = (r, w)

module _ {W S : Type 0} (crashed : Error) (heuristic : Heuristic) where
  abbrev pub as_request_handler : Handler W → RequestHandler (S × W)
  as_request_handler h = record {
    diagnose = λ sig. beside (handle_diagnose h sig);
    execute = λ id sig. beside (λ w. returned crashed (handle_execute h id sig w));
    scan = λ ns. beside (handle_scan h heuristic ns);
    approve_action = λ id sig name meta.
        beside (λ w. returned crashed (handle_approve_action h id sig name meta w));
    get_logs =
        λ ns name deployment tail_lines. beside (handle_get_logs h ns name deployment tail_lines);
    list_nodes = beside (handle_list_nodes h);
  }

-- `Manager` as a `RoleResolver`: it lists no cluster, since none is registered.
module _ {W : Type 0} (m : Manager W) (crashed : Error) (heuristic : Heuristic) where
  abbrev pub for_requests :
      Found (Handler W) × (Cache W × W) → Found (RequestHandler (Cache W × W)) × (Cache W × W)
  for_requests (none, s) = (none, s)
  for_requests (some (err e), s) = (some (err e), s)
  for_requests (some (ok h), s) = (some (ok (as_request_handler crashed heuristic h)), s)

  abbrev pub cluster_ids : List String
  cluster_ids = []

  abbrev pub resolver : RoleResolver (Cache W × W)
  resolver = record {
    cluster_ids = cluster_ids;
    handler = λ id s. for_requests (handler m id (λ cache. cache) s);
  }
