-- ===== src/McpTools/Clusters.antt =====
-- internal/mcptools/mcptools.go: the tools scan_cluster, list_nodes and list_clusters, and `Register`.
-- `PodIssueOut` and `NodeOut` copy the fields of the agent's answers.
use k8s_ts_mcp.Common.{
  String, Bool, true, false, not, ◌&&◌, Option, none, some, List, [], ◌∷◌, ◌==◌, if◌then◌else◌,
  select, Error, errorf, end, str, cause, Call, ◌>>=◌, pure, raise, wrap_err,
}
use k8s_ts_mcp.K8sClient.Nodes.{NodeInfo}
use k8s_ts_mcp.AgentCore.Scan.{PodIssue}
use k8s_ts_mcp.Inventory.{ClusterInfo}
use k8s_ts_mcp.McpTools.{Server, answered, check_cluster_scope, allows}

pub record ListNodesOut : Type 0 where
  pub cluster_id : String
  pub inventory_known : Bool
  pub aws_account_id : String
  pub region : String
  pub eks_cluster_name : String
  pub nodes : List NodeInfo

abbrev nodes_out : String → Option ClusterInfo → List NodeInfo → ListNodesOut
nodes_out id none nodes = record {
  cluster_id = id;
  inventory_known = false;
  aws_account_id = "";
  region = "";
  eks_cluster_name = "";
  nodes = nodes;
}
nodes_out id (some info) nodes = record {
  cluster_id = id;
  inventory_known = true;
  aws_account_id = info.aws_account_id;
  region = info.region;
  eks_cluster_name = info.eks_cluster_name;
  nodes = nodes;
}

-- The tools that `Register` can put on a session, in its order.
abbrev pub tool_names : List String
tool_names =
    "scan_cluster" ∷ "troubleshoot" ∷ "approve_action" ∷ "get_postmortem" ∷ "list_nodes" ∷ []

module _ {W : Type 0} (s : Server W) where
  -- `Register`: the names of the tools that the session sees.
  unfoldable pub register : List String
  unfolding allows select
  register = select (allows s) tool_names

  unfoldable pub scan_cluster : String → String → Call W (List PodIssue)
  unfolding check_cluster_scope
  scan_cluster id ns = do _ ← check_cluster_scope s id; resp ← s.hub.scan id ns; answered id resp

  abbrev wrong_region : String → String → String → Error
  wrong_region id known asked =
      errorf
        "cluster %q está registrado no inventário como região %s, não %s — confirme o cluster certo com o usuário antes de continuar"
        (str id (str known (str asked end)))

  abbrev in_region : String → String → Option ClusterInfo → Call W (Unit {0})
  in_region id region none = pure tt
  in_region id region (some info) =
      if not (region == "")
        && (not (info.region == "") && not (s.system.equal_fold info.region region))
      then raise (wrong_region id info.region region)
      else pure tt

  unfoldable pub list_nodes : String → String → Call W ListNodesOut
  unfolding check_cluster_scope
  list_nodes id region = do
    info ← check_cluster_scope s id
    _ ← in_region id region info
    resp ← s.hub.list_nodes id
    nodes ← answered id resp
    pure (nodes_out id info nodes)

  unfoldable pub list_clusters : Call W (List String)
  list_clusters =
      wrap_err (λ e. errorf "listando clusters: %w" (cause e end)) s.hub.connected_clusters
