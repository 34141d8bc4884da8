-- ===== src/K8sClient/Nodes.antt =====
-- internal/k8sclient/nodes.go.
use k8s_ts_mcp.Common.{
  String, Bool, false, Option, none, some, List, [], ◌∷◌, map, ◌==◌, if◌then◌else◌, find, contains,
  Map, lookup, errorf, end, str, cause, Call, ◌>>=◌, pure, wrap_err,
}
use k8s_ts_mcp.K8sClient.{Condition, Node, Api}

pub record NodeInfo : Type 0 where
  pub name : String
  pub zone : String
  pub region : String
  pub instance_type : String
  pub architecture : String
  pub ready : Bool

-- A read of a Go map of texts: "" where the key is missing.
abbrev pub label : String → Map String → String
label k m = elim (lookup k m) [ none ↦ "" | some v ↦ v ]

abbrev ready_status : Option Condition → Bool
ready_status none = false
ready_status (some c) = c.status == "True"

unfoldable pub node_ready : Node → Bool
unfolding find
node_ready n = ready_status (find (λ c. c.kind == "Ready") n.conditions)

unfoldable pub to_node_info : Node → NodeInfo
unfolding node_ready lookup
to_node_info n = record {
  name = n.name;
  zone = label "topology.kubernetes.io/zone" n.labels;
  region = label "topology.kubernetes.io/region" n.labels;
  instance_type = label "node.kubernetes.io/instance-type" n.labels;
  architecture = n.architecture;
  ready = node_ready n;
}

-- The keys of the set of architectures, each once.
unfoldable pub architectures : List Node → List String
unfolding contains
architectures [] = []
architectures (n ∷ ns) =
    let rest = architectures ns in
    if n.architecture == ""
    then rest
    else if contains n.architecture rest
    then rest
    else n.architecture ∷ rest

module _ {W : Type 0} (api : Api W) where
  unfoldable pub list_nodes : Call W (List NodeInfo)
  unfolding to_node_info
  list_nodes = wrap_err (λ e. errorf "listing nodes: %w" (cause e end)) api.list_nodes >>= λ nodes.
      pure (map to_node_info nodes)

  unfoldable pub node_architecture : String → Call W String
  node_architecture name =
      wrap_err (λ e. errorf "getting node %s: %w" (str name (cause e end))) (api.get_node name)
      >>= λ n. pure n.architecture

  unfoldable pub cluster_architectures : Call W (List String)
  unfolding architectures
  cluster_architectures =
      wrap_err (λ e. errorf "listing nodes: %w" (cause e end)) api.list_nodes >>= λ nodes.
      pure (architectures nodes)
