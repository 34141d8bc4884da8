-- ===== src/Inventory.antt =====
-- internal/inventory/inventory.go: the static inventory of clusters.
pub mod HttpClient
use k8s_ts_mcp.Common.{
  ℕ, suc, Bool, ◌==◌, ◌||◌, if◌then◌else◌, ◌∷◌, errorf, end, str, num, cause, Result, ok, err,
  String, ◌≡◌, Option, none, some, List, [], Map, lookup, insert_all, lookup-insert_all, last_with,
}

pub record ClusterInfo : Type 0 where
  pub cluster_id : String
  pub aws_account_id : String
  pub region : String
  pub eks_cluster_name : String

abbrev is_incomplete : ClusterInfo → Bool
is_incomplete c = c.cluster_id == "" || (c.aws_account_id == "" || c.region == "")

-- The loop of `LoadConfig`: the first entry that lacks a required field, with its index.
unfoldable pub first_missing : ℕ → List ClusterInfo → Option (ℕ × ClusterInfo)
first_missing i [] = none
first_missing i (c ∷ clusters) =
    let rest = first_missing (suc i) clusters in if is_incomplete c then some (i, c) else rest

abbrev checked :
    (ClusterInfo → String) → List ClusterInfo → Option (ℕ × ClusterInfo) → Result (List ClusterInfo)
checked shown clusters none = ok clusters
checked shown clusters (some (i, c)) = err (
    errorf
      "cluster inventory entry %d is missing a required field (cluster_id/aws_account_id/region): %+v"
      (num i (str (shown c) end)))

abbrev checked_clusters :
    (ClusterInfo → String) → Result (List ClusterInfo) → Result (List ClusterInfo)
checked_clusters shown (err e) = err (errorf "decoding cluster inventory config: %w" (cause e end))
checked_clusters shown (ok clusters) = checked shown clusters (first_missing 0 clusters)

-- `LoadConfig`, of what the YAML decoder gives; `shown` is the verb `%+v` of an entry.
unfoldable pub load_config :
    (ClusterInfo → String) → Result (List ClusterInfo) → Result (List ClusterInfo)
unfolding first_missing
load_config shown decoded = checked_clusters shown decoded

-- `New`.
unfoldable pub new_inventory : List ClusterInfo → Map ClusterInfo
unfolding insert_all
new_inventory clusters = insert_all (λ c. c.cluster_id) (λ c. c) clusters []

-- `Lookup`; a nil inventory knows no cluster.
unfoldable pub lookup_cluster : Option (Map ClusterInfo) → String → Option ClusterInfo
unfolding lookup
lookup_cluster none id = none
lookup_cluster (some m) id = lookup id m

-- The inventory of a configuration answers a cluster's id with the last entry that has it.
pub inventory_last_wins :
    (clusters : List ClusterInfo) (id : String)
    → lookup_cluster (some (new_inventory clusters)) id
      ≡ last_with (λ c. c.cluster_id) (λ c. c) id clusters none
unfolding lookup_cluster new_inventory lookup
inventory_last_wins clusters id = lookup-insert_all (λ c. c.cluster_id) (λ c. c) id clusters []
