-- ===== src/K8sClient.antt =====
-- internal/k8sclient: the objects of the Kubernetes API that the client reads, cut down to the
-- fields that the code uses, and the API itself (client-go), which is a parameter.
-- The methods of `Client` stand in the children. Counts of the API are read as numbers.
pub mod Pods
pub mod Deployments
pub mod Nodes
pub mod AwsRole
pub mod Connecting
use k8s_ts_mcp.Common.{ℕ, String, Bool, Option, List, Map, Args, Error, Call}

pub record Terminated : Type 0 where
  pub reason : String
  pub message : String
  pub exit_code : ℕ

pub record Waiting : Type 0 where
  pub reason : String
  pub message : String

pub record ContainerStatus : Type 0 where
  pub running : Bool
  pub waiting : Option Waiting
  pub terminated : Option Terminated
  pub last_terminated : Option Terminated
  pub restart_count : ℕ

pub record OwnerReference : Type 0 where
  pub kind : String
  pub name : String

pub record Condition : Type 0 where
  pub kind : String
  pub status : String
  pub message : String

pub record Pod : Type 0 where
  pub namespace : String
  pub name : String
  pub phase : String
  pub node_name : String
  pub owner_references : List OwnerReference
  pub container_statuses : List ContainerStatus
  pub conditions : List Condition

-- A `resource.Quantity`, by its text.
abbrev pub Quantity : Type 0
Quantity = String

-- `containers` holds the memory limit of each container of the pod template, if it has one.
pub record Deployment : Type 0 where
  pub selector : String
  pub replicas : Option ℕ
  pub ready_replicas : ℕ
  pub containers : List (Option Quantity)
  pub restarted_at : Option String

pub record ReplicaSet : Type 0 where
  pub owner_references : List OwnerReference

pub record DaemonSet : Type 0 where
  pub selector : String

pub record Node : Type 0 where
  pub name : String
  pub labels : Map String
  pub architecture : String
  pub conditions : List Condition

-- The API server as client-go serves it, with the clock, the sleeping and the cancellation of a
-- context, and what the code takes from `fmt`, `unicode` and `resource`. `wait d` is a `select`
-- between the context, whose error it then returns, and a timer of `d` seconds; `sleep` is
-- `time.Sleep`.
pub record Api (W : Type 0) : Type 0 where
  pub get_pod : String → String → Call W Pod
  pub list_pods : String → Call W (List Pod)
  pub list_pods_by : String → String → Call W (List Pod)
  pub delete_pod : String → String → Call W (Unit {0})
  pub get_logs : String → String → Bool → ℕ → Call W String
  pub get_deployment : String → String → Call W Deployment
  pub update_deployment : String → String → Deployment → Call W (Unit {0})
  pub get_replica_set : String → String → Call W ReplicaSet
  pub get_daemon_set : String → String → Call W DaemonSet
  pub delete_hpa : String → String → Call W (Unit {0})
  pub scaled_object_conditions : String → String → Call W (Option (List Condition))
  pub list_nodes : Call W (List Node)
  pub get_node : String → Call W Node
  pub parse_selector : String → Option Error
  pub now : W → ℕ
  pub wait : ℕ → W → Option Error × W
  pub sleep : ℕ → W → W
  pub timestamp : W → String
  pub sprintf : String → Args → String
  pub to_lower : String → String
  pub scale_quantity : Option Quantity → Quantity
