-- ===== src/Cluster.antt =====
-- graph-engine/crates/graph-cluster/src/lib.rs: the partition map. A replica's id is its name.
pub mod Rebalance
pub mod Pods
use doi.Prelude.{
  ℕ, String, Bool, List, [], Option, none, some, filter, get, nat_eq, or_default, Result,
}
use doi.Schema.{NodeId}
use doi.Schema.Partitioning.{partition_of}
use doi.Index.{PartitionId}

abbrev pub ReplicaId : Type 0
ReplicaId = String

pub data SocketAddr : Type 0 where
  v4 v6 : (ip port : ℕ) → SocketAddr

pub record ReplicaEndpoint : Type 0 where
  pub replica : ReplicaId
  pub address : SocketAddr
  pub healthy : Bool

pub record PartitionHasher : Type 0 where
  pub n_partitions : ℕ

pub record PartitionMap : Type 0 where
  pub replicas_by_partition : List (PartitionId × List ReplicaEndpoint)

abbrev pub healthy_replicas : PartitionMap → PartitionId → List ReplicaEndpoint
healthy_replicas partitions partition =
    or_default (elim (get partition partitions.replicas_by_partition) [
      | none ↦ none
      | some replicas ↦ some (filter (λ r. r.healthy) replicas)
    ])

pub record PartitionMove : Type 0 where
  pub partition : PartitionId
  pub from_machine : Option String
  pub to_machine : String

pub record RebalancePlan : Type 0 where
  pub moves : List PartitionMove

module _ (xxh3_64 : List ℕ → ℕ) where
  abbrev pub hash_partition : PartitionHasher → NodeId → PartitionId
  hash_partition hasher node_id = partition_of xxh3_64 node_id hasher.n_partitions

pub data DiscoveryError : Type 0 where
  kubernetes_api : String → DiscoveryError

-- The trait. A poll finds the cluster in some state.
pub record Discovery : Type 0 where
  pub current_map : Result DiscoveryError PartitionMap
