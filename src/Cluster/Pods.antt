-- ===== src/Cluster/Pods.antt =====
-- graph-engine/crates/graph-cluster/src/discovery.rs: the partition map from the pods that the
-- Kubernetes API lists, or a fixed one. The listing, the texts of numbers and the parsing of a socket
-- address are library code: parameters.
pub mod Replicas
use doi.Prelude.{
  ℕ, String, Bool, true, false, ◌&&◌, List, [], ◌∷◌, ◌<>◌, Option, none, some, map, filter_map, any,
  get, insert, entry_push, string_eq, nat_eq, ◌==◌, if◌then◌else◌, Result, err, ok,
}
use doi.Prelude.Parsing.{codes, split_on, trim, parse_u32}
use doi.Index.{PartitionId}
use doi.Cluster.{
  SocketAddr, ReplicaEndpoint, PartitionMap, DiscoveryError, kubernetes_api, Discovery,
}

-- the fields of a `Pod` that are read
pub record PodCondition : Type 0 where
  pub type_ : String
  pub status : String

pub record PodStatus : Type 0 where
  pub pod_ip : Option String
  pub conditions : Option (List PodCondition)

pub record Pod : Type 0 where
  pub name : Option String
  pub annotations : Option (List (String × String))
  pub status : Option PodStatus

abbrev pub partitions_annotation : String
partitions_annotation = "graph.io/partitions"

unfoldable pub pod_is_ready : Pod → Bool
pod_is_ready pod = elim pod.status [
  | none ↦ false
  | some status ↦ elim status.conditions [
    | none ↦ false
    | some conditions ↦ any (λ c. c.type_ == "Ready" && c.status == "True") conditions
  ]
]

unfoldable pub parse_partitions : String → List PartitionId
parse_partitions raw = filter_map (λ piece. parse_u32 (trim piece)) (split_on 44 [] (codes raw))

unfoldable pub pod_partitions : Pod → List PartitionId
unfolding parse_partitions
pod_partitions pod = elim pod.annotations [
  | none ↦ []
  | some annotations ↦ elim (get partitions_annotation annotations) [
    | none ↦ []
    | some raw ↦ parse_partitions raw
  ]
]

-- the loop over the partitions of a pod
unfoldable pub push_all :
    ReplicaEndpoint
    → List PartitionId
    → List (PartitionId × List ReplicaEndpoint)
    → List (PartitionId × List ReplicaEndpoint)
push_all endpoint [] replicas = replicas
push_all endpoint (partition ∷ rest) replicas =
    push_all endpoint rest (entry_push partition endpoint replicas)

module _ (parse_address : String → Option SocketAddr) (number_text : ℕ → String) where
  unfoldable pub pod_to_replica_endpoint : Pod → (port : ℕ) → Option ReplicaEndpoint
  unfolding pod_is_ready
  pod_to_replica_endpoint pod port = elim pod.name [
    | none ↦ none
    | some name ↦ elim pod.status [
      | none ↦ none
      | some status ↦ elim status.pod_ip [
        | none ↦ none
        | some ip ↦ elim (parse_address (ip <> ":" <> number_text port)) [
          | none ↦ none
          | some address ↦
              some (record { replica = name; address = address; healthy = pod_is_ready pod })
        ]
      ]
    ]
  ]

  -- the loop over the pods
  unfoldable pub push_pods :
      (port : ℕ)
      → List Pod
      → List (PartitionId × List ReplicaEndpoint)
      → List (PartitionId × List ReplicaEndpoint)
  unfolding pod_to_replica_endpoint push_all pod_partitions
  push_pods port [] replicas = replicas
  push_pods port (pod ∷ pods) replicas = elim (pod_to_replica_endpoint pod port) [
    | none ↦ push_pods port pods replicas
    | some endpoint ↦ push_pods port pods (push_all endpoint (pod_partitions pod) replicas)
  ]

  -- `KubernetesDiscovery::current_map`, on the answer of the API
  unfoldable pub current_map :
      (pods : Result String (List Pod)) → (port : ℕ) → Result DiscoveryError PartitionMap
  unfolding push_pods
  current_map (err e) port = err (kubernetes_api e)
  current_map (ok pods) port = ok (record { replicas_by_partition = push_pods port pods [] })

  abbrev pub kubernetes_discovery : (pods : Result String (List Pod)) → (port : ℕ) → Discovery
  kubernetes_discovery pods port = record { current_map = current_map pods port }

  -- the loop of `single_replica_per_partition`
  unfoldable pub insert_single :
      List (ℕ × SocketAddr)
      → List (PartitionId × List ReplicaEndpoint)
      → List (PartitionId × List ReplicaEndpoint)
  insert_single [] replicas = replicas
  insert_single ((partition, address) ∷ addrs) replicas =
      let endpoint : ReplicaEndpoint = record {
        replica = "partition-" <> number_text partition;
        address = address;
        healthy = true;
      } in
      insert_single addrs (insert partition (endpoint ∷ []) replicas)

  unfoldable pub single_replica_per_partition : List (ℕ × SocketAddr) → PartitionMap
  unfolding insert_single
  single_replica_per_partition addrs = record { replicas_by_partition = insert_single addrs [] }

-- `StaticDiscovery`
abbrev pub static_discovery : PartitionMap → Discovery
static_discovery partitions = record { current_map = ok partitions }
