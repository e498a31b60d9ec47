-- ===== src/Examples/Pods.antt =====
-- Tests of the discovery of replicas: pods whose addresses are told apart by their texts.
use doi.Prelude.{
  nat_eq, insert, ℕ, String, true, false, List, [], ◌∷◌, Option, none, some, ok, err, In, ◌↔◌, ◌≡◌,
  refl, get, or_default, flat_map, string_eq, ◌==◌, if◌then◌else◌,
}
use doi.Prelude.Parsing.{codes, split_on, trim, parse_unsigned}
use doi.Cluster.{SocketAddr, ReplicaEndpoint, PartitionMap, kubernetes_api}
use doi.Cluster.Pods.{
  Pod, PodCondition, parse_partitions, partitions_annotation, current_map, pod_to_replica_endpoint,
  pod_partitions, pod_is_ready, single_replica_per_partition,
}
use doi.Cluster.Pods.Replicas.{current_map-Hosts, Hosts, replicas_on}

abbrev two_addresses : String → Option SocketAddr
two_addresses text =
    if text == "10.0.0.1:7000"
    then some (SocketAddr.v4 1 7000)
    else if text == "10.0.0.2:7000"
    then some (SocketAddr.v4 2 7000)
    else none

abbrev port_text : ℕ → String
port_text port = "7000"

abbrev ready : PodCondition
ready = record { type_ = "Ready"; status = "True" }

abbrev unready : PodCondition
unready = record { type_ = "Ready"; status = "False" }

abbrev pod_at : String → String → PodCondition → String → Pod
pod_at name ip condition partitions = record {
  name = some name;
  annotations = some ((partitions_annotation, partitions) ∷ []);
  status = some (record { pod_ip = some ip; conditions = some (condition ∷ []) });
}

abbrev pods : List Pod
pods =
    pod_at "a" "10.0.0.1" ready "0, 3"
    ∷ pod_at "b" "::1" ready "3"
    ∷ pod_at "c" "10.0.0.2" unready "3,x,4294967296"
    ∷ []

parse_partitions_test :
    parse_partitions "+3, 17 ,x,4294967296,,4294967295" ≡ 3 ∷ 17 ∷ 4294967295 ∷ []
unfolding parse_partitions split_on codes trim parse_unsigned
parse_partitions_test = refl

replicas_on_test :
    flat_map (replicas_on two_addresses port_text 3 7000) pods
    ≡ record { replica = "a"; address = SocketAddr.v4 1 7000; healthy = true }
      ∷ record { replica = "c"; address = SocketAddr.v4 2 7000; healthy = false }
      ∷ []
unfolding replicas_on pod_to_replica_endpoint pod_is_ready pod_partitions parse_partitions split_on
    codes trim parse_unsigned
replicas_on_test = refl

current_map-Hosts_example :
    (found : PartitionMap) × (current_map two_addresses port_text (ok pods) 7000 ≡ ok found)
    × (or_default (get ⦃e = nat_eq⦄ 3 found.replicas_by_partition)
        ≡ flat_map (replicas_on two_addresses port_text 3 7000) pods)
    × ((pod : Pod) (endpoint : ReplicaEndpoint)
        → In endpoint (replicas_on two_addresses port_text 3 7000 pod)
          ↔ Hosts two_addresses port_text 3 7000 pod endpoint)
current_map-Hosts_example = current_map-Hosts two_addresses port_text pods 7000 3

current_map_test :
    current_map two_addresses port_text (err "down") 7000 ≡ err (kubernetes_api "down")
unfolding current_map
current_map_test = refl

abbrev one_replica : PartitionMap
one_replica = single_replica_per_partition two_addresses (λ n. "0") ((0, SocketAddr.v4 1 7000) ∷ [])

single_replica_per_partition_test :
    get ⦃e = nat_eq⦄ 0 one_replica.replicas_by_partition
    ≡ some (record { replica = "partition-0"; address = SocketAddr.v4 1 7000; healthy = true } ∷ [])
unfolding single_replica_per_partition insert
single_replica_per_partition_test = refl
