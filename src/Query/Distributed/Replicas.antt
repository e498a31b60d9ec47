-- ===== src/Query/Distributed/Replicas.antt =====
-- graph-engine/crates/graph-query/src/distributed_executor.rs, `scatter_gather_hop`, over replicas that
-- run `expand_hop` of graph-engine/crates/graph-query/src/local_executor.rs on their generations.
use doi.Prelude.{
  ℕ, List, [], Option, none, some, get, filter_map, string_eq, nat_eq, ◌≡◌, if◌then◌else◌,
}
use doi.Schema.{NodeId}
use doi.Index.{AdjacencyEntry, IndexGeneration}
use doi.Cluster.{ReplicaEndpoint, PartitionMap, hash_partition}
use doi.Query.{PlanStep, ExpandHop, Binding}
use doi.Query.Local as Local
use doi.Query.Local.{type_fits, extend, neighbors_of}
use doi.Query.Local.Visit.{far_end}
use doi.Query.Distributed.{ScatterGatherExecutor, pick_replica}

-- What an edge makes of a binding, if its type fits.
abbrev pub step_over : ExpandHop → Binding → AdjacencyEntry → Option Binding
step_over hop b entry =
    if type_fits hop.edge_type entry
    then elim (far_end entry) [ none ↦ none | some node ↦ some (extend hop b entry node) ]
    else none

some_ne_none : {A : Type 0} {o : Option A} {a : A} → o ≡ none → o ≡ some a → ⊥
some_ne_none p q = cc

module _ (executor : ScatterGatherExecutor) (partitions : PartitionMap) (xxh3_64 : List ℕ → ℕ)
    (generation_of : ReplicaEndpoint → IndexGeneration) where
  -- The partition of every node has a replica that may be asked, and each answers with what the local
  -- executor returns on its generation.
  pub record RunsLocally : Type 0 where
    pub replica_of :
        (node : NodeId)
        → (replica : ReplicaEndpoint) × (pick_replica partitions
              (hash_partition xxh3_64 executor.hasher node)
            ≡ some replica)
    pub runs :
        (replica : ReplicaEndpoint) (hop : ExpandHop) (group : List Binding)
        → executor.rpc.expand_hop replica (PlanStep.expand_hop hop) group
          ≡ Local.expand_hop (generation_of replica) (PlanStep.expand_hop hop) group

  -- What the edges of a node make of a binding, as the replica of its partition holds them.
  unfoldable pub edges_at : ExpandHop → Binding → NodeId → List Binding
  edges_at hop b node =
      elim (pick_replica partitions (hash_partition xxh3_64 executor.hasher node)) [
        | none ↦ []
        | some replica ↦
            filter_map (step_over hop b)
              (neighbors_of (generation_of replica).topology hop.direction node)
      ]

  -- What is one hop away from a binding in the cluster.
  unfoldable pub one_hop : ExpandHop → Binding → List Binding
  unfolding edges_at
  one_hop hop b = elim (get hop.from_alias b.nodes) [ none ↦ [] | some node ↦ edges_at hop b node ]
