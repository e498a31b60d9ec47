-- ===== src/Query/Distributed.antt =====
-- graph-engine/crates/graph-query/src/distributed_executor.rs: calls of the partitions' replicas. The
-- calls themselves go over the network: they are the interface `PartitionRpc`.
pub mod Keys
pub mod Groups
pub mod Execute
pub mod Rounds
pub mod Plans
pub mod Walks
pub mod Replicas
pub mod Entries
use doi.Prelude.{
  ℕ, zero, suc, ◌+◌, String, Bool, true, false, not, ◌&&◌, List, [], ◌∷◌, ◌++◌, Option, none, some,
  map, get, insert, contains_key, filter, filter_map, any, all, entry_push, collect_into, string_eq,
  nat_eq, pair_eq, list_eq, ◌==◌, if◌then◌else◌, is_some, leb,
}
use doi.Prelude.Int.{ℤ}
use doi.Prelude.Order.{nat_ord, string_ord, pair_ord}
use doi.Prelude.Sorting.{sort_by}
use doi.Schema.{NodeId, EdgeId}
use doi.Storage.{Properties}
use doi.Dsl.{ComparisonOp, HopRange, PropertyFilter, PropertyRef}
use doi.Index.{PartitionId, NodeRecord, EdgeRecord, RemoteRef}
use doi.Cluster.{ReplicaEndpoint, PartitionMap, PartitionHasher, healthy_replicas, hash_partition}
use doi.Query.{
  Run, ok, err, panic, ◌>>=◌, bound, ExecutionError, QueryPlan, PlanStep, ExpandHop, AntiJoinStep,
  Binding, Frontier,
}
use doi.Query.Filter.{evaluate_filter, property_value_to_literal, filter_beq}

pub record PartitionRpc : Type 0 where
  pub resolve_start : ReplicaEndpoint → PlanStep → Run (List Binding)
  pub resolve_all : ReplicaEndpoint → PlanStep → Run (List Binding)
  pub expand_hop : ReplicaEndpoint → PlanStep → (frontier : List Binding) → Run Frontier
  pub get_node_properties : ReplicaEndpoint → List NodeId → Run (List (NodeId × NodeRecord))
  pub get_edge_properties : ReplicaEndpoint → List EdgeId → Run (List (EdgeId × EdgeRecord))
  pub check_anti_join :
      ReplicaEndpoint
      → AntiJoinStep
      → List PropertyFilter
      → (frontier : List Binding) → Run (List Binding)

pub record ScatterGatherExecutor : Type 0 where
  pub rpc : PartitionRpc
  pub hasher : PartitionHasher

-- `Vec<(u8, String, u64)>`
abbrev pub Key : Type 0
Key = List (ℕ × (String × ℕ))

unfoldable pub binding_key : Binding → Key
binding_key binding = sort_by (pair_ord {A = ℕ} {B = String × ℕ}).cmp (
    map (λ (n : String × NodeId). (0, (n.0, n.1))) binding.nodes
    ++ map (λ (e : String × EdgeId). (1, (e.0, e.1))) binding.edges)

-- the loop that keeps a binding if `seen.insert(binding_key(&binding))`
unfoldable pub add_new : List Binding → List Key × List Binding → List Key × List Binding
add_new [] state = state
add_new (binding ∷ bindings) (seen, kept) =
    let key = binding_key binding in
    add_new bindings (
      if any (λ k. ◌==◌ {A = Key} k key) seen
      then (seen, kept)
      else (key ∷ seen, kept ++ binding ∷ []))

unfoldable pub dedup : List Binding → List Binding
unfolding add_new
dedup bindings = (add_new bindings ([], [])).1

abbrev pub first_of : {A : Type 0} → List A → Option A
first_of [] = none
first_of (x ∷ xs) = some x

unfoldable pub pick_replica : PartitionMap → PartitionId → Option ReplicaEndpoint
pick_replica partitions partition = first_of (healthy_replicas partitions partition)

module _ (xxh3_64 : List ℕ → ℕ) (hasher : PartitionHasher) where
  -- the loop, with the groups so far
  unfoldable pub group_ids :
      List NodeId → List (PartitionId × List NodeId) → List (PartitionId × List NodeId)
  group_ids [] groups = groups
  group_ids (id ∷ ids) groups =
      group_ids ids (entry_push (hash_partition xxh3_64 hasher id) id groups)

  unfoldable pub group_ids_by_partition : List NodeId → List (PartitionId × List NodeId)
  unfolding group_ids
  group_ids_by_partition ids = group_ids ids []

  unfoldable pub group_bindings :
      (alias : String)
      → List Binding
      → List (PartitionId × List Binding)
      → Run (List (PartitionId × List Binding))
  group_bindings alias [] groups = ok groups
  group_bindings alias (binding ∷ frontier) groups = do
    node ← bound alias (get alias binding.nodes)
    group_bindings alias frontier (entry_push (hash_partition xxh3_64 hasher node) binding groups)

  unfoldable pub group_by_owning_node_partition :
      List Binding → (alias : String) → Run (List (PartitionId × List Binding))
  unfolding group_bindings
  group_by_owning_node_partition frontier alias = group_bindings alias frontier []
