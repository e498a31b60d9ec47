-- ===== src/Query/Distributed/Execute.antt =====
-- graph-engine/crates/graph-query/src/distributed_executor.rs, the operations of
-- `ScatterGatherExecutor`.
use doi.Prelude.{
  ℕ, zero, suc, String, Bool, true, false, not, List, [], ◌∷◌, ◌++◌, none, some, map, filter, any,
  collect_into, string_eq, nat_eq, ◌==◌, if◌then◌else◌, leb,
}
use doi.Schema.{NodeId, EdgeId}
use doi.Index.{PartitionId, NodeRecord, EdgeRecord, RemoteRef}
use doi.Cluster.{ReplicaEndpoint, PartitionMap}
use doi.Query.{Run, ok, err, panic, ◌>>=◌, ExecutionError, PlanStep, ExpandHop, Binding}
use doi.Query.Distributed.{
  ScatterGatherExecutor, Key, add_new, pick_replica, group_ids_by_partition,
  group_by_owning_node_partition,
}

abbrev pub is_empty : {A : Type 0} → List A → Bool
is_empty [] = true
is_empty (x ∷ xs) = false

-- `collect::<HashSet<_>>()`
abbrev pub id_set : List ℕ → List ℕ
id_set [] = []
id_set (id ∷ ids) = let rest = id_set ids in if any (λ n. n == id) rest then rest else id ∷ rest

abbrev pub keys : List (PartitionId × List ReplicaEndpoint) → List PartitionId
keys partitions = map (λ (p : PartitionId × List ReplicaEndpoint). p.0) partitions

-- `round_step`
abbrev pub round_hop : ExpandHop → (cursor_alias : String) → (depth : ℕ) → ExpandHop
round_hop hop cursor_alias depth = record {
  from_alias = cursor_alias;
  to_alias = hop.to_alias;
  to_label = none;
  edge_type = hop.edge_type;
  direction = hop.direction;
  hops = record { min = 1; max = 1 };
  filters = [];
  edge_alias = if depth == 1 then hop.edge_alias else none;
}

module _ (executor : ScatterGatherExecutor) (partitions : PartitionMap) where
  unfoldable pub resolve_at : ReplicaEndpoint → PlanStep → Run (List Binding)
  resolve_at replica (PlanStep.resolve_start alias label property key) =
      executor.rpc.resolve_start replica (PlanStep.resolve_start alias label property key)
  resolve_at replica (PlanStep.resolve_all alias label) =
      executor.rpc.resolve_all replica (PlanStep.resolve_all alias label)
  resolve_at replica _ = panic

  -- the loop over the partitions, with `seen` and `merged`
  unfoldable pub broadcast_to :
      PlanStep → List PartitionId → List Key × List Binding → Run (List Binding)
  unfolding resolve_at
  broadcast_to step [] (seen, merged) = ok merged
  broadcast_to step (partition ∷ rest) state = elim (pick_replica partitions partition) [
    | none ↦ broadcast_to step rest state
    | some replica ↦ do
      bindings ← resolve_at replica step
      broadcast_to step rest (add_new bindings state)
  ]

  unfoldable pub broadcast_resolve : PlanStep → Run (List Binding)
  unfolding broadcast_to
  broadcast_resolve step = broadcast_to step (keys partitions.replicas_by_partition) ([], [])

  -- the loop over the groups, with `next`
  unfoldable pub expand_groups :
      PlanStep → List (PartitionId × List Binding) → (next : List Binding) → Run (List Binding)
  expand_groups round_step [] next = ok next
  expand_groups round_step ((partition, group) ∷ groups) next =
      elim (pick_replica partitions partition) [
        | none ↦ expand_groups round_step groups next
        | some replica ↦ do
          result ← executor.rpc.expand_hop replica round_step group
          expand_groups round_step groups
              ((next ++ result.local) ++ map (λ (r : RemoteRef × Binding). r.1) result.remote)
      ]

  -- the properties of nodes, group by group
  unfoldable pub fetch_nodes :
      List (PartitionId × List NodeId)
      → List (NodeId × NodeRecord)
      → Run (List (NodeId × NodeRecord))
  fetch_nodes [] properties = ok properties
  fetch_nodes ((partition, ids) ∷ groups) properties = elim (pick_replica partitions partition) [
    | none ↦ fetch_nodes groups properties
    | some replica ↦ do
      found ← executor.rpc.get_node_properties replica ids
      fetch_nodes groups (collect_into found properties)
  ]

  -- the loop over the partitions, with the ids that remain
  unfoldable pub fetch_edges :
      List PartitionId
      → (remaining : List EdgeId) → List (EdgeId × EdgeRecord)
      → Run (List (EdgeId × EdgeRecord))
  fetch_edges [] remaining properties = ok properties
  fetch_edges (partition ∷ rest) remaining properties =
      if is_empty remaining then ok properties else elim (pick_replica partitions partition) [
        | none ↦ fetch_edges rest remaining properties
        | some replica ↦ do
          found ← executor.rpc.get_edge_properties replica remaining
          fetch_edges rest
              (filter (λ id. not (any (λ (f : EdgeId × EdgeRecord). f.0 == id) found)) remaining)
              (collect_into found properties)
      ]

  unfoldable pub get_edge_properties : List EdgeId → Run (List (EdgeId × EdgeRecord))
  unfolding fetch_edges
  get_edge_properties ids = fetch_edges (keys partitions.replicas_by_partition) (id_set ids) []

  module _ (xxh3_64 : List ℕ → ℕ) where
    unfoldable pub get_node_properties : List NodeId → Run (List (NodeId × NodeRecord))
    unfolding fetch_nodes
    get_node_properties ids = fetch_nodes (group_ids_by_partition xxh3_64 executor.hasher ids) []

    unfoldable pub one_round : PlanStep → (frontier : List Binding) → Run (List Binding)
    unfolding expand_groups
    one_round (PlanStep.expand_hop hop) frontier = do
      by_partition ← group_by_owning_node_partition xxh3_64 executor.hasher frontier hop.from_alias
      expand_groups (PlanStep.expand_hop hop) by_partition []
    one_round _ frontier =
        err (ExecutionError.unknown_alias "one_round called with a non-ExpandHop step")

    -- `for depth in 1..=hops.max`, with the rounds that are left, `seen` and `accepted`
    unfoldable pub hop_rounds :
        ExpandHop
        → (left depth : ℕ) → (cursor_alias : String) → (current : List Binding)
        → List Key × List Binding
        → Run (List Binding)
    unfolding one_round
    hop_rounds hop zero depth cursor_alias current (seen, accepted) = ok accepted
    hop_rounds hop (suc left) depth cursor_alias current state =
        if is_empty current then ok state.1 else (do
          next ← one_round (PlanStep.expand_hop (round_hop hop cursor_alias depth)) current
          hop_rounds hop left (suc depth) hop.to_alias next
              (if leb hop.hops.min depth then add_new next state else state))

    unfoldable pub scatter_gather_hop : PlanStep → (frontier : List Binding) → Run (List Binding)
    unfolding hop_rounds
    scatter_gather_hop (PlanStep.expand_hop hop) frontier =
        hop_rounds hop hop.hops.max 1 hop.from_alias frontier ([], [])
    scatter_gather_hop _ frontier =
        err (ExecutionError.unknown_alias "scatter_gather_hop called with a non-ExpandHop step")
