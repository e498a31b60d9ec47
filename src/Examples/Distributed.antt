-- ===== src/Examples/Distributed.antt =====
-- Tests of the distributed executor, on one partition with one replica, and on two whose replicas run the
-- local executor.
use doi.Prelude.{
  list_beq, String, ◌==◌, if◌then◌else◌, true, List, [], ◌∷◌, none, some, get, get-insert_self,
  insert, flat_map, is_some, nat_eq, string_eq, In, inl, inr, ◌↔◌, ◌≡◌, refl, sym, subst, arith,
  In-append, In-flat_map, In-of_flat_map,
}
use doi.Schema.{NodeId, EdgeId, EdgeType}
use doi.Storage.{EdgeRow}
use doi.Schema.Partitioning.{partition_of}
use doi.Dsl.{Direction}
use doi.Index.{PartitionId, IndexGeneration}
use doi.Cluster.{ReplicaEndpoint, SocketAddr, PartitionMap, PartitionHasher, hash_partition}
use doi.Query.{Frontier, ok, PlanStep, ExpandHop, Binding, from_node}
use doi.Query.Distributed.{
  ScatterGatherExecutor, pick_replica, binding_key, add_new, dedup, group_by_owning_node_partition,
}
use doi.Query.Distributed.Entries.{HoldsOnce, dedup-HoldsOnce}
use doi.Query.Distributed.Groups.{AllBound, IsGrouped, group_by_owning_node_partition-IsGrouped}
use doi.Query.Distributed.Execute.{one_round, scatter_gather_hop}
use doi.Query.Distributed.Rounds.{AnswersHop, IsReached, one_round-reaches}
use doi.Examples.{low_byte, no_times, ann, bob, cyd, knows_bob, knows_cyd, people_builder}
use doi.Query.Local as Local
use doi.Index.Scan.{assemble}
use doi.Prelude.Int.{pos}
use doi.Prelude.Sorting.{sort_by, insert_by}

abbrev frontier : List Binding
frontier = from_node "a" 0 ∷ from_node "a" 2 ∷ from_node "a" 0 ∷ []

-- Two matches over parallel edges, the first of them twice, its maps in two orders.
abbrev match_over : (edge : EdgeId) → (nodes : List (String × NodeId)) → Binding
match_over edge nodes = record { nodes = nodes; edges = ("e", edge) ∷ [] }

abbrev matches : List Binding
matches =
    match_over 7 (("a", 0) ∷ ("b", 2) ∷ [])
    ∷ match_over 7 (("b", 2) ∷ ("a", 0) ∷ [])
    ∷ match_over 8 (("a", 0) ∷ ("b", 2) ∷ [])
    ∷ []

dedup_test :
    dedup matches
    ≡ match_over 7 (("a", 0) ∷ ("b", 2) ∷ []) ∷ match_over 8 (("a", 0) ∷ ("b", 2) ∷ []) ∷ []
unfolding dedup add_new binding_key sort_by insert_by list_beq
dedup_test = refl

dedup-HoldsOnce_example : HoldsOnce (λ b. In b matches) (dedup matches)
dedup-HoldsOnce_example = dedup-HoldsOnce matches

frontier-AllBound : (hasher : PartitionHasher) → AllBound low_byte hasher "a" frontier
unfolding AllBound
frontier-AllBound hasher b (inl e) = subst (λ z. is_some (get "a" z.nodes) ≡ true) (sym e) refl
frontier-AllBound hasher b (inr (inl e)) =
    subst (λ z. is_some (get "a" z.nodes) ≡ true) (sym e) refl
frontier-AllBound hasher b (inr (inr (inl e))) =
    subst (λ z. is_some (get "a" z.nodes) ≡ true) (sym e) refl
frontier-AllBound hasher b (inr (inr (inr i))) = absurd i

abbrev two : PartitionHasher
two = record { n_partitions = 2 }

group_by_owning_node_partition-IsGrouped_example :
    (groups : List (PartitionId × List Binding)) × (group_by_owning_node_partition low_byte two
        frontier "a"
      ≡ ok groups)
    × IsGrouped low_byte two "a" [] frontier groups
group_by_owning_node_partition-IsGrouped_example =
    group_by_owning_node_partition-IsGrouped low_byte two "a" frontier (frontier-AllBound two)

abbrev hop : ExpandHop
hop = record {
  from_alias = "a";
  to_alias = "b";
  to_label = none;
  edge_type = none;
  direction = Direction.outgoing;
  hops = record { min = 1; max = 1 };
  filters = [];
  edge_alias = none;
}

-- Every node has an edge to node 4.
abbrev to_four : ExpandHop → Binding → List Binding
to_four h b = record b { nodes = insert h.to_alias 4 b.nodes } ∷ []

abbrev expand : PlanStep → List Binding → Frontier
expand (PlanStep.expand_hop h) group = record { local = flat_map (to_four h) group; remote = [] }
expand _ group = record { local = []; remote = [] }

abbrev replica : ReplicaEndpoint
replica = record { replica = "node-0"; address = SocketAddr.v4 0 80; healthy = true }

abbrev partitions : PartitionMap
partitions = record { replicas_by_partition = (0, replica ∷ []) ∷ [] }

abbrev executor : ScatterGatherExecutor
executor = record {
  rpc = record {
    resolve_start = λ r step. ok [];
    resolve_all = λ r step. ok [];
    expand_hop = λ r step group. ok (expand step group);
    get_node_properties = λ r ids. ok [];
    get_edge_properties = λ r ids. ok [];
    check_anti_join = λ r step conditions group. ok group;
  };
  hasher = record { n_partitions = 1 };
}

partition-zero : (node : NodeId) → hash_partition low_byte executor.hasher node ≡ 0
unfolding partition_of
partition-zero node = omega arith

executor-AnswersHop : (h : ExpandHop) → AnswersHop executor partitions low_byte h (to_four h)
unfolding pick_replica IsReached
executor-AnswersHop h = record {
  replica_of = λ node. (
    replica,
    subst (λ z. pick_replica partitions z ≡ some replica) (sym (partition-zero node)) refl,
  );
  answer = λ partition r group picked home. (
    record { local = flat_map (to_four h) group; remote = [] },
    refl,
    λ b'. (
      λ i. elim ((In-append b' (flat_map (to_four h) group) []).0 i) [
        | inl j ↦ In-of_flat_map (to_four h) b' group j
        | inr n ↦ absurd n
      ],
      λ (b, i, j).
          (In-append b' (flat_map (to_four h) group) []).1
            (inl (In-flat_map (to_four h) b b' group i j)),
    ),
  );
}

one_round-reaches_example :
    (out : List Binding) × (one_round executor partitions low_byte
        (PlanStep.expand_hop hop)
        frontier
      ≡ ok out)
    × ((b' : Binding)
        → In b' out ↔ IsReached executor partitions low_byte hop (to_four hop) frontier b')
one_round-reaches_example =
    one_round-reaches executor partitions low_byte hop (to_four hop) (executor-AnswersHop hop)
      frontier (frontier-AllBound executor.hasher)

-- one to three hops
abbrev hops : ExpandHop
hops = record hop { hops = record { min = 1; max = 3 } }

-- A cluster of two partitions whose replicas run the local executor.
abbrev other : ReplicaEndpoint
other = record { replica = "node-1"; address = SocketAddr.v4 0 81; healthy = true }

abbrev both : PartitionMap
both = record { replicas_by_partition = (0, replica ∷ []) ∷ (1, other ∷ []) ∷ [] }

-- Cyd, on partition 1, knows Ann, on partition 0.
abbrev circle : List (EdgeType × EdgeRow)
circle =
    ("KNOWS", knows_bob)
    ∷ ("KNOWS", knows_cyd)
    ∷ ("KNOWS", record { id = 12; src = 1; dst = 0; properties = [] })
    ∷ []

abbrev even_generation : IndexGeneration
even_generation =
    assemble low_byte (pos 9) people_builder 0 (("Person", ann) ∷ ("Person", bob) ∷ []) circle []

abbrev odd_generation : IndexGeneration
odd_generation = assemble low_byte (pos 9) people_builder 1 (("Person", cyd) ∷ []) circle []

abbrev generation_of : ReplicaEndpoint → IndexGeneration
generation_of r = if r.replica == "node-1" then odd_generation else even_generation

abbrev cluster : ScatterGatherExecutor
cluster = record {
  rpc = record {
    resolve_start = λ r step. Local.resolve_start (generation_of r) step;
    resolve_all = λ r step. Local.resolve_all (generation_of r) step;
    expand_hop = λ r step group. Local.expand_hop (generation_of r) step group;
    get_node_properties = λ r ids. ok [];
    get_edge_properties = λ r ids. ok [];
    check_anti_join = λ r step conditions group.
        Local.check_anti_join no_times (generation_of r) step conditions group;
  };
  hasher = two;
}

-- From Ann in one to three hops: to Bob and, through Cyd on the other partition, back to herself.
scatter_gather_hop_test :
    scatter_gather_hop cluster both low_byte (PlanStep.expand_hop hops) (from_node "a" 0 ∷ [])
    ≡ ok (
        record { nodes = ("a", 0) ∷ ("b", 2) ∷ []; edges = [] }
        ∷ record { nodes = ("a", 0) ∷ ("b", 1) ∷ []; edges = [] }
        ∷ record { nodes = ("a", 0) ∷ ("b", 0) ∷ []; edges = [] }
        ∷ [])
unfolding scatter_gather_hop group_by_owning_node_partition doi.Prelude.entry_push pick_replica
    partition_of doi.Schema.Partitioning.stable_hash doi.Schema.Partitioning.to_le_bytes
    Local.expand_hop doi.Index.out_neighbors assemble doi.Index.Builder.build_topology
    doi.Index.Builder.collect_local insert doi.Index.Builder.build_csr
    doi.Index.Builder.flatten_buckets doi.Index.Builder.bucket_edges doi.Index.Builder.bucket_edge
    doi.Index.Builder.build_property_index doi.Index.Builder.entry doi.Index.Builder.index_nodes
    doi.Index.Builder.index_properties doi.Index.Builder.index_property
    doi.Index.Builder.property_key doi.Index.Builder.push_at doi.Index.Builder.tree_push
    doi.Index.find_key doi.Index.in_neighbors doi.Index.lookup_eq doi.Index.lookup_range
    doi.Index.neighbors list_beq doi.Prelude.collect_into insert_by sort_by
    doi.Query.Distributed.Execute.expand_groups doi.Query.Distributed.Execute.hop_rounds one_round
    add_new binding_key doi.Query.Distributed.group_bindings Local.accept Local.allowed_by
    Local.apply_filters Local.ids_matching Local.keep_allowed Local.visit_entries Local.visit_entry
    Local.visit_local Local.visit_nodes Local.visit_remote Local.walk_bindings Local.walk_depths
    doi.Query.Planner.literal_to_property_key
scatter_gather_hop_test = refl
