-- ===== src/Examples/Index.antt =====
-- Tests of the index and of the partition node that serves it.
use doi.Prelude.{
  ℕ, ◌≤◌, ◌<◌, true, List, [], ◌∷◌, none, some, Result, ok, err, In, inl, inr, insert, subst,
  string_eq, ◌↔◌, ◌≡◌, refl, arith,
}
use doi.Prelude.Int.{ℤ, pos}
use doi.Schema.Partitioning.{partition_of, stable_hash, to_le_bytes}
use doi.Index.{
  AdjacencyEntry, Bound, out_neighbors, in_neighbors, lookup_eq, lookup_range, IndexGeneration,
  acquire,
}
use doi.Index.Key.{PropertyKey}
use doi.Index.Builder.{build_topology, build_property_index, u32_mod}
use doi.Index.Builder.Tree.{within}
use doi.Index.Builder.Adjacency.{seen_from, incident, neighbors-build_topology}
use doi.Index.Builder.Reads.{HasKey, In-lookup_eq, In-lookup_range}
use doi.Storage.{IcebergReader}
use doi.Index.Scan.{RebuildError, build, read_nodes, read_edges, read_rows, assemble}
use doi.Index.Scan.Owned.{IsOwnedBy, build-IsOwnedBy}
use doi.PartitionNode.{periodic_rebuild_loop}
use doi.PartitionNode.Serving.{rebuild, AreSmall, IsBuilt, periodic_rebuild_loop-serves}
use doi.Examples.{
  low_byte, same_case, people, even_nodes, all_edges, ann, bob, cyd, tables, broken_tables,
  people_builder,
}

abbrev to_bob : AdjacencyEntry
to_bob = record { edge_id = 10; edge_type = "KNOWS"; dst_local = some 2; dst_remote = none }

abbrev to_cyd : AdjacencyEntry
to_cyd = record {
  edge_id = 11;
  edge_type = "KNOWS";
  dst_local = none;
  dst_remote = some (record { partition = 1; node = 1 });
}

neighbors-build_topology_example :
    (out_neighbors (build_topology low_byte 0 even_nodes all_edges 2) 0 ≡ to_bob ∷ to_cyd ∷ [])
    × (in_neighbors (build_topology low_byte 0 even_nodes all_edges 2) 0 ≡ [])
unfolding incident seen_from partition_of stable_hash to_le_bytes
neighbors-build_topology_example =
    neighbors-build_topology low_byte 0 even_nodes all_edges 2 0 (omega arith) (omega arith)

In-lookup_eq_example :
    In 0 (
      lookup_eq (build_property_index people even_nodes) "Person" "name" (PropertyKey.string "ann"))
    ↔ HasKey people even_nodes "Person" "name" (PropertyKey.string "ann") 0
In-lookup_eq_example = In-lookup_eq people even_nodes "Person" "name" (PropertyKey.string "ann") 0

abbrev over_35 : Bound × Bound
over_35 = (Bound.excluded (PropertyKey.int64 (pos 35)), Bound.unbounded)

In-lookup_range_example :
    In 0 (lookup_range (build_property_index people even_nodes) "Person" "age" over_35) ↔ (
      (key : PropertyKey) × (within over_35 key ≡ true)
      × HasKey people even_nodes "Person" "age" key 0)
In-lookup_range_example = In-lookup_range people even_nodes "Person" "age" over_35 0

abbrev built : IndexGeneration
built =
    assemble low_byte (pos 9) people_builder 0
      (("Person", ann) ∷ ("Person", bob) ∷ ("Person", cyd) ∷ []) all_edges
      (("nodes_Person", pos 1) ∷ ("edges_KNOWS", pos 1) ∷ [])

build-built : build low_byte (pos 9) same_case people_builder 0 ("Person" ∷ []) ≡ ok built
unfolding build read_nodes read_edges read_rows insert
build-built = refl

build-IsOwnedBy_example : IsOwnedBy low_byte 2 0 built
unfolding assemble partition_of stable_hash to_le_bytes
build-IsOwnedBy_example =
    build-IsOwnedBy same_case low_byte (pos 9) people_builder 0 ("Person" ∷ []) built build-built
      (omega arith) (omega arith)

-- a tick that fails and one that succeeds
abbrev ticks : List (IcebergReader × ℤ)
ticks = (broken_tables, pos 10) ∷ (tables, pos 20) ∷ []

abbrev rebuilt : IcebergReader × ℤ → Result RebuildError IndexGeneration
rebuilt = rebuild low_byte same_case people 2 0 ("Person" ∷ [])

rebuilt-broken : (g : IndexGeneration) → rebuilt (broken_tables, pos 10) ≡ ok g → ⊥
unfolding build read_nodes
rebuilt-broken g e = cc

-- the counts of a result, 0 for an error
abbrev count_of : Result RebuildError IndexGeneration → ℕ
count_of (ok g) = g.meta.node_count
count_of (err e) = 0

abbrev edges_of : Result RebuildError IndexGeneration → ℕ
edges_of (ok g) = g.meta.edge_count
edges_of (err e) = 0

rebuilt-tables :
    (g : IndexGeneration)
    → rebuilt (tables, pos 20) ≡ ok g
    → (g.meta.node_count ≤ u32_mod) × (g.meta.edge_count < u32_mod)
unfolding build read_nodes read_edges read_rows assemble partition_of stable_hash to_le_bytes
rebuilt-tables g e =
    let small : (2 ≤ u32_mod) × (2 < u32_mod) = (omega arith, omega arith) in
    (subst (λ r. count_of r ≤ u32_mod) e small.0, subst (λ r. edges_of r < u32_mod) e small.1)

ticks-AreSmall : AreSmall low_byte same_case people 2 0 ("Person" ∷ []) ticks
unfolding AreSmall
ticks-AreSmall tick g (inl p) e = absurd (rebuilt-broken g (subst (λ t. rebuilt t ≡ ok g) p e))
ticks-AreSmall tick g (inr (inl p)) e = rebuilt-tables g (subst (λ t. rebuilt t ≡ ok g) p e)
ticks-AreSmall tick g (inr (inr i)) e = absurd i

abbrev served : IndexGeneration
served = acquire (
    periodic_rebuild_loop low_byte same_case people 2 0 ("Person" ∷ []) ticks
      (record { current = built }))

periodic_rebuild_loop-serves_example :
    IsBuilt low_byte same_case people 2 0 ("Person" ∷ []) ticks built served
    × IsOwnedBy low_byte 2 0 served
unfolding acquire
periodic_rebuild_loop-serves_example =
    periodic_rebuild_loop-serves low_byte same_case people 2 0 ("Person" ∷ []) ticks
      (record { current = built }) ticks-AreSmall build-IsOwnedBy_example
