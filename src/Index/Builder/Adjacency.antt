-- ===== src/Index/Builder/Adjacency.antt =====
-- graph-engine/crates/graph-index/src/builder.rs, `build_topology`: the compressed rows answer like
-- a scan of all edges.
use native.Mathlib.Numerals.{add-one}
use doi.Prelude.{
  inl, inr, ℕ, zero, suc, ◌+◌, ◌≤◌, ◌<◌, ◌≡◌, refl, ap, ◌∙◌, Bool, true, false, ◌&&◌, not, List, [],
  ◌∷◌, ◌++◌, Option, some, arith, length, get, get_or, nat_eq, ◌==◌, ==_iff, replicate, filter_map,
  map, if◌then◌else◌, Option-cases,
}
use doi.Schema.{NodeId, EdgeType, Label}
use doi.Schema.Partitioning.{partition_of}
use doi.Storage.{NodeRow, EdgeRow}
use doi.Index.{PartitionId, AdjacencyEntry, slice, out_neighbors, in_neighbors}
use doi.Index.Builder.{
  u32_mod, entry, owner_of, dst_of, bucket_edges, then_some, build_csr, build_topology,
  collect_local,
}
use doi.Index.Builder.Rows.{flat, flatten_buckets_lem, slice-ends}
use doi.Index.Builder.Buckets.{
  entry_in, get_or-bucket_edges, length-bucket_edges, length-flat-bucket_edges,
}
use doi.Index.Builder.Table.{member, table_bound, table_injective, contains_key-table}

abbrev pub ids_of : List (Label × NodeRow) → List NodeId
ids_of nodes = map (λ (n : Label × NodeRow). n.1.id) nodes

length-replicate : {A : Type 0} (n : ℕ) (a : A) → length (replicate n a) ≡ n
length-replicate zero a = refl
length-replicate (suc n) a = ap suc (length-replicate n a)

get_or-replicate_nil : {A : Type 0} (n i : ℕ) → get_or {A = List A} (replicate n []) i [] ≡ []
get_or-replicate_nil zero i = refl
get_or-replicate_nil (suc n) zero = refl
get_or-replicate_nil {A} (suc n) (suc i) = get_or-replicate_nil {A = A} n i

flat-replicate_nil : {A : Type 0} (n : ℕ) → flat {A = A} (replicate n []) ≡ []
flat-replicate_nil zero = refl
flat-replicate_nil {A} (suc n) = flat-replicate_nil {A = A} n

filter_map-congr :
    {A B : Type 0} (f g : A → Option B)
    → ((x : A) → f x ≡ g x)
    → (xs : List A) → filter_map f xs ≡ filter_map g xs
filter_map-congr f g h [] = refl
filter_map-congr f g h (x ∷ xs) = ground (arith, h x, filter_map-congr f g h xs)

module _ (xxh3_64 : List ℕ → ℕ) (partition : PartitionId) (ids : List NodeId)
    (n_partitions : ℕ) where
  -- How an edge is seen from a node at its near end: the far end is local if the partition has the
  -- node, remote if it belongs elsewhere, and neither if the node is missing.
  unfoldable pub seen_from :
      (outgoing : Bool) → (node : NodeId) → EdgeType × EdgeRow → Option AdjacencyEntry
  seen_from outgoing node (edge_type, row) =
      let dst = dst_of outgoing row in
      let home = partition_of xxh3_64 dst n_partitions in
      then_some (owner_of outgoing row == node) (record {
        edge_id = row.id;
        edge_type = edge_type;
        dst_local = then_some (member dst ids) dst;
        dst_remote =
            then_some (not (member dst ids) && not (home == partition))
              (record { partition = home; node = dst });
      })

  -- the scan of all edges that the index stands for
  unfoldable pub incident :
      (outgoing : Bool) → List (EdgeType × EdgeRow) → NodeId → List AdjacencyEntry
  incident outgoing edges node = filter_map (seen_from outgoing node) edges

  module _ (fits : length ids ≤ u32_mod) where
    entry_in-eq-seen_from :
        (outgoing : Bool) (node : NodeId) (i : ℕ)
        → get node (collect_local 0 ids []) ≡ some i
        → (e : EdgeType × EdgeRow)
        → entry_in xxh3_64 partition (collect_local 0 ids []) outgoing n_partitions i e
          ≡ seen_from outgoing node e
    unfolding seen_from entry
    entry_in-eq-seen_from outgoing node i h (edge_type, row) =
        let near = owner_of outgoing row in
        let far = dst_of outgoing row in
        ground (
          arith,
          ==_iff near node,
          table_injective ids fits near node i,
          contains_key-table ids far,
        )

    module _ (edges : List (EdgeType × EdgeRow)) (few : length edges < u32_mod) where
      row_of_csr :
          (outgoing : Bool) (node : NodeId) (i : ℕ)
          → get node (collect_local 0 ids []) ≡ some i
          → let csr =
              build_csr xxh3_64 partition ids
                (collect_local 0 ids [])
                edges
                outgoing
                n_partitions in
            slice csr.1 (get_or csr.0 i 0) (get_or csr.0 (i + 1) 0) ≡ incident outgoing edges node
      unfolding build_csr incident
      row_of_csr outgoing node i h =
          let table = collect_local 0 ids [] in
          let empty = replicate {A = List AdjacencyEntry} (length ids) [] in
          let buckets = bucket_edges xxh3_64 partition table outgoing n_partitions edges empty in
          let size =
            length-bucket_edges xxh3_64 partition table outgoing n_partitions edges empty in
          let total =
            length-flat-bucket_edges xxh3_64 partition table outgoing n_partitions edges empty in
          let none_yet = ap length (flat-replicate_nil {A = AdjacencyEntry} (length ids)) in
          let blank = length-replicate {A = List AdjacencyEntry} (length ids) [] in
          let inside = table_bound ids fits node i h in
          let held =
            get_or-bucket_edges xxh3_64 partition table outgoing n_partitions edges empty i
              (λ id k e. omega (arith, table_bound ids fits id k e)) in
          let here = entry_in xxh3_64 partition table outgoing n_partitions i in
          rw (flatten_buckets_lem buckets (0 ∷ []) [], add-one)
            (slice-ends [] buckets i (omega arith) (omega arith)
              ∙ held
              ∙ ap (λ z. z ++ filter_map here edges) (get_or-replicate_nil (length ids) i)
              ∙ filter_map-congr here (seen_from outgoing node)
                  (entry_in-eq-seen_from outgoing node i h) edges)

-- In a built index the neighbours of a node are what a scan of all the edges finds, in the order
-- of the scan, in both directions; a node that the partition does not own has none. The positions
-- and the offsets are 32 bits wide, so there are at most 2^32 nodes and fewer edges.
pub neighbors-build_topology :
    (xxh3_64 : List ℕ → ℕ) (partition : PartitionId) (nodes : List (Label × NodeRow))
    (edges : List (EdgeType × EdgeRow)) (n_partitions : ℕ) (node : NodeId)
    → length (ids_of nodes) ≤ u32_mod
    → length edges < u32_mod
    → let index = build_topology xxh3_64 partition nodes edges n_partitions in
      let found = incident xxh3_64 partition (ids_of nodes) n_partitions in
      let owned = member node (ids_of nodes) in
      (out_neighbors index node ≡ (if owned then found true edges node else []))
      × (in_neighbors index node ≡ (if owned then found false edges node else []))
unfolding build_topology out_neighbors in_neighbors
neighbors-build_topology xxh3_64 partition nodes edges n_partitions node fits few =
    let ids = ids_of nodes in
    let known = contains_key-table ids node in
    elim (Option-cases (get node (collect_local 0 ids []))) [
      | inl e ↦ ground arith
      | inr (i, e) ↦ ground (
        arith,
        row_of_csr xxh3_64 partition ids n_partitions fits edges few true node i e,
        row_of_csr xxh3_64 partition ids n_partitions fits edges few false node i e,
      )
    ]
