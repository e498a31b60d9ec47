-- ===== src/Index/Builder.antt =====
-- graph-engine/crates/graph-index/src/builder.rs: one generation of a partition's index from the
-- scanned rows. The storage reader and the lower-casing of table names are parameters.
pub mod Tree
pub mod Lookups
pub mod Reads
pub mod Rows
pub mod Buckets
pub mod Table
pub mod Adjacency
use Prim.Native.Nat.Ordering.{lt, eq, gt}
use Prim.Native.String.{◌++◌ as concat}
use doi.Prelude.{
  ℕ, zero, suc, ◌+◌, ◌%◌, ◌^◌, String, Bool, true, false, ◌&&◌, not, List, [], ◌∷◌, ◌++◌, Option,
  none, some, get, insert, contains_key, length, replicate, filter, or_default, string_eq, pair_eq,
  nat_eq, is_some, ◌==◌, if◌then◌else◌, map, filter_map,
}
use doi.Prelude.Int.{ℤ}
use doi.Schema.{NodeId, EdgeId, EdgeType, Label, Schema, PropertyDef, node_def}
use doi.Schema.Partitioning.{partition_of}
use doi.Storage.{NodeRow, EdgeRow, Properties, PropertyValue, SnapshotId}
use doi.Index.{
  PartitionId, RemoteRef, AdjacencyEntry, TopologicalIndex, PropertyIndex, KeyTree, NodeRecord,
  EdgeRecord, GenerationMeta, IndexGeneration,
}
use doi.Index.Key.{PropertyKey, compare_key}

-- `u32`
abbrev pub u32_mod : ℕ
u32_mod = 2 ^ 32

-- `condition.then_some(value)`
abbrev pub then_some : {A : Type 0} → Bool → A → Option A
then_some true a = some a
then_some false a = none

-- `vec[i].push(x)`, with `i` in bounds
unfoldable pub push_at : {A : Type 0} → ℕ → A → List (List A) → List (List A)
push_at i x [] = []
push_at zero x (b ∷ bs) = (b ++ x ∷ []) ∷ bs
push_at (suc i) x (b ∷ bs) = b ∷ push_at i x bs

-- `enumerate().map(|(i, &id)| (id, LocalIdx(i as u32))).collect()`: a later position of an id wins.
unfoldable pub collect_local : (position : ℕ) → List NodeId → List (NodeId × ℕ) → List (NodeId × ℕ)
collect_local position [] table = table
collect_local position (id ∷ ids) table =
    collect_local (suc position) ids (insert id (position % u32_mod) table)

-- `let (owner, dst) = ...`
abbrev pub owner_of : (outgoing : Bool) → EdgeRow → NodeId
owner_of outgoing row = if outgoing then row.src else row.dst

abbrev pub dst_of : (outgoing : Bool) → EdgeRow → NodeId
dst_of outgoing row = if outgoing then row.dst else row.src

module _ (xxh3_64 : List ℕ → ℕ) where
  -- An edge as seen from `owner`.
  unfoldable pub entry :
      PartitionId
      → List (NodeId × ℕ)
      → (n_partitions : ℕ) → EdgeType
      → EdgeId
      → (dst : NodeId) → AdjacencyEntry
  entry partition id_to_local n_partitions edge_type id dst =
      let dst_local = then_some (contains_key dst id_to_local) dst in
      let dst_home = partition_of xxh3_64 dst n_partitions in
      record {
        edge_id = id;
        edge_type = edge_type;
        dst_local = dst_local;
        dst_remote =
            then_some (not (is_some dst_local) && not (dst_home == partition))
              (record { partition = dst_home; node = dst });
      }

  -- the body of the loop over the edges
  unfoldable pub bucket_edge :
      PartitionId
      → List (NodeId × ℕ)
      → Bool
      → ℕ
      → EdgeType × EdgeRow
      → List (List AdjacencyEntry)
      → List (List AdjacencyEntry)
  bucket_edge partition id_to_local outgoing n_partitions (edge_type, row) buckets =
      elim (get (owner_of outgoing row) id_to_local) [
        | none ↦ buckets
        | some i ↦
            push_at i
              (entry partition id_to_local n_partitions edge_type row.id (dst_of outgoing row))
              buckets
      ]

  unfoldable pub bucket_edges :
      PartitionId
      → List (NodeId × ℕ)
      → Bool
      → ℕ
      → List (EdgeType × EdgeRow)
      → List (List AdjacencyEntry)
      → List (List AdjacencyEntry)
  bucket_edges partition id_to_local outgoing n_partitions [] buckets = buckets
  bucket_edges partition id_to_local outgoing n_partitions (edge ∷ edges) buckets =
      bucket_edges partition id_to_local outgoing n_partitions edges
        (bucket_edge partition id_to_local outgoing n_partitions edge buckets)

-- the loop over the buckets
unfoldable pub flatten_buckets : {A : Type 0} → List (List A) → List ℕ → List A → List ℕ × List A
flatten_buckets [] offsets entries = (offsets, entries)
flatten_buckets (bucket ∷ buckets) offsets entries =
    let entries' = entries ++ bucket in
    flatten_buckets buckets (offsets ++ (length entries' % u32_mod) ∷ []) entries'

module _ (xxh3_64 : List ℕ → ℕ) where
  unfoldable pub build_csr :
      PartitionId
      → List NodeId
      → List (NodeId × ℕ)
      → List (EdgeType × EdgeRow)
      → (outgoing : Bool) → (n_partitions : ℕ) → List ℕ × List AdjacencyEntry
  build_csr partition node_ids id_to_local edges outgoing n_partitions =
      flatten_buckets
        (bucket_edges xxh3_64 partition id_to_local outgoing n_partitions edges
          (replicate (length node_ids) []))
        (0 ∷ []) []

  unfoldable pub build_topology :
      PartitionId
      → List (Label × NodeRow)
      → List (EdgeType × EdgeRow)
      → (n_partitions : ℕ) → TopologicalIndex
  build_topology partition nodes edges n_partitions =
      let node_ids = map (λ (n : Label × NodeRow). n.1.id) nodes in
      let id_to_local = collect_local 0 node_ids [] in
      let outs = build_csr partition node_ids id_to_local edges true n_partitions in
      let ins = build_csr partition node_ids id_to_local edges false n_partitions in
      record {
        node_ids = node_ids;
        id_to_local = id_to_local;
        out_offsets = outs.0;
        out_entries = outs.1;
        in_offsets = ins.0;
        in_entries = ins.1;
      }

-- Only values with a total order have a key.
unfoldable pub property_key : PropertyValue → Option PropertyKey
property_key (PropertyValue.int64 v) = some (PropertyKey.int64 v)
property_key (PropertyValue.bool v) = some (PropertyKey.bool v)
property_key (PropertyValue.string v) = some (PropertyKey.string v)
property_key (PropertyValue.timestamp v) = some (PropertyKey.timestamp v)
property_key _ = none

-- `entry(key).or_default().push(id)` on a `BTreeMap`
unfoldable pub tree_push : PropertyKey → NodeId → KeyTree → KeyTree
tree_push key id [] = (key, id ∷ []) ∷ []
tree_push key id ((k, ids) ∷ tree) = elim (compare_key key k) [
  | lt ↦ (key, id ∷ []) ∷ (k, ids) ∷ tree
  | eq ↦ (k, ids ++ id ∷ []) ∷ tree
  | gt ↦ (k, ids) ∷ tree_push key id tree
]

abbrev pub ByKey : Type 0
ByKey = List ((String × String) × KeyTree)

-- the body of the inner loop, behind the filter on `indexed`
unfoldable pub index_property : Label → NodeRow → PropertyDef → ByKey → ByKey
unfolding property_key
index_property label row prop by_key = elim (get prop.name row.properties) [
  | none ↦ by_key
  | some value ↦ elim (property_key value) [
    | none ↦ by_key
    | some key ↦
        insert (label, prop.name)
          (tree_push key row.id (or_default (get (label, prop.name) by_key))) by_key
  ]
]

unfoldable pub index_properties : Label → NodeRow → List PropertyDef → ByKey → ByKey
index_properties label row [] by_key = by_key
index_properties label row (prop ∷ props) by_key =
    index_properties label row props (index_property label row prop by_key)

unfoldable pub index_nodes : Schema → List (Label × NodeRow) → ByKey → ByKey
index_nodes schema [] by_key = by_key
index_nodes schema ((label, row) ∷ nodes) by_key =
    index_nodes schema nodes (elim (node_def schema label) [
      | none ↦ by_key
      | some def ↦ index_properties label row (filter (λ p. p.indexed) def.properties) by_key
    ])

unfoldable pub build_property_index : Schema → List (Label × NodeRow) → PropertyIndex
unfolding index_nodes index_properties index_property tree_push
build_property_index schema nodes = record { by_key = index_nodes schema nodes [] }
