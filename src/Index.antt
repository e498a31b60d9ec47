-- ===== src/Index.antt =====
-- graph-engine/crates/graph-index/src/lib.rs: adjacency in compressed rows, the property index, and
-- the handle that serves one generation.
pub mod Key
pub mod Builder
pub mod Scan
use Prim.Native.Nat.Ordering.{lt, eq}
use doi.Prelude.{
  ℕ, ◌-◌, ◌+◌, String, Bool, true, false, ◌&&◌, List, [], ◌∷◌, ◌++◌, Option, none, some, get,
  contains_key, take, drop, get_or, flat_map, filter, or_default, string_eq, pair_eq, nat_eq,
  is_some,
}
use doi.Prelude.Int.{ℤ}
use doi.Prelude.Sorting.{not_after}
use doi.Schema.{NodeId, EdgeId, EdgeType, Label}
use doi.Storage.{Properties, SnapshotId}
use Key.{PropertyKey, compare_key}

abbrev pub PartitionId : Type 0
PartitionId = ℕ

pub record RemoteRef : Type 0 where
  pub partition : PartitionId
  pub node : NodeId

pub record AdjacencyEntry : Type 0 where
  pub edge_id : EdgeId
  pub edge_type : EdgeType
  pub dst_local : Option NodeId
  pub dst_remote : Option RemoteRef

-- A `LocalIdx` is a plain number.
pub record TopologicalIndex : Type 0 where
  pub node_ids : List NodeId
  pub id_to_local : List (NodeId × ℕ)
  pub out_offsets : List ℕ
  pub out_entries : List AdjacencyEntry
  pub in_offsets : List ℕ
  pub in_entries : List AdjacencyEntry

-- `&entries[start..end]`
abbrev pub slice : {A : Type 0} → List A → ℕ → ℕ → List A
slice entries start end = take (end - start) (drop start entries)

-- The reads at `i` and `i + 1` are in bounds in an index that the builder made.
unfoldable pub neighbors :
    TopologicalIndex → NodeId → List ℕ → List AdjacencyEntry → List AdjacencyEntry
neighbors index node offsets entries = elim (get node index.id_to_local) [
  | some i ↦ slice entries (get_or offsets i 0) (get_or offsets (i + 1) 0)
  | none ↦ []
]

unfoldable pub out_neighbors : TopologicalIndex → NodeId → List AdjacencyEntry
unfolding neighbors
out_neighbors index node = neighbors index node index.out_offsets index.out_entries

unfoldable pub in_neighbors : TopologicalIndex → NodeId → List AdjacencyEntry
unfolding neighbors
in_neighbors index node = neighbors index node index.in_offsets index.in_entries

unfoldable pub contains : TopologicalIndex → NodeId → Bool
contains index node = contains_key node index.id_to_local

-- A `BTreeMap` is its entries in the order of the keys.
abbrev pub KeyTree : Type 0
KeyTree = List (PropertyKey × List NodeId)

pub record PropertyIndex : Type 0 where
  pub by_key : List ((String × String) × KeyTree)

unfoldable pub find_key : PropertyKey → KeyTree → Option (List NodeId)
find_key key [] = none
find_key key ((k, ids) ∷ tree) = elim (compare_key key k) [ eq ↦ some ids | _ ↦ find_key key tree ]

unfoldable pub lookup_eq : PropertyIndex → String → String → PropertyKey → List NodeId
unfolding find_key
lookup_eq index label_or_type property key = elim (get (label_or_type, property) index.by_key) [
  | none ↦ []
  | some tree ↦ or_default (find_key key tree)
]

-- `std::ops::Bound`
pub data Bound : Type 0 where
  included excluded : PropertyKey → Bound
  unbounded : Bound

pub above : Bound → PropertyKey → Bool
above (included low) key = not_after (compare_key low key)
above (excluded low) key = elim (compare_key low key) [ lt ↦ true | _ ↦ false ]
above unbounded key = true

pub below : Bound → PropertyKey → Bool
below (included high) key = not_after (compare_key key high)
below (excluded high) key = elim (compare_key key high) [ lt ↦ true | _ ↦ false ]
below unbounded key = true

-- The program's ranges have an open side, where `BTreeMap::range` does not panic.
unfoldable pub lookup_range : PropertyIndex → String → String → Bound × Bound → List NodeId
unfolding above below
lookup_range index label_or_type property bounds =
    elim (get (label_or_type, property) index.by_key) [
      | none ↦ []
      | some tree ↦
          flat_map (λ entry. entry.1)
            (filter (λ entry. above bounds.0 entry.0 && below bounds.1 entry.0) tree)
    ]

pub record NodeRecord : Type 0 where
  pub label : Label
  pub properties : Properties

pub record EdgeRecord : Type 0 where
  pub edge_type : EdgeType
  pub properties : Properties

pub record GenerationMeta : Type 0 where
  pub partition : PartitionId
  pub snapshot_by_table : List (String × SnapshotId)
  pub built_at_unix_ms : ℤ
  pub node_count : ℕ
  pub edge_count : ℕ

pub record IndexGeneration : Type 0 where
  pub meta : GenerationMeta
  pub topology : TopologicalIndex
  pub properties : PropertyIndex
  pub node_records : List (NodeId × NodeRecord)
  pub edge_records : List (EdgeId × EdgeRecord)

-- The atomic pointer is the generation that it points to: a reader keeps what it loaded.
pub record GenerationHandle : Type 0 where
  pub current : IndexGeneration

unfoldable pub acquire : GenerationHandle → IndexGeneration
acquire handle = handle.current

unfoldable pub swap : IndexGeneration → GenerationHandle → GenerationHandle
swap next handle = record handle { current = next }
