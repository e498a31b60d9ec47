-- ===== src/Index/Scan.antt =====
-- graph-engine/crates/graph-index/src/builder.rs, `build`: a generation from the tables of a reader.
-- The hash, the lower-casing of table names and the clock are parameters.
pub mod Owned
use Prim.Native.String.{◌++◌ as concat}
use doi.Prelude.{
  ℕ, String, Bool, List, [], ◌∷◌, ◌++◌, Option, none, some, Result, ok, err, ◌>>=◌, map, filter,
  length, insert, collect_into, string_eq, nat_eq, ◌==◌,
}
use doi.Prelude.Int.{ℤ}
use doi.Schema.{NodeId, EdgeId, Label, EdgeType, Schema, EdgeDef, SchemaError}
use doi.Schema.Partitioning.{partition_of}
use doi.Storage.{SnapshotId, NodeRow, EdgeRow, StorageError, IcebergReader}
use doi.Index.{PartitionId, NodeRecord, EdgeRecord, GenerationMeta, IndexGeneration}
use doi.Index.Builder.{build_topology, build_property_index}

pub record IcebergIndexBuilder : Type 0 where
  pub reader : IcebergReader
  pub schema : Schema
  pub n_partitions : ℕ

pub data RebuildError : Type 0 where
  storage : StorageError → RebuildError
  schema : SchemaError → RebuildError

-- the conversion of the error that `?` makes
abbrev pub in_storage : {A : Type 0} → Result StorageError A → Result RebuildError A
in_storage (ok a) = ok a
in_storage (err e) = err (storage e)

-- the loop over a stream, with the name of the table's label or type
unfoldable pub read_rows :
    {A : Type 0}
    → (name : String) → List (Result StorageError A)
    → Result RebuildError (List (String × A))
read_rows name [] = ok []
read_rows name (row ∷ stream) = do
  r ← in_storage row
  rows ← read_rows name stream
  ok ((name, r) ∷ rows)

module _ (to_lowercase : String → String) where
  abbrev pub node_table_name : Label → String
  node_table_name label = concat "nodes_" (to_lowercase label)

  abbrev pub edge_table_name : EdgeType → String
  edge_table_name edge_type = concat "edges_" (to_lowercase edge_type)

  -- the loop over the labels, with the rows and the snapshots so far
  unfoldable pub read_nodes :
      IcebergIndexBuilder
      → List Label
      → List (Label × NodeRow)
      → List (String × SnapshotId)
      → Result RebuildError (List (Label × NodeRow) × List (String × SnapshotId))
  unfolding read_rows
  read_nodes builder [] nodes snapshots = ok (nodes, snapshots)
  read_nodes builder (label ∷ labels) nodes snapshots = do
    snapshot ← in_storage (builder.reader.latest_snapshot (node_table_name label))
    stream ← in_storage (builder.reader.scan_nodes builder.schema label snapshot)
    rows ← read_rows label stream
    read_nodes builder labels (nodes ++ rows) (insert (node_table_name label) snapshot snapshots)

  unfoldable pub read_edges :
      IcebergIndexBuilder
      → List (EdgeType × EdgeDef)
      → List (EdgeType × EdgeRow)
      → List (String × SnapshotId)
      → Result RebuildError (List (EdgeType × EdgeRow) × List (String × SnapshotId))
  unfolding read_rows
  read_edges builder [] edges snapshots = ok (edges, snapshots)
  read_edges builder ((_, edge_def) ∷ defs) edges snapshots = do
    snapshot ← in_storage (builder.reader.latest_snapshot (edge_table_name edge_def.edge_type))
    stream ← in_storage (builder.reader.scan_edges builder.schema edge_def.edge_type snapshot)
    rows ← read_rows edge_def.edge_type stream
    read_edges builder defs (edges ++ rows)
        (insert (edge_table_name edge_def.edge_type) snapshot snapshots)

module _ (xxh3_64 : List ℕ → ℕ) where
  -- `nodes.retain(...)`, and the same test on the source of an edge
  abbrev pub is_owned : PartitionId → (n_partitions : ℕ) → NodeId → Bool
  is_owned partition n_partitions id = partition_of xxh3_64 id n_partitions == partition

module _ (xxh3_64 : List ℕ → ℕ) (now_unix_ms : ℤ) where
  -- from the rows to the generation
  unfoldable pub assemble :
      IcebergIndexBuilder
      → PartitionId
      → List (Label × NodeRow)
      → List (EdgeType × EdgeRow)
      → List (String × SnapshotId)
      → IndexGeneration
  assemble builder partition scanned edges snapshots =
      let nodes =
        filter (λ (n : Label × NodeRow). is_owned xxh3_64 partition builder.n_partitions n.1.id)
          scanned in
      let kept =
        filter (λ (e : EdgeType × EdgeRow). is_owned xxh3_64 partition builder.n_partitions e.1.src)
          edges in
      record {
        meta = record {
          partition = partition;
          snapshot_by_table = snapshots;
          built_at_unix_ms = now_unix_ms;
          node_count = length nodes;
          edge_count = length edges;
        };
        topology = build_topology xxh3_64 partition nodes edges builder.n_partitions;
        properties = build_property_index builder.schema nodes;
        node_records =
            collect_into
              (map
                (λ (n : Label × NodeRow).
                  (n.1.id, record { label = n.0; properties = n.1.properties }))
                nodes)
              [];
        edge_records =
            collect_into
              (map
                (λ (e : EdgeType × EdgeRow).
                  (e.1.id, record { edge_type = e.0; properties = e.1.properties }))
                kept)
              [];
      }

  unfoldable pub build :
      (to_lowercase : String → String)
      → IcebergIndexBuilder
      → PartitionId
      → List Label
      → Result RebuildError IndexGeneration
  unfolding read_nodes read_edges assemble
  build to_lowercase builder partition labels = do
    scanned ← read_nodes to_lowercase builder labels [] []
    edges ← read_edges to_lowercase builder builder.schema.edges [] scanned.1
    ok (assemble builder partition scanned.0 edges.0 edges.1)
