-- ===== src/Storage/Reader.antt =====
-- graph-engine/crates/graph-storage/src/iceberg_reader.rs: `IcebergCatalogReader`. The catalog and its
-- tables are third-party code: the interface `Catalog`, whose errors are their text.
use doi.Prelude.{
  ℕ, zero, suc, String, List, [], ◌∷◌, ◌<>◌, Option, none, some, flat_map, collect_into, string_eq,
  Result, err, ok, ◌>>=◌,
}
use doi.Prelude.Int.{ℤ}
use doi.Prelude.Bits.{as_u64}
use doi.Schema.{
  Label, EdgeType, ScalarType, PropertyDef, NodeDef, EdgeDef, Schema, node_def, edge_def,
}
use doi.Storage.{
  SnapshotId, PropertyValue, Properties, NodeRow, EdgeRow, StorageError, table_not_found,
  snapshot_resolution, non_conforming_row, backend, IcebergReader,
}
use doi.Storage.Value.{Arrow, read_property_value}
use doi.Index.Scan.{node_table_name, edge_table_name}

pub record RecordBatch (Array : Type 0) : Type 0 where
  pub num_rows : ℕ
  pub column_by_name : String → Option Array

-- A scan of a snapshot gives the stream of its batches.
pub record Table (Array : Type 0) : Type 0 where
  pub identifier : String
  pub current_snapshot_id : Option ℤ
  pub scan : SnapshotId → Result String (List (Result String (RecordBatch Array)))

pub record Catalog (Array : Type 0) : Type 0 where
  pub load_table : (table_name : String) → Result String (Table Array)

-- `map_err(|e| StorageError::Backend(e.to_string()))`
abbrev pub in_backend : {A : Type 0} → Result String A → Result StorageError A
in_backend (err e) = err (backend e)
in_backend (ok a) = ok a

-- `ok_or_else(|| error)`
abbrev pub or_error : {A : Type 0} → StorageError → Option A → Result StorageError A
or_error error none = err error
or_error error (some a) = ok a

-- `(row..row + count).map(read).collect()`
unfoldable pub rows_from :
    {A : Type 0} → (ℕ → Result StorageError A) → (count row : ℕ) → List (Result StorageError A)
rows_from read zero row = []
rows_from read (suc count) row = read row ∷ rows_from read count (suc row)

module _ {Array : Type 0} (arrow : Arrow Array) (type_text : ScalarType → String) where
  unfoldable pub read_id : Array → ℕ → Result StorageError ℕ
  read_id column row = do
    ids ← or_error (non_conforming_row "id column is not Int64") (arrow.int64_array column)
    ok (as_u64 (ids row))

  -- the value of one property
  unfoldable pub read_property :
      RecordBatch Array → ℕ → PropertyDef → Result StorageError (String × PropertyValue)
  read_property batch row prop = do
    column ←
        or_error (non_conforming_row ("missing column " <> prop.name))
          (batch.column_by_name prop.name)
    value ← read_property_value arrow type_text prop.ty column row
    ok (prop.name, value)

  -- the entries to collect
  unfoldable pub read_entries :
      RecordBatch Array → ℕ → List PropertyDef → Result StorageError Properties
  unfolding read_property
  read_entries batch row [] = ok []
  read_entries batch row (prop ∷ props) = do
    entry ← read_property batch row prop
    entries ← read_entries batch row props
    ok (entry ∷ entries)

  unfoldable pub read_properties :
      RecordBatch Array → ℕ → List PropertyDef → Result StorageError Properties
  read_properties batch row properties = do
    entries ← read_entries batch row properties
    ok (collect_into entries [])

  -- the closure of `map`, with the columns that the batch has
  unfoldable pub read_node_row :
      RecordBatch Array → NodeDef → Array → ℕ → Result StorageError NodeRow
  read_node_row batch def id_column row = do
    id ← read_id id_column row
    properties ← read_properties batch row def.properties
    ok (record { id = id; properties = properties })

  unfoldable pub batch_to_node_rows :
      Result String (RecordBatch Array) → NodeDef → List (Result StorageError NodeRow)
  unfolding rows_from read_node_row
  batch_to_node_rows (err e) def = err (backend e) ∷ []
  batch_to_node_rows (ok batch) def = elim (batch.column_by_name "node_id") [
    | none ↦ err (non_conforming_row "missing node_id column") ∷ []
    | some id_column ↦ rows_from (read_node_row batch def id_column) batch.num_rows 0
  ]

  unfoldable pub read_edge_row :
      RecordBatch Array
      → EdgeDef
      → (edge_id_col src_col dst_col : Array) → ℕ
      → Result StorageError EdgeRow
  read_edge_row batch def edge_id_col src_col dst_col row = do
    id ← read_id edge_id_col row
    src ← read_id src_col row
    dst ← read_id dst_col row
    properties ← read_properties batch row def.properties
    ok (record { id = id; src = src; dst = dst; properties = properties })

  -- `[Some(edge_id_col), Some(src_col), Some(dst_col)]`
  abbrev pub edge_columns : RecordBatch Array → Option (Array × Array × Array)
  edge_columns batch = elim (batch.column_by_name "edge_id") [
    | none ↦ none
    | some edge_id ↦ elim (batch.column_by_name "src_node_id") [
      | none ↦ none
      | some src ↦ elim (batch.column_by_name "dst_node_id") [
        | none ↦ none
        | some dst ↦ some (edge_id, src, dst)
      ]
    ]
  ]

  unfoldable pub batch_to_edge_rows :
      Result String (RecordBatch Array) → EdgeDef → List (Result StorageError EdgeRow)
  unfolding rows_from read_edge_row
  batch_to_edge_rows (err e) def = err (backend e) ∷ []
  batch_to_edge_rows (ok batch) def = elim (edge_columns batch) [
    | none ↦ err (non_conforming_row "missing edge_id/src_node_id/dst_node_id column") ∷ []
    | some (edge_id_col, src_col, dst_col) ↦
        rows_from (read_edge_row batch def edge_id_col src_col dst_col) batch.num_rows 0
  ]

  module _ (catalog : Catalog Array) (to_lowercase : String → String) where
    unfoldable pub arrow_stream :
        String → SnapshotId → Result StorageError (List (Result String (RecordBatch Array)))
    arrow_stream table_name snapshot = do
      table ← in_backend (catalog.load_table table_name)
      in_backend (table.scan snapshot)

    unfoldable pub latest_snapshot : String → Result StorageError SnapshotId
    latest_snapshot table_name = do
      table ← in_backend (catalog.load_table table_name)
      or_error (snapshot_resolution ("table " <> table.identifier <> " has no committed snapshot"))
          table.current_snapshot_id

    unfoldable pub scan_nodes :
        Schema → Label → SnapshotId → Result StorageError (List (Result StorageError NodeRow))
    unfolding arrow_stream batch_to_node_rows
    scan_nodes schema label snapshot = do
      def ← or_error (table_not_found (node_table_name to_lowercase label)) (node_def schema label)
      batches ← arrow_stream (node_table_name to_lowercase label) snapshot
      ok (flat_map (λ batch. batch_to_node_rows batch def) batches)

    unfoldable pub scan_edges :
        Schema → EdgeType → SnapshotId → Result StorageError (List (Result StorageError EdgeRow))
    unfolding arrow_stream batch_to_edge_rows
    scan_edges schema edge_type snapshot = do
      def ←
          or_error (table_not_found (edge_table_name to_lowercase edge_type))
            (edge_def schema edge_type)
      batches ← arrow_stream (edge_table_name to_lowercase edge_type) snapshot
      ok (flat_map (λ batch. batch_to_edge_rows batch def) batches)

    -- the reader that the partition nodes use
    abbrev pub catalog_reader : IcebergReader
    catalog_reader = record {
      latest_snapshot = latest_snapshot;
      scan_nodes = scan_nodes;
      scan_edges = scan_edges;
    }
