-- ===== src/Storage/Rows.antt =====
-- graph-engine/crates/graph-storage/src/iceberg_reader.rs: the rows of a scan have the properties that
-- the schema declares, and the ids that were stored.
use doi.Prelude.{
  ℕ, zero, suc, ◌<◌, ◌^◌, String, true, List, [], ◌∷◌, Option, none, some, get, contains_key,
  string_eq, Result, err, ok, >>=-eq-ok, ok-inj, ◌≡◌, refl, sym, ap, ◌∙◌, subst, inl, inr, In,
  In-of_flat_map, In-of_collect_into, contains_key-collect_into, Option-cases,
}
use doi.Prelude.Int.{ℤ}
use doi.Prelude.Bits.{as_i64, as_u64-as_i64}
use doi.Schema.{EdgeType, ScalarType, PropertyDef, EdgeDef, Schema, edge_def}
use doi.Storage.{SnapshotId, PropertyValue, Properties, EdgeRow, StorageError}
use doi.Storage.Conforms.{Conforms, IsDimensioned, read_property_value-Conforms}
use doi.Storage.Value.{Arrow, read_property_value}
use doi.Index.Scan.{edge_table_name}
use doi.Storage.Reader.{
  RecordBatch, Catalog, or_error, rows_from, read_id, read_property, read_entries, read_properties,
  read_edge_row, batch_to_edge_rows, edge_columns, arrow_stream, scan_edges,
}

-- An id of 64 bits that the column holds in its cast is read as it was.
pub read_id-as_i64 :
    {Array : Type 0} (arrow : Arrow Array) (type_text : ScalarType → String) (column : Array)
    (row id : ℕ) (ids : ℕ → ℤ)
    → arrow.int64_array column ≡ some ids
    → ids row ≡ as_i64 id
    → id < 2 ^ 64
    → read_id arrow type_text column row ≡ ok id
unfolding read_id
read_id-as_i64 arrow type_text column row id ids a e h = rw (a, e, as_u64-as_i64 id h) refl

no_ok : {A : Type 0} (a : A) (e : StorageError) → In (ok a) (err e ∷ []) → ⊥
no_ok a e (inl p) = cc
no_ok a e (inr n) = absurd n

of_or_error :
    {A : Type 0} (error : StorageError) (o : Option A) (a : A)
    → or_error error o ≡ ok a
    → o ≡ some a
of_or_error error none a h = cc
of_or_error error (some b) a h = ap some (ok-inj h)

-- The vectors in the columns of the declared properties have the declared dimensions.
abbrev pub AreDimensioned :
    {Array : Type 0} → Arrow Array → RecordBatch Array → List PropertyDef → Type 0
AreDimensioned {Array} arrow batch defs =
    (prop : PropertyDef) (column : Array) (row : ℕ)
    → In prop defs
    → batch.column_by_name prop.name ≡ some column
    → IsDimensioned arrow prop.ty column row

-- The declared properties are there, and hold values of their types.
pub record HasProperties (defs : List PropertyDef) (properties : Properties) : Type 0 where
  pub typed :
      (name : String) (v : PropertyValue)
      → get name properties ≡ some v
      → (prop : PropertyDef) × In prop defs × (prop.name ≡ name) × Conforms prop.ty v
  pub complete : (prop : PropertyDef) → In prop defs → contains_key prop.name properties ≡ true

module _ {Array : Type 0} (arrow : Arrow Array) (type_text : ScalarType → String) where
  read_property-Conforms :
      (batch : RecordBatch Array) (row : ℕ) (prop : PropertyDef) (entry : String × PropertyValue)
      → ((column : Array)
          → batch.column_by_name prop.name ≡ some column
          → IsDimensioned arrow prop.ty column row)
      → read_property arrow type_text batch row prop ≡ ok entry
      → (prop.name ≡ entry.0) × Conforms prop.ty entry.1
  unfolding read_property
  read_property-Conforms batch row prop entry d h =
      let (column, e, h') = >>=-eq-ok (or_error _ (batch.column_by_name prop.name)) _ h in
      let (v, e', h'') = >>=-eq-ok (read_property_value arrow type_text prop.ty column row) _ h' in
      let same = ok-inj h'' in
      (
        ap (λ (x : String × PropertyValue). x.0) same,
        subst (Conforms prop.ty) (ap (λ (x : String × PropertyValue). x.1) same) (
            read_property_value-Conforms arrow type_text prop.ty column row v
              (d column (of_or_error _ _ column e)) e'),
      )

  In-of_read_entries :
      (batch : RecordBatch Array) (row : ℕ) (defs : List PropertyDef) (entries : Properties)
      → AreDimensioned arrow batch defs
      → read_entries arrow type_text batch row defs ≡ ok entries
      → (entry : String × PropertyValue) → In entry entries
      → (prop : PropertyDef) × In prop defs × (prop.name ≡ entry.0) × Conforms prop.ty entry.1
  unfolding read_entries
  In-of_read_entries batch row [] entries d h entry i = absurd (subst (In entry) (sym (ok-inj h)) i)
  In-of_read_entries batch row (prop ∷ defs) entries d h entry i =
      let (first, e, h') = >>=-eq-ok (read_property arrow type_text batch row prop) _ h in
      let (rest, e', h'') = >>=-eq-ok (read_entries arrow type_text batch row defs) _ h' in
      let j : In entry (first ∷ rest) = subst (In entry) (sym (ok-inj h'')) i in
      elim j [
        | inl p ↦
            let (n, c) =
              read_property-Conforms batch row prop first
                (λ column f. d prop column row (inl refl) f) e in
            (
              prop,
              inl refl,
              subst (λ (z : String × PropertyValue). prop.name ≡ z.0) (sym p) n,
              subst (λ (z : String × PropertyValue). Conforms prop.ty z.1) (sym p) c,
            )
        | inr k ↦
            let (q, l, n, c) =
              In-of_read_entries batch row defs rest (λ p column r j. d p column r (inr j)) e' entry
                k in
            (q, inr l, n, c)
      ]

  In-read_entries :
      (batch : RecordBatch Array) (row : ℕ) (defs : List PropertyDef) (entries : Properties)
      → AreDimensioned arrow batch defs
      → read_entries arrow type_text batch row defs ≡ ok entries
      → (prop : PropertyDef) → In prop defs
      → (v : PropertyValue) × In (prop.name, v) entries
  unfolding read_entries
  In-read_entries batch row [] entries d h prop i = absurd i
  In-read_entries batch row (first ∷ defs) entries d h prop i =
      let (entry, e, h') = >>=-eq-ok (read_property arrow type_text batch row first) _ h in
      let (rest, e', h'') = >>=-eq-ok (read_entries arrow type_text batch row defs) _ h' in
      elim i [
        | inl p ↦ (
          entry.1,
          subst (In (prop.name, entry.1)) (ok-inj h'') (
              inl (λ j. (
                (ap (λ (q : PropertyDef). q.name) p
                      ∙ (read_property-Conforms batch row first entry
                          (λ column f. d first column row (inl refl) f) e).0)
                    j,
                entry.1,
              ))),
        )
        | inr k ↦
            let (v, l) =
              In-read_entries batch row defs rest (λ p column r j. d p column r (inr j)) e' prop
                k in
            (v, subst (In (prop.name, v)) (ok-inj h'') (inr l))
      ]

  read_properties-HasProperties :
      (batch : RecordBatch Array) (row : ℕ) (defs : List PropertyDef) (properties : Properties)
      → AreDimensioned arrow batch defs
      → read_properties arrow type_text batch row defs ≡ ok properties
      → HasProperties defs properties
  unfolding read_properties
  read_properties-HasProperties batch row defs properties d h =
      let (entries, e, h') = >>=-eq-ok (read_entries arrow type_text batch row defs) _ h in
      subst (HasProperties defs) (ok-inj h') (record {
        typed = λ name v g. elim (In-of_collect_into name v entries [] g) [
          | inl i ↦ In-of_read_entries batch row defs entries d e (name, v) i
          | inr n ↦ cc
        ];
        complete = λ prop i.
            let (v, j) = In-read_entries batch row defs entries d e prop i in
            contains_key-collect_into prop.name v entries [] (inl j);
      })

  In-of_rows_from :
      {A : Type 0} (read : ℕ → Result StorageError A) (count row : ℕ) (a : A)
      → In (ok a) (rows_from read count row)
      → (i : ℕ) × (read i ≡ ok a)
  unfolding rows_from
  In-of_rows_from read zero row a i = absurd i
  In-of_rows_from read (suc count) row a (inl e) = (row, sym e)
  In-of_rows_from read (suc count) row a (inr i) = In-of_rows_from read count (suc row) a i

  edge_row-HasProperties :
      (batch : RecordBatch Array) (def : EdgeDef) (edge_col src_col dst_col : Array) (i : ℕ)
      (row : EdgeRow)
      → AreDimensioned arrow batch def.properties
      → read_edge_row arrow type_text batch def edge_col src_col dst_col i ≡ ok row
      → HasProperties def.properties row.properties
  unfolding read_edge_row
  edge_row-HasProperties batch def edge_col src_col dst_col i row d h =
      let (id, e1, h1) = >>=-eq-ok (read_id arrow type_text edge_col i) _ h in
      let (src, e2, h2) = >>=-eq-ok (read_id arrow type_text src_col i) _ h1 in
      let (dst, e3, h3) = >>=-eq-ok (read_id arrow type_text dst_col i) _ h2 in
      let (properties, e4, h4) =
        >>=-eq-ok (read_properties arrow type_text batch i def.properties) _ h3 in
      subst (λ (r : EdgeRow). HasProperties def.properties r.properties) (ok-inj h4)
        (read_properties-HasProperties batch i def.properties properties d e4)

  edge_rows-HasProperties :
      (batch : Result String (RecordBatch Array)) (def : EdgeDef) (row : EdgeRow)
      → ((b : RecordBatch Array) → batch ≡ ok b → AreDimensioned arrow b def.properties)
      → In (ok row) (batch_to_edge_rows arrow type_text batch def)
      → HasProperties def.properties row.properties
  unfolding batch_to_edge_rows
  edge_rows-HasProperties (err e) def row d i = absurd (no_ok row _ i)
  edge_rows-HasProperties (ok batch) def row d i =
      elim (Option-cases (edge_columns arrow type_text batch)) [
        | inl e ↦ absurd (no_ok row _ (rw (e, batch_to_edge_rows) at i))
        | inr ((edge_col, src_col, dst_col), e) ↦
            let (k, f) =
              In-of_rows_from (read_edge_row arrow type_text batch def edge_col src_col dst_col)
                batch.num_rows 0 row (rw (e, batch_to_edge_rows) at i) in
            edge_row-HasProperties batch def edge_col src_col dst_col k row (d batch refl) f
      ]

  module _ (catalog : Catalog Array) (to_lowercase : String → String) where
    -- In every batch that a scan of a table's snapshot streams, the vectors have the declared
    -- dimensions.
    abbrev pub TableIsDimensioned : (table : String) → SnapshotId → List PropertyDef → Type 0
    TableIsDimensioned table snapshot defs =
        (batches : List (Result String (RecordBatch Array))) (batch : RecordBatch Array)
        → arrow_stream arrow type_text catalog to_lowercase table snapshot ≡ ok batches
        → In (ok batch) batches
        → AreDimensioned arrow batch defs

    pub scan_edges-HasProperties :
        (schema : Schema) (edge_type : EdgeType) (snapshot : SnapshotId)
        (stream : List (Result StorageError EdgeRow)) (row : EdgeRow)
        → ((def : EdgeDef)
            → edge_def schema edge_type ≡ some def
            → TableIsDimensioned (edge_table_name to_lowercase edge_type) snapshot def.properties)
        → scan_edges arrow type_text catalog to_lowercase schema edge_type snapshot ≡ ok stream
        → In (ok row) stream
        → (def : EdgeDef) × (edge_def schema edge_type ≡ some def)
          × HasProperties def.properties row.properties
    unfolding scan_edges
    scan_edges-HasProperties schema edge_type snapshot stream row d h i =
        let (def, e, h') = >>=-eq-ok (or_error _ (edge_def schema edge_type)) _ h in
        let (batches, f, h'') =
          >>=-eq-ok (arrow_stream arrow type_text catalog to_lowercase _ snapshot) _ h' in
        let (batch, j, k) =
          In-of_flat_map (λ batch. batch_to_edge_rows arrow type_text batch def) (ok row) batches
            (subst (In (ok row)) (sym (ok-inj h'')) i) in
        (
          def,
          of_or_error _ _ def e,
          edge_rows-HasProperties batch def row
              (λ b same.
                d def (of_or_error _ _ def e) batches b f (subst (λ z. In z batches) same j))
              k,
        )
