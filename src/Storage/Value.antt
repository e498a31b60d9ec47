-- ===== src/Storage/Value.antt =====
-- graph-engine/crates/graph-storage/src/property_value.rs: the value of an Arrow cell. Arrow is a
-- third-party crate: the operations of its arrays that the program calls are an interface.
use doi.Prelude.{
  ℕ, zero, suc, String, Bool, List, ◌<>◌, Option, none, some, Result, err, ok, ◌>>=◌, if◌then◌else◌,
}
use doi.Prelude.Int.{ℤ}
use doi.Schema.{ScalarType, int64, float64, bool, string, timestamp, bytes, list, vector}
use doi.Storage.{PropertyValue, PropertyValues, StorageError, non_conforming_row}

-- `downcast_ref` to each class of arrays gives the values by position; `list_array` is `ListArray`.
pub record Arrow (Array : Type 0) : Type 0 where
  pub len : Array → ℕ
  pub is_null : Array → ℕ → Bool
  pub int64_array : Array → Option (ℕ → ℤ)
  pub float64_array : Array → Option (ℕ → ℕ)
  pub boolean_array : Array → Option (ℕ → Bool)
  pub string_array : Array → Option (ℕ → String)
  pub timestamp_array : Array → Option (ℕ → ℤ)
  pub binary_array : Array → Option (ℕ → List ℕ)
  pub list_array : Array → Option (ℕ → Array)

-- `collect::<Result<Vec<_>, _>>()` of the values at `row`, `row + 1`, …
unfoldable pub collect_values :
    (ℕ → Result StorageError PropertyValue) → (count row : ℕ) → Result StorageError PropertyValues
collect_values read zero row = ok PropertyValues.nil
collect_values read (suc count) row = do
  value ← read row
  values ← collect_values read count (suc row)
  ok (PropertyValues.cons value values)

module _ {Array : Type 0} (arrow : Arrow Array) (type_text : ScalarType → String) where
  unfoldable pub downcast : {T : Type 0} → ScalarType → Option T → Result StorageError T
  downcast ty (some array) = ok array
  downcast ty none = err (
      non_conforming_row
        ("column declared as " <> type_text ty <> " does not have the matching Arrow array type"))

  -- `downcast(array, ty).map(|a| .. a.value(row))`
  abbrev pub cell :
      {T : Type 0}
      → ScalarType
      → Option (ℕ → T)
      → (T → PropertyValue)
      → ℕ
      → Result StorageError PropertyValue
  cell ty array make row = do values ← downcast ty array; ok (make (values row))

  -- a value that may be null
  abbrev pub or_null :
      Array → ℕ → Result StorageError PropertyValue → Result StorageError PropertyValue
  or_null array row value = if arrow.is_null array row then ok PropertyValue.null else value

  abbrev pub read_float64 : Array → ℕ → Result StorageError PropertyValue
  read_float64 array row =
      or_null array row (cell float64 (arrow.float64_array array) PropertyValue.float64 row)

  -- The values of a vector are read as those of a list of `Float64`.
  unfoldable pub read_property_value : ScalarType → Array → ℕ → Result StorageError PropertyValue
  read_property_value int64 array row =
      or_null array row (cell int64 (arrow.int64_array array) PropertyValue.int64 row)
  read_property_value float64 array row = read_float64 array row
  read_property_value bool array row =
      or_null array row (cell bool (arrow.boolean_array array) PropertyValue.bool row)
  read_property_value string array row =
      or_null array row (cell string (arrow.string_array array) PropertyValue.string row)
  read_property_value timestamp array row =
      or_null array row (cell timestamp (arrow.timestamp_array array) PropertyValue.timestamp row)
  read_property_value bytes array row =
      or_null array row (cell bytes (arrow.binary_array array) PropertyValue.bytes row)
  read_property_value (list elem_ty) array row = or_null array row (do
    lists ← downcast (list elem_ty) (arrow.list_array array)
    values ← collect_values (read_property_value elem_ty (lists row)) (arrow.len (lists row)) 0
    ok (PropertyValue.list values))
  read_property_value (vector dim) array row = or_null array row (do
    lists ← downcast (vector dim) (arrow.list_array array)
    values ← collect_values (read_float64 (lists row)) (arrow.len (lists row)) 0
    ok (PropertyValue.list values))
