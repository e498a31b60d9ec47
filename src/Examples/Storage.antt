-- ===== src/Examples/Storage.antt =====
-- Tests of the reader: tables whose columns are lists of numbers.
use doi.Prelude.{
  ℕ, String, Option, subst, some-inj, true, false, List, [], ◌∷◌, none, some, Result, ok, err, ◌≡◌,
  refl, arith, get_or, length, string_eq, ◌==◌, if◌then◌else◌,
}
use doi.Prelude.Int.{ℤ, pos}
use doi.Prelude.Bits.{as_i64}
use doi.Schema.{Schema, ScalarType, PropertyDef}
use doi.Storage.{NodeRow, PropertyValue, PropertyValues, StorageError}
use doi.Storage.Value.{Arrow, collect_values, downcast, read_property_value}
use doi.Storage.Conforms.{Conforms, IsDimensioned, read_property_value-Conforms}
use doi.Storage.Reader.{RecordBatch, Catalog, read_id}
use doi.Storage.Rows.{read_id-as_i64}

-- an array of `Int64` without nulls
abbrev int_arrays : Arrow (List ℤ)
int_arrays = record {
  len = length;
  is_null = λ array row. false;
  int64_array = λ array. some (λ row. get_or array row (pos 0));
  float64_array = λ array. none;
  boolean_array = λ array. none;
  string_array = λ array. none;
  timestamp_array = λ array. none;
  binary_array = λ array. none;
  list_array = λ array. none;
}

abbrev no_type : ScalarType → String
no_type ty = "type"

abbrev large_id : ℕ
large_id = 18446744073709551615

abbrev ids : List ℤ
ids = pos 4 ∷ as_i64 large_id ∷ []

read_id-as_i64_example : read_id int_arrays no_type ids 1 ≡ ok large_id
read_id-as_i64_example =
    read_id-as_i64 int_arrays no_type ids 1 large_id (λ row. get_or ids row (pos 0)) refl refl
      (omega arith)

age_read :
    read_property_value int_arrays no_type ScalarType.int64 (pos 30 ∷ []) 0
    ≡ ok (PropertyValue.int64 (pos 30))
unfolding read_property_value downcast
age_read = refl

-- a column of floats, or of lists of them
data Column : Type 0 where
  floats : List ℕ → Column
  vectors : List (List ℕ) → Column

abbrev width : Column → ℕ
width (floats xs) = length xs
width (vectors vs) = length vs

abbrev float_column : Column → Option (ℕ → ℕ)
float_column (floats xs) = some (λ row. get_or xs row 0)
float_column (vectors vs) = none

abbrev list_column : Column → Option (ℕ → Column)
list_column (floats xs) = none
list_column (vectors vs) = some (λ row. floats (get_or vs row []))

abbrev columns : Arrow Column
columns = record {
  len = width;
  is_null = λ array row. false;
  int64_array = λ array. none;
  float64_array = float_column;
  boolean_array = λ array. none;
  string_array = λ array. none;
  timestamp_array = λ array. none;
  binary_array = λ array. none;
  list_array = list_column;
}

abbrev pairs : Column
pairs = vectors ((1 ∷ 2 ∷ []) ∷ (3 ∷ 4 ∷ []) ∷ [])

abbrev second_pair : PropertyValue
second_pair = PropertyValue.list (
    PropertyValues.cons (PropertyValue.float64 3)
      (PropertyValues.cons (PropertyValue.float64 4) PropertyValues.nil))

pair_read : read_property_value columns no_type (ScalarType.vector 2) pairs 1 ≡ ok second_pair
unfolding read_property_value downcast collect_values
pair_read = refl

pairs-IsDimensioned : IsDimensioned columns (ScalarType.vector 2) pairs 1
unfolding IsDimensioned
pairs-IsDimensioned lists e = subst (λ (l : ℕ → Column). width (l 1) ≡ 2) (some-inj e) refl

read_property_value-Conforms_example : Conforms (ScalarType.vector 2) second_pair
read_property_value-Conforms_example =
    read_property_value-Conforms columns no_type (ScalarType.vector 2) pairs 1 second_pair
      pairs-IsDimensioned pair_read

abbrev rank_def : PropertyDef
rank_def = record { name = "rank"; ty = ScalarType.int64; optional = false; indexed = true }

abbrev ranks : Schema
ranks = record {
  version = "1";
  nodes = ("Rank", record { label = "Rank"; properties = rank_def ∷ [] }) ∷ [];
  edges = [];
}

abbrev batch : RecordBatch (List ℤ)
batch = record {
  num_rows = 2;
  column_by_name = λ name. if name == "node_id" then some ids else some (pos 1 ∷ pos 2 ∷ []);
}

abbrev tables : Catalog (List ℤ)
tables = record {
  load_table = λ name. ok (record {
    identifier = name;
    current_snapshot_id = some (pos 7);
    scan = λ snapshot. ok (ok batch ∷ err "lost" ∷ []);
  });
}

abbrev first_row : NodeRow
first_row = record { id = 4; properties = ("rank", PropertyValue.int64 (pos 1)) ∷ [] }

abbrev stream : List (Result StorageError NodeRow)
stream =
    ok first_row
    ∷ ok (record { id = large_id; properties = ("rank", PropertyValue.int64 (pos 2)) ∷ [] })
    ∷ err (StorageError.backend "lost")
    ∷ []
