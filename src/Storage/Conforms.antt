-- ===== src/Storage/Conforms.antt =====
-- graph-engine/crates/graph-storage/src/iceberg_reader.rs: the rows of a scan have the properties that
-- the schema declares, with values of their types.
use doi.Prelude.{
  ℕ, zero, suc, String, Option, none, some, sym, ap, ◌∙◌, string_eq, Result, ok, >>=-eq-ok, ok-inj,
  ◌≡◌, subst, inl, inr, Bool-cases,
}
use doi.Schema.{ScalarType, int64, float64, bool, string, timestamp, bytes, list, vector}
use doi.Storage.{PropertyValue, PropertyValues, StorageError}
use doi.Storage.Value.{
  Arrow, collect_values, downcast, cell, or_null, read_float64, read_property_value,
}

-- Every value of a list satisfies the predicate.
abbrev pub AllValues : (PropertyValue → Type 0) → PropertyValues → Type 0
AllValues P PropertyValues.nil = Unit
AllValues P (PropertyValues.cons v vs) = P v × AllValues P vs

abbrev IsFloat : PropertyValue → Type 0
IsFloat (PropertyValue.float64 _) = Unit
IsFloat PropertyValue.null = Unit
IsFloat _ = ⊥

abbrev pub count : PropertyValues → ℕ
count PropertyValues.nil = 0
count (PropertyValues.cons v vs) = suc (count vs)

-- A value of the type, or null; within lists too. A vector has as many floats as its dimension says.
unfoldable pub Conforms : ScalarType → PropertyValue → Type 0
Conforms int64 (PropertyValue.int64 _) = Unit
Conforms float64 (PropertyValue.float64 _) = Unit
Conforms bool (PropertyValue.bool _) = Unit
Conforms string (PropertyValue.string _) = Unit
Conforms timestamp (PropertyValue.timestamp _) = Unit
Conforms bytes (PropertyValue.bytes _) = Unit
Conforms (list elem_ty) (PropertyValue.list vs) = AllValues (Conforms elem_ty) vs
Conforms (vector dim) (PropertyValue.list vs) = (count vs ≡ dim) × AllValues IsFloat vs
Conforms ty PropertyValue.null = Unit
Conforms _ _ = ⊥

AllValues-collect :
    (P : PropertyValue → Type 0) (read : ℕ → Result StorageError PropertyValue) (count row : ℕ)
    (vs : PropertyValues)
    → ((i : ℕ) (v : PropertyValue) → read i ≡ ok v → P v)
    → collect_values read count row ≡ ok vs
    → AllValues P vs
unfolding collect_values
AllValues-collect P read zero row vs f h = subst (AllValues P) (ok-inj h) tt
AllValues-collect P read (suc count) row vs f h =
    let (v, e, h') = >>=-eq-ok (read row) _ h in
    let (rest, e', h'') = >>=-eq-ok (collect_values read count (suc row)) _ h' in
    subst (AllValues P) (ok-inj h'') (f row v e, AllValues-collect P read count (suc row) rest f e')

count-collect :
    (read : ℕ → Result StorageError PropertyValue) (n row : ℕ) (vs : PropertyValues)
    → collect_values read n row ≡ ok vs
    → count vs ≡ n
unfolding collect_values
count-collect read zero row vs h = ap count (sym (ok-inj h))
count-collect read (suc n) row vs h =
    let (v, e, h') = >>=-eq-ok (read row) _ h in
    let (rest, e', h'') = >>=-eq-ok (collect_values read n (suc row)) _ h' in
    ap count (sym (ok-inj h'')) ∙ ap suc (count-collect read n (suc row) rest e')

-- The vectors that a cell holds, be it within lists, have the dimension of the declared type. The
-- reader does not check it.
unfoldable pub IsDimensioned : {Array : Type 0} → Arrow Array → ScalarType → Array → ℕ → Type 0
IsDimensioned {Array} arrow (list elem_ty) array row =
    (lists : ℕ → Array)
    → arrow.list_array array ≡ some lists
    → (i : ℕ) → IsDimensioned arrow elem_ty (lists row) i
IsDimensioned {Array} arrow (vector dim) array row =
    (lists : ℕ → Array) → arrow.list_array array ≡ some lists → arrow.len (lists row) ≡ dim
IsDimensioned arrow ty array row = Unit

module _ {Array : Type 0} (arrow : Arrow Array) (type_text : ScalarType → String) where
  downcast-some :
      {T : Type 0} (ty : ScalarType) (o : Option T) (t : T)
      → downcast arrow type_text ty o ≡ ok t
      → o ≡ some t
  unfolding downcast
  downcast-some ty none t h = cc
  downcast-some ty (some x) t h = ap some (ok-inj h)

  cell-makes :
      {T : Type 0} (P : PropertyValue → Type 0) (ty : ScalarType) (array : Option (ℕ → T))
      (make : T → PropertyValue) (row : ℕ) (v : PropertyValue)
      → ((t : T) → P (make t))
      → cell arrow type_text ty array make row ≡ ok v
      → P v
  cell-makes P ty array make row v f h =
      let (values, e, h') = >>=-eq-ok (downcast arrow type_text ty array) _ h in
      subst P (ok-inj h') (f (values row))

  of_or_null :
      (P : PropertyValue → Type 0) (array : Array) (row : ℕ)
      (value : Result StorageError PropertyValue) (v : PropertyValue)
      → P PropertyValue.null
      → (value ≡ ok v → P v)
      → or_null arrow type_text array row value ≡ ok v
      → P v
  of_or_null P array row value v n f h = elim (Bool-cases (arrow.is_null array row)) [
    | inl e ↦ subst P (ok-inj (rw e at h)) n
    | inr e ↦ f (rw e at h)
  ]

  primitive :
      {T : Type 0} (P : PropertyValue → Type 0) (ty : ScalarType) (values : Option (ℕ → T))
      (make : T → PropertyValue) (array : Array) (row : ℕ) (v : PropertyValue)
      → P PropertyValue.null
      → ((t : T) → P (make t))
      → or_null arrow type_text array row (cell arrow type_text ty values make row) ≡ ok v
      → P v
  primitive P ty values make array row v n f =
      of_or_null P array row _ v n (cell-makes P ty values make row v f)

  read_float64-IsFloat :
      (array : Array) (row : ℕ) (v : PropertyValue)
      → read_float64 arrow type_text array row ≡ ok v
      → IsFloat v
  read_float64-IsFloat array row v =
      primitive IsFloat float64 (arrow.float64_array array) PropertyValue.float64 array row v tt
        (λ t. tt)

  -- What is read as a type from a cell whose vectors have the declared dimension is a value of the
  -- type, or null; within lists too.
  pub read_property_value-Conforms :
      (ty : ScalarType) (array : Array) (row : ℕ) (v : PropertyValue)
      → IsDimensioned arrow ty array row
      → read_property_value arrow type_text ty array row ≡ ok v
      → Conforms ty v
  unfolding read_property_value Conforms IsDimensioned
  read_property_value-Conforms int64 array row v d h =
      primitive (Conforms int64) int64 (arrow.int64_array array) PropertyValue.int64 array row v tt
        (λ t. tt) h
  read_property_value-Conforms float64 array row v d h =
      primitive (Conforms float64) float64 (arrow.float64_array array) PropertyValue.float64 array
        row v tt (λ t. tt) h
  read_property_value-Conforms bool array row v d h =
      primitive (Conforms bool) bool (arrow.boolean_array array) PropertyValue.bool array row v tt
        (λ t. tt) h
  read_property_value-Conforms string array row v d h =
      primitive (Conforms string) string (arrow.string_array array) PropertyValue.string array row v
        tt (λ t. tt) h
  read_property_value-Conforms timestamp array row v d h =
      primitive (Conforms timestamp) timestamp (arrow.timestamp_array array) PropertyValue.timestamp
        array row v tt (λ t. tt) h
  read_property_value-Conforms bytes array row v d h =
      primitive (Conforms bytes) bytes (arrow.binary_array array) PropertyValue.bytes array row v tt
        (λ t. tt) h
  read_property_value-Conforms (list elem_ty) array row v d h =
      of_or_null (Conforms (list elem_ty)) array row _ v tt
        (λ e.
          let (lists, f, e') =
            >>=-eq-ok (downcast arrow type_text (list elem_ty) (arrow.list_array array)) _ e in
          let (values, g, e'') = >>=-eq-ok (collect_values _ _ _) _ e' in
          subst (Conforms (list elem_ty)) (ok-inj e'') (
            AllValues-collect (Conforms elem_ty)
              (read_property_value arrow type_text elem_ty (lists row)) _ 0 values
              (λ i w r.
                read_property_value-Conforms elem_ty (lists row) i w
                  (d lists (downcast-some (list elem_ty) (arrow.list_array array) lists f) i) r)
              g))
        h
  read_property_value-Conforms (vector dim) array row v d h =
      of_or_null (Conforms (vector dim)) array row _ v tt
        (λ e.
          let (lists, f, e') =
            >>=-eq-ok (downcast arrow type_text (vector dim) (arrow.list_array array)) _ e in
          let (values, g, e'') = >>=-eq-ok (collect_values _ _ _) _ e' in
          subst (Conforms (vector dim)) (ok-inj e'') (
            count-collect (read_float64 arrow type_text (lists row)) _ 0 values g
                ∙ d lists (downcast-some (vector dim) (arrow.list_array array) lists f),
            AllValues-collect IsFloat (read_float64 arrow type_text (lists row)) _ 0 values
                (read_float64-IsFloat (lists row)) g,
          ))
        h
