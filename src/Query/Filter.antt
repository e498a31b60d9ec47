-- ===== src/Query/Filter.antt =====
-- graph-engine/crates/graph-query/src/filter_eval.rs, with `flip_op` of planner.rs and
-- `property_value_to_literal` of distributed_executor.rs. RFC 3339 parsing is third-party code: the
-- parameter `parse_rfc3339_micros`.
pub mod Flip
use Prim.Native.Nat.Ordering.{lt, eq, gt}
use doi.Prelude.{
  ℕ, String, Bool, true, false, not, ◌&&◌, List, Option, none, some, Ordering, get, string_eq, ◌==◌,
}
use doi.Prelude.Int.{ℤ, compare_ℤ}
use doi.Prelude.Order.{compare_bool, string_ord}
use doi.Storage.{PropertyValue, Properties, partial_cmp}
use doi.Dsl.{ComparisonOp, Literal, PropertyFilter}

-- the final `match op`
unfoldable pub op_holds : ComparisonOp → Ordering → Bool
op_holds ComparisonOp.eq o = elim o [ eq ↦ true | _ ↦ false ]
op_holds ComparisonOp.ne o = elim o [ eq ↦ false | _ ↦ true ]
op_holds ComparisonOp.lt o = elim o [ lt ↦ true | _ ↦ false ]
op_holds ComparisonOp.lte o = elim o [ gt ↦ false | _ ↦ true ]
op_holds ComparisonOp.gt o = elim o [ gt ↦ true | _ ↦ false ]
op_holds ComparisonOp.gte o = elim o [ lt ↦ false | _ ↦ true ]

module _ (parse_rfc3339_micros : String → Option ℤ) where
  -- `let ordering = match (value, literal)`
  unfoldable pub value_ordering : PropertyValue → Literal → Option Ordering
  value_ordering (PropertyValue.int64 v) (Literal.int64 l) = some (compare_ℤ v l)
  value_ordering (PropertyValue.float64 v) (Literal.float64 l) = partial_cmp v l
  value_ordering (PropertyValue.bool v) (Literal.bool l) = some (compare_bool v l)
  value_ordering (PropertyValue.string v) (Literal.string l) = some (string_ord.cmp v l)
  value_ordering (PropertyValue.timestamp v) (Literal.string l) = elim (parse_rfc3339_micros l) [
    | none ↦ none
    | some parsed ↦ some (compare_ℤ v parsed)
  ]
  value_ordering _ _ = none

  unfoldable pub literal_matches : PropertyValue → ComparisonOp → Literal → Bool
  unfolding value_ordering op_holds
  literal_matches value op literal = elim (value_ordering value literal) [
    | none ↦ false
    | some ordering ↦ op_holds op ordering
  ]

  unfoldable pub evaluate_filter : Properties → PropertyFilter → Bool
  evaluate_filter properties filter = elim (get filter.property properties) [
    | none ↦ false
    | some value ↦ literal_matches value filter.op filter.value
  ]

unfoldable pub flip_op : ComparisonOp → ComparisonOp
flip_op ComparisonOp.eq = ComparisonOp.eq
flip_op ComparisonOp.ne = ComparisonOp.ne
flip_op ComparisonOp.lt = ComparisonOp.gt
flip_op ComparisonOp.lte = ComparisonOp.gte
flip_op ComparisonOp.gt = ComparisonOp.lt
flip_op ComparisonOp.gte = ComparisonOp.lte

unfoldable pub property_value_to_literal : PropertyValue → Option Literal
property_value_to_literal (PropertyValue.int64 v) = some (Literal.int64 v)
property_value_to_literal (PropertyValue.float64 v) = some (Literal.float64 v)
property_value_to_literal (PropertyValue.bool v) = some (Literal.bool v)
property_value_to_literal (PropertyValue.string v) = some (Literal.string v)
property_value_to_literal _ = none

-- the derived `PartialEq`, in which a NaN equals nothing
unfoldable pub literal_beq : Literal → Literal → Bool
literal_beq (Literal.int64 a) (Literal.int64 b) = elim (compare_ℤ a b) [ eq ↦ true | _ ↦ false ]
literal_beq (Literal.float64 a) (Literal.float64 b) = elim (partial_cmp a b) [
  | some eq ↦ true
  | _ ↦ false
]
literal_beq (Literal.bool a) (Literal.bool b) = elim (compare_bool a b) [ eq ↦ true | _ ↦ false ]
literal_beq (Literal.string a) (Literal.string b) = a == b
literal_beq _ _ = false

abbrev pub op_beq : ComparisonOp → ComparisonOp → Bool
op_beq ComparisonOp.eq ComparisonOp.eq = true
op_beq ComparisonOp.ne ComparisonOp.ne = true
op_beq ComparisonOp.lt ComparisonOp.lt = true
op_beq ComparisonOp.lte ComparisonOp.lte = true
op_beq ComparisonOp.gt ComparisonOp.gt = true
op_beq ComparisonOp.gte ComparisonOp.gte = true
op_beq _ _ = false

unfoldable pub filter_beq : PropertyFilter → PropertyFilter → Bool
unfolding literal_beq
filter_beq a b = a.property == b.property && op_beq a.op b.op && literal_beq a.value b.value
