-- ===== src/Query/Filter/Flip.antt =====
-- graph-engine/crates/graph-query/src/planner.rs, `flip_op`: turning a comparison round.
use doi.Prelude.{
  ℕ, String, ◌≡◌, refl, ap, inl, inr, Option-cases, Ordering, Option, none, some, arith,
}
use doi.Prelude.Int.{ℤ}
use doi.Prelude.Order.{reverse, int-IsLawful, bool-IsLawful, string-IsLawful}
use doi.Storage.{PropertyValue, partial_cmp}
use doi.Dsl.{ComparisonOp, Literal}
use doi.Query.Filter.{op_holds, value_ordering, literal_matches, flip_op, property_value_to_literal}

partial_cmp-reverse :
    (a b : ℕ) → partial_cmp b a ≡ elim (partial_cmp a b) [ none ↦ none | some o ↦ some (reverse o) ]
unfolding partial_cmp
partial_cmp-reverse a b = ground (arith)

op_holds-flip_op :
    (op : ComparisonOp) (o : Ordering) → op_holds (flip_op op) (reverse o) ≡ op_holds op o
unfolding op_holds flip_op
op_holds-flip_op op o = ground arith

abbrev of_literal : Literal → PropertyValue
of_literal (Literal.int64 v) = PropertyValue.int64 v
of_literal (Literal.float64 v) = PropertyValue.float64 v
of_literal (Literal.bool v) = PropertyValue.bool v
of_literal (Literal.string v) = PropertyValue.string v

of_literal-to_literal :
    (v : PropertyValue) (l : Literal) → property_value_to_literal v ≡ some l → v ≡ of_literal l
unfolding property_value_to_literal
of_literal-to_literal v l h = ground arith

value_ordering-reverse :
    (parse : String → Option ℤ) (a b : Literal)
    → value_ordering parse (of_literal b) a
      ≡ elim (value_ordering parse (of_literal a) b) [ none ↦ none | some o ↦ some (reverse o) ]
unfolding value_ordering
value_ordering-reverse parse (Literal.int64 a) (Literal.int64 b) =
    ap some (int-IsLawful.cmp_reverse a b)
value_ordering-reverse parse (Literal.float64 a) (Literal.float64 b) = partial_cmp-reverse a b
value_ordering-reverse parse (Literal.bool a) (Literal.bool b) =
    ap some (bool-IsLawful.cmp_reverse a b)
value_ordering-reverse parse (Literal.string a) (Literal.string b) =
    ap some (string-IsLawful.cmp_reverse a b)
value_ordering-reverse parse _ _ = refl

-- For two stored values that have a literal, comparing the first with the second is comparing the
-- second with the first under the flipped operator, also where the two cannot be compared.
pub literal_matches-flip_op :
    (parse : String → Option ℤ) (v w : PropertyValue) (lv lw : Literal) (op : ComparisonOp)
    → property_value_to_literal v ≡ some lv
    → property_value_to_literal w ≡ some lw
    → literal_matches parse v op lw ≡ literal_matches parse w (flip_op op) lv
unfolding literal_matches
literal_matches-flip_op parse v w lv lw op hv hw =
    let a = of_literal-to_literal v lv hv in
    let b = of_literal-to_literal w lw hw in
    let turned = value_ordering-reverse parse lv lw in
    elim (Option-cases (value_ordering parse (of_literal lv) lw)) [
      | inl e ↦ ground arith
      | inr (o, e) ↦ ground (arith, op_holds-flip_op op o)
    ]
