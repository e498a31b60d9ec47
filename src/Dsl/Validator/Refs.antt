-- ===== src/Dsl/Validator/Refs.antt =====
-- graph-engine/crates/graph-dsl/src/validator.rs: the scope, and how `alias.property`
-- is checked. A function that pushes onto `errors` returns the
-- errors that it pushes, and its caller joins them in the order of the calls.
use doi.Prelude.{
  String, Bool, true, false, List, [], ◌∷◌, none, some, get, string_eq, nat_eq, ◌==◌, if◌then◌else◌,
  find, flat_map, any,
}
use doi.Schema.{Label, EdgeType, ScalarType, PropertyDef, Schema, node_def, edge_def}
use doi.Dsl.{ComparisonOp, Literal, PropertyFilter, NodePattern, ValidationError}

pub record Scope : Type 0 where
  pub bound_nodes : List String
  pub node_labels : List (String × Label)
  pub edge_types : List (String × EdgeType)

abbrev pub is_bound : String → Scope → Bool
is_bound alias scope = any (λ a. a == alias) scope.bound_nodes

-- `!matches!(ty, List(_) | Vector { .. })`
unfoldable pub is_comparable : ScalarType → Bool
is_comparable (ScalarType.list _) = false
is_comparable (ScalarType.vector _) = false
is_comparable _ = true

-- `matches!(ty, Int64 | Float64 | Timestamp)`
unfoldable pub is_ordered : ScalarType → Bool
is_ordered ScalarType.int64 = true
is_ordered ScalarType.float64 = true
is_ordered ScalarType.timestamp = true
is_ordered _ = false

unfoldable pub operator_compatible : ScalarType → ComparisonOp → Bool
unfolding is_comparable is_ordered
operator_compatible ty op = elim op [
  | ComparisonOp.eq ↦ is_comparable ty
  | ComparisonOp.ne ↦ is_comparable ty
  | _ ↦ is_ordered ty
]

-- the look-up of a property among the declared ones, for a node or an edge
unfoldable pub validate_declared :
    (owner : String) → List PropertyDef → (property : String) → ComparisonOp → List ValidationError
unfolding operator_compatible
validate_declared owner properties property op = elim (find (λ p. p.name == property) properties) [
  | some prop ↦
      if operator_compatible prop.ty op
      then []
      else ValidationError.incompatible_operator property ∷ []
  | none ↦ ValidationError.unknown_property owner property ∷ []
]

module _ (schema : Schema) where
  unfoldable pub validate_node_property_filter : Label → PropertyFilter → List ValidationError
  unfolding validate_declared
  validate_node_property_filter label filter = elim (node_def schema label) [
    | none ↦ []
    | some def ↦ validate_declared label def.properties filter.property filter.op
  ]

  unfoldable pub validate_edge_property : EdgeType → String → ComparisonOp → List ValidationError
  unfolding validate_declared
  validate_edge_property edge_type property op = elim (edge_def schema edge_type) [
    | none ↦ []
    | some def ↦ validate_declared edge_type def.properties property op
  ]

  unfoldable pub validate_property_ref :
      Scope → String → String → ComparisonOp → List ValidationError
  unfolding validate_node_property_filter validate_edge_property
  validate_property_ref scope alias property op = elim (get alias scope.node_labels) [
    | some label ↦
        validate_node_property_filter label
          (record { property = property; op = op; value = Literal.bool false })
    | none ↦ elim (get alias scope.edge_types) [
      | some edge_type ↦ validate_edge_property edge_type property op
      | none ↦ ValidationError.unknown_alias alias ∷ []
    ]
  ]

  unfoldable pub validate_node_pattern : NodePattern → List ValidationError
  unfolding validate_node_property_filter
  validate_node_pattern node = elim node.label [
    | none ↦ []
    | some label ↦ elim (node_def schema label) [
      | some _ ↦ flat_map (validate_node_property_filter label) node.property_filters
      | none ↦ ValidationError.unknown_label label ∷ []
    ]
  ]
