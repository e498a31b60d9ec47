-- ===== src/Dsl/Validator.antt =====
-- graph-engine/crates/graph-dsl/src/validator.rs: patterns, conditions and whole queries. Errors are
-- returned in the order in which the source pushes them.
pub mod Refs
pub mod Sound
pub use Refs.*
use Refs.{Scope, is_bound, validate_property_ref, validate_node_pattern}
use doi.Prelude.{
  ℕ, String, Bool, true, false, not, ◌&&◌, ◌||◌, List, [], ◌∷◌, ◌++◌, Option, none, some, get,
  contains_key, insert, string_eq, nat_eq, ◌==◌, if◌then◌else◌, is_some, find, flat_map, length,
  any, Eq,
}
use doi.Schema.{Label, EdgeType, ScalarType, PropertyDef, Schema, node_def, edge_def}
use doi.Dsl.{
  Direction, HopRange, ComparisonOp, Literal, PropertyFilter, NodePattern, EdgePattern, PatternStep,
  Pattern, WhereCondition, WhereConditions, to_list, ReturnItem, OrderBy, Query, ValidationError,
}

abbrev pub is_single_hop : HopRange → Bool
is_single_hop hops = hops.min == 1 && hops.max == 1

-- one anchor of a `NOT EXISTS`
unfoldable pub validate_anchor : Scope → NodePattern → List ValidationError
validate_anchor outer anchor =
    if not (is_bound anchor.alias outer)
      || is_some anchor.label
      || not (elim anchor.property_filters [ [] ↦ true | _ ∷ _ ↦ false ])
    then ValidationError.not_exists_anchor_not_pre_bound anchor.alias ∷ []
    else []

-- `if let (Some(alias), Some(edge_type)) = (&edge.alias, &edge.edge_type)`
unfoldable pub bind_edge : EdgePattern → Scope → Scope
bind_edge edge scope = elim edge.alias [
  | none ↦ scope
  | some alias ↦ elim edge.edge_type [
    | none ↦ scope
    | some edge_type ↦ record scope { edge_types = insert alias edge_type scope.edge_types }
  ]
]

unfoldable pub bind_node : NodePattern → Scope → Scope
bind_node node scope = record {
  bound_nodes =
      if is_bound node.alias scope then scope.bound_nodes else node.alias ∷ scope.bound_nodes;
  node_labels = elim node.label [
    | none ↦ scope.node_labels
    | some label ↦ insert node.alias label scope.node_labels
  ];
  edge_types = scope.edge_types;
}

abbrev pub empty_scope : Scope
empty_scope = record { bound_nodes = []; node_labels = []; edge_types = [] }

module _ (schema : Schema) where
  unfoldable pub validate_edge_pattern : EdgePattern → List ValidationError
  validate_edge_pattern edge =
      elim edge.edge_type [
        | none ↦ []
        | some edge_type ↦
            if is_some (edge_def schema edge_type)
            then []
            else ValidationError.unknown_edge_type edge_type ∷ []
      ]
      ++ elim edge.alias [
        | none ↦ []
        | some alias ↦
            if is_single_hop edge.hops
            then []
            else ValidationError.edge_alias_on_variable_length_hop alias edge.hops.min edge.hops.max
              ∷ []
      ]

  -- `inner` checks the subquery's own conditions in the scope that it is given.
  unfoldable pub validate_not_exists :
      List PatternStep → Scope → (inner : Scope → List ValidationError) → List ValidationError
  unfolding validate_edge_pattern validate_anchor bind_edge
  validate_not_exists
        (PatternStep.node from_node ∷ PatternStep.edge edge ∷ PatternStep.node to_node ∷ []) outer
        inner =
      validate_anchor outer from_node
      ++ (validate_anchor outer to_node
          ++ (validate_edge_pattern edge
              ++ ((if is_single_hop edge.hops
                    then []
                    else ValidationError.edge_alias_on_variable_length_hop
                        (elim edge.alias [ none ↦ "<unaliased>" | some alias ↦ alias ])
                        edge.hops.min edge.hops.max
                      ∷ [])
                  ++ (elim edge.direction [
                    | Direction.outgoing ↦ []
                    | Direction.incoming ↦ ValidationError.not_exists_must_be_outgoing ∷ []
                  ]
                      ++ inner (bind_edge edge outer)))))
  validate_not_exists steps outer inner = ValidationError.not_exists_wrong_shape (length steps) ∷ []

  unfoldable mutual
    pub validate_where_condition :
        WhereCondition → Scope → (allow_not_exists : Bool) → List ValidationError
    validate_where_condition (WhereCondition.property alias filter) scope allow_not_exists =
        validate_property_ref schema scope alias filter.property filter.op
    validate_where_condition (WhereCondition.alias_comparison left op right) scope
          allow_not_exists =
        flat_map
          (λ alias. if is_bound alias scope then [] else ValidationError.unknown_alias alias ∷ [])
          (left ∷ right ∷ [])
    validate_where_condition (WhereCondition.property_comparison left op right) scope
          allow_not_exists =
        validate_property_ref schema scope left.alias left.property op
        ++ validate_property_ref schema scope right.alias right.property ComparisonOp.eq
    validate_where_condition (WhereCondition.not_exists pattern conditions) scope allow_not_exists =
        let inner = λ (s : Scope). validate_where_conditions conditions s false in
        if allow_not_exists
        then validate_not_exists pattern.steps scope inner
        else ValidationError.nested_not_exists ∷ []

    pub validate_where_conditions : WhereConditions → Scope → Bool → List ValidationError
    validate_where_conditions WhereConditions.nil scope allow_not_exists = []
    validate_where_conditions (WhereConditions.cons c cs) scope allow_not_exists =
        validate_where_condition c scope allow_not_exists
        ++ validate_where_conditions cs scope allow_not_exists

  unfoldable pub validate_return_item : ReturnItem → Scope → List ValidationError
  validate_return_item item scope = elim item.property [
    | none ↦
        if is_bound item.alias scope || contains_key item.alias scope.edge_types
        then []
        else ValidationError.unknown_alias item.alias ∷ []
    | some property ↦ validate_property_ref schema scope item.alias property ComparisonOp.eq
  ]

  unfoldable pub validate_order_by : OrderBy → Scope → List ValidationError
  validate_order_by order_by scope =
      validate_property_ref schema scope order_by.alias order_by.property ComparisonOp.eq

  -- the loop over the steps of the pattern: its errors, and the scope behind it
  unfoldable pub validate_steps : List PatternStep → Scope → List ValidationError × Scope
  unfolding bind_node bind_edge
  validate_steps [] scope = ([], scope)
  validate_steps (PatternStep.node node ∷ steps) scope =
      let (errors, after) = validate_steps steps (bind_node node scope) in
      (validate_node_pattern schema node ++ errors, after)
  validate_steps (PatternStep.edge edge ∷ steps) scope =
      let (errors, after) = validate_steps steps (bind_edge edge scope) in
      (validate_edge_pattern edge ++ errors, after)

  -- `Ok(())` is the empty list.
  unfoldable pub validate : Query → List ValidationError
  unfolding validate_steps validate_return_item validate_order_by
  validate query =
      let (errors, scope) = validate_steps query.pattern.steps empty_scope in
      errors
      ++ (validate_where_conditions query.where_conditions scope true
          ++ (flat_map (λ item. validate_return_item item scope) query.returns
              ++ elim query.order_by [
                | none ↦ []
                | some order_by ↦ validate_order_by order_by scope
              ]))
