-- ===== src/Dsl/Validator/Sound.antt =====
-- graph-engine/crates/graph-dsl/src/validator.rs: what a query that passes `validate` satisfies.
use doi.Prelude.{
  append-eq-nil, ◌≡◌, refl, subst, ◌⊎◌, inl, inr, String, Bool, true, false, List, [], ◌∷◌, none,
  arith, In, string_eq, nat_eq, ◌==◌, ==_iff, any, if◌then◌else◌,
}
use doi.Schema.{Schema}
use doi.Dsl.{
  Direction, NodePattern, EdgePattern, PatternStep, Pattern, WhereCondition, WhereConditions,
  to_list, Query, ValidationError,
}
use doi.Dsl.Validator.{
  Scope, is_bound, is_single_hop, validate_anchor, validate_not_exists, validate_where_condition,
  validate_where_conditions, bind_node, bind_edge, validate_steps, validate, empty_scope,
}

-- the scope behind a query's pattern
abbrev pub scope_of : Schema → Query → Scope
scope_of schema query = (validate_steps schema query.pattern.steps empty_scope).1

-- A node of the pattern has the alias.
abbrev pub IsNodeAlias : String → List PatternStep → Type 0
IsNodeAlias alias steps =
    (node : NodePattern) × In (PatternStep.node node) steps × (node.alias ≡ alias)

bind_edge-bound_nodes :
    (edge : EdgePattern) (scope : Scope) → (bind_edge edge scope).bound_nodes ≡ scope.bound_nodes
unfolding bind_edge
bind_edge-bound_nodes edge scope = ground arith

is_bound-bind_node :
    (alias : String) (node : NodePattern) (scope : Scope)
    → is_bound alias (bind_node node scope) ≡ true
    → (node.alias ≡ alias) ⊎ (is_bound alias scope ≡ true)
unfolding bind_node
is_bound-bind_node alias node scope h = ground (arith, ==_iff node.alias alias)

module _ (schema : Schema) where
  is_bound-validate_steps :
      (alias : String) (steps : List PatternStep) (scope : Scope)
      → is_bound alias (validate_steps schema steps scope).1 ≡ true
      → IsNodeAlias alias steps ⊎ (is_bound alias scope ≡ true)
  unfolding validate_steps
  is_bound-validate_steps alias [] scope h = inr h
  is_bound-validate_steps alias (PatternStep.node node ∷ steps) scope h =
      elim (is_bound-validate_steps alias steps (bind_node node scope) h) [
        | inl (n, i, e) ↦ inl (n, inr i, e)
        | inr b ↦ elim (is_bound-bind_node alias node scope b) [
          | inl e ↦ inl (node, inl refl, e)
          | inr old ↦ inr old
        ]
      ]
  is_bound-validate_steps alias (PatternStep.edge edge ∷ steps) scope h =
      elim (is_bound-validate_steps alias steps (bind_edge edge scope) h) [
        | inl (n, i, e) ↦ inl (n, inr i, e)
        | inr b ↦
            inr (subst (λ z. any (λ a. a == alias) z ≡ true) (bind_edge-bound_nodes edge scope) b)
      ]

  validate_where_conditions-nil :
      (c : WhereCondition) (cs : WhereConditions) (scope : Scope) (allow : Bool)
      → validate_where_conditions schema cs scope allow ≡ []
      → In c (to_list cs)
      → validate_where_condition schema c scope allow ≡ []
  unfolding validate_where_conditions
  validate_where_conditions-nil c WhereConditions.nil scope allow h i = absurd i
  validate_where_conditions-nil c (WhereConditions.cons d ds) scope allow h (inl e) =
      rw e (append-eq-nil (validate_where_condition schema d scope allow) _ h).0
  validate_where_conditions-nil c (WhereConditions.cons d ds) scope allow h (inr i) =
      validate_where_conditions-nil c ds scope allow
        (append-eq-nil (validate_where_condition schema d scope allow) _ h).1 i

  -- The parts of a query that passes pass.
  pub validate-parts :
      (query : Query)
      → validate schema query ≡ []
      → ((validate_steps schema query.pattern.steps empty_scope).0 ≡ [])
        × (validate_where_conditions schema query.where_conditions (scope_of schema query) true
            ≡ [])
  unfolding validate
  validate-parts query h =
      let (steps, rest) = append-eq-nil _ _ h in (steps, (append-eq-nil _ _ rest).0)

  pub validate-condition :
      (query : Query) (c : WhereCondition)
      → validate schema query ≡ []
      → In c (to_list query.where_conditions)
      → validate_where_condition schema c (scope_of schema query) true ≡ []
  validate-condition query c h i =
      validate_where_conditions-nil c query.where_conditions (scope_of schema query) true
        (validate-parts query h).1 i

-- An anchor of a `NOT EXISTS`: a bare node that re-uses an alias of the outer pattern.
pub record IsAnchor (steps : List PatternStep) (anchor : NodePattern) : Type 0 where
  pub reused : IsNodeAlias anchor.alias steps
  pub unlabelled : anchor.label ≡ none
  pub unfiltered : anchor.property_filters ≡ []

-- The pattern of a `NOT EXISTS` that the planner can compile: one outgoing single hop between two
-- anchors.
pub record IsOneHop (outer inner : List PatternStep) : Type 0 where
  pub from_node : NodePattern
  pub edge : EdgePattern
  pub to_node : NodePattern
  pub shape :
      inner ≡ PatternStep.node from_node ∷ PatternStep.edge edge ∷ PatternStep.node to_node ∷ []
  pub from_anchor : IsAnchor outer from_node
  pub to_anchor : IsAnchor outer to_node
  pub single : is_single_hop edge.hops ≡ true
  pub outgoing : edge.direction ≡ Direction.outgoing

true_of_no_error :
    (test : Bool) (e : ValidationError) → (if test then [] else e ∷ []) ≡ [] → test ≡ true
true_of_no_error true e h = refl
true_of_no_error false e h = cc

outgoing_of_no_error :
    (direction : Direction)
    → elim direction [
      | Direction.outgoing ↦ []
      | Direction.incoming ↦ ValidationError.not_exists_must_be_outgoing ∷ []
    ]
      ≡ []
    → direction ≡ Direction.outgoing
outgoing_of_no_error Direction.outgoing h = refl
outgoing_of_no_error Direction.incoming h = cc

module _ (schema : Schema) (query : Query) where
  IsAnchor-of_nil :
      (anchor : NodePattern)
      → validate_anchor (scope_of schema query) anchor ≡ []
      → IsAnchor query.pattern.steps anchor
  unfolding validate_anchor
  IsAnchor-of_nil anchor h =
      let bound : is_bound anchor.alias (scope_of schema query) ≡ true = ground arith in
      record {
        reused =
            elim (is_bound-validate_steps schema anchor.alias query.pattern.steps empty_scope
              bound) [ inl found ↦ found | inr none_yet ↦ absurd (ground arith) ];
        unlabelled = ground arith;
        unfiltered = ground arith;
      }

  IsOneHop-of_nil :
      (steps : List PatternStep) (inner : Scope → List ValidationError)
      → validate_not_exists schema steps (scope_of schema query) inner ≡ []
      → IsOneHop query.pattern.steps steps
  unfolding validate_not_exists
  IsOneHop-of_nil
        (PatternStep.node from_node ∷ PatternStep.edge edge ∷ PatternStep.node to_node ∷ []) inner
        h =
      let (a, h1) = append-eq-nil _ _ h in
      let (b, h2) = append-eq-nil _ _ h1 in
      let (c, h3) = append-eq-nil _ _ h2 in
      let (d, h4) = append-eq-nil _ _ h3 in
      let (e, h5) = append-eq-nil _ _ h4 in
      record {
        from_node = from_node;
        edge = edge;
        to_node = to_node;
        shape = refl;
        from_anchor = IsAnchor-of_nil from_node a;
        to_anchor = IsAnchor-of_nil to_node b;
        single = true_of_no_error _ _ d;
        outgoing = outgoing_of_no_error edge.direction e;
      }
  IsOneHop-of_nil _ inner h = cc

  -- In a query that passes, every `NOT EXISTS` is one outgoing single hop between two bare nodes
  -- that re-use aliases of the query's own pattern.
  pub validate-IsOneHop :
      (pattern : Pattern) (conditions : WhereConditions)
      → validate schema query ≡ []
      → In (WhereCondition.not_exists pattern conditions) (to_list query.where_conditions)
      → IsOneHop query.pattern.steps pattern.steps
  unfolding validate_where_condition
  validate-IsOneHop pattern conditions h i =
      IsOneHop-of_nil pattern.steps (λ s. validate_where_conditions schema conditions s false)
        (validate-condition schema query (WhereCondition.not_exists pattern conditions) h i)
