-- ===== src/Examples/Query.antt =====
-- Tests of queries: validation, plans, filters and anti-joins.
use doi.Prelude.{
  ℕ, String, true, List, [], ◌∷◌, none, some, In, inl, inr, ◌↔◌, ◌≡◌, refl, get, string_eq, nat_eq,
  is_some, subst, sym,
}
use doi.Prelude.Int.{pos}
use doi.Storage.{PropertyValue}
use doi.Dsl.{
  ComparisonOp, Direction, Literal, PropertyFilter, NodePattern, EdgePattern, PatternStep, Pattern,
  WhereCondition, WhereConditions, to_list, Query,
}
use doi.Dsl.Validator.{
  validate, validate_edge_pattern, validate_where_conditions, validate_not_exists,
}
use doi.Dsl.Validator.Refs.{validate_node_pattern}
use doi.Dsl.Validator.Sound.{IsOneHop, validate-IsOneHop}
use doi.Query.{ok, PlanStep, QueryPlan, AntiJoinStep, Binding}
use doi.Query.Filter.{property_value_to_literal, literal_matches, flip_op}
use doi.Query.Filter.Flip.{literal_matches-flip_op}
use doi.Query.Planner.{plan, anti_join_steps}
use doi.Query.Planner.Steps.{anti_join_steps_returns}
use doi.Query.Planner.Returns.{CanStart, plan_returns}
use doi.Query.Planner.{filters_on, property_on}
use doi.Query.Planner.Follows.{Follows}
use doi.Query.Local.{check_anti_join}
use doi.Query.Local.AntiJoin.{AreBound, Survives, In-check_anti_join}
use doi.Examples.{generation, no_times, people}

abbrev person : String → NodePattern
person alias = record { alias = alias; label = some "Person"; property_filters = [] }

abbrev bare : String → NodePattern
bare alias = record { alias = alias; label = none; property_filters = [] }

abbrev knows : EdgePattern
knows = record {
  alias = none;
  edge_type = some "KNOWS";
  direction = Direction.outgoing;
  hops = record { min = 1; max = 1 };
}

-- (b)-[:KNOWS]->(a)
abbrev knows_back : Pattern
knows_back = record {
  steps = PatternStep.node (bare "b") ∷ PatternStep.edge knows ∷ PatternStep.node (bare "a") ∷ [];
}

-- MATCH (a:Person)-[:KNOWS]->(b:Person) WHERE NOT EXISTS { (b)-[:KNOWS]->(a) } RETURN a
abbrev unrequited : Query
unrequited = record {
  pattern = record {
    steps =
        PatternStep.node (person "a") ∷ PatternStep.edge knows ∷ PatternStep.node (person "b") ∷ [];
  };
  where_conditions =
      WhereConditions.cons (WhereCondition.not_exists knows_back WhereConditions.nil)
        WhereConditions.nil;
  returns = record { alias = "a"; property = none } ∷ [];
  order_by = none;
  limit = none;
}

unrequited_valid : validate people unrequited ≡ []
unfolding validate validate_node_pattern validate_edge_pattern validate_where_conditions
    validate_not_exists
unrequited_valid = refl

validate-IsOneHop_example : IsOneHop unrequited.pattern.steps knows_back.steps
validate-IsOneHop_example =
    validate-IsOneHop people unrequited knows_back WhereConditions.nil unrequited_valid (inl refl)

abbrev unrequited_plan : QueryPlan
unrequited_plan = record {
  steps =
      PlanStep.resolve_all "a" "Person"
      ∷ PlanStep.expand_hop (record {
        from_alias = "a";
        to_alias = "b";
        to_label = some "Person";
        edge_type = some "KNOWS";
        direction = Direction.outgoing;
        hops = record { min = 1; max = 1 };
        filters = [];
        edge_alias = none;
      })
      ∷ PlanStep.anti_join (record {
        from_alias = "b";
        to_alias = "a";
        direction = Direction.outgoing;
        edge_alias = none;
        edge_type = some "KNOWS";
        literal_conditions = [];
        outer_conditions = [];
      })
      ∷ [];
  project = record { alias = "a"; property = none } ∷ [];
}

unrequited-CanStart : CanStart (to_list unrequited.where_conditions) (person "a")
unfolding filters_on property_on
unrequited-CanStart = record { label = "Person"; labelled = refl; filtered = inr refl }

plan_returns_example : (p : QueryPlan) × (plan unrequited ≡ some p)
plan_returns_example =
    plan_returns people unrequited (person "a")
      (PatternStep.edge knows ∷ PatternStep.node (person "b") ∷ []) unrequited_valid refl tt
      unrequited-CanStart

literal_matches-flip_op_example :
    literal_matches no_times (PropertyValue.int64 (pos 3)) ComparisonOp.lt (Literal.int64 (pos 4))
    ≡ literal_matches no_times
        (PropertyValue.int64 (pos 4))
        (flip_op ComparisonOp.lt)
        (Literal.int64 (pos 3))
unfolding property_value_to_literal
literal_matches-flip_op_example =
    literal_matches-flip_op no_times (PropertyValue.int64 (pos 3)) (PropertyValue.int64 (pos 4))
      (Literal.int64 (pos 3)) (Literal.int64 (pos 4)) ComparisonOp.lt refl refl

anti_join_steps_returns_example :
    (steps : List PlanStep) × (anti_join_steps (to_list unrequited.where_conditions) ≡ some steps)
anti_join_steps_returns_example = anti_join_steps_returns people unrequited unrequited_valid

-- partition 0
-- a -[:KNOWS]-> b
abbrev knows_step : AntiJoinStep
knows_step = record {
  from_alias = "a";
  to_alias = "b";
  direction = Direction.outgoing;
  edge_alias = none;
  edge_type = some "KNOWS";
  literal_conditions = [];
  outer_conditions = [];
}

abbrev ends : ℕ → ℕ → Binding
ends a b = record { nodes = ("a", a) ∷ ("b", b) ∷ []; edges = [] }

abbrev frontier : List Binding
frontier = ends 0 2 ∷ ends 2 0 ∷ []

abbrev heavy : List PropertyFilter
heavy = record { property = "weight"; op = ComparisonOp.gte; value = Literal.int64 (pos 5) } ∷ []

frontier-AreBound : AreBound no_times generation knows_step heavy frontier
unfolding AreBound
frontier-AreBound b (inl e) =
    subst (λ z. (is_some (get "a" z.nodes) ≡ true) × (is_some (get "b" z.nodes) ≡ true)) (sym e)
      (refl, refl)
frontier-AreBound b (inr (inl e)) =
    subst (λ z. (is_some (get "a" z.nodes) ≡ true) × (is_some (get "b" z.nodes) ≡ true)) (sym e)
      (refl, refl)
frontier-AreBound b (inr (inr i)) = absurd i

In-check_anti_join_example :
    (out : List Binding) × (check_anti_join no_times generation knows_step heavy frontier ≡ ok out)
    × ((b : Binding) → In b out ↔ (In b frontier × Survives no_times generation knows_step heavy b))
In-check_anti_join_example =
    In-check_anti_join no_times generation knows_step heavy frontier frontier-AreBound
