-- ===== src/Query/Planner.antt =====
-- graph-engine/crates/graph-query/src/planner.rs. A panic of the source is `none`.
pub mod Steps
pub mod Follows
pub mod Returns
use doi.Prelude.{
  String, Bool, true, false, List, [], ◌∷◌, ◌++◌, Option, none, some, string_eq, ◌==◌, is_some,
  if◌then◌else◌, filter_map, filter,
}
use doi.Prelude.Options.{◌>>=◌}
use doi.Dsl.{
  ComparisonOp, Literal, NodePattern, EdgePattern, Pattern, PatternStep, PropertyFilter,
  PropertyRef, Query, ReturnItem, WhereCondition, WhereConditions, to_list,
}
use doi.Index.Key.{PropertyKey}
use doi.Query.{AntiJoinStep, PlanStep, QueryPlan}
use doi.Query.Filter.{flip_op}

unfoldable pub literal_to_property_key : Literal → Option PropertyKey
literal_to_property_key (Literal.int64 v) = some (PropertyKey.int64 v)
literal_to_property_key (Literal.bool v) = some (PropertyKey.bool v)
literal_to_property_key (Literal.string v) = some (PropertyKey.string v)
literal_to_property_key (Literal.float64 v) = none

-- `Some(alias) == inner_alias`
abbrev pub is_alias : Option String → String → Bool
is_alias none alias = false
is_alias (some inner) alias = alias == inner

unfoldable pub property_on : String → WhereCondition → Option PropertyFilter
property_on alias (WhereCondition.property a filter) = if a == alias then some filter else none
property_on alias _ = none

-- the `filter_map` over the query's conditions
unfoldable pub filters_on : String → List WhereCondition → List PropertyFilter
unfolding property_on
filters_on alias conditions = filter_map (property_on alias) conditions

-- the inline filter of the pattern if it has one, else the only condition on the start
unfoldable pub start_filter :
    (inline where_filters : List PropertyFilter) → Option (Option PropertyFilter)
start_filter (first ∷ _) _ = some (some first)
start_filter [] [] = some none
start_filter [] (single ∷ []) = some (some single)
start_filter [] (_ ∷ _ ∷ _) = none

unfoldable pub resolve_with : NodePattern → String → Option PropertyFilter → Option PlanStep
unfolding literal_to_property_key
resolve_with node label none = some (PlanStep.resolve_all node.alias label)
resolve_with node label (some filter) = elim filter.op [
  | ComparisonOp.eq ↦ do
    key ← literal_to_property_key filter.value
    some (PlanStep.resolve_start node.alias label filter.property key)
  | _ ↦ none
]

unfoldable pub resolve_start_or_all_step : NodePattern → List PropertyFilter → Option PlanStep
unfolding start_filter resolve_with
resolve_start_or_all_step node where_filters = do
  label ← node.label
  filter ← start_filter node.property_filters where_filters
  resolve_with node label filter

unfoldable pub hop_step :
    List WhereCondition → (from_alias : String) → EdgePattern → NodePattern → PlanStep
unfolding filters_on
hop_step conditions from_alias edge to_node = PlanStep.expand_hop (record {
  from_alias = from_alias;
  to_alias = to_node.alias;
  to_label = to_node.label;
  edge_type = edge.edge_type;
  direction = edge.direction;
  hops = edge.hops;
  filters = if is_some to_node.label then filters_on to_node.alias conditions else [];
  edge_alias = edge.alias;
})

-- the `while` loop, two steps of the pattern at a time
unfoldable pub hop_steps :
    List WhereCondition → (from_alias : String) → List PatternStep → Option (List PlanStep)
unfolding hop_step
hop_steps conditions from_alias [] = some []
hop_steps conditions from_alias (PatternStep.edge edge ∷ PatternStep.node to_node ∷ rest) = do
  later ← hop_steps conditions to_node.alias rest
  some (hop_step conditions from_alias edge to_node ∷ later)
hop_steps conditions from_alias _ = none

-- What a condition of a `NOT EXISTS` adds to the two lists: a literal condition, an outer one, or
-- nothing.
abbrev pub Outer : Type 0
Outer = String × ComparisonOp × PropertyRef

unfoldable pub literal_condition : Option String → WhereCondition → Option PropertyFilter
literal_condition inner (WhereCondition.property alias filter) =
    if is_alias inner alias then some filter else none
literal_condition inner _ = none

unfoldable pub outer_condition : Option String → WhereCondition → Option Outer
outer_condition inner (WhereCondition.property_comparison left op right) =
    if is_alias inner left.alias
    then some (left.property, op, right)
    else if is_alias inner right.alias
    then some (right.property, flip_op op, left)
    else none
outer_condition inner _ = none

-- the pattern of a `NOT EXISTS` is exactly a node, an edge and a node
unfoldable pub anti_join_of : List PatternStep → List WhereCondition → Option AntiJoinStep
unfolding literal_condition outer_condition
anti_join_of (PatternStep.node from_node ∷ PatternStep.edge edge ∷ PatternStep.node to_node ∷ [])
      conditions =
    some (record {
      from_alias = from_node.alias;
      to_alias = to_node.alias;
      direction = edge.direction;
      edge_alias = edge.alias;
      edge_type = edge.edge_type;
      literal_conditions = filter_map (literal_condition edge.alias) conditions;
      outer_conditions = filter_map (outer_condition edge.alias) conditions;
    })
anti_join_of _ conditions = none

unfoldable pub compile_anti_join : Pattern → WhereConditions → Option PlanStep
unfolding anti_join_of
compile_anti_join pattern where_conditions = do
  step ← anti_join_of pattern.steps (to_list where_conditions)
  some (PlanStep.anti_join step)

unfoldable pub anti_join_steps : List WhereCondition → Option (List PlanStep)
unfolding compile_anti_join
anti_join_steps [] = some []
anti_join_steps (WhereCondition.not_exists pattern conditions ∷ rest) = do
  step ← compile_anti_join pattern conditions
  later ← anti_join_steps rest
  some (step ∷ later)
anti_join_steps (_ ∷ rest) = anti_join_steps rest

unfoldable pub plan_from :
    List PatternStep → List WhereCondition → List ReturnItem → Option QueryPlan
unfolding resolve_start_or_all_step filters_on hop_steps anti_join_steps
plan_from (PatternStep.node first ∷ rest) conditions returns = do
  start ← resolve_start_or_all_step first (filters_on first.alias conditions)
  hops ← hop_steps conditions first.alias rest
  anti_joins ← anti_join_steps conditions
  some (record { steps = start ∷ (hops ++ anti_joins); project = returns })
plan_from _ conditions returns = none

unfoldable pub plan : Query → Option QueryPlan
unfolding plan_from
plan query = plan_from query.pattern.steps (to_list query.where_conditions) query.returns
