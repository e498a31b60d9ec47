-- ===== src/Query/Planner/Follows.antt =====
-- graph-engine/crates/graph-query/src/planner.rs: a plan follows its query, step by step.
use doi.Prelude.{◌≡◌, String, true, List, [], ◌∷◌, some, In, ◌↔◌, is_some, string_eq, if◌then◌else◌}
use doi.Dsl.{NodePattern, EdgePattern, PatternStep, WhereCondition, to_list, Query, PropertyFilter}
use doi.Query.{PlanStep, ExpandHop, AntiJoinStep}
use doi.Query.Planner.{filters_on}

-- The first step finds the nodes of the first node's label, all or those of an index key, under its
-- alias.
abbrev pub IsStartOf : NodePattern → PlanStep → Type 0
IsStartOf node (PlanStep.resolve_start alias label property key) =
    (alias ≡ node.alias) × (node.label ≡ some label)
IsStartOf node (PlanStep.resolve_all alias label) = (alias ≡ node.alias) × (node.label ≡ some label)
IsStartOf node _ = ⊥

-- A hop follows the edge from the alias to the node; where the node has a label, its filters are the
-- conditions of the query on the node's properties.
pub record IsHopOf (conditions : List WhereCondition) (from : String) (edge : EdgePattern)
    (node : NodePattern) (hop : ExpandHop) : Type 0 where
  pub from_alias : hop.from_alias ≡ from
  pub to_alias : hop.to_alias ≡ node.alias
  pub to_label : hop.to_label ≡ node.label
  pub edge_type : hop.edge_type ≡ edge.edge_type
  pub direction : hop.direction ≡ edge.direction
  pub hops : hop.hops ≡ edge.hops
  pub edge_alias : hop.edge_alias ≡ edge.alias
  pub filters :
      (f : PropertyFilter)
      → In f hop.filters
        ↔ ((is_some node.label ≡ true) × In (WhereCondition.property node.alias f) conditions)

-- One hop for each edge of the pattern, in its order, and then the steps that remain.
abbrev pub AreHopsOf :
    List WhereCondition
    → String
    → List PatternStep
    → List PlanStep
    → (List PlanStep → Type 0)
    → Type 0
AreHopsOf conditions from [] steps Rest = Rest steps
AreHopsOf conditions from (PatternStep.edge edge ∷ PatternStep.node node ∷ pattern)
      (PlanStep.expand_hop hop ∷ steps) Rest =
    IsHopOf conditions from edge node hop × AreHopsOf conditions node.alias pattern steps Rest
AreHopsOf conditions from _ steps Rest = ⊥

-- An anti-join checks the edge of a `NOT EXISTS`; its literal conditions are those on the edge's alias.
pub record IsAntiJoinOf (pattern : List PatternStep) (conditions : List WhereCondition)
    (step : AntiJoinStep) : Type 0 where
  pub from : NodePattern
  pub edge : EdgePattern
  pub to : NodePattern
  pub shape : pattern ≡ PatternStep.node from ∷ PatternStep.edge edge ∷ PatternStep.node to ∷ []
  pub from_alias : step.from_alias ≡ from.alias
  pub to_alias : step.to_alias ≡ to.alias
  pub direction : step.direction ≡ edge.direction
  pub edge_alias : step.edge_alias ≡ edge.alias
  pub edge_type : step.edge_type ≡ edge.edge_type
  pub literal_conditions :
      (f : PropertyFilter)
      → In f step.literal_conditions ↔ (
          (alias : String) × (edge.alias ≡ some alias)
          × In (WhereCondition.property alias f) conditions)

-- One anti-join for each `NOT EXISTS`, in its order.
abbrev pub AreAntiJoinsOf : List WhereCondition → List PlanStep → Type 0
AreAntiJoinsOf [] [] = Unit
AreAntiJoinsOf [] (step ∷ steps) = ⊥
AreAntiJoinsOf (WhereCondition.not_exists pattern cs ∷ rest) (PlanStep.anti_join step ∷ steps) =
    IsAntiJoinOf pattern.steps (to_list cs) step × AreAntiJoinsOf rest steps
AreAntiJoinsOf (WhereCondition.not_exists pattern cs ∷ rest) _ = ⊥
AreAntiJoinsOf (WhereCondition.property a f ∷ rest) steps = AreAntiJoinsOf rest steps
AreAntiJoinsOf (WhereCondition.alias_comparison a o b ∷ rest) steps = AreAntiJoinsOf rest steps
AreAntiJoinsOf (WhereCondition.property_comparison a o b ∷ rest) steps = AreAntiJoinsOf rest steps

-- The plan of a query.
abbrev pub Follows : List PatternStep → List WhereCondition → List PlanStep → Type 0
Follows (PatternStep.node first ∷ pattern) conditions (start ∷ steps) =
    IsStartOf first start
    × AreHopsOf conditions first.alias pattern steps (AreAntiJoinsOf conditions)
Follows _ conditions _ = ⊥

hop_of : List WhereCondition → String → EdgePattern → NodePattern → ExpandHop
hop_of conditions from edge node = record {
  from_alias = from;
  to_alias = node.alias;
  to_label = node.label;
  edge_type = edge.edge_type;
  direction = edge.direction;
  hops = edge.hops;
  filters = if is_some node.label then filters_on node.alias conditions else [];
  edge_alias = edge.alias;
}
