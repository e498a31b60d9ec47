-- ===== src/Query/Distributed/Plans.antt =====
-- graph-engine/crates/graph-query/src/distributed_executor.rs: filters, anti-joins and whole plans.
use doi.Prelude.{
  ℕ, String, Bool, true, false, ◌&&◌, List, [], ◌∷◌, ◌++◌, Option, none, some, get, contains_key,
  filter, filter_map, flat_map, all, insert, string_eq, nat_eq, if◌then◌else◌,
}
use doi.Prelude.Int.{ℤ}
use doi.Schema.{NodeId, EdgeId}
use doi.Storage.{Properties}
use doi.Dsl.{ComparisonOp, PropertyFilter, PropertyRef}
use doi.Index.{PartitionId, NodeRecord, EdgeRecord}
use doi.Cluster.{PartitionMap}
use doi.Query.{
  Run, ok, err, panic, ◌>>=◌, ExecutionError, QueryPlan, PlanStep, ExpandHop, AntiJoinStep, Binding,
}
use doi.Query.Filter.{evaluate_filter, property_value_to_literal, filter_beq}
use doi.Query.Distributed.{
  ScatterGatherExecutor, dedup, pick_replica, group_by_owning_node_partition,
}
use doi.Query.Distributed.Execute.{
  is_empty, id_set, broadcast_resolve, get_node_properties, get_edge_properties, scatter_gather_hop,
}

abbrev pub Condition : Type 0
Condition = String × ComparisonOp × PropertyRef

-- `outer_is_edge`, from the first binding
unfoldable pub outer_is_edge :
    Binding → List Condition → List (String × Bool) → Run (List (String × Bool))
outer_is_edge sample [] table = ok table
outer_is_edge sample ((_, _, outer) ∷ conditions) table =
    if contains_key outer.alias sample.edges
    then outer_is_edge sample conditions (insert outer.alias true table)
    else if contains_key outer.alias sample.nodes
    then outer_is_edge sample conditions (insert outer.alias false table)
    else err (ExecutionError.unknown_alias outer.alias)

-- `outer_is_edge[alias]`, which has every alias of the conditions
abbrev pub is_edge_alias : List (String × Bool) → String → Bool
is_edge_alias table alias = elim (get alias table) [ none ↦ false | some b ↦ b ]

abbrev pub option_list : {A : Type 0} → Option A → List A
option_list none = []
option_list (some a) = a ∷ []

-- the ids of the nodes, or of the edges, that the conditions refer to
abbrev pub nodes_needed : List (String × Bool) → List Condition → List Binding → List NodeId
nodes_needed table conditions frontier = id_set (
    flat_map
      (λ (b : Binding).
        flat_map
          (λ (c : Condition).
            if is_edge_alias table c.2.alias then [] else option_list (get c.2.alias b.nodes))
          conditions)
      frontier)

abbrev pub edges_needed : List (String × Bool) → List Condition → List Binding → List EdgeId
edges_needed table conditions frontier = id_set (
    flat_map
      (λ (b : Binding).
        flat_map
          (λ (c : Condition).
            if is_edge_alias table c.2.alias then option_list (get c.2.alias b.edges) else [])
          conditions)
      frontier)

abbrev pub node_properties_of : List (NodeId × NodeRecord) → NodeId → Option Properties
node_properties_of props id = elim (get id props) [ none ↦ none | some r ↦ some r.properties ]

abbrev pub edge_properties_of : List (EdgeId × EdgeRecord) → EdgeId → Option Properties
edge_properties_of props id = elim (get id props) [ none ↦ none | some r ↦ some r.properties ]

module _ (table : List (String × Bool)) (node_props : List (NodeId × NodeRecord))
    (edge_props : List (EdgeId × EdgeRecord)) where
  -- `record_properties`
  abbrev pub outer_properties : Binding → String → Option Properties
  outer_properties binding alias =
      if is_edge_alias table alias
      then elim (get alias binding.edges) [
        | none ↦ none
        | some id ↦ edge_properties_of edge_props id
      ]
      else elim (get alias binding.nodes) [
        | none ↦ none
        | some id ↦ node_properties_of node_props id
      ]

  -- one outer condition with the value that it has for the binding; `none` is `continue 'binding`
  unfoldable pub resolve_condition : Binding → Condition → Option PropertyFilter
  resolve_condition binding (inner_property, op, outer) =
      elim (outer_properties binding outer.alias) [
        | none ↦ none
        | some properties ↦ elim (get outer.property properties) [
          | none ↦ none
          | some value ↦ elim (property_value_to_literal value) [
            | none ↦ none
            | some literal ↦ some (record { property = inner_property; op = op; value = literal })
          ]
        ]
      ]

  -- the inner loop, with `resolved`
  unfoldable pub resolve_conditions :
      Binding → List Condition → List PropertyFilter → Option (List PropertyFilter)
  unfolding resolve_condition
  resolve_conditions binding [] resolved = some resolved
  resolve_conditions binding (c ∷ conditions) resolved = elim (resolve_condition binding c) [
    | none ↦ none
    | some f ↦ resolve_conditions binding conditions (resolved ++ f ∷ [])
  ]

-- `matches!(first, ResolveStart { .. } | ResolveAll { .. })`
abbrev pub is_resolve : PlanStep → Bool
is_resolve (PlanStep.resolve_start _ _ _ _) = true
is_resolve (PlanStep.resolve_all _ _) = true
is_resolve _ = false

abbrev pub Groups : Type 0
Groups = List (List PropertyFilter × List Binding)

unfoldable pub filters_beq : List PropertyFilter → List PropertyFilter → Bool
filters_beq [] [] = true
filters_beq (f ∷ fs) (g ∷ gs) = filter_beq f g && filters_beq fs gs
filters_beq _ _ = false

-- the `match` on the first group with the same conditions
unfoldable pub push_group : List PropertyFilter → Binding → Groups → Groups
unfolding filters_beq
push_group resolved binding [] = (resolved, binding ∷ []) ∷ []
push_group resolved binding ((conditions, bucket) ∷ groups) =
    if filters_beq conditions resolved
    then (conditions, bucket ++ binding ∷ []) ∷ groups
    else (conditions, bucket) ∷ push_group resolved binding groups

module _ (resolve : Binding → Option (List PropertyFilter)) where
  -- the loop over the frontier
  unfoldable pub group_conditions : List Binding → Groups → Groups
  unfolding push_group
  group_conditions [] groups = groups
  group_conditions (binding ∷ frontier) groups = group_conditions frontier (elim (resolve binding) [
    | none ↦ groups
    | some resolved ↦ push_group resolved binding groups
  ])

module _ (executor : ScatterGatherExecutor) (partitions : PartitionMap) (xxh3_64 : List ℕ → ℕ) where
  unfoldable pub resolve_and_group_by_condition :
      AntiJoinStep → (frontier : List Binding) → Run Groups
  unfolding outer_is_edge resolve_conditions group_conditions
  resolve_and_group_by_condition step [] = panic
  resolve_and_group_by_condition step (sample ∷ rest) = do
    table ← outer_is_edge sample step.outer_conditions []
    node_props ←
        (if is_empty (nodes_needed table step.outer_conditions (sample ∷ rest))
          then ok []
          else get_node_properties executor partitions xxh3_64
              (nodes_needed table step.outer_conditions (sample ∷ rest)))
    edge_props ←
        (if is_empty (edges_needed table step.outer_conditions (sample ∷ rest))
          then ok []
          else get_edge_properties executor partitions
              (edges_needed table step.outer_conditions (sample ∷ rest)))
    ok (
        group_conditions
          (λ b.
            resolve_conditions table node_props edge_props b step.outer_conditions
              step.literal_conditions)
          (sample ∷ rest) [])

  -- the inner loop of `execute_anti_join`, with `survivors`
  unfoldable pub check_groups :
      AntiJoinStep
      → List PropertyFilter
      → List (PartitionId × List Binding)
      → List Binding
      → Run (List Binding)
  check_groups step conditions [] survivors = ok survivors
  check_groups step conditions ((partition, group) ∷ groups) survivors =
      elim (pick_replica partitions partition) [
        | none ↦ check_groups step conditions groups survivors
        | some replica ↦ do
          result ← executor.rpc.check_anti_join replica step conditions group
          check_groups step conditions groups (survivors ++ result)
      ]

  unfoldable pub check_all : AntiJoinStep → Groups → (survivors : List Binding) → Run (List Binding)
  unfolding check_groups
  check_all step [] survivors = ok survivors
  check_all step ((conditions, bindings) ∷ groups) survivors = do
    by_partition ← group_by_owning_node_partition xxh3_64 executor.hasher bindings step.from_alias
    next ← check_groups step conditions by_partition survivors
    check_all step groups next

  unfoldable pub execute_anti_join : AntiJoinStep → (frontier : List Binding) → Run (List Binding)
  unfolding resolve_and_group_by_condition check_all
  execute_anti_join step frontier = if is_empty frontier then ok frontier else (do
    groups ←
        (if is_empty step.outer_conditions
          then ok ((step.literal_conditions, frontier) ∷ [])
          else resolve_and_group_by_condition step frontier)
    check_all step groups [])

  module _ (parse_rfc3339_micros : String → Option ℤ) where
    -- the closure of the final `filter`
    abbrev pub passes : ExpandHop → List (NodeId × NodeRecord) → Binding → Bool
    passes hop properties binding = elim (get hop.to_alias binding.nodes) [
      | none ↦ false
      | some id ↦ elim (get id properties) [
        | none ↦ false
        | some held ↦ all (evaluate_filter parse_rfc3339_micros held.properties) hop.filters
      ]
    ]

    unfoldable pub filter_frontier : PlanStep → (frontier : List Binding) → Run (List Binding)
    filter_frontier (PlanStep.expand_hop hop) frontier =
        if is_empty hop.filters then ok frontier else if is_empty frontier then ok frontier else (do
          properties ←
              get_node_properties executor partitions xxh3_64
                (id_set (filter_map (λ (b : Binding). get hop.to_alias b.nodes) frontier))
          ok (filter (passes hop properties) frontier))
    filter_frontier _ frontier =
        err (ExecutionError.unknown_alias "filter_frontier called with a non-ExpandHop step")

    -- one step behind the first
    unfoldable pub execute_step : PlanStep → (frontier : List Binding) → Run (List Binding)
    unfolding filter_frontier execute_anti_join
    execute_step (PlanStep.expand_hop hop) frontier = do
      expanded ← scatter_gather_hop executor partitions xxh3_64 (PlanStep.expand_hop hop) frontier
      filter_frontier (PlanStep.expand_hop hop) expanded
    execute_step (PlanStep.anti_join step) frontier = execute_anti_join step frontier
    execute_step _ frontier =
        err (ExecutionError.unknown_alias "ResolveStart/ResolveAll can only be the first plan step")

    unfoldable pub execute_steps : List PlanStep → (frontier : List Binding) → Run (List Binding)
    unfolding execute_step
    execute_steps [] frontier = ok frontier
    execute_steps (step ∷ steps) frontier = do
      next ← execute_step step frontier
      execute_steps steps next

    -- the plan behind its first step
    unfoldable pub execute_from : PlanStep → List PlanStep → Run (List Binding)
    unfolding execute_steps
    execute_from first steps = do
      start ← broadcast_resolve executor partitions first
      final ← execute_steps steps start
      ok (dedup final)

    unfoldable pub execute : QueryPlan → Run (List Binding)
    unfolding execute_from
    execute plan = elim plan.steps [
      | [] ↦
          err (
            ExecutionError.unknown_alias
              "a plan always has at least a ResolveStart/ResolveAll step")
      | first ∷ steps ↦
          if is_resolve first
          then execute_from first steps
          else err (
              ExecutionError.unknown_alias "a plan's first step must be ResolveStart or ResolveAll")
    ]
