-- ===== src/Query/Planner/Returns.antt =====
-- graph-engine/crates/graph-query/src/planner.rs, `plan`: the queries that it plans without a panic.
use doi.Prelude.{
  ℕ, String, List, [], ◌∷◌, ◌++◌, Option, none, some, inl, inr, ◌⊎◌, ◌≡◌, refl, ap, ◌∙◌,
}
use doi.Prelude.Options.{◌>>=◌}
use doi.Schema.{Schema}
use doi.Dsl.{
  Literal, ComparisonOp, PropertyFilter, NodePattern, PatternStep, WhereCondition, Query, to_list,
}
use doi.Dsl.Validator.{validate}
use doi.Index.Key.{PropertyKey}
use doi.Query.{QueryPlan, PlanStep}
use doi.Query.Planner.{
  literal_to_property_key, filters_on, start_filter, resolve_with, resolve_start_or_all_step,
  hop_step, hop_steps, plan_from, plan,
}
use doi.Query.Planner.Steps.{anti_join_steps_returns}

-- An edge and a node, as often as there are steps.
abbrev pub Alternates : List PatternStep → Type 0
Alternates [] = Unit
Alternates (PatternStep.edge edge ∷ PatternStep.node node ∷ rest) = Alternates rest
Alternates _ = ⊥

-- The index can answer the filter: an equality with a value that is not a float.
abbrev pub IsIndexable : PropertyFilter → Type 0
IsIndexable filter =
    (filter.op ≡ ComparisonOp.eq) × ((v : ℕ) → filter.value ≡ Literal.float64 v → ⊥)

-- The node has a label and, inline and in `WHERE` together, at most one filter,
-- which the index answers.
pub record CanStart (conditions : List WhereCondition) (node : NodePattern) : Type 0 where
  pub label : String
  pub labelled : node.label ≡ some label
  pub filtered :
      ((filter : PropertyFilter) × (node.property_filters ++ filters_on node.alias conditions
          ≡ filter ∷ [])
        × IsIndexable filter)
      ⊎ (node.property_filters ++ filters_on node.alias conditions ≡ [])

literal_to_property_key_returns :
    (literal : Literal)
    → ((v : ℕ) → literal ≡ Literal.float64 v → ⊥)
    → (key : PropertyKey) × (literal_to_property_key literal ≡ some key)
unfolding literal_to_property_key
literal_to_property_key_returns (Literal.int64 v) h = (_, refl)
literal_to_property_key_returns (Literal.float64 v) h = absurd (h v refl)
literal_to_property_key_returns (Literal.bool v) h = (_, refl)
literal_to_property_key_returns (Literal.string v) h = (_, refl)

resolve_with-eq :
    (node : NodePattern) (label : String) (filter : PropertyFilter)
    → IsIndexable filter
    → (step : PlanStep) × (resolve_with node label (some filter) ≡ some step)
unfolding resolve_with
resolve_with-eq node label filter (e, not_float) =
    let (key, f) = literal_to_property_key_returns filter.value not_float in
    (PlanStep.resolve_start node.alias label filter.property key, rw (e, f, resolve_with) refl)

start_filter-none :
    (inline others : List PropertyFilter)
    → inline ++ others ≡ []
    → start_filter inline others ≡ some none
unfolding start_filter
start_filter-none [] [] e = refl
start_filter-none [] (f ∷ fs) e = cc
start_filter-none (f ∷ fs) others e = cc

start_filter-some :
    (inline others : List PropertyFilter) (filter : PropertyFilter)
    → inline ++ others ≡ filter ∷ []
    → start_filter inline others ≡ some (some filter)
unfolding start_filter
start_filter-some [] [] filter e = cc
start_filter-some [] (f ∷ []) filter e = cc
start_filter-some [] (f ∷ g ∷ fs) filter e = cc
start_filter-some (f ∷ fs) others filter e = cc

resolve_start_or_all_step-resolve_with :
    (node : NodePattern) (others : List PropertyFilter) (label : String)
    (filter : Option PropertyFilter)
    → node.label ≡ some label
    → start_filter node.property_filters others ≡ some filter
    → resolve_start_or_all_step node others ≡ resolve_with node label filter
unfolding resolve_start_or_all_step
resolve_start_or_all_step-resolve_with node others label filter e f =
    let filtered = start_filter node.property_filters others in
    ap (λ l. l >>= λ label. filtered >>= λ filter. resolve_with node label filter) e
    ∙ ap (λ z. z >>= λ filter. resolve_with node label filter) f

resolve_start_or_all_step_returns :
    (conditions : List WhereCondition) (node : NodePattern)
    → CanStart conditions node
    → (step : PlanStep) × (resolve_start_or_all_step node (filters_on node.alias conditions)
        ≡ some step)
unfolding resolve_with
resolve_start_or_all_step_returns conditions node can =
    let others = filters_on node.alias conditions in
    elim can.filtered [
      | inl (filter, e, indexable) ↦
          let (step, f) = resolve_with-eq node can.label filter indexable in
          (
            step,
            resolve_start_or_all_step-resolve_with node others can.label (some filter) can.labelled
                  (start_filter-some node.property_filters others filter e)
                ∙ f,
          )
      | inr e ↦ (
        PlanStep.resolve_all node.alias can.label,
        resolve_start_or_all_step-resolve_with node others can.label none can.labelled
            (start_filter-none node.property_filters others e),
      )
    ]

hop_steps_returns :
    (conditions : List WhereCondition) (from : String) (pattern : List PatternStep)
    → Alternates pattern
    → (steps : List PlanStep) × (hop_steps conditions from pattern ≡ some steps)
unfolding hop_steps
hop_steps_returns conditions from [] h = ([], refl)
hop_steps_returns conditions from (PatternStep.edge edge ∷ PatternStep.node node ∷ rest) h =
    let (later, e) = hop_steps_returns conditions node.alias rest h in
    (
      hop_step conditions from edge node ∷ later,
      ap (λ z. z >>= λ steps. some (hop_step conditions from edge node ∷ steps)) e,
    )
hop_steps_returns conditions from (PatternStep.edge edge ∷ PatternStep.edge other ∷ rest) h =
    absurd h
hop_steps_returns conditions from (PatternStep.edge edge ∷ []) h = absurd h
hop_steps_returns conditions from (PatternStep.node node ∷ rest) h = absurd h

-- For a query that passes the validator, whose pattern is a node and then edges and nodes in turn, and
-- whose first node has a label and, inline and in `WHERE` together, at most one filter, an equality with
-- a value that is not a float, the planner returns a plan: it does not panic.
pub plan_returns :
    (schema : Schema) (query : Query) (first : NodePattern) (rest : List PatternStep)
    → validate schema query ≡ []
    → query.pattern.steps ≡ PatternStep.node first ∷ rest
    → Alternates rest
    → CanStart (to_list query.where_conditions) first
    → (p : QueryPlan) × (plan query ≡ some p)
unfolding plan plan_from
plan_returns schema query first rest valid shape alternates can =
    let conditions = to_list query.where_conditions in
    let (start, e) = resolve_start_or_all_step_returns conditions first can in
    let (hops, f) = hop_steps_returns conditions first.alias rest alternates in
    let (anti_joins, g) = anti_join_steps_returns schema query valid in
    (
      record { steps = start ∷ (hops ++ anti_joins); project = query.returns },
      rw (shape, plan) (rw (e, f, g, plan_from) refl),
    )
