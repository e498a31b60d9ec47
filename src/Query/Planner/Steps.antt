-- ===== src/Query/Planner/Steps.antt =====
-- graph-engine/crates/graph-query/src/planner.rs: the anti-joins of a query that passes the validator.
use doi.Prelude.{◌≡◌, refl, ap, List, [], ◌∷◌, some, arith, In, inl, inr}
use doi.Prelude.Options.{◌>>=◌}
use doi.Schema.{Schema}
use doi.Dsl.{PatternStep, Pattern, WhereCondition, WhereConditions, to_list, Query}
use doi.Dsl.Validator.{validate}
use doi.Dsl.Validator.Sound.{IsOneHop, validate-IsOneHop}
use doi.Query.{PlanStep}
use doi.Query.Planner.{anti_join_of, compile_anti_join, anti_join_steps}

anti_join_of_one_hop :
    (outer : List PatternStep) (pattern : Pattern) (conditions : WhereConditions)
    → IsOneHop outer pattern.steps
    → (step : PlanStep) × (compile_anti_join pattern conditions ≡ some step)
unfolding compile_anti_join
anti_join_of_one_hop outer pattern conditions one = (
  _,
  ap (λ z. anti_join_of z (to_list conditions) >>= λ s. some (PlanStep.anti_join s)) one.shape,
)

anti_join_steps_of_hops :
    (outer : List PatternStep) (conditions : List WhereCondition)
    → ((pattern : Pattern) (cs : WhereConditions)
        → In (WhereCondition.not_exists pattern cs) conditions
        → IsOneHop outer pattern.steps)
    → (steps : List PlanStep) × (anti_join_steps conditions ≡ some steps)
unfolding anti_join_steps
anti_join_steps_of_hops outer [] all = ([], refl)
anti_join_steps_of_hops outer (WhereCondition.not_exists pattern cs ∷ rest) all =
    let (step, e) = anti_join_of_one_hop outer pattern cs (all pattern cs (inl refl)) in
    let (later, f) = anti_join_steps_of_hops outer rest (λ p c i. all p c (inr i)) in
    (step ∷ later, ground arith)
anti_join_steps_of_hops outer (WhereCondition.property a f ∷ rest) all =
    anti_join_steps_of_hops outer rest (λ p c i. all p c (inr i))
anti_join_steps_of_hops outer (WhereCondition.alias_comparison a o b ∷ rest) all =
    anti_join_steps_of_hops outer rest (λ p c i. all p c (inr i))
anti_join_steps_of_hops outer (WhereCondition.property_comparison a o b ∷ rest) all =
    anti_join_steps_of_hops outer rest (λ p c i. all p c (inr i))

-- The planner compiles every `NOT EXISTS` of a query that passes the validator: it does not panic.
pub anti_join_steps_returns :
    (schema : Schema) (query : Query)
    → validate schema query ≡ []
    → (steps : List PlanStep) × (anti_join_steps (to_list query.where_conditions) ≡ some steps)
anti_join_steps_returns schema query h =
    anti_join_steps_of_hops query.pattern.steps (to_list query.where_conditions)
      (λ pattern cs i. validate-IsOneHop schema query pattern cs h i)
