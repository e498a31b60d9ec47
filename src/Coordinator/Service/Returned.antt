-- ===== src/Coordinator/Service/Returned.antt =====
-- graph-engine/bin/graph-coordinator/src/service.rs, `execute_query`: when it answers.
use doi.Prelude.{
  ℕ, String, List, [], ◌∷◌, Option, map, Result, ok, ◌≡◌, refl, sym, ap, ◌∙◌, arith, inl, inr, ◌↔◌,
  Option-cases,
}
use doi.Prelude.Int.{ℤ}
use doi.Schema.{NodeId, EdgeId}
use doi.Dsl.{Query, ValidationError}
use doi.Index.{NodeRecord, EdgeRecord}
use doi.Cluster.{PartitionMap}
use doi.Query.{QueryPlan, Binding}
use doi.Query as Query
use doi.Query.Distributed.Execute.{get_node_properties, get_edge_properties}
use doi.PartitionNode.Service.{internally}
use doi.Coordinator.Results.{QueryResult, project_row}
use doi.Coordinator.Service.{
  GraphServiceImpl, parsed, discovered, hydrated_nodes, hydrated_edges, execute_query, execute_plan,
  answer, result_rows, ordered, limited,
}
use doi.Coordinator.Service.Answers.{IsFetched, kinds_of, IsAnswer, execute_query-IsAnswer}

internally-ok : {A : Type 0} (r : Query.Run A) (a : A) → r ≡ Query.ok a → internally r ≡ ok a
unfolding internally
internally-ok r a e = ground arith

module _ (parse : String → Result String Query) (debug_text : List ValidationError → String)
    (xxh3_64 : List ℕ → ℕ) (parse_rfc3339_micros : String → Option ℤ)
    (self : GraphServiceImpl) where
  abbrev Answers : String → List QueryResult → Type 0
  Answers dsl rows = IsAnswer parse debug_text xxh3_64 parse_rfc3339_micros self dsl rows

  hydrated_nodes-of_fetched :
      (partitions : PartitionMap) (ids : List NodeId) (nodes : List (NodeId × NodeRecord))
      → IsFetched parse debug_text xxh3_64 parse_rfc3339_micros
          (get_node_properties self.executor partitions xxh3_64)
          ids
          nodes
      → hydrated_nodes xxh3_64 self partitions ids ≡ ok nodes
  unfolding hydrated_nodes
  hydrated_nodes-of_fetched partitions [] nodes (inl (e, f)) = ap ok (sym f)
  hydrated_nodes-of_fetched partitions [] nodes (inr (n, f)) = absurd (n refl)
  hydrated_nodes-of_fetched partitions (id ∷ ids) nodes (inl (e, f)) = cc
  hydrated_nodes-of_fetched partitions (id ∷ ids) nodes (inr (n, f)) = internally-ok _ nodes f

  hydrated_edges-of_fetched :
      (partitions : PartitionMap) (ids : List EdgeId) (edges : List (EdgeId × EdgeRecord))
      → IsFetched parse debug_text xxh3_64 parse_rfc3339_micros
          (get_edge_properties self.executor partitions)
          ids
          edges
      → hydrated_edges self partitions ids ≡ ok edges
  unfolding hydrated_edges
  hydrated_edges-of_fetched partitions [] edges (inl (e, f)) = ap ok (sym f)
  hydrated_edges-of_fetched partitions [] edges (inr (n, f)) = absurd (n refl)
  hydrated_edges-of_fetched partitions (id ∷ ids) edges (inl (e, f)) = cc
  hydrated_edges-of_fetched partitions (id ∷ ids) edges (inr (n, f)) = internally-ok _ edges f

  result_rows-of_answer :
      (dsl : String) (rows : List QueryResult) (a : Answers dsl rows)
      → result_rows
          (kinds_of parse debug_text xxh3_64 parse_rfc3339_micros a.query a.plan a.bindings)
          a.nodes
          a.edges
          a.query
          a.plan.project
          a.bindings
        ≡ rows
  unfolding result_rows
  result_rows-of_answer dsl rows a =
      let kinds =
        kinds_of parse debug_text xxh3_64 parse_rfc3339_micros a.query a.plan a.bindings in
      let row = project_row kinds a.nodes a.edges a.plan.project in
      let sequence : ordered kinds a.nodes a.edges a.query.order_by a.bindings ≡ a.in_sequence =
        elim (Option-cases a.query.order_by) [
          | inl e ↦ ap (λ z. ordered kinds a.nodes a.edges z a.bindings) e ∙ sym (a.unsorted e)
          | inr (order, e) ↦
              ap (λ z. ordered kinds a.nodes a.edges z a.bindings) e ∙ sym (a.sorted order e)
        ] in
      ap (λ s. map row (limited a.query.limit s)) sequence ∙ elim (Option-cases a.query.limit) [
        | inl e ↦ ap (λ z. map row (limited z a.in_sequence)) e ∙ sym (a.all_rows e)
        | inr (n, e) ↦ ap (λ z. map row (limited z a.in_sequence)) e ∙ sym (a.first_rows n e)
      ]

  answer-of_answer :
      (dsl : String) (rows : List QueryResult) (a : Answers dsl rows)
      → answer xxh3_64 self a.query a.plan a.partitions a.bindings ≡ ok rows
  unfolding answer
  answer-of_answer dsl rows a =
      rw
        (
          hydrated_nodes-of_fetched a.partitions _ a.nodes a.fetches_nodes,
          hydrated_edges-of_fetched a.partitions _ a.edges a.fetches_edges,
        )
        (ap ok (result_rows-of_answer dsl rows a))

  discovered-ok :
      (partitions : PartitionMap)
      → self.discovery.current_map ≡ ok partitions
      → discovered self ≡ ok partitions
  unfolding discovered
  discovered-ok partitions e = ground arith

  execute_query-of_answer :
      (dsl : String) (rows : List QueryResult)
      → Answers dsl rows
      → execute_query parse debug_text xxh3_64 parse_rfc3339_micros self dsl ≡ ok rows
  unfolding execute_query execute_plan parsed
  execute_query-of_answer dsl rows a =
      rw (a.parses, parsed)
        (rw (a.valid, a.plans)
          (rw (discovered-ok a.partitions a.found, internally-ok _ a.bindings a.gathers)
            (answer-of_answer dsl rows a)))

  -- `execute_query` returns rows exactly if they come from a text that parses, a query that the schema
  -- allows, its plan, the map of the cluster, the bindings that the execution of the plan returned and
  -- the records that the executor returned for the ids that the query needs: the rows are then the
  -- projections of the bindings, sorted first where the query has an ORDER BY and cut to its LIMIT
  -- after that.
  pub IsAnswer-iff :
      (dsl : String) (rows : List QueryResult)
      → (execute_query parse debug_text xxh3_64 parse_rfc3339_micros self dsl ≡ ok rows)
        ↔ IsAnswer parse debug_text xxh3_64 parse_rfc3339_micros self dsl rows
  IsAnswer-iff dsl rows = (
    execute_query-IsAnswer parse debug_text xxh3_64 parse_rfc3339_micros self dsl rows,
    execute_query-of_answer dsl rows,
  )
