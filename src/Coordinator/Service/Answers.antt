-- ===== src/Coordinator/Service/Answers.antt =====
-- graph-engine/bin/graph-coordinator/src/service.rs, `execute_query`: what is refused, and what an
-- answer holds.
use doi.Prelude.{
  ℕ, String, List, [], ◌∷◌, ◌<>◌, Option, none, some, map, take, Result, err, ok, >>=-eq-ok,
  Result-cases, ◌≢◌, ◌≡◌, refl, sym, ap, subst, arith, ok-inj, inl, inr, ◌⊎◌, List-cases,
}
use doi.Prelude.Int.{ℤ}
use doi.Schema.{NodeId, EdgeId}
use doi.Dsl.{OrderBy, Query, ValidationError}
use doi.Dsl.Validator.{validate}
use doi.Index.{NodeRecord, EdgeRecord}
use doi.Cluster.{PartitionMap, Discovery}
use doi.Query.{QueryPlan, Binding, Run-cases}
use doi.Query as Query
use doi.Query.Planner as Planner
use doi.Query.Distributed.{ScatterGatherExecutor}
use doi.Query.Distributed.Execute.{get_node_properties, get_edge_properties}
use doi.Query.Distributed.Plans.{execute}
use doi.Proto.{Status, invalid_argument}
use doi.PartitionNode.Service.{internally}
use doi.Coordinator.Results.{
  AliasKinds, classify, needed_node_ids, needed_edge_ids, sort_bindings_by_property, QueryResult,
  project_row,
}
use doi.Coordinator.Service.{
  GraphServiceImpl, parsed, validated, planned, discovered, hydrated_nodes, hydrated_edges,
  execute_query, execute_plan, answer, result_rows, ordered, limited, wanted_aliases,
}

ok_of_internally : {A : Type 0} (r : Query.Run A) (a : A) → internally r ≡ ok a → r ≡ Query.ok a
unfolding internally
ok_of_internally Query.panic a h = cc
ok_of_internally (Query.err e) a h = cc
ok_of_internally (Query.ok b) a h = cc

cons_ne_nil : {A : Type 0} {x : A} {xs : List A} → x ∷ xs ≡ [] → ⊥
cons_ne_nil e = cc

module _ (parse : String → Result String Query) (debug_text : List ValidationError → String)
    (xxh3_64 : List ℕ → ℕ) (parse_rfc3339_micros : String → Option ℤ) where
  abbrev run : GraphServiceImpl → String → Result Status (List QueryResult)
  run = execute_query parse debug_text xxh3_64 parse_rfc3339_micros

  -- The text does not parse, or the schema does not allow the query.
  unfoldable pub IsRefused : GraphServiceImpl → String → Type 0
  IsRefused self dsl =
      ((e : String) × (parse dsl ≡ err e))
      ⊎ ((query : Query) × (parse dsl ≡ ok query) × (validate self.schema query ≢ []))

  -- A text that does not parse, or a query that the schema does not allow, is refused as an invalid
  -- argument, with the same message whatever the state of the cluster and of the replicas.
  pub execute_query-refuses :
      (self : GraphServiceImpl) (dsl : String)
      → IsRefused self dsl
      → (message : String) × ((discovery : Discovery) (executor : ScatterGatherExecutor)
          → execute_query parse debug_text xxh3_64 parse_rfc3339_micros
              (record self { discovery = discovery; executor = executor })
              dsl
            ≡ err (invalid_argument message))
  unfolding IsRefused execute_query parsed
  execute_query-refuses self dsl (inl (e, p)) =
      ("syntax error: " <> e, λ discovery executor. rw (p, parsed) refl)
  execute_query-refuses self dsl (inr (query, p, v)) =
      elim (List-cases (validate self.schema query)) [
        | inl n ↦ absurd (v n)
        | inr (first, rest, n) ↦ (
          "query failed validation: " <> debug_text (first ∷ rest),
          λ discovery executor. rw (p, parsed, n, validated) refl,
        )
      ]

  -- what the aliases of a query name
  abbrev pub kinds_of : Query → QueryPlan → List Binding → AliasKinds
  kinds_of query plan bindings = classify bindings (wanted_aliases plan.project query.order_by) []

  -- What a call for the ids returned, or nothing where there are no ids.
  abbrev pub IsFetched :
      {V : Type 0} → (List ℕ → Query.Run (List (ℕ × V))) → List ℕ → List (ℕ × V) → Type 0
  IsFetched fetch ids found =
      ((ids ≡ []) × (found ≡ [])) ⊎ ((ids ≢ []) × (fetch ids ≡ Query.ok found))

  -- What an answer comes from: a query that the schema allows, its plan, the map of the cluster, the
  -- bindings that the execution of the plan returned, and the records that the executor returned for
  -- the ids that the query needs. Its rows are the projections of the bindings, sorted first where the
  -- query has an ORDER BY and cut to its LIMIT after that.
  pub record IsAnswer (self : GraphServiceImpl) (dsl : String) (rows : List QueryResult)
      : Type 0 where
    pub query : Query
    pub plan : QueryPlan
    pub partitions : PartitionMap
    pub bindings : List Binding
    pub nodes : List (NodeId × NodeRecord)
    pub edges : List (EdgeId × EdgeRecord)
    pub parses : parse dsl ≡ ok query
    pub valid : validate self.schema query ≡ []
    pub plans : Planner.plan query ≡ some plan
    pub found : self.discovery.current_map ≡ ok partitions
    pub gathers :
        execute self.executor partitions xxh3_64 parse_rfc3339_micros plan ≡ Query.ok bindings
    pub fetches_nodes :
        IsFetched
          (get_node_properties self.executor partitions xxh3_64)
          (needed_node_ids plan.project query.order_by (kinds_of query plan bindings) bindings)
          nodes
    pub fetches_edges :
        IsFetched
          (get_edge_properties self.executor partitions)
          (needed_edge_ids plan.project query.order_by (kinds_of query plan bindings) bindings)
          edges
    pub in_sequence : List Binding
    pub unsorted : query.order_by ≡ none → in_sequence ≡ bindings
    pub sorted :
        (order : OrderBy)
        → query.order_by ≡ some order
        → in_sequence
          ≡ sort_bindings_by_property (kinds_of query plan bindings) nodes edges order bindings
    pub all_rows :
        query.limit ≡ none
        → rows
          ≡ map (project_row (kinds_of query plan bindings) nodes edges plan.project) in_sequence
    pub first_rows :
        (n : ℕ)
        → query.limit ≡ some n
        → rows
          ≡ map
              (project_row (kinds_of query plan bindings) nodes edges plan.project)
              (take n in_sequence)

  hydrated_nodes-IsFetched :
      (self : GraphServiceImpl) (partitions : PartitionMap) (ids : List NodeId)
      (nodes : List (NodeId × NodeRecord))
      → hydrated_nodes xxh3_64 self partitions ids ≡ ok nodes
      → IsFetched (get_node_properties self.executor partitions xxh3_64) ids nodes
  unfolding hydrated_nodes
  hydrated_nodes-IsFetched self partitions [] nodes h = inl (refl, sym (ok-inj h))
  hydrated_nodes-IsFetched self partitions (id ∷ ids) nodes h =
      inr (cons_ne_nil, ok_of_internally _ nodes h)

  hydrated_edges-IsFetched :
      (self : GraphServiceImpl) (partitions : PartitionMap) (ids : List EdgeId)
      (edges : List (EdgeId × EdgeRecord))
      → hydrated_edges self partitions ids ≡ ok edges
      → IsFetched (get_edge_properties self.executor partitions) ids edges
  unfolding hydrated_edges
  hydrated_edges-IsFetched self partitions [] edges h = inl (refl, sym (ok-inj h))
  hydrated_edges-IsFetched self partitions (id ∷ ids) edges h =
      inr (cons_ne_nil, ok_of_internally _ edges h)

  discovered_map :
      (self : GraphServiceImpl) (partitions : PartitionMap)
      → discovered self ≡ ok partitions
      → self.discovery.current_map ≡ ok partitions
  unfolding discovered
  discovered_map self partitions h = elim (Result-cases self.discovery.current_map) [
    | inl (e, f) ↦ ground arith
    | inr (found, f) ↦ ground arith
  ]

  IsAnswer-of_bindings :
      (self : GraphServiceImpl) (dsl : String) (rows : List QueryResult) (query : Query)
      (plan : QueryPlan) (partitions : PartitionMap) (bindings : List Binding)
      → parse dsl ≡ ok query
      → validate self.schema query ≡ []
      → Planner.plan query ≡ some plan
      → self.discovery.current_map ≡ ok partitions
      → execute self.executor partitions xxh3_64 parse_rfc3339_micros plan ≡ Query.ok bindings
      → answer xxh3_64 self query plan partitions bindings ≡ ok rows
      → IsAnswer self dsl rows
  unfolding answer result_rows
  IsAnswer-of_bindings self dsl rows query plan partitions bindings p v q d g h =
      let kinds = kinds_of query plan bindings in
      let (nodes, e, h') =
        >>=-eq-ok
          (hydrated_nodes xxh3_64 self partitions
            (needed_node_ids plan.project query.order_by kinds bindings))
          _ h in
      let (edges, f, h'') =
        >>=-eq-ok
          (hydrated_edges self partitions
            (needed_edge_ids plan.project query.order_by kinds bindings))
          _ h' in
      let row = project_row kinds nodes edges plan.project in
      let sequence = ordered kinds nodes edges query.order_by bindings in
      subst (IsAnswer self dsl) (ok-inj h'') (record {
        query = query;
        plan = plan;
        partitions = partitions;
        bindings = bindings;
        nodes = nodes;
        edges = edges;
        parses = p;
        valid = v;
        plans = q;
        found = d;
        gathers = g;
        fetches_nodes = hydrated_nodes-IsFetched self partitions _ nodes e;
        fetches_edges = hydrated_edges-IsFetched self partitions _ edges f;
        in_sequence = sequence;
        unsorted = λ o. ap (λ z. ordered kinds nodes edges z bindings) o;
        sorted = λ order o. ap (λ z. ordered kinds nodes edges z bindings) o;
        all_rows = λ l. ap (λ z. map row (limited z sequence)) l;
        first_rows = λ n l. ap (λ z. map row (limited z sequence)) l;
      })

  IsAnswer-of_plan :
      (self : GraphServiceImpl) (dsl : String) (rows : List QueryResult) (query : Query)
      (plan : QueryPlan)
      → parse dsl ≡ ok query
      → validate self.schema query ≡ []
      → Planner.plan query ≡ some plan
      → execute_plan parse debug_text xxh3_64 parse_rfc3339_micros self query plan ≡ ok rows
      → IsAnswer self dsl rows
  unfolding execute_plan
  IsAnswer-of_plan self dsl rows query plan p v q h =
      let (partitions, e, h') = >>=-eq-ok (discovered self) _ h in
      let (bindings, f, h'') =
        >>=-eq-ok (internally (execute self.executor partitions xxh3_64 parse_rfc3339_micros plan))
          _ h' in
      IsAnswer-of_bindings self dsl rows query plan partitions bindings p v q
        (discovered_map self partitions e) (ok_of_internally _ bindings f) h''

  parsed_query : (dsl : String) (query : Query) → parsed parse dsl ≡ ok query → parse dsl ≡ ok query
  unfolding parsed
  parsed_query dsl query h = elim (Result-cases (parse dsl)) [
    | inl (e, f) ↦ ground arith
    | inr (found, f) ↦ ground arith
  ]

  valid_of_validated :
      (errors : List ValidationError) (u : Unit) → validated debug_text errors ≡ ok u → errors ≡ []
  valid_of_validated [] u h = refl
  valid_of_validated (e ∷ es) u h = cc

  plan_of_planned : (p : Option QueryPlan) (plan : QueryPlan) → planned p ≡ ok plan → p ≡ some plan
  plan_of_planned none plan h = cc
  plan_of_planned (some q) plan h = ap some (ok-inj h)

  -- Whatever `execute_query` returns is such an answer.
  pub execute_query-IsAnswer :
      (self : GraphServiceImpl) (dsl : String) (rows : List QueryResult)
      → execute_query parse debug_text xxh3_64 parse_rfc3339_micros self dsl ≡ ok rows
      → IsAnswer self dsl rows
  unfolding execute_query
  execute_query-IsAnswer self dsl rows h =
      let (query, e1, h1) = >>=-eq-ok (parsed parse dsl) _ h in
      let (u, e2, h2) = >>=-eq-ok (validated debug_text (validate self.schema query)) _ h1 in
      let (plan, e3, h3) = >>=-eq-ok (planned (Planner.plan query)) _ h2 in
      IsAnswer-of_plan self dsl rows query plan (parsed_query dsl query e1)
        (valid_of_validated (validate self.schema query) u e2)
        (plan_of_planned (Planner.plan query) plan e3) h3
