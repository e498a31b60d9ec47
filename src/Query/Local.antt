-- ===== src/Query/Local.antt =====
-- graph-engine/crates/graph-query/src/local_executor.rs: plan steps against one partition's
-- generation, which the caller has acquired. A `HashSet` of ids is a list without repetition.
pub mod AntiJoin
pub mod Visit
pub mod Hop
use doi.Prelude.{
  ℕ, zero, suc, ◌+◌, String, Bool, true, false, not, ◌&&◌, ◌||◌, List, [], ◌∷◌, ◌++◌, Option, none,
  some, get, insert, map, filter, any, all, string_eq, nat_eq, pair_eq, ◌==◌, if◌then◌else◌,
  is_some, leb, ◌<>◌,
}
use doi.Prelude.Int.{ℤ}
use doi.Schema.{NodeId, EdgeId}
use doi.Dsl.{ComparisonOp, Direction, HopRange, PropertyFilter}
use doi.Index.{
  AdjacencyEntry, RemoteRef, TopologicalIndex, PropertyIndex, Bound, IndexGeneration, out_neighbors,
  in_neighbors, lookup_eq, lookup_range,
}
use doi.Query.{
  Run, ok, err, panic, ◌>>=◌, bound, ExecutionError, PlanStep, ExpandHop, AntiJoinStep, Binding,
  from_node, Frontier,
}
use doi.Query.Filter.{evaluate_filter}
use doi.Query.Planner.{literal_to_property_key}

unfoldable pub resolve_start : IndexGeneration → PlanStep → Run (List Binding)
resolve_start generation (PlanStep.resolve_start alias label_or_type property key) =
    ok (map (from_node alias) (lookup_eq generation.properties label_or_type property key))
resolve_start generation _ =
    err (ExecutionError.unknown_alias "resolve_start called with a non-ResolveStart step")

unfoldable pub resolve_all : IndexGeneration → PlanStep → Run (List Binding)
resolve_all generation (PlanStep.resolve_all alias label) = ok (
    map (λ entry. from_node alias entry.0)
      (filter (λ entry. entry.1.label == label) generation.node_records))
resolve_all generation _ =
    err (ExecutionError.unknown_alias "resolve_all called with a non-ResolveAll step")

abbrev pub neighbors_of : TopologicalIndex → Direction → NodeId → List AdjacencyEntry
neighbors_of topology Direction.outgoing node = out_neighbors topology node
neighbors_of topology Direction.incoming node = in_neighbors topology node

abbrev pub type_fits : Option String → AdjacencyEntry → Bool
type_fits none entry = true
type_fits (some t) entry = entry.edge_type == t

-- `HashSet::insert`
abbrev pub insert_set : NodeId → List NodeId → List NodeId
insert_set node set = if any (λ n. n == node) set then set else set ++ node ∷ []

-- the mutable state of one call
pub record Walk : Type 0 where
  pub local : List Binding
  pub remote : List (RemoteRef × Binding)
  pub seen : List (ℕ × NodeId)

-- `binding.clone()` with the far node bound, and the edge if it has an alias
abbrev pub extend : ExpandHop → Binding → AdjacencyEntry → NodeId → Binding
extend hop binding entry node = record {
  nodes = insert hop.to_alias node binding.nodes;
  edges = elim hop.edge_alias [
    | none ↦ binding.edges
    | some alias ↦ insert alias entry.edge_id binding.edges
  ];
}

-- the same with no edge alias
abbrev pub extend_node : ExpandHop → Binding → NodeId → Binding
extend_node hop binding node = record binding { nodes = insert hop.to_alias node binding.nodes }

abbrev pub is_seen : ℕ → NodeId → Walk → Bool
is_seen idx node walk = any (λ s. ◌==◌ {A = ℕ × ℕ} s (idx, node)) walk.seen

module _ (hop : ExpandHop) (idx : ℕ) (binding : Binding) where
  -- an entry whose far end is local
  unfoldable pub visit_local : AdjacencyEntry → NodeId → List NodeId × Walk → List NodeId × Walk
  visit_local entry dst (next, walk) = (
    insert_set dst next,
    elim hop.edge_alias [
      | none ↦ walk
      | some alias ↦ record walk { local = walk.local ++ extend hop binding entry dst ∷ [] }
    ],
  )

  -- an entry whose far end is on another partition
  unfoldable pub visit_remote : AdjacencyEntry → RemoteRef → Walk → Walk
  visit_remote entry ref walk =
      let pushed = walk.remote ++ (ref, extend hop binding entry ref.node) ∷ [] in
      elim hop.edge_alias [
        | some alias ↦ record walk { remote = pushed }
        | none ↦
            if is_seen idx ref.node walk
            then walk
            else record walk { remote = pushed; seen = (idx, ref.node) ∷ walk.seen }
      ]

  unfoldable pub visit_entry : AdjacencyEntry → List NodeId × Walk → List NodeId × Walk
  unfolding visit_local visit_remote
  visit_entry entry (next, walk) =
      if type_fits hop.edge_type entry
      then elim entry.dst_local [
        | some dst ↦ visit_local entry dst (next, walk)
        | none ↦ elim entry.dst_remote [
          | some ref ↦ (next, visit_remote entry ref walk)
          | none ↦ (next, walk)
        ]
      ]
      else (next, walk)

  unfoldable pub visit_entries : List AdjacencyEntry → List NodeId × Walk → List NodeId × Walk
  visit_entries [] state = state
  visit_entries (entry ∷ entries) state = visit_entries entries (visit_entry entry state)

  unfoldable pub visit_nodes :
      TopologicalIndex → List NodeId → List NodeId × Walk → List NodeId × Walk
  visit_nodes topology [] state = state
  visit_nodes topology (node ∷ nodes) state =
      visit_nodes topology nodes (visit_entries (neighbors_of topology hop.direction node) state)

  -- the pass over `next` at a depth in the range
  unfoldable pub accept : List NodeId → Walk → Walk
  accept [] walk = walk
  accept (node ∷ nodes) walk = accept nodes (
      if is_seen idx node walk then walk else record walk {
        local = walk.local ++ extend_node hop binding node ∷ [];
        seen = (idx, node) ∷ walk.seen;
      })

  -- `for depth in 1..=hops.max`, with the rounds that are left
  unfoldable pub walk_depths : TopologicalIndex → (left depth : ℕ) → List NodeId → Walk → Walk
  unfolding visit_nodes visit_entries visit_entry accept
  walk_depths topology zero depth current walk = walk
  walk_depths topology (suc left) depth current walk =
      let (next, walk') = visit_nodes topology current ([], walk) in
      let walk'' =
        if not (is_some hop.edge_alias) && leb hop.hops.min depth
        then accept next walk'
        else walk' in
      let rest = walk_depths topology left (suc depth) next walk'' in
      elim next [ [] ↦ walk'' | _ ∷ _ ↦ rest ]

-- the loop over the frontier, with the index of the binding
unfoldable pub walk_bindings : ExpandHop → TopologicalIndex → ℕ → List Binding → Walk → Run Walk
unfolding walk_depths
walk_bindings hop topology idx [] walk = ok walk
walk_bindings hop topology idx (binding ∷ frontier) walk = do
  start ← bound hop.from_alias (get hop.from_alias binding.nodes)
  walk_bindings hop topology (suc idx) frontier
      (walk_depths hop idx binding topology hop.hops.max 1 (start ∷ []) walk)

unfoldable pub ids_matching : PropertyIndex → String → PropertyFilter → Run (List NodeId)
ids_matching properties label filter = elim (literal_to_property_key filter.value) [
  | none ↦ panic
  | some key ↦ elim filter.op [
    | ComparisonOp.eq ↦ ok (lookup_eq properties label filter.property key)
    | ComparisonOp.gt ↦
        ok (lookup_range properties label filter.property (Bound.excluded key, Bound.unbounded))
    | ComparisonOp.gte ↦
        ok (lookup_range properties label filter.property (Bound.included key, Bound.unbounded))
    | ComparisonOp.lt ↦
        ok (lookup_range properties label filter.property (Bound.unbounded, Bound.excluded key))
    | ComparisonOp.lte ↦
        ok (lookup_range properties label filter.property (Bound.unbounded, Bound.included key))
    | ComparisonOp.ne ↦ err (
        ExecutionError.unknown_alias
          ("WHERE ... <> on property " <> filter.property <> " is not supported in v1"))
  ]
]

-- the loop over the filters: the ids that satisfy all
unfoldable pub allowed_by :
    PropertyIndex → String → List PropertyFilter → Option (List NodeId) → Run (Option (List NodeId))
unfolding ids_matching
allowed_by properties label [] allowed = ok allowed
allowed_by properties label (f ∷ filters) allowed = do
  matches ← ids_matching properties label f
  allowed_by properties label filters (
      some (elim allowed [
        | none ↦ matches
        | some prev ↦ filter (λ id. any (λ n. n == id) matches) prev
      ]))

-- `allowed.contains(&b.nodes[to_alias])`, where a missing alias panics
unfoldable pub keep_allowed : String → List NodeId → List Binding → Run (List Binding)
keep_allowed to_alias allowed [] = ok []
keep_allowed to_alias allowed (b ∷ bs) = do
  rest ← keep_allowed to_alias allowed bs
  elim (get to_alias b.nodes) [
    | none ↦ panic
    | some id ↦ ok (if any (λ n. n == id) allowed then b ∷ rest else rest)
  ]

abbrev pub or_empty : Option (List NodeId) → List NodeId
or_empty none = []
or_empty (some ids) = ids

unfoldable pub apply_filters :
    PropertyIndex
    → (to_label : Option String) → (to_alias : String) → List PropertyFilter
    → List Binding
    → Run (List Binding)
unfolding allowed_by keep_allowed
apply_filters properties to_label to_alias [] bindings = ok bindings
apply_filters properties none to_alias (f ∷ filters) bindings = ok bindings
apply_filters properties (some label) to_alias (f ∷ filters) bindings = do
  allowed ← allowed_by properties label (f ∷ filters) none
  keep_allowed to_alias (or_empty allowed) bindings

unfoldable pub expand_hop : IndexGeneration → PlanStep → List Binding → Run Frontier
unfolding walk_bindings apply_filters
expand_hop generation (PlanStep.expand_hop hop) frontier = do
  walk ←
      walk_bindings hop generation.topology 0 frontier
        (record { local = []; remote = []; seen = [] })
  local ← apply_filters generation.properties hop.to_label hop.to_alias hop.filters walk.local
  ok (record { local = local; remote = walk.remote })
expand_hop generation _ frontier =
    err (ExecutionError.unknown_alias "expand_hop called with a non-ExpandHop step")

abbrev pub is_at : NodeId → Option NodeId → Bool
is_at node none = false
is_at node (some n) = n == node

module _ (parse_rfc3339_micros : String → Option ℤ) where
  -- the closure of `any`
  unfoldable pub is_candidate :
      IndexGeneration → Option String → NodeId → List PropertyFilter → AdjacencyEntry → Bool
  is_candidate generation edge_type to_node conditions entry =
      type_fits edge_type entry
      && ((is_at to_node entry.dst_local
            || is_at to_node (elim entry.dst_remote [ none ↦ none | some r ↦ some r.node ]))
          && elim (get entry.edge_id generation.edge_records) [
            | some held ↦ all (evaluate_filter parse_rfc3339_micros held.properties) conditions
            | none ↦ false
          ])

  unfoldable pub check_anti_join :
      IndexGeneration
      → AntiJoinStep
      → (conditions : List PropertyFilter) → List Binding
      → Run (List Binding)
  unfolding is_candidate
  check_anti_join generation step conditions [] = ok []
  check_anti_join generation step conditions (binding ∷ frontier) = do
    from_node ← bound step.from_alias (get step.from_alias binding.nodes)
    to_node ← bound step.to_alias (get step.to_alias binding.nodes)
    survivors ← check_anti_join generation step conditions frontier
    ok (
        if any (is_candidate generation step.edge_type to_node conditions)
          (neighbors_of generation.topology step.direction from_node)
        then survivors
        else binding ∷ survivors)
