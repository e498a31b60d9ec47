-- ===== src/Query/Local/Hop/Once.antt =====
-- graph-engine/crates/graph-query/src/local_executor.rs, `expand_hop` of one hop, on a frontier.
use doi.Prelude.{
  ℕ, suc, true, List, [], ◌∷◌, ◌++◌, some, map, get, In, some-inj, inl, inr, ◌⊎◌, ◌↔◌, ◌≡◌, refl,
  sym, ap, ◌∙◌, subst, string_eq, nat_eq, pair_eq,
}
use doi.Schema.{NodeId}
use doi.Index.{AdjacencyEntry, RemoteRef, TopologicalIndex, IndexGeneration}
use doi.Query.{ok, PlanStep, ExpandHop, Binding, Frontier}
use doi.Query.Local.{
  type_fits, Walk, extend, neighbors_of, walk_depths, walk_bindings, apply_filters, expand_hop,
}
use doi.Query.Local.Visit.{all_of, far_end, IsExtended}
use doi.Query.Local.Hop.{IsFollowed, IsFresh, In-walk_depths}

module _ (hop : ExpandHop) (topology : TopologicalIndex) where
  -- what an edge of the topology makes of a binding: a copy with the far end bound, and the edge
  -- where the hop has an alias for it
  unfoldable pub IsHop : Binding → Binding → Type 0
  IsHop binding b' =
      (start : NodeId) × (get hop.from_alias binding.nodes ≡ some start)
      × ((entry : AdjacencyEntry) × In entry (neighbors_of topology hop.direction start)
          × ((type_fits hop.edge_type entry ≡ true)
              × ((node : NodeId) × (far_end entry ≡ some node)
                  × (b' ≡ extend hop binding entry node))))

  IsHop-iff :
      (idx : ℕ) (binding : Binding) (start : NodeId) (b' : Binding)
      → get hop.from_alias binding.nodes ≡ some start
      → IsHop binding b' ↔ IsFollowed hop idx binding (neighbors_of topology hop.direction start) b'
  unfolding IsHop IsFollowed IsExtended
  IsHop-iff idx binding start b' e = (
    λ h.
        let (start', e', followed) = h in
        subst (λ s. IsFollowed hop idx binding (neighbors_of topology hop.direction s) b')
          (some-inj (sym e' ∙ e)) followed,
    λ h. (start, e, h),
  )

  -- every binding has a node at the alias that the hop starts from
  abbrev pub AllStart : List Binding → Type 0
  AllStart frontier =
      (b : Binding) → In b frontier → (start : NodeId) × (get hop.from_alias b.nodes ≡ some start)

  walk_bindings-next :
      (idx : ℕ) (binding : Binding) (start : NodeId) (frontier : List Binding) (walk : Walk)
      → get hop.from_alias binding.nodes ≡ some start
      → walk_bindings hop topology idx (binding ∷ frontier) walk
        ≡ walk_bindings hop topology
            (suc idx)
            frontier
            (walk_depths hop idx binding topology hop.hops.max 1 (start ∷ []) walk)
  unfolding walk_bindings
  walk_bindings-next idx binding start frontier walk e = rw (e, walk_bindings) refl

  In-walk_bindings :
      (idx : ℕ) (frontier : List Binding) (walk : Walk)
      → hop.hops.min ≡ 1
      → hop.hops.max ≡ 1
      → AllStart frontier
      → IsFresh idx walk
      → (walk' : Walk) × (walk_bindings hop topology idx frontier walk ≡ ok walk')
        × ((b' : Binding)
            → In b' (all_of walk')
              ↔ (In b' (all_of walk) ⊎ ((b : Binding) × In b frontier × IsHop b b')))
  unfolding walk_bindings
  In-walk_bindings idx [] walk min max starts fresh =
      (walk, refl, λ b'. (inl, λ h. elim h [ inl x ↦ x | inr (b, i, x) ↦ absurd i ]))
  In-walk_bindings idx (binding ∷ frontier) walk min max starts fresh =
      let (start, e) = starts binding (inl refl) in
      let (fresh', one) = In-walk_depths hop idx binding topology start walk min fresh in
      let (walk', q, rest) =
        In-walk_bindings (suc idx) frontier
          (walk_depths hop idx binding topology 1 1 (start ∷ []) walk) min max
          (λ b i. starts b (inr i)) fresh' in
      (
        walk',
        walk_bindings-next idx binding start frontier walk e
            ∙ ap
                (λ n.
                  walk_bindings hop topology (suc idx) frontier
                    (walk_depths hop idx binding topology n 1 (start ∷ []) walk))
                max
            ∙ q,
        λ b'. (
          λ h. elim ((rest b').0 h) [
            | inl x ↦ elim ((one b').0 x) [
              | inl y ↦ inl y
              | inr y ↦ inr (binding, inl refl, (IsHop-iff idx binding start b' e).1 y)
            ]
            | inr (b, i, x) ↦ inr (b, inr i, x)
          ],
          λ h. elim h [
            | inl x ↦ (rest b').1 (inl ((one b').1 (inl x)))
            | inr (b, inl p, x) ↦ (rest b').1 (
                inl (
                  (one b').1
                    (inr ((IsHop-iff idx binding start b' e).0 (subst (λ z. IsHop z b') p x)))))
            | inr (b, inr i, x) ↦ (rest b').1 (inr (b, i, x))
          ],
        ),
      )

-- A hop of length one without filters, from bindings that all have a node at its first alias, returns:
-- kept or sent to other partitions are exactly the bindings that an edge of the fitting type makes of one
-- of the frontier.
pub expand_hop-IsHop :
    (generation : IndexGeneration) (hop : ExpandHop) (frontier : List Binding)
    → hop.hops.min ≡ 1
    → hop.hops.max ≡ 1
    → hop.filters ≡ []
    → AllStart hop generation.topology frontier
    → (next : Frontier) × (expand_hop generation (PlanStep.expand_hop hop) frontier ≡ ok next)
      × ((b' : Binding)
          → In b' (next.local ++ map (λ (r : RemoteRef × Binding). r.1) next.remote)
            ↔ ((b : Binding) × In b frontier × IsHop hop generation.topology b b'))
unfolding expand_hop apply_filters
expand_hop-IsHop generation hop frontier min max unfiltered starts =
    let empty : Walk = record { local = []; remote = []; seen = [] } in
    let (walk, q, held) =
      In-walk_bindings hop generation.topology 0 frontier empty min max starts (λ i n l. refl) in
    (
      record { local = walk.local; remote = walk.remote },
      rw (q, expand_hop) (rw (unfiltered, apply_filters) refl),
      λ b'. (λ h. elim ((held b').0 h) [ inl i ↦ absurd i | inr x ↦ x ], λ x. (held b').1 (inr x)),
    )
