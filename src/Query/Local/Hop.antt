-- ===== src/Query/Local/Hop.antt =====
-- graph-engine/crates/graph-query/src/local_executor.rs, `expand_hop`: what a hop of length one makes of
-- a frontier.
pub mod Once
use doi.Prelude.{
  ℕ, zero, suc, ◌<◌, ◌+◌, leb, insert, String, Bool, true, false, not, ◌||◌, ◌&&◌, List, [], ◌∷◌,
  ◌++◌, Option, none, some, map, any, get, is_some, nat_eq, pair_eq, string_eq, ◌==◌, ==_iff,
  if◌then◌else◌, In, All, In-append, some-inj, inl, inr, ◌⊎◌, ◌↔◌, ◌≡◌, refl, sym, ap, ◌∙◌, subst,
  arith, Bool-cases, Option-cases, List-cases,
}
use doi.Schema.{NodeId}
use doi.Index.{AdjacencyEntry, RemoteRef, TopologicalIndex, IndexGeneration}
use doi.Query.{Run, ok, bound, PlanStep, ExpandHop, Binding, Frontier}
use doi.Query.Local.{
  type_fits, Walk, extend, extend_node, is_seen, neighbors_of, visit_entry, visit_entries,
  visit_nodes, accept, walk_depths, walk_bindings, apply_filters, expand_hop,
}
use doi.Query.Local.Visit.{
  all_of, far_end, none_ne_some, In-push_local, IsExtended, IsPending, Holds, IsMarked,
  IsMarked-mark,
}
use doi.Query.Local.Visit.Entry.{Steps-visit_entry}

-- nothing is marked as seen from a binding on
abbrev pub IsFresh : ℕ → Walk → Type 0
IsFresh from walk = (i : ℕ) (n : NodeId) → from < suc i → is_seen i n walk ≡ false

module _ (hop : ExpandHop) (idx : ℕ) (binding : Binding) where
  -- the binding is what one of the entries makes
  unfoldable pub IsFollowed : List AdjacencyEntry → Binding → Type 0
  IsFollowed entries b' =
      (entry : AdjacencyEntry) × In entry entries × IsExtended hop idx binding entry b'

  Holds-visit_entries :
      (entries : List AdjacencyEntry) (state : List NodeId × Walk)
      → IsMarked hop idx binding state.1
      → IsMarked hop idx binding (visit_entries hop idx binding entries state).1
        × ((b' : Binding)
            → Holds hop idx binding (visit_entries hop idx binding entries state) b'
              ↔ (Holds hop idx binding state b' ⊎ IsFollowed entries b'))
  unfolding visit_entries IsFollowed
  Holds-visit_entries [] state m =
      (m, λ b'. (inl, λ h. elim h [ inl x ↦ x | inr (e, i, x) ↦ absurd i ]))
  Holds-visit_entries (entry ∷ entries) state m =
      let (m', one) = Steps-visit_entry hop idx binding entry state.0 state.1 m in
      let (m'', rest) = Holds-visit_entries entries (visit_entry hop idx binding entry state) m' in
      (
        m'',
        λ b'. (
          λ h. elim ((rest b').0 h) [
            | inl x ↦ elim ((one b').0 x) [ inl y ↦ inl y | inr y ↦ inr (entry, inl refl, y) ]
            | inr (e, i, x) ↦ inr (e, inr i, x)
          ],
          λ h. elim h [
            | inl x ↦ (rest b').1 (inl ((one b').1 (inl x)))
            | inr (e, inl p, x) ↦
                (rest b').1
                  (inl ((one b').1 (inr (subst (λ z. IsExtended hop idx binding z b') p x))))
            | inr (e, inr i, x) ↦ (rest b').1 (inr (e, i, x))
          ],
        ),
      )

  -- the binding has one of the nodes
  unfoldable pub IsTaken : List NodeId → Binding → Type 0
  IsTaken nodes b' = (n : NodeId) × In n nodes × (b' ≡ extend_node hop binding n)

  abbrev taken : NodeId → Walk → Walk
  taken node walk = record walk {
    local = walk.local ++ extend_node hop binding node ∷ [];
    seen = (idx, node) ∷ walk.seen;
  }

  abbrev accept_one : NodeId → Walk → Walk
  accept_one node walk = if is_seen idx node walk then walk else taken node walk

  abbrev Accepts : NodeId → Walk → Walk → Type 0
  Accepts node walk walk' =
      IsMarked hop idx binding walk'
      × ((b' : Binding)
          → In b' (all_of walk') ↔ (In b' (all_of walk) ⊎ (b' ≡ extend_node hop binding node)))

  Accepts-accept_one :
      (node : NodeId) (walk : Walk)
      → IsMarked hop idx binding walk
      → Accepts node walk (accept_one node walk)
  Accepts-accept_one node walk m =
      let push =
        In-push_local walk.local (map (λ (r : RemoteRef × Binding). r.1) walk.remote)
          (extend_node hop binding node) in
      elim (Bool-cases (is_seen idx node walk)) [
        | inl e ↦
            subst (Accepts node walk) (ap (λ c. if c then walk else taken node walk) (sym e)) (
              m,
              λ b'. (
                inl,
                λ h. elim h [
                  | inl i ↦ i
                  | inr p ↦ subst (λ z. In z (all_of walk)) (sym p) (m.seen node e)
                ],
              ),
            )
        | inr e ↦
            subst (Accepts node walk) (ap (λ c. if c then walk else taken node walk) (sym e)) (
              IsMarked-mark hop idx binding walk _ node m refl ((push _).1 (inr refl))
                  (λ b' i. (push b').1 (inl i)),
              push,
            )
      ]

  In-accept :
      (nodes : List NodeId) (walk : Walk)
      → IsMarked hop idx binding walk
      → IsMarked hop idx binding (accept hop idx binding nodes walk)
        × ((b' : Binding)
            → In b' (all_of (accept hop idx binding nodes walk))
              ↔ (In b' (all_of walk) ⊎ IsTaken nodes b'))
  unfolding accept IsTaken
  In-accept [] walk m = (m, λ b'. (inl, λ h. elim h [ inl x ↦ x | inr (n, i, x) ↦ absurd i ]))
  In-accept (node ∷ nodes) walk m =
      let (m', one) = Accepts-accept_one node walk m in
      let (m'', rest) = In-accept nodes (accept_one node walk) m' in
      (
        m'',
        λ b'. (
          λ h. elim ((rest b').0 h) [
            | inl x ↦ elim ((one b').0 x) [ inl y ↦ inl y | inr y ↦ inr (node, inl refl, y) ]
            | inr (n, i, x) ↦ inr (n, inr i, x)
          ],
          λ h. elim h [
            | inl x ↦ (rest b').1 (inl ((one b').1 (inl x)))
            | inr (n, inl p, x) ↦
                (rest b').1 (inl ((one b').1 (inr (x ∙ ap (extend_node hop binding) p))))
            | inr (n, inr i, x) ↦ (rest b').1 (inr (n, i, x))
          ],
        ),
      )

  -- the walk after a round of depth one
  abbrev after : Bool → List NodeId × Walk → Walk
  after in_range (next, walk) =
      if not (is_some hop.edge_alias) && in_range then accept hop idx binding next walk else walk

  walk_depths-last :
      (topology : TopologicalIndex) (depth : ℕ) (start : NodeId) (walk : Walk)
      → walk_depths hop idx binding topology (suc zero) depth (start ∷ []) walk
        ≡ after
            (leb hop.hops.min depth)
            (visit_entries hop idx binding (neighbors_of topology hop.direction start) ([], walk))
  unfolding walk_depths
  walk_depths-last topology depth start walk =
      let state =
        visit_entries hop idx binding (neighbors_of topology hop.direction start) ([], walk) in
      elim (List-cases state.0) [
        | inl e ↦
            rw (e, walk_depths, visit_nodes)
              (ap (λ next. after (leb hop.hops.min depth) (next, state.1)) e)
        | inr (x, xs, e) ↦
            rw (e, walk_depths, visit_nodes)
              (ap (λ next. after (leb hop.hops.min depth) (next, state.1)) e)
      ]

  In-after :
      (next : List NodeId) (walk : Walk)
      → IsMarked hop idx binding walk
      → IsMarked hop idx binding (after true (next, walk))
        × ((b' : Binding)
            → In b' (all_of (after true (next, walk))) ↔ Holds hop idx binding (next, walk) b')
  unfolding Holds IsPending IsTaken
  In-after next walk m = elim (Option-cases hop.edge_alias) [
    | inl a ↦
        let (m', taken') = In-accept next walk m in
        subst
          (λ (o : Option String).
            IsMarked hop idx binding
              (if not (is_some o) && true then accept hop idx binding next walk else walk)
            × ((b' : Binding)
                → In b' (
                    all_of
                      (if not (is_some o) && true then accept hop idx binding next walk else walk))
                  ↔ Holds hop idx binding (next, walk) b'))
          (sym a)
          (
            m',
            λ b'. (
              λ i. elim ((taken' b').0 i) [ inl j ↦ inl j | inr t ↦ inr (a, t) ],
              λ h. elim h [ inl j ↦ (taken' b').1 (inl j) | inr (_, t) ↦ (taken' b').1 (inr t) ],
            ),
          )
    | inr (alias, a) ↦
        subst
          (λ (o : Option String).
            IsMarked hop idx binding
              (if not (is_some o) && true then accept hop idx binding next walk else walk)
            × ((b' : Binding)
                → In b' (
                    all_of
                      (if not (is_some o) && true then accept hop idx binding next walk else walk))
                  ↔ Holds hop idx binding (next, walk) b'))
          (sym a)
          (
            m,
            λ b'. (inl, λ h. elim h [ inl i ↦ i | inr (e, _) ↦ absurd (none_ne_some (sym e ∙ a)) ]),
          )
  ]

  pub In-walk_depths :
      (topology : TopologicalIndex) (start : NodeId) (walk : Walk)
      → hop.hops.min ≡ 1
      → IsFresh idx walk
      → IsFresh (suc idx) (walk_depths hop idx binding topology 1 1 (start ∷ []) walk)
        × ((b' : Binding)
            → In b' (all_of (walk_depths hop idx binding topology 1 1 (start ∷ []) walk))
              ↔ (In b' (all_of walk) ⊎ IsFollowed (neighbors_of topology hop.direction start) b'))
  unfolding Holds IsPending
  In-walk_depths topology start walk min fresh =
      let entries = neighbors_of topology hop.direction start in
      let marked : IsMarked hop idx binding walk = record {
        seen = λ n e. ground (arith, fresh idx n);
        later = λ i n l. fresh i n (omega arith);
      } in
      let (m, held) = Holds-visit_entries entries ([], walk) marked in
      let state = visit_entries hop idx binding entries ([], walk) in
      let (m', kept) = In-after state.0 state.1 m in
      subst
        (λ w.
          IsFresh (suc idx) w
          × ((b' : Binding) → In b' (all_of w) ↔ (In b' (all_of walk) ⊎ IsFollowed entries b')))
        (sym (walk_depths-last topology 1 start walk ∙ ap (λ c. after c state) (rw min refl)))
        (
          (λ i n l. m'.later i n (omega arith)),
          λ b'. (
            λ i. elim ((held b').0 ((kept b').0 i)) [
              | inl (inl j) ↦ inl j
              | inl (inr (_, (n, j, _))) ↦ absurd j
              | inr f ↦ inr f
            ],
            λ h. elim h [
              | inl j ↦ (kept b').1 ((held b').1 (inl (inl j)))
              | inr f ↦ (kept b').1 ((held b').1 (inr f))
            ],
          ),
        )
