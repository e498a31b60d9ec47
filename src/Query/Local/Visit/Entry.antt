-- ===== src/Query/Local/Visit/Entry.antt =====
-- graph-engine/crates/graph-query/src/local_executor.rs, `expand_hop`: the step from the state before an
-- adjacency entry to the state after it.
use doi.Prelude.{
  ℕ, String, true, false, List, [], ◌∷◌, ◌++◌, none, some, map, nat_eq, pair_eq, string_eq, In, inl,
  inr, ◌≡◌, refl, sym, ap, ◌∙◌, subst, arith, Bool-cases, Option-cases,
}
use doi.Schema.{NodeId}
use doi.Index.{AdjacencyEntry, RemoteRef}
use doi.Query.{ExpandHop, Binding}
use doi.Query.Local.{
  type_fits, insert_set, Walk, extend, extend_node, is_seen, visit_local, visit_remote, visit_entry,
}
use doi.Query.Local.Visit.{
  all_of, far_end, none_ne_some, In-push_local, In-push_remote, Steps, IsMarked, IsPending, Holds,
  extend-named, extend-extend_node, IsExtended-iff, Steps-push, IsMarked-push, IsMarked-mark,
  Steps-local, Steps-misfit,
}

module _ (hop : ExpandHop) (idx : ℕ) (binding : Binding) where
  module _ (walk : Walk) (entry : AdjacencyEntry) (ref : RemoteRef) where
    abbrev sent : Walk
    sent = record walk { remote = walk.remote ++ (ref, extend hop binding entry ref.node) ∷ [] }

    abbrev sent_marked : Walk
    sent_marked = record walk {
      remote = walk.remote ++ (ref, extend hop binding entry ref.node) ∷ [];
      seen = (idx, ref.node) ∷ walk.seen;
    }

    remote_named :
        (alias : String)
        → hop.edge_alias ≡ some alias
        → visit_remote hop idx binding entry ref walk ≡ sent
    unfolding visit_remote
    remote_named alias a =
        rw (a, visit_remote)
          (ap (λ x. record walk { remote = walk.remote ++ (ref, x) ∷ [] })
            (extend-named hop idx binding entry ref.node alias a))

    remote_seen :
        hop.edge_alias ≡ none
        → is_seen idx ref.node walk ≡ true
        → visit_remote hop idx binding entry ref walk ≡ walk
    unfolding visit_remote
    remote_seen a e = rw (a, e, visit_remote) refl

    remote_fresh :
        hop.edge_alias ≡ none
        → is_seen idx ref.node walk ≡ false
        → visit_remote hop idx binding entry ref walk ≡ sent_marked
    unfolding visit_remote
    remote_fresh a e =
        rw (a, e, visit_remote)
          (ap
            (λ x. record walk {
              remote = walk.remote ++ (ref, x) ∷ [];
              seen = (idx, ref.node) ∷ walk.seen;
            })
            (extend-extend_node hop idx binding entry ref.node a))

    Steps-remote :
        (next : List NodeId)
        → IsMarked hop idx binding walk
        → type_fits hop.edge_type entry ≡ true
        → far_end entry ≡ some ref.node
        → Steps hop idx binding entry
            (next, walk)
            (next, visit_remote hop idx binding entry ref walk)
    unfolding Holds
    Steps-remote next m t f =
        let x = extend hop binding entry ref.node in
        let push = In-push_remote walk.local walk.remote ref x in
        elim (Option-cases hop.edge_alias) [
          | inr (alias, a) ↦
              subst (λ w. Steps hop idx binding entry (next, walk) (next, w))
                (sym (remote_named alias a))
                (Steps-push hop idx binding entry next walk sent ref.node t f push
                  (IsMarked-push hop idx binding walk sent m refl (λ b' i. (push b').1 (inl i))))
          | inl a ↦ elim (Bool-cases (is_seen idx ref.node walk)) [
            | inl e ↦
                subst (λ w. Steps hop idx binding entry (next, walk) (next, w))
                  (sym (remote_seen a e))
                  (
                    m,
                    λ b'. (
                      inl,
                      λ h. elim h [
                        | inl held ↦ held
                        | inr ext ↦ inl (
                            subst (λ z. In z (all_of walk))
                              (sym (
                                (IsExtended-iff hop idx binding entry ref.node b' t f).0 ext
                                ∙ extend-extend_node hop idx binding entry ref.node a))
                              (m.seen ref.node e))
                      ],
                    ),
                  )
            | inr e ↦
                subst (λ w. Steps hop idx binding entry (next, walk) (next, w))
                  (sym (remote_fresh a e))
                  (Steps-push hop idx binding entry next walk sent_marked ref.node t f push (
                    IsMarked-mark hop idx binding walk sent_marked ref.node m refl
                      ((push (extend_node hop binding ref.node)).1
                        (inr (sym (extend-extend_node hop idx binding entry ref.node a))))
                      (λ b' i. (push b').1 (inl i))))
          ]
        ]

  module _ (walk : Walk) (entry : AdjacencyEntry) (d : NodeId) (next : List NodeId) where
    abbrev kept : Walk
    kept = record walk { local = walk.local ++ extend hop binding entry d ∷ [] }

    local_named :
        (alias : String)
        → hop.edge_alias ≡ some alias
        → visit_local hop idx binding entry d (next, walk) ≡ (insert_set d next, kept)
    unfolding visit_local
    local_named alias a =
        rw (a, visit_local)
          (ap (λ x. (insert_set d next, record walk { local = walk.local ++ x ∷ [] }))
            (extend-named hop idx binding entry d alias a))

    local_bare :
        hop.edge_alias ≡ none
        → visit_local hop idx binding entry d (next, walk) ≡ (insert_set d next, walk)
    unfolding visit_local
    local_bare a = rw (a, visit_local) refl

    no-IsPending :
        (alias : String) (ns ms : List NodeId) (b' : Binding)
        → hop.edge_alias ≡ some alias
        → IsPending hop idx binding ns b'
        → IsPending hop idx binding ms b'
    unfolding IsPending
    no-IsPending alias ns ms b' a p = absurd (none_ne_some (sym p.0 ∙ a))

    Steps-visit_local :
        IsMarked hop idx binding walk
        → type_fits hop.edge_type entry ≡ true
        → far_end entry ≡ some d
        → Steps hop idx binding entry
            (next, walk)
            (visit_local hop idx binding entry d (next, walk))
    unfolding Holds
    Steps-visit_local m t f =
        let x = extend hop binding entry d in
        let push =
          In-push_local walk.local (map (λ (r : RemoteRef × Binding). r.1) walk.remote) x in
        elim (Option-cases hop.edge_alias) [
          | inl a ↦
              subst (Steps hop idx binding entry (next, walk)) (sym (local_bare a))
                (Steps-local hop idx binding entry next walk d m t f a)
          | inr (alias, a) ↦
              subst (Steps hop idx binding entry (next, walk)) (sym (local_named alias a)) (
                IsMarked-push hop idx binding walk kept m refl (λ b' i. (push b').1 (inl i)),
                λ b'. ground (
                  arith,
                  push b',
                  IsExtended-iff hop idx binding entry d b' t f,
                  no-IsPending alias next (insert_set d next) b' a,
                  no-IsPending alias (insert_set d next) next b' a,
                ),
              )
        ]

  far_end-of_local :
      (entry : AdjacencyEntry) (d : NodeId) → entry.dst_local ≡ some d → far_end entry ≡ some d
  far_end-of_local entry d e = rw e refl

  far_end-of_remote :
      (entry : AdjacencyEntry) (ref : RemoteRef)
      → entry.dst_local ≡ none
      → entry.dst_remote ≡ some ref
      → far_end entry ≡ some ref.node
  far_end-of_remote entry ref e f = rw (e, f) refl

  far_end-of_neither :
      (entry : AdjacencyEntry)
      → entry.dst_local ≡ none
      → entry.dst_remote ≡ none
      → far_end entry ≡ none
  far_end-of_neither entry e f = rw (e, f) refl

  visit_entry-misfit :
      (entry : AdjacencyEntry) (state : List NodeId × Walk)
      → type_fits hop.edge_type entry ≡ false
      → visit_entry hop idx binding entry state ≡ state
  unfolding visit_entry
  visit_entry-misfit entry (next, walk) t = rw (t, visit_entry) refl

  visit_entry-neither :
      (entry : AdjacencyEntry) (state : List NodeId × Walk)
      → type_fits hop.edge_type entry ≡ true
      → entry.dst_local ≡ none
      → entry.dst_remote ≡ none
      → visit_entry hop idx binding entry state ≡ state
  unfolding visit_entry
  visit_entry-neither entry (next, walk) t e f = rw (t, e, f, visit_entry) refl

  visit_entry-local :
      (entry : AdjacencyEntry) (d : NodeId) (state : List NodeId × Walk)
      → type_fits hop.edge_type entry ≡ true
      → entry.dst_local ≡ some d
      → visit_entry hop idx binding entry state ≡ visit_local hop idx binding entry d state
  unfolding visit_entry
  visit_entry-local entry d (next, walk) t e = rw (t, e, visit_entry) refl

  visit_entry-remote :
      (entry : AdjacencyEntry) (ref : RemoteRef) (state : List NodeId × Walk)
      → type_fits hop.edge_type entry ≡ true
      → entry.dst_local ≡ none
      → entry.dst_remote ≡ some ref
      → visit_entry hop idx binding entry state
        ≡ (state.0, visit_remote hop idx binding entry ref state.1)
  unfolding visit_entry
  visit_entry-remote entry ref (next, walk) t e f = rw (t, e, f, visit_entry) refl

  pub Steps-visit_entry :
      (entry : AdjacencyEntry) (next : List NodeId) (walk : Walk)
      → IsMarked hop idx binding walk
      → Steps hop idx binding entry (next, walk) (visit_entry hop idx binding entry (next, walk))
  Steps-visit_entry entry next walk m = elim (Bool-cases (type_fits hop.edge_type entry)) [
    | inr t ↦
        subst (Steps hop idx binding entry (next, walk))
          (sym (visit_entry-misfit entry (next, walk) t))
          (Steps-misfit hop idx binding entry (next, walk) m (inl t))
    | inl t ↦ elim (Option-cases entry.dst_local) [
      | inr (d, e) ↦
          subst (Steps hop idx binding entry (next, walk))
            (sym (visit_entry-local entry d (next, walk) t e))
            (Steps-visit_local walk entry d next m t (far_end-of_local entry d e))
      | inl e ↦ elim (Option-cases entry.dst_remote) [
        | inl f ↦
            subst (Steps hop idx binding entry (next, walk))
              (sym (visit_entry-neither entry (next, walk) t e f))
              (Steps-misfit hop idx binding entry (next, walk) m
                (inr (far_end-of_neither entry e f)))
        | inr (ref, f) ↦
            subst (Steps hop idx binding entry (next, walk))
              (sym (visit_entry-remote entry ref (next, walk) t e f))
              (Steps-remote walk entry ref next m t (far_end-of_remote entry ref e f))
      ]
    ]
  ]
