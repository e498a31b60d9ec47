-- ===== src/Query/Local/AntiJoin.antt =====
-- graph-engine/crates/graph-query/src/local_executor.rs, `check_anti_join`.
use doi.Prelude.{
  String, true, false, ◌||◌, List, [], ◌∷◌, Option, none, some, get, any, all, string_eq, nat_eq,
  ==_iff, is_some, In, inl, inr, ◌⊎◌, ◌↔◌, ◌≡◌, refl, sym, subst, arith, Bool-cases, Option-cases,
  any_of_In, In-of_any,
}
use doi.Prelude.Int.{ℤ}
use doi.Schema.{NodeId}
use doi.Dsl.{PropertyFilter}
use doi.Index.{AdjacencyEntry, RemoteRef, IndexGeneration, EdgeRecord}
use doi.Query.{ok, AntiJoinStep, Binding}
use doi.Query.Filter.{evaluate_filter}
use doi.Query.Local.{neighbors_of, type_fits, is_at, is_candidate, check_anti_join}

-- The far end of an entry, wherever its node lives.
pub LandsOn : AdjacencyEntry → NodeId → Type 0
LandsOn entry node =
    (entry.dst_local ≡ some node)
    ⊎ ((r : RemoteRef) × (entry.dst_remote ≡ some r) × (r.node ≡ node))

is_at-eq-true : (v : NodeId) (at : Option NodeId) → is_at v at ≡ true → at ≡ some v
is_at-eq-true v none h = cc
is_at-eq-true v (some n) h = ground (arith, ==_iff n v)

LandsOn-cases :
    (v : NodeId) (entry : AdjacencyEntry)
    → (is_at v entry.dst_local
        || is_at v (elim entry.dst_remote [ none ↦ none | some r ↦ some r.node ]))
      ≡ true
    → LandsOn entry v
unfolding LandsOn
LandsOn-cases v entry h = elim (Option-cases entry.dst_remote) [
  | inl e ↦ ground (arith, is_at-eq-true v entry.dst_local)
  | inr (r, e) ↦ elim (Bool-cases (is_at v entry.dst_local)) [
    | inl l ↦ inl (is_at-eq-true v entry.dst_local l)
    | inr l ↦ inr (r, e, ground (arith, ==_iff r.node v))
  ]
]

module _ {A : Type 0} (P : A → Type 0) (x : A) (xs out : List A)
    (mem : (a : A) → In a out ↔ (In a xs × P a)) where
  In-dropped : (P x → ⊥) → (a : A) → In a out ↔ (In a (x ∷ xs) × P a)
  In-dropped n a = (
    λ i. (inr ((mem a).0 i).0, ((mem a).0 i).1),
    λ h. elim h.0 [ inl p ↦ absurd (n (subst P p h.1)) | inr i ↦ (mem a).1 (i, h.1) ],
  )

  In-kept : P x → (a : A) → In a (x ∷ out) ↔ (In a (x ∷ xs) × P a)
  In-kept px a = (
    λ i. elim i [
      | inl p ↦ (inl p, subst P (sym p) px)
      | inr j ↦ (inr ((mem a).0 j).0, ((mem a).0 j).1)
    ],
    λ h. elim h.0 [ inl p ↦ inl p | inr i ↦ inr ((mem a).1 (i, h.1)) ],
  )

module _ (parse_rfc3339_micros : String → Option ℤ) (generation : IndexGeneration)
    (step : AntiJoinStep) (conditions : List PropertyFilter) where
  -- An edge between two nodes that makes `NOT EXISTS` false.
  pub IsForbidden : NodeId → NodeId → Type 0
  IsForbidden u v =
      (entry : AdjacencyEntry) × (held : EdgeRecord) × In entry
        (neighbors_of generation.topology step.direction u)
      × (type_fits step.edge_type entry ≡ true)
      × LandsOn entry v
      × (get entry.edge_id generation.edge_records ≡ some held)
      × (all (evaluate_filter parse_rfc3339_micros held.properties) conditions ≡ true)

  -- The binding binds both ends, and no such edge joins them.
  pub Survives : Binding → Type 0
  Survives b =
      (u v : NodeId)
      → get step.from_alias b.nodes ≡ some u
      → get step.to_alias b.nodes ≡ some v
      → IsForbidden u v
      → ⊥

  candidate_of_forbidden :
      (v : NodeId) (entry : AdjacencyEntry) (held : EdgeRecord)
      → type_fits step.edge_type entry ≡ true
      → LandsOn entry v
      → get entry.edge_id generation.edge_records ≡ some held
      → all (evaluate_filter parse_rfc3339_micros held.properties) conditions ≡ true
      → is_candidate parse_rfc3339_micros generation step.edge_type v conditions entry ≡ true
  unfolding LandsOn is_candidate
  candidate_of_forbidden v entry held t (inl e) g c =
      rw (t, e, g, c, ==_iff v v) (ground (arith, ==_iff v v))
  candidate_of_forbidden v entry held t (inr (r, e, p)) g c = ground (arith, ==_iff r.node v)

  IsForbidden-of_candidate :
      (u v : NodeId) (entry : AdjacencyEntry)
      → In entry (neighbors_of generation.topology step.direction u)
      → is_candidate parse_rfc3339_micros generation step.edge_type v conditions entry ≡ true
      → IsForbidden u v
  unfolding IsForbidden is_candidate
  IsForbidden-of_candidate u v entry i h =
      elim (Option-cases (get entry.edge_id generation.edge_records)) [
        | inl e ↦ ground (arith)
        | inr (held, e) ↦
            (entry, held, i, ground arith, LandsOn-cases v entry (ground arith), e, ground arith)
      ]

  module _ (x : Binding) (u v : NodeId) (e : get step.from_alias x.nodes ≡ some u)
      (f : get step.to_alias x.nodes ≡ some v) where
    Survives-of_none :
        any
            (is_candidate parse_rfc3339_micros generation step.edge_type v conditions)
            (neighbors_of generation.topology step.direction u)
          ≡ false
        → Survives x
    unfolding Survives IsForbidden
    Survives-of_none g u' v' e' f' (entry, held, i, t, l, k, c) =
        let joined = candidate_of_forbidden v' entry held t l k c in
        ground (
          arith,
          any_of_In (is_candidate parse_rfc3339_micros generation step.edge_type v conditions) entry
              (neighbors_of generation.topology step.direction u),
        )

    none_of_Survives :
        any
            (is_candidate parse_rfc3339_micros generation step.edge_type v conditions)
            (neighbors_of generation.topology step.direction u)
          ≡ true
        → Survives x
        → ⊥
    unfolding Survives
    none_of_Survives g s =
        let (entry, i, c) =
          In-of_any (is_candidate parse_rfc3339_micros generation step.edge_type v conditions)
            (neighbors_of generation.topology step.direction u) g in
        s u v e f (IsForbidden-of_candidate u v entry i c)

  -- Both ends are bound, so that the call has no reason to fail.
  unfoldable pub AreBound : List Binding → Type 0
  AreBound frontier =
      (b : Binding)
      → In b frontier
      → (is_some (get step.from_alias b.nodes) ≡ true)
        × (is_some (get step.to_alias b.nodes) ≡ true)

  -- On a frontier whose bindings bind both ends of the pattern, the step succeeds and keeps exactly
  -- the bindings between whose ends no edge of the type meets every condition.
  pub In-check_anti_join :
      (frontier : List Binding)
      → AreBound frontier
      → (out : List Binding) × (check_anti_join parse_rfc3339_micros generation step conditions
            frontier
          ≡ ok out)
        × ((b : Binding) → In b out ↔ (In b frontier × Survives b))
  unfolding check_anti_join AreBound
  In-check_anti_join [] h = ([], refl, λ b. (λ i. absurd i, λ i. absurd i.0))
  In-check_anti_join (x ∷ frontier) h =
      let (out, run, mem) = In-check_anti_join frontier (λ b i. h b (inr i)) in
      elim (Option-cases (get step.from_alias x.nodes)) [
        | inl e ↦ ground (arith, h x (inl refl))
        | inr (u, e) ↦ elim (Option-cases (get step.to_alias x.nodes)) [
          | inl f ↦ ground (arith, h x (inl refl))
          | inr (v, f) ↦
              elim (Bool-cases (
                any (is_candidate parse_rfc3339_micros generation step.edge_type v conditions)
                  (neighbors_of generation.topology step.direction u))) [
                    | inl g ↦ (
                      out,
                      rw (e, f, run, g) refl,
                      In-dropped Survives x frontier out mem (none_of_Survives x u v e f g),
                    )
                    | inr g ↦ (
                      x ∷ out,
                      rw (e, f, run, g) refl,
                      In-kept Survives x frontier out mem (Survives-of_none x u v e f g),
                    )
                  ]
        ]
      ]
