-- ===== src/Query/Local/Visit.antt =====
-- graph-engine/crates/graph-query/src/local_executor.rs, `expand_hop`: what following the adjacency
-- entries of a node makes of a binding.
pub mod Entry
use doi.Prelude.{
  ℕ, suc, ◌<◌, insert, String, Bool, true, false, not, ◌||◌, List, [], ◌∷◌, ◌++◌, Option, none,
  some, map, any, is_some, nat_eq, pair_eq, string_eq, ◌==◌, ==_iff, if◌then◌else◌, In, In-append,
  In-of_any, some-inj, inl, inr, ◌⊎◌, ◌↔◌, ◌≡◌, refl, sym, ap, ◌∙◌, subst, arith, Bool-cases,
  Option-cases,
}
use doi.Schema.{NodeId}
use doi.Index.{AdjacencyEntry, RemoteRef}
use doi.Query.{ExpandHop, Binding}
use doi.Query.Local.{
  type_fits, insert_set, Walk, extend, extend_node, is_seen, visit_local, visit_remote, visit_entry,
  visit_entries, accept,
}

-- the bindings so far, those that stay and those that leave
abbrev pub all_of : Walk → List Binding
all_of walk = walk.local ++ map (λ (r : RemoteRef × Binding). r.1) walk.remote

-- The node at the other end of an entry, wherever it lives.
abbrev pub far_end : AdjacencyEntry → Option NodeId
far_end entry = elim entry.dst_local [
  | some node ↦ some node
  | none ↦ elim entry.dst_remote [ none ↦ none | some r ↦ some r.node ]
]

pub In-push_local :
    (local : List Binding) (remote : List Binding) (x b : Binding)
    → In b ((local ++ x ∷ []) ++ remote) ↔ (In b (local ++ remote) ⊎ (b ≡ x))
In-push_local local remote x b = ground (
  arith,
  In-append b (local ++ x ∷ []) remote,
  In-append b local (x ∷ []),
  In-append b local remote,
)

map-append : {A B : Type 0} (f : A → B) (xs ys : List A) → map f (xs ++ ys) ≡ map f xs ++ map f ys
map-append f [] ys = refl
map-append f (x ∷ xs) ys = ap (◌∷◌ (f x)) (map-append f xs ys)

pub In-push_remote :
    (local : List Binding) (remote : List (RemoteRef × Binding)) (ref : RemoteRef) (x b : Binding)
    → In b (local ++ map (λ (r : RemoteRef × Binding). r.1) (remote ++ (ref, x) ∷ []))
      ↔ (In b (local ++ map (λ (r : RemoteRef × Binding). r.1) remote) ⊎ (b ≡ x))
In-push_remote local remote ref x b =
    let sent = map (λ (r : RemoteRef × Binding). r.1) remote in
    rw (map-append (λ (r : RemoteRef × Binding). r.1) remote ((ref, x) ∷ [])) (
      ground (
        arith,
        In-append b local (sent ++ x ∷ []),
        In-append b sent (x ∷ []),
        In-append b local sent,
      ))

pub none_ne_some : {A : Type 0} {a : A} → none ≡ some a → ⊥
none_ne_some e = cc

module _ (hop : ExpandHop) (idx : ℕ) (binding : Binding) where
  -- The binding with the far end of a fitting entry, and with its edge if the hop names it.
  unfoldable pub IsExtended : AdjacencyEntry → Binding → Type 0
  IsExtended entry b' =
      (type_fits hop.edge_type entry ≡ true)
      × ((node : NodeId) × (far_end entry ≡ some node) × (b' ≡ extend hop binding entry node))

  -- A node that waits for the pass at the end of the round; only a hop without an edge alias has one.
  unfoldable pub IsPending : List NodeId → Binding → Type 0
  IsPending next b' =
      (hop.edge_alias ≡ none) × ((n : NodeId) × In n next × (b' ≡ extend_node hop binding n))

  -- what a state stands for
  unfoldable pub Holds : List NodeId × Walk → Binding → Type 0
  Holds state b' = In b' (all_of state.1) ⊎ IsPending state.0 b'

  -- What is marked as seen for this binding is there, and nothing is marked for a later one.
  pub record IsMarked (walk : Walk) : Type 0 where
    pub seen :
        (n : NodeId) → is_seen idx n walk ≡ true → In (extend_node hop binding n) (all_of walk)
    pub later : (i : ℕ) (n : NodeId) → idx < i → is_seen i n walk ≡ false

  pub extend-extend_node :
      (entry : AdjacencyEntry) (node : NodeId)
      → hop.edge_alias ≡ none
      → extend hop binding entry node ≡ extend_node hop binding node
  extend-extend_node entry node e = rw e refl

  -- the binding whose hop has this edge alias
  abbrev named : AdjacencyEntry → NodeId → String → Binding
  named entry node alias = record {
    nodes = insert hop.to_alias node binding.nodes;
    edges = insert alias entry.edge_id binding.edges;
  }

  pub extend-named :
      (entry : AdjacencyEntry) (node : NodeId) (alias : String)
      → hop.edge_alias ≡ some alias
      → extend hop binding entry node ≡ named entry node alias
  extend-named entry node alias e = rw e refl

  -- the step from a state to the next, along an entry
  abbrev pub Steps : AdjacencyEntry → List NodeId × Walk → List NodeId × Walk → Type 0
  Steps entry state state' =
      IsMarked state'.1
      × ((b' : Binding) → Holds state' b' ↔ (Holds state b' ⊎ IsExtended entry b'))

  pub Steps-misfit :
      (entry : AdjacencyEntry) (state : List NodeId × Walk)
      → IsMarked state.1
      → (type_fits hop.edge_type entry ≡ false) ⊎ (far_end entry ≡ none)
      → Steps entry state state
  unfolding IsExtended
  Steps-misfit entry state m h = (m, λ b'. ground arith)

  In-insert_set :
      (n d : NodeId) (next : List NodeId) → In n (insert_set d next) ↔ (In n next ⊎ (n ≡ d))
  In-insert_set n d next = elim (Bool-cases (any (λ m. m == d) next)) [
    | inl e ↦
        let (m, i, f) = In-of_any (λ m. m == d) next e in
        let same = (==_iff m d).0 f in
        rw e (inl, λ h. elim h [ inl j ↦ j | inr p ↦ subst (λ z. In z next) (same ∙ sym p) i ])
    | inr e ↦ rw e (ground (arith, In-append n next (d ∷ [])))
  ]

  pub IsExtended-iff :
      (entry : AdjacencyEntry) (d : NodeId) (b' : Binding)
      → type_fits hop.edge_type entry ≡ true
      → far_end entry ≡ some d
      → IsExtended entry b' ↔ (b' ≡ extend hop binding entry d)
  unfolding IsExtended
  IsExtended-iff entry d b' t f = (
    λ h. let (node, g, p) = h.1 in p ∙ ap (extend hop binding entry) (some-inj (sym g ∙ f)),
    λ p. (t, (d, f, p)),
  )

  IsPending-insert_set :
      (d : NodeId) (next : List NodeId) (b' : Binding)
      → hop.edge_alias ≡ none
      → IsPending (insert_set d next) b' ↔ (IsPending next b' ⊎ (b' ≡ extend_node hop binding d))
  unfolding IsPending
  IsPending-insert_set d next b' a = (
    λ h.
        let (n, i, p) = h.1 in
        elim ((In-insert_set n d next).0 i) [
          | inl j ↦ inl (h.0, (n, j, p))
          | inr q ↦ inr (p ∙ ap (extend_node hop binding) q)
        ],
    λ h. elim h [
      | inl (a', (n, i, p)) ↦ (a', (n, (In-insert_set n d next).1 (inl i), p))
      | inr p ↦ (a, (d, (In-insert_set d d next).1 (inr refl), p))
    ],
  )

  pub Steps-local :
      (entry : AdjacencyEntry) (next : List NodeId) (walk : Walk) (d : NodeId)
      → IsMarked walk
      → type_fits hop.edge_type entry ≡ true
      → far_end entry ≡ some d
      → hop.edge_alias ≡ none
      → Steps entry (next, walk) (insert_set d next, walk)
  unfolding Holds
  Steps-local entry next walk d m t e a = (
    m,
    λ b'. ground (
      arith,
      IsPending-insert_set d next b' a,
      IsExtended-iff entry d b' t e,
      extend-extend_node entry d a,
    ),
  )

  -- a binding that is pushed onto either list
  pub IsMarked-push :
      (walk walk' : Walk)
      → IsMarked walk
      → walk'.seen ≡ walk.seen
      → ((b' : Binding) → In b' (all_of walk) → In b' (all_of walk'))
      → IsMarked walk'
  IsMarked-push walk walk' m s k = record {
    seen = λ n e. k (extend_node hop binding n) (
        m.seen n
          (subst (λ (z : List (ℕ × NodeId)). any (λ x. ◌==◌ {A = ℕ × ℕ} x (idx, n)) z ≡ true) s e));
    later = λ i n l.
        subst (λ (z : List (ℕ × NodeId)). any (λ x. ◌==◌ {A = ℕ × ℕ} x (i, n)) z ≡ false) (sym s)
          (m.later i n l);
  }

  marked :
      (node n : NodeId) (walk : Walk)
      → any (λ x. ◌==◌ {A = ℕ × ℕ} x (idx, n)) ((idx, node) ∷ walk.seen) ≡ true
      → ((node == n) || is_seen idx n walk) ≡ true
  marked node n walk h = ground (arith, ==_iff idx idx)

  unmarked :
      (node j n : NodeId) (walk : Walk)
      → idx < j
      → is_seen j n walk ≡ false
      → any (λ x. ◌==◌ {A = ℕ × ℕ} x (j, n)) ((idx, node) ∷ walk.seen) ≡ false
  unmarked node j n walk l h = ground (arith, ==_iff idx j)

  -- a binding that is pushed onto either list, with its node marked
  pub IsMarked-mark :
      (walk walk' : Walk) (node : NodeId)
      → IsMarked walk
      → walk'.seen ≡ (idx, node) ∷ walk.seen
      → In (extend_node hop binding node) (all_of walk')
      → ((b' : Binding) → In b' (all_of walk) → In b' (all_of walk'))
      → IsMarked walk'
  IsMarked-mark walk walk' node m s i k = record {
    seen = λ n e.
        let e' : ((node == n) || is_seen idx n walk) ≡ true = marked node n walk (
          subst (λ (z : List (ℕ × NodeId)). any (λ x. ◌==◌ {A = ℕ × ℕ} x (idx, n)) z ≡ true) s e) in
        elim (Bool-cases (node == n)) [
          | inl f ↦
              subst (λ z. In (extend_node hop binding z) (all_of walk')) ((==_iff node n).0 f) i
          | inr f ↦ k (extend_node hop binding n) (m.seen n (ground arith))
        ];
    later = λ j n l.
        subst (λ (z : List (ℕ × NodeId)). any (λ x. ◌==◌ {A = ℕ × ℕ} x (j, n)) z ≡ false) (sym s)
          (unmarked node j n walk l (m.later j n l));
  }

  -- the bindings after a push
  abbrev pub IsPushed : Walk → Walk → Binding → Type 0
  IsPushed walk walk' x = (b' : Binding) → In b' (all_of walk') ↔ (In b' (all_of walk) ⊎ (b' ≡ x))

  pub Steps-push :
      (entry : AdjacencyEntry) (next : List NodeId) (walk walk' : Walk) (d : NodeId)
      → type_fits hop.edge_type entry ≡ true
      → far_end entry ≡ some d
      → IsPushed walk walk' (extend hop binding entry d)
      → IsMarked walk'
      → Steps entry (next, walk) (next, walk')
  unfolding Holds
  Steps-push entry next walk walk' d t f push m =
      (m, λ b'. ground (arith, push b', IsExtended-iff entry d b' t f))
