-- ===== src/Query/Distributed/Keys.antt =====
-- graph-engine/crates/graph-query/src/distributed_executor.rs, `dedup`.
use doi.Prelude.{
  Bool, true, false, List, [], ◌∷◌, ◌++◌, any, list_eq, pair_eq, nat_eq, string_eq, ◌==◌, ==_iff,
  In, inl, inr, ◌⊎◌, ◌↔◌, ◌≡◌, refl, sym, ap, ◌∙◌, subst, arith, Bool-cases, In-append, map, In-map,
  In-of_map,
}
use doi.Query.{Binding}
use doi.Query.Distributed.{Key, binding_key, add_new}

-- Every two bindings at different places have different keys.
unfoldable pub AreDistinct : List Binding → Type 0
AreDistinct [] = Unit
AreDistinct (b ∷ bs) =
    ((c : Binding) → In c bs → binding_key b ≡ binding_key c → ⊥) × AreDistinct bs

abbrev pub is_seen_key : List Key → Key → Bool
is_seen_key seen key = any (λ k. ◌==◌ {A = Key} k key) seen

pub is_seen_key-In : (seen : List Key) (key : Key) → (is_seen_key seen key ≡ true) ↔ In key seen
is_seen_key-In [] key = (λ h. cc, λ i. absurd i)
is_seen_key-In (k ∷ seen) key = ground (arith, ==_iff {A = Key} k key, is_seen_key-In seen key)

-- `seen` holds the keys of what is kept.
unfoldable pub Agrees : List Key → List Binding → Type 0
Agrees seen kept = (key : Key) → In key seen ↔ In key (map binding_key kept)

AreDistinct-append :
    (bs : List Binding) (c : Binding)
    → AreDistinct bs
    → (In (binding_key c) (map binding_key bs) → ⊥)
    → AreDistinct (bs ++ c ∷ [])
unfolding AreDistinct
AreDistinct-append [] c d n = (λ _ i. absurd i, tt)
AreDistinct-append (b ∷ bs) c d n = (
  λ x i e. elim ((In-append x bs (c ∷ [])).0 i) [
    | inl j ↦ d.0 x j e
    | inr (inl p) ↦ n (inl (sym (e ∙ ap binding_key p)))
    | inr (inr q) ↦ absurd q
  ],
  AreDistinct-append bs c d.1 (λ i. n (inr i)),
)

-- What the loop keeps, from what it has kept so far.
pub record IsMerged (before incoming kept : List Binding) : Type 0 where
  pub distinct : AreDistinct kept
  pub from : (b : Binding) → In b kept → In b before ⊎ In b incoming
  pub keeps : (b : Binding) → In b before → In b kept
  pub covers : (b : Binding) → In b incoming → In (binding_key b) (map binding_key kept)

not_seen : (seen : List Key) (key : Key) → is_seen_key seen key ≡ false → In key seen → ⊥
not_seen seen key e i = ground (arith, is_seen_key-In seen key)

map-append :
    (bs : List Binding) (x : Binding)
    → map binding_key (bs ++ x ∷ []) ≡ map binding_key bs ++ binding_key x ∷ []
map-append [] x = refl
map-append (b ∷ bs) x = ap (λ z. binding_key b ∷ z) (map-append bs x)

Agrees-append :
    (seen : List Key) (kept : List Binding) (x : Binding)
    → Agrees seen kept
    → Agrees (binding_key x ∷ seen) (kept ++ x ∷ [])
unfolding Agrees
Agrees-append seen kept x agrees key = rw (map-append kept x) (
  λ i.
      (In-append key (map binding_key kept) (binding_key x ∷ [])).1
        (elim i [ inl e ↦ inr (inl e) | inr j ↦ inl ((agrees key).0 j) ]),
  λ i. elim ((In-append key (map binding_key kept) (binding_key x ∷ [])).0 i) [
    | inl j ↦ inr ((agrees key).1 j)
    | inr (inl e) ↦ inl e
    | inr (inr n) ↦ absurd n
  ],
)

IsMerged-skip :
    (x : Binding) (bs before kept : List Binding)
    → In (binding_key x) (map binding_key before)
    → IsMerged before bs kept
    → IsMerged before (x ∷ bs) kept
IsMerged-skip x bs before kept held m = record {
  distinct = m.distinct;
  from = λ b i. elim (m.from b i) [ inl j ↦ inl j | inr j ↦ inr (inr j) ];
  keeps = m.keeps;
  covers = λ b i. elim i [
    | inl e ↦
        let (y, j, f) = In-of_map binding_key (binding_key x) before held in
        subst (λ z. In z (map binding_key kept)) (sym (ap binding_key e ∙ f))
          (In-map binding_key y kept (m.keeps y j))
    | inr j ↦ m.covers b j
  ];
}

IsMerged-add :
    (x : Binding) (bs before kept : List Binding)
    → IsMerged (before ++ x ∷ []) bs kept
    → IsMerged before (x ∷ bs) kept
IsMerged-add x bs before kept m =
    let x_kept = m.keeps x ((In-append x before (x ∷ [])).1 (inr (inl refl))) in
    record {
      distinct = m.distinct;
      from = λ b i. elim (m.from b i) [
        | inl j ↦ elim ((In-append b before (x ∷ [])).0 j) [
          | inl k ↦ inl k
          | inr (inl e) ↦ inr (inl e)
          | inr (inr n) ↦ absurd n
        ]
        | inr j ↦ inr (inr j)
      ];
      keeps = λ b i. m.keeps b ((In-append b before (x ∷ [])).1 (inl i));
      covers = λ b i. elim i [
        | inl e ↦
            subst (λ z. In z (map binding_key kept)) (sym (ap binding_key e))
              (In-map binding_key x kept x_kept)
        | inr j ↦ m.covers b j
      ];
    }

pub add_new-IsMerged :
    (bs : List Binding) (seen : List Key) (kept : List Binding)
    → Agrees seen kept
    → AreDistinct kept
    → IsMerged kept bs (add_new bs (seen, kept)).1
unfolding add_new Agrees
add_new-IsMerged [] seen kept agrees d = record {
  distinct = d;
  from = λ b i. inl i;
  keeps = λ b i. i;
  covers = λ b i. absurd i;
}
add_new-IsMerged (x ∷ bs) seen kept agrees d =
    elim (Bool-cases (is_seen_key seen (binding_key x))) [
      | inl e ↦
          rw (e, add_new)
            (IsMerged-skip x bs kept _
              ((agrees (binding_key x)).0 ((is_seen_key-In seen (binding_key x)).0 e))
              (add_new-IsMerged bs seen kept agrees d))
      | inr e ↦
          rw (e, add_new)
            (IsMerged-add x bs kept _ (
              add_new-IsMerged bs (binding_key x ∷ seen) (kept ++ x ∷ [])
                (Agrees-append seen kept x agrees)
                (AreDistinct-append kept x d
                  (λ i. not_seen seen (binding_key x) e ((agrees (binding_key x)).1 i)))))
    ]

pub add_new-Agrees :
    (bs : List Binding) (seen : List Key) (kept : List Binding)
    → Agrees seen kept
    → Agrees (add_new bs (seen, kept)).0 (add_new bs (seen, kept)).1
unfolding add_new
add_new-Agrees [] seen kept agrees = agrees
add_new-Agrees (x ∷ bs) seen kept agrees = elim (Bool-cases (is_seen_key seen (binding_key x))) [
  | inl e ↦ rw (e, add_new) (add_new-Agrees bs seen kept agrees)
  | inr e ↦
      rw (e, add_new)
        (add_new-Agrees bs (binding_key x ∷ seen) (kept ++ x ∷ [])
          (Agrees-append seen kept x agrees))
]
