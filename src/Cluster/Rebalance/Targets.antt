-- ===== src/Cluster/Rebalance/Targets.antt =====
-- graph-engine/crates/graph-cluster/src/rebalance.rs, `target_machines`.
use Prim.Native.Nat.{Ordering}
use doi.Prelude.{
  ℕ, zero, suc, String, Bool, true, false, List, [], ◌∷◌, map, filter, take, length, string_eq, In,
  inl, inr, ◌⊎◌, ◌↔◌, ◌≡◌, refl, sym, ap, ◌∙◌, subst, arith, In-of_map, In-map, In_of_All,
}
use doi.Prelude.Order.{string_ord}
use doi.Prelude.Sorting.{
  not_after, sort_by, In-sort_by, length-sort_by, IsSorted, sort_by-IsSorted, filter-sort_by,
}
use doi.Index.{PartitionId}
use doi.Cluster.Rebalance.{min, rendezvous_score, rank, target_machines}

module _ {A : Type 0} where
  take-nil : (k : ℕ) → take {A = A} k [] ≡ []
  take-nil zero = refl
  take-nil (suc k) = refl

  pub take_min : (k : ℕ) (xs : List A) → take (min k (length xs)) xs ≡ take k xs
  take_min k [] = take-nil (min k 0) ∙ sym (take-nil k)
  take_min zero (x ∷ xs) = ground arith
  take_min (suc k) (x ∷ xs) = ground (arith, take_min k xs)

  pub In-of_take : (a : A) (k : ℕ) (xs : List A) → In a (take k xs) → In a xs
  In-of_take a zero xs i = absurd i
  In-of_take a (suc k) [] i = i
  In-of_take a (suc k) (x ∷ xs) (inl e) = inl e
  In-of_take a (suc k) (x ∷ xs) (inr i) = inr (In-of_take a k xs i)

  length-take : (k : ℕ) (xs : List A) → length (take k xs) ≡ min k (length xs)
  length-take zero xs = ground arith
  length-take (suc k) [] = ground arith
  length-take (suc k) (x ∷ xs) = ground (arith, length-take k xs)

  -- What comes first is not after what is left out.
  take-least :
      (cmp : A → A → Ordering) (k : ℕ) (xs : List A)
      → IsSorted cmp xs
      → (a b : A) → In a (take k xs)
      → In b xs
      → (In b (take k xs)) ⊎ (not_after (cmp a b) ≡ true)
  take-least cmp zero xs s a b i j = absurd i
  take-least cmp (suc k) [] s a b i j = absurd i
  take-least cmp (suc k) (x ∷ xs) s a b i (inl e) = inl (inl e)
  take-least cmp (suc k) (x ∷ xs) s a b (inl e) (inr j) = inr (
      subst (λ z. not_after (cmp z b) ≡ true) (sym e)
        (In_of_All (λ y. not_after (cmp x y) ≡ true) b xs s.0 j))
  take-least cmp (suc k) (x ∷ xs) s a b (inr i) (inr j) = elim (take-least cmp k xs s.1 a b i j) [
    | inl m ↦ inl (inr m)
    | inr m ↦ inr m
  ]

  -- Dropping elements that are not among the first ones leaves these as they are.
  take-filter :
      (p : A → Bool) (k : ℕ) (xs : List A)
      → ((a : A) → In a (take k xs) → p a ≡ true)
      → take k (filter p xs) ≡ take k xs
  take-filter p zero xs h = refl
  take-filter p (suc k) [] h = refl
  take-filter p (suc k) (x ∷ xs) h =
      ground (arith, h x (inl refl), take-filter p k xs (λ a i. h a (inr i)))

length-map : {A B : Type 0} (f : A → B) (xs : List A) → length (map f xs) ≡ length xs
length-map f [] = refl
length-map f (x ∷ xs) = ap suc (length-map f xs)

filter-map :
    {A B : Type 0} (p : B → Bool) (f : A → B) (xs : List A)
    → filter p (map f xs) ≡ map f (filter (λ a. p (f a)) xs)
filter-map p f [] = refl
filter-map p f (x ∷ xs) = ground (arith, filter-map p f xs)

rank-total : (a b : ℕ × String) → not_after (rank a b) ≡ false → not_after (rank b a) ≡ true
rank-total a b h = ground (arith, string_ord.cmp_reverse a.1 b.1)

string_trans :
    (a b c : String)
    → not_after (string_ord.cmp a b) ≡ true
    → not_after (string_ord.cmp b c) ≡ true
    → not_after (string_ord.cmp a c) ≡ true
string_trans a b c =
    ground (arith, string_ord.eq_of_cmp a b, string_ord.eq_of_cmp b c, string_ord.lt_trans a b c)

rank_trans :
    (a b c : ℕ × String)
    → not_after (rank a b) ≡ true
    → not_after (rank b c) ≡ true
    → not_after (rank a c) ≡ true
rank_trans a b c = ground (arith, string_trans a.1 b.1 c.1)

module _ (xxh3_64 : List ℕ → ℕ) (partition : PartitionId) where
  abbrev pub scored : String → ℕ × String
  scored m = (rendezvous_score xxh3_64 partition m, m)

  -- The machines, best first.
  abbrev pub ranked : List String → List (ℕ × String)
  ranked machines = sort_by rank (map scored machines)

  target-ranked :
      (k : ℕ) (machines : List String)
      → target_machines xxh3_64 partition machines k
        ≡ map (λ (s : ℕ × String). s.1) (take k (ranked machines))
  unfolding target_machines
  target-ranked k machines = refl

  -- Every scored machine carries its own score.
  In-ranked : (s : ℕ × String) (machines : List String) → In s (ranked machines) → s ≡ scored s.1
  In-ranked s machines i =
      let (m, j, e) = In-of_map scored s machines ((In-sort_by rank s (map scored machines)).0 i) in
      cc

  In-target :
      (k : ℕ) (machines : List String) (m : String)
      → In m (target_machines xxh3_64 partition machines k)
        ↔ In (scored m) (take k (ranked machines))
  unfolding target_machines
  In-target k machines m = (
    λ i.
        let (s, j, e) = In-of_map (λ (s : ℕ × String). s.1) m (take k (ranked machines)) i in
        let own = In-ranked s machines (In-of_take s k (ranked machines) j) in
        subst (λ z. In z (take k (ranked machines))) (own ∙ ap scored (sym e)) j,
    λ i. In-map (λ (s : ℕ × String). s.1) (scored m) (take k (ranked machines)) i,
  )

  -- The target holds as many of the available machines as the factor asks for, as far as there are
  -- enough, and none that is left out ranks before one that is in.
  pub target_machines-best :
      (k : ℕ) (machines : List String)
      → (length (target_machines xxh3_64 partition machines k) ≡ min k (length machines))
        × ((m : String) → In m (target_machines xxh3_64 partition machines k) → In m machines)
        × ((m other : String)
            → In m (target_machines xxh3_64 partition machines k)
            → In other machines
            → In other (target_machines xxh3_64 partition machines k)
              ⊎ (not_after (rank (scored m) (scored other)) ≡ true))
  target_machines-best k machines = (
    rw
        (
          target-ranked k machines,
          length-map,
          length-take,
          length-sort_by rank (map scored machines),
          length-map,
        )
        refl,
    λ m i.
        let (n, j, e) = In-of_map scored (scored m) machines (
          (In-sort_by rank (scored m) (map scored machines)).0
            (In-of_take (scored m) k (ranked machines) ((In-target k machines m).0 i))) in
        subst (λ z. In z machines) (sym (ap (λ (s : ℕ × String). s.1) e)) j,
    λ m other i j.
        elim (take-least rank k (ranked machines)
          (sort_by-IsSorted rank rank-total rank_trans (map scored machines)) (scored m)
          (scored other) ((In-target k machines m).0 i)
          ((In-sort_by rank (scored other) (map scored machines)).1
            (In-map scored other machines j))) [
              | inl l ↦ inl ((In-target k machines other).1 l)
              | inr r ↦ inr r
            ],
  )

  -- Taking away machines that do not host the partition leaves its machines as they are.
  pub target_machines-filter :
      (k : ℕ) (machines : List String) (stays : String → Bool)
      → ((m : String) → In m (target_machines xxh3_64 partition machines k) → stays m ≡ true)
      → target_machines xxh3_64 partition (filter stays machines) k
        ≡ target_machines xxh3_64 partition machines k
  target_machines-filter k machines stays h =
      let keeps : ℕ × String → Bool = λ s. stays s.1 in
      let dropped : ranked (filter stays machines) ≡ filter keeps (ranked machines) =
        ap (sort_by rank) (sym (filter-map keeps scored machines))
        ∙ sym (filter-sort_by rank rank-total rank_trans keeps (map scored machines)) in
      let same : take k (filter keeps (ranked machines)) ≡ take k (ranked machines) =
        take-filter keeps k (ranked machines) (λ s i. h s.1 (
          (In-target k machines s.1).1 (
            subst (λ z. In z (take k (ranked machines)))
              (In-ranked s machines (In-of_take s k (ranked machines) i)) i))) in
      target-ranked k (filter stays machines)
      ∙ ap (λ z. map (λ (s : ℕ × String). s.1) (take k z)) dropped
      ∙ ap (map (λ (s : ℕ × String). s.1)) same
      ∙ sym (target-ranked k machines)

  pub target_machines-min :
      (k : ℕ) (machines : List String)
      → target_machines xxh3_64 partition machines (min k (length machines))
        ≡ target_machines xxh3_64 partition machines k
  target_machines-min k machines =
      let size : length (ranked machines) ≡ length machines =
        length-sort_by rank (map scored machines) ∙ length-map scored machines in
      target-ranked (min k (length machines)) machines
      ∙ ap (λ n. map (λ (s : ℕ × String). s.1) (take (min k n) (ranked machines))) (sym size)
      ∙ ap (map (λ (s : ℕ × String). s.1)) (take_min k (ranked machines))
      ∙ sym (target-ranked k machines)
