-- ===== src/Prelude/Sorting.antt =====
-- `slice::sort_by`: a stable sort. Under a total preorder its result is determined, so any stable
-- algorithm serves; this one inserts from the right.
use mathlib.Core.Path.{◌≡◌, refl}
use mathlib.Core.Logic.{inl, inr, ◌⊎◌, ◌↔◌}
use mathlib.Core.Bool.{Bool, true, false}
use mathlib.Core.List.{List, [], ◌∷◌, Perm}
use mathlib.Core.List.Perm
use native.Mathlib.Omega.{arith}
use Prim.Native.Nat.{Ordering, suc}
use doi.Prelude.Tests.{if◌then◌else◌, Bool-cases}
use doi.Prelude.Lists.{All, In, length, filter}

-- `a` may stand before `b`
abbrev pub not_after : Ordering → Bool
not_after Ordering.gt = false
not_after _ = true

module _ {A : Type 0} (cmp : A → A → Ordering) where
  unfoldable pub insert_by : A → List A → List A
  insert_by x [] = x ∷ []
  insert_by x (y ∷ ys) = if not_after (cmp x y) then x ∷ y ∷ ys else y ∷ insert_by x ys

  unfoldable pub sort_by : List A → List A
  unfolding insert_by
  sort_by [] = []
  sort_by (x ∷ xs) = insert_by x (sort_by xs)

  insert_by-perm : (x : A) (ys : List A) → Perm (insert_by x ys) (x ∷ ys)
  unfolding insert_by
  insert_by-perm x [] = Perm.refl _
  insert_by-perm x (y ∷ ys) = elim (Bool-cases (not_after (cmp x y))) [
    | inl e ↦ rw e (Perm.refl _)
    | inr e ↦ rw e (Perm.trans (Perm.cons y (insert_by-perm x ys)) (Perm.swap x y ys))
  ]

  pub sort_by-perm : (xs : List A) → Perm (sort_by xs) xs
  unfolding sort_by
  sort_by-perm [] = Perm.refl _
  sort_by-perm (x ∷ xs) = Perm.trans (insert_by-perm x (sort_by xs)) (Perm.cons x (sort_by-perm xs))

  In-insert_by : (a x : A) (ys : List A) → In a (insert_by x ys) ↔ ((a ≡ x) ⊎ In a ys)
  unfolding insert_by
  In-insert_by a x [] = (λ i. i, λ i. i)
  In-insert_by a x (y ∷ ys) = ground (arith, In-insert_by a x ys)

  pub In-sort_by : (a : A) (xs : List A) → In a (sort_by xs) ↔ In a xs
  unfolding sort_by
  In-sort_by a [] = (λ i. i, λ i. i)
  In-sort_by a (x ∷ xs) = ground (arith, In-insert_by a x (sort_by xs), In-sort_by a xs)

  length-insert_by : (x : A) (ys : List A) → length (insert_by x ys) ≡ suc (length ys)
  unfolding insert_by
  length-insert_by x [] = refl
  length-insert_by x (y ∷ ys) = ground (arith, length-insert_by x ys)

  pub length-sort_by : (xs : List A) → length (sort_by xs) ≡ length xs
  unfolding sort_by
  length-sort_by [] = refl
  length-sort_by (x ∷ xs) = ground (arith, length-insert_by x (sort_by xs), length-sort_by xs)

  -- Every element may stand before all that follow it.
  abbrev pub IsSorted : List A → Type 0
  IsSorted [] = Unit
  IsSorted (x ∷ xs) = All (λ y. not_after (cmp x y) ≡ true) xs × IsSorted xs

  module _ (total : (a b : A) → not_after (cmp a b) ≡ false → not_after (cmp b a) ≡ true)
      (trans : (a b c : A)
        → not_after (cmp a b) ≡ true
        → not_after (cmp b c) ≡ true
        → not_after (cmp a c) ≡ true) where
    All-insert_by : (P : A → Type 0) (x : A) (ys : List A) → P x → All P ys → All P (insert_by x ys)
    unfolding insert_by
    All-insert_by P x [] p a = (p, tt)
    All-insert_by P x (y ∷ ys) p a = ground (arith, All-insert_by P x ys)

    All-trans :
        (x y : A) (ys : List A)
        → not_after (cmp x y) ≡ true
        → All (λ z. not_after (cmp y z) ≡ true) ys
        → All (λ z. not_after (cmp x z) ≡ true) ys
    All-trans x y [] h a = tt
    All-trans x y (z ∷ zs) h a = (trans x y z h a.0, All-trans x y zs h a.1)

    insert_by-IsSorted : (x : A) (ys : List A) → IsSorted ys → IsSorted (insert_by x ys)
    unfolding insert_by
    insert_by-IsSorted x [] s = (tt, tt)
    insert_by-IsSorted x (y ∷ ys) s = elim (Bool-cases (not_after (cmp x y))) [
      | inl e ↦ rw e ((e, All-trans x y ys e s.0), s)
      | inr e ↦ rw e (
        All-insert_by (λ z. not_after (cmp y z) ≡ true) x ys (total x y e) s.0,
        insert_by-IsSorted x ys s.1,
      )
    ]

    pub sort_by-IsSorted : (xs : List A) → IsSorted (sort_by xs)
    unfolding sort_by
    sort_by-IsSorted [] = tt
    sort_by-IsSorted (x ∷ xs) = insert_by-IsSorted x (sort_by xs) (sort_by-IsSorted xs)

    insert_by-least :
        (x : A) (ys : List A) → All (λ y. not_after (cmp x y) ≡ true) ys → insert_by x ys ≡ x ∷ ys
    unfolding insert_by
    insert_by-least x [] h = refl
    insert_by-least x (y ∷ ys) h = rw h.0 refl

    All-filter : (P : A → Type 0) (p : A → Bool) (ys : List A) → All P ys → All P (filter p ys)
    All-filter P p [] h = tt
    All-filter P p (y ∷ ys) h = ground (arith, All-filter P p ys)

    filter-insert_by :
        (p : A → Bool) (x : A) (ys : List A)
        → IsSorted ys
        → filter p (insert_by x ys) ≡ (if p x then insert_by x (filter p ys) else filter p ys)
    unfolding insert_by
    filter-insert_by p x [] s = refl
    filter-insert_by p x (y ∷ ys) s = elim (Bool-cases (not_after (cmp x y))) [
      | inl e ↦
          let least =
            insert_by-least x (filter p ys)
              (All-filter (λ z. not_after (cmp x z) ≡ true) p ys (All-trans x y ys e s.0)) in
          ground arith
      | inr e ↦ ground (arith, filter-insert_by p x ys s.1)
    ]

    -- A stable sort of what a test keeps is what the test keeps of the sort.
    pub filter-sort_by :
        (p : A → Bool) (xs : List A) → filter p (sort_by xs) ≡ sort_by (filter p xs)
    unfolding sort_by
    filter-sort_by p [] = refl
    filter-sort_by p (x ∷ xs) =
        ground (arith, filter-insert_by p x (sort_by xs) (sort_by-IsSorted xs), filter-sort_by p xs)

-- The comparison needs to be a total preorder only on the elements of the list.
module _ {A : Type 0} (cmp : A → A → Ordering) (P : A → Type 0)
    (total : (a b : A) → P a → P b → not_after (cmp a b) ≡ false → not_after (cmp b a) ≡ true)
    (trans : (a b c : A)
      → P a
      → P b
      → P c
      → not_after (cmp a b) ≡ true
      → not_after (cmp b c) ≡ true
      → not_after (cmp a c) ≡ true) where
  All-insert_by_on :
      (Q : A → Type 0) (x : A) (ys : List A) → Q x → All Q ys → All Q (insert_by cmp x ys)
  unfolding insert_by
  All-insert_by_on Q x [] q a = (q, tt)
  All-insert_by_on Q x (y ∷ ys) q a = ground (arith, All-insert_by_on Q x ys)

  All-trans_on :
      (x y : A) (ys : List A)
      → P x
      → P y
      → All P ys
      → not_after (cmp x y) ≡ true
      → All (λ z. not_after (cmp y z) ≡ true) ys
      → All (λ z. not_after (cmp x z) ≡ true) ys
  All-trans_on x y [] p q r h a = tt
  All-trans_on x y (z ∷ zs) p q r h a =
      (trans x y z p q r.0 h a.0, All-trans_on x y zs p q r.1 h a.1)

  insert_by-IsSorted_on :
      (x : A) (ys : List A) → P x → All P ys → IsSorted cmp ys → IsSorted cmp (insert_by cmp x ys)
  unfolding insert_by
  insert_by-IsSorted_on x [] p ps s = (tt, tt)
  insert_by-IsSorted_on x (y ∷ ys) p ps s = elim (Bool-cases (not_after (cmp x y))) [
    | inl e ↦ rw e ((e, All-trans_on x y ys p ps.0 ps.1 e s.0), s)
    | inr e ↦ rw e (
      All-insert_by_on (λ z. not_after (cmp y z) ≡ true) x ys (total x y p ps.0 e) s.0,
      insert_by-IsSorted_on x ys p ps.1 s.1,
    )
  ]

  sort_by-All : (xs : List A) → All P xs → All P (sort_by cmp xs)
  unfolding sort_by
  sort_by-All [] p = tt
  sort_by-All (x ∷ xs) p = All-insert_by_on P x (sort_by cmp xs) p.0 (sort_by-All xs p.1)

  pub sort_by-IsSorted_on : (xs : List A) → All P xs → IsSorted cmp (sort_by cmp xs)
  unfolding sort_by
  sort_by-IsSorted_on [] p = tt
  sort_by-IsSorted_on (x ∷ xs) p =
      insert_by-IsSorted_on x (sort_by cmp xs) p.0 (sort_by-All xs p.1) (sort_by-IsSorted_on xs p.1)
