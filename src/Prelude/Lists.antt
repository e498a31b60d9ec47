-- ===== src/Prelude/Lists.antt =====
-- Lists measured by native numbers, searched and filtered by Boolean tests, and membership with
-- its position kept.
use Prim.Native.Nat.{ℕ, zero, suc, ◌+◌, ◌≤◌}
use mathlib.Core.Path.{◌≡◌, refl, ap, sym, subst}
use mathlib.Core.Logic.{◌↔◌, ◌⊎◌, inl, inr, ⊎_elim}
use mathlib.Core.Bool.{Bool, true, false, ◌&&◌, ◌||◌}
use mathlib.Core.List.{List, [], ◌∷◌, ◌++◌, map}
use mathlib.Core.Option.{Option, none, some}
use native.Mathlib.Omega.{arith}
use doi.Prelude.Tests.{if◌then◌else◌, Bool-cases, Option-cases}

module _ {ℓ} {A : Type ℓ} where
  abbrev pub length : List A → ℕ
  length [] = 0
  length (x ∷ xs) = suc (length xs)

  abbrev pub get_elem? : List A → ℕ → Option A
  get_elem? [] i = none
  get_elem? (x ∷ xs) zero = some x
  get_elem? (x ∷ xs) (suc i) = get_elem? xs i

  abbrev pub get_or : List A → ℕ → A → A
  get_or [] i d = d
  get_or (x ∷ xs) zero d = x
  get_or (x ∷ xs) (suc i) d = get_or xs i d

  abbrev pub take : ℕ → List A → List A
  take zero xs = []
  take (suc n) [] = []
  take (suc n) (x ∷ xs) = x ∷ take n xs

  abbrev pub drop : ℕ → List A → List A
  drop zero xs = xs
  drop (suc n) [] = []
  drop (suc n) (x ∷ xs) = drop n xs

  abbrev pub replicate : ℕ → A → List A
  replicate zero a = []
  replicate (suc n) a = a ∷ replicate n a

  -- `iter().any`, `iter().all`, `filter` and `find`, on a Boolean test
  abbrev pub any : (A → Bool) → List A → Bool
  any p [] = false
  any p (x ∷ xs) = p x || any p xs

  abbrev pub all : (A → Bool) → List A → Bool
  all p [] = true
  all p (x ∷ xs) = p x && all p xs

  abbrev pub filter : (A → Bool) → List A → List A
  filter p [] = []
  filter p (x ∷ xs) = if p x then x ∷ filter p xs else filter p xs

  abbrev pub find : (A → Bool) → List A → Option A
  find p [] = none
  find p (x ∷ xs) = if p x then some x else find p xs

  abbrev pub All {κ} : (A → Type κ) → List A → Type κ
  All P [] = Unit
  All P (x ∷ xs) = P x × All P xs

abbrev pub filter_map {ℓ κ} : {A : Type ℓ} {B : Type κ} → (A → Option B) → List A → List B
filter_map f [] = []
filter_map f (x ∷ xs) = elim (f x) [ none ↦ filter_map f xs | some y ↦ y ∷ filter_map f xs ]

abbrev pub flat_map {ℓ κ} : {A : Type ℓ} {B : Type κ} → (A → List B) → List A → List B
flat_map f [] = []
flat_map f (x ∷ xs) = f x ++ flat_map f xs

-- A membership that shows where: it computes to sums, which the tactics read.
abbrev pub In : {A : Type 0} → A → List A → Type 0
In a [] = ⊥
In a (x ∷ xs) = (a ≡ x) ⊎ In a xs

module _ {ℓ} {A : Type ℓ} where
  pub length-append : (xs ys : List A) → length (xs ++ ys) ≡ length xs + length ys
  length-append [] ys = omega arith
  length-append (x ∷ xs) ys = omega (arith, length-append xs ys)

  pub length-take-le : (n : ℕ) (xs : List A) → length (take n xs) ≤ n
  length-take-le zero xs = omega arith
  length-take-le (suc n) [] = omega arith
  length-take-le (suc n) (x ∷ xs) = omega (arith, length-take-le n xs)

  pub length-filter-le : (p : A → Bool) (xs : List A) → length (filter p xs) ≤ length xs
  length-filter-le p [] = omega arith
  length-filter-le p (x ∷ xs) = ground (arith, length-filter-le p xs)

  pub filter_map-append {κ} :
      {B : Type κ} (f : A → Option B) (xs ys : List A)
      → filter_map f (xs ++ ys) ≡ filter_map f xs ++ filter_map f ys
  filter_map-append f [] ys = refl
  filter_map-append f (x ∷ xs) ys = ground (arith, filter_map-append f xs ys)

module _ {A : Type 0} where
  pub In-append : (a : A) (xs ys : List A) → In a (xs ++ ys) ↔ (In a xs ⊎ In a ys)
  In-append a [] ys = (inr, ⊎_elim (λ n. absurd n) (λ i. i))
  In-append a (x ∷ xs) ys = ground (arith, In-append a xs ys)

  pub In-filter :
      (p : A → Bool) (a : A) (xs : List A) → In a (filter p xs) ↔ (In a xs × (p a ≡ true))
  In-filter p a [] = (λ h. absurd h, λ h. absurd h.0)
  In-filter p a (x ∷ xs) = ground (arith, In-filter p a xs)

  pub any_of_In : (p : A → Bool) (a : A) (xs : List A) → In a xs → p a ≡ true → any p xs ≡ true
  any_of_In p a [] i h = absurd i
  any_of_In p a (x ∷ xs) i h = ground (arith, any_of_In p a xs)

  pub In-of_any : (p : A → Bool) (xs : List A) → any p xs ≡ true → (a : A) × In a xs × (p a ≡ true)
  In-of_any p [] h = cc
  In-of_any p (x ∷ xs) h = elim (Bool-cases (p x)) [
    | inl e ↦ (x, inl refl, e)
    | inr e ↦ let (a, i, q) = In-of_any p xs (ground arith) in (a, inr i, q)
  ]

  pub all_of_In : (p : A → Bool) (a : A) (xs : List A) → all p xs ≡ true → In a xs → p a ≡ true
  all_of_In p a [] h i = absurd i
  all_of_In p a (x ∷ xs) h i = ground (arith, all_of_In p a xs)

  pub All-of_In : (P : A → Type 0) (xs : List A) → ((a : A) → In a xs → P a) → All P xs
  All-of_In P [] h = tt
  All-of_In P (x ∷ xs) h = (h x (inl refl), All-of_In P xs (λ a i. h a (inr i)))

  pub In_of_All : (P : A → Type 0) (a : A) (xs : List A) → All P xs → In a xs → P a
  In_of_All P a [] h i = absurd i
  In_of_All P a (x ∷ xs) h (inl e) = subst P (sym e) h.0
  In_of_All P a (x ∷ xs) h (inr i) = In_of_All P a xs h.1 i

module _ {A B : Type 0} where
  pub In-of_filter_map :
      (f : A → Option B) (b : B) (xs : List A)
      → In b (filter_map f xs)
      → (a : A) × In a xs × (f a ≡ some b)
  In-of_filter_map f b [] h = absurd h
  In-of_filter_map f b (x ∷ xs) h = elim (Option-cases (f x)) [
    | inl e ↦ let (a, i, q) = In-of_filter_map f b xs (rw (e, In, filter_map) at h) in (a, inr i, q)
    | inr (y, e) ↦
        let j : (b ≡ y) ⊎ In b (filter_map f xs) = rw (e, In, filter_map) at h in
        elim j [
          | inl p ↦ (x, inl refl, cc)
          | inr k ↦ let (a, i, q) = In-of_filter_map f b xs k in (a, inr i, q)
        ]
  ]

  pub In-filter_map :
      (f : A → Option B) (a : A) (b : B) (xs : List A)
      → In a xs
      → f a ≡ some b
      → In b (filter_map f xs)
  In-filter_map f a b [] i e = absurd i
  In-filter_map f a b (x ∷ xs) i e = ground (arith, In-filter_map f a b xs)

  pub In-of_map :
      (f : A → B) (b : B) (xs : List A) → In b (map f xs) → (a : A) × In a xs × (b ≡ f a)
  In-of_map f b [] h = absurd h
  In-of_map f b (x ∷ xs) (inl e) = (x, inl refl, e)
  In-of_map f b (x ∷ xs) (inr i) = let (a, j, e) = In-of_map f b xs i in (a, inr j, e)

  pub In-map : (f : A → B) (a : A) (xs : List A) → In a xs → In (f a) (map f xs)
  In-map f a [] i = absurd i
  In-map f a (x ∷ xs) (inl e) = inl (ap f e)
  In-map f a (x ∷ xs) (inr i) = inr (In-map f a xs i)

  pub In-of_flat_map :
      (f : A → List B) (b : B) (xs : List A) → In b (flat_map f xs) → (a : A) × In a xs × In b (f a)
  In-of_flat_map f b [] h = absurd h
  In-of_flat_map f b (x ∷ xs) h = elim ((In-append b (f x) (flat_map f xs)).0 h) [
    | inl l ↦ (x, inl refl, l)
    | inr r ↦ let (a, i, j) = In-of_flat_map f b xs r in (a, inr i, j)
  ]

  pub In-flat_map :
      (f : A → List B) (a : A) (b : B) (xs : List A) → In a xs → In b (f a) → In b (flat_map f xs)
  In-flat_map f a b [] i h = absurd i
  In-flat_map f a b (x ∷ xs) (inl e) h =
      (In-append b (f x) (flat_map f xs)).1 (inl (subst (λ z. In b (f z)) e h))
  In-flat_map f a b (x ∷ xs) (inr i) h =
      (In-append b (f x) (flat_map f xs)).1 (inr (In-flat_map f a b xs i h))

pub append-eq-nil : {A : Type 0} (xs ys : List A) → xs ++ ys ≡ [] → (xs ≡ []) × (ys ≡ [])
append-eq-nil [] ys h = (refl, h)
append-eq-nil (x ∷ xs) ys h = cc

pub flat_map-eq-nil :
    {A B : Type 0} (f : A → List B) (x : A) (xs : List A) → flat_map f xs ≡ [] → In x xs → f x ≡ []
flat_map-eq-nil f x [] h i = absurd i
flat_map-eq-nil f x (y ∷ ys) h (inl e) = rw e (append-eq-nil (f y) (flat_map f ys) h).0
flat_map-eq-nil f x (y ∷ ys) h (inr i) =
    flat_map-eq-nil f x ys (append-eq-nil (f y) (flat_map f ys) h).1 i

pub nil_of_flat_map :
    {A B : Type 0} (f : A → List B) (xs : List A)
    → ((x : A) → In x xs → f x ≡ [])
    → flat_map f xs ≡ []
nil_of_flat_map f [] h = refl
nil_of_flat_map f (x ∷ xs) h = rw (h x (inl refl)) (nil_of_flat_map f xs (λ y i. h y (inr i)))
