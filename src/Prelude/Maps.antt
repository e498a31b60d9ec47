-- ===== src/Prelude/Maps.antt =====
-- `HashMap` as an association list. Its order stands for the iteration order, which the program
-- does not know: theorems about a map that is given hold for every order.
use mathlib.Core.Path.{◌≡◌, refl}
use mathlib.Core.Logic.{inl, inr, ◌⊎◌}
use mathlib.Core.Bool.{Bool, true, false}
use mathlib.Core.List.{List, [], ◌∷◌, ◌++◌}
use mathlib.Core.Option.{Option, none, some}
use native.Mathlib.Omega.{arith}
use doi.Prelude.Tests.{if◌then◌else◌}
use doi.Prelude.Lists.{In}
use doi.Prelude.Equality.{Eq, ◌==◌}

abbrev pub or_default {ℓ} : {A : Type ℓ} → Option (List A) → List A
or_default none = []
or_default (some xs) = xs

abbrev pub is_some {ℓ} : {A : Type ℓ} → Option A → Bool
is_some none = false
is_some (some _) = true

module _ {K : Type 0} {V : Type 0} ⦃e : Eq K⦄ where
  abbrev pub get : K → List (K × V) → Option V
  get k [] = none
  get k ((j, v) ∷ m) = if j == k then some v else get k m

  abbrev pub contains_key : K → List (K × V) → Bool
  contains_key k m = is_some (get k m)

  unfoldable pub insert : K → V → List (K × V) → List (K × V)
  insert k v [] = (k, v) ∷ []
  insert k v ((j, w) ∷ m) = if j == k then (j, v) ∷ m else (j, w) ∷ insert k v m

  pub get-insert :
      (k j : K) (v : V) (m : List (K × V))
      → get j (insert k v m) ≡ (if k == j then some v else get j m)
  unfolding insert
  get-insert k j v [] = refl
  get-insert k j v ((i, w) ∷ m) =
      ground (arith, e.beq_iff k j, e.beq_iff i k, e.beq_iff i j, get-insert k j v m)

  pub get-insert_self : (k : K) (v : V) (m : List (K × V)) → get k (insert k v m) ≡ some v
  get-insert_self k v m = ground (arith, get-insert k k v m, e.beq_iff k k)

  pub In-of_get : (k : K) (v : V) (m : List (K × V)) → get k m ≡ some v → In (k, v) m
  In-of_get k v [] h = cc
  In-of_get k v ((j, w) ∷ m) h = ground (arith, e.beq_iff j k, In-of_get k v m)

  -- No key is held twice.
  abbrev pub KeysUnique : List (K × V) → Type 0
  KeysUnique [] = Unit
  KeysUnique ((k, v) ∷ m) = (get k m ≡ none) × KeysUnique m

  pub get_of_In : (k : K) (v : V) (m : List (K × V)) → KeysUnique m → In (k, v) m → get k m ≡ some v
  get_of_In k v [] u i = absurd i
  get_of_In k v ((j, w) ∷ m) u (inl p) = ground (arith, e.beq_iff j k)
  get_of_In k v ((j, w) ∷ m) u (inr i) = ground (arith, e.beq_iff j k, get_of_In k v m u.1 i)

  pub insert-KeysUnique :
      (k : K) (v : V) (m : List (K × V)) → KeysUnique m → KeysUnique (insert k v m)
  unfolding insert
  insert-KeysUnique k v [] u = (refl, tt)
  insert-KeysUnique k v ((j, w) ∷ m) u =
      ground (arith, insert-KeysUnique k v m u.1, get-insert k j v m, e.beq_iff j k, e.beq_iff k j)

module _ {K : Type 0} {V : Type 0} ⦃e : Eq K⦄ where
  -- `entry(k).or_default().push(v)`
  unfoldable pub entry_push : K → V → List (K × List V) → List (K × List V)
  entry_push k v [] = (k, v ∷ []) ∷ []
  entry_push k v ((j, ws) ∷ m) =
      if j == k then (j, ws ++ v ∷ []) ∷ m else (j, ws) ∷ entry_push k v m

  pub get-entry_push :
      (k j : K) (v : V) (m : List (K × List V))
      → get j (entry_push k v m)
        ≡ (if k == j then some (or_default (get k m) ++ v ∷ []) else get j m)
  unfolding entry_push
  get-entry_push k j v [] = refl
  get-entry_push k j v ((i, ws) ∷ m) =
      ground (arith, e.beq_iff k j, e.beq_iff i k, e.beq_iff i j, get-entry_push k j v m)

  pub entry_push-KeysUnique :
      (k : K) (v : V) (m : List (K × List V)) → KeysUnique m → KeysUnique (entry_push k v m)
  unfolding entry_push
  entry_push-KeysUnique k v [] u = (refl, tt)
  entry_push-KeysUnique k v ((j, ws) ∷ m) u =
      ground (
        arith,
        entry_push-KeysUnique k v m u.1,
        get-entry_push k j v m,
        e.beq_iff j k,
        e.beq_iff k j,
      )

module _ {K : Type 0} {V : Type 0} ⦃e : Eq K⦄ where
  -- `into_iter().collect()`: a later entry of a key wins.
  unfoldable pub collect_into : List (K × V) → List (K × V) → List (K × V)
  collect_into [] m = m
  collect_into ((k, v) ∷ entries) m = collect_into entries (insert k v m)

  pub contains_key-collect_into :
      (k : K) (v : V) (entries m : List (K × V))
      → In (k, v) entries ⊎ (contains_key k m ≡ true)
      → contains_key k (collect_into entries m) ≡ true
  unfolding collect_into
  contains_key-collect_into k v [] m h = ground arith
  contains_key-collect_into k v ((j, w) ∷ entries) m (inl (inl p)) =
      contains_key-collect_into k v entries (insert j w m)
        (inr (ground (arith, get-insert j k w m, e.beq_iff j k)))
  contains_key-collect_into k v ((j, w) ∷ entries) m (inl (inr i)) =
      contains_key-collect_into k v entries (insert j w m) (inl i)
  contains_key-collect_into k v ((j, w) ∷ entries) m (inr h) =
      contains_key-collect_into k v entries (insert j w m)
        (inr (ground (arith, get-insert j k w m)))

  pub In-of_collect_into :
      (k : K) (v : V) (entries m : List (K × V))
      → get k (collect_into entries m) ≡ some v
      → In (k, v) entries ⊎ (get k m ≡ some v)
  unfolding collect_into
  In-of_collect_into k v [] m h = inr h
  In-of_collect_into k v ((j, w) ∷ entries) m h =
      elim (In-of_collect_into k v entries (insert j w m) h) [
        | inl i ↦ inl (inr i)
        | inr g ↦ ground (arith, get-insert j k w m, e.beq_iff j k)
      ]
