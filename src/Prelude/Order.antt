-- ===== src/Prelude/Order.antt =====
-- `Ord` of the standard library: a comparison with the laws that the trait asks for, and the
-- instances that the program sorts and indexes by.
use Prim.Native.Nat.{compare as compare_ℕ, Ordering, ℕ}
use Prim.Native.Nat.Ordering.{lt, eq, gt}
use Prim.Native.Char.{Char, code}
use Prim.Native.String.compare
use Prim.Native.String.{String, [], ◌∷◌, compare, then}
use mathlib.Core.Path.{◌≡◌, refl}
use mathlib.Core.List.{List}
use mathlib.Core.List.List.{[], ◌∷◌}
use mathlib.Core.Bool.{Bool, true, false}
use native.Mathlib.Omega.{arith}
use text.Mathlib.TextEquality.{path_by_compare}
use text.Mathlib.TextPositions.{compare_refl}
use doi.Prelude.Int.{ℤ, compare_ℤ}

abbrev pub reverse : Ordering → Ordering
reverse lt = gt
reverse eq = eq
reverse gt = lt

abbrev pub then_with : Ordering → Ordering → Ordering
then_with eq second = second
then_with first _ = first

pub record IsLawful {A : Type 0} (cmp : A → A → Ordering) : Type 0 where
  pub cmp_refl : (a : A) → cmp a a ≡ eq
  pub eq_of_cmp : (a b : A) → cmp a b ≡ eq → a ≡ b
  pub cmp_reverse : (a b : A) → cmp b a ≡ reverse (cmp a b)
  pub lt_trans : (a b c : A) → cmp a b ≡ lt → cmp b c ≡ lt → cmp a c ≡ lt

pub record Ord (A : Type 0) : Type 0 where
  pub cmp : A → A → Ordering
  pub lawful : IsLawful cmp
  pub open lawful use *

pub nat-IsLawful : IsLawful compare_ℕ
nat-IsLawful = ground arith

pub int-IsLawful : IsLawful compare_ℤ
int-IsLawful = ground arith

-- `false < true`
abbrev pub compare_bool : Bool → Bool → Ordering
compare_bool false false = eq
compare_bool false true = lt
compare_bool true false = gt
compare_bool true true = eq

pub bool-IsLawful : IsLawful compare_bool
bool-IsLawful = ground arith

compare-nil-cons : (d : Char) (t : String) → compare [] (d ∷ t) ≡ lt
compare-nil-cons d t = compare.nil-cons d t

compare-cons-nil : (c : Char) (s : String) → compare (c ∷ s) [] ≡ gt
compare-cons-nil c s = compare.cons-nil c s

compare-cons-cons :
    (c d : Char) (s t : String)
    → compare (c ∷ s) (d ∷ t) ≡ then_with (compare_ℕ (code c) (code d)) (compare s t)
compare-cons-cons c d s t = same (compare_ℕ (code c) (code d)) (compare.cons-cons c d s t)
  where
    same :
        (o : Ordering)
        → compare (c ∷ s) (d ∷ t) ≡ then o (compare s t)
        → compare (c ∷ s) (d ∷ t) ≡ then_with o (compare s t)
    same lt e = e
    same eq e = e
    same gt e = e

compare-reverse : (s t : String) → compare t s ≡ reverse (compare s t)
compare-reverse [] [] = rw compare_refl
compare-reverse [] (d ∷ t) = rw (compare-nil-cons, compare-cons-nil)
compare-reverse (c ∷ s) [] = rw (compare-nil-cons, compare-cons-nil)
compare-reverse (c ∷ s) (d ∷ t) =
    ground (arith, compare-cons-cons c d s t, compare-cons-cons d c t s, compare-reverse s t)

compare_lt_trans : (s t u : String) → compare s t ≡ lt → compare t u ≡ lt → compare s u ≡ lt
compare_lt_trans [] [] u h k = k
compare_lt_trans [] (d ∷ t) [] h k = cc (compare-cons-nil d t)
compare_lt_trans [] (d ∷ t) (e ∷ u) h k = compare-nil-cons e u
compare_lt_trans (c ∷ s) [] u h k = cc (compare-cons-nil c s)
compare_lt_trans (c ∷ s) (d ∷ t) [] h k = cc (compare-cons-nil d t)
compare_lt_trans (c ∷ s) (d ∷ t) (e ∷ u) h k = ground (
  arith,
  compare-cons-cons c d s t,
  compare-cons-cons d e t u,
  compare-cons-cons c e s u,
  compare_lt_trans s t u,
)

pub string-IsLawful : IsLawful compare
string-IsLawful = record {
  cmp_refl = compare_refl;
  eq_of_cmp = path_by_compare;
  cmp_reverse = compare-reverse;
  lt_trans = compare_lt_trans;
}

instance abbrev pub nat_ord : Ord ℕ
nat_ord = record { cmp = compare_ℕ; lawful = nat-IsLawful }

instance abbrev pub int_ord : Ord ℤ
int_ord = record { cmp = compare_ℤ; lawful = int-IsLawful }

instance abbrev pub bool_ord : Ord Bool
bool_ord = record { cmp = compare_bool; lawful = bool-IsLawful }

instance abbrev pub string_ord : Ord String
string_ord = record { cmp = compare; lawful = string-IsLawful }

-- Tuples compare lexicographically.
module _ {A B : Type 0} ⦃first : Ord A⦄ ⦃second : Ord B⦄ where
  abbrev pub lex : (p q : A × B) → Ordering
  lex p q = then_with (first.cmp p.0 q.0) (second.cmp p.1 q.1)

  pub lex-IsLawful : IsLawful {A = A × B} lex
  lex-IsLawful = record {
    cmp_reverse = λ p q. ground (arith, first.cmp_reverse p.0 q.0, second.cmp_reverse p.1 q.1);
    cmp_refl = λ p. simp (first.cmp_refl, second.cmp_refl);
    lt_trans = λ p q r. ground (
      arith,
      first.eq_of_cmp p.0 q.0,
      first.eq_of_cmp q.0 r.0,
      first.lt_trans p.0 q.0 r.0,
      second.lt_trans p.1 q.1 r.1,
    );
    eq_of_cmp = λ p q. ground (arith, first.eq_of_cmp p.0 q.0, second.eq_of_cmp p.1 q.1);
  }

  instance abbrev pub pair_ord : Ord (A × B)
  pair_ord = record { lawful = lex-IsLawful; cmp = lex }

-- So do slices.
module _ {A : Type 0} ⦃o : Ord A⦄ where
  unfoldable pub lex_list : List A → List A → Ordering
  lex_list [] [] = eq
  lex_list [] (y ∷ ys) = lt
  lex_list (x ∷ xs) [] = gt
  lex_list (x ∷ xs) (y ∷ ys) = then_with (o.cmp x y) (lex_list xs ys)

  lex_list_refl : (xs : List A) → lex_list xs xs ≡ eq
  unfolding lex_list
  lex_list_refl [] = refl
  lex_list_refl (x ∷ xs) = ground (arith, o.cmp_refl x, lex_list_refl xs)

  eq_of_lex_list : (xs ys : List A) → lex_list xs ys ≡ eq → xs ≡ ys
  unfolding lex_list
  eq_of_lex_list [] [] h = refl
  eq_of_lex_list [] (y ∷ ys) h = cc
  eq_of_lex_list (x ∷ xs) [] h = cc
  eq_of_lex_list (x ∷ xs) (y ∷ ys) h = ground (arith, o.eq_of_cmp x y, eq_of_lex_list xs ys)

  lex_list-reverse : (xs ys : List A) → lex_list ys xs ≡ reverse (lex_list xs ys)
  unfolding lex_list
  lex_list-reverse [] [] = refl
  lex_list-reverse [] (y ∷ ys) = refl
  lex_list-reverse (x ∷ xs) [] = refl
  lex_list-reverse (x ∷ xs) (y ∷ ys) = ground (arith, o.cmp_reverse x y, lex_list-reverse xs ys)

  lex_list_lt_trans :
      (xs ys zs : List A) → lex_list xs ys ≡ lt → lex_list ys zs ≡ lt → lex_list xs zs ≡ lt
  unfolding lex_list
  lex_list_lt_trans [] [] zs h k = k
  lex_list_lt_trans [] (y ∷ ys) [] h k = cc
  lex_list_lt_trans [] (y ∷ ys) (z ∷ zs) h k = refl
  lex_list_lt_trans (x ∷ xs) [] zs h k = cc
  lex_list_lt_trans (x ∷ xs) (y ∷ ys) [] h k = cc
  lex_list_lt_trans (x ∷ xs) (y ∷ ys) (z ∷ zs) h k =
      ground (arith, o.eq_of_cmp x y, o.eq_of_cmp y z, o.lt_trans x y z, lex_list_lt_trans xs ys zs)

  pub lex_list-IsLawful : IsLawful lex_list
  lex_list-IsLawful = record {
    cmp_refl = lex_list_refl;
    eq_of_cmp = eq_of_lex_list;
    cmp_reverse = lex_list-reverse;
    lt_trans = lex_list_lt_trans;
  }

  instance abbrev pub list_ord : Ord (List A)
  list_ord = record { cmp = lex_list; lawful = lex_list-IsLawful }
