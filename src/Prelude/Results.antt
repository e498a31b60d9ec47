-- ===== src/Prelude/Results.antt =====
-- `Result<A, E>` with `?`: a chain of fallible steps is a `do` block.
use mathlib.Core.Path.{◌≡◌, refl}
use mathlib.Core.Logic.{◌⊎◌, inl, inr}

pub data Result (E A : Type 0) : Type 0 where
  err : E → Result E A
  ok : A → Result E A

infixl 5 ◌>>=◌
abbrev pub ◌>>=◌ : {E : Type 0} {A B : Type 0} (m : Result E A) (next : A → Result E B) → Result E B
err e >>= next = err e
ok a >>= next = next a

-- Inversion of a successful chain.
pub >>=-eq-ok :
    {E A B : Type 0} (step : Result E A) (next : A → Result E B) {result : B}
    → (step >>= next) ≡ ok result
    → (value : A) × (step ≡ ok value) × (next value ≡ ok result)
>>=-eq-ok (ok value) next h = (value, refl, h)
>>=-eq-ok (err e) next h = cc

pub Result-cases :
    {E A : Type 0} (r : Result E A) → ((e : E) × (r ≡ err e)) ⊎ ((a : A) × (r ≡ ok a))
Result-cases (ok a) = inr (a, refl)
Result-cases (err e) = inl (e, refl)

abbrev pub the_ok : (E : Type 0) {A : Type 0} → A → Result E A
the_ok E a = ok a

abbrev pub the_err : {E : Type 0} (A : Type 0) → E → Result E A
the_err A e = err e

pub ok-inj : {E A : Type 0} {a b : A} → the_ok E a ≡ the_ok E b → a ≡ b
ok-inj e = cc
