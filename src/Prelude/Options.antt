-- ===== src/Prelude/Options.antt =====
-- Chains of steps that may stop: `none` is a panic of the source, whose message is left out.
use mathlib.Core.Path.{◌≡◌, refl}
use mathlib.Core.Option.{Option, none, some}

infixl 5 ◌>>=◌
abbrev pub ◌>>=◌ {ℓ κ} : {A : Type ℓ} {B : Type κ} → Option A → (A → Option B) → Option B
some a >>= f = f a
none >>= f = none

pub >>=-eq-some {ℓ κ} :
    {A : Type ℓ} {B : Type κ} (step : Option A) (next : A → Option B) {result : B}
    → (step >>= next) ≡ some result
    → (value : A) × (step ≡ some value) × (next value ≡ some result)
>>=-eq-some (some value) next h = (value, refl, h)
>>=-eq-some none next h = cc
