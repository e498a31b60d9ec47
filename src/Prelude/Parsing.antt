-- ===== src/Prelude/Parsing.antt =====
-- `str::split`, `trim` and `parse::<u32>` of the standard library, on the code points of a text.
use Prim.Native.Nat.{ℕ, zero, suc, ◌-◌, ◌+◌, ◌*◌, ◌^◌, ◌<◌}
use Prim.Native.Char.{code}
use Prim.Native.String.{String, [] as empty, ◌∷◌ as ◌▹◌}
use mathlib.Core.Path.{◌≡◌}
use mathlib.Core.Bool.{Bool, ◌&&◌, ◌||◌}
use mathlib.Core.Logic.{inl, inr}
use mathlib.Core.List.{List, [], ◌∷◌, ◌++◌}
use mathlib.Core.Option.{Option, none, some, map}
use doi.Prelude.Int.{ℤ, pos, negsuc}
use native.Mathlib.Omega.{arith}
use doi.Prelude.Tests.{ltb, leb, nat_beq, if◌then◌else◌, Bool-cases}

unfoldable pub codes : String → List ℕ
codes empty = []
codes (c ▹ s) = code c ∷ codes s

-- the piece that is being read comes first
unfoldable pub split_on : ℕ → List ℕ → List ℕ → List (List ℕ)
split_on separator piece [] = piece ∷ []
split_on separator piece (c ∷ cs) =
    if nat_beq c separator
    then piece ∷ split_on separator [] cs
    else split_on separator (piece ++ c ∷ []) cs

-- `char::is_whitespace`
abbrev pub is_whitespace : ℕ → Bool
is_whitespace c =
    (leb 9 c && leb c 13)
    || nat_beq c 0x20
    || nat_beq c 0x85
    || nat_beq c 0xa0
    || nat_beq c 0x1680
    || (leb 0x2000 c && leb c 0x200a)
    || nat_beq c 0x2028
    || nat_beq c 0x2029
    || nat_beq c 0x202f
    || nat_beq c 0x205f
    || nat_beq c 0x3000

unfoldable pub trim_start : List ℕ → List ℕ
trim_start [] = []
trim_start (c ∷ cs) = if is_whitespace c then trim_start cs else c ∷ cs

-- a text without its white space at the end
unfoldable pub trim_end : List ℕ → List ℕ
trim_end [] = []
trim_end (c ∷ cs) = elim (trim_end cs) [
  | [] ↦ if is_whitespace c then [] else c ∷ []
  | d ∷ ds ↦ c ∷ d ∷ ds
]

unfoldable pub trim : List ℕ → List ℕ
unfolding trim_start trim_end
trim cs = trim_end (trim_start cs)

-- the digits after those that gave `value`; a value that reaches the bound is an error
unfoldable pub parse_digits : (bound value : ℕ) → List ℕ → Option ℕ
parse_digits bound value [] = some value
parse_digits bound value (c ∷ cs) =
    let next = value * 10 + (c - 48) in
    let rest = parse_digits bound next cs in
    if leb 48 c && leb c 57 && ltb next bound then rest else none

-- One sign may stand in front.
unfoldable pub parse_unsigned : (bound : ℕ) → List ℕ → Option ℕ
unfolding parse_digits
parse_unsigned bound [] = none
parse_unsigned bound (c ∷ []) = parse_digits bound 0 (c ∷ [])
parse_unsigned bound (c ∷ d ∷ cs) =
    if nat_beq c 43 then parse_digits bound 0 (d ∷ cs) else parse_digits bound 0 (c ∷ d ∷ cs)

abbrev pub parse_u32 : List ℕ → Option ℕ
parse_u32 cs = parse_unsigned (2 ^ 32) cs

abbrev pub parse_u64 : List ℕ → Option ℕ
parse_u64 cs = parse_unsigned (2 ^ 64) cs

abbrev pub negated : ℕ → ℤ
negated zero = pos 0
negated (suc n) = negsuc n

unfoldable pub parse_i64 : List ℕ → Option ℤ
unfolding parse_unsigned
parse_i64 [] = none
parse_i64 (c ∷ []) = map pos (parse_digits (2 ^ 63) 0 (c ∷ []))
parse_i64 (c ∷ d ∷ cs) =
    if nat_beq c 45
    then map negated (parse_digits (2 ^ 63 + 1) 0 (d ∷ cs))
    else map pos (parse_unsigned (2 ^ 63) (c ∷ d ∷ cs))

parse_digits-lt :
    (bound value : ℕ) (cs : List ℕ) (n : ℕ)
    → value < bound
    → parse_digits bound value cs ≡ some n
    → n < bound
unfolding parse_digits
parse_digits-lt bound value [] n h e = ground arith
parse_digits-lt bound value (c ∷ cs) n h e =
    ground (arith, parse_digits-lt bound (value * 10 + (c - 48)) cs n)

pub parse_unsigned-lt :
    (bound : ℕ) (cs : List ℕ) (n : ℕ) → 0 < bound → parse_unsigned bound cs ≡ some n → n < bound
unfolding parse_unsigned
parse_unsigned-lt bound [] n h e = cc
parse_unsigned-lt bound (c ∷ []) n h e = parse_digits-lt bound 0 (c ∷ []) n h e
parse_unsigned-lt bound (c ∷ d ∷ cs) n h e = elim (Bool-cases (nat_beq c 43)) [
  | inl f ↦ parse_digits-lt bound 0 (d ∷ cs) n h (rw f at e)
  | inr f ↦ parse_digits-lt bound 0 (c ∷ d ∷ cs) n h (rw f at e)
]
