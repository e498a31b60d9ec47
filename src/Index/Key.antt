-- ===== src/Index/Key.antt =====
-- graph-engine/crates/graph-index/src/lib.rs, `PropertyKey`: its derived order compares the variants
-- first, in the order of their declaration.
use Prim.Native.Nat.Ordering.{lt, eq, gt}
use doi.Prelude.{String, Bool, Ordering, ◌≡◌, refl, ap, arith}
use doi.Prelude.Int.{ℤ, compare_ℤ}
use doi.Prelude.Order.{
  Ord, IsLawful, compare_bool, reverse, int-IsLawful, bool-IsLawful, string-IsLawful, string_ord,
}

pub data PropertyKey : Type 0 where
  int64 : ℤ → PropertyKey
  bool : Bool → PropertyKey
  string : String → PropertyKey
  timestamp : ℤ → PropertyKey

abbrev pub compare_key : PropertyKey → PropertyKey → Ordering
compare_key (int64 a) (int64 b) = compare_ℤ a b
compare_key (int64 a) _ = lt
compare_key (bool a) (int64 b) = gt
compare_key (bool a) (bool b) = compare_bool a b
compare_key (bool a) _ = lt
compare_key (string a) (string b) = string_ord.cmp a b
compare_key (string a) (timestamp b) = lt
compare_key (string a) _ = gt
compare_key (timestamp a) (timestamp b) = compare_ℤ a b
compare_key (timestamp a) _ = gt

pub key-IsLawful : IsLawful compare_key
key-IsLawful = record {
  cmp_refl = key_refl;
  eq_of_cmp = key_eq;
  cmp_reverse = key_reverse;
  lt_trans = key_trans;
}
  where
    key_refl : (a : PropertyKey) → compare_key a a ≡ eq
    key_refl (int64 a) = int-IsLawful.cmp_refl a
    key_refl (bool a) = bool-IsLawful.cmp_refl a
    key_refl (string a) = string-IsLawful.cmp_refl a
    key_refl (timestamp a) = int-IsLawful.cmp_refl a

    key_eq : (a b : PropertyKey) → compare_key a b ≡ eq → a ≡ b
    key_eq (int64 a) (int64 b) h = ap int64 (int-IsLawful.eq_of_cmp a b h)
    key_eq (bool a) (bool b) h = ap bool (bool-IsLawful.eq_of_cmp a b h)
    key_eq (string a) (string b) h = ap string (string-IsLawful.eq_of_cmp a b h)
    key_eq (timestamp a) (timestamp b) h = ap timestamp (int-IsLawful.eq_of_cmp a b h)
    key_eq _ _ h = ground arith

    key_reverse : (a b : PropertyKey) → compare_key b a ≡ reverse (compare_key a b)
    key_reverse (int64 a) (int64 b) = int-IsLawful.cmp_reverse a b
    key_reverse (bool a) (bool b) = bool-IsLawful.cmp_reverse a b
    key_reverse (string a) (string b) = string-IsLawful.cmp_reverse a b
    key_reverse (timestamp a) (timestamp b) = int-IsLawful.cmp_reverse a b
    key_reverse _ _ = refl

    key_trans :
        (a b c : PropertyKey) → compare_key a b ≡ lt → compare_key b c ≡ lt → compare_key a c ≡ lt
    key_trans (int64 a) (int64 b) (int64 c) = int-IsLawful.lt_trans a b c
    key_trans (bool a) (bool b) (bool c) = bool-IsLawful.lt_trans a b c
    key_trans (string a) (string b) (string c) = string-IsLawful.lt_trans a b c
    key_trans (timestamp a) (timestamp b) (timestamp c) = int-IsLawful.lt_trans a b c
    key_trans _ _ _ = ground arith

instance abbrev pub key_ord : Ord PropertyKey
key_ord = record { cmp = compare_key; lawful = key-IsLawful }
