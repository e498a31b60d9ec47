-- ===== src/Index/Builder/Rows.antt =====
-- graph-engine/crates/graph-index/src/builder.rs, the end of `build_csr`: reading a row back from
-- the offsets and the flat entries gives the bucket.
use mathlib.Core.List.{append_assoc}
use doi.Prelude.{
  ℕ, zero, suc, ◌+◌, ◌-◌, ◌%◌, ◌<◌, ◌≡◌, refl, sym, ap, subst, List, [], ◌∷◌, ◌++◌, arith, length,
  get_or, take, drop, length-append,
}
use doi.Index.{slice}
use doi.Index.Builder.{u32_mod, flatten_buckets}

module _ {A : Type 0} where
  abbrev pub flat : List (List A) → List A
  flat [] = []
  flat (b ∷ bs) = b ++ flat bs

  -- the offsets behind the first, from the number of entries before
  abbrev pub ends : ℕ → List (List A) → List ℕ
  ends n [] = []
  ends n (b ∷ bs) = ((n + length b) % u32_mod) ∷ ends (n + length b) bs

  drop-append : (xs ys : List A) → drop (length xs) (xs ++ ys) ≡ ys
  drop-append [] ys = refl
  drop-append (x ∷ xs) ys = drop-append xs ys

  take-append : (xs ys : List A) → take (length xs) (xs ++ ys) ≡ xs
  take-append [] ys = refl
  take-append (x ∷ xs) ys = ap (◌∷◌ x) (take-append xs ys)

  pub flatten_buckets_lem :
      (bs : List (List A)) (offsets : List ℕ) (entries : List A)
      → flatten_buckets bs offsets entries
        ≡ (offsets ++ ends (length entries) bs, entries ++ flat bs)
  unfolding flatten_buckets
  flatten_buckets_lem [] offsets entries = simp (mathlib.Core.List.append-nil)
  flatten_buckets_lem (b ∷ bs) offsets entries =
      rw (flatten_buckets_lem bs _ (entries ++ b), length-append) (simp append_assoc)

  slice_first :
      (before b rest : List A) (k : ℕ)
      → k ≡ length before + length b
      → slice (before ++ (b ++ rest)) (length before) k ≡ b
  slice_first before b rest k e =
      let d : k - length before ≡ length b = omega arith in rw (d, drop-append) (take-append b rest)

  -- Row `i` of the flat entries is bucket `i`, while the number of entries fits an offset.
  pub slice-ends :
      (before : List A) (bs : List (List A)) (i : ℕ)
      → i < length bs
      → length before + length (flat bs) < u32_mod
      → slice
          (before ++ flat bs)
          (get_or (length before ∷ ends (length before) bs) i 0)
          (get_or (length before ∷ ends (length before) bs) (suc i) 0)
        ≡ get_or bs i []
  slice-ends before [] i h fits = absurd (omega arith)
  slice-ends before (b ∷ bs) zero h fits =
      slice_first before b (flat bs) _ (omega (arith, length-append b (flat bs)))
  slice-ends before (b ∷ bs) (suc i) h fits =
      let small : (length before + length b) % u32_mod ≡ length before + length b =
        omega (arith, length-append b (flat bs)) in
      let next =
        slice-ends (before ++ b) bs i (omega arith)
          (omega (arith, length-append b (flat bs), length-append before b)) in
      let joined = rw (length-append, append_assoc) at next in
      subst
        (λ k.
          slice (before ++ (b ++ flat bs)) (get_or (k ∷ ends (length before + length b) bs) i 0)
            (get_or (ends (length before + length b) bs) i 0)
          ≡ get_or bs i [])
        (sym small) joined
