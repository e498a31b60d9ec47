-- ===== src/Index/Builder/Table.antt =====
-- graph-engine/crates/graph-index/src/builder.rs, `id_to_local`: the table of local positions holds
-- exactly the partition's nodes, each at a position where it stands.
use doi.Prelude.{
  ℕ, zero, suc, ◌+◌, ◌%◌, ◌≤◌, ◌<◌, ◌≡◌, refl, ◌⊎◌, inl, inr, Bool, ◌||◌, List, [], ◌∷◌, some,
  arith, length, get, get_elem?, insert, get-insert, nat_eq, ◌==◌, ==_iff, contains_key, any,
  Bool-cases,
}
use doi.Schema.{NodeId}
use doi.Index.Builder.{u32_mod, collect_local}

abbrev pub member : NodeId → List NodeId → Bool
member id ids = any (λ x. x == id) ids

abbrev StandsAt : NodeId → List NodeId → (first : ℕ) → ℕ → Type 0
StandsAt id ids first i = (k : ℕ) × (i ≡ first + k) × (get_elem? ids k ≡ some id)

get-collect_local :
    (ids : List NodeId) (first : ℕ) (table : List (NodeId × ℕ)) (id : NodeId) (i : ℕ)
    → first + length ids ≤ u32_mod
    → get id (collect_local first ids table) ≡ some i
    → (get id table ≡ some i) ⊎ StandsAt id ids first i
unfolding collect_local
get-collect_local [] first table id i fits h = inl h
get-collect_local (x ∷ xs) first table id i fits h =
    elim (get-collect_local xs (suc first) (insert x (first % u32_mod) table) id i (omega arith)
      h) [
        | inl e ↦ elim (Bool-cases (x == id)) [
          | inl q ↦ inr (
            0,
            ground (arith, get-insert x id (first % u32_mod) table),
            ground (arith, ==_iff x id),
          )
          | inr q ↦ inl (ground (arith, get-insert x id (first % u32_mod) table))
        ]
        | inr (k, e, f) ↦ inr (suc k, omega arith, f)
      ]

contains_key-collect_local :
    (ids : List NodeId) (first : ℕ) (table : List (NodeId × ℕ)) (id : NodeId)
    → contains_key id (collect_local first ids table) ≡ (member id ids || contains_key id table)
unfolding collect_local
contains_key-collect_local [] first table id = refl
contains_key-collect_local (x ∷ xs) first table id = ground (
  arith,
  contains_key-collect_local xs (suc first) (insert x (first % u32_mod) table) id,
  get-insert x id (first % u32_mod) table,
)

lt-length_of_get_elem? :
    {A : Type 0} (xs : List A) (k : ℕ) (x : A) → get_elem? xs k ≡ some x → k < length xs
lt-length_of_get_elem? [] k x h = cc
lt-length_of_get_elem? (y ∷ ys) zero x h = omega arith
lt-length_of_get_elem? (y ∷ ys) (suc k) x h = omega (arith, lt-length_of_get_elem? ys k x h)

module _ (ids : List NodeId) (fits : length ids ≤ u32_mod) where
  abbrev pub table_of : List (NodeId × ℕ)
  table_of = collect_local 0 ids []

  -- a position in the table is one where the node stands
  stands : (id : NodeId) (i : ℕ) → get id table_of ≡ some i → get_elem? ids i ≡ some id
  stands id i h = elim (get-collect_local ids 0 [] id i (omega arith) h) [
    | inl e ↦ cc
    | inr (k, e, f) ↦ let q : i ≡ k = omega arith in rw q f
  ]

  pub table_bound : (id : NodeId) (i : ℕ) → get id table_of ≡ some i → i < length ids
  table_bound id i h = lt-length_of_get_elem? ids i id (stands id i h)

  -- no two nodes share a position
  pub table_injective :
      (a b : NodeId) (i : ℕ) → get a table_of ≡ some i → get b table_of ≡ some i → a ≡ b
  table_injective a b i h k = cc (stands a i h, stands b i k)

pub contains_key-table :
    (ids : List NodeId) (id : NodeId) → contains_key id (collect_local 0 ids []) ≡ member id ids
contains_key-table ids id = ground (arith, contains_key-collect_local ids 0 [] id)
