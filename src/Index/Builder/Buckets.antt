-- ===== src/Index/Builder/Buckets.antt =====
-- graph-engine/crates/graph-index/src/builder.rs, the first part of `build_csr`: which edges a
-- bucket holds, and the table of local positions.
use mathlib.Core.List.{append-nil, append_assoc}
use doi.Prelude.{
  ℕ, zero, suc, ◌+◌, ◌≤◌, ◌<◌, ◌≡◌, refl, sym, ap, ◌∙◌, inl, inr, Bool, List, [], ◌∷◌, ◌++◌, Option,
  none, some, arith, length, length-append, get, get_or, nat_eq, ◌==◌, filter_map, if◌then◌else◌,
  Option-cases,
}
use doi.Schema.{NodeId, EdgeType}
use doi.Storage.{EdgeRow}
use doi.Index.{PartitionId, AdjacencyEntry}
use doi.Index.Builder.Rows.{flat}
use doi.Index.Builder.{push_at, entry, owner_of, dst_of, bucket_edge, bucket_edges}

length-push_at :
    {A : Type 0} (i : ℕ) (x : A) (bs : List (List A)) → length (push_at i x bs) ≡ length bs
unfolding push_at
length-push_at i x [] = refl
length-push_at zero x (b ∷ bs) = refl
length-push_at (suc i) x (b ∷ bs) = ap suc (length-push_at i x bs)

get_or-push_at :
    {A : Type 0} (i j : ℕ) (x : A) (bs : List (List A))
    → i < length bs
    → get_or (push_at i x bs) j [] ≡ (if i == j then get_or bs j [] ++ x ∷ [] else get_or bs j [])
unfolding push_at
get_or-push_at i j x [] h = absurd (omega arith)
get_or-push_at zero zero x (b ∷ bs) h = refl
get_or-push_at zero (suc j) x (b ∷ bs) h = ground arith
get_or-push_at (suc i) zero x (b ∷ bs) h = ground arith
get_or-push_at (suc i) (suc j) x (b ∷ bs) h = ground (arith, get_or-push_at i j x bs)

length-flat-push_at :
    {A : Type 0} (i : ℕ) (x : A) (bs : List (List A))
    → length (flat (push_at i x bs)) ≤ length (flat bs) + 1
unfolding push_at
length-flat-push_at i x [] = omega arith
length-flat-push_at zero x (b ∷ bs) = omega (
  arith,
  length-append (b ++ x ∷ []) (flat bs),
  length-append b (x ∷ []),
  length-append b (flat bs),
)
length-flat-push_at (suc i) x (b ∷ bs) = omega (
  arith,
  length-append b (flat (push_at i x bs)),
  length-append b (flat bs),
  length-flat-push_at i x bs,
)

abbrev held : {A : Type 0} → Option A → List A
held none = []
held (some x) = x ∷ []

filter_map-cons :
    {A B : Type 0} (f : A → Option B) (x : A) (xs : List A)
    → filter_map f (x ∷ xs) ≡ held (f x) ++ filter_map f xs
filter_map-cons f x xs =
    elim (f x)
      as (λ o.
        elim o [ none ↦ filter_map f xs | some y ↦ y ∷ filter_map f xs ]
        ≡ held o ++ filter_map f xs) [ none ↦ refl | some y ↦ refl ]

-- the entry that an edge leaves in bucket `j`
module _ (xxh3_64 : List ℕ → ℕ) (partition : PartitionId) (table : List (NodeId × ℕ))
    (outgoing : Bool) (n_partitions : ℕ) where
  abbrev pub entry_in : ℕ → EdgeType × EdgeRow → Option AdjacencyEntry
  entry_in j (edge_type, row) = elim (get (owner_of outgoing row) table) [
    | none ↦ none
    | some i ↦
        if i == j
        then some
            (entry xxh3_64 partition table n_partitions edge_type row.id (dst_of outgoing row))
        else none
  ]

  bucket_edge_lem :
      (edge : EdgeType × EdgeRow) (buckets : List (List AdjacencyEntry)) (j : ℕ)
      → ((id : NodeId) (i : ℕ) → get id table ≡ some i → i < length buckets)
      → get_or (bucket_edge xxh3_64 partition table outgoing n_partitions edge buckets) j []
        ≡ get_or buckets j [] ++ held (entry_in j edge)
  unfolding bucket_edge
  bucket_edge_lem (edge_type, row) buckets j bound =
      let x = entry xxh3_64 partition table n_partitions edge_type row.id (dst_of outgoing row) in
      elim (Option-cases (get (owner_of outgoing row) table)) [
        | inl e ↦ ground (arith, append-nil (get_or buckets j []))
        | inr (i, e) ↦
            ground
              (arith, get_or-push_at i j x buckets (bound _ i e), append-nil (get_or buckets j []))
      ]

  length-bucket_edge :
      (edge : EdgeType × EdgeRow) (buckets : List (List AdjacencyEntry))
      → length (bucket_edge xxh3_64 partition table outgoing n_partitions edge buckets)
        ≡ length buckets
  unfolding bucket_edge
  length-bucket_edge (edge_type, row) buckets =
      elim (Option-cases (get (owner_of outgoing row) table)) [
        | inl e ↦ ground arith
        | inr (i, e) ↦ ground (
          arith,
          length-push_at i
              (entry xxh3_64 partition table n_partitions edge_type row.id (dst_of outgoing row))
              buckets,
        )
      ]

  pub length-bucket_edges :
      (edges : List (EdgeType × EdgeRow)) (buckets : List (List AdjacencyEntry))
      → length (bucket_edges xxh3_64 partition table outgoing n_partitions edges buckets)
        ≡ length buckets
  unfolding bucket_edges
  length-bucket_edges [] buckets = refl
  length-bucket_edges (edge ∷ edges) buckets =
      length-bucket_edges edges _ ∙ length-bucket_edge edge buckets

  -- A bucket gains the entries of the edges that it owns, in the order of the edges.
  pub get_or-bucket_edges :
      (edges : List (EdgeType × EdgeRow)) (buckets : List (List AdjacencyEntry)) (j : ℕ)
      → ((id : NodeId) (i : ℕ) → get id table ≡ some i → i < length buckets)
      → get_or (bucket_edges xxh3_64 partition table outgoing n_partitions edges buckets) j []
        ≡ get_or buckets j [] ++ filter_map (entry_in j) edges
  unfolding bucket_edges
  get_or-bucket_edges [] buckets j bound = sym (append-nil _)
  get_or-bucket_edges (edge ∷ edges) buckets j bound =
      let step = bucket_edge_lem edge buckets j bound in
      let rest =
        get_or-bucket_edges edges
          (bucket_edge xxh3_64 partition table outgoing n_partitions edge buckets) j
          (λ id i e. rw (length-bucket_edge edge buckets) (bound id i e)) in
      rest
      ∙ ap (λ z. z ++ filter_map (entry_in j) edges) step
      ∙ append_assoc (get_or buckets j []) (held (entry_in j edge)) (filter_map (entry_in j) edges)
      ∙ ap (λ z. get_or buckets j [] ++ z) (sym (filter_map-cons (entry_in j) edge edges))

  length-flat-bucket_edge :
      (edge : EdgeType × EdgeRow) (buckets : List (List AdjacencyEntry))
      → length (flat (bucket_edge xxh3_64 partition table outgoing n_partitions edge buckets))
        ≤ length (flat buckets) + 1
  unfolding bucket_edge
  length-flat-bucket_edge (edge_type, row) buckets =
      elim (Option-cases (get (owner_of outgoing row) table)) [
        | inl e ↦ ground arith
        | inr (i, e) ↦ ground (
          arith,
          length-flat-push_at i
              (entry xxh3_64 partition table n_partitions edge_type row.id (dst_of outgoing row))
              buckets,
        )
      ]

  -- Each edge leaves one entry at most.
  pub length-flat-bucket_edges :
      (edges : List (EdgeType × EdgeRow)) (buckets : List (List AdjacencyEntry))
      → length (flat (bucket_edges xxh3_64 partition table outgoing n_partitions edges buckets))
        ≤ length (flat buckets) + length edges
  unfolding bucket_edges
  length-flat-bucket_edges [] buckets = omega arith
  length-flat-bucket_edges (edge ∷ edges) buckets = omega (
    arith,
    length-flat-bucket_edges edges
        (bucket_edge xxh3_64 partition table outgoing n_partitions edge buckets),
    length-flat-bucket_edge edge buckets,
  )
