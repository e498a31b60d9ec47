-- ===== src/Query/Distributed/Walks.antt =====
-- graph-engine/crates/graph-query/src/distributed_executor.rs, `scatter_gather_hop`: the rounds of a
-- hop of variable length.
use doi.Prelude.{
  ℕ, zero, suc, ◌+◌, ◌≤◌, ◌<◌, String, true, false, List, [], ◌∷◌, map, get, is_some, leb, In, inl,
  inr, ◌⊎◌, ◌↔◌, ◌≡◌, refl, sym, subst, arith, Bool-cases, In-map, In-of_map, string_eq,
}
use doi.Cluster.{PartitionMap}
use doi.Query.{ok, PlanStep, ExpandHop, Binding}
use doi.Query.Distributed.{Key, ScatterGatherExecutor, binding_key, add_new}
use doi.Query.Distributed.Keys.{AreDistinct, Agrees, IsMerged, add_new-IsMerged, add_new-Agrees}
use doi.Query.Distributed.Entries.{HoldsOnce, AreApart-of_distinct, held-of_key}
use doi.Query.Distributed.Groups.{AllBound}
use doi.Query.Distributed.Execute.{round_hop, hop_rounds, scatter_gather_hop}
use doi.Query.Distributed.Rounds.{AnswersHop, IsReached, one_round-reaches}

-- What a loop keeps in addition to `before`: pairwise different keys, nothing but what satisfies the
-- predicate, and the key of all that does.
pub record IsGathered (before : List Binding) (P : Binding → Type 0) (kept : List Binding)
    : Type 0 where
  pub distinct : AreDistinct kept
  pub from : (b : Binding) → In b kept → In b before ⊎ P b
  pub keeps : (b : Binding) → In b before → In b kept
  pub covers : (b : Binding) → P b → In (binding_key b) (map binding_key kept)

le_of_leb : (a b : ℕ) → leb a b ≡ true → a ≤ b
le_of_leb a b h = ground arith

not_le_of_leb : (a b : ℕ) → leb a b ≡ false → a ≤ b → ⊥
not_le_of_leb a b h l = ground arith

key-kept :
    (mid kept : List Binding)
    → ((b : Binding) → In b mid → In b kept)
    → (b : Binding) → In (binding_key b) (map binding_key mid)
    → In (binding_key b) (map binding_key kept)
key-kept mid kept keeps b i =
    let (y, j, e) = In-of_map binding_key (binding_key b) mid i in
    subst (λ z. In z (map binding_key kept)) (sym e) (In-map binding_key y kept (keeps y j))

module _ (executor : ScatterGatherExecutor) (partitions : PartitionMap) (xxh3_64 : List ℕ → ℕ)
    (reach : ExpandHop → Binding → List Binding) (hop : ExpandHop) where
  -- A walk of `n` rounds, from the round of the depth and the alias.
  abbrev pub After : (n depth : ℕ) (cursor_alias : String) → (start end : Binding) → Type 0
  After zero depth cursor_alias start end = end ≡ start
  After (suc n) depth cursor_alias start end =
      (middle : Binding) × In middle (reach (round_hop hop cursor_alias depth) start)
      × After n (suc depth) hop.to_alias middle end

  -- A walk of at least one and at most `left` rounds that ends at a depth in the hop's range.
  unfoldable pub IsWalked :
      (left depth : ℕ) (cursor_alias : String) → List Binding → Binding → Type 0
  IsWalked left depth cursor_alias current end =
      (start : Binding) × (n : ℕ) × In start current
      × (n < left)
      × (hop.hops.min ≤ depth + n)
      × After (suc n) depth cursor_alias start end

  -- The replicas answer the rounds of the hop, and what they answer binds the alias that the hop goes to.
  pub record AnswersRounds : Type 0 where
    pub answers :
        (cursor_alias : String) (depth : ℕ)
        → let round = round_hop hop cursor_alias depth in
          AnswersHop executor partitions xxh3_64 round (reach round)
    pub binds :
        (cursor_alias : String) (depth : ℕ) (b b' : Binding)
        → In b' (reach (round_hop hop cursor_alias depth) b)
        → is_some (get hop.to_alias b'.nodes) ≡ true

  -- The walks of the next round, and the walks behind it.
  IsWalked-step :
      (left depth : ℕ) (cursor_alias : String) (current next : List Binding) (end : Binding)
      → ((b : Binding)
          → In b next
            ↔ IsReached executor partitions xxh3_64
                (round_hop hop cursor_alias depth)
                (reach (round_hop hop cursor_alias depth))
                current
                b)
      → IsWalked (suc left) depth cursor_alias current end
        ↔ (((hop.hops.min ≤ depth) × In end next) ⊎ IsWalked left (suc depth) hop.to_alias next end)
  unfolding IsWalked IsReached
  IsWalked-step left depth cursor_alias current next end mem = (fore, back)
    where
      fore :
          IsWalked (suc left) depth cursor_alias current end
          → ((hop.hops.min ≤ depth) × In end next) ⊎ IsWalked left (suc depth) hop.to_alias next end
      fore (start, zero, i, low, high, (middle, j, e)) =
          inl (omega arith, subst (λ z. In z next) (sym e) ((mem middle).1 (start, i, j)))
      fore (start, suc n, i, low, high, (middle, j, rest)) =
          inr (middle, n, (mem middle).1 (start, i, j), omega arith, omega arith, rest)

      back :
          ((hop.hops.min ≤ depth) × In end next) ⊎ IsWalked left (suc depth) hop.to_alias next end
          → IsWalked (suc left) depth cursor_alias current end
      back (inl (low, i)) =
          let (start, j, k) = (mem end).0 i in
          (start, 0, j, omega arith, omega arith, (end, k, refl))
      back (inr (middle, n, i, low, high, rest)) =
          let (start, j, k) = (mem middle).0 i in
          (start, suc n, j, omega arith, omega arith, (middle, k, rest))

  IsGathered-next :
      (before next mid out : List Binding) (P : Binding → Type 0)
      → IsMerged before next mid
      → IsGathered mid P out
      → IsGathered before (λ b. In b next ⊎ P b) out
  IsGathered-next before next mid out P m g = record {
    distinct = g.distinct;
    from = λ b i. elim (g.from b i) [
      | inl j ↦ elim (m.from b j) [ inl k ↦ inl k | inr k ↦ inr (inl k) ]
      | inr q ↦ inr (inr q)
    ];
    keeps = λ b i. g.keeps b (m.keeps b i);
    covers =
        λ b s. elim s [ inl i ↦ key-kept mid out g.keeps b (m.covers b i) | inr q ↦ g.covers b q ];
  }

  IsGathered-map :
      (before out : List Binding) (P Q : Binding → Type 0)
      → ((b : Binding) → Q b ↔ P b)
      → IsGathered before P out
      → IsGathered before Q out
  IsGathered-map before out P Q f g = record {
    distinct = g.distinct;
    from = λ b i. elim (g.from b i) [ inl j ↦ inl j | inr q ↦ inr ((f b).1 q) ];
    keeps = g.keeps;
    covers = λ b q. g.covers b ((f b).0 q);
  }

  module _ (answers : AnswersRounds) where
    -- what a result of the loop has to be
    abbrev pub HasResult :
        (left depth : ℕ) (cursor_alias : String) → List Binding → List Key × List Binding → Type 0
    HasResult left depth cursor_alias current state =
        (out : List Binding) × (hop_rounds executor partitions xxh3_64 hop left depth cursor_alias
            current state
          ≡ ok out)
        × IsGathered state.1 (IsWalked left depth cursor_alias current) out

    hop_rounds-IsGathered :
        (left depth : ℕ) (cursor_alias : String) (current : List Binding)
        (state : List Key × List Binding)
        → Agrees state.0 state.1
        → AreDistinct state.1
        → AllBound xxh3_64 executor.hasher cursor_alias current
        → HasResult left depth cursor_alias current state
    unfolding hop_rounds IsWalked IsReached AllBound
    hop_rounds-IsGathered zero depth cursor_alias current state agrees d h = (
      state.1,
      refl,
      record {
        distinct = d;
        from = λ b i. inl i;
        keeps = λ b i. i;
        covers = λ b (s, n, i, high, low, w). absurd (omega arith);
      },
    )
    hop_rounds-IsGathered (suc left) depth cursor_alias [] state agrees d h = (
      state.1,
      refl,
      record {
        distinct = d;
        from = λ b i. inl i;
        keeps = λ b i. i;
        covers = λ b (s, n, i, high, low, w). absurd i;
      },
    )
    hop_rounds-IsGathered (suc left) depth cursor_alias (c ∷ cs) state agrees d h =
        let round = round_hop hop cursor_alias depth in
        let (next, run, mem) =
          one_round-reaches executor partitions xxh3_64 round (reach round)
            (answers.answers cursor_alias depth) (c ∷ cs) h in
        let step = λ (end : Binding). IsWalked-step left depth cursor_alias (c ∷ cs) next end mem in
        let bound_next : AllBound xxh3_64 executor.hasher hop.to_alias next =
          λ b i. let (s, j, k) = (mem b).0 i in answers.binds cursor_alias depth s b k in
        elim (Bool-cases (leb hop.hops.min depth)) [
          | inl e ↦
              let mid = add_new next state in
              let merged = add_new-IsMerged next state.0 state.1 agrees d in
              let (out, rest, g) =
                hop_rounds-IsGathered left (suc depth) hop.to_alias next mid
                  (add_new-Agrees next state.0 state.1 agrees) merged.distinct bound_next in
              (
                out,
                rw (run, e, hop_rounds) rest,
                IsGathered-map state.1 out
                    (λ b. In b next ⊎ IsWalked left (suc depth) hop.to_alias next b)
                    (IsWalked (suc left) depth cursor_alias (c ∷ cs))
                    (λ b. (
                      λ q. elim ((step b).0 q) [ inl t ↦ inl t.1 | inr w ↦ inr w ],
                      λ t. (step b).1 (elim t [
                        | inl i ↦ inl (le_of_leb hop.hops.min depth e, i)
                        | inr w ↦ inr w
                      ]),
                    ))
                    (IsGathered-next state.1 next mid.1 out
                      (IsWalked left (suc depth) hop.to_alias next) merged g),
              )
          | inr e ↦
              let (out, rest, g) =
                hop_rounds-IsGathered left (suc depth) hop.to_alias next state agrees d
                  bound_next in
              (
                out,
                rw (run, e, hop_rounds) rest,
                IsGathered-map state.1 out (IsWalked left (suc depth) hop.to_alias next)
                    (IsWalked (suc left) depth cursor_alias (c ∷ cs))
                    (λ b. (
                      λ q. elim ((step b).0 q) [
                        | inl t ↦ absurd (not_le_of_leb hop.hops.min depth e t.0)
                        | inr w ↦ w
                      ],
                      λ w. (step b).1 (inr w),
                    ))
                    g,
              )
        ]

    -- Where the replicas answer the rounds of the hop and what they answer binds the alias that the hop
    -- goes to, a hop from a frontier that binds its first alias returns, once each, the ends of the
    -- walks whose length is in its range.
    pub scatter_gather_hop-HoldsOnce :
        (frontier : List Binding)
        → AllBound xxh3_64 executor.hasher hop.from_alias frontier
        → (out : List Binding) × (scatter_gather_hop executor partitions xxh3_64
              (PlanStep.expand_hop hop)
              frontier
            ≡ ok out)
          × HoldsOnce (IsWalked hop.hops.max 1 hop.from_alias frontier) out
    unfolding scatter_gather_hop Agrees AreDistinct
    scatter_gather_hop-HoldsOnce frontier h =
        let (out, run, g) =
          hop_rounds-IsGathered hop.hops.max 1 hop.from_alias frontier ([], [])
            (λ key. (λ i. i, λ i. i)) tt h in
        (
          out,
          run,
          record {
            apart = AreApart-of_distinct out g.distinct;
            from = λ b i. elim (g.from b i) [ inl n ↦ absurd n | inr w ↦ w ];
            covers = λ b w. held-of_key b out (g.covers b w);
          },
        )
