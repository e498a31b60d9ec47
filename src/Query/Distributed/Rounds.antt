-- ===== src/Query/Distributed/Rounds.antt =====
-- graph-engine/crates/graph-query/src/distributed_executor.rs, `one_round`: one hop over the whole
-- cluster, given what a replica answers for the nodes of its own partition.
use doi.Prelude.{
  ℕ, List, [], ◌∷◌, ◌++◌, Option, none, some, map, get, or_default, get_of_In, In-of_get, nat_eq,
  string_eq, In, inl, inr, ◌⊎◌, ◌↔◌, ◌≡◌, refl, sym, subst, arith, Option-cases, In-append,
}
use doi.Index.{PartitionId, RemoteRef}
use doi.Cluster.{ReplicaEndpoint, PartitionMap, hash_partition}
use doi.Schema.{NodeId}
use doi.Query.{ok, PlanStep, ExpandHop, Binding, Frontier}
use doi.Query.Distributed.{ScatterGatherExecutor, pick_replica}
use doi.Query.Distributed.Groups.{
  IsAt, AllBound, IsGrouped, group_by_owning_node_partition-IsGrouped,
}
use doi.Query.Distributed.Execute.{expand_groups, one_round}

-- All bindings of an answer, those that stay and those that go to another partition.
abbrev pub bindings_of : Frontier → List Binding
bindings_of f = f.local ++ map (λ (r : RemoteRef × Binding). r.1) f.remote

-- The parts of a membership, put together in another order.
sums :
    {out nextl all next local go answered reached later from : Type 0}
    → (out ↔ (all ⊎ later))
    → (all ↔ (nextl ⊎ go))
    → (nextl ↔ (next ⊎ local))
    → (answered ↔ (local ⊎ go))
    → (answered ↔ reached)
    → (from ↔ (reached ⊎ later))
    → out ↔ (next ⊎ from)
sums a b c d e f = ground (arith, a, b, c, d, e, f)

skip :
    {out next reached later from : Type 0}
    → (out ↔ (next ⊎ later))
    → (reached → ⊥)
    → (from ↔ (reached ⊎ later))
    → out ↔ (next ⊎ from)
skip a n f = ground (arith, a, n, f)

none_of_some : {A : Type 0} {o : Option A} {a : A} → o ≡ some a → o ≡ none → ⊥
none_of_some p q = cc

module _ (executor : ScatterGatherExecutor) (partitions : PartitionMap) (xxh3_64 : List ℕ → ℕ)
    (hop : ExpandHop) (reach : Binding → List Binding) where
  -- The binding is one hop away from one of the list.
  unfoldable pub IsReached : List Binding → Binding → Type 0
  IsReached bs b' = (b : Binding) × In b bs × In b' (reach b)

  -- Every node's partition has a healthy replica, and a replica that is asked about bindings whose nodes are
  -- on its partition answers with what is one hop away from them.
  pub record AnswersHop : Type 0 where
    pub replica_of :
        (node : NodeId)
        → (replica : ReplicaEndpoint) × (pick_replica partitions
              (hash_partition xxh3_64 executor.hasher node)
            ≡ some replica)
    pub answer :
        (partition : PartitionId) (replica : ReplicaEndpoint) (group : List Binding)
        → pick_replica partitions partition ≡ some replica
        → ((b : Binding) → In b group → IsAt xxh3_64 executor.hasher hop.from_alias partition b)
        → (f : Frontier) × (executor.rpc.expand_hop replica (PlanStep.expand_hop hop) group ≡ ok f)
          × ((b' : Binding) → In b' (bindings_of f) ↔ IsReached group b')

  IsHome : PartitionId × List Binding → Type 0
  IsHome entry =
      (b : Binding) → In b entry.1 → IsAt xxh3_64 executor.hasher hop.from_alias entry.0 b

  InGroups : List (PartitionId × List Binding) → Binding → Type 0
  InGroups groups b = (entry : PartitionId × List Binding) × In entry groups × In b entry.1

  ReachedFrom : List (PartitionId × List Binding) → Binding → Type 0
  ReachedFrom groups b' = (b : Binding) × InGroups groups b × In b' (reach b)

  InGroups-of_get :
      (groups : List (PartitionId × List Binding)) (partition : PartitionId) (b : Binding)
      → In b (or_default (get partition groups))
      → InGroups groups b
  unfolding InGroups
  InGroups-of_get groups partition b i = elim (Option-cases (get partition groups)) [
    | inl e ↦ absurd (subst (λ z. In b (or_default z)) e i)
    | inr (group, e) ↦ (
      (partition, group),
      In-of_get partition group groups e,
      subst (λ z. In b (or_default z)) e i,
    )
  ]

  InGroups-of_bound :
      (frontier : List Binding) (groups : List (PartitionId × List Binding))
      → IsGrouped xxh3_64 executor.hasher hop.from_alias [] frontier groups
      → AllBound xxh3_64 executor.hasher hop.from_alias frontier
      → (b : Binding) → In b frontier
      → InGroups groups b
  unfolding AllBound IsAt
  InGroups-of_bound frontier groups g h b i = elim (Option-cases (get hop.from_alias b.nodes)) [
    | inl e ↦ ground (arith, h b i)
    | inr (node, e) ↦
        let home = hash_partition xxh3_64 executor.hasher node in
        InGroups-of_get groups home b ((g.members home b).1 (inr (i, (node, e, refl))))
  ]

  ReachedFrom-cons :
      (partition : PartitionId) (group : List Binding) (groups : List (PartitionId × List Binding))
      (b' : Binding)
      → ReachedFrom ((partition, group) ∷ groups) b' ↔ (IsReached group b' ⊎ ReachedFrom groups b')
  unfolding ReachedFrom InGroups IsReached
  ReachedFrom-cons partition group groups b' = (
    λ (b, (e, i, k), j). elim i [
      | inl p ↦ inl (b, subst (λ (z : PartitionId × List Binding). In b z.1) p k, j)
      | inr l ↦ inr (b, (e, l, k), j)
    ],
    λ s. elim s [
      | inl (b, k, j) ↦ (b, ((partition, group), inl refl, k), j)
      | inr (b, (e, l, k), j) ↦ (b, (e, inr l, k), j)
    ],
  )

  module _ (answers : AnswersHop) where
    -- A group whose partition has no replica is empty.
    nobody :
        (partition : PartitionId) (group : List Binding)
        → pick_replica partitions partition ≡ none
        → IsHome (partition, group)
        → (b' : Binding) → IsReached group b'
        → ⊥
    unfolding IsHome IsReached IsAt
    nobody partition group e home b' (b, i, j) =
        let (node, f, p) = home b i in
        let (replica, picked) = answers.replica_of node in
        let missing = subst (λ z. pick_replica partitions z ≡ none) (sym p) e in
        none_of_some picked missing

    expand_groups-reaches :
        (groups : List (PartitionId × List Binding)) (next : List Binding)
        → ((entry : PartitionId × List Binding) → In entry groups → IsHome entry)
        → (out : List Binding) × (expand_groups executor partitions
              (PlanStep.expand_hop hop)
              groups
              next
            ≡ ok out)
          × ((b' : Binding) → In b' out ↔ (In b' next ⊎ ReachedFrom groups b'))
    unfolding expand_groups ReachedFrom InGroups IsHome
    expand_groups-reaches [] next home = (
      next,
      refl,
      λ b'. (λ i. inl i, λ i. elim i [ inl j ↦ j | inr (b, (e, n, k), j) ↦ absurd n ]),
    )
    expand_groups-reaches ((partition, group) ∷ groups) next home =
        elim (Option-cases (pick_replica partitions partition)) [
          | inl e ↦
              let (out, rest, later) = expand_groups-reaches groups next (λ x i. home x (inr i)) in
              (
                out,
                rw (e, expand_groups) rest,
                λ b'.
                    skip (later b')
                      (nobody partition group e (home (partition, group) (inl refl)) b')
                      (ReachedFrom-cons partition group groups b'),
              )
          | inr (replica, picked) ↦
              let (f, run, mem) =
                answers.answer partition replica group picked
                  (home (partition, group) (inl refl)) in
              let go = map (λ (r : RemoteRef × Binding). r.1) f.remote in
              let (out, rest, later) =
                expand_groups-reaches groups ((next ++ f.local) ++ go) (λ x i. home x (inr i)) in
              (
                out,
                rw (picked, run, expand_groups) rest,
                λ b'.
                    sums (later b') (In-append b' (next ++ f.local) go) (In-append b' next f.local)
                      (In-append b' f.local go) (mem b')
                      (ReachedFrom-cons partition group groups b'),
              )
        ]

    -- Where every node's partition has a replica that answers the hop, and every binding binds the
    -- alias that the hop starts from, a round returns exactly the bindings that are one hop away from
    -- one of the frontier.
    pub one_round-reaches :
        (frontier : List Binding)
        → AllBound xxh3_64 executor.hasher hop.from_alias frontier
        → (out : List Binding) × (one_round executor partitions xxh3_64
              (PlanStep.expand_hop hop)
              frontier
            ≡ ok out)
          × ((b' : Binding) → In b' out ↔ IsReached frontier b')
    unfolding one_round IsReached ReachedFrom InGroups IsHome
    one_round-reaches frontier h =
        let (groups, run, g) =
          group_by_owning_node_partition-IsGrouped xxh3_64 executor.hasher hop.from_alias frontier
            h in
        let entry_of : (e : PartitionId × List Binding) → In e groups → get e.0 groups ≡ some e.1 =
          λ e i. get_of_In e.0 e.1 groups g.unique i in
        let inside : (e : PartitionId × List Binding) (b : Binding)
            → In e groups
            → In b e.1
            → In b frontier × IsAt xxh3_64 executor.hasher hop.from_alias e.0 b =
          λ e b i j.
            elim ((g.members e.0 b).0 (subst (λ z. In b (or_default z)) (sym (entry_of e i)) j)) [
              | inl n ↦ absurd n
              | inr m ↦ m
            ] in
        let (out, rest, mem) = expand_groups-reaches groups [] (λ e i b j. (inside e b i j).1) in
        (
          out,
          rw (run, one_round) rest,
          λ b'. (
            λ i. elim ((mem b').0 i) [
              | inl n ↦ absurd n
              | inr (b, (e, i1, i2), j) ↦ (b, (inside e b i1 i2).0, j)
            ],
            λ (b, i, j). (mem b').1 (inr (b, InGroups-of_bound frontier groups g h b i, j)),
          ),
        )
