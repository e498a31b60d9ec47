-- ===== src/Query/Distributed/Groups.antt =====
-- graph-engine/crates/graph-query/src/distributed_executor.rs, `group_by_owning_node_partition`.
use doi.Prelude.{
  ℕ, String, true, List, [], ◌∷◌, ◌++◌, some, get, or_default, is_some, entry_push, get-entry_push,
  KeysUnique, entry_push-KeysUnique, nat_eq, string_eq, ◌==◌, ==_iff, In, inl, inr, ◌⊎◌, ◌↔◌, ◌≡◌,
  refl, sym, ap, ◌∙◌, subst, arith, Bool-cases, Option-cases, In-append, some-inj,
}
use doi.Schema.{NodeId}
use doi.Index.{PartitionId}
use doi.Cluster.{PartitionHasher, hash_partition}
use doi.Query.{ok, Binding}
use doi.Query.Distributed.{group_bindings, group_by_owning_node_partition}

module _ (xxh3_64 : List ℕ → ℕ) (hasher : PartitionHasher) (alias : String) where
  -- The node under the alias hashes to the partition.
  unfoldable pub IsAt : PartitionId → Binding → Type 0
  IsAt partition b =
      (node : NodeId) × (get alias b.nodes ≡ some node)
      × (hash_partition xxh3_64 hasher node ≡ partition)

  unfoldable pub AllBound : List Binding → Type 0
  AllBound frontier = (b : Binding) → In b frontier → is_some (get alias b.nodes) ≡ true

  -- The groups hold each binding of the frontier at the partition of its node, and no other.
  pub record IsGrouped (before : List (PartitionId × List Binding)) (frontier : List Binding)
      (groups : List (PartitionId × List Binding)) : Type 0 where
    pub unique : KeysUnique groups
    pub members :
        (partition : PartitionId) (b : Binding)
        → In b (or_default (get partition groups))
          ↔ (In b (or_default (get partition before)) ⊎ (In b frontier × IsAt partition b))

  In-entry_push_here :
      (home : PartitionId) (x b : Binding) (groups : List (PartitionId × List Binding))
      → In b (or_default (get home (entry_push home x groups)))
        ↔ (In b (or_default (get home groups)) ⊎ (b ≡ x))
  In-entry_push_here home x b groups =
      let old = or_default (get home groups) in
      let pushed : get home (entry_push home x groups) ≡ some (old ++ x ∷ []) =
        ground (arith, get-entry_push home home x groups, ==_iff home home) in
      rw pushed (
        λ i. elim ((In-append b old (x ∷ [])).0 i) [
          | inl j ↦ inl j
          | inr (inl e) ↦ inr e
          | inr (inr n) ↦ absurd n
        ],
        λ i. (In-append b old (x ∷ [])).1 (elim i [ inl j ↦ inl j | inr e ↦ inr (inl e) ]),
      )

  In-entry_push :
      (home partition : PartitionId) (x b : Binding) (groups : List (PartitionId × List Binding))
      → In b (or_default (get partition (entry_push home x groups)))
        ↔ (In b (or_default (get partition groups)) ⊎ ((b ≡ x) × (home ≡ partition)))
  In-entry_push home partition x b groups = elim (Bool-cases (home == partition)) [
    | inl e ↦
        let p : home ≡ partition = (==_iff home partition).0 e in
        let here = In-entry_push_here home x b groups in
        (
          λ i.
              elim (here.0
                (subst (λ z. In b (or_default (get z (entry_push home x groups)))) (sym p) i)) [
                  | inl j ↦ inl (subst (λ z. In b (or_default (get z groups))) p j)
                  | inr q ↦ inr (q, p)
                ],
          λ i.
              subst (λ z. In b (or_default (get z (entry_push home x groups)))) p
                (here.1 (elim i [
                  | inl j ↦ inl (subst (λ z. In b (or_default (get z groups))) (sym p) j)
                  | inr q ↦ inr q.0
                ])),
        )
    | inr e ↦ ground (arith, get-entry_push home partition x groups, ==_iff home partition)
  ]

  IsGrouped-cons :
      (x : Binding) (frontier : List Binding) (before groups : List (PartitionId × List Binding))
      (node : NodeId)
      → get alias x.nodes ≡ some node
      → IsGrouped (entry_push (hash_partition xxh3_64 hasher node) x before) frontier groups
      → IsGrouped before (x ∷ frontier) groups
  unfolding IsAt
  IsGrouped-cons x frontier before groups node e g =
      let home = hash_partition xxh3_64 hasher node in
      record {
        unique = g.unique;
        members = λ partition b.
            let pushed = In-entry_push home partition x b before in
            (
              λ i. elim ((g.members partition b).0 i) [
                | inl j ↦ elim (pushed.0 j) [
                  | inl k ↦ inl k
                  | inr k ↦ inr (
                    inl k.0,
                    (node, subst (λ (z : Binding). get alias z.nodes ≡ some node) (sym k.0) e, k.1),
                  )
                ]
                | inr j ↦ inr (inr j.0, j.1)
              ],
              λ i. (g.members partition b).1 (elim i [
                | inl j ↦ inl (pushed.1 (inl j))
                | inr (inl k, (n, f, p)) ↦ inl (
                    pushed.1 (
                      inr (
                        k,
                        ap (hash_partition xxh3_64 hasher) (
                              some-inj
                                (sym e ∙ ap (λ (z : Binding). get alias z.nodes) (sym k) ∙ f))
                            ∙ p,
                      )))
                | inr (inr k, at) ↦ inr (k, at)
              ]),
            );
      }

  group_bindings-IsGrouped :
      (frontier : List Binding) (before : List (PartitionId × List Binding))
      → KeysUnique before
      → AllBound frontier
      → (groups : List (PartitionId × List Binding)) × (group_bindings xxh3_64 hasher alias frontier
            before
          ≡ ok groups)
        × IsGrouped before frontier groups
  unfolding group_bindings AllBound
  group_bindings-IsGrouped [] before u h = (
    before,
    refl,
    record {
      unique = u;
      members = λ partition b. (λ i. inl i, λ i. elim i [ inl j ↦ j | inr j ↦ absurd j.0 ]);
    },
  )
  group_bindings-IsGrouped (x ∷ frontier) before u h = elim (Option-cases (get alias x.nodes)) [
    | inl e ↦ ground (arith, h x (inl refl))
    | inr (node, e) ↦
        let home = hash_partition xxh3_64 hasher node in
        let (groups, run, g) =
          group_bindings-IsGrouped frontier (entry_push home x before)
            (entry_push-KeysUnique home x before u) (λ b i. h b (inr i)) in
        (groups, rw (e, group_bindings) run, IsGrouped-cons x frontier before groups node e g)
  ]

  -- Where every binding binds the alias, the grouping returns; each binding of the frontier stands in
  -- the group of the partition that its node hashes to, and in no other, and no partition has two
  -- groups.
  pub group_by_owning_node_partition-IsGrouped :
      (frontier : List Binding)
      → AllBound frontier
      → (groups : List (PartitionId × List Binding)) × (group_by_owning_node_partition xxh3_64
            hasher frontier alias
          ≡ ok groups)
        × IsGrouped [] frontier groups
  unfolding group_by_owning_node_partition
  group_by_owning_node_partition-IsGrouped frontier h = group_bindings-IsGrouped frontier [] tt h
