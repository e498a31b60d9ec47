-- ===== src/Cluster/Rebalance/Moves.antt =====
-- graph-engine/crates/graph-cluster/src/rebalance.rs, `plan`.
use doi.Prelude.{
  ℕ, zero, suc, ◌+◌, ◌≤◌, ◌<◌, String, true, not, List, [], ◌∷◌, none, some, filter, length,
  string_eq, nat_eq, ◌==◌, ==_iff, In, inl, inr, ◌↔◌, ◌≡◌, refl, sym, ap, ◌∙◌, subst, arith,
  Bool-cases, In-filter, In-append, some-inj,
}
use doi.Prelude.Order.{string_ord}
use doi.Prelude.Sorting.{sort_by, In-sort_by}
use doi.Index.{PartitionId}
use doi.Cluster.{PartitionMap, PartitionMove}
use doi.Cluster.Rebalance.{
  RendezvousRebalancePlanner, min, contains, current_machines, pair_moves, target_machines,
  moves_of, moves_from, plan,
}
use doi.Cluster.Rebalance.Targets.{target_machines-best, target_machines-min}

-- A move of the partition to the machine.
pub IsMoveTo : PartitionId → String → PartitionMove → Type 0
IsMoveTo partition machine move = (move.partition ≡ partition) × (move.to_machine ≡ machine)

contains-In : (names : List String) (name : String) → (contains names name ≡ true) ↔ In name names
contains-In [] name = (λ h. cc, λ i. absurd i)
contains-In (n ∷ names) name = ground (arith, ==_iff n name, contains-In names name)

In-missing :
    (names others : List String) (name : String)
    → In name (filter (λ m. not (contains others m)) names) ↔ (In name names × (In name others → ⊥))
In-missing names others name =
    ground (arith, In-filter (λ m. not (contains others m)) name names, contains-In others name)

pair_moves-to :
    (partition : PartitionId) (to_add removes : List String) (machine : String)
    → In machine to_add
    → (move : PartitionMove) × In move (pair_moves partition to_add removes)
      × IsMoveTo partition machine move
unfolding pair_moves IsMoveTo
pair_moves-to partition [] removes machine i = absurd i
pair_moves-to partition (add ∷ to_add) [] machine (inl e) = (
  record { partition = partition; from_machine = none; to_machine = add },
  inl refl,
  (refl, sym e),
)
pair_moves-to partition (add ∷ to_add) [] machine (inr i) =
    let (move, j, p) = pair_moves-to partition to_add [] machine i in (move, inr j, p)
pair_moves-to partition (add ∷ to_add) (r ∷ removes) machine (inl e) = (
  record { partition = partition; from_machine = some r; to_machine = add },
  inl refl,
  (refl, sym e),
)
pair_moves-to partition (add ∷ to_add) (r ∷ removes) machine (inr i) =
    let (move, j, p) = pair_moves-to partition to_add removes machine i in (move, inr j, p)

In-pair_moves :
    (partition : PartitionId) (to_add removes : List String) (move : PartitionMove)
    → In move (pair_moves partition to_add removes)
    → (move.partition ≡ partition)
      × In move.to_machine to_add
      × ((r : String) → move.from_machine ≡ some r → In r removes)
unfolding pair_moves
In-pair_moves partition [] removes move i = absurd i
In-pair_moves partition (add ∷ to_add) [] move (inl e) = (
  ap (λ (m : PartitionMove). m.partition) e,
  inl (ap (λ (m : PartitionMove). m.to_machine) e),
  λ r h. cc (ap (λ (m : PartitionMove). m.from_machine) e),
)
In-pair_moves partition (add ∷ to_add) [] move (inr i) =
    let (p, t, f) = In-pair_moves partition to_add [] move i in (p, inr t, f)
In-pair_moves partition (add ∷ to_add) (r ∷ removes) move (inl e) = (
  ap (λ (m : PartitionMove). m.partition) e,
  inl (ap (λ (m : PartitionMove). m.to_machine) e),
  λ q h. inl (some-inj (sym h ∙ ap (λ (m : PartitionMove). m.from_machine) e)),
)
In-pair_moves partition (add ∷ to_add) (r ∷ removes) move (inr i) =
    let (p, t, f) = In-pair_moves partition to_add removes move i in (p, inr t, λ q h. inr (f q h))

module _ (xxh3_64 : List ℕ → ℕ) (current : PartitionMap) where
  -- The machine should host the partition and does not.
  pub IsMissing : (machines : List String) (k : ℕ) → PartitionId → String → Type 0
  IsMissing machines k partition machine =
      In machine (target_machines xxh3_64 partition machines k)
      × (In machine (current_machines current partition) → ⊥)

  -- The machine hosts the partition and should not.
  pub IsSpare : (machines : List String) (k : ℕ) → PartitionId → String → Type 0
  IsSpare machines k partition machine =
      In machine (current_machines current partition)
      × (In machine (target_machines xxh3_64 partition machines k) → ⊥)

  IsJustified : (machines : List String) (k : ℕ) → PartitionMove → Type 0
  IsJustified machines k move =
      IsMissing machines k move.partition move.to_machine
      × ((r : String) → move.from_machine ≡ some r → IsSpare machines k move.partition r)

  module _ (machines : List String) (k : ℕ) where
    moves_of-to :
        (partition : PartitionId) (machine : String)
        → IsMissing machines k partition machine
        → (move : PartitionMove) × In move (moves_of xxh3_64 current machines k partition)
          × IsMoveTo partition machine move
    unfolding moves_of IsMissing
    moves_of-to partition machine m =
        let target = target_machines xxh3_64 partition machines k in
        let hosts = current_machines current partition in
        pair_moves-to partition _ _ machine (
          (In-sort_by string_ord.cmp machine (filter (λ m. not (contains hosts m)) target)).1
            ((In-missing target hosts machine).1 m))

    In-moves_of :
        (partition : PartitionId) (move : PartitionMove)
        → In move (moves_of xxh3_64 current machines k partition)
        → (move.partition ≡ partition) × IsJustified machines k move
    unfolding moves_of IsMissing IsSpare IsJustified
    In-moves_of partition move i =
        let target = target_machines xxh3_64 partition machines k in
        let hosts = current_machines current partition in
        let to_add = filter (λ m. not (contains hosts m)) target in
        let to_remove = filter (λ m. not (contains target m)) hosts in
        let (p, t, f) =
          In-pair_moves partition (sort_by string_ord.cmp to_add) (sort_by string_ord.cmp to_remove)
            move i in
        let missing =
          (In-missing target hosts move.to_machine).0
            ((In-sort_by string_ord.cmp move.to_machine to_add).0 t) in
        let spare : (r : String) → move.from_machine ≡ some r → In r hosts × (In r target → ⊥) =
          λ r e.
            (In-missing hosts target r).0 ((In-sort_by string_ord.cmp r to_remove).0 (f r e)) in
        (
          p,
          subst
              (λ q.
                ((In move.to_machine (target_machines xxh3_64 q machines k))
                  × (In move.to_machine (current_machines current q) → ⊥))
                × ((r : String)
                    → move.from_machine ≡ some r
                    → (In r (current_machines current q))
                      × (In r (target_machines xxh3_64 q machines k) → ⊥)))
              (sym p) (missing, spare),
        )

    In-moves_from :
        (left i : ℕ) (move : PartitionMove)
        → In move (moves_from xxh3_64 current machines k left i)
        → (i ≤ move.partition) × (move.partition < i + left) × IsJustified machines k move
    unfolding moves_from
    In-moves_from zero i move h = absurd h
    In-moves_from (suc left) i move h =
        elim ((In-append move (moves_of xxh3_64 current machines k i)
            (moves_from xxh3_64 current machines k left (suc i))).0
          h) [
            | inl l ↦ let (p, j) = In-moves_of i move l in (omega (arith, p), omega (arith, p), j)
            | inr r ↦
                let (low, high, j) = In-moves_from left (suc i) move r in
                (omega arith, omega arith, j)
          ]

    moves_from-to :
        (left i partition : ℕ) (machine : String)
        → i ≤ partition
        → partition < i + left
        → IsMissing machines k partition machine
        → (move : PartitionMove) × In move (moves_from xxh3_64 current machines k left i)
          × IsMoveTo partition machine move
    unfolding moves_from
    moves_from-to zero i partition machine low high m = absurd (omega arith)
    moves_from-to (suc left) i partition machine low high m = elim (Bool-cases (partition == i)) [
      | inl e ↦
          let (move, j, t) = moves_of-to partition machine m in
          (
            move,
            (In-append move (moves_of xxh3_64 current machines k i)
                  (moves_from xxh3_64 current machines k left (suc i))).1
                (inl (
                  subst (λ q. In move (moves_of xxh3_64 current machines k q))
                    ((==_iff partition i).0 e) j)),
            t,
          )
      | inr e ↦
          let (move, j, t) =
            moves_from-to left (suc i) partition machine (ground (arith, ==_iff partition i))
              (omega arith) m in
          (
            move,
            (In-append move (moves_of xxh3_64 current machines k i)
                  (moves_from xxh3_64 current machines k left (suc i))).1
                (inr j),
            t,
          )
    ]

  IsMissing-of_move :
      (machines : List String) (k : ℕ) (partition : PartitionId) (machine : String)
      (move : PartitionMove)
      → IsMoveTo partition machine move
      → IsMissing machines k move.partition move.to_machine
      → IsMissing machines k partition machine
  unfolding IsMoveTo
  IsMissing-of_move machines k partition machine move t m =
      subst (λ q. IsMissing machines k partition q) t.1
        (subst (λ q. IsMissing machines k q move.to_machine) t.0 m)

  module _ (machines : List String) (k : ℕ) where
    IsMissing-min :
        (partition : PartitionId) (machine : String)
        → IsMissing machines (min k (length machines)) partition machine
          ↔ IsMissing machines k partition machine
    unfolding IsMissing
    IsMissing-min partition machine =
        let e = target_machines-min xxh3_64 partition k machines in
        (
          λ h. (subst (λ z. In machine z) e h.0, h.1),
          λ h. (subst (λ z. In machine z) (sym e) h.0, h.1),
        )

    IsSpare-min :
        (partition : PartitionId) (machine : String)
        → IsSpare machines (min k (length machines)) partition machine
        → IsSpare machines k partition machine
    unfolding IsSpare
    IsSpare-min partition machine h = (
      h.0,
      λ i.
          h.1
            (subst (λ z. In machine z) (sym (target_machines-min xxh3_64 partition k machines)) i),
    )

  -- The plan has a move of a partition to a machine exactly where the partition exists, its target
  -- has the machine, and the machine does not host it yet; and what a move takes a partition from
  -- is a machine that hosts it and is not in its target.
  pub plan-moves :
      (planner : RendezvousRebalancePlanner) (machines : List String)
      → let moves = (plan xxh3_64 planner current machines).moves in
        ((partition : PartitionId) (machine : String)
          → ((move : PartitionMove) × In move moves × IsMoveTo partition machine move) ↔ (
              (partition < planner.n_partitions)
              × IsMissing machines planner.replication_factor partition machine))
        × ((move : PartitionMove) (r : String)
            → In move moves
            → move.from_machine ≡ some r
            → IsSpare machines planner.replication_factor move.partition r)
  unfolding plan IsMissing IsMoveTo IsJustified
  plan-moves planner [] = (
    λ partition machine. (
      λ (move, i, t). absurd i,
      λ (low, m).
          absurd
            ((target_machines-best xxh3_64 partition planner.replication_factor []).1 machine m.0),
    ),
    λ move r i. absurd i,
  )
  plan-moves planner (m ∷ ms) =
      let machines = m ∷ ms in
      let k = planner.replication_factor in
      let n = planner.n_partitions in
      let small = min k (length machines) in
      (
        λ partition machine. (
          λ (move, i, t).
              let (low, high, j) = In-moves_from machines small n 0 move i in
              (
                omega (arith, t.0),
                (IsMissing-min machines k partition machine).0
                    (IsMissing-of_move machines small partition machine move t j.0),
              ),
          λ (low, h).
              moves_from-to machines small n 0 partition machine (omega arith) (omega arith)
                ((IsMissing-min machines k partition machine).1 h),
        ),
        λ move r i e.
            IsSpare-min machines k move.partition r
              ((In-moves_from machines small n 0 move i).2.1 r e),
      )
