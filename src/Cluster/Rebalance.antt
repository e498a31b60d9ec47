-- ===== src/Cluster/Rebalance.antt =====
-- graph-engine/crates/graph-cluster/src/rebalance.rs: rendezvous hashing. A `HashSet` of names is a
-- list without repetition. xxh3 is a third-party hash of bytes: the parameter `xxh3_64`.
pub mod Targets
pub mod Moves
use Prim.Native.Nat.{compare as compare_ℕ, Ordering}
use Prim.Native.Char.{code}
use Prim.Native.String.{String, [], ◌∷◌}
use doi.Prelude.{
  ℕ, zero, suc, ◌+◌, ◌/◌, ◌%◌, Bool, not, List, [], ◌∷◌, ◌++◌, Option, none, some, map, filter, any,
  take, length, get, leb, ltb, string_eq, nat_eq, ◌==◌, if◌then◌else◌,
}
use doi.Prelude.Order.{reverse, then_with, string_ord}
use doi.Prelude.Sorting.{sort_by}
use doi.Schema.Partitioning.{to_le_bytes}
use doi.Index.{PartitionId}
use doi.Cluster.{ReplicaEndpoint, PartitionMap, PartitionMove, RebalancePlan}

pub record RendezvousRebalancePlanner : Type 0 where
  pub n_partitions : ℕ
  pub replication_factor : ℕ

-- UTF-8
abbrev pub utf8 : ℕ → List ℕ
utf8 c =
    if ltb c 0x80
    then c ∷ []
    else if ltb c 0x800
    then (0xc0 + c / 0x40) ∷ (0x80 + c % 0x40) ∷ []
    else if ltb c 0x10000
    then (0xe0 + c / 0x1000) ∷ (0x80 + c / 0x40 % 0x40) ∷ (0x80 + c % 0x40) ∷ []
    else (0xf0 + c / 0x40000)
      ∷ (0x80 + c / 0x1000 % 0x40)
      ∷ (0x80 + c / 0x40 % 0x40)
      ∷ (0x80 + c % 0x40)
      ∷ []

unfoldable pub as_bytes : String → List ℕ
as_bytes [] = []
as_bytes (c ∷ s) = utf8 (code c) ++ as_bytes s

abbrev pub min : ℕ → ℕ → ℕ
min a b = if leb a b then a else b

-- the names of the replicas, as a set
abbrev pub name_set : List ReplicaEndpoint → List String
name_set [] = []
name_set (r ∷ rs) =
    let rest = name_set rs in if any (λ m. m == r.replica) rest then rest else r.replica ∷ rest

abbrev pub current_machines : PartitionMap → PartitionId → List String
current_machines current partition = elim (get partition current.replicas_by_partition) [
  | none ↦ []
  | some replicas ↦ name_set replicas
]

abbrev pub contains : List String → String → Bool
contains names name = any (λ m. m == name) names

-- the loop over `to_add`, which draws from `removes`
unfoldable pub pair_moves : PartitionId → (to_add removes : List String) → List PartitionMove
pair_moves partition [] removes = []
pair_moves partition (add ∷ to_add) [] =
    record { partition = partition; from_machine = none; to_machine = add }
    ∷ pair_moves partition to_add []
pair_moves partition (add ∷ to_add) (r ∷ removes) =
    record { partition = partition; from_machine = some r; to_machine = add }
    ∷ pair_moves partition to_add removes

-- the comparison of the sort: descending score, then name
abbrev pub rank : ℕ × String → ℕ × String → Ordering
rank a b = then_with (compare_ℕ b.0 a.0) (string_ord.cmp a.1 b.1)

module _ (xxh3_64 : List ℕ → ℕ) where
  abbrev pub rendezvous_score : PartitionId → String → ℕ
  rendezvous_score partition machine = xxh3_64 (to_le_bytes 4 partition ++ as_bytes machine)

  unfoldable pub target_machines :
      PartitionId → (available_machines : List String) → (replication_factor : ℕ) → List String
  target_machines partition available_machines replication_factor =
      map (λ (scored : ℕ × String). scored.1)
        (take replication_factor
          (sort_by rank (map (λ m. (rendezvous_score partition m, m)) available_machines)))

  -- the body of the loop over the partitions
  unfoldable pub moves_of :
      PartitionMap → List String → (replication_factor : ℕ) → PartitionId → List PartitionMove
  unfolding target_machines
  moves_of current available_machines replication_factor partition =
      let target = target_machines partition available_machines replication_factor in
      let machines = current_machines current partition in
      let to_add = filter (λ m. not (contains machines m)) target in
      let to_remove = filter (λ m. not (contains target m)) machines in
      pair_moves partition (sort_by string_ord.cmp to_add) (sort_by string_ord.cmp to_remove)

  -- `for i in 0..n_partitions`, with the number of rounds that are left
  unfoldable pub moves_from :
      PartitionMap → List String → (replication_factor left i : ℕ) → List PartitionMove
  unfolding moves_of
  moves_from current available_machines replication_factor zero i = []
  moves_from current available_machines replication_factor (suc left) i =
      moves_of current available_machines replication_factor i
      ++ moves_from current available_machines replication_factor left (suc i)

  unfoldable pub plan :
      RendezvousRebalancePlanner → PartitionMap → (available_machines : List String) → RebalancePlan
  unfolding moves_from
  plan planner current available_machines = elim available_machines [
    | [] ↦ record { moves = [] }
    | m ∷ ms ↦ record {
      moves =
          moves_from current (m ∷ ms) (min planner.replication_factor (length (m ∷ ms)))
            planner.n_partitions 0;
    }
  ]
