-- ===== src/Examples/Cluster.antt =====
-- Tests of the cluster's rebalancing and of schema evolution.
use doi.Prelude.{
  ℕ, ◌<◌, String, Bool, true, not, List, [], ◌∷◌, some, In, inl, inr, ◌⊎◌, ◌↔◌, ◌≡◌, refl, length,
  string_eq, ◌==◌, subst, sym,
}
use doi.Prelude.Sorting.{not_after, sort_by, insert_by}
use doi.Schema.{Schema}
use doi.Schema.Partitioning.{to_le_bytes}
use doi.Schema.Evolution.{compatible, diff, Extends, diff-compatible}
use doi.Cluster.{PartitionMap, PartitionMove, ReplicaEndpoint, SocketAddr}
use doi.Cluster.Rebalance.{RendezvousRebalancePlanner, as_bytes, rank, target_machines, plan}
use doi.Cluster.Rebalance.Targets.{scored, target_machines-best, target_machines-filter}
use doi.Cluster.Rebalance.Moves.{IsMoveTo, IsMissing, IsSpare, plan-moves}
use doi.Examples.{people, name_def}

-- the last byte of the text that is hashed: the name's last letter
abbrev last_byte : List ℕ → ℕ
last_byte [] = 0
last_byte (b ∷ []) = b
last_byte (b ∷ c ∷ bs) = last_byte (c ∷ bs)

abbrev machines : List String
machines = "m1" ∷ "m2" ∷ "m3" ∷ []

targets_run : target_machines last_byte 0 machines 2 ≡ "m3" ∷ "m2" ∷ []
unfolding target_machines sort_by insert_by as_bytes to_le_bytes
targets_run = refl

target_machines-best_example :
    (length (target_machines last_byte 0 machines 2) ≡ 2)
    × ((m : String) → In m (target_machines last_byte 0 machines 2) → In m machines)
    × ((m other : String)
        → In m (target_machines last_byte 0 machines 2)
        → In other machines
        → In other (target_machines last_byte 0 machines 2)
          ⊎ (not_after (rank (scored last_byte 0 m) (scored last_byte 0 other)) ≡ true))
target_machines-best_example = target_machines-best last_byte 0 2 machines

-- all but the machine that hosts nothing
abbrev not_m1 : String → Bool
not_m1 m = not (m == "m1")

targets-stay : (m : String) → In m (target_machines last_byte 0 machines 2) → not_m1 m ≡ true
targets-stay m i = elim (subst (λ z. In m z) targets_run i) [
  | inl e ↦ subst (λ z. not_m1 z ≡ true) (sym e) refl
  | inr (inl e) ↦ subst (λ z. not_m1 z ≡ true) (sym e) refl
  | inr (inr n) ↦ absurd n
]

target_machines-filter_example :
    target_machines last_byte 0 ("m2" ∷ "m3" ∷ []) 2 ≡ target_machines last_byte 0 machines 2
target_machines-filter_example = target_machines-filter last_byte 0 2 machines not_m1 targets-stay

abbrev replica : String → ReplicaEndpoint
replica name = record { replica = name; address = SocketAddr.v4 0 80; healthy = true }

-- partition 0 on the first two machines
abbrev current : PartitionMap
current = record { replicas_by_partition = (0, replica "m1" ∷ replica "m2" ∷ []) ∷ [] }

abbrev planner : RendezvousRebalancePlanner
planner = record { n_partitions = 1; replication_factor = 2 }

plan-moves_example :
    ((partition : ℕ) (machine : String)
      → ((move : PartitionMove) × In move (plan last_byte planner current machines).moves
          × IsMoveTo partition machine move)
        ↔ ((partition < 1) × IsMissing last_byte current machines 2 partition machine))
    × ((move : PartitionMove) (r : String)
        → In move (plan last_byte planner current machines).moves
        → move.from_machine ≡ some r
        → IsSpare last_byte current machines 2 move.partition r)
plan-moves_example = plan-moves last_byte current planner machines

-- without the ages
abbrev fewer : Schema
fewer = record people {
  nodes = ("Person", record { label = "Person"; properties = name_def ∷ [] }) ∷ [];
}

diff-compatible_example : (diff fewer people ≡ compatible) ↔ Extends fewer people
diff-compatible_example = diff-compatible fewer people
