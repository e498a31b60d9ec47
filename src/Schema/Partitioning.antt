-- ===== src/Schema/Partitioning.antt =====
-- graph-engine/crates/graph-schema/src/partitioning.rs. xxh3 is a third-party hash of bytes: the
-- parameter `xxh3_64`. With `n_partitions` = 0 the source panics, so theorems assume more.
use doi.Prelude.{ℕ, ◌/◌, ◌%◌, ◌^◌, zero, suc, List, [], ◌∷◌}
use doi.Schema.{NodeId}

-- `to_le_bytes` of a number of `width` bytes
unfoldable pub to_le_bytes : (width : ℕ) → ℕ → List ℕ
to_le_bytes zero n = []
to_le_bytes (suc width) n = (n % 256) ∷ to_le_bytes width (n / 256)

module _ (xxh3_64 : List ℕ → ℕ) where
  unfoldable pub stable_hash : ℕ → ℕ
  stable_hash node_id = xxh3_64 (to_le_bytes 8 node_id)

  unfoldable pub partition_of : NodeId → (n_partitions : ℕ) → ℕ
  partition_of node_id n_partitions = stable_hash node_id % n_partitions % 2 ^ 32
