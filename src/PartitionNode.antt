-- ===== src/PartitionNode.antt =====
-- graph-engine/bin/graph-partition-node/src/rebuild.rs, without its logs and metrics. A tick finds
-- the reader in some state and the clock at some time; the loop runs over the ticks so far.
pub mod Serving
pub mod Convert
pub mod Service
pub mod Config
use doi.Prelude.{ℕ, String, List, [], ◌∷◌, Result, ok, err}
use doi.Prelude.Int.{ℤ}
use doi.Schema.{Label, Schema}
use doi.Storage.{IcebergReader}
use doi.Index.{PartitionId, IndexGeneration, GenerationHandle, swap}
use doi.Index.Scan.{IcebergIndexBuilder, RebuildError, build}

module _ (xxh3_64 : List ℕ → ℕ) (to_lowercase : String → String) where
  abbrev pub bootstrap :
      (now_unix_ms : ℤ)
      → IcebergIndexBuilder
      → PartitionId
      → List Label
      → Result RebuildError IndexGeneration
  bootstrap now_unix_ms builder partition labels =
      build xxh3_64 now_unix_ms to_lowercase builder partition labels

  -- `match result`
  abbrev pub install : Result RebuildError IndexGeneration → GenerationHandle → GenerationHandle
  install (ok generation) handle = swap generation handle
  install (err _) handle = handle

  unfoldable pub periodic_rebuild_loop :
      (schema : Schema) (n_partitions : ℕ)
      → PartitionId
      → List Label
      → List (IcebergReader × ℤ)
      → GenerationHandle
      → GenerationHandle
  periodic_rebuild_loop schema n_partitions partition labels [] handle = handle
  periodic_rebuild_loop schema n_partitions partition labels ((reader, now_unix_ms) ∷ ticks)
        handle =
      let builder : IcebergIndexBuilder = record {
        reader = reader;
        schema = schema;
        n_partitions = n_partitions;
      } in
      periodic_rebuild_loop schema n_partitions partition labels ticks
        (install (build xxh3_64 now_unix_ms to_lowercase builder partition labels) handle)
