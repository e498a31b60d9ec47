-- ===== src/PartitionNode/Serving.antt =====
-- graph-engine/bin/graph-partition-node/src/rebuild.rs: what is served while the loop runs.
use doi.Prelude.{
  ℕ, ◌≤◌, ◌<◌, String, List, [], ◌∷◌, Result, ok, Result-cases, In, inl, inr, ◌⊎◌, ◌≡◌, refl, sym,
  subst,
}
use doi.Prelude.Int.{ℤ}
use doi.Schema.{Label, Schema}
use doi.Storage.{IcebergReader}
use doi.Index.{PartitionId, IndexGeneration, GenerationHandle, swap, acquire}
use doi.Index.Builder.{u32_mod}
use doi.Index.Scan.{RebuildError, build}
use doi.Index.Scan.Owned.{IsOwnedBy, build-IsOwnedBy}
use doi.PartitionNode.{periodic_rebuild_loop}

module _ (xxh3_64 : List ℕ → ℕ) (to_lowercase : String → String) (schema : Schema)
    (n_partitions : ℕ) (partition : PartitionId) (labels : List Label) where
  abbrev pub rebuild : IcebergReader × ℤ → Result RebuildError IndexGeneration
  rebuild tick =
      build xxh3_64 tick.1 to_lowercase
        (record { reader = tick.0; schema = schema; n_partitions = n_partitions }) partition labels

  -- What the ticks build is within the index's 32 bits.
  unfoldable pub AreSmall : List (IcebergReader × ℤ) → Type 0
  AreSmall ticks =
      (tick : IcebergReader × ℤ) (generation : IndexGeneration)
      → In tick ticks
      → rebuild tick ≡ ok generation
      → (generation.meta.node_count ≤ u32_mod) × (generation.meta.edge_count < u32_mod)

  -- The first generation, or one that a tick built.
  pub IsBuilt : List (IcebergReader × ℤ) → IndexGeneration → IndexGeneration → Type 0
  IsBuilt ticks first generation =
      (generation ≡ first)
      ⊎ ((tick : IcebergReader × ℤ) × In tick ticks × (rebuild tick ≡ ok generation))

  IsBuilt-later :
      (tick : IcebergReader × ℤ) (ticks : List (IcebergReader × ℤ)) (first served : IndexGeneration)
      → IsBuilt ticks first served
      → IsBuilt (tick ∷ ticks) first served
  unfolding IsBuilt
  IsBuilt-later tick ticks first served (inl e) = inl e
  IsBuilt-later tick ticks first served (inr (t, i, e)) = inr (t, inr i, e)

  IsBuilt-next :
      (tick : IcebergReader × ℤ) (ticks : List (IcebergReader × ℤ))
      (g first served : IndexGeneration)
      → rebuild tick ≡ ok g
      → IsBuilt ticks g served
      → IsBuilt (tick ∷ ticks) first served
  unfolding IsBuilt
  IsBuilt-next tick ticks g first served f (inl e) =
      inr (tick, inl refl, subst (λ z. rebuild tick ≡ ok z) (sym e) f)
  IsBuilt-next tick ticks g first served f (inr (t, i, e)) = inr (t, inr i, e)

  -- Whatever builds fail, and as long as those that succeed are within the index's 32 bits, a
  -- partition that starts to serve a generation of its own always serves one: the first, or one that a
  -- tick built without an error.
  pub periodic_rebuild_loop-serves :
      (ticks : List (IcebergReader × ℤ)) (handle : GenerationHandle)
      → AreSmall ticks
      → IsOwnedBy xxh3_64 n_partitions partition (acquire handle)
      → let served = acquire (
          periodic_rebuild_loop xxh3_64 to_lowercase schema n_partitions partition labels ticks
            handle) in
        IsBuilt ticks (acquire handle) served × IsOwnedBy xxh3_64 n_partitions partition served
  unfolding periodic_rebuild_loop IsBuilt acquire swap AreSmall
  periodic_rebuild_loop-serves [] handle small own = (inl refl, own)
  periodic_rebuild_loop-serves ((reader, now) ∷ ticks) handle small own =
      let later : AreSmall ticks = λ tick g i. small tick g (inr i) in
      elim (Result-cases (rebuild (reader, now))) [
        | inl (e, f) ↦ rw f (
            let (built, owned) = periodic_rebuild_loop-serves ticks handle later own in
            (IsBuilt-later (reader, now) ticks _ _ built, owned))
        | inr (g, f) ↦ rw f (
            let fits = small (reader, now) g (inl refl) f in
            let (built, owned) = periodic_rebuild_loop-serves ticks (swap g handle) later (
              build-IsOwnedBy to_lowercase xxh3_64 now
                (record { reader = reader; schema = schema; n_partitions = n_partitions }) partition
                labels g f fits.0 fits.1) in
            (IsBuilt-next (reader, now) ticks g _ _ f built, owned))
      ]
