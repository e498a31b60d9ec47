-- ===== src/Examples/Hop.antt =====
-- Tests of a hop of length one on the test partition.
use doi.Prelude.{
  ℕ, [], ◌∷◌, ◌++◌, none, some, In, inl, inr, ◌↔◌, ◌≡◌, refl, sym, subst, map, get, string_eq,
  insert,
}
use doi.Dsl.{Direction}
use doi.Schema.Partitioning.{partition_of, stable_hash, to_le_bytes}
use doi.Index.{RemoteRef, out_neighbors}
use doi.Index.Scan.{assemble}
use doi.Index.Builder.{
  build_topology, collect_local, build_csr, flatten_buckets, bucket_edges, bucket_edge, push_at,
  entry,
}
use doi.Query.{ok, PlanStep, ExpandHop, Binding, Frontier}
use doi.Query.Local.{expand_hop}
use doi.Query.Local.Hop.Once.{AllStart, IsHop, expand_hop-IsHop}
use doi.Examples.{generation}

abbrev hop : ExpandHop
hop = record {
  from_alias = "a";
  to_alias = "b";
  to_label = some "Person";
  edge_type = some "KNOWS";
  direction = Direction.outgoing;
  hops = record { min = 1; max = 1 };
  filters = [];
  edge_alias = none;
}

abbrev at : ℕ → Binding
at a = record { nodes = ("a", a) ∷ []; edges = [] }

abbrev both : ℕ → ℕ → Binding
both a b = record { nodes = ("a", a) ∷ ("b", b) ∷ []; edges = [] }

expand_hop_test :
    expand_hop generation (PlanStep.expand_hop hop) (at 0 ∷ at 2 ∷ [])
    ≡ ok (record {
      local = both 0 2 ∷ [];
      remote = (record { partition = 1; node = 1 }, both 0 1) ∷ [];
    })
unfolding expand_hop out_neighbors assemble build_topology collect_local partition_of stable_hash
    to_le_bytes insert build_csr flatten_buckets bucket_edges bucket_edge push_at entry
expand_hop_test = refl

all_start : AllStart hop generation.topology (at 0 ∷ at 2 ∷ [])
all_start b (inl e) = (0, subst (λ z. get "a" z.nodes ≡ some 0) (sym e) refl)
all_start b (inr (inl e)) = (2, subst (λ z. get "a" z.nodes ≡ some 2) (sym e) refl)
all_start b (inr (inr i)) = absurd i

expand_hop-IsHop_example :
    (next : Frontier) × (expand_hop generation (PlanStep.expand_hop hop) (at 0 ∷ at 2 ∷ [])
      ≡ ok next)
    × ((b' : Binding)
        → In b' (next.local ++ map (λ (r : RemoteRef × Binding). r.1) next.remote)
          ↔ ((b : Binding) × In b (at 0 ∷ at 2 ∷ []) × IsHop hop generation.topology b b'))
expand_hop-IsHop_example =
    expand_hop-IsHop generation hop (at 0 ∷ at 2 ∷ []) refl refl refl all_start
