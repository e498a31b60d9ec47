-- ===== src/Index/Scan/Owned.antt =====
-- graph-engine/crates/graph-index/src/builder.rs, `build`: what a partition holds.
use doi.Prelude.{
  ℕ, ◌≤◌, ◌<◌, String, Bool, true, false, List, [], ◌∷◌, some, Result, ok, ◌>>=◌, >>=-eq-ok, map,
  filter, length, get, contains_key, collect_into, contains_key-collect_into, In-of_collect_into,
  nat_eq, ◌==◌, ==_iff, if◌then◌else◌, In, inl, inr, ◌||◌, insert, get-insert, ◌≡◌, refl, sym, ap,
  ◌∙◌, subst, arith, Bool-cases, In-filter, In-of_map, In-map, In-of_filter_map, In-of_any,
}
use doi.Prelude.Int.{ℤ}
use doi.Schema.{NodeId, EdgeId, Label, EdgeType}
use doi.Schema.Partitioning.{partition_of}
use doi.Storage.{SnapshotId, NodeRow, EdgeRow}
use doi.Index.{
  PartitionId, AdjacencyEntry, NodeRecord, EdgeRecord, IndexGeneration, out_neighbors, contains,
}
use doi.Index.Builder.{u32_mod, build_topology}
use doi.Index.Builder.Table.{member, contains_key-table}
use doi.Index.Builder.Adjacency.{ids_of, seen_from, incident, neighbors-build_topology}
use doi.Index.Scan.{IcebergIndexBuilder, read_nodes, read_edges, is_owned, assemble, build}

or_false : (b : Bool) → (b || false) ≡ b
or_false b = ground arith

length-map : {A B : Type 0} (f : A → B) (xs : List A) → length (map f xs) ≡ length xs
length-map f [] = refl
length-map f (x ∷ xs) = ground (arith, length-map f xs)

module _ (xxh3_64 : List ℕ → ℕ) (n_partitions : ℕ) where
  -- What the index of a partition promises: it holds only nodes that hash to the partition, its
  -- topology knows the nodes that it has records of, and every edge that leaves such a node has
  -- its record here.
  pub record IsOwnedBy (partition : PartitionId) (generation : IndexGeneration) : Type 0 where
    pub nodes_owned :
        (id : NodeId) (held : NodeRecord)
        → get id generation.node_records ≡ some held
        → partition_of xxh3_64 id n_partitions ≡ partition
    pub nodes_known :
        (id : NodeId) → contains generation.topology id ≡ contains_key id generation.node_records
    pub edges_held :
        (node : NodeId) (entry : AdjacencyEntry)
        → In entry (out_neighbors generation.topology node)
        → contains_key entry.edge_id generation.edge_records ≡ true

module _ (xxh3_64 : List ℕ → ℕ) (now_unix_ms : ℤ) (builder : IcebergIndexBuilder)
    (partition : PartitionId) (scanned : List (Label × NodeRow)) (edges : List (EdgeType × EdgeRow))
    (snapshots : List (String × SnapshotId)) where
  abbrev pub owns : NodeId → Bool
  owns = is_owned xxh3_64 partition builder.n_partitions

  abbrev pub nodes : List (Label × NodeRow)
  nodes = filter (λ (n : Label × NodeRow). owns n.1.id) scanned

  abbrev pub kept : List (EdgeType × EdgeRow)
  kept = filter (λ (e : EdgeType × EdgeRow). owns e.1.src) edges

  abbrev pub assembled : IndexGeneration
  assembled = assemble xxh3_64 now_unix_ms builder partition scanned edges snapshots

  abbrev pub node_entry : Label × NodeRow → NodeId × NodeRecord
  node_entry n = (n.1.id, record { label = n.0; properties = n.1.properties })

  abbrev pub edge_entry : EdgeType × EdgeRow → EdgeId × EdgeRecord
  edge_entry e = (e.1.id, record { edge_type = e.0; properties = e.1.properties })

  contains_key-records :
      (ns : List (Label × NodeRow)) (m : List (NodeId × NodeRecord)) (id : NodeId)
      → contains_key id (collect_into (map node_entry ns) m)
        ≡ (member id (ids_of ns) || contains_key id m)
  unfolding collect_into
  contains_key-records [] m id = refl
  contains_key-records ((label, row) ∷ ns) m id = ground (
    arith,
    contains_key-records ns
        (insert row.id (record { label = label; properties = row.properties }) m) id,
    get-insert row.id id (record { label = label; properties = row.properties }) m,
  )

  owned_of_member : (id : NodeId) → member id (ids_of nodes) ≡ true → owns id ≡ true
  owned_of_member id h =
      let (x, i, e) = In-of_any (λ x. x == id) (ids_of nodes) h in
      let (n, j, f) = In-of_map (λ (n : Label × NodeRow). n.1.id) x nodes i in
      let kept_n = (In-filter (λ (n : Label × NodeRow). owns n.1.id) n scanned).0 j in
      subst (λ z. owns z ≡ true) (sym f ∙ (==_iff x id).0 e) kept_n.1

  assemble-nodes_owned :
      (id : NodeId) (held : NodeRecord)
      → get id assembled.node_records ≡ some held
      → partition_of xxh3_64 id builder.n_partitions ≡ partition
  unfolding assemble
  assemble-nodes_owned id held h = elim (In-of_collect_into id held (map node_entry nodes) [] h) [
    | inl i ↦
        let (n, j, e) = In-of_map node_entry (id, held) nodes i in
        let kept_n = (In-filter (λ (n : Label × NodeRow). owns n.1.id) n scanned).0 j in
        (==_iff (partition_of xxh3_64 id builder.n_partitions) partition).0
          (subst (λ z. owns z ≡ true) (sym (ap (λ (x : NodeId × NodeRecord). x.0) e)) kept_n.1)
    | inr e ↦ cc
  ]

  In-of_seen :
      (ids : List NodeId) (node : NodeId) (entry : AdjacencyEntry)
      → In entry (incident xxh3_64 partition ids builder.n_partitions true edges node)
      → (e : EdgeType × EdgeRow) × In e edges × ((e.1.src ≡ node) × (entry.edge_id ≡ e.1.id))
  unfolding incident seen_from
  In-of_seen ids node entry i =
      let (e, j, f) =
        In-of_filter_map (seen_from xxh3_64 partition ids builder.n_partitions true node) entry
          edges i in
      elim (Bool-cases (e.1.src == node)) [
        | inl q ↦ (e, j, ((==_iff e.1.src node).0 q, ground arith))
        | inr q ↦ ground arith
      ]

  assemble-nodes_known :
      (id : NodeId) → contains assembled.topology id ≡ contains_key id assembled.node_records
  unfolding assemble contains build_topology
  assemble-nodes_known id =
      contains_key-table (ids_of nodes) id
      ∙ sym (contains_key-records nodes [] id ∙ or_false (member id (ids_of nodes)))

  assemble-edges_held :
      length nodes ≤ u32_mod
      → length edges < u32_mod
      → (node : NodeId) (entry : AdjacencyEntry) → In entry (out_neighbors assembled.topology node)
      → contains_key entry.edge_id assembled.edge_records ≡ true
  unfolding assemble
  assemble-edges_held fits few node entry i =
      let ids = ids_of nodes in
      let found = incident xxh3_64 partition ids builder.n_partitions true edges node in
      let seen =
        (neighbors-build_topology xxh3_64 partition nodes edges builder.n_partitions node
          (rw (length-map (λ (n : Label × NodeRow). n.1.id) nodes) fits) few).0 in
      elim (Bool-cases (member node ids)) [
        | inl m ↦
            let j : In entry found =
              subst (λ z. In entry z) (seen ∙ ap (λ b. if b then found else []) m) i in
            let (e, k, f) = In-of_seen ids node entry j in
            let own : owns e.1.src ≡ true =
              subst (λ z. owns z ≡ true) (sym f.0) (owned_of_member node m) in
            let here = (In-filter (λ (e : EdgeType × EdgeRow). owns e.1.src) e edges).1 (k, own) in
            contains_key-collect_into entry.edge_id
              (record { edge_type = e.0; properties = e.1.properties }) (map edge_entry kept) []
              (inl (
                subst
                  (λ z.
                    In (z, record { edge_type = e.0; properties = e.1.properties })
                      (map edge_entry kept))
                  (sym f.1) (In-map edge_entry e kept here)))
        | inr m ↦ absurd (subst (λ z. In entry z) (seen ∙ ap (λ b. if b then found else []) m) i)
      ]

  assemble-IsOwnedBy :
      length nodes ≤ u32_mod
      → length edges < u32_mod
      → IsOwnedBy xxh3_64 builder.n_partitions partition assembled
  unfolding assemble
  assemble-IsOwnedBy fits few = record {
    nodes_owned = assemble-nodes_owned;
    nodes_known = assemble-nodes_known;
    edges_held = assemble-edges_held fits few;
  }

ok-inj : {E A : Type 0} {a b : A} → ◌≡◌ {A = Result E A} (ok a) (ok b) → a ≡ b
ok-inj e = cc

build-assemble :
    (to_lowercase : String → String) (xxh3_64 : List ℕ → ℕ) (now_unix_ms : ℤ)
    (builder : IcebergIndexBuilder) (partition : PartitionId) (labels : List Label)
    (generation : IndexGeneration)
    → build xxh3_64 now_unix_ms to_lowercase builder partition labels ≡ ok generation
    → (scanned : List (Label × NodeRow)) × (edges : List (EdgeType × EdgeRow)) × (snapshots : List
        (String × SnapshotId))
      × (assemble xxh3_64 now_unix_ms builder partition scanned edges snapshots ≡ generation)
unfolding build
build-assemble to_lowercase xxh3_64 now_unix_ms builder partition labels generation h =
    let (scanned, e, h1) =
      >>=-eq-ok (read_nodes to_lowercase builder labels [] [])
        (λ scanned. do
          edges ← read_edges to_lowercase builder builder.schema.edges [] scanned.1
          ok (assemble xxh3_64 now_unix_ms builder partition scanned.0 edges.0 edges.1))
        h in
    let (edges, f, h2) =
      >>=-eq-ok (read_edges to_lowercase builder builder.schema.edges [] scanned.1)
        (λ edges. ok (assemble xxh3_64 now_unix_ms builder partition scanned.0 edges.0 edges.1))
        h1 in
    (scanned.0, edges.0, edges.1, ok-inj h2)

-- A generation that a build returns holds only nodes of its partition, knows in its topology the
-- nodes that it has records of, and has the record of every edge that leaves one of them, as long as
-- it has at most 2^32 nodes and fewer than 2^32 edges were scanned.
pub build-IsOwnedBy :
    (to_lowercase : String → String) (xxh3_64 : List ℕ → ℕ) (now_unix_ms : ℤ)
    (builder : IcebergIndexBuilder) (partition : PartitionId) (labels : List Label)
    (generation : IndexGeneration)
    → build xxh3_64 now_unix_ms to_lowercase builder partition labels ≡ ok generation
    → generation.meta.node_count ≤ u32_mod
    → generation.meta.edge_count < u32_mod
    → IsOwnedBy xxh3_64 builder.n_partitions partition generation
unfolding assemble
build-IsOwnedBy to_lowercase xxh3_64 now_unix_ms builder partition labels generation h fits few =
    let (scanned, edges, snapshots, e) =
      build-assemble to_lowercase xxh3_64 now_unix_ms builder partition labels generation h in
    subst (λ g. IsOwnedBy xxh3_64 builder.n_partitions partition g) e
      (assemble-IsOwnedBy xxh3_64 now_unix_ms builder partition scanned edges snapshots
        (subst (λ (g : IndexGeneration). g.meta.node_count ≤ u32_mod) (sym e) fits)
        (subst (λ (g : IndexGeneration). g.meta.edge_count < u32_mod) (sym e) few))
