-- ===== src/Index/Builder/Reads.antt =====
-- graph-engine/crates/graph-index/src/lib.rs, `lookup_eq` and `lookup_range`, on an index that
-- `build_property_index` of builder.rs made.
use doi.Prelude.{
  ◌≡◌, refl, sym, subst, ◌↔◌, inl, inr, String, List, true, some, arith, get, or_default, ==_iff,
  string_eq, pair_eq, flat_map, filter, In, In-of_flat_map, In-flat_map, Option-cases,
}
use doi.Schema.{NodeId, Label, Schema, PropertyDef}
use doi.Storage.{NodeRow}
use doi.Index.{PropertyIndex, KeyTree, Bound, find_key, lookup_eq, lookup_range}
use doi.Index.Key.{PropertyKey, key-IsLawful}
use doi.Index.Builder.{build_property_index}
use doi.Index.Builder.Tree.{within, In-range}
use doi.Index.Builder.Lookups.{
  key_of, tree_at, hit, node_hits, indexed_on, lookup_eq-eq-hits, lookup_eq-eq-found,
  build_property_index-AllOrdered,
}

abbrev pub IsIndexed : Schema → Label → String → Type 0
IsIndexed schema label property =
    (prop : PropertyDef) × In prop (indexed_on schema label) × (prop.name ≡ property)

-- A row of `label` is `id`'s and has the key under an indexed property.
abbrev pub HasKey : Schema → List (Label × NodeRow) → Label → String → PropertyKey → NodeId → Type 0
HasKey schema nodes label property key id =
    (row : NodeRow) × In (label, row) nodes
    × (row.id ≡ id)
    × IsIndexed schema label property
    × (key_of row property ≡ some key)

In-of_hit :
    (at : String × String) (key : PropertyKey) (label : Label) (row : NodeRow) (prop : PropertyDef)
    (id : NodeId)
    → In id (hit at key label row prop)
    → (label ≡ at.0) × (prop.name ≡ at.1) × (row.id ≡ id) × (key_of row prop.name ≡ some key)
unfolding hit
In-of_hit at key label row prop id i = elim (Option-cases (key_of row prop.name)) [
  | inl e ↦ absurd (ground arith)
  | inr (k, e) ↦
      ground (arith, key-IsLawful.eq_of_cmp k key, ==_iff label at.0, ==_iff prop.name at.1)
]

In-hit :
    (key : PropertyKey) (label : Label) (row : NodeRow) (prop : PropertyDef)
    → key_of row prop.name ≡ some key
    → In row.id (hit (label, prop.name) key label row prop)
unfolding hit
In-hit key label row prop e =
    ground (arith, key-IsLawful.cmp_refl key, ==_iff label label, ==_iff prop.name prop.name)

-- An equality read finds exactly the nodes with a row of the label whose value under the property
-- has the key, where the schema marks the property as indexed.
pub In-lookup_eq :
    (schema : Schema) (nodes : List (Label × NodeRow)) (label property : String) (key : PropertyKey)
    (id : NodeId)
    → In id (lookup_eq (build_property_index schema nodes) label property key)
      ↔ HasKey schema nodes label property key id
In-lookup_eq schema nodes label property key id = (fore, back)
  where
    at : String × String
    at = (label, property)

    fore :
        In id (lookup_eq (build_property_index schema nodes) label property key)
        → HasKey schema nodes label property key id
    fore i =
        let ((l, row), there, found_row) =
          In-of_flat_map (node_hits at key schema) id nodes
            (subst (In id) (lookup_eq-eq-hits schema nodes label property key) i) in
        let (prop, listed, found_prop) =
          In-of_flat_map (hit at key l row) id (indexed_on schema l)
            (unfold node_hits in found_row) in
        let (same_label, named, same_id, keyed) = In-of_hit at key l row prop id found_prop in
        (
          row,
          subst (λ z. In (z, row) nodes) same_label there,
          same_id,
          (prop, subst (λ z. In prop (indexed_on schema z)) same_label listed, named),
          subst (λ z. key_of row z ≡ some key) named keyed,
        )

    back :
        HasKey schema nodes label property key id
        → In id (lookup_eq (build_property_index schema nodes) label property key)
    back (row, there, same_id, (prop, listed, named), keyed) =
        let held =
          In-hit key label row prop (subst (λ z. key_of row z ≡ some key) (sym named) keyed) in
        let placed : In id (hit at key label row prop) =
          subst (λ z. In z (hit at key label row prop)) same_id
            (subst (λ z. In row.id (hit (label, z) key label row prop)) named held) in
        subst (In id) (sym (lookup_eq-eq-hits schema nodes label property key)) (
          In-flat_map (node_hits at key schema) (label, row) id nodes there
            (unfold node_hits in
              In-flat_map (hit at key label row) prop id (indexed_on schema label) listed placed))

lookup_range-eq-range :
    (label property : String) (bounds : Bound × Bound) (index : PropertyIndex)
    → lookup_range index label property bounds
      ≡ flat_map
          (λ e. e.1)
          (filter (λ e. within bounds e.0) (tree_at (label, property) index.by_key))
unfolding lookup_range
lookup_range-eq-range label property bounds index =
    elim (Option-cases (get {K = String × String} (label, property) index.by_key)) [
      | inl e ↦ rw (e, lookup_range) refl
      | inr (tree, e) ↦ rw (e, lookup_range) refl
    ]

-- A range read finds exactly the nodes whose key under an indexed property of the label lies within
-- the bounds.
pub In-lookup_range :
    (schema : Schema) (nodes : List (Label × NodeRow)) (label property : String)
    (bounds : Bound × Bound) (id : NodeId)
    → In id (lookup_range (build_property_index schema nodes) label property bounds) ↔ (
        (key : PropertyKey) × (within bounds key ≡ true)
        × HasKey schema nodes label property key id)
In-lookup_range schema nodes label property bounds id = (fore, back)
  where
    index : PropertyIndex
    index = build_property_index schema nodes

    tree : KeyTree
    tree = tree_at (label, property) index.by_key

    split : In id (flat_map (λ e. e.1) (filter (λ e. within bounds e.0) tree)) ↔ (
        (key : PropertyKey) × (within bounds key ≡ true) × In id (or_default (find_key key tree)))
    split = In-range bounds id tree (build_property_index-AllOrdered schema nodes (label, property))

    fore :
        In id (lookup_range index label property bounds)
        → (key : PropertyKey) × (within bounds key ≡ true)
          × HasKey schema nodes label property key id
    fore i =
        let (key, fits, held) =
          split.0 (subst (In id) (lookup_range-eq-range label property bounds index) i) in
        (
          key,
          fits,
          (In-lookup_eq schema nodes label property key id).0
              (subst (In id) (sym (lookup_eq-eq-found label property key index)) held),
        )

    back :
        ((key : PropertyKey) × (within bounds key ≡ true)
          × HasKey schema nodes label property key id)
        → In id (lookup_range index label property bounds)
    back (key, fits, has) =
        subst (In id) (sym (lookup_range-eq-range label property bounds index)) (
          split.1 (
            key,
            fits,
            subst (In id) (lookup_eq-eq-found label property key index)
                ((In-lookup_eq schema nodes label property key id).1 has),
          ))
