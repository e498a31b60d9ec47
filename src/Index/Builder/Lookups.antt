-- ===== src/Index/Builder/Lookups.antt =====
-- graph-engine/crates/graph-index/src/builder.rs, `build_property_index`: what the equality and the
-- range reads of a built property index find.
use mathlib.Core.List.{append-nil, append_assoc}
use doi.Prelude.{
  ◌≡◌, sym, ap, ◌∙◌, inl, inr, String, List, [], ◌∷◌, ◌++◌, Option, none, some, arith, get,
  get-insert, or_default, if◌then◌else◌, ◌==◌, string_eq, pair_eq, pair_beq_iff, flat_map, filter,
  Option-cases,
}
use doi.Schema.{NodeId, Label, Schema, PropertyDef, node_def}
use doi.Storage.{NodeRow}
use doi.Index.{PropertyIndex, KeyTree, find_key, lookup_eq}
use doi.Index.Key.{PropertyKey}
use doi.Index.Builder.{
  ByKey, property_key, tree_push, index_property, index_properties, index_nodes,
  build_property_index,
}
use doi.Index.Builder.Tree.{IsOrdered, same_key, tree_push-IsOrdered, find_key-tree_push}

-- the key of a row under a property, if it has a value with an order
abbrev pub key_of : NodeRow → String → Option PropertyKey
key_of row property = elim (get property row.properties) [
  | none ↦ none
  | some value ↦ property_key value
]

abbrev pub tree_at : String × String → ByKey → KeyTree
tree_at at by_key = or_default (get at by_key)

abbrev pub AllOrdered : ByKey → Type 0
AllOrdered by_key = (at : String × String) → IsOrdered (tree_at at by_key)

module _ (at : String × String) (key : PropertyKey) where
  abbrev pub found : ByKey → List NodeId
  found by_key = or_default (find_key key (tree_at at by_key))

  -- what one property of one row adds
  unfoldable pub hit : Label → NodeRow → PropertyDef → List NodeId
  hit label row prop =
      if ◌==◌ {A = String × String} (label, prop.name) at
      then elim (key_of row prop.name) [
        | none ↦ []
        | some k ↦ if same_key k key then row.id ∷ [] else []
      ]
      else []

  found-index_property :
      (label : Label) (row : NodeRow) (prop : PropertyDef) (by_key : ByKey)
      → AllOrdered by_key
      → found (index_property label row prop by_key) ≡ found by_key ++ hit label row prop
  unfolding index_property hit
  found-index_property label row prop by_key o = elim (Option-cases (key_of row prop.name)) [
    | inl e ↦ ground (arith, append-nil (found by_key))
    | inr (k, e) ↦
        let here : String × String = (label, prop.name) in
        let tree = tree_push k row.id (tree_at here by_key) in
        ground (
          arith,
          get-insert here at tree by_key,
          pair_beq_iff here at,
          find_key-tree_push k key row.id (tree_at here by_key) (o here),
          append-nil (found by_key),
        )
  ]

index_property-AllOrdered :
    (label : Label) (row : NodeRow) (prop : PropertyDef) (by_key : ByKey)
    → AllOrdered by_key
    → AllOrdered (index_property label row prop by_key)
unfolding index_property
index_property-AllOrdered label row prop by_key o at = elim (Option-cases (key_of row prop.name)) [
  | inl e ↦ ground (arith, o at)
  | inr (k, e) ↦
      let here : String × String = (label, prop.name) in
      let tree = tree_push k row.id (tree_at here by_key) in
      ground (
        arith,
        o at,
        get-insert here at tree by_key,
        tree_push-IsOrdered k row.id (tree_at here by_key) (o here),
      )
]

index_properties-AllOrdered :
    (label : Label) (row : NodeRow) (props : List PropertyDef) (by_key : ByKey)
    → AllOrdered by_key
    → AllOrdered (index_properties label row props by_key)
unfolding index_properties
index_properties-AllOrdered label row [] by_key o = o
index_properties-AllOrdered label row (prop ∷ props) by_key o =
    index_properties-AllOrdered label row props _
      (index_property-AllOrdered label row prop by_key o)

-- the properties that a schema indexes on a label
abbrev pub indexed_on : Schema → Label → List PropertyDef
indexed_on schema label = elim (node_def schema label) [
  | none ↦ []
  | some def ↦ filter (λ p. p.indexed) def.properties
]

index_nodes-cons :
    (schema : Schema) (label : Label) (row : NodeRow) (nodes : List (Label × NodeRow))
    (by_key : ByKey)
    → index_nodes schema ((label, row) ∷ nodes) by_key
      ≡ index_nodes schema nodes (index_properties label row (indexed_on schema label) by_key)
unfolding index_nodes index_properties
index_nodes-cons schema label row nodes by_key = ground arith

pub index_nodes-AllOrdered :
    (schema : Schema) (nodes : List (Label × NodeRow)) (by_key : ByKey)
    → AllOrdered by_key
    → AllOrdered (index_nodes schema nodes by_key)
index_nodes-AllOrdered schema [] by_key o = unfold index_nodes in o
index_nodes-AllOrdered schema ((label, row) ∷ nodes) by_key o = rw index_nodes-cons (
    index_nodes-AllOrdered schema nodes _
      (index_properties-AllOrdered label row (indexed_on schema label) by_key o))

module _ (at : String × String) (key : PropertyKey) where
  found-index_properties :
      (label : Label) (row : NodeRow) (props : List PropertyDef) (by_key : ByKey)
      → AllOrdered by_key
      → found at key (index_properties label row props by_key)
        ≡ found at key by_key ++ flat_map (hit at key label row) props
  unfolding index_properties
  found-index_properties label row [] by_key o = sym (append-nil _)
  found-index_properties label row (prop ∷ props) by_key o =
      found-index_properties label row props _ (index_property-AllOrdered label row prop by_key o)
      ∙ ap (λ z. z ++ flat_map (hit at key label row) props)
          (found-index_property at key label row prop by_key o)
      ∙ append_assoc (found at key by_key) _ _

  -- what one row adds
  unfoldable pub node_hits : Schema → Label × NodeRow → List NodeId
  node_hits schema (label, row) = flat_map (hit at key label row) (indexed_on schema label)

  found-index_nodes :
      (schema : Schema) (nodes : List (Label × NodeRow)) (by_key : ByKey)
      → AllOrdered by_key
      → found at key (index_nodes schema nodes by_key)
        ≡ found at key by_key ++ flat_map (node_hits schema) nodes
  unfolding node_hits
  found-index_nodes schema [] by_key o = unfold index_nodes in sym (append-nil _)
  found-index_nodes schema ((label, row) ∷ nodes) by_key o =
      let props = indexed_on schema label in
      ap (found at key) (index_nodes-cons schema label row nodes by_key)
      ∙ found-index_nodes schema nodes _ (index_properties-AllOrdered label row props by_key o)
      ∙ ap (λ z. z ++ flat_map (node_hits schema) nodes)
          (found-index_properties label row props by_key o)
      ∙ append_assoc (found at key by_key) (flat_map (hit at key label row) props)
          (flat_map (node_hits schema) nodes)

pub lookup_eq-eq-found :
    (label property : String) (key : PropertyKey) (index : PropertyIndex)
    → lookup_eq index label property key ≡ found (label, property) key index.by_key
unfolding lookup_eq
lookup_eq-eq-found label property key index = ground arith

pub lookup_eq-eq-hits :
    (schema : Schema) (nodes : List (Label × NodeRow)) (label property : String) (key : PropertyKey)
    → lookup_eq (build_property_index schema nodes) label property key
      ≡ flat_map (node_hits (label, property) key schema) nodes
unfolding build_property_index find_key
lookup_eq-eq-hits schema nodes label property key =
    lookup_eq-eq-found label property key (build_property_index schema nodes)
    ∙ found-index_nodes (label, property) key schema nodes [] (λ at. tt)

pub build_property_index-AllOrdered :
    (schema : Schema) (nodes : List (Label × NodeRow))
    → AllOrdered (build_property_index schema nodes).by_key
unfolding build_property_index
build_property_index-AllOrdered schema nodes = index_nodes-AllOrdered schema nodes [] (λ at. tt)
