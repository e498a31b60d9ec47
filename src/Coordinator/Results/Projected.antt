-- ===== src/Coordinator/Results/Projected.antt =====
-- graph-engine/bin/graph-coordinator/src/service.rs: the projection of a binding onto the items of
-- `RETURN`.
use doi.Prelude.{
  ℕ, String, List, [], ◌∷◌, ◌<>◌, Option, none, some, get, string_eq, nat_eq, ◌≢◌, ◌≡◌, refl, sym,
  ◌∙◌, arith, inl, inr, In, if◌then◌else◌, get-insert, ==_iff, ◌==◌, Option-cases, Bool-cases,
  subst,
}
use doi.Schema.{NodeId, EdgeId}
use doi.Dsl.{ReturnItem}
use doi.Index.{NodeRecord, EdgeRecord}
use doi.Query.{Binding}
use doi.Proto.{ProtoValue}
use doi.Coordinator.Results.{
  AliasKinds, is_edge_alias, int64_value, value_to_send, property_of, project_node, project_edge,
  project_property, project_item, project_items, project_row, QueryResult,
}

-- the key of an item in the projection
abbrev pub name_of : ReturnItem → String
name_of item = elim item.property [
  | none ↦ item.alias
  | some property ↦ item.alias <> "." <> property
]

-- Two items do not share a key.
abbrev pub HaveNames : List ReturnItem → Type 0
HaveNames [] = Unit
HaveNames (item ∷ items) =
    ((other : ReturnItem) → In other items → name_of other ≢ name_of item) × HaveNames items

abbrev pub id_value : Option ℕ → Option ProtoValue
id_value none = none
id_value (some id) = some (int64_value id)

module _ (kinds : AliasKinds) (node_properties : List (NodeId × NodeRecord))
    (edge_properties : List (EdgeId × EdgeRecord)) where
  -- What an item asks for: the id that its alias is bound to, or the value of its property.
  unfoldable pub item_value : ReturnItem → Binding → Option ProtoValue
  item_value item b = elim item.property [
    | none ↦
        id_value (
          if is_edge_alias item.alias kinds then get item.alias b.edges else get item.alias b.nodes)
    | some property ↦
        value_to_send (property_of kinds node_properties edge_properties item.alias property b)
  ]

  -- the projection after the value of a key, if there is one, is put in
  abbrev put : String → Option ProtoValue → String → QueryResult → Option ProtoValue
  put name value key row = elim value [
    | none ↦ get key row.projection
    | some v ↦ if name == key then some v else get key row.projection
  ]

  get-project_node :
      (key alias : String) (b : Binding) (row : QueryResult)
      → get key (project_node kinds node_properties edge_properties alias b row).projection
        ≡ put alias (id_value (get alias b.nodes)) key row
  unfolding project_node
  get-project_node key alias b row = elim (Option-cases (get alias b.nodes)) [
    | inl e ↦ rw (e, project_node) refl
    | inr (id, e) ↦ rw (e, project_node) (get-insert alias key (int64_value id) row.projection)
  ]

  get-project_edge :
      (key alias : String) (b : Binding) (row : QueryResult)
      → get key (project_edge kinds node_properties edge_properties alias b row).projection
        ≡ put alias (id_value (get alias b.edges)) key row
  unfolding project_edge
  get-project_edge key alias b row = elim (Option-cases (get alias b.edges)) [
    | inl e ↦ rw (e, project_edge) refl
    | inr (id, e) ↦ rw (e, project_edge) (get-insert alias key (int64_value id) row.projection)
  ]

  get-project_property :
      (key alias property : String) (b : Binding) (row : QueryResult)
      → get key
          (project_property kinds node_properties edge_properties alias property b row).projection
        ≡ put
            (alias <> "." <> property)
            (value_to_send (property_of kinds node_properties edge_properties alias property b))
            key
            row
  unfolding project_property
  get-project_property key alias property b row =
      elim (Option-cases
        (value_to_send (property_of kinds node_properties edge_properties alias property b))) [
          | inl e ↦ rw (e, project_property) refl
          | inr (v, e) ↦
              rw (e, project_property) (get-insert (alias <> "." <> property) key v row.projection)
        ]

  project : ReturnItem → Binding → QueryResult → QueryResult
  project = project_item kinds node_properties edge_properties

  get-project :
      (key : String) (item : ReturnItem) (b : Binding) (row : QueryResult)
      → get key (project item b row).projection ≡ put (name_of item) (item_value item b) key row
  unfolding project project_item item_value
  get-project key item b row = elim (Option-cases item.property) [
    | inl e ↦ elim (Bool-cases (is_edge_alias item.alias kinds)) [
      | inl f ↦ rw (e, f, project_item) (get-project_edge key item.alias b row)
      | inr f ↦ rw (e, f, project_item) (get-project_node key item.alias b row)
    ]
    | inr (property, e) ↦ rw (e, project_item) (get-project_property key item.alias property b row)
  ]

  -- Items of other names leave a key as it is.
  get-project_items :
      (key : String) (items : List ReturnItem) (b : Binding) (row : QueryResult)
      → ((other : ReturnItem) → In other items → name_of other ≢ key)
      → get key (project_items kinds node_properties edge_properties items b row).projection
        ≡ get key row.projection
  unfolding project_items project
  get-project_items key [] b row h = refl
  get-project_items key (item ∷ items) b row h =
      get-project_items key items b (project item b row) (λ other i. h other (inr i))
      ∙ ground (
        arith,
        get-project key item b row,
        Option-cases (item_value item b),
        ==_iff (name_of item) key,
        h item (inl refl),
      )

  put_self :
      (name : String) (v : Option ProtoValue) (row : QueryResult)
      → get name row.projection ≡ none
      → put name v name row ≡ v
  put_self name v row n = ground (arith, ==_iff name name)

  put_other :
      (name : String) (v : Option ProtoValue) (key : String) (row : QueryResult)
      → key ≢ name
      → get key row.projection ≡ none
      → put name v key row ≡ none
  put_other name v key row h n = ground (arith, ==_iff name key)

  project_items-value :
      (item : ReturnItem) (items : List ReturnItem) (b : Binding) (row : QueryResult)
      → HaveNames items
      → In item items
      → get (name_of item) row.projection ≡ none
      → get
          (name_of item)
          (project_items kinds node_properties edge_properties items b row).projection
        ≡ item_value item b
  unfolding project_items project
  project_items-value item [] b row u i n = absurd i
  project_items-value item (first ∷ items) b row u (inl e) n =
      subst
        (λ z.
          get (name_of z)
            (project_items kinds node_properties edge_properties (first ∷ items) b row).projection
          ≡ item_value z b)
        (sym e)
        (get-project_items (name_of first) items b (project first b row) u.0
          ∙ get-project (name_of first) first b row
          ∙ put_self (name_of first) (item_value first b) row
              (subst (λ z. get (name_of z) row.projection ≡ none) e n))
  project_items-value item (first ∷ items) b row u (inr i) n =
      project_items-value item items b (project first b row) u.1 i (
        get-project (name_of item) first b row
        ∙ put_other (name_of first) (item_value first b) (name_of item) row (u.0 item i) n)

  -- Where no two items of `RETURN` have the same name, the row of a binding has under the name of an
  -- item what the item asks for: the id that its alias is bound to, or the value of its property, and
  -- nothing if there is none.
  pub get-project_row :
      (item : ReturnItem) (items : List ReturnItem) (b : Binding)
      → HaveNames items
      → In item items
      → get (name_of item) (project_row kinds node_properties edge_properties items b).projection
        ≡ item_value item b
  unfolding project_row
  get-project_row item items b u i =
      project_items-value item items b
        (record { projection = []; properties = []; edge_properties = [] }) u i refl
