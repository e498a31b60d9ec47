-- ===== src/Coordinator/Results.antt =====
-- graph-engine/bin/graph-coordinator/src/service.rs: what `execute_query` does with the bindings it
-- gathered. The rows of records that the ids have are given as maps.
pub mod Sorted
pub mod Needed
pub mod Projected
use Prim.Native.Nat.Ordering.{lt, eq, gt}
use doi.Prelude.{
  ℕ, String, Bool, true, false, List, [], ◌∷◌, ◌<>◌, ◌++◌, Option, none, some, map, get, insert,
  contains_key, filter_map, flat_map, take, string_eq, nat_eq, is_some, if◌then◌else◌, Ordering,
}
use doi.Prelude.Int.{compare_ℤ}
use doi.Prelude.Bits.{as_i64}
use doi.Prelude.Order.{reverse, compare_bool, string_ord, list_ord, nat_ord}
use doi.Prelude.Sorting.{sort_by}
use doi.Schema.{NodeId, EdgeId}
use doi.Storage.{PropertyValue, Properties, partial_cmp}
use doi.Dsl.{ReturnItem, OrderBy, SortDirection}
use doi.Index.{NodeRecord, EdgeRecord}
use doi.Query.{Binding}
use doi.Query.Distributed.Execute.{id_set}
use doi.Proto.{Kind, ProtoValue, NodeProperties, EdgeProperties}

-- whether an alias names edges; it is not there if no binding binds it
abbrev pub AliasKinds : Type 0
AliasKinds = List (String × Bool)

-- the closure of `find_map`
abbrev pub kind_in : String → Binding → Option Bool
kind_in alias b =
    if contains_key alias b.edges
    then some true
    else if contains_key alias b.nodes
    then some false
    else none

-- `find_map`
unfoldable pub alias_kind : String → List Binding → Option Bool
alias_kind alias [] = none
alias_kind alias (b ∷ bs) = elim (kind_in alias b) [
  | some is_edge ↦ some is_edge
  | none ↦ alias_kind alias bs
]

-- the loop over the aliases
unfoldable pub classify : List Binding → List String → AliasKinds → AliasKinds
unfolding alias_kind
classify bindings [] kinds = kinds
classify bindings (alias ∷ aliases) kinds = classify bindings aliases (
    if contains_key alias kinds then kinds else elim (alias_kind alias bindings) [
      | none ↦ kinds
      | some is_edge ↦ insert alias is_edge kinds
    ])

-- `alias_is_edge.get(alias).copied().unwrap_or(false)`
abbrev pub is_edge_alias : String → AliasKinds → Bool
is_edge_alias alias kinds = elim (get alias kinds) [ none ↦ false | some is_edge ↦ is_edge ]

unfoldable pub resolve_node_id : ReturnItem → AliasKinds → Binding → Option NodeId
resolve_node_id item kinds binding =
    if is_edge_alias item.alias kinds then none else get item.alias binding.nodes

unfoldable pub resolve_edge_id : ReturnItem → AliasKinds → Binding → Option EdgeId
resolve_edge_id item kinds binding =
    if is_edge_alias item.alias kinds then get item.alias binding.edges else none

-- the ids of the sort key
abbrev pub order_node_ids : Option OrderBy → AliasKinds → List Binding → List NodeId
order_node_ids none kinds bindings = []
order_node_ids (some order) kinds bindings =
    if is_edge_alias order.alias kinds
    then []
    else filter_map (λ (b : Binding). get order.alias b.nodes) bindings

abbrev pub order_edge_ids : Option OrderBy → AliasKinds → List Binding → List EdgeId
order_edge_ids none kinds bindings = []
order_edge_ids (some order) kinds bindings =
    if is_edge_alias order.alias kinds
    then filter_map (λ (b : Binding). get order.alias b.edges) bindings
    else []

unfoldable pub needed_node_ids :
    List ReturnItem → Option OrderBy → AliasKinds → List Binding → List NodeId
unfolding resolve_node_id
needed_node_ids project order_by kinds bindings = id_set (
    flat_map (λ b. filter_map (λ item. resolve_node_id item kinds b) project) bindings
    ++ order_node_ids order_by kinds bindings)

unfoldable pub needed_edge_ids :
    List ReturnItem → Option OrderBy → AliasKinds → List Binding → List EdgeId
unfolding resolve_edge_id
needed_edge_ids project order_by kinds bindings = id_set (
    flat_map (λ b. filter_map (λ item. resolve_edge_id item kinds b) project) bindings
    ++ order_edge_ids order_by kinds bindings)

unfoldable pub compare_property_values : PropertyValue → PropertyValue → Ordering
compare_property_values PropertyValue.null PropertyValue.null = eq
compare_property_values PropertyValue.null _ = gt
compare_property_values _ PropertyValue.null = lt
compare_property_values (PropertyValue.int64 a) (PropertyValue.int64 b) = compare_ℤ a b
compare_property_values (PropertyValue.float64 a) (PropertyValue.float64 b) =
    elim (partial_cmp a b) [ none ↦ eq | some ordering ↦ ordering ]
compare_property_values (PropertyValue.bool a) (PropertyValue.bool b) = compare_bool a b
compare_property_values (PropertyValue.string a) (PropertyValue.string b) = string_ord.cmp a b
compare_property_values (PropertyValue.timestamp a) (PropertyValue.timestamp b) = compare_ℤ a b
compare_property_values (PropertyValue.bytes a) (PropertyValue.bytes b) = (list_ord {A = ℕ}).cmp a b
compare_property_values _ _ = eq

-- `match (key(a), key(b))`
unfoldable pub compare_keys : Option PropertyValue → Option PropertyValue → Ordering
unfolding compare_property_values
compare_keys (some a) (some b) = compare_property_values a b
compare_keys (some _) none = lt
compare_keys none (some _) = gt
compare_keys none none = eq

abbrev pub directed : SortDirection → Ordering → Ordering
directed SortDirection.asc ordering = ordering
directed SortDirection.desc ordering = reverse ordering

-- `and_then(|record| record.properties.get(property))` of the record that an id has
abbrev pub node_value : List (NodeId × NodeRecord) → String → Option NodeId → Option PropertyValue
node_value records property none = none
node_value records property (some id) = elim (get id records) [
  | none ↦ none
  | some held ↦ get property held.properties
]

abbrev pub edge_value : List (EdgeId × EdgeRecord) → String → Option EdgeId → Option PropertyValue
edge_value records property none = none
edge_value records property (some id) = elim (get id records) [
  | none ↦ none
  | some held ↦ get property held.properties
]

unfoldable pub int64_value : ℕ → ProtoValue
int64_value id = record { kind = some (Kind.int64_value (as_i64 id)) }

unfoldable pub property_value_to_proto : PropertyValue → Option ProtoValue
property_value_to_proto (PropertyValue.int64 v) = some (record { kind = some (Kind.int64_value v) })
property_value_to_proto (PropertyValue.float64 v) =
    some (record { kind = some (Kind.float64_value v) })
property_value_to_proto (PropertyValue.bool v) = some (record { kind = some (Kind.bool_value v) })
property_value_to_proto (PropertyValue.string v) =
    some (record { kind = some (Kind.string_value v) })
property_value_to_proto (PropertyValue.timestamp v) =
    some (record { kind = some (Kind.timestamp_value v) })
property_value_to_proto (PropertyValue.bytes v) = some (record { kind = some (Kind.bytes_value v) })
property_value_to_proto (PropertyValue.list _) = none
property_value_to_proto PropertyValue.null = none

-- `and_then(property_value_to_proto)`
abbrev pub value_to_send : Option PropertyValue → Option ProtoValue
value_to_send none = none
value_to_send (some value) = property_value_to_proto value

-- the closure of `filter_map`
unfoldable pub field_to_proto : String × PropertyValue → Option (String × ProtoValue)
unfolding property_value_to_proto
field_to_proto (name, value) = elim (property_value_to_proto value) [
  | none ↦ none
  | some v ↦ some (name, v)
]

unfoldable pub node_record_to_proto : NodeRecord → NodeProperties
unfolding field_to_proto
node_record_to_proto held = record {
  label = held.label;
  fields = filter_map field_to_proto held.properties;
}

unfoldable pub edge_record_to_proto : EdgeRecord → EdgeProperties
unfolding field_to_proto
edge_record_to_proto held = record {
  edge_type = held.edge_type;
  fields = filter_map field_to_proto held.properties;
}

pub record QueryResult : Type 0 where
  pub projection : List (String × ProtoValue)
  pub properties : List (String × NodeProperties)
  pub edge_properties : List (String × EdgeProperties)

module _ (kinds : AliasKinds) (node_properties : List (NodeId × NodeRecord))
    (edge_properties : List (EdgeId × EdgeRecord)) where
  -- the value of `alias.property` in a binding
  unfoldable pub property_of : (alias property : String) → Binding → Option PropertyValue
  property_of alias property binding =
      if is_edge_alias alias kinds
      then edge_value edge_properties property (get alias binding.edges)
      else node_value node_properties property (get alias binding.nodes)

  -- the closure of `sort_by`
  unfoldable pub compare_bindings : OrderBy → Binding → Binding → Ordering
  unfolding compare_keys property_of
  compare_bindings order_by a b = directed order_by.direction (
      compare_keys (property_of order_by.alias order_by.property a)
        (property_of order_by.alias order_by.property b))

  unfoldable pub sort_bindings_by_property : OrderBy → List Binding → List Binding
  unfolding compare_bindings
  sort_bindings_by_property order_by bindings = sort_by (compare_bindings order_by) bindings

  -- a bare alias, which names a node
  unfoldable pub project_node : String → Binding → QueryResult → QueryResult
  unfolding int64_value node_record_to_proto
  project_node alias binding row = elim (get alias binding.nodes) [
    | none ↦ row
    | some id ↦ record row {
      projection = insert alias (int64_value id) row.projection;
      properties = elim (get id node_properties) [
        | none ↦ row.properties
        | some held ↦ insert alias (node_record_to_proto held) row.properties
      ];
    }
  ]

  -- a bare alias, which names an edge
  unfoldable pub project_edge : String → Binding → QueryResult → QueryResult
  unfolding int64_value edge_record_to_proto
  project_edge alias binding row = elim (get alias binding.edges) [
    | none ↦ row
    | some id ↦ record row {
      projection = insert alias (int64_value id) row.projection;
      edge_properties = elim (get id edge_properties) [
        | none ↦ row.edge_properties
        | some held ↦ insert alias (edge_record_to_proto held) row.edge_properties
      ];
    }
  ]

  -- `alias.property`
  unfoldable pub project_property : (alias property : String) → Binding → QueryResult → QueryResult
  unfolding property_of property_value_to_proto
  project_property alias property binding row =
      elim (value_to_send (property_of alias property binding)) [
        | none ↦ row
        | some value ↦ record row {
          projection = insert (alias <> "." <> property) value row.projection;
        }
      ]

  -- the body of the loop over the items
  unfoldable pub project_item : ReturnItem → Binding → QueryResult → QueryResult
  unfolding project_node project_edge project_property
  project_item item binding row = elim item.property [
    | none ↦
        if is_edge_alias item.alias kinds
        then project_edge item.alias binding row
        else project_node item.alias binding row
    | some property ↦ project_property item.alias property binding row
  ]

  unfoldable pub project_items : List ReturnItem → Binding → QueryResult → QueryResult
  unfolding project_item
  project_items [] binding row = row
  project_items (item ∷ items) binding row =
      project_items items binding (project_item item binding row)

  -- the closure of the final `map`
  unfoldable pub project_row : List ReturnItem → Binding → QueryResult
  unfolding project_items
  project_row project binding =
      project_items project binding
        (record { projection = []; properties = []; edge_properties = [] })
