-- ===== src/PartitionNode/Convert.antt =====
-- graph-engine/bin/graph-partition-node/src/service.rs: the conversions between the messages and the
-- types of the executor. A map is converted entry by entry: its keys stay, so that collecting the
-- entries makes no two of them one.
use doi.Prelude.{
  ℕ, String, List, [], ◌∷◌, Option, none, some, map, filter_map, Result, err, ok, ◌>>=◌,
}
use doi.Schema.{NodeId, EdgeId}
use doi.Storage.{PropertyValue}
use doi.Dsl.{ComparisonOp, Literal, PropertyFilter}
use doi.Index.{NodeRecord, EdgeRecord}
use doi.Index.Key.{PropertyKey}
use doi.Query.{Binding}
use doi.Proto.{
  Status, invalid_argument, Kind, ProtoValue, ProtoComparisonOp, try_from, ProtoPropertyFilter,
  ProtoBinding, NodeProperties, EdgeProperties, BindingStream,
}

unfoldable pub property_value_to_proto : PropertyValue → Option ProtoValue
property_value_to_proto (PropertyValue.int64 v) = some (record { kind = some (Kind.int64_value v) })
property_value_to_proto (PropertyValue.float64 v) =
    some (record { kind = some (Kind.float64_value v) })
property_value_to_proto (PropertyValue.bool v) = some (record { kind = some (Kind.bool_value v) })
property_value_to_proto (PropertyValue.string v) =
    some (record { kind = some (Kind.string_value v) })
property_value_to_proto (PropertyValue.timestamp v) =
    some (record { kind = some (Kind.timestamp_value v) })
property_value_to_proto (PropertyValue.bytes v) = some (record { kind = some (Kind.bytes_value v) })
property_value_to_proto (PropertyValue.list _) = none
property_value_to_proto PropertyValue.null = none

-- the closure of `filter_map`
unfoldable pub field_to_proto : String × PropertyValue → Option (String × ProtoValue)
unfolding property_value_to_proto
field_to_proto (name, value) = elim (property_value_to_proto value) [
  | none ↦ none
  | some v ↦ some (name, v)
]

unfoldable pub node_record_to_proto : NodeRecord → NodeProperties
unfolding field_to_proto
node_record_to_proto held = record {
  label = held.label;
  fields = filter_map field_to_proto held.properties;
}

unfoldable pub edge_record_to_proto : EdgeRecord → EdgeProperties
unfolding field_to_proto
edge_record_to_proto held = record {
  edge_type = held.edge_type;
  fields = filter_map field_to_proto held.properties;
}

unfoldable pub binding_to_proto : Binding → ProtoBinding
binding_to_proto binding = record {
  node_ids_by_alias = map (λ (n : String × NodeId). (n.0, n.1)) binding.nodes;
  edge_ids_by_alias = map (λ (e : String × EdgeId). (e.0, e.1)) binding.edges;
}

unfoldable pub proto_binding_to_binding : ProtoBinding → Binding
proto_binding_to_binding proto = record {
  nodes = map (λ (n : String × ℕ). (n.0, n.1)) proto.node_ids_by_alias;
  edges = map (λ (e : String × ℕ). (e.0, e.1)) proto.edge_ids_by_alias;
}

unfoldable pub bindings_to_stream : List Binding → BindingStream
unfolding binding_to_proto
bindings_to_stream bindings = map (λ b. ok (binding_to_proto b)) bindings

unfoldable pub kind_to_property_key : Option Kind → Result Status PropertyKey
kind_to_property_key (some (Kind.int64_value v)) = ok (PropertyKey.int64 v)
kind_to_property_key (some (Kind.bool_value v)) = ok (PropertyKey.bool v)
kind_to_property_key (some (Kind.string_value v)) = ok (PropertyKey.string v)
kind_to_property_key (some (Kind.timestamp_value v)) = ok (PropertyKey.timestamp v)
kind_to_property_key (some (Kind.float64_value _)) =
    err (invalid_argument "PropertyIndex has no key variant for float/bytes values")
kind_to_property_key (some (Kind.bytes_value _)) =
    err (invalid_argument "PropertyIndex has no key variant for float/bytes values")
kind_to_property_key none = err (invalid_argument "missing Value.kind")

unfoldable pub proto_value_to_property_key : ProtoValue → Result Status PropertyKey
unfolding kind_to_property_key
proto_value_to_property_key value = kind_to_property_key value.kind

unfoldable pub kind_to_literal : Option Kind → Result Status Literal
kind_to_literal (some (Kind.int64_value v)) = ok (Literal.int64 v)
kind_to_literal (some (Kind.float64_value v)) = ok (Literal.float64 v)
kind_to_literal (some (Kind.bool_value v)) = ok (Literal.bool v)
kind_to_literal (some (Kind.string_value v)) = ok (Literal.string v)
kind_to_literal (some (Kind.timestamp_value _)) =
    err (invalid_argument "WHERE filters don't support timestamp/bytes literals in v1")
kind_to_literal (some (Kind.bytes_value _)) =
    err (invalid_argument "WHERE filters don't support timestamp/bytes literals in v1")
kind_to_literal none = err (invalid_argument "missing Value.kind")

unfoldable pub proto_value_to_literal : ProtoValue → Result Status Literal
unfolding kind_to_literal
proto_value_to_literal value = kind_to_literal value.kind

abbrev pub op_of : ProtoComparisonOp → ComparisonOp
op_of ProtoComparisonOp.eq = ComparisonOp.eq
op_of ProtoComparisonOp.ne = ComparisonOp.ne
op_of ProtoComparisonOp.lt = ComparisonOp.lt
op_of ProtoComparisonOp.lte = ComparisonOp.lte
op_of ProtoComparisonOp.gt = ComparisonOp.gt
op_of ProtoComparisonOp.gte = ComparisonOp.gte

-- `ok_or_else(|| Status::invalid_argument(message))?`
abbrev pub required : {A : Type 0} → String → Option A → Result Status A
required message none = err (invalid_argument message)
required message (some a) = ok a

unfoldable pub proto_filter_to_property_filter : ProtoPropertyFilter → Result Status PropertyFilter
unfolding try_from proto_value_to_literal
proto_filter_to_property_filter proto = do
  op ← required "unknown ComparisonOp" (try_from proto.op)
  sent ← required "missing filter value" proto.value
  value ← proto_value_to_literal sent
  ok (record { property = proto.property; op = op_of op; value = value })

-- `map(..).collect::<Result<Vec<_>, _>>()?`
unfoldable pub collect_filters : List ProtoPropertyFilter → Result Status (List PropertyFilter)
unfolding proto_filter_to_property_filter
collect_filters [] = ok []
collect_filters (proto ∷ protos) = do
  filter ← proto_filter_to_property_filter proto
  filters ← collect_filters protos
  ok (filter ∷ filters)
