-- ===== src/Coordinator/Convert.antt =====
-- graph-engine/bin/graph-coordinator/src/grpc_partition_rpc.rs: the conversions between the types of
-- the executor and the messages.
pub mod RoundTrip
use doi.Prelude.{ℕ, String, List, [], ◌∷◌, Option, none, some, map, filter_map}
use doi.Schema.{NodeId, EdgeId}
use doi.Storage.{PropertyValue, Properties}
use doi.Dsl.{ComparisonOp, Literal, PropertyFilter}
use doi.Index.{NodeRecord, EdgeRecord}
use doi.Index.Key.{PropertyKey}
use doi.Query.{Binding}
use doi.Proto.{
  Kind, ProtoValue, ProtoComparisonOp, as_i32, ProtoPropertyFilter, ProtoBinding, NodeProperties,
  EdgeProperties,
}

abbrev pub key_kind : PropertyKey → Kind
key_kind (PropertyKey.int64 v) = Kind.int64_value v
key_kind (PropertyKey.bool v) = Kind.bool_value v
key_kind (PropertyKey.string v) = Kind.string_value v
key_kind (PropertyKey.timestamp v) = Kind.timestamp_value v

unfoldable pub property_key_to_proto : PropertyKey → ProtoValue
property_key_to_proto key = record { kind = some (key_kind key) }

abbrev pub literal_kind : Literal → Kind
literal_kind (Literal.int64 v) = Kind.int64_value v
literal_kind (Literal.float64 v) = Kind.float64_value v
literal_kind (Literal.bool v) = Kind.bool_value v
literal_kind (Literal.string v) = Kind.string_value v

unfoldable pub literal_to_proto : Literal → ProtoValue
literal_to_proto literal = record { kind = some (literal_kind literal) }

unfoldable pub comparison_op_to_proto : ComparisonOp → ProtoComparisonOp
comparison_op_to_proto ComparisonOp.eq = ProtoComparisonOp.eq
comparison_op_to_proto ComparisonOp.ne = ProtoComparisonOp.ne
comparison_op_to_proto ComparisonOp.lt = ProtoComparisonOp.lt
comparison_op_to_proto ComparisonOp.lte = ProtoComparisonOp.lte
comparison_op_to_proto ComparisonOp.gt = ProtoComparisonOp.gt
comparison_op_to_proto ComparisonOp.gte = ProtoComparisonOp.gte

unfoldable pub property_filter_to_proto : PropertyFilter → ProtoPropertyFilter
unfolding literal_to_proto comparison_op_to_proto as_i32
property_filter_to_proto filter = record {
  property = filter.property;
  op = as_i32 (comparison_op_to_proto filter.op);
  value = some (literal_to_proto filter.value);
}

unfoldable pub binding_to_proto : Binding → ProtoBinding
binding_to_proto binding = record {
  node_ids_by_alias = map (λ (n : String × NodeId). (n.0, n.1)) binding.nodes;
  edge_ids_by_alias = map (λ (e : String × EdgeId). (e.0, e.1)) binding.edges;
}

unfoldable pub proto_binding_to_binding : ProtoBinding → Binding
proto_binding_to_binding proto = record {
  nodes = map (λ (n : String × ℕ). (n.0, n.1)) proto.node_ids_by_alias;
  edges = map (λ (e : String × ℕ). (e.0, e.1)) proto.edge_ids_by_alias;
}

abbrev value_of_kind : Kind → PropertyValue
value_of_kind (Kind.int64_value v) = PropertyValue.int64 v
value_of_kind (Kind.float64_value v) = PropertyValue.float64 v
value_of_kind (Kind.bool_value v) = PropertyValue.bool v
value_of_kind (Kind.string_value v) = PropertyValue.string v
value_of_kind (Kind.timestamp_value v) = PropertyValue.timestamp v
value_of_kind (Kind.bytes_value v) = PropertyValue.bytes v

unfoldable pub proto_value_to_property_value : ProtoValue → Option PropertyValue
proto_value_to_property_value value = elim value.kind [
  | none ↦ none
  | some kind ↦ some (value_of_kind kind)
]

-- the closure of `filter_map`
unfoldable pub field_of_proto : String × ProtoValue → Option (String × PropertyValue)
unfolding proto_value_to_property_value
field_of_proto (name, value) = elim (proto_value_to_property_value value) [
  | none ↦ none
  | some v ↦ some (name, v)
]

unfoldable pub proto_node_properties_to_record : NodeProperties → NodeRecord
unfolding field_of_proto
proto_node_properties_to_record proto = record {
  label = proto.label;
  properties = filter_map field_of_proto proto.fields;
}

unfoldable pub proto_edge_properties_to_record : EdgeProperties → EdgeRecord
unfolding field_of_proto
proto_edge_properties_to_record proto = record {
  edge_type = proto.edge_type;
  properties = filter_map field_of_proto proto.fields;
}
