-- ===== src/Coordinator/Convert/RoundTrip.antt =====
-- graph-engine/bin/graph-coordinator/src/grpc_partition_rpc.rs against
-- graph-engine/bin/graph-partition-node/src/service.rs: what one side writes the other reads.
use doi.Prelude.{
  ℕ, String, Bool, if◌then◌else◌, true, false, List, [], ◌∷◌, Option, some, map, filter, filter_map,
  Result, Result-cases, ◌↔◌, ◌≡◌, refl, sym, ap, ◌∙◌, subst, arith, inl, inr, Option-cases, ==_iff,
  nat_eq,
}
use doi.Prelude.Int.{ℤ, pos, negsuc}
use doi.Storage.{PropertyValue, Properties}
use doi.Dsl.{Literal, PropertyFilter, ComparisonOp}
use doi.Index.{NodeRecord, EdgeRecord}
use doi.Index.Key.{PropertyKey}
use doi.Query.{Binding}
use doi.Proto.{Kind, ProtoValue, ProtoComparisonOp, as_i32, try_from, ProtoPropertyFilter}
use doi.PartitionNode.Convert.{
  kind_to_literal, proto_value_to_literal, kind_to_property_key, proto_value_to_property_key, op_of,
  proto_filter_to_property_filter, collect_filters, property_value_to_proto, field_to_proto,
  node_record_to_proto, edge_record_to_proto,
}
use doi.PartitionNode.Convert as Node
use doi.Coordinator.Convert.{
  property_key_to_proto, literal_to_proto, key_kind, literal_kind, comparison_op_to_proto,
  property_filter_to_proto, binding_to_proto, proto_binding_to_binding, field_of_proto,
  proto_value_to_property_value, proto_node_properties_to_record, proto_edge_properties_to_record,
}

try_from-as_i32 : (op : ProtoComparisonOp) → try_from (as_i32 op) ≡ some op
unfolding try_from as_i32
try_from-as_i32 op = ground arith

as_i32_of_try_from : (n : ℤ) (op : ProtoComparisonOp) → try_from n ≡ some op → n ≡ as_i32 op
unfolding try_from as_i32
as_i32_of_try_from (pos n) op h =
    ground (arith, ==_iff n 0, ==_iff n 1, ==_iff n 2, ==_iff n 3, ==_iff n 4, ==_iff n 5)
as_i32_of_try_from (negsuc n) op h = cc

op_of-comparison_op_to_proto : (op : ComparisonOp) → op_of (comparison_op_to_proto op) ≡ op
unfolding comparison_op_to_proto
op_of-comparison_op_to_proto op = ground arith

comparison_op_to_proto-op_of : (op : ProtoComparisonOp) → comparison_op_to_proto (op_of op) ≡ op
unfolding comparison_op_to_proto
comparison_op_to_proto-op_of op = ground arith

abbrev of_kind : Option Kind → ProtoValue
of_kind kind = record { kind = kind }

kind_to_literal_iff :
    (kind : Option Kind) (literal : Literal)
    → (kind_to_literal kind ≡ Result.ok literal) ↔ (kind ≡ some (literal_kind literal))
unfolding kind_to_literal
kind_to_literal_iff kind literal = ground arith

literal_iff :
    (value : ProtoValue) (literal : Literal)
    → (proto_value_to_literal value ≡ Result.ok literal) ↔ (value ≡ literal_to_proto literal)
unfolding proto_value_to_literal literal_to_proto
literal_iff value literal = (
  λ h. ap of_kind ((kind_to_literal_iff value.kind literal).0 h),
  λ h. (kind_to_literal_iff value.kind literal).1 (ap (λ (v : ProtoValue). v.kind) h),
)

kind_to_property_key_iff :
    (kind : Option Kind) (key : PropertyKey)
    → (kind_to_property_key kind ≡ Result.ok key) ↔ (kind ≡ some (key_kind key))
unfolding kind_to_property_key
kind_to_property_key_iff kind key = ground arith

-- The partition node decodes a key exactly from the message that the coordinator makes of it.
pub proto_value_to_property_key_iff :
    (value : ProtoValue) (key : PropertyKey)
    → (proto_value_to_property_key value ≡ Result.ok key) ↔ (value ≡ property_key_to_proto key)
unfolding proto_value_to_property_key property_key_to_proto
proto_value_to_property_key_iff value key = (
  λ h. ap of_kind ((kind_to_property_key_iff value.kind key).0 h),
  λ h. (kind_to_property_key_iff value.kind key).1 (ap (λ (v : ProtoValue). v.kind) h),
)

filter_of_sent :
    (p : ProtoPropertyFilter) (f : PropertyFilter)
    → proto_filter_to_property_filter p ≡ Result.ok f
    → p ≡ property_filter_to_proto f
unfolding proto_filter_to_property_filter property_filter_to_proto
filter_of_sent p f h = elim (Option-cases (try_from p.op)) [
  | inl e ↦ ground arith
  | inr (op, e) ↦ elim (Option-cases p.value) [
    | inl e' ↦ ground arith
    | inr (sent, e') ↦ elim (Result-cases (proto_value_to_literal sent)) [
      | inl (failure, e'') ↦ ground arith
      | inr (value, e'') ↦
          let decoded : PropertyFilter = record {
            property = p.property;
            op = op_of op;
            value = value;
          } in
          let same : decoded ≡ f = cc in
          subst (λ z. p ≡ property_filter_to_proto z) same
            (λ i. record {
              property = p.property;
              op =
                  (as_i32_of_try_from p.op op e ∙ ap as_i32 (sym (comparison_op_to_proto-op_of op)))
                    i;
              value = (e' ∙ ap some ((literal_iff sent value).0 e'')) i;
            })
    ]
  ]
]

filter_sent :
    (f : PropertyFilter)
    → proto_filter_to_property_filter (property_filter_to_proto f) ≡ Result.ok f
unfolding proto_filter_to_property_filter property_filter_to_proto
filter_sent f =
    rw
      (
        try_from-as_i32,
        op_of-comparison_op_to_proto,
        (literal_iff (literal_to_proto f.value) f.value).1 refl,
      )
      refl

filters_of_sent :
    (protos : List ProtoPropertyFilter) (filters : List PropertyFilter)
    → collect_filters protos ≡ Result.ok filters
    → protos ≡ map property_filter_to_proto filters
unfolding collect_filters
filters_of_sent [] [] h = refl
filters_of_sent [] (f ∷ fs) h = cc
filters_of_sent (p ∷ ps) filters h = elim (Result-cases (proto_filter_to_property_filter p)) [
  | inl (failure, e) ↦ ground arith
  | inr (f, e) ↦ elim (Result-cases (collect_filters ps)) [
    | inl (failure, e') ↦ ground arith
    | inr (fs, e') ↦
        let same : f ∷ fs ≡ filters = cc in
        subst (λ z. p ∷ ps ≡ map property_filter_to_proto z) same
          (λ i. filter_of_sent p f e i ∷ filters_of_sent ps fs e' i)
  ]
]

filters_sent :
    (filters : List PropertyFilter)
    → collect_filters (map property_filter_to_proto filters) ≡ Result.ok filters
unfolding collect_filters
filters_sent [] = refl
filters_sent (f ∷ fs) = rw (filter_sent f, filters_sent fs) refl

-- The partition node decodes the filters of a request exactly where the coordinator made them, and
-- to what it made them of: an operator that is not one of the six, a missing value and a literal of
-- another kind anywhere in the list are errors.
pub collect_filters_iff :
    (protos : List ProtoPropertyFilter) (filters : List PropertyFilter)
    → (collect_filters protos ≡ Result.ok filters) ↔ (protos ≡ map property_filter_to_proto filters)
unfolding collect_filters
collect_filters_iff protos filters =
    (filters_of_sent protos filters, λ e. ap collect_filters e ∙ filters_sent filters)

map_pair :
    {A B : Type 0} (entries : List (A × B)) → map (λ (n : A × B). (n.0, n.1)) entries ≡ entries
map_pair [] = refl
map_pair (x ∷ xs) = ap (◌∷◌ x) (map_pair xs)

-- A binding comes back from either side as it was.
pub received_binding : (b : Binding) → proto_binding_to_binding (Node.binding_to_proto b) ≡ b
unfolding proto_binding_to_binding Node.binding_to_proto
received_binding b = λ i. record {
  nodes = (map_pair (map (λ (n : String × ℕ). (n.0, n.1)) b.nodes) ∙ map_pair b.nodes) i;
  edges = (map_pair (map (λ (n : String × ℕ). (n.0, n.1)) b.edges) ∙ map_pair b.edges) i;
}

pub sent_binding : (b : Binding) → Node.proto_binding_to_binding (binding_to_proto b) ≡ b
unfolding binding_to_proto Node.proto_binding_to_binding
sent_binding b = λ i. record {
  nodes = (map_pair (map (λ (n : String × ℕ). (n.0, n.1)) b.nodes) ∙ map_pair b.nodes) i;
  edges = (map_pair (map (λ (n : String × ℕ). (n.0, n.1)) b.edges) ∙ map_pair b.edges) i;
}

pub received_frontier :
    (bs : List Binding) → map proto_binding_to_binding (map Node.binding_to_proto bs) ≡ bs
received_frontier [] = refl
received_frontier (b ∷ bs) = λ i. received_binding b i ∷ received_frontier bs i

pub sent_frontier :
    (bs : List Binding) → map Node.proto_binding_to_binding (map binding_to_proto bs) ≡ bs
sent_frontier [] = refl
sent_frontier (b ∷ bs) = λ i. sent_binding b i ∷ sent_frontier bs i

-- neither a list nor null
abbrev pub is_sendable : PropertyValue → Bool
is_sendable (PropertyValue.list _) = false
is_sendable PropertyValue.null = false
is_sendable _ = true

field_sent :
    (name : String) (value : PropertyValue) (rest : Properties)
    → filter_map field_of_proto (filter_map field_to_proto ((name, value) ∷ rest)) ≡ (
        if is_sendable value
        then (name, value) ∷ filter_map field_of_proto (filter_map field_to_proto rest)
        else filter_map field_of_proto (filter_map field_to_proto rest))
unfolding field_of_proto field_to_proto property_value_to_proto proto_value_to_property_value
field_sent name value rest = ground arith

fields_sent :
    (properties : Properties)
    → filter_map field_of_proto (filter_map field_to_proto properties)
      ≡ filter (λ (p : String × PropertyValue). is_sendable p.1) properties
fields_sent [] = refl
fields_sent ((name, value) ∷ rest) = field_sent name value rest ∙ rw (fields_sent rest) refl

-- A record that the partition node sends arrives with its label and with all of its properties but
-- the lists and the nulls, in their order.
pub node_record_sent :
    (held : NodeRecord)
    → proto_node_properties_to_record (node_record_to_proto held) ≡ record {
      label = held.label;
      properties = filter (λ (p : String × PropertyValue). is_sendable p.1) held.properties;
    }
unfolding proto_node_properties_to_record node_record_to_proto
node_record_sent held =
    λ i. record { label = held.label; properties = fields_sent held.properties i }

pub edge_record_sent :
    (held : EdgeRecord)
    → proto_edge_properties_to_record (edge_record_to_proto held) ≡ record {
      edge_type = held.edge_type;
      properties = filter (λ (p : String × PropertyValue). is_sendable p.1) held.properties;
    }
unfolding proto_edge_properties_to_record edge_record_to_proto
edge_record_sent held =
    λ i. record { edge_type = held.edge_type; properties = fields_sent held.properties i }
