-- ===== src/Proto.antt =====
-- graph-engine/crates/graph-proto/proto/graph.proto: the messages of the partition service, as the
-- program sees them after the build, and the service's operations. A `map` of a message is an
-- association list, an `i32` an integer.
use doi.Prelude.{ℕ, String, Bool, List, Option, none, some, Result, ◌==◌, nat_eq, if◌then◌else◌}
use doi.Prelude.Int.{ℤ, pos, negsuc}

-- the statuses that the program makes, and the end of a call whose handler panicked
pub data Status : Type 0 where
  invalid_argument internal unavailable : String → Status
  panicked : Status

pub data Kind : Type 0 where
  int64_value timestamp_value : ℤ → Kind
  float64_value : ℕ → Kind
  bool_value : Bool → Kind
  string_value : String → Kind
  bytes_value : List ℕ → Kind

pub record ProtoValue : Type 0 where
  pub kind : Option Kind

pub data ProtoComparisonOp : Type 0 where
  eq ne lt lte gt gte : ProtoComparisonOp

-- `op as i32`
unfoldable pub as_i32 : ProtoComparisonOp → ℤ
as_i32 ProtoComparisonOp.eq = pos 0
as_i32 ProtoComparisonOp.ne = pos 1
as_i32 ProtoComparisonOp.lt = pos 2
as_i32 ProtoComparisonOp.lte = pos 3
as_i32 ProtoComparisonOp.gt = pos 4
as_i32 ProtoComparisonOp.gte = pos 5

-- `ProtoComparisonOp::try_from(op).ok()`
unfoldable pub try_from : ℤ → Option ProtoComparisonOp
try_from (pos n) =
    if n == 0
    then some ProtoComparisonOp.eq
    else if n == 1
    then some ProtoComparisonOp.ne
    else if n == 2
    then some ProtoComparisonOp.lt
    else if n == 3
    then some ProtoComparisonOp.lte
    else if n == 4
    then some ProtoComparisonOp.gt
    else if n == 5
    then some ProtoComparisonOp.gte
    else none
try_from (negsuc _) = none

pub record ProtoPropertyFilter : Type 0 where
  pub property : String
  pub op : ℤ
  pub value : Option ProtoValue

pub record ProtoBinding : Type 0 where
  pub node_ids_by_alias : List (String × ℕ)
  pub edge_ids_by_alias : List (String × ℕ)

pub record NodeProperties : Type 0 where
  pub label : String
  pub fields : List (String × ProtoValue)

pub record EdgeProperties : Type 0 where
  pub edge_type : String
  pub fields : List (String × ProtoValue)

pub record ResolveStartRequest : Type 0 where
  pub alias : String
  pub label_or_type : String
  pub property : String
  pub key : Option ProtoValue

pub record ResolveAllRequest : Type 0 where
  pub alias : String
  pub label : String

pub record ExpandHopRequest : Type 0 where
  pub frontier : List ProtoBinding
  pub from_alias : String
  pub to_alias : String
  pub to_label : String
  pub edge_type : String
  pub incoming : Bool
  pub hop_min : ℕ
  pub hop_max : ℕ
  pub filters : List ProtoPropertyFilter
  pub edge_alias : String

pub record CheckAntiJoinRequest : Type 0 where
  pub frontier : List ProtoBinding
  pub from_alias : String
  pub to_alias : String
  pub edge_alias : String
  pub edge_type : String
  pub incoming : Bool
  pub conditions : List ProtoPropertyFilter

pub record CheckAntiJoinResponse : Type 0 where
  pub surviving_indices : List ℕ

pub record IndexStatusResponse : Type 0 where
  pub pinned_snapshot_by_table : List (String × ℤ)
  pub last_rebuilt_unix_ms : ℤ
  pub node_count : ℕ
  pub edge_count : ℕ

-- A stream of bindings is the list of its items.
abbrev pub BindingStream : Type 0
BindingStream = List (Result Status ProtoBinding)

-- `service PartitionService`: what a server implements and a connected client calls. The request of
-- ids is the list of them, the response the map of their properties.
pub record PartitionService : Type 0 where
  pub resolve_start : ResolveStartRequest → Result Status BindingStream
  pub resolve_all : ResolveAllRequest → Result Status BindingStream
  pub expand_hop : ExpandHopRequest → Result Status BindingStream
  pub check_anti_join : CheckAntiJoinRequest → Result Status CheckAntiJoinResponse
  pub get_node_properties : (node_ids : List ℕ) → Result Status (List (ℕ × NodeProperties))
  pub get_edge_properties : (edge_ids : List ℕ) → Result Status (List (ℕ × EdgeProperties))
  pub get_index_status : Result Status IndexStatusResponse
