-- ===== src/PartitionNode/Service.antt =====
-- graph-engine/bin/graph-partition-node/src/service.rs: the handlers of `PartitionServiceImpl`,
-- without the metric of a hop's latency.
use doi.Prelude.{
  ℕ, suc, ◌%◌, ◌^◌, String, Bool, false, ◌&&◌, List, [], ◌∷◌, ◌++◌, ◌<>◌, Option, none, some, map,
  get, filter_map, any, all, length, collect_into, string_eq, nat_eq, ◌==◌, if◌then◌else◌, Result,
  err, ok, ◌>>=◌,
}
use doi.Prelude.Int.{ℤ}
use doi.Dsl.{Direction, PropertyFilter}
use doi.Index.{PartitionId, RemoteRef, GenerationHandle, acquire}
use doi.Query.{
  Run, ExecutionError, no_index, unknown_alias, rpc, PlanStep, ExpandHop, AntiJoinStep, Binding,
}
use doi.Query.Local.{resolve_start, resolve_all, expand_hop, check_anti_join}
use doi.Proto.{
  Status, internal, panicked, ResolveStartRequest, ResolveAllRequest, ExpandHopRequest,
  CheckAntiJoinRequest, CheckAntiJoinResponse, IndexStatusResponse, NodeProperties, EdgeProperties,
  BindingStream, PartitionService,
}
use doi.PartitionNode.Convert.{
  node_record_to_proto, edge_record_to_proto, proto_binding_to_binding, bindings_to_stream,
  proto_value_to_property_key, collect_filters, required,
}

-- `ExecutionError::to_string`
unfoldable pub error_text : ExecutionError → String
error_text no_index = "index generation unavailable"
error_text (unknown_alias alias) = "plan step referenced unknown alias: " <> alias
error_text (rpc message) = "partition RPC failed: " <> message

-- `map_err(|e| Status::internal(e.to_string()))?`
unfoldable pub internally : {A : Type 0} → Run A → Result Status A
unfolding error_text
internally Run.panic = err panicked
internally (Run.err e) = err (internal (error_text e))
internally (Run.ok a) = ok a

-- `(!s.is_empty()).then_some(s)`
unfoldable pub non_empty : String → Option String
non_empty s = if s == "" then none else some s

abbrev pub direction_of : (incoming : Bool) → Direction
direction_of incoming = if incoming then Direction.incoming else Direction.outgoing

-- `HashMap::eq`
unfoldable pub map_beq : List (String × ℕ) → List (String × ℕ) → Bool
map_beq a b =
    (length a == length b)
    && all (λ entry. elim (get entry.0 b) [ none ↦ false | some v ↦ entry.1 == v ]) a

-- `Binding::eq`
unfoldable pub binding_beq : Binding → Binding → Bool
unfolding map_beq
binding_beq a b = map_beq a.nodes b.nodes && map_beq a.edges b.edges

-- `survivors.contains(b)`
unfoldable pub contains : List Binding → Binding → Bool
unfolding binding_beq
contains survivors b = any (λ s. binding_beq s b) survivors

-- `enumerate().filter_map(..)`, from the index `i`
unfoldable pub surviving : List Binding → ℕ → List Binding → List ℕ
unfolding contains
surviving survivors i [] = []
surviving survivors i (b ∷ bs) =
    let rest = surviving survivors (suc i) bs in
    if contains survivors b then i % 2 ^ 32 ∷ rest else rest

-- the closure of `filter_map`: the message of the record that an id has
abbrev pub found_in : {V W : Type 0} → List (ℕ × V) → (V → W) → ℕ → Option (ℕ × W)
found_in records to_proto id = elim (get id records) [
  | none ↦ none
  | some held ↦ some (id, to_proto held)
]

pub record PartitionServiceImpl : Type 0 where
  pub generation : GenerationHandle
  pub partition : PartitionId

unfoldable pub requested_hop : ExpandHopRequest → List PropertyFilter → ExpandHop
unfolding non_empty
requested_hop req filters = record {
  from_alias = req.from_alias;
  to_alias = req.to_alias;
  to_label = non_empty req.to_label;
  edge_type = non_empty req.edge_type;
  direction = direction_of req.incoming;
  hops = record { min = req.hop_min; max = req.hop_max };
  filters = filters;
  edge_alias = non_empty req.edge_alias;
}

unfoldable pub requested_anti_join : CheckAntiJoinRequest → AntiJoinStep
unfolding non_empty
requested_anti_join req = record {
  from_alias = req.from_alias;
  to_alias = req.to_alias;
  direction = direction_of req.incoming;
  edge_alias = non_empty req.edge_alias;
  edge_type = non_empty req.edge_type;
  literal_conditions = [];
  outer_conditions = [];
}

module _ (self : PartitionServiceImpl) where
  unfoldable pub handle_resolve_start : ResolveStartRequest → Result Status BindingStream
  handle_resolve_start req = do
    sent ← required "missing key" req.key
    key ← proto_value_to_property_key sent
    bindings ← internally (
        resolve_start (acquire self.generation)
          (PlanStep.resolve_start req.alias req.label_or_type req.property key))
    ok (bindings_to_stream bindings)

  unfoldable pub handle_resolve_all : ResolveAllRequest → Result Status BindingStream
  handle_resolve_all req = do
    bindings ←
        internally
          (resolve_all (acquire self.generation) (PlanStep.resolve_all req.alias req.label))
    ok (bindings_to_stream bindings)

  unfoldable pub handle_expand_hop : ExpandHopRequest → Result Status BindingStream
  handle_expand_hop req = do
    filters ← collect_filters req.filters
    result ← internally (
        expand_hop (acquire self.generation) (PlanStep.expand_hop (requested_hop req filters))
          (map proto_binding_to_binding req.frontier))
    ok (bindings_to_stream (result.local ++ map (λ (r : RemoteRef × Binding). r.1) result.remote))

  unfoldable pub handle_get_node_properties : List ℕ → Result Status (List (ℕ × NodeProperties))
  handle_get_node_properties node_ids = ok (
      collect_into
        (filter_map (found_in (acquire self.generation).node_records node_record_to_proto) node_ids)
        [])

  unfoldable pub handle_get_edge_properties : List ℕ → Result Status (List (ℕ × EdgeProperties))
  handle_get_edge_properties edge_ids = ok (
      collect_into
        (filter_map (found_in (acquire self.generation).edge_records edge_record_to_proto) edge_ids)
        [])

  unfoldable pub handle_get_index_status : Result Status IndexStatusResponse
  unfolding acquire
  handle_get_index_status =
      let meta = (acquire self.generation).meta in
      ok (record {
        pinned_snapshot_by_table = map (λ (s : String × ℤ). (s.0, s.1)) meta.snapshot_by_table;
        last_rebuilt_unix_ms = meta.built_at_unix_ms;
        node_count = meta.node_count;
        edge_count = meta.edge_count;
      })

  module _ (parse_rfc3339_micros : String → Option ℤ) where
    unfoldable pub handle_check_anti_join :
        CheckAntiJoinRequest → Result Status CheckAntiJoinResponse
    handle_check_anti_join req = do
      conditions ← collect_filters req.conditions
      survivors ← internally (
          check_anti_join parse_rfc3339_micros (acquire self.generation) (requested_anti_join req)
            conditions (map proto_binding_to_binding req.frontier))
      ok (record {
        surviving_indices = surviving survivors 0 (map proto_binding_to_binding req.frontier);
      })

    abbrev pub service : PartitionService
    service = record {
      resolve_start = handle_resolve_start;
      resolve_all = handle_resolve_all;
      expand_hop = handle_expand_hop;
      check_anti_join = handle_check_anti_join;
      get_node_properties = handle_get_node_properties;
      get_edge_properties = handle_get_edge_properties;
      get_index_status = handle_get_index_status;
    }
