-- ===== src/Coordinator/Rpc.antt =====
-- graph-engine/bin/graph-coordinator/src/grpc_partition_rpc.rs: the calls of a replica over gRPC. To
-- connect is a parameter, which gives the operations of the service at an address; so are the texts of
-- an address and of a status. An operation takes and returns the cache of clients.
pub mod Calls
pub mod PropertiesCall
pub mod AntiJoinCall
use doi.Prelude.{
  ℕ, String, Bool, true, false, List, [], ◌∷◌, ◌<>◌, Option, none, some, map, get, insert,
  filter_map, get_elem?, Result, Eq, ◌==◌, ==_iff, nat_eq, ◌&&◌, ◌↔◌, ◌≡◌, arith,
}
use doi.Schema.{NodeId, EdgeId}
use doi.Dsl.{Direction, PropertyFilter}
use doi.Index.{NodeRecord, EdgeRecord}
use doi.Cluster.{SocketAddr, ReplicaEndpoint}
use doi.Query.{
  Run, ok, err, ◌>>=◌, rpc, ExecutionError, PlanStep, ExpandHop, AntiJoinStep, Binding, Frontier,
}
use doi.Query.Distributed.{PartitionRpc}
use doi.Proto.{
  Status, ProtoBinding, NodeProperties, EdgeProperties, ResolveStartRequest, ResolveAllRequest,
  ExpandHopRequest, CheckAntiJoinRequest, CheckAntiJoinResponse, BindingStream, PartitionService,
}
use doi.Coordinator.Convert.{
  property_key_to_proto, property_filter_to_proto, binding_to_proto, proto_binding_to_binding,
  proto_node_properties_to_record, proto_edge_properties_to_record,
}

-- why there is no channel, with the text of the reason
pub data ConnectError : Type 0 where
  invalid_address failed : String → ConnectError

abbrev pub incoming_of : Direction → Bool
incoming_of Direction.incoming = true
incoming_of Direction.outgoing = false

-- `unwrap_or_default()`
abbrev pub text_or_empty : Option String → String
text_or_empty none = ""
text_or_empty (some s) = s

unfoldable pub hop_request : ExpandHop → List Binding → ExpandHopRequest
unfolding binding_to_proto property_filter_to_proto
hop_request hop frontier = record {
  frontier = map binding_to_proto frontier;
  from_alias = hop.from_alias;
  to_alias = hop.to_alias;
  to_label = text_or_empty hop.to_label;
  edge_type = text_or_empty hop.edge_type;
  incoming = incoming_of hop.direction;
  hop_min = hop.hops.min;
  hop_max = hop.hops.max;
  filters = map property_filter_to_proto hop.filters;
  edge_alias = text_or_empty hop.edge_alias;
}

unfoldable pub anti_join_request :
    AntiJoinStep → List PropertyFilter → List Binding → CheckAntiJoinRequest
unfolding binding_to_proto property_filter_to_proto
anti_join_request step conditions frontier = record {
  frontier = map binding_to_proto frontier;
  from_alias = step.from_alias;
  to_alias = step.to_alias;
  edge_alias = text_or_empty step.edge_alias;
  edge_type = text_or_empty step.edge_type;
  incoming = incoming_of step.direction;
  conditions = map property_filter_to_proto conditions;
}

-- `SocketAddr: Eq`
unfoldable pub socket_beq : SocketAddr → SocketAddr → Bool
socket_beq (SocketAddr.v4 a p) (SocketAddr.v4 b q) = a == b && p == q
socket_beq (SocketAddr.v6 a p) (SocketAddr.v6 b q) = a == b && p == q
socket_beq _ _ = false

pub socket_beq_iff : (a b : SocketAddr) → (socket_beq a b ≡ true) ↔ (a ≡ b)
unfolding socket_beq
socket_beq_iff (SocketAddr.v4 a p) (SocketAddr.v4 b q) = ground (arith, ==_iff a b, ==_iff p q)
socket_beq_iff (SocketAddr.v6 a p) (SocketAddr.v6 b q) = ground (arith, ==_iff a b, ==_iff p q)
socket_beq_iff (SocketAddr.v4 a p) (SocketAddr.v6 b q) = ground arith
socket_beq_iff (SocketAddr.v6 a p) (SocketAddr.v4 b q) = ground arith

instance abbrev pub socket_eq : Eq SocketAddr
socket_eq = record { beq = socket_beq; beq_iff = socket_beq_iff }

-- `GrpcPartitionRpc { clients }`
abbrev pub Clients : Type 0
Clients = List (SocketAddr × PartitionService)

module _ (connect : SocketAddr → Result ConnectError PartitionService)
    (address_text : SocketAddr → String) where
  unfoldable pub connect_error : SocketAddr → ConnectError → ExecutionError
  connect_error address (invalid_address e) =
      rpc ("invalid replica address " <> address_text address <> ": " <> e)
  connect_error address (failed e) =
      rpc ("failed to connect to replica " <> address_text address <> ": " <> e)

  unfoldable pub client : ReplicaEndpoint → Clients → Run PartitionService × Clients
  unfolding connect_error
  client replica clients = elim (get replica.address clients) [
    | some cached ↦ (ok cached, clients)
    | none ↦ elim (connect replica.address) [
      | Result.err e ↦ (err (connect_error replica.address e), clients)
      | Result.ok made ↦ (ok made, insert replica.address made clients)
    ]
  ]

  -- `let mut client = self.client(replica).await?`, and what follows
  unfoldable pub with_client :
      {A : Type 0} → ReplicaEndpoint → Clients → (PartitionService → Run A) → Run A × Clients
  unfolding client
  with_client replica clients call =
      let (connected, clients') = client replica clients in (connected >>= call, clients')

module _ (status_text : Status → String) where
  -- `map_err(|e| ExecutionError::Rpc(e.to_string()))?`
  abbrev pub or_rpc : {A : Type 0} → Result Status A → Run A
  or_rpc (Result.err e) = err (rpc (status_text e))
  or_rpc (Result.ok a) = ok a

  unfoldable pub collect : BindingStream → Run (List ProtoBinding)
  collect [] = ok []
  collect (item ∷ stream) = do proto ← or_rpc item; out ← collect stream; ok (proto ∷ out)

  -- the answer of a stream of bindings
  unfoldable pub received : Result Status BindingStream → Run (List Binding)
  unfolding collect proto_binding_to_binding
  received response = do
    stream ← or_rpc response
    bindings ← collect stream
    ok (map proto_binding_to_binding bindings)

module _ (connect : SocketAddr → Result ConnectError PartitionService)
    (address_text : SocketAddr → String) (status_text : Status → String) where
  unfoldable pub grpc_resolve_start :
      ReplicaEndpoint → PlanStep → Clients → Run (List Binding) × Clients
  unfolding with_client received property_key_to_proto
  grpc_resolve_start replica (PlanStep.resolve_start alias label_or_type property key) clients =
      with_client connect address_text replica clients (λ (service : PartitionService).
        received status_text (
          service.resolve_start (record {
            alias = alias;
            label_or_type = label_or_type;
            property = property;
            key = some (property_key_to_proto key);
          })))
  grpc_resolve_start replica _ clients =
      (err (rpc "resolve_start called with a non-ResolveStart step"), clients)

  unfoldable pub grpc_resolve_all :
      ReplicaEndpoint → PlanStep → Clients → Run (List Binding) × Clients
  unfolding with_client received
  grpc_resolve_all replica (PlanStep.resolve_all alias label) clients =
      with_client connect address_text replica clients (λ (service : PartitionService).
        received status_text (service.resolve_all (record { alias = alias; label = label })))
  grpc_resolve_all replica _ clients =
      (err (rpc "resolve_all called with a non-ResolveAll step"), clients)

  unfoldable pub grpc_expand_hop :
      ReplicaEndpoint → PlanStep → List Binding → Clients → Run Frontier × Clients
  unfolding with_client received hop_request
  grpc_expand_hop replica (PlanStep.expand_hop hop) frontier clients =
      with_client connect address_text replica clients (λ (service : PartitionService). (do
        bindings ← received status_text (service.expand_hop (hop_request hop frontier))
        ok (record { local = bindings; remote = [] })))
  grpc_expand_hop replica _ frontier clients =
      (err (rpc "expand_hop called with a non-ExpandHop step"), clients)

  unfoldable pub grpc_check_anti_join :
      ReplicaEndpoint
      → AntiJoinStep
      → List PropertyFilter
      → List Binding
      → Clients
      → Run (List Binding) × Clients
  unfolding with_client anti_join_request
  grpc_check_anti_join replica step conditions frontier clients =
      with_client connect address_text replica clients (λ (service : PartitionService). (do
        response ←
            or_rpc status_text
              (service.check_anti_join (anti_join_request step conditions frontier))
        ok (filter_map (get_elem? frontier) response.surviving_indices)))

  unfoldable pub grpc_get_node_properties :
      ReplicaEndpoint → List NodeId → Clients → Run (List (NodeId × NodeRecord)) × Clients
  unfolding with_client proto_node_properties_to_record
  grpc_get_node_properties replica ids clients =
      with_client connect address_text replica clients (λ (service : PartitionService). (do
        properties ← or_rpc status_text (service.get_node_properties ids)
        ok (
            map (λ (p : ℕ × NodeProperties). (p.0, proto_node_properties_to_record p.1))
              properties)))

  unfoldable pub grpc_get_edge_properties :
      ReplicaEndpoint → List EdgeId → Clients → Run (List (EdgeId × EdgeRecord)) × Clients
  unfolding with_client proto_edge_properties_to_record
  grpc_get_edge_properties replica ids clients =
      with_client connect address_text replica clients (λ (service : PartitionService). (do
        properties ← or_rpc status_text (service.get_edge_properties ids)
        ok (
            map (λ (p : ℕ × EdgeProperties). (p.0, proto_edge_properties_to_record p.1))
              properties)))

  -- the trait's operations, as calls that find the cache in some state
  abbrev pub grpc_rpc : Clients → PartitionRpc
  grpc_rpc clients = record {
    resolve_start = λ replica step. (grpc_resolve_start replica step clients).0;
    resolve_all = λ replica step. (grpc_resolve_all replica step clients).0;
    expand_hop = λ replica step frontier. (grpc_expand_hop replica step frontier clients).0;
    get_node_properties = λ replica ids. (grpc_get_node_properties replica ids clients).0;
    get_edge_properties = λ replica ids. (grpc_get_edge_properties replica ids clients).0;
    check_anti_join = λ replica step conditions frontier.
        (grpc_check_anti_join replica step conditions frontier clients).0;
  }
