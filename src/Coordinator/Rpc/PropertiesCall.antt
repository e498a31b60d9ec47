-- ===== src/Coordinator/Rpc/PropertiesCall.antt =====
-- graph-engine/bin/graph-coordinator/src/grpc_partition_rpc.rs, `get_node_properties` and
-- `get_edge_properties`, against the records of the replica's generation.
use doi.Prelude.{
  ℕ, String, ◌&&◌, List, [], ◌∷◌, Option, none, some, map, get, insert, any, filter, filter_map,
  collect_into, Result, ◌≡◌, refl, ◌∙◌, arith, Option-cases, inl, inr, ==_iff, ◌==◌, nat_eq,
  if◌then◌else◌, get-insert, is_some,
}
use doi.Prelude.Int.{ℤ}
use doi.Schema.{NodeId, EdgeId}
use doi.Storage.{PropertyValue}
use doi.Index.{NodeRecord, EdgeRecord, acquire}
use doi.Cluster.{SocketAddr, ReplicaEndpoint}
use doi.Query.{ok}
use doi.Proto.{Status, PartitionService}
use doi.PartitionNode.Convert.{node_record_to_proto, edge_record_to_proto}
use doi.PartitionNode.Service.{
  PartitionServiceImpl, service, found_in, handle_get_node_properties, handle_get_edge_properties,
}
use doi.Coordinator.Convert.{proto_node_properties_to_record, proto_edge_properties_to_record}
use doi.Coordinator.Convert.RoundTrip.{is_sendable, node_record_sent, edge_record_sent}
use doi.Coordinator.Rpc.{ConnectError, Clients, grpc_get_node_properties, grpc_get_edge_properties}
use doi.Coordinator.Rpc.Calls.{IsCached, connects}

abbrev pub map_some : {A B : Type 0} → (A → B) → Option A → Option B
map_some f none = none
map_some f (some a) = some (f a)

module _ {V W : Type 0} where
  get-map :
      (f : V → W) (k : ℕ) (m : List (ℕ × V))
      → get k (map (λ (p : ℕ × V). (p.0, f p.1)) m) ≡ map_some f (get k m)
  get-map f k [] = refl
  get-map f k ((j, v) ∷ m) = ground (arith, get-map f k m)

  get-found :
      (records : List (ℕ × V)) (to_proto : V → W) (k : ℕ) (ids : List ℕ) (m : List (ℕ × W))
      → get k (collect_into (filter_map (found_in records to_proto) ids) m) ≡ (
          if any (λ n. n == k) ids && is_some (get k records)
          then map_some to_proto (get k records)
          else get k m)
  unfolding collect_into
  get-found records to_proto k [] m = refl
  get-found records to_proto k (id ∷ ids) m = elim (Option-cases (get id records)) [
    | inl e ↦ ground (arith, get-found records to_proto k ids m, ==_iff id k)
    | inr (v, e) ↦ ground (
      arith,
      get-found records to_proto k ids (insert id (to_proto v) m),
      get-insert id k (to_proto v) m,
      ==_iff id k,
    )
  ]

get-answered :
    {V W : Type 0} (records : List (ℕ × V)) (to_proto : V → W) (of_proto : W → V) (k : ℕ)
    (ids : List ℕ)
    → get k (
        map
          (λ (p : ℕ × W). (p.0, of_proto p.1))
          (collect_into (filter_map (found_in records to_proto) ids) []))
      ≡ (if any (λ n. n == k) ids
          then map_some (λ v. of_proto (to_proto v)) (get k records)
          else none)
get-answered records to_proto of_proto k ids =
    get-map of_proto k (collect_into (filter_map (found_in records to_proto) ids) [])
    ∙ ground (arith, get-found records to_proto k ids [])

-- A record as it arrives: without the lists and the nulls.
unfoldable pub arrived_node : NodeRecord → NodeRecord
arrived_node held = record {
  label = held.label;
  properties = filter (λ (p : String × PropertyValue). is_sendable p.1) held.properties;
}

unfoldable pub arrived_edge : EdgeRecord → EdgeRecord
arrived_edge held = record {
  edge_type = held.edge_type;
  properties = filter (λ (p : String × PropertyValue). is_sendable p.1) held.properties;
}

module _ (connect : SocketAddr → Result ConnectError PartitionService)
    (address_text : SocketAddr → String) (status_text : Status → String)
    (self : PartitionServiceImpl) (parse_rfc3339_micros : String → Option ℤ)
    (replica : ReplicaEndpoint) (clients : Clients)
    (connected : connect replica.address ≡ Result.ok (service self parse_rfc3339_micros))
    (cached : IsCached connect address_text clients) where
  -- The answer holds exactly the ids that were asked for and that the generation knows, each with its
  -- record but for the properties that are lists or null.
  pub grpc_get_node_properties-runs :
      (ids : List NodeId)
      → (out : List (NodeId × NodeRecord)) × ((grpc_get_node_properties connect address_text
            status_text replica ids clients).0
          ≡ ok out)
        × ((id : NodeId)
            → get id out ≡ (
                if any (λ n. n == id) ids
                then map_some arrived_node (get id (acquire self.generation).node_records)
                else none))
  unfolding grpc_get_node_properties handle_get_node_properties arrived_node
  grpc_get_node_properties-runs ids = (
    _,
    connects connect address_text status_text self parse_rfc3339_micros replica clients connected
        cached _,
    λ id.
        get-answered (acquire self.generation).node_records node_record_to_proto
          proto_node_properties_to_record id ids
        ∙ (λ i.
            if any (λ n. n == id) ids
            then map_some (λ v. node_record_sent v i)
                (get id (acquire self.generation).node_records)
            else none),
  )

  -- The same of edges: the answer holds exactly the ids that were asked for and that the generation knows, each with its
  -- record but for the properties that are lists or null.
  pub grpc_get_edge_properties-runs :
      (ids : List EdgeId)
      → (out : List (EdgeId × EdgeRecord)) × ((grpc_get_edge_properties connect address_text
            status_text replica ids clients).0
          ≡ ok out)
        × ((id : EdgeId)
            → get id out ≡ (
                if any (λ n. n == id) ids
                then map_some arrived_edge (get id (acquire self.generation).edge_records)
                else none))
  unfolding grpc_get_edge_properties handle_get_edge_properties arrived_edge
  grpc_get_edge_properties-runs ids = (
    _,
    connects connect address_text status_text self parse_rfc3339_micros replica clients connected
        cached _,
    λ id.
        get-answered (acquire self.generation).edge_records edge_record_to_proto
          proto_edge_properties_to_record id ids
        ∙ (λ i.
            if any (λ n. n == id) ids
            then map_some (λ v. edge_record_sent v i)
                (get id (acquire self.generation).edge_records)
            else none),
  )
