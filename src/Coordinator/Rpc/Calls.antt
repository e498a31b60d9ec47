-- ===== src/Coordinator/Rpc/Calls.antt =====
-- graph-engine/bin/graph-coordinator/src/grpc_partition_rpc.rs: a call of a replica, against the local
-- executor that the replica runs.
use doi.Prelude.{◌>>=◌ as ◌>>=R◌}
use doi.Prelude.{
  String, List, [], ◌∷◌, ◌++◌, Option, none, some, map, get, Result, ◌≢◌, ◌≡◌, refl, sym, ap, ◌∙◌,
  arith, inl, inr, Option-cases, ok-inj, ==_iff, string_eq, get-insert, get-insert_self,
}
use doi.Prelude.Int.{ℤ}
use doi.Dsl.{Direction, PropertyFilter}
use doi.Index.Key.{PropertyKey}
use doi.Index.{RemoteRef, acquire}
use doi.Cluster.{SocketAddr, ReplicaEndpoint}
use doi.Query.{Run, ok, err, panic, ◌>>=◌, rpc, PlanStep, ExpandHop, Binding, Frontier}
use doi.Query.Local.{resolve_start, resolve_all, expand_hop}
use doi.Proto.{Status, internal, panicked, PartitionService, BindingStream}
use doi.PartitionNode.Convert.{bindings_to_stream, proto_value_to_property_key, collect_filters}
use doi.PartitionNode.Convert as Node
use doi.PartitionNode.Service.{
  PartitionServiceImpl, internally, error_text, non_empty, direction_of, requested_hop,
  handle_resolve_start, handle_resolve_all, handle_expand_hop, service,
}
use doi.Coordinator.Convert.{binding_to_proto, property_filter_to_proto, property_key_to_proto}
use doi.Coordinator.Convert.RoundTrip.{
  received_frontier, sent_frontier, collect_filters_iff, proto_value_to_property_key_iff,
}
use doi.Coordinator.Rpc.{
  ConnectError, Clients, client, with_client, collect, received, text_or_empty, hop_request,
  grpc_resolve_start, grpc_resolve_all, grpc_expand_hop, socket_beq_iff, incoming_of, socket_eq,
}

-- A name that the wire tells from its absence.
abbrev pub IsNamed : Option String → Type 0
IsNamed name = name ≢ some ""

-- A hop that the wire carries as it is.
pub record IsSendable (hop : ExpandHop) : Type 0 where
  pub label : IsNamed hop.to_label
  pub type : IsNamed hop.edge_type
  pub edge : IsNamed hop.edge_alias

pub non_empty-text_or_empty :
    (name : Option String) → IsNamed name → non_empty (text_or_empty name) ≡ name
unfolding non_empty
non_empty-text_or_empty none h = refl
non_empty-text_or_empty (some s) h = ground (arith, ==_iff s "")

pub direction_of-incoming_of : (d : Direction) → direction_of (incoming_of d) ≡ d
direction_of-incoming_of d = ground arith

requested_hop-hop_request :
    (hop : ExpandHop) (frontier : List Binding)
    → IsSendable hop
    → requested_hop (hop_request hop frontier) hop.filters ≡ hop
unfolding requested_hop hop_request
requested_hop-hop_request hop frontier h = λ i. record {
  from_alias = hop.from_alias;
  to_alias = hop.to_alias;
  to_label = non_empty-text_or_empty hop.to_label h.label i;
  edge_type = non_empty-text_or_empty hop.edge_type h.type i;
  direction = direction_of-incoming_of hop.direction i;
  hops = hop.hops;
  filters = hop.filters;
  edge_alias = non_empty-text_or_empty hop.edge_alias h.edge i;
}

-- all that a hop found, in one list
abbrev pub flattened : Frontier → Frontier
flattened found = record {
  local = found.local ++ map (λ (r : RemoteRef × Binding). r.1) found.remote;
  remote = [];
}

module _ (status_text : Status → String) where
  -- How the outcome of a run on the replica reaches the coordinator.
  abbrev pub over_wire : {A : Type 0} → Run A → Run A
  over_wire panic = err (rpc (status_text panicked))
  over_wire (err e) = err (rpc (status_text (internal (error_text e))))
  over_wire (ok a) = ok a

  collected :
      (bs : List Binding)
      → collect status_text (bindings_to_stream bs) ≡ ok (map Node.binding_to_proto bs)
  unfolding collect bindings_to_stream
  collected [] = refl
  collected (b ∷ bs) = rw (collected bs) refl

  collect-bindings_to_stream :
      (bs : List Binding) → received status_text (Result.ok (bindings_to_stream bs)) ≡ ok bs
  unfolding received
  collect-bindings_to_stream bs = rw (collected bs, received_frontier bs) refl

  -- a handler that streams what the executor found, read by the client
  received-internally :
      {A : Type 0} (r : Run A) (found : A → List Binding)
      → received status_text (internally r >>=R (λ a. Result.ok (bindings_to_stream (found a))))
        ≡ over_wire (r >>= (λ a. ok (found a)))
  unfolding received internally
  received-internally panic found = refl
  received-internally (err e) found = refl
  received-internally (ok a) found = collect-bindings_to_stream (found a)

module _ (connect : SocketAddr → Result ConnectError PartitionService)
    (address_text : SocketAddr → String) where
  -- The cache holds nothing but what a connection to the address gives.
  unfoldable pub IsCached : Clients → Type 0
  IsCached clients =
      (address : SocketAddr) (made : PartitionService)
      → get address clients ≡ some made
      → connect address ≡ Result.ok made

  -- Where the address of a replica connects and the cache is sound, the client is the one that the
  -- connection gives; afterwards the cache is sound, and holds the client of the address.
  pub client-IsCached :
      (replica : ReplicaEndpoint) (made : PartitionService) (clients : Clients)
      → connect replica.address ≡ Result.ok made
      → IsCached clients
      → ((client connect address_text replica clients).0 ≡ ok made)
        × IsCached (client connect address_text replica clients).1
        × (get replica.address (client connect address_text replica clients).1 ≡ some made)
  unfolding client IsCached
  client-IsCached replica made clients c s = elim (Option-cases (get replica.address clients)) [
    | inl e ↦
        rw (e, c, client)
          (
            refl,
            λ address other g. ground (
              arith,
              get-insert replica.address address made clients,
              socket_beq_iff replica.address address,
              s address other,
            ),
            get-insert_self replica.address made clients,
          )
    | inr (cached, e) ↦
        let same : cached ≡ made = ok-inj (sym (s replica.address cached e) ∙ c) in
        rw (e, client) (ap ok same, s, e ∙ ap some same)
  ]

module _ (connect : SocketAddr → Result ConnectError PartitionService)
    (address_text : SocketAddr → String) (status_text : Status → String) where
  module _ (self : PartitionServiceImpl) (parse_rfc3339_micros : String → Option ℤ)
      (replica : ReplicaEndpoint) (clients : Clients)
      (connected : connect replica.address ≡ Result.ok (service self parse_rfc3339_micros))
      (cached : IsCached connect address_text clients) where
    pub connects :
        {A : Type 0} (call : PartitionService → Run A)
        → (with_client connect address_text replica clients call).0
          ≡ call (service self parse_rfc3339_micros)
    unfolding with_client
    connects call =
        ap (λ (m : Run PartitionService). m >>= call)
          (client-IsCached connect address_text replica (service self parse_rfc3339_micros) clients
            connected cached).0

    abbrev sent_back : List Binding → Frontier
    sent_back bindings = record { local = bindings; remote = [] }

    -- what the handler does with the hop and the frontier that it read
    abbrev ran : ExpandHop → List Binding → Result Status BindingStream
    ran hop frontier =
        internally (expand_hop (acquire self.generation) (PlanStep.expand_hop hop) frontier)
        >>=R (λ found. Result.ok (bindings_to_stream (flattened found).local))

    handled_hop :
        (hop : ExpandHop) (frontier : List Binding)
        → IsSendable hop
        → handle_expand_hop self (hop_request hop frontier)
          ≡ internally (expand_hop (acquire self.generation) (PlanStep.expand_hop hop) frontier)
            >>=R (λ found. Result.ok (bindings_to_stream (flattened found).local))
    unfolding handle_expand_hop hop_request
    handled_hop hop frontier h =
        ap
          (λ (r : Result Status (List PropertyFilter)). r >>=R (λ filters.
            ran (requested_hop (hop_request hop frontier) filters)
              (map Node.proto_binding_to_binding (map binding_to_proto frontier))))
          ((collect_filters_iff (map property_filter_to_proto hop.filters) hop.filters).1 refl)
        ∙ (λ i. ran (requested_hop-hop_request hop frontier h i) (sent_frontier frontier i))

    over_wire-ok :
        {A : Type 0} (r : Run A)
        → over_wire status_text (r >>= (λ a. ok a)) ≡ over_wire status_text r
    over_wire-ok panic = refl
    over_wire-ok (err e) = refl
    over_wire-ok (ok a) = refl

    over_wire-flattened :
        (r : Run Frontier)
        → (over_wire status_text (r >>= (λ found. ok (flattened found).local))
            >>= (λ bindings. ok (sent_back bindings)))
          ≡ over_wire status_text (r >>= (λ found. ok (flattened found)))
    over_wire-flattened panic = refl
    over_wire-flattened (err e) = refl
    over_wire-flattened (ok found) = refl

    -- Through the network and the service, a hop whose names are not empty texts gives what the local
    -- executor gives on the replica's generation: both of its lists in one, or the text of its error.
    pub grpc_expand_hop-runs :
        (hop : ExpandHop) (frontier : List Binding)
        → IsSendable hop
        → (grpc_expand_hop connect address_text status_text replica
            (PlanStep.expand_hop hop)
            frontier
            clients).0
          ≡ over_wire status_text (
              expand_hop (acquire self.generation) (PlanStep.expand_hop hop) frontier
              >>= (λ found. ok (flattened found)))
    unfolding grpc_expand_hop
    grpc_expand_hop-runs hop frontier h =
        connects _
        ∙ ap
            (λ (r : Result Status BindingStream).
              received status_text r >>= (λ bindings. ok (sent_back bindings)))
            (handled_hop hop frontier h)
        ∙ ap (λ (r : Run (List Binding)). r >>= (λ bindings. ok (sent_back bindings)))
            (received-internally status_text
              (expand_hop (acquire self.generation) (PlanStep.expand_hop hop) frontier)
              (λ found. (flattened found).local))
        ∙ over_wire-flattened
            (expand_hop (acquire self.generation) (PlanStep.expand_hop hop) frontier)

    -- Through the network and the service, a start step gives what the local executor gives.
    pub grpc_resolve_start-runs :
        (alias label_or_type property : String) (key : PropertyKey)
        → (grpc_resolve_start connect address_text status_text replica
            (PlanStep.resolve_start alias label_or_type property key)
            clients).0
          ≡ over_wire status_text (
              resolve_start
                (acquire self.generation)
                (PlanStep.resolve_start alias label_or_type property key))
    unfolding grpc_resolve_start handle_resolve_start
    grpc_resolve_start-runs alias label_or_type property key =
        connects _
        ∙ rw ((proto_value_to_property_key_iff (property_key_to_proto key) key).1 refl) (
            received-internally status_text
              (resolve_start (acquire self.generation)
                (PlanStep.resolve_start alias label_or_type property key))
              (λ bindings. bindings))
        ∙ over_wire-ok (
            resolve_start (acquire self.generation)
              (PlanStep.resolve_start alias label_or_type property key))

    pub grpc_resolve_all-runs :
        (alias label : String)
        → (grpc_resolve_all connect address_text status_text replica
            (PlanStep.resolve_all alias label)
            clients).0
          ≡ over_wire status_text
              (resolve_all (acquire self.generation) (PlanStep.resolve_all alias label))
    unfolding grpc_resolve_all handle_resolve_all
    grpc_resolve_all-runs alias label =
        connects _
        ∙ received-internally status_text
            (resolve_all (acquire self.generation) (PlanStep.resolve_all alias label))
            (λ bindings. bindings)
        ∙ over_wire-ok (resolve_all (acquire self.generation) (PlanStep.resolve_all alias label))
