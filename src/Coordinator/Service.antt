-- ===== src/Coordinator/Service.antt =====
-- graph-engine/bin/graph-coordinator/src/service.rs: the operations of `GraphServiceImpl`, without
-- their metrics. The parser is a parameter, whose errors are their text; so are the debug text of
-- validation errors, and the connection to a replica.
pub mod Answers
pub mod Returned
use doi.Prelude.{
  ℕ, String, Bool, true, false, List, [], ◌∷◌, ◌++◌, ◌<>◌, Option, none, some, map, get, filter,
  take, leb, if◌then◌else◌, Result, err, ok, ◌>>=◌,
}
use doi.Prelude.Int.{ℤ}
use doi.Schema.{NodeId, EdgeId, Schema}
use doi.Dsl.{ReturnItem, OrderBy, Query, ValidationError}
use doi.Dsl.Validator.{validate}
use doi.Index.{PartitionId, NodeRecord, EdgeRecord}
use doi.Cluster.{
  SocketAddr, ReplicaEndpoint, PartitionMap, DiscoveryError, Discovery, healthy_replicas,
}
use doi.Query.{QueryPlan, Binding}
use doi.Query.Planner.{plan}
use doi.Query.Distributed.{ScatterGatherExecutor, first_of}
use doi.Query.Distributed.Execute.{is_empty, keys, get_node_properties, get_edge_properties}
use doi.Query.Distributed.Plans.{execute}
use doi.Proto.{
  Status, invalid_argument, internal, unavailable, panicked, IndexStatusResponse, PartitionService,
}
use doi.PartitionNode.Service.{internally}
use doi.Coordinator.Rpc.{ConnectError, invalid_address, failed}
use doi.Coordinator.Results.{
  AliasKinds, classify, needed_node_ids, needed_edge_ids, sort_bindings_by_property, QueryResult,
  project_row,
}

pub record GraphServiceImpl : Type 0 where
  pub schema : Schema
  pub schema_idl : String
  pub discovery : Discovery
  pub executor : ScatterGatherExecutor

pub record SchemaResponse : Type 0 where
  pub schema_idl : String
  pub version : String

unfoldable pub handle_get_schema : GraphServiceImpl → Result Status SchemaResponse
handle_get_schema self = ok (record { schema_idl = self.schema_idl; version = self.schema.version })

-- `DiscoveryError::to_string`
unfoldable pub discovery_text : DiscoveryError → String
discovery_text (DiscoveryError.kubernetes_api e) = "Kubernetes API error: " <> e

-- `current_map().await.map_err(..)?`
unfoldable pub discovered : GraphServiceImpl → Result Status PartitionMap
unfolding discovery_text
discovered self = elim self.discovery.current_map [
  | err e ↦ err (unavailable ("cluster discovery failed: " <> discovery_text e))
  | ok partitions ↦ ok partitions
]

-- `keys().min_by_key(..)`
unfoldable pub least : List PartitionId → Option PartitionId
least [] = none
least (p ∷ ps) = elim (least ps) [ none ↦ some p | some q ↦ some (if leb p q then p else q) ]

-- `ok_or_else(|| Status::unavailable(message))?`
abbrev pub available : {A : Type 0} → String → Option A → Result Status A
available message none = err (unavailable message)
available message (some a) = ok a

unfoldable pub handle_get_index_status :
    (connect : SocketAddr → Result ConnectError PartitionService)
    → (partition_text : PartitionId → String) → GraphServiceImpl
    → Result Status IndexStatusResponse
unfolding discovered least
handle_get_index_status connect partition_text self = do
  partitions ← discovered self
  partition ←
      available "no partitions currently discovered" (least (keys partitions.replicas_by_partition))
  replica ←
      available ("no healthy replica for partition " <> partition_text partition)
        (first_of (healthy_replicas partitions partition))
  client ← elim (connect replica.address) [
    | err (invalid_address e) ↦ err (internal e)
    | err (failed e) ↦ err (unavailable e)
    | ok service ↦ ok service
  ]
  client.get_index_status

-- the aliases of `RETURN`, and that of `ORDER BY`
abbrev pub wanted_aliases : List ReturnItem → Option OrderBy → List String
wanted_aliases project none = map (λ (item : ReturnItem). item.alias) project
wanted_aliases project (some order) =
    map (λ (item : ReturnItem). item.alias) project ++ order.alias ∷ []

-- `truncate`
abbrev pub limited : Option ℕ → List Binding → List Binding
limited none bindings = bindings
limited (some limit) bindings = take limit bindings

module _ (kinds : AliasKinds) (node_properties : List (NodeId × NodeRecord))
    (edge_properties : List (EdgeId × EdgeRecord)) where
  abbrev pub ordered : Option OrderBy → List Binding → List Binding
  ordered none bindings = bindings
  ordered (some order) bindings =
      sort_bindings_by_property kinds node_properties edge_properties order bindings

  -- what is left to do when the properties are there
  unfoldable pub result_rows : Query → List ReturnItem → List Binding → List QueryResult
  result_rows query project bindings =
      map (project_row kinds node_properties edge_properties project)
        (limited query.limit (ordered query.order_by bindings))

-- `map_err(|errors| Status::invalid_argument(..))?`
abbrev pub validated : (List ValidationError → String) → List ValidationError → Result Status Unit
validated debug_text [] = ok tt
validated debug_text (e ∷ es) =
    err (invalid_argument ("query failed validation: " <> debug_text (e ∷ es)))

-- A panic of the planner ends the call.
abbrev pub planned : Option QueryPlan → Result Status QueryPlan
planned none = err panicked
planned (some p) = ok p

-- `PestParser.parse(&dsl).map_err(..)?`
unfoldable pub parsed : (parse : String → Result String Query) → String → Result Status Query
parsed parse dsl = elim (parse dsl) [
  | err e ↦ err (invalid_argument ("syntax error: " <> e))
  | ok query ↦ ok query
]

-- the properties of the ids, with no call if there are none
unfoldable pub hydrated_nodes :
    (xxh3_64 : List ℕ → ℕ)
    → GraphServiceImpl
    → PartitionMap
    → List NodeId
    → Result Status (List (NodeId × NodeRecord))
hydrated_nodes xxh3_64 self partitions ids =
    if is_empty ids
    then ok []
    else internally (get_node_properties self.executor partitions xxh3_64 ids)

unfoldable pub hydrated_edges :
    GraphServiceImpl → PartitionMap → List EdgeId → Result Status (List (EdgeId × EdgeRecord))
hydrated_edges self partitions ids =
    if is_empty ids then ok [] else internally (get_edge_properties self.executor partitions ids)

-- `execute_query` from the bindings on
unfoldable pub answer :
    (xxh3_64 : List ℕ → ℕ)
    → GraphServiceImpl
    → Query
    → QueryPlan
    → PartitionMap
    → List Binding
    → Result Status (List QueryResult)
answer xxh3_64 self query plan partitions bindings = do
  let kinds = classify bindings (wanted_aliases plan.project query.order_by) []
  node_properties ←
      hydrated_nodes xxh3_64 self partitions
        (needed_node_ids plan.project query.order_by kinds bindings)
  edge_properties ←
      hydrated_edges self partitions (needed_edge_ids plan.project query.order_by kinds bindings)
  ok (result_rows kinds node_properties edge_properties query plan.project bindings)

module _ (parse : String → Result String Query) (debug_text : List ValidationError → String)
    (xxh3_64 : List ℕ → ℕ) (parse_rfc3339_micros : String → Option ℤ) where
  -- `execute_query` from the plan on
  unfoldable pub execute_plan :
      GraphServiceImpl → Query → QueryPlan → Result Status (List QueryResult)
  execute_plan self query plan = do
    partitions ← discovered self
    bindings ← internally (execute self.executor partitions xxh3_64 parse_rfc3339_micros plan)
    answer xxh3_64 self query plan partitions bindings

  unfoldable pub execute_query : GraphServiceImpl → String → Result Status (List QueryResult)
  execute_query self dsl = do
    query ← parsed parse dsl
    valid ← validated debug_text (validate self.schema query)
    plan ← planned (plan query)
    execute_plan self query plan
