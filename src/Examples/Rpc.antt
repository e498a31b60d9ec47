-- ===== src/Examples/Rpc.antt =====
-- Tests of the calls of a replica.
use doi.Prelude.{
  String, true, List, [], ◌∷◌, none, some, Result, get, All, map, any, ◌↔◌, ◌≡◌, refl, arith,
  if◌then◌else◌, nat_eq, string_eq, ◌==◌,
}
use doi.Prelude.Int.{pos}
use doi.Schema.{NodeId}
use doi.Dsl.{ComparisonOp, Direction, Literal, PropertyFilter}
use doi.Index.{NodeRecord, acquire}
use doi.Cluster.{ReplicaEndpoint, SocketAddr}
use doi.Query.{ok, PlanStep, ExpandHop, AntiJoinStep, Binding, from_node, ◌>>=◌}
use doi.Query.Local.{expand_hop, check_anti_join}
use doi.Proto.{Status, PartitionService}
use doi.PartitionNode.Convert.{collect_filters}
use doi.PartitionNode.Service.{PartitionServiceImpl, service}
use doi.Coordinator.Convert.{property_filter_to_proto}
use doi.Coordinator.Convert.RoundTrip.{collect_filters_iff}
use doi.Coordinator.Rpc.{
  ConnectError, client, socket_eq, grpc_expand_hop, grpc_check_anti_join, grpc_get_node_properties,
}
use doi.Coordinator.Rpc.Calls.{
  IsCached, IsSendable, over_wire, flattened, client-IsCached, grpc_expand_hop-runs,
}
use doi.Coordinator.Rpc.AntiJoinCall.{IsMap, grpc_check_anti_join-runs}
use doi.Coordinator.Rpc.PropertiesCall.{map_some, arrived_node, grpc_get_node_properties-runs}
use doi.Examples.{generation, no_times}

abbrev node_zero : PartitionServiceImpl
node_zero = record { generation = record { current = generation }; partition = 0 }

abbrev only_service : SocketAddr → Result ConnectError PartitionService
only_service address = Result.ok (service node_zero no_times)

abbrev no_text : SocketAddr → String
no_text address = "address"

abbrev no_status : Status → String
no_status status = "status"

abbrev replica : ReplicaEndpoint
replica = record { replica = "node-0"; address = SocketAddr.v4 0 80; healthy = true }

empty-IsCached : IsCached only_service no_text []
unfolding IsCached
empty-IsCached address made h = cc

-- age >= 18
abbrev adult : PropertyFilter
adult = record { property = "age"; op = ComparisonOp.gte; value = Literal.int64 (pos 18) }

collect_filters_iff_example :
    (collect_filters (map property_filter_to_proto (adult ∷ [])) ≡ Result.ok (adult ∷ []))
    ↔ (map property_filter_to_proto (adult ∷ []) ≡ map property_filter_to_proto (adult ∷ []))
collect_filters_iff_example =
    collect_filters_iff (map property_filter_to_proto (adult ∷ [])) (adult ∷ [])

client-IsCached_example :
    ((client only_service no_text replica []).0 ≡ ok (service node_zero no_times))
    × IsCached only_service no_text (client only_service no_text replica []).1
    × (get replica.address (client only_service no_text replica []).1
        ≡ some (service node_zero no_times))
client-IsCached_example =
    client-IsCached only_service no_text replica (service node_zero no_times) [] refl empty-IsCached

abbrev hop : ExpandHop
hop = record {
  from_alias = "a";
  to_alias = "b";
  to_label = some "Person";
  edge_type = some "KNOWS";
  direction = Direction.outgoing;
  hops = record { min = 1; max = 2 };
  filters = adult ∷ [];
  edge_alias = none;
}

hop-IsSendable : IsSendable hop
hop-IsSendable = record { label = λ e. cc; type = λ e. cc; edge = λ e. cc }

abbrev frontier : List Binding
frontier = from_node "a" 0 ∷ from_node "a" 2 ∷ []

grpc_expand_hop-runs_example :
    (grpc_expand_hop only_service no_text no_status replica (PlanStep.expand_hop hop) frontier []).0
    ≡ over_wire no_status (
        expand_hop (acquire node_zero.generation) (PlanStep.expand_hop hop) frontier
        >>= (λ found. ok (flattened found)))
grpc_expand_hop-runs_example =
    grpc_expand_hop-runs only_service no_text no_status node_zero no_times replica [] refl
      empty-IsCached hop frontier hop-IsSendable

abbrev knows_step : AntiJoinStep
knows_step = record {
  from_alias = "a";
  to_alias = "b";
  direction = Direction.outgoing;
  edge_alias = none;
  edge_type = some "KNOWS";
  literal_conditions = [];
  outer_conditions = [];
}

abbrev pair : Binding
pair = record { nodes = ("a", 0) ∷ ("b", 2) ∷ []; edges = [] }

abbrev pairs : List Binding
pairs = pair ∷ pair ∷ []

pairs-IsMap : All IsMap pairs
pairs-IsMap = (((refl, (refl, tt)), tt), (((refl, (refl, tt)), tt), tt))

grpc_check_anti_join-runs_example :
    (grpc_check_anti_join only_service no_text no_status replica knows_step [] pairs []).0
    ≡ over_wire no_status
        (check_anti_join no_times (acquire node_zero.generation) knows_step [] pairs)
grpc_check_anti_join-runs_example =
    grpc_check_anti_join-runs only_service no_text no_status node_zero no_times replica [] refl
      empty-IsCached knows_step [] pairs (λ e. cc) (λ e. cc) pairs-IsMap (omega arith)

grpc_get_node_properties-runs_example :
    (out : List (NodeId × NodeRecord)) × ((grpc_get_node_properties only_service no_text no_status
        replica
        (0 ∷ 7 ∷ 0 ∷ [])
        []).0
      ≡ ok out)
    × ((id : NodeId)
        → get id out ≡ (
            if any (λ n. n == id) (0 ∷ 7 ∷ 0 ∷ [])
            then map_some arrived_node (get id (acquire node_zero.generation).node_records)
            else none))
grpc_get_node_properties-runs_example =
    grpc_get_node_properties-runs only_service no_text no_status node_zero no_times replica [] refl
      empty-IsCached (0 ∷ 7 ∷ 0 ∷ [])
