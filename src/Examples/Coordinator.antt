-- ===== src/Examples/Coordinator.antt =====
-- Tests of the coordinator's service, on one partition with one replica.
use mathlib.Core.List.{Perm}
use doi.Prelude.{
  String, true, false, List, [], ◌∷◌, none, some, Result, get, In, All, inl, inr, ◌↔◌, ◌≡◌, refl,
  string_eq, nat_eq,
}
use doi.Prelude.Int.{pos}
use doi.Prelude.Sorting.{sort_by}
use doi.Schema.{NodeId}
use doi.Storage.{PropertyValue}
use doi.Dsl.{
  NodePattern, PatternStep, WhereConditions, Query, ReturnItem, OrderBy, SortDirection,
  ValidationError,
}
use doi.Index.{NodeRecord}
use doi.Cluster.{ReplicaEndpoint, SocketAddr, PartitionMap, Discovery}
use doi.Query.{ok, from_node, Binding}
use doi.Query.Distributed.{ScatterGatherExecutor}
use doi.Proto.{invalid_argument}
use doi.Coordinator.Results.{property_of, sort_bindings_by_property, project_row, QueryResult}
use doi.Coordinator.Results.Sorted.{
  KeyKind, ranked, missing, IsSortable, AreOrdered, sort_bindings_by_property-AreOrdered,
}
use doi.Coordinator.Results.Projected.{name_of, HaveNames, item_value, get-project_row}
use doi.Coordinator.Service.{GraphServiceImpl, execute_query}
use doi.Coordinator.Service.Returned.{IsAnswer-iff}
use doi.Coordinator.Service.Answers.{IsRefused, execute_query-refuses, IsAnswer}
use doi.Prelude.{insert, collect_into, list_beq, entry_push, sym, ap, ◌∙◌}
use doi.Schema.Partitioning.{partition_of, stable_hash, to_le_bytes}
use doi.Dsl.Validator.{validate, validate_where_conditions}
use doi.Dsl.Validator.Refs.{validate_node_pattern, validate_property_ref}
use doi.Query.Planner.{plan}
use doi.Query.Distributed.{pick_replica, dedup, binding_key, group_ids_by_partition}
use doi.Query.Distributed.Execute.{broadcast_resolve, get_node_properties}
use doi.Query.Distributed.Plans.{execute}
use doi.PartitionNode.Service.{internally}
use doi.Coordinator.Results.Needed.{IsAskedFor, In-needed_ids}
use doi.Coordinator.Results.{classify, needed_node_ids, needed_edge_ids}
use doi.Coordinator.Service.{
  parsed, execute_plan, discovered, answer, hydrated_nodes, hydrated_edges, result_rows,
}
use doi.Examples.{low_byte, no_times, people}

abbrev replica : ReplicaEndpoint
replica = record { replica = "node-0"; address = SocketAddr.v4 0 80; healthy = true }

abbrev partitions : PartitionMap
partitions = record { replicas_by_partition = (0, replica ∷ []) ∷ [] }

abbrev ages : List (NodeId × NodeRecord)
ages =
    (4, record { label = "Person"; properties = ("age", PropertyValue.int64 (pos 30)) ∷ [] })
    ∷ (6, record { label = "Person"; properties = ("age", PropertyValue.int64 (pos 20)) ∷ [] })
    ∷ []

-- Every label has the nodes 4 and 6.
abbrev executor : ScatterGatherExecutor
executor = record {
  rpc = record {
    resolve_start = λ r step. ok [];
    resolve_all = λ r step. ok (from_node "a" 4 ∷ from_node "a" 6 ∷ []);
    expand_hop = λ r step group. ok (record { local = []; remote = [] });
    get_node_properties = λ r ids. ok ages;
    get_edge_properties = λ r ids. ok [];
    check_anti_join = λ r step conditions group. ok group;
  };
  hasher = record { n_partitions = 1 };
}

abbrev server : GraphServiceImpl
server = record {
  schema = people;
  schema_idl = "";
  discovery = record { current_map = Result.ok partitions };
  executor = executor;
}

abbrev labelled : String → NodePattern
labelled label = record { alias = "a"; label = some label; property_filters = [] }

abbrev by_age : OrderBy
by_age = record { alias = "a"; property = "age"; direction = SortDirection.asc }

abbrev items : List ReturnItem
items = record { alias = "a"; property = none } ∷ record { alias = "a"; property = some "age" } ∷ []

-- MATCH (a:label) RETURN a, a.age ORDER BY a.age LIMIT 1
abbrev youngest : String → Query
youngest label = record {
  pattern = record { steps = PatternStep.node (labelled label) ∷ [] };
  where_conditions = WhereConditions.nil;
  returns = items;
  order_by = some by_age;
  limit = some 1;
}

-- a parser that takes the text for the label
abbrev read_label : String → Result String Query
read_label label = Result.ok (youngest label)

abbrev no_debug : List ValidationError → String
no_debug errors = "errors"

animal-IsRefused : IsRefused read_label no_debug low_byte no_times server "Animal"
unfolding IsRefused validate validate_node_pattern validate_property_ref
animal-IsRefused = inr (youngest "Animal", refl, λ e. cc)

execute_query-refuses_example :
    (message : String) × ((discovery : Discovery) (executor' : ScatterGatherExecutor)
      → execute_query read_label no_debug low_byte no_times
          (record server { discovery = discovery; executor = executor' })
          "Animal"
        ≡ Result.err (invalid_argument message))
execute_query-refuses_example =
    execute_query-refuses read_label no_debug low_byte no_times server "Animal" animal-IsRefused

abbrev answered : List QueryResult
answered = project_row (("a", false) ∷ []) ages [] items (from_node "a" 6) ∷ []

person_answered :
    execute_query read_label no_debug low_byte no_times server "Person" ≡ Result.ok answered
unfolding execute_query parsed validate validate_node_pattern validate_where_conditions
    validate_property_ref insert plan execute_plan discovered internally execute broadcast_resolve
    pick_replica answer hydrated_nodes hydrated_edges needed_node_ids needed_edge_ids dedup classify
    get_node_properties result_rows sort_bindings_by_property group_ids_by_partition partition_of
    stable_hash to_le_bytes collect_into binding_key list_beq sort_by entry_push
person_answered = refl

IsAnswer-iff_example :
    (execute_query read_label no_debug low_byte no_times server "Person" ≡ Result.ok answered)
    ↔ IsAnswer read_label no_debug low_byte no_times server "Person" answered
IsAnswer-iff_example = IsAnswer-iff read_label no_debug low_byte no_times server "Person" answered

abbrev gathered : List Binding
gathered = from_node "a" 4 ∷ from_node "a" 6 ∷ from_node "a" 8 ∷ []

gathered-IsSortable : All (IsSortable [] ages [] by_age KeyKind.int64) gathered
unfolding property_of
gathered-IsSortable = ((ranked (pos 30), refl), ((ranked (pos 20), refl), ((missing, refl), tt)))

sort_bindings_by_property-AreOrdered_example :
    Perm (sort_bindings_by_property [] ages [] by_age gathered) gathered
    × AreOrdered [] ages [] by_age KeyKind.int64
        (sort_bindings_by_property [] ages [] by_age gathered)
sort_bindings_by_property-AreOrdered_example =
    sort_bindings_by_property-AreOrdered [] ages [] by_age KeyKind.int64 gathered
      gathered-IsSortable

-- Backwards, the binding without the key comes first.
oldest_first_test :
    sort_bindings_by_property [] ages [] (record by_age { direction = SortDirection.desc }) gathered
    ≡ from_node "a" 8 ∷ from_node "a" 4 ∷ from_node "a" 6 ∷ []
unfolding sort_bindings_by_property sort_by property_of
oldest_first_test = refl

abbrev bare_name : String
bare_name = "a"

abbrev age_name : String
age_name = "a.age"

a_ne : bare_name ≡ age_name → ⊥
a_ne e = cc

items-HaveNames : HaveNames items
items-HaveNames = (
  (λ other i e. elim i [ inl p ↦ absurd (a_ne (sym (sym (ap name_of p) ∙ e))) | inr n ↦ absurd n ]),
  ((λ other i e. absurd i), tt),
)

get-project_row_example :
    get "a.age" (project_row [] ages [] items (from_node "a" 6)).projection
    ≡ item_value [] ages [] (record { alias = "a"; property = some "age" }) (from_node "a" 6)
get-project_row_example =
    get-project_row [] ages [] (record { alias = "a"; property = some "age" }) items
      (from_node "a" 6) items-HaveNames (inr (inl refl))

-- The node of the item that stands last, `a.age`, is needed.
In-needed_ids_example :
    (In 6 (needed_node_ids items none (("a", false) ∷ []) gathered)
      ↔ IsAskedFor items none (("a", false) ∷ []) gathered false (λ b. b.nodes) 6)
    × (In 6 (needed_edge_ids items none (("a", false) ∷ []) gathered)
        ↔ IsAskedFor items none (("a", false) ∷ []) gathered true (λ b. b.edges) 6)
In-needed_ids_example = In-needed_ids items none (("a", false) ∷ []) gathered 6
