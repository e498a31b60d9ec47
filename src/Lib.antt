-- ===== src/Lib.antt =====
-- Verification of the graph engine: a distributed store that answers pattern queries over nodes and
-- edges read from Iceberg tables. Paths below are from the repository's root.
--
-- How the parts interact. A schema (graph-schema) declares labels, edge types and properties. Each
-- partition node reads all tables through a storage reader (graph-storage), keeps the nodes that
-- hash to its partition, and builds one immutable generation of an index (graph-index), which a
-- rebuild loop replaces. A query (graph-dsl) is validated against the schema, planned (graph-query)
-- into a list of steps, and executed step by step against generations. The cluster (graph-cluster)
-- maps partitions to machines and plans how to move them.
--
-- Which file models which part:
--   Schema, Schema/Partitioning   graph-engine/crates/graph-schema/src/lib.rs, partitioning.rs
--   Schema/Grammar, Schema/Parser graph-engine/crates/graph-schema/src/schema.pest, parser.rs
--                                 (`parse_schema` is `PestSchemaParser::parse`)
--   Schema/Evolution              graph-engine/crates/graph-schema/src/evolution.rs (`diff`)
--   Storage, Storage/Value,       graph-engine/crates/graph-storage/src/lib.rs, property_value.rs,
--   Storage/Reader                iceberg_reader.rs
--   Dsl, Dsl/Validator            graph-engine/crates/graph-dsl/src/lib.rs, validator.rs (`validate`)
--   Dsl/Grammar, Dsl/Clauses,     graph-engine/crates/graph-dsl/src/dsl.pest, parser.rs: `parse_query` is
--   Dsl/Parser                    `PestParser::parse`; a clause's function takes the pairs inside it
--   Dsl/Printer                   trees of the grammar, by which the parser is specified
--   Index, Index/Key              graph-engine/crates/graph-index/src/lib.rs
--   Index/Builder, Index/Scan     graph-engine/crates/graph-index/src/builder.rs (`build_topology`,
--                                 `build_property_index`; `build`)
--   Query, Query/Planner          graph-engine/crates/graph-query/src/lib.rs, planner.rs (`plan`)
--   Query/Filter                  graph-engine/crates/graph-query/src/filter_eval.rs
--   Query/Local                   graph-engine/crates/graph-query/src/local_executor.rs
--   Query/Distributed (Execute,   graph-engine/crates/graph-query/src/distributed_executor.rs
--   Plans)                        (`ScatterGatherExecutor`)
--   Cluster, Cluster/Rebalance    graph-engine/crates/graph-cluster/src/lib.rs, rebalance.rs (`plan`)
--   Cluster/Pods, Prelude/Parsing graph-engine/crates/graph-cluster/src/discovery.rs
--   PartitionNode                 graph-engine/bin/graph-partition-node/src/rebuild.rs
--   PartitionNode/Config          graph-engine/bin/graph-partition-node/src/config.rs (`from_env`)
--   PartitionNode/Service,        graph-engine/bin/graph-partition-node/src/service.rs: the handlers
--   PartitionNode/Convert         (`resolve_start` is `handle_resolve_start`) and the conversions
--   Coordinator/Rpc,              graph-engine/bin/graph-coordinator/src/grpc_partition_rpc.rs: the
--   Coordinator/Convert           calls (`resolve_start` is `grpc_resolve_start`), the conversions
--   Coordinator/Service,          graph-engine/bin/graph-coordinator/src/service.rs: `execute_query` in
--   Coordinator/Results           stages, and sorting and projecting its results
--   Proto                         graph-engine/crates/graph-proto/proto/graph.proto
-- The files below these state what is proved of them; Examples holds tests; Prelude what all share.
--
-- How code is read. A function keeps its name. A struct is a record, an enum a data type. A
-- function that pushes onto a `&mut Vec` returns what it pushes. A `HashMap` is an association
-- list, a `HashSet` a list without repetition: its order stands for the iteration order. A panic is
-- `none` in the planner and the parsers, and `panic` in the executors. An identifier is a natural
-- number; positions and offsets in the index are cut to 32 bits where the source casts, and the
-- theorems say how many nodes and edges fit. An `f64` is its 64 bits. Loops are recursion on the
-- list or the count that they run over, so that no fuel is needed. An `async` call is a plain call.
--
-- Parameters stand for code outside the repository: xxh3 (a hash of bytes), RFC 3339 parsing, the
-- lower-casing of table names, the clock, the environment, the connection to a replica's address,
-- the list of pods, the parsing of addresses, the texts of addresses, numbers, statuses and
-- validation errors, the reading of an `f64`, the parser generator pest, which makes a tree of
-- pairs from a text, the query parser as the coordinator calls it, the Arrow arrays and the catalog
-- of tables, and the storage reader as the builder calls it, which answers the same question the
-- same way for the time of one build. The distributed executor is over an interface of remote calls
-- (`PartitionRpc`), as in the source; the network delivers a message as it was sent.
--
-- Not modelled: the set-up of the catalog, the start-up of the servers, the coordinator's
-- configuration, generated protocol code, metrics, logs, the viewer and the example programs.
mod Prelude
pub mod Schema
pub mod Storage
pub mod Dsl
pub mod Index
pub mod Query
pub mod Cluster
pub mod Proto
pub mod Coordinator
pub mod PartitionNode
pub mod Examples
