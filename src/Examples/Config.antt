-- ===== src/Examples/Config.antt =====
-- Tests of the configuration of a partition node.
use doi.Prelude.{String, Option, none, some, ok, err, ◌≡◌, refl, string_eq, ◌==◌, if◌then◌else◌}
use doi.Prelude.Parsing.{codes, parse_unsigned}
use doi.Cluster.{SocketAddr}
use doi.PartitionNode.Config.{Config, ConfigError, parse_env, from_env}

abbrev any_address : String → Option SocketAddr
any_address text = some (SocketAddr.v4 0 7001)

abbrev second_of : String → String → Option String
second_of partitions key =
    if key == "GRAPH_SCHEMA_PATH"
    then some "graph.schema"
    else if key == "GRAPH_PARTITION_ID"
    then some "1"
    else if key == "GRAPH_N_PARTITIONS"
    then some partitions
    else none

abbrev second : Config
second = record {
  schema_path = "graph.schema";
  warehouse_path = "./warehouse";
  catalog_db_path = "./catalog.sqlite";
  namespace = "graph";
  partition_id = 1;
  n_partitions = 2;
  rebuild_interval = 30;
  listen_addr = SocketAddr.v4 0 7001;
  metrics_listen_addr = SocketAddr.v4 0 7001;
}

from_env_test : from_env (second_of "2") any_address ≡ ok second
unfolding from_env parse_env codes parse_unsigned
from_env_test = refl

invalid_env_test :
    from_env (second_of "two") any_address
    ≡ err (ConfigError.invalid_env "GRAPH_N_PARTITIONS" "two")
unfolding from_env parse_env codes parse_unsigned
invalid_env_test = refl
