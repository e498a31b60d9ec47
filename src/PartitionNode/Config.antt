-- ===== src/PartitionNode/Config.antt =====
-- graph-engine/bin/graph-partition-node/src/config.rs: the configuration from the environment, which is a
-- parameter, as is the parsing of a socket address. A duration is its seconds.
use doi.Prelude.{ℕ, String, Option, none, some, Result, ok, err, ◌>>=◌}
use doi.Prelude.Parsing.{codes, parse_u32, parse_u64}
use doi.Cluster.{SocketAddr}

pub record Config : Type 0 where
  pub schema_path : String
  pub warehouse_path : String
  pub catalog_db_path : String
  pub namespace : String
  pub partition_id : ℕ
  pub n_partitions : ℕ
  pub rebuild_interval : ℕ
  pub listen_addr : SocketAddr
  pub metrics_listen_addr : SocketAddr

pub data ConfigError : Type 0 where
  missing_env : (key : String) → ConfigError
  invalid_env : (key reason : String) → ConfigError

abbrev pub unwrap_or : Option String → String → String
unwrap_or none default = default
unwrap_or (some v) default = v

module _ (env : String → Option String) (parse_address : String → Option SocketAddr) where
  abbrev pub required_env : String → Result ConfigError String
  required_env key = elim (env key) [ none ↦ err (missing_env key) | some v ↦ ok v ]

  unfoldable pub parse_env :
      {T : Type 0} → (parse : String → Option T) → (key : String) → T → Result ConfigError T
  parse_env parse key default = elim (env key) [
    | none ↦ ok default
    | some v ↦ elim (parse v) [ none ↦ err (invalid_env key v) | some t ↦ ok t ]
  ]

  abbrev pub parse_addr_env : String → String → Result ConfigError SocketAddr
  parse_addr_env key default = elim (parse_address (unwrap_or (env key) default)) [
    | none ↦ err (invalid_env key "not a valid socket address")
    | some address ↦ ok address
  ]

  unfoldable pub from_env : Result ConfigError Config
  from_env = do
    schema_path ← required_env "GRAPH_SCHEMA_PATH"
    partition_id ← parse_env (λ v. parse_u32 (codes v)) "GRAPH_PARTITION_ID" 0
    n_partitions ← parse_env (λ v. parse_u32 (codes v)) "GRAPH_N_PARTITIONS" 1
    seconds ← parse_env (λ v. parse_u64 (codes v)) "GRAPH_REBUILD_INTERVAL_SECS" 30
    listen_addr ← parse_addr_env "GRAPH_PARTITION_LISTEN_ADDR" "0.0.0.0:7001"
    metrics_listen_addr ← parse_addr_env "GRAPH_PARTITION_METRICS_LISTEN_ADDR" "0.0.0.0:9101"
    ok (record {
      schema_path = schema_path;
      warehouse_path = unwrap_or (env "GRAPH_WAREHOUSE_PATH") "./warehouse";
      catalog_db_path = unwrap_or (env "GRAPH_CATALOG_DB_PATH") "./catalog.sqlite";
      namespace = unwrap_or (env "GRAPH_NAMESPACE") "graph";
      partition_id = partition_id;
      n_partitions = n_partitions;
      rebuild_interval = seconds;
      listen_addr = listen_addr;
      metrics_listen_addr = metrics_listen_addr;
    })
