-- ===== src/Examples.antt =====
-- Test data: a schema of people who know each other, on two partitions. The hash is a number's
-- lowest byte, so that even ids live on partition 0.
mod Index
mod Query
mod Distributed
mod Cluster
mod Rpc
mod Storage
mod Pods
mod Config
mod SchemaFile
mod Parser
mod Hop
mod Coordinator
use doi.Prelude.{ℕ, String, Bool, true, false, List, [], ◌∷◌, Option, none, some, Result, ok, err}
use doi.Prelude.Int.{ℤ, pos}
use doi.Schema.{Label, EdgeType, ScalarType, PropertyDef, NodeDef, EdgeDef, Schema}
use doi.Storage.{PropertyValue, NodeRow, EdgeRow, StorageError, IcebergReader}
use doi.Index.{PartitionId, IndexGeneration}
use doi.Index.Scan.{IcebergIndexBuilder, assemble}

abbrev pub low_byte : List ℕ → ℕ
low_byte [] = 0
low_byte (b ∷ bs) = b

abbrev pub no_times : String → Option ℤ
no_times text = none

abbrev pub same_case : String → String
same_case name = name

abbrev pub name_def : PropertyDef
name_def = record { name = "name"; ty = ScalarType.string; optional = false; indexed = true }

abbrev pub age_def : PropertyDef
age_def = record { name = "age"; ty = ScalarType.int64; optional = true; indexed = true }

abbrev pub weight_def : PropertyDef
weight_def = record { name = "weight"; ty = ScalarType.int64; optional = true; indexed = false }

abbrev pub people : Schema
people = record {
  version = "graph_v1";
  nodes = ("Person", record { label = "Person"; properties = name_def ∷ age_def ∷ [] }) ∷ [];
  edges =
      (
        "KNOWS",
        record {
          edge_type = "KNOWS";
          from = "Person";
          to = "Person";
          properties = weight_def ∷ [];
        },
      )
      ∷ [];
}

abbrev pub ann : NodeRow
ann = record {
  id = 0;
  properties = ("name", PropertyValue.string "ann") ∷ ("age", PropertyValue.int64 (pos 40)) ∷ [];
}

abbrev pub bob : NodeRow
bob = record {
  id = 2;
  properties = ("name", PropertyValue.string "bob") ∷ ("age", PropertyValue.int64 (pos 30)) ∷ [];
}

abbrev pub cyd : NodeRow
cyd = record { id = 1; properties = ("name", PropertyValue.string "cyd") ∷ [] }

-- the nodes of partition 0
abbrev pub even_nodes : List (Label × NodeRow)
even_nodes = ("Person", ann) ∷ ("Person", bob) ∷ []

-- Ann knows Bob and, across the partitions, Cyd.
abbrev pub knows_bob : EdgeRow
knows_bob = record {
  id = 10;
  src = 0;
  dst = 2;
  properties = ("weight", PropertyValue.int64 (pos 5)) ∷ [];
}

abbrev pub knows_cyd : EdgeRow
knows_cyd = record { id = 11; src = 0; dst = 1; properties = [] }

abbrev pub all_edges : List (EdgeType × EdgeRow)
all_edges = ("KNOWS", knows_bob) ∷ ("KNOWS", knows_cyd) ∷ []

abbrev pub tables : IcebergReader
tables = record {
  latest_snapshot = λ table. ok (pos 1);
  scan_nodes = λ schema label snapshot. ok (ok ann ∷ ok bob ∷ ok cyd ∷ []);
  scan_edges = λ schema edge_type snapshot. ok (ok knows_bob ∷ ok knows_cyd ∷ []);
}

abbrev pub broken_tables : IcebergReader
broken_tables = record tables {
  latest_snapshot = λ table. err (StorageError.table_not_found table);
}

abbrev pub people_builder : IcebergIndexBuilder
people_builder = record { reader = tables; schema = people; n_partitions = 2 }

-- the generation of partition 0
abbrev pub generation : IndexGeneration
generation = assemble low_byte (pos 9) people_builder 0 even_nodes all_edges []
