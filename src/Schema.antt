-- ===== src/Schema.antt =====
-- graph-engine/crates/graph-schema/src/lib.rs: the schema's types. Identifiers are `u64`, kept as
-- plain numbers; a label and an edge type are their names.
pub mod Partitioning
pub mod Evolution
pub mod Grammar
pub mod Parser
use doi.Prelude.{ℕ, String, Bool, List, Option, get, string_eq}

abbrev pub NodeId : Type 0
NodeId = ℕ

abbrev pub EdgeId : Type 0
EdgeId = ℕ

abbrev pub Label : Type 0
Label = String

abbrev pub EdgeType : Type 0
EdgeType = String

pub data ScalarType : Type 0 where
  int64 float64 bool string timestamp bytes : ScalarType
  list : ScalarType → ScalarType
  vector : (dim : ℕ) → ScalarType

pub record PropertyDef : Type 0 where
  pub name : String
  pub ty : ScalarType
  pub optional : Bool
  pub indexed : Bool

pub record NodeDef : Type 0 where
  pub label : Label
  pub properties : List PropertyDef

pub record EdgeDef : Type 0 where
  pub edge_type : EdgeType
  pub from : Label
  pub to : Label
  pub properties : List PropertyDef

pub record Schema : Type 0 where
  pub version : String
  pub nodes : List (Label × NodeDef)
  pub edges : List (EdgeType × EdgeDef)

abbrev pub node_def : Schema → Label → Option NodeDef
node_def schema label = get label schema.nodes

abbrev pub edge_def : Schema → EdgeType → Option EdgeDef
edge_def schema edge_type = get edge_type schema.edges

pub data SchemaError : Type 0 where
  parse : String → SchemaError
  incompatible_evolution : (from to reason : String) → SchemaError
  unknown_label : Label → SchemaError
  unknown_edge_type : EdgeType → SchemaError
  type_mismatch : (property : String) → SchemaError
