-- ===== src/Dsl.antt =====
-- graph-engine/crates/graph-dsl/src/lib.rs: the abstract syntax of queries. `u32` and `u64` are
-- plain numbers, an `f64` its 64 bits.
pub mod Validator
pub mod Grammar
pub mod Clauses
pub mod Parser
pub mod Printer
use doi.Prelude.{ℕ, String, Bool, List, [], ◌∷◌, Option}
use doi.Prelude.Int.{ℤ}
use doi.Schema.{Label, EdgeType}

pub data Direction : Type 0 where
  outgoing incoming : Direction

pub record HopRange : Type 0 where
  pub min : ℕ
  pub max : ℕ

pub data ComparisonOp : Type 0 where
  eq ne lt lte gt gte : ComparisonOp

pub data Literal : Type 0 where
  int64 : ℤ → Literal
  float64 : ℕ → Literal
  bool : Bool → Literal
  string : String → Literal

pub record PropertyFilter : Type 0 where
  pub property : String
  pub op : ComparisonOp
  pub value : Literal

pub record NodePattern : Type 0 where
  pub alias : String
  pub label : Option Label
  pub property_filters : List PropertyFilter

pub record EdgePattern : Type 0 where
  pub alias : Option String
  pub edge_type : Option EdgeType
  pub direction : Direction
  pub hops : HopRange

pub data PatternStep : Type 0 where
  node : NodePattern → PatternStep
  edge : EdgePattern → PatternStep

-- `Pattern { steps }`
pub record Pattern : Type 0 where
  pub steps : List PatternStep

pub record PropertyRef : Type 0 where
  pub alias : String
  pub property : String

-- `ExistsSubquery { pattern, where_conditions }` stands in the constructor `not_exists`, and its
-- list of conditions is a type of the block.
mutual
  pub data WhereCondition : Type 0 where
    property : String → PropertyFilter → WhereCondition
    alias_comparison : (left : String) → ComparisonOp → (right : String) → WhereCondition
    property_comparison :
        (left : PropertyRef) → ComparisonOp → (right : PropertyRef) → WhereCondition
    not_exists : Pattern → WhereConditions → WhereCondition

  pub data WhereConditions : Type 0 where
    nil : WhereConditions
    cons : WhereCondition → WhereConditions → WhereConditions

abbrev pub to_list : WhereConditions → List WhereCondition
to_list WhereConditions.nil = []
to_list (WhereConditions.cons c cs) = c ∷ to_list cs

pub record ReturnItem : Type 0 where
  pub alias : String
  pub property : Option String

pub data SortDirection : Type 0 where
  asc desc : SortDirection

pub record OrderBy : Type 0 where
  pub alias : String
  pub property : String
  pub direction : SortDirection

pub record Query : Type 0 where
  pub pattern : Pattern
  pub where_conditions : WhereConditions
  pub returns : List ReturnItem
  pub order_by : Option OrderBy
  pub limit : Option ℕ

pub data ValidationError : Type 0 where
  unknown_label : String → ValidationError
  unknown_edge_type : String → ValidationError
  unknown_property : (label property : String) → ValidationError
  incompatible_operator : (property : String) → ValidationError
  unknown_alias : String → ValidationError
  edge_alias_on_variable_length_hop : (alias : String) (min max : ℕ) → ValidationError
  not_exists_anchor_not_pre_bound : String → ValidationError
  not_exists_wrong_shape : ℕ → ValidationError
  nested_not_exists : ValidationError
  not_exists_must_be_outgoing : ValidationError
