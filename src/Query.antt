-- ===== src/Query.antt =====
-- graph-engine/crates/graph-query/src/lib.rs: plans, bindings and frontiers.
pub mod Filter
pub mod Planner
pub mod Local
pub mod Distributed
use doi.Prelude.{◌≡◌, refl, ◌⊎◌, inl, inr, String, List, [], ◌∷◌, Option, none, some}
use doi.Schema.{NodeId, EdgeId}
use doi.Dsl.{ComparisonOp, Direction, HopRange, PropertyFilter, PropertyRef, ReturnItem}
use doi.Index.{RemoteRef}
use doi.Index.Key.{PropertyKey}

pub record AntiJoinStep : Type 0 where
  pub from_alias : String
  pub to_alias : String
  pub direction : Direction
  pub edge_alias : Option String
  pub edge_type : Option String
  pub literal_conditions : List PropertyFilter
  pub outer_conditions : List (String × ComparisonOp × PropertyRef)

-- `PlanStep::ExpandHop { .. }`
pub record ExpandHop : Type 0 where
  pub from_alias : String
  pub to_alias : String
  pub to_label : Option String
  pub edge_type : Option String
  pub direction : Direction
  pub hops : HopRange
  pub filters : List PropertyFilter
  pub edge_alias : Option String

pub data PlanStep : Type 0 where
  resolve_start : (alias label_or_type property : String) (key : PropertyKey) → PlanStep
  resolve_all : (alias label : String) → PlanStep
  expand_hop : ExpandHop → PlanStep
  anti_join : AntiJoinStep → PlanStep

pub record QueryPlan : Type 0 where
  pub steps : List PlanStep
  pub project : List ReturnItem

pub record Binding : Type 0 where
  pub nodes : List (String × NodeId)
  pub edges : List (String × EdgeId)

abbrev pub from_node : String → NodeId → Binding
from_node alias node = record { nodes = (alias, node) ∷ []; edges = [] }

pub record Frontier : Type 0 where
  pub local : List Binding
  pub remote : List (RemoteRef × Binding)

pub data ExecutionError : Type 0 where
  no_index : ExecutionError
  unknown_alias : String → ExecutionError
  rpc : String → ExecutionError

-- `Result<A, ExecutionError>`, or a panic
pub data Run (A : Type 0) : Type 0 where
  panic : Run A
  err : ExecutionError → Run A
  ok : A → Run A

infixl 5 ◌>>=◌
abbrev pub ◌>>=◌ : {A B : Type 0} (m : Run A) (next : A → Run B) → Run B
panic >>= next = panic
err e >>= next = err e
ok a >>= next = next a

-- `ok_or_else(|| ExecutionError::UnknownAlias(alias.clone()))?`
abbrev pub bound : {A : Type 0} → String → Option A → Run A
bound alias none = err (unknown_alias alias)
bound alias (some a) = ok a

-- Inversion of a successful chain.
pub >>=-eq-ok :
    {A B : Type 0} (step : Run A) (next : A → Run B) {result : B}
    → (step >>= next) ≡ ok result
    → (value : A) × (step ≡ ok value) × (next value ≡ ok result)
>>=-eq-ok (ok value) next h = (value, refl, h)
>>=-eq-ok (err e) next h = cc
>>=-eq-ok panic next h = cc

pub Run-cases :
    {A : Type 0} (r : Run A)
    → (r ≡ panic) ⊎ ((e : ExecutionError) × (r ≡ err e)) ⊎ ((a : A) × (r ≡ ok a))
Run-cases panic = inl refl
Run-cases (err e) = inr (inl (e, refl))
Run-cases (ok a) = inr (inr (a, refl))
