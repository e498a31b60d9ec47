-- ===== src/Dsl/Grammar.antt =====
-- graph-engine/crates/graph-dsl/src/dsl.pest: the rules; and the errors of its parser (lib.rs).
use doi.Prelude.{ℕ, String}

-- the rules of dsl.pest that yield a pair
pub data Rule : Type 0 where
  query pattern node_pattern property_map property_kv edge_pattern outgoing_edge incoming_edge :
      Rule
  edge_detail edge_alias hop_range where_clause where_condition property_condition : Rule
  property_property_comparison alias_comparison not_exists_clause comparison_op return_clause : Rule
  return_item order_by_clause sort_direction limit_clause literal string_literal float_literal :
      Rule
  int_literal bool_literal ident number eoi : Rule

pub record DslError : Type 0 where
  pub pos : ℕ
  pub message : String
