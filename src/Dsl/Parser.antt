-- ===== src/Dsl/Parser.antt =====
-- graph-engine/crates/graph-dsl/src/parser.rs: from the parse tree to the query. A panic is `none`; the
-- grammar's parser and the reading of an `f64` are parameters.
use doi.Prelude.{ℕ, String, List, [], ◌∷◌, Option, none, some, string_eq, ◌==◌, Result, ok, err}
use doi.Prelude.Options.{◌>>=◌}
use doi.Prelude.Parsing.{codes, parse_i64}
use doi.Prelude.ParseTree.{Pair, Pairs, pair, nil, cons, as_str}
use doi.Dsl.{
  ComparisonOp, Literal, PropertyFilter, NodePattern, PatternStep, Pattern, WhereCondition,
  WhereConditions, ReturnItem, OrderBy, Query,
}
use doi.Dsl.Grammar.{Rule, DslError}
use doi.Dsl.Clauses.{
  unquoted, parse_comparison_op, parse_edge_pattern, parse_property_property_comparison,
  parse_alias_comparison, parse_return_items, parse_order_by_clause, parse_limit_clause,
}

-- the variables of `parse`
pub record QueryParts : Type 0 where
  pub pattern : Option Pattern
  pub where_conditions : WhereConditions
  pub returns : List ReturnItem
  pub order_by : Option OrderBy
  pub limit : Option ℕ

module _ (parse_f64 : String → Option ℕ) where
  unfoldable pub literal_of : Rule → String → Option Literal
  literal_of Rule.string_literal text = do s ← unquoted text; some (Literal.string s)
  literal_of Rule.float_literal text = do v ← parse_f64 text; some (Literal.float64 v)
  literal_of Rule.int_literal text = do v ← parse_i64 (codes text); some (Literal.int64 v)
  literal_of Rule.bool_literal text = some (Literal.bool (text == "true"))
  literal_of _ text = none

  unfoldable pub parse_literal : Pair Rule → Option Literal
  parse_literal (pair _ _ nil) = none
  parse_literal (pair _ _ (cons (pair rule text _) _)) = literal_of rule text

  unfoldable pub parse_property_kv : Pair Rule → Option PropertyFilter
  parse_property_kv (pair _ _ (cons key (cons value _))) = do
    value ← parse_literal value
    some (record { property = as_str key; op = ComparisonOp.eq; value = value })
  parse_property_kv (pair _ _ (cons _ nil)) = none
  parse_property_kv (pair _ _ nil) = none

  -- the entries of a property map
  unfoldable pub parse_property_map : Pairs Rule → Option (List PropertyFilter)
  parse_property_map nil = some []
  parse_property_map (cons kv rest) = do
    filter ← parse_property_kv kv
    filters ← parse_property_map rest
    some (filter ∷ filters)

  -- the loop over what follows the alias
  unfoldable pub node_body : Pairs Rule → NodePattern → Option NodePattern
  node_body nil node = some node
  node_body (cons (pair Rule.ident text _) rest) node =
      node_body rest (record node { label = some text })
  node_body (cons (pair Rule.property_map _ inner) rest) node = do
    filters ← parse_property_map inner
    node_body rest (record node { property_filters = filters })
  node_body (cons (pair _ _ _) rest) node = none

  unfoldable pub parse_node_pattern : Pair Rule → Option NodePattern
  parse_node_pattern (pair _ _ nil) = none
  parse_node_pattern (pair _ _ (cons alias rest)) =
      node_body rest (record { alias = as_str alias; label = none; property_filters = [] })

  abbrev pub parse_step : Pair Rule → Option PatternStep
  parse_step (pair Rule.node_pattern text inner) = do
    node ← parse_node_pattern (pair Rule.node_pattern text inner)
    some (PatternStep.node node)
  parse_step (pair Rule.edge_pattern text inner) = do
    edge ← parse_edge_pattern (pair Rule.edge_pattern text inner)
    some (PatternStep.edge edge)
  parse_step (pair _ _ _) = none

  unfoldable pub parse_steps : Pairs Rule → Option (List PatternStep)
  parse_steps nil = some []
  parse_steps (cons p rest) = do step ← parse_step p; steps ← parse_steps rest; some (step ∷ steps)

  unfoldable pub parse_pattern : Pairs Rule → Option Pattern
  parse_pattern inner = do steps ← parse_steps inner; some (record { steps = steps })

  unfoldable pub parse_property_condition : Pairs Rule → Option WhereCondition
  parse_property_condition (cons alias (cons property (cons op (cons value _)))) = do
    op ← parse_comparison_op op
    value ← parse_literal value
    some (
        WhereCondition.property (as_str alias)
          (record { property = as_str property; op = op; value = value }))
  parse_property_condition _ = none

  unfoldable mutual
    pub parse_where_condition : Pair Rule → Option WhereCondition
    parse_where_condition (pair _ _ nil) = none
    parse_where_condition (pair _ _ (cons inner _)) = parse_condition inner

    pub parse_condition : Pair Rule → Option WhereCondition
    parse_condition (pair Rule.not_exists_clause _ inner) =
        parse_not_exists_clause inner none WhereConditions.nil
    parse_condition (pair Rule.property_property_comparison _ inner) =
        parse_property_property_comparison inner
    parse_condition (pair Rule.property_condition _ inner) = parse_property_condition inner
    parse_condition (pair Rule.alias_comparison _ inner) = parse_alias_comparison inner
    parse_condition (pair _ _ _) = none

    -- the loop, with the variables that it sets
    pub parse_not_exists_clause :
        Pairs Rule → Option Pattern → WhereConditions → Option WhereCondition
    parse_not_exists_clause nil none conditions = none
    parse_not_exists_clause nil (some pattern) conditions =
        some (WhereCondition.not_exists pattern conditions)
    parse_not_exists_clause (cons (pair Rule.pattern _ inner) rest) pattern conditions =
        parse_pattern inner >>= λ p. parse_not_exists_clause rest (some p) conditions
    parse_not_exists_clause (cons (pair Rule.where_clause _ inner) rest) pattern conditions =
        parse_where_clause inner >>= λ cs. parse_not_exists_clause rest pattern cs
    parse_not_exists_clause (cons (pair _ _ _) rest) pattern conditions = none

    pub parse_where_clause : Pairs Rule → Option WhereConditions
    parse_where_clause nil = some WhereConditions.nil
    parse_where_clause (cons c rest) = parse_where_condition c >>= λ condition.
        parse_where_clause rest >>= λ conditions. some (WhereConditions.cons condition conditions)

  -- the loop over the pairs of the query
  unfoldable pub query_parts : Pairs Rule → QueryParts → Option QueryParts
  query_parts nil parts = some parts
  query_parts (cons (pair Rule.pattern _ inner) rest) parts = do
    pattern ← parse_pattern inner
    query_parts rest (record parts { pattern = some pattern })
  query_parts (cons (pair Rule.where_clause _ inner) rest) parts = do
    conditions ← parse_where_clause inner
    query_parts rest (record parts { where_conditions = conditions })
  query_parts (cons (pair Rule.return_clause _ inner) rest) parts = do
    returns ← parse_return_items inner
    query_parts rest (record parts { returns = returns })
  query_parts (cons (pair Rule.order_by_clause _ inner) rest) parts = do
    order_by ← parse_order_by_clause inner
    query_parts rest (record parts { order_by = some order_by })
  query_parts (cons (pair Rule.limit_clause _ inner) rest) parts = do
    limit ← parse_limit_clause inner
    query_parts rest (record parts { limit = some limit })
  query_parts (cons (pair Rule.eoi _ inner) rest) parts = query_parts rest parts
  query_parts (cons (pair _ _ _) rest) parts = none

  -- `PestParser::parse`, on what the grammar's parser makes of the text
  unfoldable pub parse_query : Result DslError (Pairs Rule) → Option (Result DslError Query)
  parse_query (err e) = some (err e)
  parse_query (ok nil) = none
  parse_query (ok (cons (pair _ _ inner) _)) = do
    parts ← query_parts inner (record {
      pattern = none;
      where_conditions = WhereConditions.nil;
      returns = [];
      order_by = none;
      limit = none;
    })
    pattern ← parts.pattern
    some (
        ok (record {
          pattern = pattern;
          where_conditions = parts.where_conditions;
          returns = parts.returns;
          order_by = parts.order_by;
          limit = parts.limit;
        }))
