-- ===== src/Dsl/Printer/RoundTrip.antt =====
-- graph-engine/crates/graph-dsl/src/parser.rs: reading the parse tree of a query gives the query.
use doi.Prelude.{ℕ, String, List, [], Option, none, some, ◌≡◌, refl, ap, ◌∙◌, ok}
use doi.Prelude.Int.{ℤ}
use doi.Prelude.ParseTree.{Pairs, nil, cons}
use doi.Dsl.{Pattern, WhereCondition, WhereConditions, ReturnItem, OrderBy, Query}
use doi.Dsl.Grammar.{Rule}
use doi.Dsl.Clauses.{parse_property_property_comparison, parse_alias_comparison, parse_limit_clause}
use doi.Dsl.Parser.{
  parse_property_condition, parse_condition, parse_not_exists_clause, parse_where_clause,
  QueryParts, query_parts, parse_query,
}
use doi.Dsl.Printer.{
  leaf, branch, return_trees, order_by_tree, pattern_tree, condition_tree, where_tree,
  condition_trees, limit_tree, query_tree, StepsRead, ConditionReads, ConditionsRead, LimitReads,
  QueryReads,
}
use doi.Dsl.Printer.Patterns.{
  parse_comparison_op-op_text, parse_return_items-return_trees, parse_order_by_clause-tree,
  parse_literal-literal_tree, parse_pattern-pattern_tree,
}

module _ (number_text : ℕ → String) (int_text : ℤ → String) (float_text : ℕ → String)
    (parse_f64 : String → Option ℕ) where
  mutual
    unfolding parse_condition condition_tree ConditionReads parse_property_condition
        parse_alias_comparison parse_property_property_comparison parse_not_exists_clause

    parse_condition-condition_tree :
        (c : WhereCondition)
        → ConditionReads number_text int_text float_text parse_f64 c
        → parse_condition parse_f64 (condition_tree number_text int_text float_text c) ≡ some c
    parse_condition-condition_tree (WhereCondition.property alias f) h =
        rw
          (
            parse_comparison_op-op_text f.op,
            parse_literal-literal_tree number_text int_text float_text parse_f64 f.value h,
          )
          refl
    parse_condition-condition_tree (WhereCondition.alias_comparison left op right) h =
        rw (parse_comparison_op-op_text op) refl
    parse_condition-condition_tree (WhereCondition.property_comparison left op right) h =
        rw (parse_comparison_op-op_text op) refl
    parse_condition-condition_tree (WhereCondition.not_exists p WhereConditions.nil) h =
        rw (parse_pattern-pattern_tree number_text int_text float_text parse_f64 p h.0) refl
    parse_condition-condition_tree (WhereCondition.not_exists p (WhereConditions.cons c cs)) h =
        rw
          (
            parse_pattern-pattern_tree number_text int_text float_text parse_f64 p h.0,
            parse_where_clause-condition_trees (WhereConditions.cons c cs) h.1,
          )
          refl

    parse_where_clause-condition_trees :
        (cs : WhereConditions)
        → ConditionsRead number_text int_text float_text parse_f64 cs
        → parse_where_clause parse_f64 (condition_trees number_text int_text float_text cs)
          ≡ some cs
    parse_where_clause-condition_trees WhereConditions.nil h = refl
    parse_where_clause-condition_trees (WhereConditions.cons c cs) h =
        rw (parse_condition-condition_tree c h.0, parse_where_clause-condition_trees cs h.1) refl

  query_parts-where_tree :
      (cs : WhereConditions) (rest : Pairs Rule) (parts : QueryParts)
      → ConditionsRead number_text int_text float_text parse_f64 cs
      → parts.where_conditions ≡ WhereConditions.nil
      → query_parts parse_f64 (where_tree number_text int_text float_text cs rest) parts
        ≡ query_parts parse_f64 rest (record parts { where_conditions = cs })
  unfolding query_parts where_tree
  query_parts-where_tree WhereConditions.nil rest parts h e =
      ap (λ cs. query_parts parse_f64 rest (record parts { where_conditions = cs })) e
  query_parts-where_tree (WhereConditions.cons c cs) rest parts h e =
      rw (parse_where_clause-condition_trees (WhereConditions.cons c cs) h) refl

  query_parts-order_by_tree :
      (order_by : Option OrderBy) (rest : Pairs Rule) (parts : QueryParts)
      → parts.order_by ≡ none
      → query_parts parse_f64 (order_by_tree order_by rest) parts
        ≡ query_parts parse_f64 rest (record parts { order_by = order_by })
  unfolding query_parts
  query_parts-order_by_tree none rest parts e =
      ap (λ o. query_parts parse_f64 rest (record parts { order_by = o })) e
  query_parts-order_by_tree (some o) rest parts e =
      rw (parse_order_by_clause-tree o.alias o.property o.direction) refl

  query_parts-limit_tree :
      (limit : Option ℕ) (rest : Pairs Rule) (parts : QueryParts)
      → LimitReads number_text int_text float_text parse_f64 limit
      → parts.limit ≡ none
      → query_parts parse_f64 (limit_tree number_text int_text float_text limit rest) parts
        ≡ query_parts parse_f64 rest (record parts { limit = limit })
  unfolding query_parts parse_limit_clause
  query_parts-limit_tree none rest parts h e =
      ap (λ l. query_parts parse_f64 rest (record parts { limit = l })) e
  query_parts-limit_tree (some n) rest parts h e = rw (h) refl

  query_parts-pattern_tree :
      (p : Pattern) (rest : Pairs Rule) (parts : QueryParts)
      → StepsRead number_text int_text float_text parse_f64 p.steps
      → query_parts parse_f64 (cons (pattern_tree number_text int_text float_text p) rest) parts
        ≡ query_parts parse_f64 rest (record parts { pattern = some p })
  unfolding query_parts
  query_parts-pattern_tree p rest parts h =
      rw (parse_pattern-pattern_tree number_text int_text float_text parse_f64 p h) refl

  query_parts-return_trees :
      (items : List ReturnItem) (rest : Pairs Rule) (parts : QueryParts)
      → query_parts parse_f64 (cons (branch Rule.return_clause (return_trees items)) rest) parts
        ≡ query_parts parse_f64 rest (record parts { returns = items })
  unfolding query_parts
  query_parts-return_trees items rest parts = rw (parse_return_items-return_trees items) refl

  -- the variables of `parse` before and after the loop
  abbrev unread : QueryParts
  unread = record {
    pattern = none;
    where_conditions = WhereConditions.nil;
    returns = [];
    order_by = none;
    limit = none;
  }

  abbrev parts_of : Query → QueryParts
  parts_of q = record {
    pattern = some q.pattern;
    where_conditions = q.where_conditions;
    returns = q.returns;
    order_by = q.order_by;
    limit = q.limit;
  }

  -- what follows the order, the returns and the conditions
  abbrev from_limit : Query → Pairs Rule
  from_limit q = limit_tree number_text int_text float_text q.limit (cons (leaf Rule.eoi "") nil)

  abbrev from_order : Query → Pairs Rule
  from_order q = order_by_tree q.order_by (from_limit q)

  abbrev from_returns : Query → Pairs Rule
  from_returns q = cons (branch Rule.return_clause (return_trees q.returns)) (from_order q)

  query_parts-query_tree :
      (q : Query)
      → QueryReads number_text int_text float_text parse_f64 q
      → query_parts parse_f64
          (cons
            (pattern_tree number_text int_text float_text q.pattern)
            (where_tree number_text int_text float_text q.where_conditions (from_returns q)))
          unread
        ≡ some (parts_of q)
  unfolding query_parts
  query_parts-query_tree q h =
      query_parts-pattern_tree q.pattern
        (where_tree number_text int_text float_text q.where_conditions (from_returns q)) unread h.0
      ∙ query_parts-where_tree q.where_conditions (from_returns q)
          (record unread { pattern = some q.pattern }) h.1 refl
      ∙ query_parts-return_trees q.returns (from_order q)
          (record unread { pattern = some q.pattern; where_conditions = q.where_conditions })
      ∙ query_parts-order_by_tree q.order_by (from_limit q)
          (record (parts_of q) { order_by = none; limit = none }) refl
      ∙ query_parts-limit_tree q.limit (cons (leaf Rule.eoi "") nil)
          (record (parts_of q) { limit = none }) h.2 refl

  -- From the parse tree of a query, with numbers whose texts read back and inline filters that are
  -- equalities, the parser returns the query, without a panic.
  pub parse_query-query_tree :
      (q : Query)
      → QueryReads number_text int_text float_text parse_f64 q
      → parse_query parse_f64 (ok (cons (query_tree number_text int_text float_text q) nil))
        ≡ some (ok q)
  unfolding parse_query query_tree
  parse_query-query_tree q h = rw (query_parts-query_tree q h) refl
