-- ===== src/Examples/Parser.antt =====
-- Tests of the query parser: the parse tree of one query.
use doi.Prelude.{
  ℕ, String, [], ◌∷◌, Option, none, some, ◌≡◌, refl, ok, err, nat_eq, string_eq, ◌==◌,
  if◌then◌else◌,
}
use doi.Prelude.Int.{ℤ, pos}
use doi.Prelude.Parsing.{codes, parse_unsigned, parse_i64}
use doi.Prelude.ParseTree.{nil, cons}
use doi.Dsl.{
  Direction, ComparisonOp, Literal, PatternStep, WhereCondition, WhereConditions, SortDirection,
  Query,
}
use doi.Dsl.Grammar.{Rule}
use doi.Dsl.Clauses.{parse_hop_range}
use doi.Dsl.Parser.{parse_query}
use doi.Dsl.Printer.{query_tree, QueryReads, FiltersRead, StepsRead, ConditionReads, leaf, branch}
use doi.Dsl.Printer.RoundTrip.{parse_query-query_tree}

abbrev digits : ℕ → String
digits n = if n == 1 then "1" else if n == 3 then "3" else if n == 10 then "10" else "0"

abbrev year_text : ℤ → String
year_text v = "1990"

abbrev no_floats : ℕ → String
no_floats v = "0.0"

abbrev reads_zero : String → Option ℕ
reads_zero text = if text == "0.0" then some 0 else none

-- MATCH (p:Person {name: "Alice"})-[:KNOWS*1..3]->(f) WHERE f.born > 1990
-- AND NOT EXISTS { MATCH (f)-[k*1..1]->(p) WHERE k.kind = p.kind } RETURN f.name
-- ORDER BY f.born DESC LIMIT 10
abbrev friends : Query
friends = record {
  pattern = record {
    steps =
        PatternStep.node (record {
          alias = "p";
          label = some "Person";
          property_filters =
              record { property = "name"; op = ComparisonOp.eq; value = Literal.string "Alice" }
              ∷ [];
        })
        ∷ PatternStep.edge (record {
          alias = none;
          edge_type = some "KNOWS";
          direction = Direction.outgoing;
          hops = record { min = 1; max = 3 };
        })
        ∷ PatternStep.node (record { alias = "f"; label = none; property_filters = [] })
        ∷ [];
  };
  where_conditions =
      WhereConditions.cons
        (WhereCondition.property "f"
          (record { property = "born"; op = ComparisonOp.gt; value = Literal.int64 (pos 1990) }))
        (WhereConditions.cons
          (WhereCondition.not_exists
            (record {
              steps =
                  PatternStep.node (record { alias = "f"; label = none; property_filters = [] })
                  ∷ PatternStep.edge (record {
                    alias = some "k";
                    edge_type = none;
                    direction = Direction.outgoing;
                    hops = record { min = 1; max = 1 };
                  })
                  ∷ PatternStep.node (record { alias = "p"; label = none; property_filters = [] })
                  ∷ [];
            })
            (WhereConditions.cons
              (WhereCondition.property_comparison (record { alias = "k"; property = "kind" })
                ComparisonOp.eq (record { alias = "p"; property = "kind" }))
              WhereConditions.nil))
          WhereConditions.nil);
  returns = record { alias = "f"; property = some "name" } ∷ [];
  order_by = some (record { alias = "f"; property = "born"; direction = SortDirection.desc });
  limit = some 10;
}

friends-reads : QueryReads digits year_text no_floats reads_zero friends
unfolding StepsRead FiltersRead ConditionReads codes parse_unsigned parse_i64
friends-reads = (
  ((refl, refl, refl), ((refl, refl), (refl, refl))),
  (refl, (((refl, ((refl, refl), (refl, refl))), (refl, refl)), refl)),
  refl,
)

parse_query-query_tree_example :
    parse_query reads_zero (ok (cons (query_tree digits year_text no_floats friends) nil))
    ≡ some (ok friends)
parse_query-query_tree_example =
    parse_query-query_tree digits year_text no_floats reads_zero friends friends-reads

-- A length of a hop that is no `u32` is a panic.
parse_hop_range_test :
    parse_hop_range (
      branch Rule.hop_range
        (cons (leaf Rule.number "1") (cons (leaf Rule.number "4294967296") nil)))
    ≡ none
unfolding parse_hop_range codes parse_unsigned
parse_hop_range_test = refl

parse_query_test :
    parse_query reads_zero (err (record { pos = 3; message = "expected MATCH" }))
    ≡ some (err (record { pos = 3; message = "expected MATCH" }))
unfolding parse_query
parse_query_test = refl
