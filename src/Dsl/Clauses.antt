-- ===== src/Dsl/Clauses.antt =====
-- graph-engine/crates/graph-dsl/src/parser.rs: the functions on the parts of a query that hold neither
-- literals nor conditions within conditions. A panic is `none`.
use Prim.Native.String.{[] as empty, ◌∷◌ as ◌▹◌}
use Prim.Native.Char.{code}
use doi.Prelude.{ℕ, String, List, [], ◌∷◌, Option, none, some, string_eq, ◌==◌, if◌then◌else◌, ltb}
use doi.Prelude.Options.{◌>>=◌}
use doi.Prelude.Parsing.{codes, parse_u32, parse_u64}
use doi.Prelude.ParseTree.{Pair, Pairs, pair, nil, cons, as_str}
use doi.Dsl.Grammar.{Rule}
use doi.Dsl.{
  Direction, HopRange, ComparisonOp, EdgePattern, WhereCondition, ReturnItem, SortDirection,
  OrderBy,
}

-- a text of at least one character without its last, which is one byte long
unfoldable pub drop_last : String → Option String
drop_last empty = none
drop_last (c ▹ empty) = if ltb (code c) 128 then some empty else none
drop_last (c ▹ d ▹ s) = do rest ← drop_last (d ▹ s); some (c ▹ rest)

-- `s[1..s.len() - 1]`, where the first and the last character are one byte long
unfoldable pub unquoted : String → Option String
unquoted empty = none
unquoted (c ▹ s) = if ltb (code c) 128 then drop_last s else none

unfoldable pub parse_comparison_op : Pair Rule → Option ComparisonOp
parse_comparison_op op =
    let text = as_str op in
    if text == "="
    then some ComparisonOp.eq
    else if text == "<>"
    then some ComparisonOp.ne
    else if text == "<"
    then some ComparisonOp.lt
    else if text == "<="
    then some ComparisonOp.lte
    else if text == ">"
    then some ComparisonOp.gt
    else if text == ">="
    then some ComparisonOp.gte
    else none

unfoldable pub parse_hop_range : Pair Rule → Option HopRange
parse_hop_range (pair _ _ (cons min (cons max _))) = do
  min ← parse_u32 (codes (as_str min))
  max ← parse_u32 (codes (as_str max))
  some (record { min = min; max = max })
parse_hop_range (pair _ _ (cons _ nil)) = none
parse_hop_range (pair _ _ nil) = none

-- the loop over an `edge_detail`
unfoldable pub detail_parts : Pairs Rule → EdgePattern → Option EdgePattern
detail_parts nil edge = some edge
detail_parts (cons (pair Rule.edge_alias text _) rest) edge =
    detail_parts rest (record edge { alias = some text })
detail_parts (cons (pair Rule.ident text _) rest) edge =
    detail_parts rest (record edge { edge_type = some text })
detail_parts (cons (pair Rule.hop_range text inner) rest) edge = do
  hops ← parse_hop_range (pair Rule.hop_range text inner)
  detail_parts rest (record edge { hops = hops })
detail_parts (cons (pair _ _ _) rest) edge = none

-- the loop over an `outgoing_edge` or an `incoming_edge`
unfoldable pub edge_details : Pairs Rule → EdgePattern → Option EdgePattern
edge_details nil edge = some edge
edge_details (cons (pair Rule.edge_detail _ details) rest) edge = do
  edge ← detail_parts details edge
  edge_details rest edge
edge_details (cons (pair _ _ _) rest) edge = none

abbrev pub edge_direction : Rule → Option Direction
edge_direction Rule.outgoing_edge = some Direction.outgoing
edge_direction Rule.incoming_edge = some Direction.incoming
edge_direction _ = none

unfoldable pub parse_edge_pattern : Pair Rule → Option EdgePattern
parse_edge_pattern (pair _ _ nil) = none
parse_edge_pattern (pair _ _ (cons (pair rule _ details) _)) = do
  direction ← edge_direction rule
  edge_details details (record {
    alias = none;
    edge_type = none;
    direction = direction;
    hops = record { min = 1; max = 1 };
  })

unfoldable pub parse_property_property_comparison : Pairs Rule → Option WhereCondition
parse_property_property_comparison
      (cons left (cons left_property (cons op (cons right (cons right_property _))))) =
    do
      op ← parse_comparison_op op
      some (
          WhereCondition.property_comparison
            (record { alias = as_str left; property = as_str left_property }) op
            (record { alias = as_str right; property = as_str right_property }))
parse_property_property_comparison _ = none

unfoldable pub parse_alias_comparison : Pairs Rule → Option WhereCondition
parse_alias_comparison (cons left (cons op (cons right _))) = do
  op ← parse_comparison_op op
  some (WhereCondition.alias_comparison (as_str left) op (as_str right))
parse_alias_comparison _ = none

unfoldable pub parse_return_item : Pair Rule → Option ReturnItem
parse_return_item (pair _ _ nil) = none
parse_return_item (pair _ _ (cons alias nil)) =
    some (record { alias = as_str alias; property = none })
parse_return_item (pair _ _ (cons alias (cons property _))) =
    some (record { alias = as_str alias; property = some (as_str property) })

-- the items of a return clause
unfoldable pub parse_return_items : Pairs Rule → Option (List ReturnItem)
parse_return_items nil = some []
parse_return_items (cons item rest) = do
  item ← parse_return_item item
  items ← parse_return_items rest
  some (item ∷ items)

abbrev pub parse_direction : Pairs Rule → Option SortDirection
parse_direction nil = some SortDirection.asc
parse_direction (cons d _) =
    if as_str d == "ASC"
    then some SortDirection.asc
    else if as_str d == "DESC"
    then some SortDirection.desc
    else none

unfoldable pub parse_order_by_clause : Pairs Rule → Option OrderBy
parse_order_by_clause (cons alias (cons property rest)) = do
  direction ← parse_direction rest
  some (record { alias = as_str alias; property = as_str property; direction = direction })
parse_order_by_clause _ = none

unfoldable pub parse_limit_clause : Pairs Rule → Option ℕ
parse_limit_clause nil = none
parse_limit_clause (cons n _) = parse_u64 (codes (as_str n))
