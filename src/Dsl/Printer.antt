-- ===== src/Dsl/Printer.antt =====
-- graph-engine/crates/graph-dsl/src/dsl.pest: a parse tree of the grammar for each query. The texts of
-- numbers are parameters; the text of a pair with pairs inside is read nowhere, and left empty.
pub mod Patterns
pub mod RoundTrip
use Prim.Native.String.{[] as empty, ◌∷◌ as ◌▹◌}
use doi.Prelude.{ℕ, String, Bool, true, false, List, [], ◌∷◌, Option, none, some, ◌≡◌}
use doi.Prelude.Int.{ℤ}
use doi.Prelude.Parsing.{codes, parse_u32, parse_u64, parse_i64}
use doi.Prelude.ParseTree.{Pair, Pairs, pair, nil, cons}
use doi.Dsl.{
  Direction, HopRange, ComparisonOp, Literal, PropertyFilter, NodePattern, EdgePattern, PatternStep,
  Pattern, PropertyRef, WhereCondition, WhereConditions, ReturnItem, SortDirection, OrderBy, Query,
}
use doi.Dsl.Grammar.{Rule}

abbrev pub leaf : Rule → String → Pair Rule
leaf rule text = pair rule text nil

abbrev pub branch : Rule → Pairs Rule → Pair Rule
branch rule inner = pair rule "" inner

-- one text after another
unfoldable pub append : String → String → String
append empty t = t
append (c ▹ s) t = c ▹ append s t

abbrev pub op_text : ComparisonOp → String
op_text ComparisonOp.eq = "="
op_text ComparisonOp.ne = "<>"
op_text ComparisonOp.lt = "<"
op_text ComparisonOp.lte = "<="
op_text ComparisonOp.gt = ">"
op_text ComparisonOp.gte = ">="

-- an optional part, in front of the rest
abbrev pub optional : Rule → Option String → Pairs Rule → Pairs Rule
optional rule none rest = rest
optional rule (some text) rest = cons (leaf rule text) rest

abbrev pub reference : PropertyRef → Pairs Rule → Pairs Rule
reference r rest = cons (leaf Rule.ident r.alias) (cons (leaf Rule.ident r.property) rest)

abbrev pub direction_rule : Direction → Rule
direction_rule Direction.outgoing = Rule.outgoing_edge
direction_rule Direction.incoming = Rule.incoming_edge

abbrev pub return_tree : ReturnItem → Pair Rule
return_tree item =
    branch Rule.return_item
      (cons (leaf Rule.ident item.alias) (optional Rule.ident item.property nil))

unfoldable pub return_trees : List ReturnItem → Pairs Rule
return_trees [] = nil
return_trees (item ∷ items) = cons (return_tree item) (return_trees items)

abbrev pub direction_text : SortDirection → String
direction_text SortDirection.asc = "ASC"
direction_text SortDirection.desc = "DESC"

abbrev pub order_by_tree : Option OrderBy → Pairs Rule → Pairs Rule
order_by_tree none rest = rest
order_by_tree (some o) rest =
    cons
      (branch Rule.order_by_clause (
        cons (leaf Rule.ident o.alias) (
          cons (leaf Rule.ident o.property)
            (cons (leaf Rule.sort_direction (direction_text o.direction)) nil))))
      rest

module _ (number_text : ℕ → String) (int_text : ℤ → String) (float_text : ℕ → String) where
  abbrev pub bool_text : Bool → String
  bool_text true = "true"
  bool_text false = "false"

  abbrev pub literal_leaf : Literal → Pair Rule
  literal_leaf (Literal.int64 v) = leaf Rule.int_literal (int_text v)
  literal_leaf (Literal.float64 v) = leaf Rule.float_literal (float_text v)
  literal_leaf (Literal.bool v) = leaf Rule.bool_literal (bool_text v)
  literal_leaf (Literal.string v) = leaf Rule.string_literal (append "\"" (append v "\""))

  abbrev pub literal_tree : Literal → Pair Rule
  literal_tree value = branch Rule.literal (cons (literal_leaf value) nil)

  unfoldable pub filter_trees : List PropertyFilter → Pairs Rule
  filter_trees [] = nil
  filter_trees (f ∷ fs) =
      cons
        (branch Rule.property_kv
          (cons (leaf Rule.ident f.property) (cons (literal_tree f.value) nil)))
        (filter_trees fs)

  -- a property map, if there are filters
  abbrev pub map_tree : List PropertyFilter → Pairs Rule
  map_tree [] = nil
  map_tree (f ∷ fs) = cons (branch Rule.property_map (filter_trees (f ∷ fs))) nil

  abbrev pub node_tree : NodePattern → Pair Rule
  node_tree node = branch Rule.node_pattern (
      cons (leaf Rule.ident node.alias)
        (optional Rule.ident node.label (map_tree node.property_filters)))

  abbrev pub hops_tree : HopRange → Pair Rule
  hops_tree hops = branch Rule.hop_range (
      cons (leaf Rule.number (number_text hops.min))
        (cons (leaf Rule.number (number_text hops.max)) nil))

  abbrev pub edge_tree : EdgePattern → Pair Rule
  edge_tree edge = branch Rule.edge_pattern (
      cons
        (branch (direction_rule edge.direction) (
          cons
            (branch Rule.edge_detail (
              optional Rule.edge_alias edge.alias
                (optional Rule.ident edge.edge_type (cons (hops_tree edge.hops) nil))))
            nil))
        nil)

  abbrev pub step_tree : PatternStep → Pair Rule
  step_tree (PatternStep.node node) = node_tree node
  step_tree (PatternStep.edge edge) = edge_tree edge

  unfoldable pub step_trees : List PatternStep → Pairs Rule
  step_trees [] = nil
  step_trees (step ∷ steps) = cons (step_tree step) (step_trees steps)

  abbrev pub pattern_tree : Pattern → Pair Rule
  pattern_tree p = branch Rule.pattern (step_trees p.steps)

  unfoldable mutual
    pub condition_tree : WhereCondition → Pair Rule
    condition_tree (WhereCondition.property alias f) = branch Rule.property_condition (
        cons (leaf Rule.ident alias) (
          cons (leaf Rule.ident f.property)
            (cons (leaf Rule.comparison_op (op_text f.op)) (cons (literal_tree f.value) nil))))
    condition_tree (WhereCondition.alias_comparison left op right) = branch Rule.alias_comparison (
        cons (leaf Rule.ident left)
          (cons (leaf Rule.comparison_op (op_text op)) (cons (leaf Rule.ident right) nil)))
    condition_tree (WhereCondition.property_comparison left op right) =
        branch Rule.property_property_comparison
          (reference left (cons (leaf Rule.comparison_op (op_text op)) (reference right nil)))
    condition_tree (WhereCondition.not_exists p cs) =
        branch Rule.not_exists_clause (cons (pattern_tree p) (where_tree cs nil))

    -- a where clause, if there are conditions
    pub where_tree : WhereConditions → Pairs Rule → Pairs Rule
    where_tree WhereConditions.nil rest = rest
    where_tree (WhereConditions.cons c cs) rest =
        cons
          (branch Rule.where_clause
            (cons (branch Rule.where_condition (cons (condition_tree c) nil)) (condition_trees cs)))
          rest

    pub condition_trees : WhereConditions → Pairs Rule
    condition_trees WhereConditions.nil = nil
    condition_trees (WhereConditions.cons c cs) =
        cons (branch Rule.where_condition (cons (condition_tree c) nil)) (condition_trees cs)

  abbrev pub limit_tree : Option ℕ → Pairs Rule → Pairs Rule
  limit_tree none rest = rest
  limit_tree (some n) rest =
      cons (branch Rule.limit_clause (cons (leaf Rule.number (number_text n)) nil)) rest

  unfoldable pub query_tree : Query → Pair Rule
  query_tree q = branch Rule.query (
      cons (pattern_tree q.pattern) (
        where_tree q.where_conditions (
          cons (branch Rule.return_clause (return_trees q.returns))
            (order_by_tree q.order_by (limit_tree q.limit (cons (leaf Rule.eoi "") nil))))))

  -- where the texts of the numbers of a query read back, and its inline filters are equalities
  module _ (parse_f64 : String → Option ℕ) where
    abbrev pub LiteralReads : Literal → Type 0
    LiteralReads (Literal.int64 v) = parse_i64 (codes (int_text v)) ≡ some v
    LiteralReads (Literal.float64 v) = parse_f64 (float_text v) ≡ some v
    LiteralReads (Literal.bool v) = v ≡ v
    LiteralReads (Literal.string v) = v ≡ v

    unfoldable pub FiltersRead : List PropertyFilter → Type 0
    FiltersRead [] = true ≡ true
    FiltersRead (f ∷ fs) = (f.op ≡ ComparisonOp.eq) × LiteralReads f.value × FiltersRead fs

    abbrev pub StepReads : PatternStep → Type 0
    StepReads (PatternStep.node node) = FiltersRead node.property_filters
    StepReads (PatternStep.edge edge) =
        (parse_u32 (codes (number_text edge.hops.min)) ≡ some edge.hops.min)
        × (parse_u32 (codes (number_text edge.hops.max)) ≡ some edge.hops.max)

    unfoldable pub StepsRead : List PatternStep → Type 0
    StepsRead [] = true ≡ true
    StepsRead (step ∷ steps) = StepReads step × StepsRead steps

    unfoldable mutual
      pub ConditionReads : WhereCondition → Type 0
      ConditionReads (WhereCondition.property alias f) = LiteralReads f.value
      ConditionReads (WhereCondition.alias_comparison left op right) = true ≡ true
      ConditionReads (WhereCondition.property_comparison left op right) = true ≡ true
      ConditionReads (WhereCondition.not_exists p cs) = StepsRead p.steps × ConditionsRead cs

      pub ConditionsRead : WhereConditions → Type 0
      ConditionsRead WhereConditions.nil = true ≡ true
      ConditionsRead (WhereConditions.cons c cs) = ConditionReads c × ConditionsRead cs

    abbrev pub LimitReads : Option ℕ → Type 0
    LimitReads none = true ≡ true
    LimitReads (some n) = parse_u64 (codes (number_text n)) ≡ some n

    abbrev pub QueryReads : Query → Type 0
    QueryReads q =
        StepsRead q.pattern.steps × ConditionsRead q.where_conditions × LimitReads q.limit
