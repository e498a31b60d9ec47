-- ===== src/Dsl/Printer/Patterns.antt =====
-- graph-engine/crates/graph-dsl/src/parser.rs: reading the parse trees of a pattern and of the clauses
-- without conditions.
use Prim.Native.String.{[] as empty, ◌∷◌ as ◌▹◌}
use doi.Prelude.{
  ℕ, String, true, false, List, [], ◌∷◌, Option, none, some, ◌≡◌, refl, sym, ap, ◌∙◌, Option-cases,
  inl, inr,
}
use doi.Prelude.Int.{ℤ}
use doi.Prelude.Parsing.{codes, parse_u32}
use doi.Prelude.ParseTree.{Pairs, nil, cons}
use doi.Dsl.{
  Direction, HopRange, ComparisonOp, Literal, PropertyFilter, NodePattern, EdgePattern, PatternStep,
  Pattern, ReturnItem, SortDirection,
}
use doi.Dsl.Grammar.{Rule}
use doi.Dsl.Clauses.{
  drop_last, unquoted, parse_comparison_op, parse_hop_range, detail_parts, edge_details,
  edge_direction, parse_edge_pattern, parse_return_item, parse_return_items, parse_order_by_clause,
}
use doi.Dsl.Parser.{
  literal_of, parse_literal, parse_property_kv, parse_property_map, node_body, parse_node_pattern,
  parse_step, parse_steps, parse_pattern,
}
use doi.Dsl.Printer.{
  append, optional, leaf, op_text, return_tree, return_trees, literal_tree, filter_trees, map_tree,
  node_tree, hops_tree, edge_tree, step_tree, step_trees, LiteralReads, FiltersRead, StepReads,
  StepsRead, direction_rule, direction_text,
}

drop_last-append : (s : String) → drop_last (append s "\"") ≡ some s
unfolding drop_last append
drop_last-append empty = refl
drop_last-append (c ▹ empty) = refl
drop_last-append (c ▹ d ▹ s) = rw (drop_last-append (d ▹ s)) refl

unquoted-append : (s : String) → unquoted (append "\"" (append s "\"")) ≡ some s
unfolding unquoted append
unquoted-append s = drop_last-append s

pub parse_comparison_op-op_text :
    (op : ComparisonOp) → parse_comparison_op (leaf Rule.comparison_op (op_text op)) ≡ some op
unfolding parse_comparison_op
parse_comparison_op-op_text ComparisonOp.eq = refl
parse_comparison_op-op_text ComparisonOp.ne = refl
parse_comparison_op-op_text ComparisonOp.lt = refl
parse_comparison_op-op_text ComparisonOp.lte = refl
parse_comparison_op-op_text ComparisonOp.gt = refl
parse_comparison_op-op_text ComparisonOp.gte = refl

edge_direction-direction_rule :
    (direction : Direction) → edge_direction (direction_rule direction) ≡ some direction
edge_direction-direction_rule Direction.outgoing = refl
edge_direction-direction_rule Direction.incoming = refl

parse_return_item-return_tree :
    (item : ReturnItem) → parse_return_item (return_tree item) ≡ some item
unfolding parse_return_item
parse_return_item-return_tree item = elim (Option-cases item.property) [
  | inl e ↦ rw (e, parse_return_item) refl
  | inr (property, e) ↦ rw (e, parse_return_item) refl
]

pub parse_return_items-return_trees :
    (items : List ReturnItem) → parse_return_items (return_trees items) ≡ some items
unfolding parse_return_items return_trees
parse_return_items-return_trees [] = refl
parse_return_items-return_trees (item ∷ items) =
    rw (parse_return_item-return_tree item, parse_return_items-return_trees items) refl

pub parse_order_by_clause-tree :
    (alias property : String) (direction : SortDirection)
    → parse_order_by_clause (
        cons (leaf Rule.ident alias) (
          cons
            (leaf Rule.ident property)
            (cons (leaf Rule.sort_direction (direction_text direction)) nil)))
      ≡ some (record { alias = alias; property = property; direction = direction })
unfolding parse_order_by_clause
parse_order_by_clause-tree alias property SortDirection.asc = refl
parse_order_by_clause-tree alias property SortDirection.desc = refl

module _ (number_text : ℕ → String) (int_text : ℤ → String) (float_text : ℕ → String)
    (parse_f64 : String → Option ℕ) where
  pub parse_literal-literal_tree :
      (value : Literal)
      → LiteralReads number_text int_text float_text parse_f64 value
      → parse_literal parse_f64 (literal_tree number_text int_text float_text value) ≡ some value
  unfolding parse_literal literal_of
  parse_literal-literal_tree (Literal.int64 v) h = rw (h, literal_of) refl
  parse_literal-literal_tree (Literal.float64 v) h = rw (h, literal_of) refl
  parse_literal-literal_tree (Literal.bool true) h = refl
  parse_literal-literal_tree (Literal.bool false) h = refl
  parse_literal-literal_tree (Literal.string v) h = rw (unquoted-append v, literal_of) refl

  parse_property_map-filter_trees :
      (filters : List PropertyFilter)
      → FiltersRead number_text int_text float_text parse_f64 filters
      → parse_property_map parse_f64 (filter_trees number_text int_text float_text filters)
        ≡ some filters
  unfolding parse_property_map filter_trees FiltersRead parse_property_kv
  parse_property_map-filter_trees [] h = refl
  parse_property_map-filter_trees (f ∷ fs) h =
      rw
        (
          parse_literal-literal_tree f.value h.1,
          parse_property_map-filter_trees fs h.2,
          parse_property_kv,
        )
        (ap (λ op. some (record { property = f.property; op = op; value = f.value } ∷ fs))
          (sym h.0))

  node_body-map_tree :
      (filters : List PropertyFilter) (node : NodePattern)
      → node.property_filters ≡ []
      → FiltersRead number_text int_text float_text parse_f64 filters
      → node_body parse_f64 (map_tree number_text int_text float_text filters) node
        ≡ some (record node { property_filters = filters })
  unfolding node_body
  node_body-map_tree [] node e h = ap (λ fs. some (record node { property_filters = fs })) e
  node_body-map_tree (f ∷ fs) node e h = rw (parse_property_map-filter_trees (f ∷ fs) h) refl

  node_body-optional :
      (label : Option String) (rest : Pairs Rule) (node : NodePattern)
      → node.label ≡ none
      → node_body parse_f64 (optional Rule.ident label rest) node
        ≡ node_body parse_f64 rest (record node { label = label })
  unfolding node_body
  node_body-optional none rest node e =
      ap (λ l. node_body parse_f64 rest (record node { label = l })) e
  node_body-optional (some label) rest node e = refl

  parse_node_pattern-node_tree :
      (node : NodePattern)
      → FiltersRead number_text int_text float_text parse_f64 node.property_filters
      → parse_node_pattern parse_f64 (node_tree number_text int_text float_text node) ≡ some node
  unfolding parse_node_pattern
  parse_node_pattern-node_tree node h =
      node_body-optional node.label (map_tree number_text int_text float_text node.property_filters)
        (record { alias = node.alias; label = none; property_filters = [] }) refl
      ∙ node_body-map_tree node.property_filters
          (record { alias = node.alias; label = node.label; property_filters = [] }) refl h

  parse_hop_range-hops_tree :
      (hops : HopRange)
      → (parse_u32 (codes (number_text hops.min)) ≡ some hops.min)
      → (parse_u32 (codes (number_text hops.max)) ≡ some hops.max)
      → parse_hop_range (hops_tree number_text int_text float_text hops) ≡ some hops
  unfolding parse_hop_range
  parse_hop_range-hops_tree hops h k = rw (h, k) refl

  detail_parts-alias :
      (alias : Option String) (rest : Pairs Rule) (edge : EdgePattern)
      → edge.alias ≡ none
      → detail_parts (optional Rule.edge_alias alias rest) edge
        ≡ detail_parts rest (record edge { alias = alias })
  unfolding detail_parts
  detail_parts-alias none rest edge e = ap (λ a. detail_parts rest (record edge { alias = a })) e
  detail_parts-alias (some alias) rest edge e = refl

  detail_parts-type :
      (edge_type : Option String) (rest : Pairs Rule) (edge : EdgePattern)
      → edge.edge_type ≡ none
      → detail_parts (optional Rule.ident edge_type rest) edge
        ≡ detail_parts rest (record edge { edge_type = edge_type })
  unfolding detail_parts
  detail_parts-type none rest edge e = ap (λ t. detail_parts rest (record edge { edge_type = t })) e
  detail_parts-type (some t) rest edge e = refl

  -- an edge before its details are read
  abbrev fresh : Direction → EdgePattern
  fresh direction = record {
    alias = none;
    edge_type = none;
    direction = direction;
    hops = record { min = 1; max = 1 };
  }

  details-edge :
      (edge : EdgePattern)
      → StepReads number_text int_text float_text parse_f64 (PatternStep.edge edge)
      → detail_parts
          (optional Rule.edge_alias edge.alias (
            optional Rule.ident edge.edge_type
              (cons (hops_tree number_text int_text float_text edge.hops) nil)))
          (fresh edge.direction)
        ≡ some edge
  unfolding detail_parts
  details-edge edge h =
      detail_parts-alias edge.alias _ (fresh edge.direction) refl
      ∙ detail_parts-type edge.edge_type _ (record (fresh edge.direction) { alias = edge.alias })
          refl
      ∙ rw (parse_hop_range-hops_tree edge.hops h.0 h.1) refl

  parse_edge_pattern-edge_tree :
      (edge : EdgePattern)
      → StepReads number_text int_text float_text parse_f64 (PatternStep.edge edge)
      → parse_edge_pattern (edge_tree number_text int_text float_text edge) ≡ some edge
  unfolding parse_edge_pattern edge_details
  parse_edge_pattern-edge_tree edge h =
      rw (edge_direction-direction_rule edge.direction, details-edge edge h) refl

  parse_step-step_tree :
      (step : PatternStep)
      → StepReads number_text int_text float_text parse_f64 step
      → parse_step parse_f64 (step_tree number_text int_text float_text step) ≡ some step
  parse_step-step_tree (PatternStep.node node) h = rw (parse_node_pattern-node_tree node h) refl
  parse_step-step_tree (PatternStep.edge edge) h = rw (parse_edge_pattern-edge_tree edge h) refl

  parse_steps-step_trees :
      (steps : List PatternStep)
      → StepsRead number_text int_text float_text parse_f64 steps
      → parse_steps parse_f64 (step_trees number_text int_text float_text steps) ≡ some steps
  unfolding parse_steps step_trees StepsRead
  parse_steps-step_trees [] h = refl
  parse_steps-step_trees (step ∷ steps) h =
      rw (parse_step-step_tree step h.0, parse_steps-step_trees steps h.1) refl

  pub parse_pattern-pattern_tree :
      (p : Pattern)
      → StepsRead number_text int_text float_text parse_f64 p.steps
      → parse_pattern parse_f64 (step_trees number_text int_text float_text p.steps) ≡ some p
  unfolding parse_pattern
  parse_pattern-pattern_tree p h = rw (parse_steps-step_trees p.steps h) refl
