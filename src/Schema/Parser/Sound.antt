-- ===== src/Schema/Parser/Sound.antt =====
-- graph-engine/crates/graph-schema/src/parser.rs: what holds of every schema that is parsed.
use doi.Prelude.{
  String, true, List, [], ◌∷◌, none, some, ◌≡◌, sym, ap, ◌∙◌, subst, Result, ok, err, In, inl, inr,
  ◌⊎◌, Option-cases, string_eq, Bool-cases, ok-inj, the_ok, the_err, some-inj, arith,
}
use doi.Prelude.Order.{string_ord}
use doi.Prelude.Options.{>>=-eq-some}
use doi.Prelude.ParseTree.{Pairs, pair, nil, cons, as_str}
use doi.Schema.{Label, EdgeType, NodeDef, EdgeDef, Schema, SchemaError}
use doi.Schema.Grammar.{Rule}
use doi.Schema.Parser.{
  holds_key, insert_key, declarations, check_ends, checked, parse_node_decl, parse_edge_decl,
  parse_declared, parse_schema, find_decl,
}

err_ne_ok : {E A : Type 0} {e : E} {a : A} → the_err A e ≡ the_ok E a → ⊥
err_ne_ok h = cc

some_ne_none : {A : Type 0} {a : A} → some a ≡ none → ⊥
some_ne_none h = cc

In-insert_key :
    {V : Type 0} (key : String) (value : V) (entries : List (String × V)) (e : String × V)
    → In e (insert_key key value entries)
    → (e ≡ (key, value)) ⊎ In e entries
unfolding insert_key
In-insert_key key value [] e i = i
In-insert_key key value ((k, v) ∷ entries) e i = ground (arith, In-insert_key key value entries e)

-- The maps are keyed by the labels and the edge types that they hold.
abbrev pub NodesKeyed : List (Label × NodeDef) → Type 0
NodesKeyed nodes = (e : Label × NodeDef) → In e nodes → e.0 ≡ e.1.label

abbrev pub EdgesKeyed : List (EdgeType × EdgeDef) → Type 0
EdgesKeyed edges = (e : EdgeType × EdgeDef) → In e edges → e.0 ≡ e.1.edge_type

NodesKeyed-insert_key :
    (node : NodeDef) (nodes : List (Label × NodeDef))
    → NodesKeyed nodes
    → NodesKeyed (insert_key node.label node nodes)
NodesKeyed-insert_key node nodes keyed e i = elim (In-insert_key node.label node nodes e i) [
  | inl p ↦ ap (λ x. x.0) p ∙ sym (ap (λ (x : Label × NodeDef). x.1.label) p)
  | inr j ↦ keyed e j
]

EdgesKeyed-insert_key :
    (edge : EdgeDef) (edges : List (EdgeType × EdgeDef))
    → EdgesKeyed edges
    → EdgesKeyed (insert_key edge.edge_type edge edges)
EdgesKeyed-insert_key edge edges keyed e i = elim (In-insert_key edge.edge_type edge edges e i) [
  | inl p ↦ ap (λ x. x.0) p ∙ sym (ap (λ (x : EdgeType × EdgeDef). x.1.edge_type) p)
  | inr j ↦ keyed e j
]

declarations-keyed :
    (decls : Pairs Rule) (nodes nodes' : List (Label × NodeDef))
    (edges edges' : List (EdgeType × EdgeDef))
    → NodesKeyed nodes
    → EdgesKeyed edges
    → declarations decls nodes edges ≡ some (ok (nodes', edges'))
    → NodesKeyed nodes' × EdgesKeyed edges'
unfolding declarations
declarations-keyed nil nodes nodes' edges edges' n e h =
    let p = ok-inj (some-inj h) in
    (subst NodesKeyed (ap (λ x. x.0) p) n, subst EdgesKeyed (ap (λ x. x.1) p) e)
declarations-keyed (cons (pair Rule.node_decl text inner) rest) nodes nodes' edges edges' n e h =
    let (node, _, k) = >>=-eq-some (parse_node_decl inner) _ h in
    elim (Bool-cases (holds_key node.label nodes)) [
      | inl t ↦ absurd (err_ne_ok (some-inj (rw t at k)))
      | inr f ↦
          declarations-keyed rest (insert_key node.label node nodes) nodes' edges edges'
            (NodesKeyed-insert_key node nodes n) e (rw f at k)
    ]
declarations-keyed (cons (pair Rule.edge_decl text inner) rest) nodes nodes' edges edges' n e h =
    let (edge, _, k) = >>=-eq-some (parse_edge_decl inner) _ h in
    elim (Bool-cases (holds_key edge.edge_type edges)) [
      | inl t ↦ absurd (err_ne_ok (some-inj (rw t at k)))
      | inr f ↦
          declarations-keyed rest nodes nodes' (insert_key edge.edge_type edge edges) edges' n
            (EdgesKeyed-insert_key edge edges e) (rw f at k)
    ]
declarations-keyed (cons (pair _ text inner) rest) nodes nodes' edges edges' n e h = cc

check_ends-none :
    (nodes : List (Label × NodeDef)) (edges : List (EdgeType × EdgeDef))
    → check_ends nodes edges ≡ none
    → (e : EdgeType × EdgeDef) → In e edges
    → (holds_key e.1.from nodes ≡ true) × (holds_key e.1.to nodes ≡ true)
unfolding check_ends
check_ends-none nodes [] h e i = absurd i
check_ends-none nodes ((key, edge) ∷ edges) h e i = elim (Bool-cases (holds_key edge.from nodes)) [
  | inr f ↦ absurd (some_ne_none (rw f at h))
  | inl f ↦ elim (Bool-cases (holds_key edge.to nodes)) [
    | inr t ↦ absurd (some_ne_none (rw (f, t) at h))
    | inl t ↦ elim i [
      | inl p ↦
          subst
            (λ (x : EdgeType × EdgeDef).
              (holds_key x.1.from nodes ≡ true) × (holds_key x.1.to nodes ≡ true))
            (sym p) (f, t)
      | inr j ↦ check_ends-none nodes edges (rw (f, t) at h) e j
    ]
  ]
]

-- the parser's promise
pub record IsConsistent (schema : Schema) : Type 0 where
  pub nodes_keyed : NodesKeyed schema.nodes
  pub edges_keyed : EdgesKeyed schema.edges
  pub ends :
      (e : EdgeType × EdgeDef)
      → In e schema.edges
      → (holds_key e.1.from schema.nodes ≡ true) × (holds_key e.1.to schema.nodes ≡ true)

checked-IsConsistent :
    (version : String) (nodes : List (Label × NodeDef)) (edges : List (EdgeType × EdgeDef))
    (schema : Schema)
    → NodesKeyed nodes
    → EdgesKeyed edges
    → checked version (ok (nodes, edges)) ≡ ok schema
    → IsConsistent schema
checked-IsConsistent version nodes edges schema n e h =
    elim (Option-cases (check_ends nodes edges)) [
      | inr (x, f) ↦ absurd (err_ne_ok (rw (f, checked) at h))
      | inl f ↦
          subst IsConsistent (ok-inj (rw (f, checked) at h))
            (record { nodes_keyed = n; edges_keyed = e; ends = check_ends-none nodes edges f })
    ]

of_declared-IsConsistent :
    (version : String) (rest : Pairs Rule)
    (declared : Result SchemaError (List (Label × NodeDef) × List (EdgeType × EdgeDef)))
    (schema : Schema)
    → declarations rest [] [] ≡ some declared
    → checked version declared ≡ ok schema
    → IsConsistent schema
of_declared-IsConsistent version rest (err x) schema k h = absurd (err_ne_ok h)
of_declared-IsConsistent version rest (ok (nodes, edges)) schema k h =
    let (n, e) = declarations-keyed rest [] nodes [] edges (λ e i. absurd i) (λ e i. absurd i) k in
    checked-IsConsistent version nodes edges schema n e h

parse_declared-IsConsistent :
    (decl : Pairs Rule) (schema : Schema)
    → parse_declared decl ≡ some (ok schema)
    → IsConsistent schema
unfolding parse_declared
parse_declared-IsConsistent nil schema h = absurd (some_ne_none (sym h))
parse_declared-IsConsistent (cons version rest) schema h =
    let (declared, k, f) = >>=-eq-some (declarations rest [] []) _ h in
    of_declared-IsConsistent (as_str version) rest declared schema k (some-inj f)

-- A schema that is parsed keeps its node and edge definitions under their own names, and the ends of
-- each of its edge types are labels that it declares.
pub parse_schema-IsConsistent :
    (file : Result String (Pairs Rule)) (schema : Schema)
    → parse_schema file ≡ some (ok schema)
    → IsConsistent schema
unfolding parse_schema
parse_schema-IsConsistent (err x) schema h = absurd (err_ne_ok (some-inj h))
parse_schema-IsConsistent (ok nil) schema h = absurd (some_ne_none (sym h))
parse_schema-IsConsistent (ok (cons (pair _ _ inner) _)) schema h =
    let (decl, _, k) = >>=-eq-some (find_decl inner) _ h in
    parse_declared-IsConsistent decl schema k
