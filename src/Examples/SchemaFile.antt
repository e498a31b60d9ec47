-- ===== src/Examples/SchemaFile.antt =====
-- Tests of the schema parser: the parse tree of a schema with one node and one edge type.
use doi.Prelude.{String, true, false, [], ◌∷◌, some, ◌≡◌, refl, Result, ok, err, string_eq, ◌<>◌}
use doi.Prelude.ParseTree.{Pair, Pairs, pair, nil, cons}
use doi.Schema.{ScalarType, Schema, SchemaError}
use doi.Schema.Grammar.{Rule}
use doi.Schema.Parser.{
  parse_schema, parse_declared, declarations, parse_node_decl, node_decl_properties,
  parse_property_decl, property_parts, parse_scalar_type, parse_edge_decl, edge_parts, field_label,
  insert_key, check_ends,
}
use doi.Schema.Parser.Sound.{IsConsistent, parse_schema-IsConsistent}

abbrev word : String → Pair Rule
word text = pair Rule.ident text nil

-- node Person { id: NodeId @indexed name: String nicknames: List<String>? }
abbrev person_decl : Pair Rule
person_decl = pair Rule.node_decl "" (
    cons (word "Person") (
      cons (pair Rule.id_field "" nil) (
        cons
          (pair Rule.property_decl "" (
            cons (pair Rule.indexed_marker "@indexed" nil) (
              cons (word "name") (
                cons (pair Rule.scalar_type "" (cons (pair Rule.simple_type "String" nil) nil))
                  nil))))
          (cons
            (pair Rule.property_decl "" (
              cons (word "nicknames") (
                cons
                  (pair Rule.scalar_type "" (
                    cons
                      (pair Rule.list_type "" (
                        cons
                          (pair Rule.scalar_type "" (cons (pair Rule.simple_type "String" nil) nil))
                          nil))
                      nil))
                  (cons (pair Rule.optional_marker "?" nil) nil))))
            nil))))

-- edge KNOWS { from: Person to: .. }
abbrev knows_decl : String → Pair Rule
knows_decl to = pair Rule.edge_decl "" (
    cons (word "KNOWS") (
      cons (pair Rule.from_field "" (cons (word "Person") nil))
        (cons (pair Rule.to_field "" (cons (word to) nil)) nil)))

abbrev file : Pairs Rule → Result String (Pairs Rule)
file decls = ok (
    cons
      (pair Rule.schema_file "" (
        cons (pair Rule.schema_decl "" (cons (word "graph_v1") decls))
          (cons (pair Rule.eoi "" nil) nil)))
      nil)

abbrev parsed_schema : Schema
parsed_schema = record {
  version = "graph_v1";
  nodes =
      (
        "Person",
        record {
          label = "Person";
          properties =
              record { name = "name"; ty = ScalarType.string; optional = false; indexed = true }
              ∷ record {
                name = "nicknames";
                ty = ScalarType.list ScalarType.string;
                optional = true;
                indexed = false;
              }
              ∷ [];
        },
      )
      ∷ [];
  edges =
      ("KNOWS", record { edge_type = "KNOWS"; from = "Person"; to = "Person"; properties = [] })
      ∷ [];
}

-- The edge stands before the node that it names.
parse_schema_test :
    parse_schema (file (cons (knows_decl "Person") (cons person_decl nil)))
    ≡ some (ok parsed_schema)
unfolding parse_schema parse_declared declarations parse_node_decl node_decl_properties
    parse_property_decl property_parts parse_scalar_type parse_edge_decl edge_parts field_label
    insert_key check_ends
parse_schema_test = refl

unknown_label_test :
    parse_schema (file (cons (knows_decl "Firm") (cons person_decl nil)))
    ≡ some (
        err
          (SchemaError.parse ("edge " <> "KNOWS" <> " references unknown target label " <> "Firm")))
unfolding parse_schema parse_declared declarations parse_node_decl node_decl_properties
    parse_property_decl property_parts parse_scalar_type parse_edge_decl edge_parts field_label
    insert_key check_ends
unknown_label_test = refl

duplicate_label_test :
    parse_schema (file (cons person_decl (cons person_decl nil)))
    ≡ some (err (SchemaError.parse ("duplicate node label: " <> "Person")))
unfolding parse_schema parse_declared declarations parse_node_decl node_decl_properties
    parse_property_decl property_parts parse_scalar_type insert_key
duplicate_label_test = refl

parse_schema-IsConsistent_example : IsConsistent parsed_schema
parse_schema-IsConsistent_example =
    parse_schema-IsConsistent (file (cons (knows_decl "Person") (cons person_decl nil)))
      parsed_schema parse_schema_test
