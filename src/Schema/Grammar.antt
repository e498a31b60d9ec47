-- ===== src/Schema/Grammar.antt =====
-- graph-engine/crates/graph-schema/src/schema.pest: the rules that yield a pair.
pub data Rule : Type 0 where
  schema_file schema_decl node_decl edge_decl id_field from_field to_field property_decl : Rule
  indexed_marker optional_marker scalar_type simple_type list_type vector_type ident number eoi :
      Rule
