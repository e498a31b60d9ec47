-- ===== src/Schema/Parser.antt =====
-- graph-engine/crates/graph-schema/src/parser.rs: from the parse tree to the schema. A panic is `none`;
-- the grammar's parser is a parameter, and the text of an error is the parts that its format joins.
pub mod Sound
use Prim.Native.Nat.Ordering.{lt, eq, gt}
use doi.Prelude.{
  ℕ, String, Bool, true, false, List, [], ◌∷◌, Option, none, some, string_eq, ◌==◌, if◌then◌else◌,
  ◌<>◌, Result, ok, err, get, is_some,
}
use doi.Prelude.Order.{Ord, string_ord}
use doi.Prelude.Options.{◌>>=◌}
use doi.Prelude.Parsing.{codes, parse_u32}
use doi.Prelude.ParseTree.{Pair, Pairs, pair, nil, cons, as_str}
use doi.Schema.{Label, EdgeType, ScalarType, PropertyDef, NodeDef, EdgeDef, Schema, SchemaError}
use doi.Schema.Grammar.{Rule}

abbrev pub simple_type : String → Option ScalarType
simple_type text =
    if text == "Int64"
    then some ScalarType.int64
    else if text == "Float64"
    then some ScalarType.float64
    else if text == "Bool"
    then some ScalarType.bool
    else if text == "String"
    then some ScalarType.string
    else if text == "Timestamp"
    then some ScalarType.timestamp
    else if text == "Bytes"
    then some ScalarType.bytes
    else none

unfoldable pub parse_scalar_type : Pair Rule → Option ScalarType
parse_scalar_type (pair _ _ nil) = none
parse_scalar_type (pair _ _ (cons (pair Rule.simple_type text _) _)) = simple_type text
parse_scalar_type (pair _ _ (cons (pair Rule.list_type _ nil) _)) = none
parse_scalar_type (pair _ _ (cons (pair Rule.list_type _ (cons elem _)) _)) =
    parse_scalar_type elem >>= λ ty. some (ScalarType.list ty)
parse_scalar_type (pair _ _ (cons (pair Rule.vector_type _ nil) _)) = none
parse_scalar_type (pair _ _ (cons (pair Rule.vector_type _ (cons dim _)) _)) =
    parse_u32 (codes (as_str dim)) >>= λ d. some (ScalarType.vector d)
parse_scalar_type (pair _ _ (cons (pair _ _ _) _)) = none

-- the variables of `parse_property_decl`
pub record PropertyParts : Type 0 where
  pub indexed : Bool
  pub name : Option String
  pub ty : Option ScalarType
  pub optional : Bool

unfoldable pub property_parts : Pairs Rule → PropertyParts → Option PropertyParts
property_parts nil parts = some parts
property_parts (cons (pair Rule.indexed_marker _ _) rest) parts =
    property_parts rest (record parts { indexed = true })
property_parts (cons (pair Rule.ident text _) rest) parts =
    property_parts rest (record parts { name = some text })
property_parts (cons (pair Rule.scalar_type text inner) rest) parts = do
  ty ← parse_scalar_type (pair Rule.scalar_type text inner)
  property_parts rest (record parts { ty = some ty })
property_parts (cons (pair Rule.optional_marker _ _) rest) parts =
    property_parts rest (record parts { optional = true })
property_parts (cons (pair _ _ _) rest) parts = none

unfoldable pub parse_property_decl : Pairs Rule → Option PropertyDef
parse_property_decl inner = do
  parts ←
      property_parts inner (record { indexed = false; name = none; ty = none; optional = false })
  name ← parts.name
  ty ← parts.ty
  some (record { name = name; ty = ty; optional = parts.optional; indexed = parts.indexed })

-- the loop over the body of a node; the properties are pushed in order
unfoldable pub node_decl_properties : Pairs Rule → Option (List PropertyDef)
node_decl_properties nil = some []
node_decl_properties (cons (pair Rule.id_field _ _) rest) = node_decl_properties rest
node_decl_properties (cons (pair Rule.property_decl _ inner) rest) = do
  property ← parse_property_decl inner
  properties ← node_decl_properties rest
  some (property ∷ properties)
node_decl_properties (cons (pair _ _ _) rest) = none

unfoldable pub parse_node_decl : Pairs Rule → Option NodeDef
parse_node_decl nil = none
parse_node_decl (cons label rest) = do
  properties ← node_decl_properties rest
  some (record { label = as_str label; properties = properties })

unfoldable pub field_label : Pairs Rule → Option Label
field_label nil = none
field_label (cons label _) = some (as_str label)

-- the variables of `parse_edge_decl`
pub record EdgeParts : Type 0 where
  pub from : Option Label
  pub to : Option Label
  pub properties : List PropertyDef

unfoldable pub edge_parts : Pairs Rule → Option Label → Option Label → Option EdgeParts
edge_parts nil from to = some (record { from = from; to = to; properties = [] })
edge_parts (cons (pair Rule.from_field _ inner) rest) from to = do
  label ← field_label inner
  edge_parts rest (some label) to
edge_parts (cons (pair Rule.to_field _ inner) rest) from to = do
  label ← field_label inner
  edge_parts rest from (some label)
edge_parts (cons (pair Rule.property_decl _ inner) rest) from to = do
  property ← parse_property_decl inner
  parts ← edge_parts rest from to
  some (record parts { properties = property ∷ parts.properties })
edge_parts (cons (pair _ _ _) rest) from to = none

unfoldable pub parse_edge_decl : Pairs Rule → Option EdgeDef
parse_edge_decl nil = none
parse_edge_decl (cons edge_type rest) = do
  parts ← edge_parts rest none none
  from ← parts.from
  to ← parts.to
  some
      (record { edge_type = as_str edge_type; from = from; to = to; properties = parts.properties })

-- `BTreeMap::holds_key`
abbrev pub holds_key : {V : Type 0} → String → List (String × V) → Bool
holds_key key entries = is_some (get key entries)

-- `BTreeMap::insert`
unfoldable pub insert_key : {V : Type 0} → String → V → List (String × V) → List (String × V)
insert_key key value [] = (key, value) ∷ []
insert_key key value ((k, v) ∷ entries) = elim (string_ord.cmp key k) [
  | lt ↦ (key, value) ∷ (k, v) ∷ entries
  | eq ↦ (key, value) ∷ entries
  | gt ↦ (k, v) ∷ insert_key key value entries
]

-- the loop over the declarations, with the maps so far
unfoldable pub declarations :
    Pairs Rule
    → List (Label × NodeDef)
    → List (EdgeType × EdgeDef)
    → Option (Result SchemaError (List (Label × NodeDef) × List (EdgeType × EdgeDef)))
declarations nil nodes edges = some (ok (nodes, edges))
declarations (cons (pair Rule.node_decl _ inner) rest) nodes edges =
    parse_node_decl inner >>= λ node.
    let next = declarations rest (insert_key node.label node nodes) edges in
    if holds_key node.label nodes
    then some (err (SchemaError.parse ("duplicate node label: " <> node.label)))
    else next
declarations (cons (pair Rule.edge_decl _ inner) rest) nodes edges =
    parse_edge_decl inner >>= λ edge.
    let next = declarations rest nodes (insert_key edge.edge_type edge edges) in
    if holds_key edge.edge_type edges
    then some (err (SchemaError.parse ("duplicate edge type: " <> edge.edge_type)))
    else next
declarations (cons (pair _ _ _) rest) nodes edges = none

-- the loop over the edges
unfoldable pub check_ends : List (Label × NodeDef) → List (EdgeType × EdgeDef) → Option SchemaError
check_ends nodes [] = none
check_ends nodes ((key, edge) ∷ edges) =
    let rest = check_ends nodes edges in
    if holds_key edge.from nodes
    then if holds_key edge.to nodes
      then rest
      else some (
          SchemaError.parse
            ("edge " <> edge.edge_type <> " references unknown target label " <> edge.to))
    else some (
        SchemaError.parse
          ("edge " <> edge.edge_type <> " references unknown source label " <> edge.from))

abbrev pub find_decl : Pairs Rule → Option (Pairs Rule)
find_decl nil = none
find_decl (cons (pair Rule.schema_decl _ inner) rest) = some inner
find_decl (cons (pair _ _ _) rest) = find_decl rest

abbrev pub checked :
    String
    → Result SchemaError (List (Label × NodeDef) × List (EdgeType × EdgeDef))
    → Result SchemaError Schema
checked version (err e) = err e
checked version (ok (nodes, edges)) = elim (check_ends nodes edges) [
  | some e ↦ err e
  | none ↦ ok (record { version = version; nodes = nodes; edges = edges })
]

unfoldable pub parse_declared : Pairs Rule → Option (Result SchemaError Schema)
parse_declared nil = none
parse_declared (cons version rest) = do
  declared ← declarations rest [] []
  some (checked (as_str version) declared)

-- `PestSchemaParser::parse`, on what the grammar's parser makes of the text
unfoldable pub parse_schema : Result String (Pairs Rule) → Option (Result SchemaError Schema)
parse_schema (err e) = some (err (SchemaError.parse e))
parse_schema (ok nil) = none
parse_schema (ok (cons (pair _ _ inner) _)) = do decl ← find_decl inner; parse_declared decl
