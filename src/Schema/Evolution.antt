-- ===== src/Schema/Evolution.antt =====
-- graph-engine/crates/graph-schema/src/evolution.rs. A reason is kept as data in place of its text.
use doi.Prelude.{
  String, Bool, true, false, not, List, [], ◌∷◌, ◌++◌, none, some, get, find, flat_map, nat_eq,
  string_eq, ◌==◌, if◌then◌else◌, In, inl, inr, ◌↔◌, ◌≡◌, refl, sym, arith, Option-cases,
  List-cases, some-inj, subst, ◌∙◌, append-eq-nil, flat_map-eq-nil, nil_of_flat_map,
}
use doi.Schema.{Schema, NodeDef, EdgeDef, PropertyDef, ScalarType, Label, EdgeType}

-- the derived `PartialEq`
unfoldable pub type_beq : ScalarType → ScalarType → Bool
type_beq ScalarType.int64 ScalarType.int64 = true
type_beq ScalarType.float64 ScalarType.float64 = true
type_beq ScalarType.bool ScalarType.bool = true
type_beq ScalarType.string ScalarType.string = true
type_beq ScalarType.timestamp ScalarType.timestamp = true
type_beq ScalarType.bytes ScalarType.bytes = true
type_beq (ScalarType.list a) (ScalarType.list b) = type_beq a b
type_beq (ScalarType.vector m) (ScalarType.vector n) = m == n
type_beq _ _ = false

pub data Owner : Type 0 where
  node : Label → Owner
  edge : EdgeType → Owner

pub data Reason : Type 0 where
  removed : Owner → Reason
  property_removed : Owner → (name : String) → Reason
  type_changed : Owner → (name : String) → (from to : ScalarType) → Reason

pub data EvolutionKind : Type 0 where
  compatible : EvolutionKind
  incompatible : (reasons : List Reason) → EvolutionKind

-- the body of the loop of `diff_properties`
unfoldable pub diff_property : Owner → List PropertyDef → PropertyDef → List Reason
diff_property owner to from_prop = elim (find (λ p. p.name == from_prop.name) to) [
  | some to_prop ↦
      if not (type_beq to_prop.ty from_prop.ty)
      then type_changed owner from_prop.name from_prop.ty to_prop.ty ∷ []
      else []
  | none ↦ property_removed owner from_prop.name ∷ []
]

unfoldable pub diff_properties : Owner → (from to : List PropertyDef) → List Reason
unfolding diff_property
diff_properties owner from to = flat_map (diff_property owner to) from

unfoldable pub diff_node : Schema → Label × NodeDef → List Reason
diff_node to (label, from_node) = elim (get label to.nodes) [
  | some to_node ↦ diff_properties (node label) from_node.properties to_node.properties
  | none ↦ removed (node label) ∷ []
]

unfoldable pub diff_edge : Schema → EdgeType × EdgeDef → List Reason
diff_edge to (edge_type, from_edge) = elim (get edge_type to.edges) [
  | some to_edge ↦ diff_properties (edge edge_type) from_edge.properties to_edge.properties
  | none ↦ removed (edge edge_type) ∷ []
]

unfoldable pub diff : (from to : Schema) → EvolutionKind
unfolding diff_node diff_edge diff_properties
diff from to = elim (flat_map (diff_node to) from.nodes ++ flat_map (diff_edge to) from.edges) [
  | [] ↦ compatible
  | reason ∷ reasons ↦ incompatible (reason ∷ reasons)
]

type_beq_iff : (a b : ScalarType) → (type_beq a b ≡ true) ↔ (a ≡ b)
unfolding type_beq
type_beq_iff ScalarType.int64 b = ground arith
type_beq_iff ScalarType.float64 b = ground arith
type_beq_iff ScalarType.bool b = ground arith
type_beq_iff ScalarType.string b = ground arith
type_beq_iff ScalarType.timestamp b = ground arith
type_beq_iff ScalarType.bytes b = ground arith
type_beq_iff (ScalarType.list a) (ScalarType.list b) = ground (arith, type_beq_iff a b)
type_beq_iff (ScalarType.list a) b = ground arith
type_beq_iff (ScalarType.vector m) b = ground arith

-- The new properties declare every old one, and the first of its name has the old type.
pub Keeps : (from to : List PropertyDef) → Type 0
Keeps from to =
    (p : PropertyDef)
    → In p from
    → (q : PropertyDef) × (find (λ r. r.name == p.name) to ≡ some q) × (q.ty ≡ p.ty)

-- The new schema has every old label and edge type with its properties.
pub Extends : (from to : Schema) → Type 0
Extends from to =
    ((label : Label) (old : NodeDef)
      → In (label, old) from.nodes
      → (new : NodeDef) × (get label to.nodes ≡ some new) × Keeps old.properties new.properties)
    × ((edge_type : EdgeType) (old : EdgeDef)
        → In (edge_type, old) from.edges
        → (new : EdgeDef) × (get edge_type to.edges ≡ some new)
          × Keeps old.properties new.properties)

module _ (owner : Owner) where
  Keeps-diff : (from to : List PropertyDef) → (diff_properties owner from to ≡ []) ↔ Keeps from to
  unfolding diff_properties Keeps diff_property
  Keeps-diff from to = (
    λ h p i.
        let e = flat_map-eq-nil (diff_property owner to) p from h i in
        elim (Option-cases (find (λ r. r.name == p.name) to)) [
          | inl n ↦ ground arith
          | inr (q, n) ↦ (q, n, ground (arith, type_beq_iff q.ty p.ty))
        ],
    λ k.
        nil_of_flat_map (diff_property owner to) from
          (λ p i. let (q, n, t) = k p i in ground (arith, type_beq_iff q.ty p.ty)),
  )

module _ (to : Schema) where
  diff_node-nil :
      (label : Label) (old : NodeDef)
      → (diff_node to (label, old) ≡ [])
        ↔ ((new : NodeDef) × (get label to.nodes ≡ some new) × Keeps old.properties new.properties)
  unfolding diff_node
  diff_node-nil label old = elim (Option-cases (get label to.nodes)) [
    | inl n ↦ ground arith
    | inr (new, n) ↦
        let k = Keeps-diff (node label) old.properties new.properties in
        (
          λ h. (new, n, k.0 (rw (n, diff_node) at h)),
          λ (other, m, h).
              rw (n, diff_node)
                (k.1 (subst (λ z. Keeps old.properties z.properties) (some-inj (sym m ∙ n)) h)),
        )
  ]

  diff_edge-nil :
      (edge_type : EdgeType) (old : EdgeDef)
      → (diff_edge to (edge_type, old) ≡ []) ↔ (
          (new : EdgeDef) × (get edge_type to.edges ≡ some new)
          × Keeps old.properties new.properties)
  unfolding diff_edge
  diff_edge-nil edge_type old = elim (Option-cases (get edge_type to.edges)) [
    | inl n ↦ ground arith
    | inr (new, n) ↦
        let k = Keeps-diff (edge edge_type) old.properties new.properties in
        (
          λ h. (new, n, k.0 (rw (n, diff_edge) at h)),
          λ (other, m, h).
              rw (n, diff_edge)
                (k.1 (
                  subst (λ (z : EdgeDef). Keeps old.properties z.properties) (some-inj (sym m ∙ n))
                    h)),
        )
  ]

diff-nil :
    (from to : Schema)
    → (diff from to ≡ compatible)
      ↔ ((flat_map (diff_node to) from.nodes ≡ []) × (flat_map (diff_edge to) from.edges ≡ []))
unfolding diff
diff-nil from to =
    let reasons = flat_map (diff_node to) from.nodes ++ flat_map (diff_edge to) from.edges in
    elim (List-cases reasons) [
      | inl e ↦ (λ h. append-eq-nil _ _ e, λ h. rw (e, diff) refl)
      | inr (r, rs, e) ↦ (λ h. ground arith, λ h. ground arith)
    ]

-- A change of the schema is classified as compatible exactly where the new schema has every old
-- label and edge type, and these declare every old property with its type.
pub diff-compatible : (from to : Schema) → (diff from to ≡ compatible) ↔ Extends from to
unfolding diff Extends
diff-compatible from to =
    let d = diff-nil from to in
    (
      λ h. (
        λ label old i.
            (diff_node-nil to label old).0
              (flat_map-eq-nil (diff_node to) (label, old) from.nodes (d.0 h).0 i),
        λ edge_type old i.
            (diff_edge-nil to edge_type old).0
              (flat_map-eq-nil (diff_edge to) (edge_type, old) from.edges (d.0 h).1 i),
      ),
      λ h. d.1 (
        nil_of_flat_map (diff_node to) from.nodes
            (λ n i. (diff_node-nil to n.0 n.1).1 (h.0 n.0 n.1 i)),
        nil_of_flat_map (diff_edge to) from.edges
            (λ n i. (diff_edge-nil to n.0 n.1).1 (h.1 n.0 n.1 i)),
      ),
    )
