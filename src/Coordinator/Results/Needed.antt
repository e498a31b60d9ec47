-- ===== src/Coordinator/Results/Needed.antt =====
-- graph-engine/bin/graph-coordinator/src/service.rs: the ids whose records `execute_query` fetches.
use doi.Prelude.{
  ℕ, String, Bool, some-inj, true, false, List, [], ◌∷◌, ◌++◌, Option, none, some, get, any,
  filter_map, flat_map, string_eq, nat_eq, ◌==◌, ==_iff, ◌≡◌, refl, sym, subst, arith, inl, inr,
  ◌⊎◌, ◌↔◌, In, In-append, In-flat_map, In-of_flat_map, In-filter_map, In-of_filter_map, In-of_any,
  Bool-cases,
}
use doi.Schema.{NodeId, EdgeId}
use doi.Dsl.{ReturnItem, OrderBy}
use doi.Query.{Binding}
use doi.Query.Distributed.Execute.{id_set}
use doi.Coordinator.Results.{
  AliasKinds, is_edge_alias, resolve_node_id, resolve_edge_id, order_node_ids, order_edge_ids,
  needed_node_ids, needed_edge_ids,
}

In-id_set : (id : ℕ) (ids : List ℕ) → In id (id_set ids) ↔ In id ids
In-id_set id [] = (λ i. i, λ i. i)
In-id_set id (x ∷ xs) = elim (Bool-cases (any (λ n. n == x) (id_set xs))) [
  | inl f ↦
      let (n, j, g) = In-of_any (λ n. n == x) (id_set xs) f in
      ground (arith, ==_iff n x, In-id_set id xs)
  | inr f ↦ ground (arith, In-id_set id xs)
]

-- An item of `RETURN`, with a property or without, or the `ORDER BY` is about the alias.
unfoldable pub IsNamed : List ReturnItem → Option OrderBy → String → Type 0
IsNamed project order_by alias =
    ((item : ReturnItem) × In item project × (item.alias ≡ alias))
    ⊎ ((order : OrderBy) × (order_by ≡ some order) × (order.alias ≡ alias))

module _ (project : List ReturnItem) (order_by : Option OrderBy) (kinds : AliasKinds)
    (bindings : List Binding) where
  -- A binding has the id under an alias that is named, and that names edges or nodes, as the flag says.
  unfoldable pub IsAskedFor : (is_edge : Bool) → (Binding → List (String × ℕ)) → ℕ → Type 0
  IsAskedFor is_edge ids_of id =
      (b : Binding) × (alias : String) × In b bindings
      × IsNamed project order_by alias
      × (is_edge_alias alias kinds ≡ is_edge)
      × (get alias (ids_of b) ≡ some id)

  -- the nodes and the edges alike
  module _ (is_edge : Bool) (ids_of : Binding → List (String × ℕ))
      (resolve : ReturnItem → Binding → Option ℕ)
      (resolves : (item : ReturnItem) (b : Binding) (id : ℕ)
        → (resolve item b ≡ some id)
          ↔ ((is_edge_alias item.alias kinds ≡ is_edge) × (get item.alias (ids_of b) ≡ some id)))
      (ordered : List ℕ)
      (orders : (id : ℕ)
        → In id ordered ↔ (
            (order : OrderBy) × (b : Binding) × (order_by ≡ some order)
            × In b bindings
            × (is_edge_alias order.alias kinds ≡ is_edge)
            × (get order.alias (ids_of b) ≡ some id))) where
    returned : List ℕ
    returned = flat_map (λ b. filter_map (λ item. resolve item b) project) bindings

    IsAskedFor-of_returned : (id : ℕ) → In id returned → IsAskedFor is_edge ids_of id
    unfolding returned IsAskedFor IsNamed
    IsAskedFor-of_returned id i =
        let (b, j, k) =
          In-of_flat_map (λ b. filter_map (λ item. resolve item b) project) id bindings i in
        let (item, l, e) = In-of_filter_map (λ item. resolve item b) id project k in
        let (f, g) = (resolves item b id).0 e in (b, item.alias, j, inl (item, l, refl), f, g)

    In-returned :
        (id : ℕ) (b : Binding) (alias : String) (item : ReturnItem)
        → In b bindings
        → In item project
        → item.alias ≡ alias
        → is_edge_alias alias kinds ≡ is_edge
        → get alias (ids_of b) ≡ some id
        → In id returned
    unfolding returned
    In-returned id b alias item j l p f g =
        In-flat_map (λ b. filter_map (λ item. resolve item b) project) b id bindings j
          (In-filter_map (λ item. resolve item b) item id project l
            ((resolves item b id).1 (
              subst (λ a. (is_edge_alias a kinds ≡ is_edge) × (get a (ids_of b) ≡ some id)) (sym p)
                (f, g))))

    In-needed : (id : ℕ) → In id (id_set (returned ++ ordered)) ↔ IsAskedFor is_edge ids_of id
    unfolding IsAskedFor IsNamed
    In-needed id = (
      λ i. elim ((In-append id returned ordered).0 ((In-id_set id (returned ++ ordered)).0 i)) [
        | inl j ↦ IsAskedFor-of_returned id j
        | inr j ↦
            let (order, b, e, k, f, g) = (orders id).0 j in
            (b, order.alias, k, inr (order, e, refl), f, g)
      ],
      λ (b, alias, j, named, f, g). (In-id_set id (returned ++ ordered)).1 (
          (In-append id returned ordered).1 (elim named [
            | inl (item, l, p) ↦ inl (In-returned id b alias item j l p f g)
            | inr (order, e, p) ↦ inr (
                (orders id).1 (
                  order,
                  b,
                  e,
                  j,
                  subst (λ a. is_edge_alias a kinds ≡ is_edge) (sym p) f,
                  subst (λ a. get a (ids_of b) ≡ some id) (sym p) g,
                ))
          ])),
    )

  resolve_node_id-some :
      (item : ReturnItem) (b : Binding) (id : NodeId)
      → (resolve_node_id item kinds b ≡ some id)
        ↔ ((is_edge_alias item.alias kinds ≡ false) × (get item.alias b.nodes ≡ some id))
  unfolding resolve_node_id
  resolve_node_id-some item b id = ground arith

  resolve_edge_id-some :
      (item : ReturnItem) (b : Binding) (id : EdgeId)
      → (resolve_edge_id item kinds b ≡ some id)
        ↔ ((is_edge_alias item.alias kinds ≡ true) × (get item.alias b.edges ≡ some id))
  unfolding resolve_edge_id
  resolve_edge_id-some item b id = ground arith

module _ (kinds : AliasKinds) (bindings : List Binding) where
  bound_ids :
      (ids_of : Binding → List (String × ℕ)) (alias : String) (id : ℕ)
      → In id (filter_map (λ b. get alias (ids_of b)) bindings)
        ↔ ((b : Binding) × In b bindings × (get alias (ids_of b) ≡ some id))
  bound_ids ids_of alias id = (
    λ i. In-of_filter_map (λ b. get alias (ids_of b)) id bindings i,
    λ (b, j, e). In-filter_map (λ b. get alias (ids_of b)) b id bindings j e,
  )

  -- the sort key's ids, of nodes or of edges
  In-ordered :
      (is_edge : Bool) (ids_of : Binding → List (String × ℕ)) (order : OrderBy) (id : ℕ)
      (ids : List ℕ)
      → (In id ids ↔ (
          (is_edge_alias order.alias kinds ≡ is_edge)
          × In id (filter_map (λ b. get order.alias (ids_of b)) bindings)))
      → In id ids ↔ (
          (o : OrderBy) × (b : Binding) × (some order ≡ some o)
          × In b bindings
          × (is_edge_alias o.alias kinds ≡ is_edge)
          × (get o.alias (ids_of b) ≡ some id))
  In-ordered is_edge ids_of order id ids split = (
    λ i.
        let (f, j) = split.0 i in
        let (b, k, e) = (bound_ids ids_of order.alias id).0 j in (order, b, refl, k, f, e),
    λ (o, b, e, k, f, g).
        let same : o ≡ order = sym (some-inj e) in
        split.1 (
          subst (λ (z : OrderBy). is_edge_alias z.alias kinds ≡ is_edge) same f,
          (bound_ids ids_of order.alias id).1
              (b, k, subst (λ (z : OrderBy). get z.alias (ids_of b) ≡ some id) same g),
        ),
  )

  In-order_node_ids :
      (order_by : Option OrderBy) (id : NodeId)
      → In id (order_node_ids order_by kinds bindings) ↔ (
          (order : OrderBy) × (b : Binding) × (order_by ≡ some order)
          × In b bindings
          × (is_edge_alias order.alias kinds ≡ false)
          × (get order.alias b.nodes ≡ some id))
  In-order_node_ids none id = (λ i. absurd i, λ (o, b, e, j, f, g). cc)
  In-order_node_ids (some order) id =
      In-ordered false (λ b. b.nodes) order id (order_node_ids (some order) kinds bindings)
        (ground arith)

  In-order_edge_ids :
      (order_by : Option OrderBy) (id : EdgeId)
      → In id (order_edge_ids order_by kinds bindings) ↔ (
          (order : OrderBy) × (b : Binding) × (order_by ≡ some order)
          × In b bindings
          × (is_edge_alias order.alias kinds ≡ true)
          × (get order.alias b.edges ≡ some id))
  In-order_edge_ids none id = (λ i. absurd i, λ (o, b, e, j, f, g). cc)
  In-order_edge_ids (some order) id =
      In-ordered true (λ b. b.edges) order id (order_edge_ids (some order) kinds bindings)
        (ground arith)

-- The nodes whose records are fetched are exactly those that some binding has under an alias of nodes
-- that an item of `RETURN`, bare or with a property, or the `ORDER BY` names, and the edges likewise.
pub In-needed_ids :
    (project : List ReturnItem) (order_by : Option OrderBy) (kinds : AliasKinds)
    (bindings : List Binding) (id : ℕ)
    → (In id (needed_node_ids project order_by kinds bindings)
        ↔ IsAskedFor project order_by kinds bindings false (λ b. b.nodes) id)
      × (In id (needed_edge_ids project order_by kinds bindings)
          ↔ IsAskedFor project order_by kinds bindings true (λ b. b.edges) id)
unfolding needed_node_ids needed_edge_ids returned
In-needed_ids project order_by kinds bindings id = (
  In-needed project order_by kinds bindings false (λ b. b.nodes)
      (λ item b. resolve_node_id item kinds b)
      (resolve_node_id-some project order_by kinds bindings)
      (order_node_ids order_by kinds bindings) (In-order_node_ids kinds bindings order_by) id,
  In-needed project order_by kinds bindings true (λ b. b.edges)
      (λ item b. resolve_edge_id item kinds b)
      (resolve_edge_id-some project order_by kinds bindings)
      (order_edge_ids order_by kinds bindings) (In-order_edge_ids kinds bindings order_by) id,
)
