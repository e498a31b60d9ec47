-- ===== src/Query/Distributed/Entries.antt =====
-- graph-engine/crates/graph-query/src/distributed_executor.rs, `binding_key` and `dedup`: bindings with
-- the same entries.
use mathlib.Core.HLevel.{hedberg}
use mathlib.Core.List.{Perm, filter_map, foldr}
use mathlib.Core.List.Perm
use doi.Prelude.{
  ℕ, zero, suc, String, Option, none, some, List, [], ◌∷◌, ◌++◌, map, In, In-of_map, inl, inr, ◌↔◌,
  ◌≡◌, refl, sym, ap, ◌∙◌, subst, arith, Bool-cases, ◌==◌, ==_iff, nat_eq, string_eq, pair_eq,
  list_eq,
}
use doi.Prelude.Order.{Ord, nat_ord, string_ord, pair_ord}
use doi.Prelude.Sorting.{insert_by, sort_by, sort_by-perm}
use doi.Query.{Binding}
use doi.Query.Distributed.{Key, binding_key, dedup}
use doi.Query.Distributed.Keys.{AreDistinct, Agrees, add_new-IsMerged}

-- Sorting by a lawful order does not see in which order the items came.
module _ {A : Type 0} ⦃o : Ord A⦄ where
  insert_by_comm :
      (x y : A) (zs : List A)
      → insert_by o.cmp x (insert_by o.cmp y zs) ≡ insert_by o.cmp y (insert_by o.cmp x zs)
  unfolding insert_by
  insert_by_comm x y [] = ground (arith, o.cmp_reverse x y, o.eq_of_cmp x y)
  insert_by_comm x y (z ∷ zs) = ground (
    arith,
    o.cmp_reverse x y,
    o.eq_of_cmp x y,
    o.eq_of_cmp x z,
    o.eq_of_cmp y z,
    o.lt_trans x y z,
    o.lt_trans y x z,
    insert_by_comm x y zs,
  )

  sort_by-foldr : (xs : List A) → sort_by o.cmp xs ≡ foldr (insert_by o.cmp) [] xs
  unfolding sort_by
  sort_by-foldr [] = refl
  sort_by-foldr (x ∷ xs) = ap (insert_by o.cmp x) (sort_by-foldr xs)

  sort_by-of_perm :
      IsSet (List A) → (xs ys : List A) → Perm xs ys → sort_by o.cmp xs ≡ sort_by o.cmp ys
  sort_by-of_perm is_set xs ys p =
      sort_by-foldr xs
      ∙ Perm.foldr-eq is_set (insert_by o.cmp) insert_by_comm p []
      ∙ sym (sort_by-foldr ys)

Key-set : IsSet Key
Key-set = hedberg λ x y. elim (Bool-cases (◌==◌ {A = Key} x y)) [
  | inl e ↦ yes ((==_iff {A = Key} x y).0 e)
  | inr e ↦ no (λ p. ground (arith, ==_iff {A = Key} x y))
]

abbrev Item : Type 0
Item = ℕ × (String × ℕ)

abbrev node_item : String × ℕ → Item
node_item n = (0, (n.0, n.1))

abbrev edge_item : String × ℕ → Item
edge_item e = (1, (e.0, e.1))

abbrev node_of : Item → Option (String × ℕ)
node_of (zero, entry) = some entry
node_of (suc _, entry) = none

abbrev edge_of : Item → Option (String × ℕ)
edge_of (zero, entry) = none
edge_of (suc _, entry) = some entry

abbrev items : (nodes edges : List (String × ℕ)) → List Item
items nodes edges = map node_item nodes ++ map edge_item edges

nodes_of-items : (nodes edges : List (String × ℕ)) → filter_map node_of (items nodes edges) ≡ nodes
unfolding filter_map
nodes_of-items [] [] = refl
nodes_of-items [] (e ∷ edges) = nodes_of-items [] edges
nodes_of-items (n ∷ nodes) edges = ap (λ z. n ∷ z) (nodes_of-items nodes edges)

edges_of-items : (nodes edges : List (String × ℕ)) → filter_map edge_of (items nodes edges) ≡ edges
unfolding filter_map
edges_of-items [] [] = refl
edges_of-items [] (e ∷ edges) = ap (λ z. e ∷ z) (edges_of-items [] edges)
edges_of-items (n ∷ nodes) edges = edges_of-items nodes edges

-- The same nodes under the same aliases, and the same edges, in whatever order the maps hold them.
unfoldable pub IsSame : Binding → Binding → Type 0
IsSame b c = Perm b.nodes c.nodes × Perm b.edges c.edges

pub binding_key-IsSame : (b c : Binding) → (binding_key b ≡ binding_key c) ↔ IsSame b c
unfolding binding_key IsSame
binding_key-IsSame b c =
    let bs = items b.nodes b.edges in
    let cs = items c.nodes c.edges in
    let cmp = (pair_ord {A = ℕ} {B = String × ℕ}).cmp in
    (
      λ e.
          let perm : Perm bs cs =
            Perm.trans (Perm.symm (sort_by-perm cmp bs))
              (subst (λ z. Perm z cs) (sym e) (sort_by-perm cmp cs)) in
          (
            subst (λ z. Perm b.nodes z) (nodes_of-items c.nodes c.edges)
                (subst (λ z. Perm z (filter_map node_of cs)) (nodes_of-items b.nodes b.edges)
                  (Perm.filter_map node_of perm)),
            subst (λ z. Perm b.edges z) (edges_of-items c.nodes c.edges)
                (subst (λ z. Perm z (filter_map edge_of cs)) (edges_of-items b.nodes b.edges)
                  (Perm.filter_map edge_of perm)),
          ),
      λ (p, q).
          sort_by-of_perm ⦃o = pair_ord {A = ℕ} {B = String × ℕ}⦄ Key-set bs cs
            (Perm.append (Perm.map node_item p) (Perm.map edge_item q)),
    )

-- No two of the bindings have the same entries.
unfoldable pub AreApart : List Binding → Type 0
AreApart [] = Unit
AreApart (b ∷ bs) = ((c : Binding) → In c bs → IsSame b c → ⊥) × AreApart bs

-- Each binding that satisfies the predicate is held once, as itself or as one with the same entries, and
-- no other.
pub record HoldsOnce (P : Binding → Type 0) (kept : List Binding) : Type 0 where
  pub apart : AreApart kept
  pub from : (b : Binding) → In b kept → P b
  pub covers : (b : Binding) → P b → (c : Binding) × In c kept × IsSame b c

pub AreApart-of_distinct : (bs : List Binding) → AreDistinct bs → AreApart bs
unfolding AreDistinct AreApart
AreApart-of_distinct [] d = tt
AreApart-of_distinct (b ∷ bs) (n, d) =
    (λ c i s. n c i ((binding_key-IsSame b c).1 s), AreApart-of_distinct bs d)

pub held-of_key :
    (b : Binding) (kept : List Binding)
    → In (binding_key b) (map binding_key kept)
    → (c : Binding) × In c kept × IsSame b c
held-of_key b kept i =
    let (c, j, e) = In-of_map binding_key (binding_key b) kept i in
    (c, j, (binding_key-IsSame b c).0 e)

-- The merged bindings are those of the input, once each: no two of them have the same nodes and edges
-- under the same aliases, and every binding of the input has one with the same.
pub dedup-HoldsOnce : (bs : List Binding) → HoldsOnce (λ b. In b bs) (dedup bs)
unfolding dedup Agrees AreDistinct
dedup-HoldsOnce bs =
    let merged = add_new-IsMerged bs [] [] (λ key. (λ i. i, λ i. i)) tt in
    record {
      apart = AreApart-of_distinct _ merged.distinct;
      from = λ b i. elim (merged.from b i) [ inl n ↦ absurd n | inr j ↦ j ];
      covers = λ b i. held-of_key b _ (merged.covers b i);
    }
