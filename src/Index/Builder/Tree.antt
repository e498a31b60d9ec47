-- ===== src/Index/Builder/Tree.antt =====
-- graph-engine/crates/graph-index/src/builder.rs, `build_property_index`: one tree of the property
-- index, as a map from a key to the nodes that were pushed under it.
use Prim.Native.Nat.Ordering.{lt, eq}
use mathlib.Core.List.{append-nil}
use doi.Prelude.{
  In_of_All, Option-cases, ◌≡◌, refl, ◌↔◌, inl, inr, List, [], ◌∷◌, ◌++◌, none, some, arith, All,
  In, or_default, if◌then◌else◌, Bool, true, false, flat_map, filter, ◌&&◌, In-of_flat_map,
  In-flat_map, In-filter,
}
use doi.Schema.{NodeId}
use doi.Index.{KeyTree, Bound, above, below, find_key}
use doi.Index.Key.{PropertyKey, compare_key, key-IsLawful}
use doi.Index.Builder.{tree_push}
open key-IsLawful use {cmp_refl, eq_of_cmp, cmp_reverse, lt_trans}

abbrev pub same_key : PropertyKey → PropertyKey → Bool
same_key a b = elim (compare_key a b) [ eq ↦ true | _ ↦ false ]

-- The keys ascend.
abbrev pub IsOrdered : KeyTree → Type 0
IsOrdered [] = Unit
IsOrdered ((k, ids) ∷ tree) = All (λ e. compare_key k e.0 ≡ lt) tree × IsOrdered tree

find_key_beyond :
    (key : PropertyKey) (tree : KeyTree)
    → All (λ e. compare_key key e.0 ≡ lt) tree
    → find_key key tree ≡ none
unfolding find_key
find_key_beyond key [] a = refl
find_key_beyond key ((k, ids) ∷ tree) a = ground (arith, find_key_beyond key tree)

All-below :
    (key k : PropertyKey) (tree : KeyTree)
    → compare_key key k ≡ lt
    → All (λ e. compare_key k e.0 ≡ lt) tree
    → All (λ e. compare_key key e.0 ≡ lt) tree
All-below key k [] h a = tt
All-below key k ((j, ids) ∷ tree) h a = (lt_trans key k j h a.0, All-below key k tree h a.1)

All-tree_push :
    (k key : PropertyKey) (id : NodeId) (tree : KeyTree)
    → compare_key k key ≡ lt
    → All (λ e. compare_key k e.0 ≡ lt) tree
    → All (λ e. compare_key k e.0 ≡ lt) (tree_push key id tree)
unfolding tree_push
All-tree_push k key id [] h a = (h, tt)
All-tree_push k key id ((j, ids) ∷ tree) h a = ground (arith, All-tree_push k key id tree)

pub tree_push-IsOrdered :
    (key : PropertyKey) (id : NodeId) (tree : KeyTree)
    → IsOrdered tree
    → IsOrdered (tree_push key id tree)
unfolding tree_push
tree_push-IsOrdered key id [] o = (tt, tt)
tree_push-IsOrdered key id ((k, ids) ∷ tree) o = ground (
  arith,
  tree_push-IsOrdered key id tree,
  All-tree_push k key id tree,
  All-below key k tree,
  cmp_reverse key k,
)

-- A push adds to the nodes of its key and leaves the other keys.
pub find_key-tree_push :
    (key j : PropertyKey) (id : NodeId) (tree : KeyTree)
    → IsOrdered tree
    → or_default (find_key j (tree_push key id tree))
      ≡ or_default (find_key j tree) ++ (if same_key key j then id ∷ [] else [])
unfolding tree_push find_key
find_key-tree_push key j id [] o = ground (arith, cmp_reverse key j)
find_key-tree_push key j id ((k, ids) ∷ tree) o = ground (
  arith,
  find_key-tree_push key j id tree,
  find_key_beyond key tree,
  All-below key k tree,
  eq_of_cmp key j,
  eq_of_cmp key k,
  eq_of_cmp j k,
  eq_of_cmp j key,
  cmp_refl key,
  append-nil ids,
  append-nil (or_default (find_key j tree)),
)

In-of_find_key :
    (key : PropertyKey) (ids : List NodeId) (tree : KeyTree)
    → find_key key tree ≡ some ids
    → In (key, ids) tree
unfolding find_key
In-of_find_key key ids [] h = cc
In-of_find_key key ids ((k, js) ∷ tree) h =
    ground (arith, In-of_find_key key ids tree, eq_of_cmp key k)

find_key_of_In :
    (key : PropertyKey) (ids : List NodeId) (tree : KeyTree)
    → IsOrdered tree
    → In (key, ids) tree
    → find_key key tree ≡ some ids
unfolding find_key
find_key_of_In key ids [] o i = absurd i
find_key_of_In key ids ((k, js) ∷ tree) o (inl e) = ground (arith, cmp_refl key)
find_key_of_In key ids ((k, js) ∷ tree) o (inr i) =
    let above = In_of_All (λ e. compare_key k e.0 ≡ lt) (key, ids) tree o.0 i in
    ground (arith, find_key_of_In key ids tree o.1 i, cmp_reverse k key)

abbrev pub within : Bound × Bound → PropertyKey → Bool
within bounds key = above bounds.0 key && below bounds.1 key

-- A range read finds what the reads at the keys within the bounds find.
pub In-range :
    (bounds : Bound × Bound) (id : NodeId) (tree : KeyTree)
    → IsOrdered tree
    → In id (flat_map (λ e. e.1) (filter (λ e. within bounds e.0) tree))
      ↔ ((key : PropertyKey) × (within bounds key ≡ true) × In id (or_default (find_key key tree)))
In-range bounds id tree o = (fore, back)
  where
    entries : KeyTree
    entries = filter (λ e. within bounds e.0) tree

    fore :
        In id (flat_map (λ e. e.1) entries)
        → (key : PropertyKey) × (within bounds key ≡ true) × In id (or_default (find_key key tree))
    fore i =
        let ((key, ids), held, found) = In-of_flat_map (λ e. e.1) id entries i in
        let (there, fits) = (In-filter (λ e. within bounds e.0) (key, ids) tree).0 held in
        (key, fits, rw (find_key_of_In key ids tree o there) found)

    back :
        ((key : PropertyKey) × (within bounds key ≡ true) × In id (or_default (find_key key tree)))
        → In id (flat_map (λ e. e.1) entries)
    back (key, fits, i) = elim (Option-cases (find_key key tree)) [
      | inl e ↦ absurd (rw e at i)
      | inr (ids, e) ↦
          In-flat_map (λ e. e.1) (key, ids) id entries
            ((In-filter (λ e. within bounds e.0) (key, ids) tree).1
              (In-of_find_key key ids tree e, fits))
            (rw e at i)
    ]
