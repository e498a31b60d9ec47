-- ===== src/Coordinator/Results/Sorted.antt =====
-- graph-engine/bin/graph-coordinator/src/service.rs, `sort_bindings_by_property`: on keys of one kind
-- of value.
use doi.Prelude.{
  ℕ, String, Bool, true, false, List, [], ◌∷◌, ap, ◌∙◌, In, In_of_All, Option, none, some, All, ◌≡◌,
  refl, arith, Ordering, if◌then◌else◌, subst, sym,
}
use Prim.Native.Nat.Ordering.{lt, eq, gt}
use mathlib.Core.List.{Perm}
use doi.Prelude.Int.{ℤ}
use doi.Prelude.Order.{Ord, reverse, nat_ord, int_ord, bool_ord, string_ord, list_ord}
use doi.Prelude.Sorting.{not_after, sort_by, sort_by-perm, IsSorted, sort_by-IsSorted_on}
use doi.Schema.{NodeId, EdgeId}
use doi.Storage.{PropertyValue, is_nan, float_order, partial_cmp}
use doi.Dsl.{OrderBy, SortDirection}
use doi.Index.{NodeRecord, EdgeRecord}
use doi.Query.{Binding}
use doi.Coordinator.Results.{
  AliasKinds, compare_property_values, compare_keys, directed, property_of, compare_bindings,
  sort_bindings_by_property,
}

-- the types that a sort key may have
pub data KeyKind : Type 0 where
  int64 float64 bool string timestamp bytes : KeyKind

abbrev pub Rank : KeyKind → Type 0
Rank KeyKind.int64 = ℤ
Rank KeyKind.float64 = ℤ
Rank KeyKind.bool = Bool
Rank KeyKind.string = String
Rank KeyKind.timestamp = ℤ
Rank KeyKind.bytes = List ℕ

abbrev pub rank_ord : (k : KeyKind) → Ord (Rank k)
rank_ord KeyKind.int64 = int_ord
rank_ord KeyKind.float64 = int_ord
rank_ord KeyKind.bool = bool_ord
rank_ord KeyKind.string = string_ord
rank_ord KeyKind.timestamp = int_ord
rank_ord KeyKind.bytes = list_ord {A = ℕ}

-- the place of a value among those of a kind; a NaN has none
abbrev pub rank_of : (k : KeyKind) → PropertyValue → Option (Rank k)
rank_of KeyKind.int64 (PropertyValue.int64 v) = some v
rank_of KeyKind.float64 (PropertyValue.float64 v) = if is_nan v then none else some (float_order v)
rank_of KeyKind.bool (PropertyValue.bool v) = some v
rank_of KeyKind.string (PropertyValue.string v) = some v
rank_of KeyKind.timestamp (PropertyValue.timestamp v) = some v
rank_of KeyKind.bytes (PropertyValue.bytes v) = some v
rank_of _ _ = none

pub data KeyRank (R : Type 0) : Type 0 where
  ranked : R → KeyRank R
  unset missing : KeyRank R

abbrev pub ranked_as : {R : Type 0} → Option R → Option (KeyRank R)
ranked_as none = none
ranked_as (some r) = some (ranked r)

abbrev pub key_rank : (k : KeyKind) → Option PropertyValue → Option (KeyRank (Rank k))
key_rank k none = some missing
key_rank k (some PropertyValue.null) = some unset
key_rank k (some v) = ranked_as (rank_of k v)

-- No key, null, or a value of the kind that is no NaN.
abbrev pub IsKeyOf : KeyKind → Option PropertyValue → Type 0
IsKeyOf k key = (r : KeyRank (Rank k)) × (key_rank k key ≡ some r)

module _ {R : Type 0} (o : Ord R) where
  abbrev compare_ranks : KeyRank R → KeyRank R → Ordering
  compare_ranks (ranked a) (ranked b) = o.cmp a b
  compare_ranks (ranked a) _ = lt
  compare_ranks _ (ranked b) = gt
  compare_ranks unset unset = eq
  compare_ranks unset missing = lt
  compare_ranks missing unset = gt
  compare_ranks missing missing = eq

  -- Smaller values stand first, then nulls, then missing keys.
  abbrev pub stands_before : KeyRank R → KeyRank R → Bool
  stands_before (ranked a) (ranked b) = not_after (o.cmp a b)
  stands_before (ranked a) _ = true
  stands_before _ (ranked b) = false
  stands_before unset _ = true
  stands_before missing unset = false
  stands_before missing missing = true

  stands_before-compare_ranks :
      (a b : KeyRank R) → stands_before a b ≡ not_after (compare_ranks a b)
  stands_before-compare_ranks (ranked a) (ranked b) = refl
  stands_before-compare_ranks (ranked a) unset = refl
  stands_before-compare_ranks (ranked a) missing = refl
  stands_before-compare_ranks unset (ranked b) = refl
  stands_before-compare_ranks unset unset = refl
  stands_before-compare_ranks unset missing = refl
  stands_before-compare_ranks missing (ranked b) = refl
  stands_before-compare_ranks missing unset = refl
  stands_before-compare_ranks missing missing = refl

  -- `DESC` turns the whole order round, missing keys included.
  abbrev pub may_precede : SortDirection → KeyRank R → KeyRank R → Bool
  may_precede SortDirection.asc a b = stands_before a b
  may_precede SortDirection.desc a b = stands_before b a

  ranks_total : (a b : KeyRank R) → compare_ranks b a ≡ reverse (compare_ranks a b)
  ranks_total (ranked a) (ranked b) = o.cmp_reverse a b
  ranks_total (ranked a) unset = refl
  ranks_total (ranked a) missing = refl
  ranks_total unset (ranked b) = refl
  ranks_total unset unset = refl
  ranks_total unset missing = refl
  ranks_total missing (ranked b) = refl
  ranks_total missing unset = refl
  ranks_total missing missing = refl

  ranks_trans :
      (a b c : KeyRank R)
      → not_after (compare_ranks a b) ≡ true
      → not_after (compare_ranks b c) ≡ true
      → not_after (compare_ranks a c) ≡ true
  ranks_trans (ranked a) (ranked b) (ranked c) h h' =
      ground (arith, o.lt_trans a b c, o.eq_of_cmp a b, o.eq_of_cmp b c)
  ranks_trans a b c h h' = ground arith

compare_keys-ranks :
    (k : KeyKind) (a b : Option PropertyValue) (r s : KeyRank (Rank k))
    → key_rank k a ≡ some r
    → key_rank k b ≡ some s
    → compare_keys a b ≡ compare_ranks (rank_ord k) r s
unfolding compare_keys compare_property_values partial_cmp
compare_keys-ranks KeyKind.int64 a b r s h h' = ground arith
compare_keys-ranks KeyKind.float64 a b r s h h' = ground arith
compare_keys-ranks KeyKind.bool a b r s h h' = ground arith
compare_keys-ranks KeyKind.string a b r s h h' = ground arith
compare_keys-ranks KeyKind.timestamp a b r s h h' = ground arith
compare_keys-ranks KeyKind.bytes a b r s h h' = ground arith

module _ (kinds : AliasKinds) (node_properties : List (NodeId × NodeRecord))
    (edge_properties : List (EdgeId × EdgeRecord)) (order : OrderBy) (k : KeyKind) where
  -- The binding has a sort key of the kind.
  abbrev pub IsSortable : Binding → Type 0
  IsSortable b =
      IsKeyOf k (property_of kinds node_properties edge_properties order.alias order.property b)

  abbrev compare : Binding → Binding → Ordering
  compare = compare_bindings kinds node_properties edge_properties order

  rank_order : KeyRank (Rank k) → KeyRank (Rank k) → Ordering
  rank_order r s = directed order.direction (compare_ranks (rank_ord k) r s)

  compare-ranks :
      (a b : Binding) (p : IsSortable a) (q : IsSortable b) → compare a b ≡ rank_order p.0 q.0
  unfolding compare_bindings rank_order
  compare-ranks a b p q =
      rw
        (compare_keys-ranks k
          (property_of kinds node_properties edge_properties order.alias order.property a)
          (property_of kinds node_properties edge_properties order.alias order.property b) p.0 q.0
          p.1 q.1)
        refl

  order_total :
      (r s : KeyRank (Rank k))
      → not_after (rank_order r s) ≡ false
      → not_after (rank_order s r) ≡ true
  unfolding rank_order
  order_total r s h = ground (arith, ranks_total (rank_ord k) r s)

  order_trans :
      (r s t : KeyRank (Rank k))
      → not_after (rank_order r s) ≡ true
      → not_after (rank_order s t) ≡ true
      → not_after (rank_order r t) ≡ true
  unfolding rank_order
  order_trans r s t h h' = ground (
    arith,
    ranks_trans (rank_ord k) r s t,
    ranks_trans (rank_ord k) t s r,
    ranks_total (rank_ord k) r s,
    ranks_total (rank_ord k) s t,
    ranks_total (rank_ord k) r t,
  )

  precede_of_order :
      (direction : SortDirection) (r s : KeyRank (Rank k))
      → not_after (directed direction (compare_ranks (rank_ord k) r s)) ≡ true
      → may_precede (rank_ord k) direction r s ≡ true
  precede_of_order SortDirection.asc r s h = stands_before-compare_ranks (rank_ord k) r s ∙ h
  precede_of_order SortDirection.desc r s h =
      stands_before-compare_ranks (rank_ord k) s r ∙ ap not_after (ranks_total (rank_ord k) r s) ∙ h

  -- Each key may stand before all that follow it, in the direction of the query.
  unfoldable pub AreOrdered : List Binding → Type 0
  AreOrdered [] = Unit
  AreOrdered (b ∷ bs) =
      ((c : Binding) (p : IsSortable b) (q : IsSortable c)
        → In c bs
        → may_precede (rank_ord k) order.direction p.0 q.0 ≡ true)
      × AreOrdered bs

  AreOrdered-of_IsSorted : (bs : List Binding) → IsSorted compare bs → AreOrdered bs
  unfolding AreOrdered rank_order
  AreOrdered-of_IsSorted [] s = tt
  AreOrdered-of_IsSorted (b ∷ bs) s = (
    λ c p q i. precede_of_order order.direction p.0 q.0 (
        subst (λ o. not_after o ≡ true) (compare-ranks b c p q)
          (In_of_All (λ y. not_after (compare b y) ≡ true) c bs s.0 i)),
    AreOrdered-of_IsSorted bs s.1,
  )

  -- Where every binding has a sort key of one kind of value, null or none, and no key is a NaN, the
  -- sort returns the same bindings, ordered by their keys: upwards, then the nulls, then the missing
  -- keys, or for a descending sort all of that backwards.
  pub sort_bindings_by_property-AreOrdered :
      (bindings : List Binding)
      → All IsSortable bindings
      → Perm
          (sort_bindings_by_property kinds node_properties edge_properties order bindings)
          bindings
        × AreOrdered
            (sort_bindings_by_property kinds node_properties edge_properties order bindings)
  unfolding sort_bindings_by_property
  sort_bindings_by_property-AreOrdered bindings h = (
    sort_by-perm compare bindings,
    AreOrdered-of_IsSorted (sort_by compare bindings) (
        sort_by-IsSorted_on compare IsSortable
          (λ a b p q e.
            subst (λ o. not_after o ≡ true) (sym (compare-ranks b a q p))
              (order_total p.0 q.0 (subst (λ o. not_after o ≡ false) (compare-ranks a b p q) e)))
          (λ a b c p q r e e'.
            subst (λ o. not_after o ≡ true) (sym (compare-ranks a c p r))
              (order_trans p.0 q.0 r.0 (subst (λ o. not_after o ≡ true) (compare-ranks a b p q) e)
                (subst (λ o. not_after o ≡ true) (compare-ranks b c q r) e')))
          bindings h),
  )
