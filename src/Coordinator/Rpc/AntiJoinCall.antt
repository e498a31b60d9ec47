-- ===== src/Coordinator/Rpc/AntiJoinCall.antt =====
-- graph-engine/bin/graph-coordinator/src/grpc_partition_rpc.rs, `check_anti_join`: the answer is by
-- index, found by the equality of bindings.
use doi.Prelude.{◌>>=◌ as ◌>>=R◌}
use doi.Prelude.{
  ℕ, zero, suc, ◌+◌, ◌%◌, ◌^◌, ◌≤◌, String, Bool, true, false, not, List, [], ◌∷◌, Option, none,
  some, map, get, any, all, filter, filter_map, get_elem?, drop, length, Result, ◌≡◌, refl, sym, ap,
  ◌∙◌, arith, inl, inr, In, All, In-of_get, In_of_All, all_of_In, In-filter, any_of_In, In-of_any,
  KeysUnique, get_of_In, Option-cases, Bool-cases, ==_iff, ◌==◌, nat_eq, string_eq, if◌then◌else◌,
  &&_true,
}
use doi.Prelude.Int.{ℤ}
use doi.Dsl.{PropertyFilter}
use doi.Index.{IndexGeneration, acquire}
use doi.Cluster.{SocketAddr, ReplicaEndpoint}
use doi.Query.{Run, ok, ◌>>=◌, AntiJoinStep, Binding, Run-cases, >>=-eq-ok}
use doi.Query.Local.{check_anti_join, is_candidate, neighbors_of}
use doi.Proto.{Status, CheckAntiJoinResponse, PartitionService}
use doi.PartitionNode.Convert as Node
use doi.PartitionNode.Service.{
  PartitionServiceImpl, internally, service, map_beq, binding_beq, contains, surviving,
  requested_anti_join, handle_check_anti_join,
}
use doi.Coordinator.Convert.{binding_to_proto, property_filter_to_proto}
use doi.Coordinator.Convert.RoundTrip.{sent_frontier, collect_filters_iff}
use doi.Coordinator.Rpc.{ConnectError, Clients, or_rpc, anti_join_request, grpc_check_anti_join}
use doi.Coordinator.Rpc.Calls.{
  IsNamed, non_empty-text_or_empty, direction_of-incoming_of, IsCached, over_wire, connects,
}

-- The entries of a `HashMap` have different keys.
abbrev pub IsMap : Binding → Type 0
IsMap b = KeysUnique b.nodes × KeysUnique b.edges

get_elem?_of_drop :
    {A : Type 0} (i : ℕ) (xs : List A) (a : A) (rest : List A)
    → drop i xs ≡ a ∷ rest
    → (get_elem? xs i ≡ some a) × (drop (suc i) xs ≡ rest)
get_elem?_of_drop zero [] a rest h = cc
get_elem?_of_drop (suc i) [] a rest h = cc
get_elem?_of_drop zero (x ∷ xs) a rest h = ground arith
get_elem?_of_drop (suc i) (x ∷ xs) a rest h = get_elem?_of_drop i xs a rest h

-- The client reads the indices back as what the server kept.
indexed :
    (survivors frontier : List Binding) (i : ℕ) (bs : List Binding)
    → drop i frontier ≡ bs
    → i + length bs ≤ 2 ^ 32
    → filter_map (get_elem? frontier) (surviving survivors i bs) ≡ filter (contains survivors) bs
unfolding surviving
indexed survivors frontier i [] d h = refl
indexed survivors frontier i (b ∷ bs) d h =
    let (at, next) = get_elem?_of_drop i frontier b bs d in
    let rest = indexed survivors frontier (suc i) bs next (omega arith) in
    let small : i % 2 ^ 32 ≡ i = omega arith in
    elim (Bool-cases (contains survivors b)) [
      | inl e ↦ rw (e, small, at, rest, filter_map) refl
      | inr e ↦ rw (e, rest) refl
    ]

-- the test of one entry
abbrev in_map : List (String × ℕ) → String × ℕ → Bool
in_map b entry = elim (get entry.0 b) [ none ↦ false | some v ↦ entry.1 == v ]

all_of_All :
    {A : Type 0} (p : A → Bool) (xs : List A) → ((a : A) → In a xs → p a ≡ true) → all p xs ≡ true
all_of_All p [] h = refl
all_of_All p (x ∷ xs) h = ground (arith, h x (inl refl), all_of_All p xs (λ a i. h a (inr i)))

all-in_map : (a : List (String × ℕ)) → KeysUnique a → all (in_map a) a ≡ true
all-in_map a u =
    all_of_All (in_map a) a λ e i. ground (arith, get_of_In e.0 e.1 a u i, ==_iff e.1 e.1)

get_of_map_beq :
    (k : String) (v : ℕ) (a b : List (String × ℕ))
    → map_beq a b ≡ true
    → get k a ≡ some v
    → get k b ≡ some v
unfolding map_beq
get_of_map_beq k v a b h g =
    let found =
      all_of_In (in_map b) (k, v) a (&&_true (length a == length b) _ h).1 (In-of_get k v a g) in
    elim (Option-cases (get k b)) [ inl e ↦ ground arith | inr (w, e) ↦ ground (arith, ==_iff v w) ]

map_beq_refl : (a : List (String × ℕ)) → KeysUnique a → map_beq a a ≡ true
unfolding map_beq
map_beq_refl a u = ground (arith, ==_iff (length a) (length a), all-in_map a u)

binding_beq_refl : (b : Binding) → IsMap b → binding_beq b b ≡ true
unfolding binding_beq
binding_beq_refl b u = ground (arith, map_beq_refl b.nodes u.0, map_beq_refl b.edges u.1)

get_of_binding_beq :
    (k : String) (v : ℕ) (a b : Binding)
    → binding_beq a b ≡ true
    → get k a.nodes ≡ some v
    → get k b.nodes ≡ some v
unfolding binding_beq
get_of_binding_beq k v a b h = get_of_map_beq k v a.nodes b.nodes (&&_true _ _ h).0

filter-same :
    {A : Type 0} (p q : A → Bool) (xs : List A)
    → ((a : A) → In a xs → p a ≡ q a)
    → filter p xs ≡ filter q xs
filter-same p q [] h = refl
filter-same p q (x ∷ xs) h = rw (h x (inl refl), filter-same p q xs (λ a i. h a (inr i))) refl

module _ (parse_rfc3339_micros : String → Option ℤ) (generation : IndexGeneration)
    (step : AntiJoinStep) (conditions : List PropertyFilter) where
  -- what the loop decides of one binding
  abbrev keeps : Binding → Bool
  keeps b = elim (get step.from_alias b.nodes) [
    | none ↦ false
    | some u ↦ elim (get step.to_alias b.nodes) [
      | none ↦ false
      | some v ↦ not (
          any (is_candidate parse_rfc3339_micros generation step.edge_type v conditions)
            (neighbors_of generation.topology step.direction u))
    ]
  ]

  survivors_filter :
      (frontier out : List Binding)
      → check_anti_join parse_rfc3339_micros generation step conditions frontier ≡ ok out
      → out ≡ filter keeps frontier
  unfolding check_anti_join
  survivors_filter [] out h = cc
  survivors_filter (b ∷ bs) out h = elim (Option-cases (get step.from_alias b.nodes)) [
    | inl e ↦ ground arith
    | inr (u, e) ↦ elim (Option-cases (get step.to_alias b.nodes)) [
      | inl f ↦ ground arith
      | inr (v, f) ↦
          let h' : (check_anti_join parse_rfc3339_micros generation step conditions bs
                >>= (λ survivors. ok (
                    if any
                      (is_candidate parse_rfc3339_micros generation step.edge_type v conditions)
                      (neighbors_of generation.topology step.direction u)
                    then survivors
                    else b ∷ survivors)))
              ≡ ok out =
            rw (e, f) at h in
          let (rest, run, last) = >>=-eq-ok _ _ h' in ground (arith, survivors_filter bs rest run)
    ]
  ]

  keeps_of_beq : (a b : Binding) → binding_beq a b ≡ true → keeps a ≡ true → keeps b ≡ true
  keeps_of_beq a b h k = elim (Option-cases (get step.from_alias a.nodes)) [
    | inl e ↦ ground arith
    | inr (u, e) ↦ elim (Option-cases (get step.to_alias a.nodes)) [
      | inl f ↦ ground arith
      | inr (v, f) ↦ ground (
        arith,
        get_of_binding_beq step.from_alias u a b h e,
        get_of_binding_beq step.to_alias v a b h f,
      )
    ]
  ]

  contains-keeps :
      (frontier : List Binding) (b : Binding)
      → All IsMap frontier
      → In b frontier
      → contains (filter keeps frontier) b ≡ keeps b
  unfolding contains
  contains-keeps frontier b m i = elim (Bool-cases (keeps b)) [
    | inl e ↦
        any_of_In (λ s. binding_beq s b) b (filter keeps frontier)
          ((In-filter keeps b frontier).1 (i, e))
          (binding_beq_refl b (In_of_All IsMap b frontier m i))
        ∙ sym e
    | inr e ↦ elim (Bool-cases (contains (filter keeps frontier) b)) [
      | inl f ↦
          let (a, j, same) = In-of_any (λ s. binding_beq s b) (filter keeps frontier) f in
          ground (arith, keeps_of_beq a b same ((In-filter keeps a frontier).0 j).1)
      | inr f ↦ f ∙ sym e
    ]
  ]

  -- Selecting by index what equals a survivor selects the survivors, repetitions included.
  pub surviving-selects :
      (frontier out : List Binding)
      → All IsMap frontier
      → length frontier ≤ 2 ^ 32
      → check_anti_join parse_rfc3339_micros generation step conditions frontier ≡ ok out
      → filter_map (get_elem? frontier) (surviving out 0 frontier) ≡ out
  surviving-selects frontier out m small run =
      let kept = survivors_filter frontier out run in
      indexed out frontier 0 frontier refl (omega arith)
      ∙ filter-same (contains out) keeps frontier
          (λ b i. ap (λ s. contains s b) kept ∙ contains-keeps frontier b m i)
      ∙ sym kept

-- the step with what the call does not carry left empty
abbrev carried : AntiJoinStep → AntiJoinStep
carried step = record step { literal_conditions = []; outer_conditions = [] }

check_anti_join-carried :
    (parse_rfc3339_micros : String → Option ℤ) (generation : IndexGeneration) (step : AntiJoinStep)
    (conditions : List PropertyFilter) (frontier : List Binding)
    → check_anti_join parse_rfc3339_micros generation (carried step) conditions frontier
      ≡ check_anti_join parse_rfc3339_micros generation step conditions frontier
unfolding check_anti_join
check_anti_join-carried parse_rfc3339_micros generation step conditions [] = refl
check_anti_join-carried parse_rfc3339_micros generation step conditions (b ∷ bs) =
    rw (check_anti_join-carried parse_rfc3339_micros generation step conditions bs) refl

requested-carried :
    (step : AntiJoinStep) (conditions : List PropertyFilter) (frontier : List Binding)
    → IsNamed step.edge_alias
    → IsNamed step.edge_type
    → requested_anti_join (anti_join_request step conditions frontier) ≡ carried step
unfolding requested_anti_join anti_join_request
requested-carried step conditions frontier alias type = λ i. record {
  from_alias = step.from_alias;
  to_alias = step.to_alias;
  direction = direction_of-incoming_of step.direction i;
  edge_alias = non_empty-text_or_empty step.edge_alias alias i;
  edge_type = non_empty-text_or_empty step.edge_type type i;
  literal_conditions = [];
  outer_conditions = [];
}

module _ (connect : SocketAddr → Result ConnectError PartitionService)
    (address_text : SocketAddr → String) (status_text : Status → String)
    (self : PartitionServiceImpl) (parse_rfc3339_micros : String → Option ℤ)
    (replica : ReplicaEndpoint) (clients : Clients)
    (connected : connect replica.address ≡ Result.ok (service self parse_rfc3339_micros))
    (cached : IsCached connect address_text clients) where
  abbrev local_run : AntiJoinStep → List PropertyFilter → List Binding → Run (List Binding)
  local_run = check_anti_join parse_rfc3339_micros (acquire self.generation)

  -- what the handler does with the step and the frontier that it read
  abbrev indices :
      AntiJoinStep → List PropertyFilter → List Binding → Result Status CheckAntiJoinResponse
  indices step conditions frontier =
      internally (local_run step conditions frontier)
      >>=R (λ survivors. Result.ok (record { surviving_indices = surviving survivors 0 frontier }))

  handled :
      (step : AntiJoinStep) (conditions : List PropertyFilter) (frontier : List Binding)
      → IsNamed step.edge_alias
      → IsNamed step.edge_type
      → handle_check_anti_join self parse_rfc3339_micros
          (anti_join_request step conditions frontier)
        ≡ indices (carried step) conditions frontier
  unfolding handle_check_anti_join anti_join_request
  handled step conditions frontier alias type =
      ap
        (λ (r : Result Status (List PropertyFilter)). r >>=R (λ cs.
          indices (requested_anti_join (anti_join_request step conditions frontier)) cs
            (map Node.proto_binding_to_binding (map binding_to_proto frontier))))
        ((collect_filters_iff (map property_filter_to_proto conditions) conditions).1 refl)
      ∙ (λ i.
          indices (requested-carried step conditions frontier alias type i) conditions
            (sent_frontier frontier i))

  -- what the client makes of the answer
  abbrev selected : List Binding → Result Status CheckAntiJoinResponse → Run (List Binding)
  selected frontier r =
      or_rpc status_text r
      >>= (λ response. ok (filter_map (get_elem? frontier) response.surviving_indices))

  selected-indices :
      (step : AntiJoinStep) (conditions : List PropertyFilter) (frontier : List Binding)
      → All IsMap frontier
      → length frontier ≤ 2 ^ 32
      → selected frontier (indices step conditions frontier)
        ≡ over_wire status_text (local_run step conditions frontier)
  unfolding internally
  selected-indices step conditions frontier m small =
      elim (Run-cases (local_run step conditions frontier)) [
        | inl e ↦ rw e refl
        | inr (inl (why, e)) ↦ rw e refl
        | inr (inr (out, e)) ↦ rw e (
            ap ok (
              surviving-selects parse_rfc3339_micros (acquire self.generation) step conditions
                frontier out m small e))
      ]

  -- Through the network and the service, an anti-join whose names are not empty texts, on a frontier
  -- of at most 2^32 bindings that bind no alias twice, gives what the local executor gives on the
  -- replica's generation, or the text of its error: also where bindings of the frontier are equal.
  pub grpc_check_anti_join-runs :
      (step : AntiJoinStep) (conditions : List PropertyFilter) (frontier : List Binding)
      → IsNamed step.edge_alias
      → IsNamed step.edge_type
      → All IsMap frontier
      → length frontier ≤ 2 ^ 32
      → (grpc_check_anti_join connect address_text status_text replica step conditions frontier
          clients).0
        ≡ over_wire status_text (
            check_anti_join parse_rfc3339_micros (acquire self.generation) step conditions frontier)
  unfolding grpc_check_anti_join
  grpc_check_anti_join-runs step conditions frontier alias type m small =
      connects connect address_text status_text self parse_rfc3339_micros replica clients connected
        cached _
      ∙ ap (selected frontier) (handled step conditions frontier alias type)
      ∙ selected-indices (carried step) conditions frontier m small
      ∙ ap (over_wire status_text) (
          check_anti_join-carried parse_rfc3339_micros (acquire self.generation) step conditions
            frontier)
