-- ===== src/Cluster/Pods/Replicas.antt =====
-- graph-engine/crates/graph-cluster/src/discovery.rs, `current_map`: the replicas of a partition.
use doi.Prelude.{
  ℕ, ◌<>◌, ◌↔◌, any, ◌&&◌, In-of_any, any_of_In, some-inj, subst, Bool, false, true, In-of_map,
  In-map, In-filter, String, List, [], ◌∷◌, ◌++◌, Option, none, some, map, filter, flat_map, get,
  entry_push, get-entry_push, or_default, string_eq, nat_eq, ◌==◌, ==_iff, ok, ◌≡◌, refl, sym, ap,
  ◌∙◌, arith, inl, inr, In, Option-cases,
}
use mathlib.Core.List.{append_assoc, append-nil}
use doi.Index.{PartitionId}
use doi.Cluster.{SocketAddr, ReplicaEndpoint, PartitionMap}
use doi.Cluster.Pods.{
  Pod, PodStatus, PodCondition, pod_is_ready, parse_partitions, pod_partitions,
  pod_to_replica_endpoint, push_all, push_pods, current_map,
}

module _ (parse_address : String → Option SocketAddr) (number_text : ℕ → String) where
  -- an endpoint as often as its pod names the partition
  abbrev pub hosted : PartitionId → ReplicaEndpoint → List PartitionId → List ReplicaEndpoint
  hosted partition endpoint partitions =
      map (λ _. endpoint) (filter (λ p. p == partition) partitions)

  -- what a pod adds to a partition
  unfoldable pub replicas_on : PartitionId → (port : ℕ) → Pod → List ReplicaEndpoint
  replicas_on partition port pod =
      elim (pod_to_replica_endpoint parse_address number_text pod port) [
        | none ↦ []
        | some endpoint ↦ hosted partition endpoint (pod_partitions pod)
      ]

  get-push_all :
      (partition : PartitionId) (endpoint : ReplicaEndpoint) (partitions : List PartitionId)
      (replicas : List (PartitionId × List ReplicaEndpoint))
      → or_default (get partition (push_all endpoint partitions replicas))
        ≡ or_default (get partition replicas) ++ hosted partition endpoint partitions
  unfolding push_all
  get-push_all partition endpoint [] replicas = sym (append-nil _)
  get-push_all partition endpoint (p ∷ ps) replicas =
      get-push_all partition endpoint ps (entry_push p endpoint replicas)
      ∙ ground (
        arith,
        get-entry_push p partition endpoint replicas,
        ==_iff p partition,
        append_assoc (or_default (get partition replicas)) (endpoint ∷ [])
            (hosted partition endpoint ps),
      )

  get-push_pods :
      (partition : PartitionId) (port : ℕ) (pods : List Pod)
      (replicas : List (PartitionId × List ReplicaEndpoint))
      → or_default (get partition (push_pods parse_address number_text port pods replicas))
        ≡ or_default (get partition replicas) ++ flat_map (replicas_on partition port) pods
  unfolding push_pods replicas_on
  get-push_pods partition port [] replicas = sym (append-nil _)
  get-push_pods partition port (pod ∷ pods) replicas =
      elim (Option-cases (pod_to_replica_endpoint parse_address number_text pod port)) [
        | inl e ↦ rw (e, push_pods, replicas_on) (get-push_pods partition port pods replicas)
        | inr (endpoint, e) ↦
            rw (e, push_pods, replicas_on)
              (get-push_pods partition port pods (push_all endpoint (pod_partitions pod) replicas)
                ∙ ap (λ rs. rs ++ flat_map (replicas_on partition port) pods)
                    (get-push_all partition endpoint (pod_partitions pod) replicas)
                ∙ append_assoc (or_default (get partition replicas))
                    (hosted partition endpoint (pod_partitions pod))
                    (flat_map (replicas_on partition port) pods))
      ]

  -- The pod is ready: the API says so in a condition.
  unfoldable pub IsReady : PodStatus → Type 0
  IsReady status =
      (conditions : List PodCondition) × (status.conditions ≡ some conditions)
      × ((c : PodCondition) × In c conditions × (c.type_ ≡ "Ready") × (c.status ≡ "True"))

  -- The pod names the partition in its annotation, and has a name and an address that parses; the
  -- endpoint is healthy exactly if the pod is ready.
  pub record Hosts (partition : PartitionId) (port : ℕ) (pod : Pod) (endpoint : ReplicaEndpoint)
      : Type 0 where
    pub named : pod.name ≡ some endpoint.replica
    pub status : PodStatus
    pub running : pod.status ≡ some status
    pub ip : String
    pub reached : status.pod_ip ≡ some ip
    pub addressed : parse_address (ip <> ":" <> number_text port) ≡ some endpoint.address
    pub healthy : (endpoint.healthy ≡ true) ↔ IsReady status
    pub annotations : List (String × String)
    pub annotated : pod.annotations ≡ some annotations
    pub raw : String
    pub assigned : get "graph.io/partitions" annotations ≡ some raw
    pub listed : In partition (parse_partitions raw)

  is_true_condition : PodCondition → Bool
  is_true_condition c = c.type_ == "Ready" && c.status == "True"

  pod_is_ready-any :
      (pod : Pod) (status : PodStatus) (conditions : List PodCondition)
      → pod.status ≡ some status
      → status.conditions ≡ some conditions
      → pod_is_ready pod ≡ any is_true_condition conditions
  unfolding pod_is_ready is_true_condition
  pod_is_ready-any pod status conditions e f = rw (e, f, pod_is_ready) refl

  pod_is_ready-none :
      (pod : Pod) (status : PodStatus)
      → pod.status ≡ some status
      → status.conditions ≡ none
      → pod_is_ready pod ≡ false
  unfolding pod_is_ready
  pod_is_ready-none pod status e f = rw (e, f, pod_is_ready) refl

  ready_condition :
      (c : PodCondition)
      → (is_true_condition c ≡ true) ↔ ((c.type_ ≡ "Ready") × (c.status ≡ "True"))
  unfolding is_true_condition
  ready_condition c =
      ground (arith, ==_iff {A = String} c.type_ "Ready", ==_iff {A = String} c.status "True")

  pod_is_ready-IsReady :
      (pod : Pod) (status : PodStatus)
      → pod.status ≡ some status
      → (pod_is_ready pod ≡ true) ↔ IsReady status
  unfolding IsReady
  pod_is_ready-IsReady pod status e = elim (Option-cases status.conditions) [
    | inl f ↦
        rw (pod_is_ready-none pod status e f)
          (λ h. cc, λ (conditions, g, c). let n : none ≡ some conditions = sym f ∙ g in cc)
    | inr (conditions, f) ↦ rw (pod_is_ready-any pod status conditions e f) (
      λ h.
          let (c, i, t) = In-of_any is_true_condition conditions h in
          let (p, q) = (ready_condition c).0 t in (conditions, f, (c, i, p, q)),
      λ (others, g, (c, i, p, q)).
          any_of_In is_true_condition c conditions (subst (In c) (some-inj (sym g ∙ f)) i)
            ((ready_condition c).1 (p, q)),
    )
  ]

  endpoint-of_parts :
      (pod : Pod) (port : ℕ) (name : String) (status : PodStatus) (ip : String)
      (address : SocketAddr)
      → pod.name ≡ some name
      → pod.status ≡ some status
      → status.pod_ip ≡ some ip
      → parse_address (ip <> ":" <> number_text port) ≡ some address
      → pod_to_replica_endpoint parse_address number_text pod port
        ≡ some (record { replica = name; address = address; healthy = pod_is_ready pod })
  unfolding pod_to_replica_endpoint
  endpoint-of_parts pod port name status ip address e f g h = ground arith

  pod_to_replica_endpoint-some :
      (pod : Pod) (port : ℕ) (endpoint : ReplicaEndpoint)
      → (pod_to_replica_endpoint parse_address number_text pod port ≡ some endpoint) ↔ (
          (name : String) × (status : PodStatus) × (ip : String) × (address : SocketAddr)
          × (pod.name ≡ some name)
          × (pod.status ≡ some status)
          × (status.pod_ip ≡ some ip)
          × (parse_address (ip <> ":" <> number_text port) ≡ some address)
          × (record { replica = name; address = address; healthy = pod_is_ready pod } ≡ endpoint))
  unfolding pod_to_replica_endpoint
  pod_to_replica_endpoint-some pod port endpoint = elim (Option-cases pod.name) [
    | inl e ↦ ground arith
    | inr (name, e) ↦ elim (Option-cases pod.status) [
      | inl f ↦ ground arith
      | inr (status, f) ↦ elim (Option-cases status.pod_ip) [
        | inl g ↦ ground arith
        | inr (ip, g) ↦ elim (Option-cases (parse_address (ip <> ":" <> number_text port))) [
          | inl h ↦ ground arith
          | inr (address, h) ↦
              let made = endpoint-of_parts pod port name status ip address e f g h in
              (
                λ q. (name, status, ip, address, e, f, g, h, some-inj (sym made ∙ q)),
                λ (n, s, i, a, p1, p2, p3, p4, p5).
                    endpoint-of_parts pod port n s i a p1 p2 p3 p4 ∙ ap some p5,
              )
        ]
      ]
    ]
  ]

  In-hosted :
      (partition : PartitionId) (endpoint e : ReplicaEndpoint) (partitions : List PartitionId)
      → In endpoint (hosted partition e partitions) ↔ ((endpoint ≡ e) × In partition partitions)
  In-hosted partition endpoint e partitions =
      let named = λ (p : PartitionId). p == partition in
      (
        λ i.
            let (p, j, q) = In-of_map (λ _. e) endpoint (filter named partitions) i in
            let (k, t) = (In-filter named p partitions).0 j in
            (q, subst (λ z. In z partitions) ((==_iff p partition).0 t) k),
        λ (q, i).
            subst (λ z. In z (hosted partition e partitions)) (sym q)
              (In-map (λ _. e) partition (filter named partitions)
                ((In-filter named partition partitions).1
                  (i, (==_iff partition partition).1 refl))),
      )

  In-pod_partitions :
      (pod : Pod) (partition : PartitionId)
      → In partition (pod_partitions pod) ↔ (
          (annotations : List (String × String)) × (raw : String) × (pod.annotations
            ≡ some annotations)
          × (get "graph.io/partitions" annotations ≡ some raw)
          × In partition (parse_partitions raw))
  unfolding pod_partitions
  In-pod_partitions pod partition = elim (Option-cases pod.annotations) [
    | inl e ↦ ground arith
    | inr (annotations, e) ↦ elim (Option-cases (get "graph.io/partitions" annotations)) [
      | inl f ↦ ground arith
      | inr (raw, f) ↦ ground arith
    ]
  ]

  replicas_on-none :
      (partition : PartitionId) (port : ℕ) (pod : Pod)
      → pod_to_replica_endpoint parse_address number_text pod port ≡ none
      → replicas_on partition port pod ≡ []
  unfolding replicas_on
  replicas_on-none partition port pod e = rw (e, replicas_on) refl

  replicas_on-some :
      (partition : PartitionId) (port : ℕ) (pod : Pod) (endpoint : ReplicaEndpoint)
      → pod_to_replica_endpoint parse_address number_text pod port ≡ some endpoint
      → replicas_on partition port pod ≡ hosted partition endpoint (pod_partitions pod)
  unfolding replicas_on
  replicas_on-some partition port pod endpoint e = rw (e, replicas_on) refl

  Hosts-of_made :
      (partition : PartitionId) (port : ℕ) (pod : Pod) (endpoint : ReplicaEndpoint)
      → pod_to_replica_endpoint parse_address number_text pod port ≡ some endpoint
      → In partition (pod_partitions pod)
      → Hosts partition port pod endpoint
  Hosts-of_made partition port pod endpoint e i =
      let (name, status, ip, address, p1, p2, p3, p4, same) =
        (pod_to_replica_endpoint-some pod port endpoint).0 e in
      let (annotations, raw, q1, q2, j) = (In-pod_partitions pod partition).0 i in
      subst (Hosts partition port pod) same (record {
        named = p1;
        status = status;
        running = p2;
        ip = ip;
        reached = p3;
        addressed = p4;
        healthy = pod_is_ready-IsReady pod status p2;
        annotations = annotations;
        annotated = q1;
        raw = raw;
        assigned = q2;
        listed = j;
      })

  bool_ext : (a b : Bool) → (a ≡ true) ↔ (b ≡ true) → a ≡ b
  bool_ext true true h = refl
  bool_ext false false h = refl
  bool_ext true false h = sym (h.0 refl)
  bool_ext false true h = h.1 refl

  made_of_Hosts :
      (partition : PartitionId) (port : ℕ) (pod : Pod) (endpoint : ReplicaEndpoint)
      → Hosts partition port pod endpoint
      → pod_to_replica_endpoint parse_address number_text pod port ≡ some endpoint
  made_of_Hosts partition port pod endpoint h =
      let ready = pod_is_ready-IsReady pod h.status h.running in
      endpoint-of_parts pod port endpoint.replica h.status h.ip endpoint.address h.named h.running
        h.reached h.addressed
      ∙ ap
          (λ b.
            some (record { replica = endpoint.replica; address = endpoint.address; healthy = b }))
          (bool_ext (pod_is_ready pod) endpoint.healthy
            (λ e. h.healthy.1 (ready.0 e), λ e. ready.1 (h.healthy.0 e)))

  In-replicas_on :
      (partition : PartitionId) (port : ℕ) (pod : Pod) (endpoint : ReplicaEndpoint)
      → In endpoint (replicas_on partition port pod) ↔ Hosts partition port pod endpoint
  In-replicas_on partition port pod endpoint = (
    λ i. elim (Option-cases (pod_to_replica_endpoint parse_address number_text pod port)) [
      | inl e ↦ absurd (subst (In endpoint) (replicas_on-none partition port pod e) i)
      | inr (made, e) ↦
          let (same, j) =
            (In-hosted partition endpoint made (pod_partitions pod)).0
              (subst (In endpoint) (replicas_on-some partition port pod made e) i) in
          subst (Hosts partition port pod) (sym same) (Hosts-of_made partition port pod made e j)
    ],
    λ h.
        let e = made_of_Hosts partition port pod endpoint h in
        subst (In endpoint) (sym (replicas_on-some partition port pod endpoint e)) (
          (In-hosted partition endpoint endpoint (pod_partitions pod)).1 (
            refl,
            (In-pod_partitions pod partition).1
                (h.annotations, h.raw, h.annotated, h.assigned, h.listed),
          )),
  )

  -- The replicas of a partition come pod by pod, in the order of the pods, and those of a pod are the
  -- endpoint with its name and its address, healthy exactly if it is ready, where the name is there,
  -- the address parses and the pod lists the partition under `graph.io/partitions`.
  pub current_map-Hosts :
      (pods : List Pod) (port : ℕ) (partition : PartitionId)
      → (found : PartitionMap) × (current_map parse_address number_text (ok pods) port ≡ ok found)
        × (or_default (get partition found.replicas_by_partition)
            ≡ flat_map (replicas_on partition port) pods)
        × ((pod : Pod) (endpoint : ReplicaEndpoint)
            → In endpoint (replicas_on partition port pod) ↔ Hosts partition port pod endpoint)
  unfolding current_map
  current_map-Hosts pods port partition =
      (_, refl, get-push_pods partition port pods [], In-replicas_on partition port)
