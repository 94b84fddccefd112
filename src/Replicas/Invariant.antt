-- ===== src/Replicas/Invariant.antt =====
-- The list of src/server/replica.c stays consistent: descriptors are distinct, and the counter counts.
use inf01151_trabalho_final.Base.{
  ℕ, suc, ◌%◌, ◌^◌, ◌≡◌, refl, sym, ap, subst, ◌∙◌, ◌⊎◌, inl, inr, Bool, true, false, none, some,
  List, [], ◌∷◌, ◌++◌, arith, length, Bool-cases, Option-cases, All,
}
use inf01151_trabalho_final.Text.{ℤ}
use inf01151_trabalho_final.Address.{SockaddrIn}
use inf01151_trabalho_final.Replicas.{
  ReplicaNode, Replicas, int_eq, find_node, add_replica, unlink_id, remove_replica_by_id,
  replica_list_destroy,
}

-- No two nodes share a connection.
abbrev pub IsDistinct : List ReplicaNode → Type 0
IsDistinct [] = Unit
IsDistinct (n ∷ nodes) = (find_node nodes n.socketfd ≡ false) × IsDistinct nodes

pub record IsValid (r : Replicas) : Type 0 where
  pub distinct : IsDistinct r.head
  pub counted : r.replica_count ≡ length r.head % 2 ^ 32

-- Adding a replica keeps the list consistent. It is refused exactly when its descriptor is listed
-- or the allocation fails, and then nothing changes; otherwise the new node is the first.
pub add_replica_lem :
    (socketfd : ℕ) (id listener_port : ℤ) (address : SockaddrIn) (allocated : Bool) (r : Replicas)
    → IsValid r
    → let (added, r') = add_replica socketfd id listener_port address allocated r in
      IsValid r'
      × (((added ≡ false) × (r' ≡ r) × ((find_node r.head socketfd ≡ true) ⊎ (allocated ≡ false)))
          ⊎ ((added ≡ true)
              × (find_node r.head socketfd ≡ false)
              × (r'.head
                  ≡ record {
                    id = id;
                    socketfd = socketfd;
                    listener_port = listener_port;
                    device_address = address;
                  }
                    ∷ r.head)))
unfolding add_replica
add_replica_lem socketfd id listener_port address allocated r v =
    elim (Bool-cases (find_node r.head socketfd)) [
      | inl old ↦ rw old (v, inl (refl, refl, inl refl))
      | inr new ↦ elim (Bool-cases allocated) [
        | inl room ↦
            rw (new, room)
              (
                record { distinct = (new, v.distinct); counted = omega (arith, v.counted) },
                inr (refl, refl, refl),
              )
        | inr full ↦ rw (new, full) (v, inl (refl, refl, inr refl))
      ]
    ]

-- A node taken out of the list, between those before and behind it.
pub record Unlinks (id : ℤ) (nodes : List ReplicaNode) (n : ReplicaNode) (rest : List ReplicaNode)
    : Type 0 where
  pub before : List ReplicaNode
  pub behind : List ReplicaNode
  pub whole : nodes ≡ before ++ n ∷ behind
  pub without : rest ≡ before ++ behind
  pub its_id : int_eq n.id id ≡ true
  pub first : All (λ m. int_eq m.id id ≡ false) before

module _ (id : ℤ) (n : ReplicaNode) (nodes : List ReplicaNode) where
  unlink_here : int_eq n.id id ≡ true → unlink_id id (n ∷ nodes) ≡ some (n, nodes)
  unfolding unlink_id
  unlink_here h = rw (h, unlink_id)

  unlink_nowhere :
      int_eq n.id id ≡ false → unlink_id id nodes ≡ none → unlink_id id (n ∷ nodes) ≡ none
  unfolding unlink_id
  unlink_nowhere h e = rw (h, e, unlink_id)

  unlink_further :
      (m : ReplicaNode) (rest : List ReplicaNode)
      → int_eq n.id id ≡ false
      → unlink_id id nodes ≡ some (m, rest)
      → unlink_id id (n ∷ nodes) ≡ some (m, n ∷ rest)
  unfolding unlink_id
  unlink_further m rest h e = rw (h, e, unlink_id)

unlink_id-none :
    (id : ℤ) (nodes : List ReplicaNode)
    → unlink_id id nodes ≡ none
    → All (λ m. int_eq m.id id ≡ false) nodes
unlink_id-none id [] e = tt
unlink_id-none id (n ∷ nodes) e = elim (Bool-cases (int_eq n.id id)) [
  | inl hit ↦ cc (unlink_here id n nodes hit)
  | inr miss ↦ elim (Option-cases (unlink_id id nodes)) [
    | inl f ↦ (miss, unlink_id-none id nodes f)
    | inr ((m, rest), f) ↦ cc (unlink_further id n nodes m rest miss f)
  ]
]

unlink_id-nil : (id : ℤ) → unlink_id id [] ≡ none
unfolding unlink_id
unlink_id-nil id = refl

unlink_id-some :
    (id : ℤ) (nodes : List ReplicaNode) (n : ReplicaNode) (rest : List ReplicaNode)
    → unlink_id id nodes ≡ some (n, rest)
    → Unlinks id nodes n rest
unlink_id-some id [] n rest e = cc (unlink_id-nil id)
unlink_id-some id (m ∷ nodes) n rest e = elim (Bool-cases (int_eq m.id id)) [
  | inl hit ↦
      let same : n ≡ m = cc (unlink_here id m nodes hit) in
      record {
        before = [];
        behind = nodes;
        whole = ap (λ k. k ∷ nodes) (sym same);
        without = cc (unlink_here id m nodes hit);
        its_id = ap (λ k. int_eq k.id id) same ∙ hit;
        first = tt;
      }
  | inr miss ↦ elim (Option-cases (unlink_id id nodes)) [
    | inl f ↦ cc (unlink_nowhere id m nodes miss f)
    | inr ((k, rest'), f) ↦
        let same : k ≡ n = cc (unlink_further id m nodes k rest' miss f) in
        let shape : rest ≡ m ∷ rest' = cc (unlink_further id m nodes k rest' miss f) in
        let u = unlink_id-some id nodes k rest' f in
        record {
          before = m ∷ u.before;
          behind = u.behind;
          whole = ap (λ t. m ∷ t) u.whole ∙ ap (λ j. m ∷ (u.before ++ j ∷ u.behind)) same;
          without = shape ∙ ap (λ t. m ∷ t) u.without;
          its_id = ap (λ j. int_eq j.id id) (sym same) ∙ u.its_id;
          first = (miss, u.first);
        }
  ]
]

find_node-remove :
    (before behind : List ReplicaNode) (n : ReplicaNode) (socketfd : ℕ)
    → find_node (before ++ n ∷ behind) socketfd ≡ false
    → find_node (before ++ behind) socketfd ≡ false
unfolding find_node
find_node-remove [] behind n socketfd h = ground arith
find_node-remove (m ∷ before) behind n socketfd h =
    ground (arith, find_node-remove before behind n socketfd)

IsDistinct-remove :
    (before behind : List ReplicaNode) (n : ReplicaNode)
    → IsDistinct (before ++ n ∷ behind)
    → IsDistinct (before ++ behind)
IsDistinct-remove [] behind n h = h.1
IsDistinct-remove (m ∷ before) behind n h =
    (find_node-remove before behind n m.socketfd h.0, IsDistinct-remove before behind n h.1)

length-remove :
    (before behind : List ReplicaNode) (n : ReplicaNode)
    → length (before ++ n ∷ behind) ≡ suc (length (before ++ behind))
length-remove [] behind n = refl
length-remove (m ∷ before) behind n = ap suc (length-remove before behind n)

-- Removing a replica by its id keeps the list consistent. If no node has the id nothing changes;
-- otherwise exactly the first that has it is unlinked and its connection is closed.
pub remove_replica_by_id_lem :
    (id : ℤ) (r : Replicas)
    → IsValid r
    → let (removed, r') = remove_replica_by_id id r in
      IsValid r'
      × (((removed ≡ false) × (r' ≡ r) × All (λ m. int_eq m.id id ≡ false) r.head)
          ⊎ ((removed ≡ true)
              × ((n : ReplicaNode) × Unlinks id r.head n r'.head
                  × (r'.closed ≡ n.socketfd ∷ r.closed))))
unfolding remove_replica_by_id
remove_replica_by_id_lem id r v = elim (Option-cases (unlink_id id r.head)) [
  | inl e ↦ rw (e, remove_replica_by_id) (v, inl (refl, refl, unlink_id-none id r.head e))
  | inr ((n, rest), e) ↦
      let u = unlink_id-some id r.head n rest e in
      let shorter : length r.head ≡ suc (length rest) =
        ap length u.whole
        ∙ length-remove u.before u.behind n
        ∙ ap (λ t. suc (length t)) (sym u.without) in
      rw (e, remove_replica_by_id)
        (
          record {
            distinct =
                subst IsDistinct (sym u.without)
                  (IsDistinct-remove u.before u.behind n (subst IsDistinct u.whole v.distinct));
            counted = omega (arith, v.counted, shorter);
          },
          inr (refl, (n, u, refl)),
        )
]

-- Destroying the list leaves it empty with a counter of zero.
pub replica_list_destroy-IsValid : (r : Replicas) → IsValid (replica_list_destroy r)
unfolding replica_list_destroy
replica_list_destroy-IsValid r = record { distinct = tt; counted = refl }
