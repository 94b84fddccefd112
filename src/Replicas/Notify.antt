-- ===== src/Replicas/Notify.antt =====
-- `notify_replicas` of src/server/replica.c: who is told, who stays in the list, and that it returns.
use inf01151_trabalho_final.Base.{
  ℕ, suc, ◌+◌, ◌%◌, ◌^◌, ◌≡◌, refl, ap, ◌∙◌, inl, inr, false, Option, some, List, [], ◌∷◌, arith,
  length, ◌⊎◌, All,
}
use inf01151_trabalho_final.Files.{FileSystem}
use inf01151_trabalho_final.Packet.Socket.{Link}
use inf01151_trabalho_final.Packet.{SendCode, ok, socket_closed, error}
use inf01151_trabalho_final.Events.{ReplicaEvent}
use inf01151_trabalho_final.Replicas.{
  ReplicaNode, Replicas, find_node, send_event, notify_nodes, notify_replicas, drop_node, with_link,
}
use inf01151_trabalho_final.Replicas.Invariant.{IsDistinct, IsValid}
use inf01151_trabalho_final.Replicas.Survivors.{
  outcome, send_event_total, reached, survivors, closed_after, survivors-IsDistinct,
}

module _ (e : ReplicaEvent) (links : ℕ → Link) where
  -- The state has the connections of before the call for the nodes that are left.
  abbrev Agrees : Replicas → List ReplicaNode → Type 0
  Agrees r = All (λ n. r.links n.socketfd ≡ links n.socketfd)

  Agrees-update :
      (r : Replicas) (n : ReplicaNode) (link : Link) (nodes : List ReplicaNode)
      → find_node nodes n.socketfd ≡ false
      → Agrees r nodes
      → Agrees (with_link n link r) nodes
  unfolding find_node
  Agrees-update r n link [] h a = tt
  Agrees-update r n link (m ∷ nodes) h a = ground (arith, Agrees-update r n link nodes)

  -- What the loop has done; `others` is the number of nodes that it does not go over.
  record Notified (others : ℕ) (nodes : List ReplicaNode) (r : Replicas)
      (result : Option (ℕ × List ReplicaNode × Replicas)) : Type 0 where
    pub state : Replicas
    pub returns : result ≡ some (reached e links nodes, survivors e links nodes, state)
    pub counted : state.replica_count ≡ (length (survivors e links nodes) + others) % 2 ^ 32
    pub closed : state.closed ≡ closed_after e links nodes r.closed

code_cases : (c : SendCode) → (c ≡ ok) ⊎ ((c ≡ socket_closed) ⊎ (c ≡ error))
code_cases ok = inl refl
code_cases socket_closed = inr (inl refl)
code_cases error = inr (inr refl)

-- One step of the loop, by the code of the node's packet.
module _ (fs : FileSystem) (e : ReplicaEvent) (n : ReplicaNode) (nodes : List ReplicaNode)
    (r : Replicas) (link : Link) where
  notify_ok :
      (k : ℕ) (kept : List ReplicaNode) (r' : Replicas)
      → send_event fs e (r.links n.socketfd) ≡ some (ok, link)
      → notify_nodes fs e nodes (with_link n link r) ≡ some (k, kept, r')
      → notify_nodes fs e (n ∷ nodes) r ≡ some (suc k, n ∷ kept, r')
  unfolding notify_nodes
  notify_ok k kept r' sent rest = rw (sent, rest, notify_nodes)

  notify_error :
      (k : ℕ) (kept : List ReplicaNode) (r' : Replicas)
      → send_event fs e (r.links n.socketfd) ≡ some (error, link)
      → notify_nodes fs e nodes (with_link n link r) ≡ some (k, kept, r')
      → notify_nodes fs e (n ∷ nodes) r ≡ some (k, n ∷ kept, r')
  unfolding notify_nodes
  notify_error k kept r' sent rest = rw (sent, rest, notify_nodes)

  notify_closed :
      send_event fs e (r.links n.socketfd) ≡ some (socket_closed, link)
      → notify_nodes fs e (n ∷ nodes) r ≡ notify_nodes fs e nodes (drop_node n (with_link n link r))
  unfolding notify_nodes
  notify_closed sent = rw (sent, notify_nodes) refl

module _ (fs : FileSystem) (e : ReplicaEvent) (links : ℕ → Link) where
  -- The packet of a node whose connection is the one of before the call.
  send_event-Agrees :
      (r : Replicas) (n : ReplicaNode) (c : SendCode)
      → r.links n.socketfd ≡ links n.socketfd
      → outcome e (links n.socketfd) ≡ c
      → (link : Link) × (send_event fs e (r.links n.socketfd) ≡ some (c, link))
  send_event-Agrees r n c same code =
      let (link, sent) = send_event_total fs e (r.links n.socketfd) in
      (link, sent ∙ ap (λ d. some (d, link)) (ap (outcome e) same ∙ code))

  -- The loop has done a node, given what it does on the others.
  module _ (n : ReplicaNode) (nodes : List ReplicaNode) (r : Replicas) (link : Link)
      (others : ℕ) where
    step_ok :
        outcome e (links n.socketfd) ≡ ok
        → send_event fs e (r.links n.socketfd) ≡ some (ok, link)
        → Notified e links
            (suc others)
            nodes
            (with_link n link r)
            (notify_nodes fs e nodes (with_link n link r))
        → Notified e links others (n ∷ nodes) r (notify_nodes fs e (n ∷ nodes) r)
    step_ok code sent rest = record {
      state = rest.state;
      returns =
          rw (code, reached, survivors) (notify_ok fs e n nodes r link _ _ _ sent rest.returns);
      counted = rw (code, survivors) (omega (arith, rest.counted));
      closed = rw (code, closed_after) rest.closed;
    }

    step_error :
        outcome e (links n.socketfd) ≡ error
        → send_event fs e (r.links n.socketfd) ≡ some (error, link)
        → Notified e links
            (suc others)
            nodes
            (with_link n link r)
            (notify_nodes fs e nodes (with_link n link r))
        → Notified e links others (n ∷ nodes) r (notify_nodes fs e (n ∷ nodes) r)
    step_error code sent rest = record {
      state = rest.state;
      returns =
          rw (code, reached, survivors) (notify_error fs e n nodes r link _ _ _ sent rest.returns);
      counted = rw (code, survivors) (omega (arith, rest.counted));
      closed = rw (code, closed_after) rest.closed;
    }

    step_closed :
        outcome e (links n.socketfd) ≡ socket_closed
        → send_event fs e (r.links n.socketfd) ≡ some (socket_closed, link)
        → Notified e links others nodes
            (drop_node n (with_link n link r))
            (notify_nodes fs e nodes (drop_node n (with_link n link r)))
        → Notified e links others (n ∷ nodes) r (notify_nodes fs e (n ∷ nodes) r)
    step_closed code sent rest = record {
      state = rest.state;
      returns =
          rw (code, reached, survivors) (notify_closed fs e n nodes r link sent ∙ rest.returns);
      counted = rw (code, survivors) rest.counted;
      closed = rw (code, closed_after) rest.closed;
    }

  notify_nodes_lem :
      (nodes : List ReplicaNode) (r : Replicas) (others : ℕ)
      → IsDistinct nodes
      → Agrees e links r nodes
      → r.replica_count ≡ (length nodes + others) % 2 ^ 32
      → Notified e links others nodes r (notify_nodes fs e nodes r)
  unfolding notify_nodes
  notify_nodes_lem [] r others d a c = record {
    state = r;
    returns = refl;
    counted = c;
    closed = refl;
  }
  notify_nodes_lem (n ∷ nodes) r others d a c = elim (code_cases (outcome e (links n.socketfd))) [
    | inl code ↦
        let (link, sent) = send_event-Agrees r n ok a.0 code in
        step_ok n nodes r link others code sent (
          notify_nodes_lem nodes (with_link n link r) (suc others) d.1
            (Agrees-update e links r n link nodes d.0 a.1) (omega (arith, c)))
    | inr (inl code) ↦
        let (link, sent) = send_event-Agrees r n socket_closed a.0 code in
        step_closed n nodes r link others code sent (
          notify_nodes_lem nodes (drop_node n (with_link n link r)) others d.1
            (Agrees-update e links r n link nodes d.0 a.1) (omega (arith, c)))
    | inr (inr code) ↦
        let (link, sent) = send_event-Agrees r n error a.0 code in
        step_error n nodes r link others code sent (
          notify_nodes_lem nodes (with_link n link r) (suc others) d.1
            (Agrees-update e links r n link nodes d.0 a.1) (omega (arith, c)))
  ]

Agrees-self :
    (e : ReplicaEvent) (r : Replicas) (nodes : List ReplicaNode) → Agrees e r.links r nodes
Agrees-self e r [] = tt
Agrees-self e r (n ∷ nodes) = (refl, Agrees-self e r nodes)

-- Notifying the replicas of a consistent list returns and keeps the list consistent. It counts the
-- nodes that take the packet of the event; the list keeps, in their order, exactly the nodes whose
-- connection is not found closed, and closes the descriptors of the others.
pub notify_replicas_lem :
    (fs : FileSystem) (e : ReplicaEvent) (r : Replicas)
    → IsValid r
    → (r' : Replicas) × (notify_replicas fs e r ≡ some (reached e r.links r.head, r'))
      × IsValid r'
      × (r'.head ≡ survivors e r.links r.head)
      × (r'.closed ≡ closed_after e r.links r.head r.closed)
unfolding notify_replicas
notify_replicas_lem fs e r v =
    let done =
      notify_nodes_lem fs e r.links r.head r 0 v.distinct (Agrees-self e r r.head)
        (omega (arith, v.counted)) in
    (
      record done.state { head = survivors e r.links r.head },
      rw (done.returns, notify_replicas),
      record {
        distinct = survivors-IsDistinct e r.links r.head v.distinct;
        counted = omega (arith, done.counted);
      },
      refl,
      done.closed,
    )
