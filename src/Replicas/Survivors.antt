-- ===== src/Replicas/Survivors.antt =====
-- The replicas that take an event, and those that stay in the list: `send_event` of
-- src/server/replica.c.
use inf01151_trabalho_final.Base.{
  ℕ, suc, ◌≡◌, refl, inl, inr, false, some, List, [], ◌∷◌, arith, Bool-cases,
}
use inf01151_trabalho_final.Files.{FileSystem}
use inf01151_trabalho_final.Packet.Socket.{Link}
use inf01151_trabalho_final.Packet.{SendCode, ok, socket_closed, packet_replica_msg, packet_delete}
use inf01151_trabalho_final.Transfer.{send_new}
use inf01151_trabalho_final.Transfer.Total.{send_file_total}
use inf01151_trabalho_final.Events.{
  ReplicaEvent, serialize_replica_event, or_empty, event_file_uploaded, event_file_deleted,
}
use inf01151_trabalho_final.Replicas.{ReplicaNode, find_node, send_event, get_user_folder, is_type}
use inf01151_trabalho_final.Replicas.Invariant.{IsDistinct}

-- The code of the event's own packet on a connection.
abbrev pub outcome : ReplicaEvent → Link → SendCode
outcome e link = (send_new link packet_replica_msg (serialize_replica_event e)).0

-- `send_event` returns, with that code.
pub send_event_total :
    (fs : FileSystem) (e : ReplicaEvent) (link : Link)
    → (link' : Link) × (send_event fs e link ≡ some (outcome e link, link'))
unfolding send_event
send_event_total fs e link =
    let link' = (send_new link packet_replica_msg (serialize_replica_event e)).1 in
    elim (Bool-cases (is_type e.type event_file_uploaded)) [
      | inl up ↦
          let (link'', sent) =
            send_file_total link' (or_empty e.filepath) (get_user_folder (or_empty e.username))
              fs in
          (link'', rw (up, send_event) (rw sent))
      | inr other ↦ elim (Bool-cases (is_type e.type event_file_deleted)) [
        | inl deleted ↦ (
          (send_new link' packet_delete (or_empty e.filepath)).1,
          rw (other, send_event) (rw deleted),
        )
        | inr plain ↦ (link', rw (other, send_event) (rw plain))
      ]
    ]

module _ (e : ReplicaEvent) (links : ℕ → Link) where
  -- The number of nodes that take the event.
  abbrev pub reached : List ReplicaNode → ℕ
  reached [] = 0
  reached (n ∷ nodes) = elim (outcome e (links n.socketfd)) [
    | ok ↦ suc (reached nodes)
    | _ ↦ reached nodes
  ]

  -- The nodes whose connection is not found closed.
  abbrev pub survivors : List ReplicaNode → List ReplicaNode
  survivors [] = []
  survivors (n ∷ nodes) = elim (outcome e (links n.socketfd)) [
    | socket_closed ↦ survivors nodes
    | _ ↦ n ∷ survivors nodes
  ]

  -- The descriptors closed, after the descriptors of the others.
  abbrev pub closed_after : List ReplicaNode → List ℕ → List ℕ
  closed_after [] closed = closed
  closed_after (n ∷ nodes) closed = elim (outcome e (links n.socketfd)) [
    | socket_closed ↦ closed_after nodes (n.socketfd ∷ closed)
    | _ ↦ closed_after nodes closed
  ]

  find_node-survivors :
      (nodes : List ReplicaNode) (socketfd : ℕ)
      → find_node nodes socketfd ≡ false
      → find_node (survivors nodes) socketfd ≡ false
  unfolding find_node
  find_node-survivors [] socketfd h = refl
  find_node-survivors (n ∷ nodes) socketfd h = ground (arith, find_node-survivors nodes socketfd)

  pub survivors-IsDistinct :
      (nodes : List ReplicaNode) → IsDistinct nodes → IsDistinct (survivors nodes)
  survivors-IsDistinct [] h = tt
  survivors-IsDistinct (n ∷ nodes) h =
      ground (arith, survivors-IsDistinct nodes h.1, find_node-survivors nodes n.socketfd h.0)
