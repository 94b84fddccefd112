-- ===== src/Roles/Joining.antt =====
-- A backup joins: what `connect_to_server_thread` sends first and what `replica_listener_thread` of the
-- manager makes of it, both of src/server/serverRoles.c.
use inf01151_trabalho_final.Base.{
  ℕ, ◌^◌, ◌<◌, ◌≡◌, refl, ap, sym, ◌∙◌, true, false, some, List, [], ◌∷◌, ◌++◌, append-nil, arith,
  Bytes, length, Lacks, All-append, c_string,
}
use inf01151_trabalho_final.Text.{ℤ, print_int, scan_pair}
use inf01151_trabalho_final.Text.Decimal.{scan_pair-print}
use inf01151_trabalho_final.Address.{SockaddrIn}
use inf01151_trabalho_final.Files.{FileSystem}
use inf01151_trabalho_final.Packet.Socket.{Event, Link}
use inf01151_trabalho_final.Packet.Stream.{arriving, IsStream}
use inf01151_trabalho_final.Packet.Framing.{packet_of, create_packet_lem, read_packet-text}
use inf01151_trabalho_final.Packet.{Packet, packet, read_packet, packet_replica_msg, image}
use inf01151_trabalho_final.Transfer.{done, ◌>>=◌}
use inf01151_trabalho_final.Events.{create_replica_added_event}
use inf01151_trabalho_final.Events.Delivery.{print_int-Lacks-zero}
use inf01151_trabalho_final.Replicas.{
  ReplicaNode, Replicas, find_node, add_replica, increment, notify_replicas, send_replicas_data,
  update,
}
use inf01151_trabalho_final.Replicas.Invariant.{IsValid}
use inf01151_trabalho_final.Replicas.Survivors.{send_event_total, survivors}
use inf01151_trabalho_final.Replicas.Notify.{notify_replicas_lem}
use inf01151_trabalho_final.Sessions.{or_crash}
use inf01151_trabalho_final.Server.{Server, tell_replicas, with_replicas}
use inf01151_trabalho_final.Roles.{
  introduction, ids_of, accept_replica, welcome_replica, announce_replica,
}

pub send_replicas_data_total :
    (fs : FileSystem) (nodes : List ReplicaNode) (link : Link)
    → (link' : Link) × (send_replicas_data fs nodes link ≡ some link')
unfolding send_replicas_data
send_replicas_data_total fs [] link = (link, refl)
send_replicas_data_total fs (n ∷ nodes) link =
    let (next, sent) =
      send_event_total fs (create_replica_added_event n.id n.listener_port n.device_address) link in
    let (link', rest) = send_replicas_data_total fs nodes next in
    (link', rw (sent, send_replicas_data) rest)

pub ids_of-introduction :
    (id listener_port : ℤ) (unset : ℤ × ℤ)
    → ids_of (introduction id listener_port) unset ≡ (id, listener_port)
unfolding ids_of introduction
ids_of-introduction id listener_port unset = rw (
  ap (λ t. scan_pair (print_int id ++ b':' ∷ t)) (sym (append-nil (print_int listener_port)))
      ∙ scan_pair-print id listener_port [] tt,
  ids_of,
)

introduction-Lacks-zero : (id listener_port : ℤ) → Lacks 0 (introduction id listener_port)
unfolding introduction
introduction-Lacks-zero id listener_port =
    All-append _ (print_int id) _ (print_int-Lacks-zero id)
      (omega arith, print_int-Lacks-zero listener_port)

module _ (newsockfd : ℕ) (id listener_port : ℤ) (address : SockaddrIn) (srv : Server) where
  abbrev pub new_node : ReplicaNode
  new_node = record {
    id = id;
    socketfd = newsockfd;
    listener_port = listener_port;
    device_address = address;
  }

  -- The list with the new node, before the others are told.
  abbrev with_node : Replicas
  with_node = record srv.replicas {
    head = new_node ∷ srv.replicas.head;
    replica_count = increment srv.replicas.replica_count;
  }

  with_node-IsValid :
      IsValid srv.replicas → find_node srv.replicas.head newsockfd ≡ false → IsValid with_node
  with_node-IsValid v new = record {
    distinct = (new, v.distinct);
    counted = omega (arith, v.counted);
  }

  node_added :
      find_node srv.replicas.head newsockfd ≡ false
      → add_replica newsockfd id listener_port address true srv.replicas ≡ (true, with_node)
  unfolding add_replica
  node_added new = rw (new, add_replica) refl

  told :
      (e_notified : ℕ) (replicas : Replicas)
      → notify_replicas srv.fs (create_replica_added_event id listener_port address) with_node
        ≡ some (e_notified, replicas)
      → tell_replicas
          (create_replica_added_event id listener_port address)
          (with_replicas with_node srv)
        ≡ done (with_replicas replicas srv)
  unfolding tell_replicas
  told e_notified replicas e = rw (e, tell_replicas)

  -- The two parts of the handler, once the payload is parsed.
  accepted :
      (payload : Bytes) (unset : ℤ × ℤ) (replicas : Replicas) (link : Link)
      → ids_of payload unset ≡ (id, listener_port)
      → find_node srv.replicas.head newsockfd ≡ false
      → tell_replicas
          (create_replica_added_event id listener_port address)
          (with_replicas with_node srv)
        ≡ done (with_replicas replicas srv)
      → send_replicas_data srv.fs replicas.head (replicas.links newsockfd) ≡ some link
      → accept_replica newsockfd address payload unset true srv
        ≡ done
            (with_replicas (record replicas { links = update replicas.links newsockfd link }) srv)
  unfolding accept_replica welcome_replica announce_replica
  accepted payload unset replicas link ids new tell sent =
      ap (λ t. welcome_replica newsockfd address t true srv) ids
      ∙ ap (λ r. announce_replica newsockfd id listener_port address r srv) (node_added new)
      ∙ rw tell (rw (sent, ◌>>=◌, or_crash))

-- A backup that introduces itself on a connection that is not listed joins: however the stream is cut
-- into reads, the manager reads its identifier and port, and the handler returns. Of the new node and
-- the nodes of before, in this order, the list then has those whose connection the notification of
-- the new node does not find closed, and it stays consistent.
pub joining_lem :
    (newsockfd : ℕ) (id listener_port : ℤ) (address : SockaddrIn) (unset : ℤ × ℤ) (after : Bytes)
    (events : List Event) (srv : Server)
    → length (introduction id listener_port) < 2 ^ 16
    → IsStream events
    → arriving events
      ≡ image (packet_of packet_replica_msg (introduction id listener_port)) ++ after
    → IsValid srv.replicas
    → find_node srv.replicas.head newsockfd ≡ false
    → (p : Packet) × (srv' : Server) × ((read_packet events).0 ≡ packet p)
      × (accept_replica newsockfd address (c_string p.body) unset true srv ≡ done srv')
      × IsValid srv'.replicas
      × (srv'.replicas.head
          ≡ survivors (create_replica_added_event id listener_port address) srv.replicas.links (
              record {
                id = id;
                socketfd = newsockfd;
                listener_port = listener_port;
                device_address = address;
              }
              ∷ srv.replicas.head))
joining_lem newsockfd id listener_port address unset after events srv fits s arrives v new =
    let text = introduction id listener_port in
    let (read, _, _, _, string, _) =
      read_packet-text packet_replica_msg text after events fits
        (introduction-Lacks-zero id listener_port) (create_packet_lem packet_replica_msg text fits)
        s arrives in
    let (replicas, notified, valid, kept, _) =
      notify_replicas_lem srv.fs (create_replica_added_event id listener_port address)
        (with_node newsockfd id listener_port address srv)
        (with_node-IsValid newsockfd id listener_port address srv v new) in
    let (link, sent) = send_replicas_data_total srv.fs replicas.head (replicas.links newsockfd) in
    (
      packet_of packet_replica_msg text,
      with_replicas (record replicas { links = update replicas.links newsockfd link }) srv,
      read,
      accepted newsockfd id listener_port address srv
          (c_string (packet_of packet_replica_msg text).body) unset replicas link
          (ap (λ t. ids_of t unset) string ∙ ids_of-introduction id listener_port unset) new
          (told newsockfd id listener_port address srv _ replicas notified) sent,
      record { distinct = valid.distinct; counted = valid.counted },
      kept,
    )
