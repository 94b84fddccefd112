-- ===== src/Roles/Connection.antt =====
-- A client's connection is replicated: `send_event` of src/server/replica.c at the manager, and a turn
-- of `connect_to_server_thread` of src/server/serverRoles.c at a backup.
use inf01151_trabalho_final.Base.{
  ◌^◌, ◌<◌, ◌≡◌, ◌≢◌, refl, ap, sym, ◌∙◌, some, List, ◌++◌, Bytes, length, drop-append, Lacks,
}
use inf01151_trabalho_final.Text.{ℤ, pos}
use inf01151_trabalho_final.Address.{SockaddrIn, af_inet}
use inf01151_trabalho_final.Address.Laws.{IsAddress}
use inf01151_trabalho_final.Files.{FileSystem}
use inf01151_trabalho_final.Packet.Socket.{Event, Link}
use inf01151_trabalho_final.Packet.Stream.{arriving, IsStream}
use inf01151_trabalho_final.Packet.Framing.{packet_of}
use inf01151_trabalho_final.Packet.{read_packet, packet_replica_msg, image, SendCode, ok}
use inf01151_trabalho_final.Transfer.{done}
use inf01151_trabalho_final.Transfer.Sending.{open_link, send_new_lem}
use inf01151_trabalho_final.ContextTable.{fault, search}
use inf01151_trabalho_final.Events.{
  ReplicaEvent, create_client_connected_event, serialize_replica_event,
}
use inf01151_trabalho_final.Events.RoundTrip.{IsName}
use inf01151_trabalho_final.Events.Delivery.{event_delivered}
use inf01151_trabalho_final.Replicas.{send_event}
use inf01151_trabalho_final.Replicas.Invariant as ReplicaList
use inf01151_trabalho_final.Sessions.Users.{IsConsistent}
use inf01151_trabalho_final.Server.{Server, initialize_user_session}
use inf01151_trabalho_final.Server.Connect.{Connected, initialize_user_session_lem}
use inf01151_trabalho_final.Roles.Upload.{turn_step, sent_after}
use inf01151_trabalho_final.Roles.{
  Moment, Backup, no_sockets, with_server, handle_replica_event, backup_turn,
}

-- The text of the event of a connection, and its packet.
abbrev pub connection_text : Bytes → SockaddrIn → Bytes
connection_text username device =
    serialize_replica_event (create_client_connected_event username device)

abbrev pub connection_bytes : Bytes → SockaddrIn → Bytes
connection_bytes username device =
    image (packet_of packet_replica_msg (connection_text username device))

pub send_event-connection :
    (username out : Bytes) (device : SockaddrIn) (fs : FileSystem)
    → length (connection_text username device) < 2 ^ 16
    → send_event fs (create_client_connected_event username device) (open_link out)
      ≡ some (ok, open_link (out ++ connection_bytes username device))
unfolding send_event create_client_connected_event
send_event-connection username out device fs fits =
    ap (λ (r : SendCode × Link). some r)
      (send_new_lem out packet_replica_msg (connection_text username device) fits)

connection_step :
    (id : ℤ) (e : ReplicaEvent) (username : Bytes) (m : Moment) (left : List Event) (b : Backup)
    (srv : Server)
    → e.type ≡ pos 0
    → e.username ≡ some username
    → initialize_user_session e.device_address no_sockets username m.memory b.server ≡ done srv
    → handle_replica_event id e m left b ≡ done (with_server b srv, left)
unfolding handle_replica_event
connection_step id e username m left b srv type name handled =
    rw (type, handle_replica_event) (rw name (rw handled refl))

-- A client's connection that the manager replicates with `send_event` gives, after a backup's turn on
-- the connection, the user's context at the backup a session of the client's address and without
-- sockets in its first free slot, or leaves it if no slot is free, as `Connected` says. The turn
-- returns, and leaves what follows on the stream, however the stream is cut into reads. The search
-- for the user does not fault, and the backup's contexts and list of replicas are consistent.
pub replicated_connection :
    (id : ℤ) (username out bytes after : Bytes) (device : SockaddrIn) (from : FileSystem)
    (m : Moment) (events : List Event) (b : Backup)
    → IsAddress device
    → IsName username
    → Lacks 0 username
    → length (connection_text username device) < 2 ^ 16
    → send_event from (create_client_connected_event username device) (open_link out)
      ≡ some (ok, open_link (out ++ bytes))
    → IsConsistent b.server.contexts
    → search b.server.contexts.table username ≢ fault
    → ReplicaList.IsValid b.server.replicas
    → IsStream events
    → arriving events ≡ bytes ++ after
    → (u : Connected
        (record device { sin_family = af_inet })
        no_sockets
        username
        m.memory
        b.server
        (initialize_user_session
          (record device { sin_family = af_inet })
          no_sockets
          username
          m.memory
          b.server))
      × (backup_turn id m events b ≡ done (with_server b u.state, (read_packet events).1))
      × (arriving (read_packet events).1 ≡ after)
unfolding create_client_connected_event
replicated_connection id username out bytes after device from m events b ha hu zu fits sends
      consistent sane v s arrives =
    let e = create_client_connected_event username device in
    let same : bytes ≡ connection_bytes username device =
      sym (drop-append out bytes)
      ∙ ap (sent_after out) (sym sends ∙ send_event-connection username out device from fits)
      ∙ drop-append out (connection_bytes username device) in
    let (p, read, type, rest, event, stream) =
      event_delivered e after events (record { address = ha; names = hu }) (zu, tt) fits s
        (arrives ∙ ap (λ t. t ++ after) same) in
    let u =
      initialize_user_session_lem (record device { sin_family = af_inet }) no_sockets username
        m.memory b.server consistent sane v in
    (
      u,
      turn_step id p m events (read_packet events).1 b (with_server b u.state) read type (
          ap (λ d. handle_replica_event id d m (read_packet events).1 b) event
          ∙ connection_step id _ username m (read_packet events).1 b u.state refl refl u.returns),
      rest,
    )
