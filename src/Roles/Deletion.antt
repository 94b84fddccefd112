-- ===== src/Roles/Deletion.antt =====
-- A deletion is replicated: `send_event` of src/server/replica.c at the manager, and a turn of
-- `connect_to_server_thread` of src/server/serverRoles.c at a backup.
use inf01151_trabalho_final.Base.{
  ℕ, ◌^◌, ◌<◌, ◌≡◌, refl, ap, sym, ◌∙◌, some, List, ◌++◌, append_assoc, Bytes, length, drop-append,
  Lacks,
}
use inf01151_trabalho_final.Text.{ℤ, pos}
use inf01151_trabalho_final.Address.{SockaddrIn, af_inet}
use inf01151_trabalho_final.Address.Laws.{IsAddress}
use inf01151_trabalho_final.Files.{FileSystem, create_filepath}
use inf01151_trabalho_final.Packet.Socket.{Event, Link}
use inf01151_trabalho_final.Packet.Stream.{arriving, IsStream}
use inf01151_trabalho_final.Packet.Framing.{packet_of}
use inf01151_trabalho_final.Packet.{
  read_packet, packet_replica_msg, packet_delete, image, SendCode, ok,
}
use inf01151_trabalho_final.Transfer.{done, send_new}
use inf01151_trabalho_final.Transfer.Sending.{open_link, send_new_lem}
use inf01151_trabalho_final.Transfer.Deleting.{deletion_of}
use inf01151_trabalho_final.ContextTable.{search}
use inf01151_trabalho_final.Events.{ReplicaEvent, create_file_delete_event, serialize_replica_event}
use inf01151_trabalho_final.Events.RoundTrip.{IsName}
use inf01151_trabalho_final.Events.Delivery.{event_delivered}
use inf01151_trabalho_final.Replicas.{send_event, get_user_folder}
use inf01151_trabalho_final.Sessions.{Session, UserContext, session_by_address}
use inf01151_trabalho_final.Server.{Server, handle_incoming_file}
use inf01151_trabalho_final.Server.Incoming.{IsServing}
use inf01151_trabalho_final.Server.Removing.{Erased, deletion_lem}
use inf01151_trabalho_final.Roles.Upload.{file_replicated_step, turn_step, sent_after}
use inf01151_trabalho_final.Roles.{
  Moment, Backup, with_server, file_replicated, handle_replica_event, backup_turn,
}

-- The text of the event of a deletion.
abbrev pub delete_text : Bytes → SockaddrIn → Bytes → Bytes
delete_text username device filename =
    serialize_replica_event (create_file_delete_event username device filename)

-- What a manager sends of a deletion: the event, and the file's name again.
abbrev pub delete_bytes : Bytes → SockaddrIn → Bytes → Bytes
delete_bytes username device filename =
    image (packet_of packet_replica_msg (delete_text username device filename))
    ++ deletion_of filename

pub send_event-delete :
    (username filename out : Bytes) (device : SockaddrIn) (fs : FileSystem)
    → length (delete_text username device filename) < 2 ^ 16
    → length filename < 2 ^ 16
    → send_event fs (create_file_delete_event username device filename) (open_link out)
      ≡ some (ok, open_link (out ++ delete_bytes username device filename))
unfolding send_event create_file_delete_event
send_event-delete username filename out device fs fits size =
    let text = delete_text username device filename in
    let first = image (packet_of packet_replica_msg text) in
    ap (λ (r : SendCode × Link). some (r.0, (send_new r.1 packet_delete filename).1))
      (send_new_lem out packet_replica_msg text fits)
    ∙ ap (λ (r : SendCode × Link). some (ok, r.1))
        (send_new_lem (out ++ first) packet_delete filename size)
    ∙ ap (λ t. some (ok, open_link t)) (append_assoc out first (deletion_of filename))

deletion_step :
    (id : ℤ) (e : ReplicaEvent) (username : Bytes) (m : Moment) (events left : List Event)
    (b : Backup) (srv : Server)
    → e.type ≡ pos 5
    → e.username ≡ some username
    → file_replicated username e.device_address events b.server ≡ done (srv, left)
    → handle_replica_event id e m events b ≡ done (with_server b srv, left)
unfolding handle_replica_event
deletion_step id e username m events left b srv type name handled =
    rw (type, handle_replica_event) (rw name (rw handled refl))

-- A deletion that the manager replicates with `send_event` has, after a backup's turn on the
-- connection, taken the file off the backup's disk and its name out of the user's list there, if the
-- backup has a session of the event's address; all other files and names stay. The turn returns,
-- and leaves what follows on the stream, however the stream is cut into reads.
pub replicated_deletion :
    (id : ℤ) (c i : ℕ) (session : Session) (context : UserContext)
    (username filename path out bytes after : Bytes) (device : SockaddrIn) (from : FileSystem)
    (m : Moment) (events : List Event) (b : Backup)
    → IsAddress device
    → IsName username × IsName filename × Lacks 0 username × Lacks 0 filename
    → length (delete_text username device filename) < 2 ^ 16
    → length filename < 2 ^ 16
    → create_filepath (get_user_folder username) filename ≡ some path
    → send_event from (create_file_delete_event username device filename) (open_link out)
      ≡ some (ok, open_link (out ++ bytes))
    → IsServing c i session context b.server
    → context.username ≡ username
    → session_by_address context.sessions (record device { sin_family = af_inet }) 0
      ≡ some (i, session)
    → IsStream events
    → arriving events ≡ bytes ++ after
    → (u : Erased c session.session_index filename path after context b.server
        (handle_incoming_file c i (get_user_folder username) (read_packet events).1 b.server))
      × (backup_turn id m events b ≡ done (with_server b u.state, u.left))
unfolding create_file_delete_event
replicated_deletion id c i session context username filename path out bytes after device from m
      events b ha (hu, hf, zu, zf) fits size hp sends serving named found_session s arrives =
    let e = create_file_delete_event username device filename in
    let same : bytes ≡ delete_bytes username device filename =
      sym (drop-append out bytes)
      ∙ ap (sent_after out)
          (sym sends ∙ send_event-delete username filename out device from fits size)
      ∙ drop-append out (delete_bytes username device filename) in
    let first = image (packet_of packet_replica_msg (delete_text username device filename)) in
    let (p, read, type, rest, event, stream) =
      event_delivered e (deletion_of filename ++ after) events
        (record { address = ha; names = (hu, hf) }) (zu, zf) fits s
        (arrives ∙ ap (λ t. t ++ after) same ∙ append_assoc first (deletion_of filename) after) in
    let u =
      deletion_lem c i session context filename (get_user_folder username) path after
        (read_packet events).1 b.server serving zf size hp stream rest in
    (
      u,
      turn_step id p m events u.left b (with_server b u.state) read type (
          ap (λ d. handle_replica_event id d m (read_packet events).1 b) event
          ∙ deletion_step id _ username m (read_packet events).1 u.left b u.state refl refl (
              file_replicated_step c i session context username
                (record device { sin_family = af_inet }) (read_packet events).1 u.left b.server
                u.state (ap (search b.server.contexts.table) (sym named) ∙ serving.known)
                serving.context_there found_session u.returns)),
    )
