-- ===== src/Roles/Upload.antt =====
-- An upload is replicated: `send_event` of src/server/replica.c at the manager, and a turn of
-- `connect_to_server_thread` of src/server/serverRoles.c at a backup.
use inf01151_trabalho_final.Base.{
  ℕ, ◌^◌, ◌<◌, ◌≡◌, refl, ap, sym, ◌∙◌, true, Option, some, none, List, [], ◌++◌, append_assoc,
  Bytes, length, drop, drop-append, get_elem?, Lacks, c_string,
}
use inf01151_trabalho_final.Text.{ℤ, pos}
use inf01151_trabalho_final.Address.{SockaddrIn, af_inet}
use inf01151_trabalho_final.Address.Laws.{IsAddress}
use inf01151_trabalho_final.Files.{FileSystem, content_of, create_filepath}
use inf01151_trabalho_final.Packet.Socket.{Event, Link}
use inf01151_trabalho_final.Packet.Stream.{arriving, IsStream}
use inf01151_trabalho_final.Packet.Framing.{packet_of}
use inf01151_trabalho_final.Packet.{
  Packet, packet, read_packet, packet_replica_msg, image, SendCode, ok,
}
use inf01151_trabalho_final.Transfer.{done, send_file}
use inf01151_trabalho_final.Transfer.Sending.{
  open_link, Fits, transfer_of, send_file_lem, send_new_lem,
}
use inf01151_trabalho_final.ContextTable.{found, search}
use inf01151_trabalho_final.Events.{
  ReplicaEvent, create_file_upload_event, serialize_replica_event, deserialize_replica_event,
}
use inf01151_trabalho_final.Events.RoundTrip.{IsName}
use inf01151_trabalho_final.Events.Delivery.{event_delivered}
use inf01151_trabalho_final.Replicas.{send_event, get_user_folder}
use inf01151_trabalho_final.Sessions.{Session, UserContext, session_by_address}
use inf01151_trabalho_final.Sessions.Users.{reused}
use inf01151_trabalho_final.Server.{Server, handle_incoming_file}
use inf01151_trabalho_final.Server.Incoming.{IsServing, Uploaded, upload_lem}
use inf01151_trabalho_final.Roles.{
  Moment, Backup, with_server, file_replicated, handle_replica_event, backup_turn,
}

-- The text of the event of an upload.
abbrev pub upload_text : Bytes → SockaddrIn → Bytes → Bytes
upload_text username device filename =
    serialize_replica_event (create_file_upload_event username device filename)

-- What a manager sends of an upload: the event, and the file.
abbrev pub upload_bytes : Bytes → SockaddrIn → Bytes → Bytes → Bytes
upload_bytes username device filename content =
    image (packet_of packet_replica_msg (upload_text username device filename))
    ++ transfer_of filename content

pub send_event-upload :
    (username filename path content out : Bytes) (device : SockaddrIn) (fs : FileSystem)
    → length (upload_text username device filename) < 2 ^ 16
    → create_filepath (get_user_folder username) filename ≡ some path
    → content_of fs path ≡ some content
    → Fits filename content
    → send_event fs (create_file_upload_event username device filename) (open_link out)
      ≡ some (ok, open_link (out ++ upload_bytes username device filename content))
unfolding send_event create_file_upload_event
send_event-upload username filename path content out device fs fits hp hc size =
    let text = upload_text username device filename in
    let first = image (packet_of packet_replica_msg text) in
    ap
      (λ (r : SendCode × Link).
        elim (send_file r.1 filename (get_user_folder username) fs)
          as (λ x. Option (SendCode × Link)) [ none ↦ none | some link ↦ some (r.0, link) ])
      (send_new_lem out packet_replica_msg text fits)
    ∙ ap
        (λ (o : Option Link). elim o as (λ x. Option (SendCode × Link)) [
          | none ↦ none
          | some link ↦ some (ok, link)
        ])
        (send_file_lem filename (get_user_folder username) path content (out ++ first) fs hp hc
          size)
    ∙ ap (λ t. some (ok, open_link t)) (append_assoc out first (transfer_of filename content))

module _ (c i : ℕ) (session : Session) (context : UserContext) (username : Bytes)
    (address : SockaddrIn) where
  pub file_replicated_step :
      (events left : List Event) (srv srv' : Server)
      → search srv.contexts.table username ≡ found c
      → get_elem? srv.contexts.heap c ≡ some context
      → session_by_address context.sessions address 0 ≡ some (i, session)
      → handle_incoming_file c i (get_user_folder username) events srv ≡ done (true, srv', left)
      → file_replicated username address events srv ≡ done (srv', left)
  unfolding file_replicated
  file_replicated_step events left srv srv' known at sat handled =
      rw (reused username srv.contexts c known, file_replicated) (rw at (rw sat (rw handled refl)))

event_step :
    (id : ℤ) (e : ReplicaEvent) (username : Bytes) (m : Moment) (events left : List Event)
    (b : Backup) (srv : Server)
    → e.type ≡ pos 2
    → e.username ≡ some username
    → file_replicated username e.device_address events b.server ≡ done (srv, left)
    → handle_replica_event id e m events b ≡ done (with_server b srv, left)
unfolding handle_replica_event
event_step id e username m events left b srv type name handled =
    rw (type, handle_replica_event) (rw name (rw handled refl))

pub turn_step :
    (id : ℤ) (p : Packet) (m : Moment) (events left : List Event) (b b' : Backup)
    → (read_packet events).0 ≡ packet p
    → p.type ≡ 6
    → handle_replica_event id
        (deserialize_replica_event (c_string p.body))
        m
        (read_packet events).1
        b
      ≡ done (b', left)
    → backup_turn id m events b ≡ done (b', left)
unfolding backup_turn
turn_step id p m events left b b' read type handled = rw (read, backup_turn) (rw type handled)

-- What a call of `send_event` added to a connection.
abbrev pub sent_after : Bytes → Option (SendCode × Link) → Bytes
sent_after out none = []
sent_after out (some (code, link)) = drop (length out) link.out

-- An upload that the manager replicates with `send_event` is, after a backup's turn on the connection,
-- on the backup's disk under the user's folder with the same content, and in its list with the
-- checksum of that content, if the backup has a session of the event's address. The turn returns,
-- and leaves what follows on the stream, however the stream is cut into reads.
pub replicated_upload :
    (id : ℤ) (c i : ℕ) (session : Session) (context : UserContext)
    (username filename path content out bytes after : Bytes) (device : SockaddrIn)
    (from : FileSystem) (m : Moment) (events : List Event) (b : Backup)
    → IsAddress device
    → IsName username × IsName filename × Lacks 0 username × Lacks 0 filename
    → length (upload_text username device filename) < 2 ^ 16
    → Fits filename content
    → create_filepath (get_user_folder username) filename ≡ some path
    → content_of from path ≡ some content
    → send_event from (create_file_upload_event username device filename) (open_link out)
      ≡ some (ok, open_link (out ++ bytes))
    → b.server.fs.writable path ≡ true
    → IsServing c i session context b.server
    → context.username ≡ username
    → session_by_address context.sessions (record device { sin_family = af_inet }) 0
      ≡ some (i, session)
    → IsStream events
    → arriving events ≡ bytes ++ after
    → (u : Uploaded c session.session_index filename path content after context b.server
        (handle_incoming_file c i (get_user_folder username) (read_packet events).1 b.server))
      × (backup_turn id m events b ≡ done (with_server b u.state, u.left))
unfolding create_file_upload_event
replicated_upload id c i session context username filename path content out bytes after device from
      m events b ha (hu, hf, zu, zf) fits size hp hc sends hw serving named found_session s
      arrives =
    let e = create_file_upload_event username device filename in
    let same : bytes ≡ upload_bytes username device filename content =
      sym (drop-append out bytes)
      ∙ ap (sent_after out) (
          sym sends
          ∙ send_event-upload username filename path content out device from fits hp hc size)
      ∙ drop-append out (upload_bytes username device filename content) in
    let first = image (packet_of packet_replica_msg (upload_text username device filename)) in
    let (p, read, type, rest, event, stream) =
      event_delivered e (transfer_of filename content ++ after) events
        (record { address = ha; names = (hu, hf) }) (zu, zf) fits s
        (arrives
          ∙ ap (λ t. t ++ after) same
          ∙ append_assoc first (transfer_of filename content) after) in
    let u =
      upload_lem c i session context filename (get_user_folder username) path content []
        (transfer_of filename content) (get_user_folder username) path after from
        (read_packet events).1 b.server serving hp hc size zf hp hw
        (send_file_lem filename (get_user_folder username) path content [] from hp hc size) stream
        rest in
    (
      u,
      turn_step id p m events u.left b (with_server b u.state) read type (
          ap (λ d. handle_replica_event id d m (read_packet events).1 b) event
          ∙ event_step id _ username m (read_packet events).1 u.left b u.state refl refl (
              file_replicated_step c i session context username
                (record device { sin_family = af_inet }) (read_packet events).1 u.left b.server
                u.state (ap (search b.server.contexts.table) (sym named) ∙ serving.known)
                serving.context_there found_session u.returns)),
    )
