-- ===== src/Roles/Ending.antt =====
-- The end of a session is replicated: `send_event` of src/server/replica.c at the manager, and a turn
-- of `connect_to_server_thread` of src/server/serverRoles.c at a backup.
use inf01151_trabalho_final.Base.{
  ℕ, ◌^◌, ◌<◌, ◌≡◌, ◌≢◌, refl, ap, sym, ◌∙◌, some, none, List, ◌++◌, Bytes, length, drop-append,
  Lacks, get_elem?, set, get_elem?-set_ne,
}
use inf01151_trabalho_final.Text.{ℤ, pos}
use inf01151_trabalho_final.Address.{SockaddrIn, af_inet}
use inf01151_trabalho_final.Address.Laws.{IsAddress}
use inf01151_trabalho_final.Files.{FileSystem}
use inf01151_trabalho_final.Packet.Socket.{Event, Link}
use inf01151_trabalho_final.Packet.Stream.{arriving, IsStream}
use inf01151_trabalho_final.Packet.Framing.{packet_of}
use inf01151_trabalho_final.Packet.{read_packet, packet_replica_msg, image, SendCode, ok}
use inf01151_trabalho_final.Transfer.{Io, done}
use inf01151_trabalho_final.Transfer.Sending.{open_link, send_new_lem}
use inf01151_trabalho_final.ContextTable.{found, search}
use inf01151_trabalho_final.Events.{
  ReplicaEvent, create_client_disconnected_event, serialize_replica_event,
}
use inf01151_trabalho_final.Events.RoundTrip.{IsName}
use inf01151_trabalho_final.Events.Delivery.{event_delivered}
use inf01151_trabalho_final.Replicas.{send_event}
use inf01151_trabalho_final.Sessions.{Session, UserContext, slot, session_by_address}
use inf01151_trabalho_final.Sessions.Slots.{slot-set-none}
use inf01151_trabalho_final.Sessions.Users.{reused}
use inf01151_trabalho_final.Server.{Server, with_context}
use inf01151_trabalho_final.Server.Telling.{context_at-with}
use inf01151_trabalho_final.Roles.Upload.{turn_step, sent_after}
use inf01151_trabalho_final.Roles.{
  Moment, Backup, with_server, client_disconnected, handle_replica_event, backup_turn,
}

-- The text of the event of a session's end, and its packet.
abbrev pub ending_text : Bytes → SockaddrIn → Bytes
ending_text username device =
    serialize_replica_event (create_client_disconnected_event username device)

abbrev pub ending_bytes : Bytes → SockaddrIn → Bytes
ending_bytes username device = image (packet_of packet_replica_msg (ending_text username device))

pub send_event-ending :
    (username out : Bytes) (device : SockaddrIn) (fs : FileSystem)
    → length (ending_text username device) < 2 ^ 16
    → send_event fs (create_client_disconnected_event username device) (open_link out)
      ≡ some (ok, open_link (out ++ ending_bytes username device))
unfolding send_event create_client_disconnected_event
send_event-ending username out device fs fits =
    ap (λ (r : SendCode × Link). some r)
      (send_new_lem out packet_replica_msg (ending_text username device) fits)

-- What the end of the session at slot `i` makes of a server.
pub record Freed (c i : ℕ) (context : UserContext) (srv : Server) (result : Io Server)
    : Type 0 where
  pub state : Server
  pub context_after : UserContext
  pub returns : result ≡ done state
  pub holds : get_elem? state.contexts.heap c ≡ some context_after
  pub freed : slot context_after i ≡ none
  pub other_slots : (j : ℕ) → i ≢ j → slot context_after j ≡ slot context j
  pub same_files : context_after.file_list ≡ context.file_list
  pub other_users :
      (d : ℕ) → c ≢ d → get_elem? state.contexts.heap d ≡ get_elem? srv.contexts.heap d
  pub same_disk : state.fs ≡ srv.fs
  pub same_replicas : state.replicas ≡ srv.replicas

module _ (c i : ℕ) (session : Session) (context : UserContext) (username : Bytes)
    (address : SockaddrIn) (srv : Server) where
  abbrev gone : UserContext
  gone = record context { sessions = set context.sessions session.session_index none }

  disconnect_step :
      search srv.contexts.table username ≡ found c
      → get_elem? srv.contexts.heap c ≡ some context
      → session_by_address context.sessions address 0 ≡ some (i, session)
      → client_disconnected username address srv ≡ done (with_context c gone srv)
  unfolding client_disconnected
  disconnect_step known at sat =
      rw (reused username srv.contexts c known, client_disconnected) (rw at (rw sat refl))

  disconnect_lem :
      search srv.contexts.table username ≡ found c
      → get_elem? srv.contexts.heap c ≡ some context
      → session_by_address context.sessions address 0 ≡ some (i, session)
      → session.session_index ≡ i
      → Freed c i context srv (client_disconnected username address srv)
  disconnect_lem known at sat index = record {
    state = with_context c gone srv;
    context_after = gone;
    returns = disconnect_step known at sat;
    holds = context_at-with c context gone srv at;
    freed = rw (← index, slot) (slot-set-none context.sessions session.session_index);
    other_slots =
        λ j ne. rw (get_elem?-set_ne context.sessions none (λ e. ne (sym index ∙ e)), slot);
    same_files = refl;
    other_users = λ d ne. get_elem?-set_ne srv.contexts.heap gone ne;
    same_disk = refl;
    same_replicas = refl;
  }

ending_step :
    (id : ℤ) (e : ReplicaEvent) (username : Bytes) (m : Moment) (left : List Event) (b : Backup)
    (srv : Server)
    → e.type ≡ pos 1
    → e.username ≡ some username
    → client_disconnected username e.device_address b.server ≡ done srv
    → handle_replica_event id e m left b ≡ done (with_server b srv, left)
unfolding handle_replica_event
ending_step id e username m left b srv type name handled =
    rw (type, handle_replica_event) (rw name (rw handled refl))

-- The end of a session that the manager replicates with `send_event` frees, in a backup's turn on the
-- connection, the slot of the session of the client's address, if the user has one there at its own
-- slot; every other slot, the user's files, the other users, the disk and the list of replicas stay.
-- The turn returns, and leaves what follows on the stream, however the stream is cut into reads.
pub replicated_end :
    (id : ℤ) (c i : ℕ) (session : Session) (context : UserContext)
    (username out bytes after : Bytes) (device : SockaddrIn) (from : FileSystem) (m : Moment)
    (events : List Event) (b : Backup)
    → IsAddress device
    → IsName username
    → Lacks 0 username
    → length (ending_text username device) < 2 ^ 16
    → send_event from (create_client_disconnected_event username device) (open_link out)
      ≡ some (ok, open_link (out ++ bytes))
    → search b.server.contexts.table username ≡ found c
    → get_elem? b.server.contexts.heap c ≡ some context
    → session_by_address context.sessions (record device { sin_family = af_inet }) 0
      ≡ some (i, session)
    → session.session_index ≡ i
    → IsStream events
    → arriving events ≡ bytes ++ after
    → (u : Freed c i context b.server
        (client_disconnected username (record device { sin_family = af_inet }) b.server))
      × (backup_turn id m events b ≡ done (with_server b u.state, (read_packet events).1))
      × (arriving (read_packet events).1 ≡ after)
unfolding create_client_disconnected_event
replicated_end id c i session context username out bytes after device from m events b ha hu zu fits
      sends known at sat index s arrives =
    let e = create_client_disconnected_event username device in
    let same : bytes ≡ ending_bytes username device =
      sym (drop-append out bytes)
      ∙ ap (sent_after out) (sym sends ∙ send_event-ending username out device from fits)
      ∙ drop-append out (ending_bytes username device) in
    let (p, read, type, rest, event, stream) =
      event_delivered e after events (record { address = ha; names = hu }) (zu, tt) fits s
        (arrives ∙ ap (λ t. t ++ after) same) in
    let u =
      disconnect_lem c i session context username (record device { sin_family = af_inet }) b.server
        known at sat index in
    (
      u,
      turn_step id p m events (read_packet events).1 b (with_server b u.state) read type (
          ap (λ d. handle_replica_event id d m (read_packet events).1 b) event
          ∙ ending_step id _ username m (read_packet events).1 b u.state refl refl u.returns),
      rest,
    )
