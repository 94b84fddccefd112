-- ===== src/Server.antt =====
-- The requests that a server carries out for a session: src/server/server.c from
-- `send_file_event_to_replicas` on. A session is given by its context and the slot that holds it, and
-- one that is gone from its slot is freed memory.
pub mod Others
pub mod Telling
pub mod Upload
pub mod Handling
pub mod Incoming
pub mod Removing
pub mod Delete
pub mod Connect
mod Tests
use inf01151_trabalho_final.Base.{
  ℕ, zero, suc, ◌+◌, ◌-◌, Bool, true, false, Option, none, some, List, [], ◌∷◌, ◌++◌, Bytes, length,
  get_elem?, set, ◌==◌, if◌then◌else◌,
}
use inf01151_trabalho_final.Address.{SockaddrIn}
use inf01151_trabalho_final.Files.{FileSystem, create_filepath}
use inf01151_trabalho_final.Packet.Socket.{Event}
use inf01151_trabalho_final.Packet.{
  Packet, PacketTypes, packet_send, packet_delete, type_code, packet, null, waits, read_packet,
}
use inf01151_trabalho_final.Transfer.{Io, done, waiting, crash, ◌>>=◌, handle_send_delete}
use inf01151_trabalho_final.SyncBuffer.{
  FileEntry, FileEntryType, file_entry_send, file_entry_delete,
}
use inf01151_trabalho_final.Events.{
  ReplicaEvent, create_client_connected_event, create_file_upload_event, create_file_delete_event,
}
use inf01151_trabalho_final.Replicas.{Replicas, notify_replicas}
use inf01151_trabalho_final.FileList.{
  FileNode, set_crc, crc32, get_file_status, FileStatus, file_status_not_found, file_status_updated,
  file_status_exists,
}
use inf01151_trabalho_final.Sessions.{
  max_sessions, Session, SessionSockets, UserContext, Contexts, or_crash, slot,
  get_or_create_context, find_free_session_index, create_session, send_file_to_session,
  add_file_to_context, remove_file_from_context,
}

-- `manager` says whether global_server_mode is BACKUP_MANAGER.
pub record Server : Type 0 where
  pub manager : Bool
  pub contexts : Contexts
  pub replicas : Replicas
  pub fs : FileSystem

abbrev pub context_at : Server → ℕ → Io UserContext
context_at srv c = or_crash (get_elem? srv.contexts.heap c)

abbrev pub with_context : ℕ → UserContext → Server → Server
with_context c context srv = record srv {
  contexts = record srv.contexts { heap = set srv.contexts.heap c context };
}

abbrev pub with_replicas : Replicas → Server → Server
with_replicas replicas srv = record srv { replicas = replicas }

-- A notification returns; see Replicas/Notify.
unfoldable pub tell_replicas : ReplicaEvent → Server → Io Server
tell_replicas e srv = elim (notify_replicas srv.fs e srv.replicas) [
  | none ↦ waiting
  | some (notified, replicas) ↦ done (with_replicas replicas srv)
]

-- `if (atomic_load(&global_server_mode) == BACKUP_MANAGER)` a notification.
unfoldable pub tell_if : Bool → ReplicaEvent → Server → Io Server
tell_if false e srv = done srv
tell_if true e srv = tell_replicas e srv

-- The rest of `initialize_user_session_and_threads` once the context is there.
unfoldable pub open_session :
    ℕ → UserContext → SockaddrIn → SessionSockets → Bytes → List FileEntry → Server → Io Server
open_session c context device_address sockets username memory srv =
    elim (find_free_session_index context) [
      | none ↦ done srv
      | some i ↦ (do
        let session = create_session i sockets device_address memory
        let e = create_client_connected_event username device_address
        told ← tell_if srv.manager e srv
        done (
            with_context c (record context { sessions = set context.sessions i (some session) })
              told))
    ]

-- `initialize_user_session_and_threads`, without the start of the threads. The last two arguments are
-- the allocation of the session and the state.
unfoldable pub initialize_user_session :
    SockaddrIn → SessionSockets → Bytes → List FileEntry → Server → Io Server
initialize_user_session device_address sockets username memory srv = (do
  (c, contexts) ← get_or_create_context username srv.contexts
  let srv' = record srv { contexts = contexts }
  context ← context_at srv' c
  open_session c context device_address sockets username memory srv')

-- for (send_to_index = i; send_to_index < i + n; send_to_index++), past the session's own index.
unfoldable pub send_to_others : ℕ → ℕ → ℕ → Bytes → FileEntryType → UserContext → Io UserContext
send_to_others zero i own filename type context = done context
send_to_others (suc n) i own filename type context = elim (i == own) [
  | true ↦ send_to_others n (suc i) own filename type context
  | false ↦ (do
    context' ← send_file_to_session i filename type context
    send_to_others n (suc i) own filename type context')
]

-- The block under `if (atomic_load(&global_server_mode) == BACKUP_MANAGER)`, and that condition.
unfoldable pub spread_if : Bool → ℕ → ℕ → Bytes → FileEntryType → Server → Io Server
spread_if false c own filename type srv = done srv
spread_if true c own filename type srv = (do
  context ← context_at srv c
  context' ← send_to_others max_sessions 0 own filename type context
  done (with_context c context' srv))

abbrev pub spread : ℕ → ℕ → Bytes → FileEntryType → Server → Io Server
spread c own filename type srv = spread_if srv.manager c own filename type srv

unfoldable pub remove_file_from_user_list : ℕ → Session → Bytes → Bytes → Server → Io Server
remove_file_from_user_list c session filename folder_path srv = (do
  context ← context_at srv c
  status ← get_file_status context.file_list filename folder_path srv.fs
  elim status [
    | file_status_not_found ↦ done srv
    | _ ↦ (do
      (removed, contexts) ← remove_file_from_context filename context.username srv.contexts
      spread c session.session_index filename file_entry_delete
          (record srv { contexts = contexts }))
  ])

-- The case PACKET_SEND of `handle_incoming_file`.
unfoldable pub record_upload : ℕ → Session → Bytes → Bytes → Server → Io Server
record_upload c session filename folder_path srv = (do
  context ← context_at srv c
  status ← get_file_status context.file_list filename folder_path srv.fs
  elim status [
    | file_status_not_found ↦ (do
      (added, contexts) ←
          add_file_to_context filename folder_path context.username srv.fs srv.contexts
      spread c session.session_index filename file_entry_send (record srv { contexts = contexts }))
    | file_status_updated ↦ (do
      crc ← crc32 srv.fs (create_filepath folder_path filename)
      let listed = record context { file_list = set_crc context.file_list filename crc }
      spread c session.session_index filename file_entry_send (with_context c listed srv))
    | file_status_exists ↦ done srv
  ])

-- The event of a packet type; the code leaves it uninitialised for any other type.
abbrev pub file_event : ℕ → Bytes → SockaddrIn → Bytes → Io ReplicaEvent
file_event type username device_address filename =
    if type == type_code packet_send
    then done (create_file_upload_event username device_address filename)
    else if type == type_code packet_delete
    then done (create_file_delete_event username device_address filename)
    else crash

-- The first argument is the test of the mode.
unfoldable pub send_file_event : Bool → UserContext → Session → ℕ → Bytes → Server → Io Server
send_file_event false context session type filename srv = done srv
send_file_event true context session type filename srv = (do
  e ← file_event type context.username session.device_address filename
  tell_replicas e srv)

abbrev pub send_file_event_to_replicas : UserContext → Session → ℕ → Bytes → Server → Io Server
send_file_event_to_replicas context session type filename srv =
    send_file_event srv.manager context session type filename srv

-- The switch on the packet's type, for an active session.
unfoldable pub apply_packet : ℕ → Session → ℕ → Bytes → Bytes → Server → Io Server
apply_packet c session type filename folder_path srv =
    if type == type_code packet_send
    then record_upload c session filename folder_path srv
    else if type == type_code packet_delete
    then remove_file_from_user_list c session filename folder_path srv
    else done srv

-- After `handle_send_delete`. A NULL name is read by `create_filepath`.
unfoldable pub incoming_file :
    ℕ → UserContext → Session → ℕ → Option Bytes → Bytes → Server → Io Server
incoming_file c context session type none folder_path srv = crash
incoming_file c context session type (some filename) folder_path srv = (do
  applied ←
      (if session.active then apply_packet c session type filename folder_path srv else done srv)
  send_file_event_to_replicas context session type filename applied)

-- The Boolean is the return code. The folders exist.
unfoldable pub handle_incoming_file :
    ℕ → ℕ → Bytes → List Event → Server → Io (Bool × Server × List Event)
handle_incoming_file c i folder_path events srv = (do
  context ← context_at srv c
  session ← or_crash (slot context i)
  let (r, rest) = read_packet events
  elim r [
    | null ↦ crash
    | waits ↦ waiting
    | packet p ↦ (do
      (filename, fs, left) ← handle_send_delete p folder_path srv.fs rest
      let srv' = record srv { fs = fs }
      elim (p.type == 7) [
        | true ↦ done (false, srv', left)
        | false ↦ (do
          srv'' ← incoming_file c context session p.type filename folder_path srv'
          done (true, srv'', left))
      ])
  ])
