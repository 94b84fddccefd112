-- ===== src/Roles.antt =====
-- What a backup does with the packets of the manager, and what the manager does with a new backup:
-- src/server/serverRoles.c. One turn of each loop is a step; what the environment does in it is a
-- record of its own.
pub mod Upload
pub mod Deletion
pub mod Connection
pub mod Ending
pub mod Samples
pub mod Joining
mod Tests
mod DeletionTests
mod SessionTests
use inf01151_trabalho_final.Base.{
  ℕ, ◌-◌, ◌%◌, ◌^◌, Bool, true, false, not, ◌||◌, Option, none, some, List, [], ◌∷◌, ◌++◌, Bytes,
  ltb, set, get_elem?, ◌==◌, if◌then◌else◌, c_string, length,
}
use inf01151_trabalho_final.Text.{ℤ, pos, negsuc, print_int, scan_pair}
use inf01151_trabalho_final.Address.{SockaddrIn, to_u16}
use inf01151_trabalho_final.Packet.Socket.{Event, Link}
use inf01151_trabalho_final.Packet.{packet_replica_msg, packet, null, waits, read_packet, SendCode}
use inf01151_trabalho_final.Transfer.{Io, done, waiting, crash, ◌>>=◌, send_new}
use inf01151_trabalho_final.SyncBuffer.{FileEntry}
use inf01151_trabalho_final.Events.{
  ReplicaEvent, event_code, event_client_connected, event_client_disconnected, event_file_uploaded,
  event_file_deleted, event_replica_added, event_heartbeat, create_replica_added_event,
  deserialize_replica_event,
}
use inf01151_trabalho_final.Replicas.{
  Replicas, is_type, int_eq, get_user_folder, add_replica, send_replicas_data, update,
}
use inf01151_trabalho_final.Sessions.{
  SessionSockets, UserContext, or_crash, get_or_create_context, get_user_session_by_address,
}
use inf01151_trabalho_final.Server.{
  Server, context_at, with_context, with_replicas, tell_replicas, initialize_user_session,
  handle_incoming_file,
}

-- HEARTBEAT_TIMEOUT_SECONDS
abbrev pub heartbeat_timeout_seconds : ℕ
heartbeat_timeout_seconds = 5

-- The clock, an allocation for a session, the result of `socket` and `connect` (`none`: one failed),
-- and whether a node can be allocated.
pub record Moment : Type 0 where
  pub now : ℕ
  pub memory : List FileEntry
  pub socket : Option ℕ
  pub allocated : Bool

pub record Backup : Type 0 where
  pub server : Server
  pub last_heartbeat : ℕ
  pub has_connection_closed : Bool

-- The other flags are new_leader_decided and is_election_running. The clock does not run back.
unfoldable pub is_manager_running : ℕ → Bool → Bool → ℕ → Bool
is_manager_running last_heartbeat new_leader_decided is_election_running now = not (
    ltb heartbeat_timeout_seconds (now - last_heartbeat)
    || (new_leader_decided || is_election_running))

-- A NULL string is read through.
abbrev pub string_of : Option Bytes → Io Bytes
string_of none = crash
string_of (some s) = done s

abbrev pub no_sockets : SessionSockets
no_sockets = record {
  interface_socketfd = negsuc 0;
  receive_socketfd = negsuc 0;
  send_socketfd = negsuc 0;
}

-- EVENT_CLIENT_DISCONNECTED. A session that is not found is read through NULL.
unfoldable pub client_disconnected : Bytes → SockaddrIn → Server → Io Server
client_disconnected username device_address srv = (do
  (c, contexts) ← get_or_create_context username srv.contexts
  let srv' = record srv { contexts = contexts }
  context ← context_at srv' c
  (i, session) ← or_crash (get_user_session_by_address (some context) device_address)
  let gone = record context { sessions = set context.sessions session.session_index none }
  done (with_context c gone srv'))

-- EVENT_FILE_UPLOADED and EVENT_FILE_DELETED: the file's packets follow on the same connection.
unfoldable pub file_replicated : Bytes → SockaddrIn → List Event → Server → Io (Server × List Event)
file_replicated username device_address events srv = (do
  (c, contexts) ← get_or_create_context username srv.contexts
  let srv' = record srv { contexts = contexts }
  context ← context_at srv' c
  (i, session) ← or_crash (get_user_session_by_address (some context) device_address)
  (code, srv'', left) ← handle_incoming_file c i (get_user_folder username) events srv'
  done (srv'', left))

-- EVENT_REPLICA_ADDED at the backup `id`: it connects to another new backup and lists it.
unfoldable pub replica_added : ℤ → Bytes → SockaddrIn → Moment → Replicas → Replicas
replica_added id text device_address m r = elim (scan_pair text) [
  | none ↦ r
  | some (replica_id, replica_listener_port) ↦ elim (int_eq replica_id id) [
    | true ↦ r
    | false ↦ elim (m.socket) [
      | none ↦ r
      | some socketfd ↦
          (add_replica socketfd replica_id replica_listener_port
            (record device_address { sin_port = to_u16 replica_listener_port }) m.allocated r).1
    ]
  ]
]

abbrev pub with_server : Backup → Server → Backup
with_server b server = record b { server = server }

unfoldable pub handle_replica_event :
    ℤ → ReplicaEvent → Moment → List Event → Backup → Io (Backup × List Event)
handle_replica_event id e m events b =
    if is_type e.type event_client_connected
    then (do
      username ← string_of e.username
      server ← initialize_user_session e.device_address no_sockets username m.memory b.server
      done (with_server b server, events))
    else if is_type e.type event_client_disconnected
    then (do
      username ← string_of e.username
      server ← client_disconnected username e.device_address b.server
      done (with_server b server, events))
    else if is_type e.type event_file_uploaded || is_type e.type event_file_deleted
    then (do
      username ← string_of e.username
      (server, left) ← file_replicated username e.device_address events b.server
      done (with_server b server, left))
    else if is_type e.type event_replica_added
    then (do
      text ← string_of e.username
      let replicas = replica_added id text e.device_address m b.server.replicas
      done (with_server b (with_replicas replicas b.server), events))
    else if is_type e.type event_heartbeat
    then done (record b { last_heartbeat = m.now }, events)
    else done (b, events)

-- One turn of the inner loop of `connect_to_server_thread` in which data has arrived.
unfoldable pub backup_turn : ℤ → Moment → List Event → Backup → Io (Backup × List Event)
backup_turn id m events b =
    let (r, rest) = read_packet events in
    elim r [
      | null ↦ crash
      | waits ↦ waiting
      | packet p ↦
          if p.type == 6
          then handle_replica_event id (deserialize_replica_event (c_string p.body)) m rest b
          else if p.type == 7
          then done (record b { has_connection_closed = true }, rest)
          else done (b, rest)
    ]

-- What a backup sends first, "%d:%d" of its identifier and its listener's port.
unfoldable pub introduction : ℤ → ℤ → Bytes
introduction id listener_port = print_int id ++ b':' ∷ print_int listener_port

unfoldable pub introduce : ℤ → ℤ → Link → SendCode × Link
introduce id listener_port link = send_new link packet_replica_msg (introduction id listener_port)

-- The identifier and the port of an introduction; the variables that a failing `sscanf` leaves unset
-- hold `unset`.
unfoldable pub ids_of : Bytes → ℤ × ℤ → ℤ × ℤ
ids_of payload unset = elim (scan_pair payload) [ none ↦ unset | some ids ↦ ids ]

-- After `add_replica`: the others are told of the new node, and it of all nodes.
unfoldable pub announce_replica : ℕ → ℤ → ℤ → SockaddrIn → Bool × Replicas → Server → Io Server
announce_replica newsockfd id listener_port cli_addr (false, replicas) srv =
    done (with_replicas replicas srv)
announce_replica newsockfd id listener_port cli_addr (true, replicas) srv = (do
  let e = create_replica_added_event id listener_port cli_addr
  told ← tell_replicas e (with_replicas replicas srv)
  link ← or_crash (send_replicas_data told.fs told.replicas.head (told.replicas.links newsockfd))
  let r = told.replicas
  done (with_replicas (record r { links = update r.links newsockfd link }) told))

unfoldable pub welcome_replica : ℕ → SockaddrIn → ℤ × ℤ → Bool → Server → Io Server
welcome_replica newsockfd cli_addr (id, listener_port) allocated srv =
    announce_replica newsockfd id listener_port cli_addr
      (add_replica newsockfd id listener_port cli_addr allocated srv.replicas) srv

-- What the manager does with the first payload of a new connection. The fifth argument says
-- whether the node can be allocated.
unfoldable pub accept_replica : ℕ → SockaddrIn → Bytes → ℤ × ℤ → Bool → Server → Io Server
accept_replica newsockfd cli_addr payload unset allocated srv =
    welcome_replica newsockfd cli_addr (ids_of payload unset) allocated srv
