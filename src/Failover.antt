-- ===== src/Failover.antt =====
-- How a backup takes the manager's role and the clients follow it: the end of `run_as_backup` and
-- `notify_clients_of_server_change` of src/server/serverRoles.c, `send_packet_all_users` of
-- src/util/connectionManagement.c, and `handle_connection` and `notification_listener` of
-- src/client/client.c.
pub mod Told
pub mod Follow
pub mod Handover
mod Tests
use inf01151_trabalho_final.Base.{
  ℕ, zero, suc, ◌+◌, ◌%◌, ◌^◌, Bool, true, false, Option, none, some, List, [], ◌∷◌, ◌++◌, Bytes,
  length, get_elem?, ltb, ◌==◌, if◌then◌else◌, c_string,
}
use inf01151_trabalho_final.Text.{ℤ, scan_int}
use inf01151_trabalho_final.Address.{SockaddrIn, af_inet, to_u16, print_address}
use inf01151_trabalho_final.Packet.Socket.{Event, Link}
use inf01151_trabalho_final.Packet.{
  Packet, packet_reconnect, packet, null, waits, read_packet, create_packet, send_packet,
}
use inf01151_trabalho_final.Transfer.{Io, done, waiting, crash, ◌>>=◌}
use inf01151_trabalho_final.Transfer.Sending.{open_link}
use inf01151_trabalho_final.Replicas.{Replicas, replica_list_destroy}
use inf01151_trabalho_final.Election.{send_coordinator_msg}
use inf01151_trabalho_final.Sessions.{
  Session, UserContext, Contexts, or_crash, disconnect_all_users,
}
use inf01151_trabalho_final.Server.{Server}

-- NOTIFICATION_PORT
abbrev pub notification_port : ℕ
notification_port = 12345

-- How the next calls of `socket` and `connect` end (`none`: one fails; when the list is used up, all
-- connect and every packet is taken), and the connections made with what was sent on each.
pub record Notices : Type 0 where
  pub dials : List (Option Link)
  pub sent : List (SockaddrIn × Link)

abbrev pub send_on : Option Packet → SockaddrIn → Link → Notices → Notices
send_on p address link n = record n { sent = n.sent ++ (address, (send_packet link p).1) ∷ [] }

unfoldable pub dial_and_send : List (Option Link) → Option Packet → SockaddrIn → Notices → Notices
dial_and_send [] p address n = send_on p address (open_link []) n
dial_and_send (none ∷ rest) p address n = record n { dials = rest }
dial_and_send (some link ∷ rest) p address n = send_on p address link (record n { dials = rest })

-- The loop over the slots of a context.
unfoldable pub send_to_sessions : Option Packet → List (Option Session) → Notices → Notices
send_to_sessions p [] n = n
send_to_sessions p (none ∷ sessions) n = send_to_sessions p sessions n
send_to_sessions p (some session ∷ sessions) n =
    send_to_sessions p sessions
      (dial_and_send n.dials p (record session.device_address { sin_port = notification_port }) n)

unfoldable pub send_to_chain :
    Option Packet → List UserContext → List (Bytes × ℕ) → Notices → Io Notices
send_to_chain p heap [] n = done n
send_to_chain p heap ((username, c) ∷ node) n = (do
  context ← or_crash (get_elem? heap c)
  send_to_chain p heap node (send_to_sessions p context.sessions n))

unfoldable pub send_to_buckets :
    Option Packet → List UserContext → List (List (Bytes × ℕ)) → Notices → Io Notices
send_to_buckets p heap [] n = done n
send_to_buckets p heap (chain ∷ array) n = (do
  n' ← send_to_chain p heap chain n
  send_to_buckets p heap array n')

abbrev pub send_packet_all_users : Option Packet → Contexts → Notices → Io Notices
send_packet_all_users p s n = send_to_buckets p s.heap s.table.array n

-- The NUL is sent as part of the payload.
unfoldable pub reconnect_packet : SockaddrIn → Option Packet
reconnect_packet new_address =
    let result = print_address new_address ++ 0 ∷ [] in
    create_packet packet_reconnect (length result) (some result)

unfoldable pub notify_clients_of_server_change : SockaddrIn → Contexts → Notices → Io Notices
notify_clients_of_server_change new_address s n =
    send_packet_all_users (reconnect_packet new_address) s n

-- while (current_replica_count != replica_count), with the list at the first test and, as the
-- listener thread changes it, at the later ones.
unfoldable pub await_replicas : ℕ → Replicas → List Replicas → Io Replicas
await_replicas current_replica_count replicas [] =
    if current_replica_count == replicas.replica_count then done replicas else waiting
await_replicas current_replica_count replicas (r ∷ polls) =
    elim (current_replica_count == replicas.replica_count) [
      | true ↦ done replicas
      | false ↦ await_replicas current_replica_count r polls
    ]

-- What `run_as_backup` is given and finds: its identifier and the port of its listener, what
-- gethostbyname(my_server_ip) gives, the port for the clients, and the list of replicas at the tests.
pub record Takeover : Type 0 where
  pub id : ℤ
  pub listener_port : ℤ
  pub server_address : Option ℕ
  pub interface_socket_port : ℕ
  pub polls : List Replicas

abbrev pub manager_address : ℤ → ℕ → SockaddrIn
manager_address listener_port server_address = record {
  sin_family = af_inet;
  sin_addr = server_address;
  sin_port = to_u16 listener_port;
}

unfoldable pub take_over : Takeover → Server → Notices → Io (Server × Notices)
take_over t srv n = (do
  server_address ← or_crash t.server_address
  let my_new_manager_address = manager_address t.listener_port server_address
  let announced = send_coordinator_msg t.id my_new_manager_address srv.replicas
  replicas ← await_replicas announced.replica_count (replica_list_destroy announced) t.polls
  let new_address = record my_new_manager_address { sin_port = t.interface_socket_port }
  n' ← notify_clients_of_server_change new_address srv.contexts n
  contexts ← disconnect_all_users srv.contexts
  done (record srv { contexts = contexts; replicas = replicas }, n'))

-- What follows the loop of `run_as_backup`; the first argument is the test of the mode.
unfoldable pub end_backup_role : Bool → Takeover → Server → Notices → Io (Server × Notices)
end_backup_role true t srv n = take_over t srv n
end_backup_role false t srv n = (do
  contexts ← disconnect_all_users srv.contexts
  done (record srv { contexts = contexts }, n))

-- sscanf(s, "%63[^:]:%d", …) == 2: the host is all up to a colon, at most 63 bytes.
unfoldable pub until_colon : ℕ → Bytes → Bytes × Bytes
until_colon zero s = ([], s)
until_colon (suc n) [] = ([], [])
until_colon (suc n) (c ∷ s) =
    let (host, rest) = until_colon n s in if c == b':' then ([], c ∷ s) else (c ∷ host, rest)

unfoldable pub port_behind : Bytes → Bytes → Option (Bytes × ℤ)
port_behind host [] = none
port_behind host (c ∷ s) =
    if c == b':'
    then (elim (scan_int s) [ none ↦ none | some (port, rest) ↦ some (host, port) ])
    else none

unfoldable pub port_of : Bytes × Bytes → Option (Bytes × ℤ)
port_of ([], rest) = none
port_of (c ∷ host, rest) = port_behind (c ∷ host) rest

unfoldable pub scan_host_port : Bytes → Option (Bytes × ℤ)
scan_host_port s = port_of (until_colon 63 s)

-- The globals of the client.
pub record Client : Type 0 where
  pub username : Bytes
  pub hostname : Bytes
  pub console_socket_port : ℕ
  pub signal_reconnect : Bool
  pub threads_exited : ℕ

-- The network: gethostbyname, and whether a connection to an address succeeds and, on the interface,
-- the name is written and an answer read. The answer's value only makes a message be printed.
pub record Network : Type 0 where
  pub resolve : Bytes → Option ℕ
  pub accepts : SockaddrIn → Bool

-- How `handle_connection` ends: with its three connections, without any, or with the process.
pub data Connection : Type 0 where
  connected : SockaddrIn → SockaddrIn → SockaddrIn → Connection
  not_found exits : Connection

abbrev pub endpoint : ℕ → ℕ → SockaddrIn
endpoint address port = record {
  sin_family = af_inet;
  sin_addr = address;
  sin_port = port % 2 ^ 16;
}

unfoldable pub setup_connections : Network → ℕ → ℕ → Connection
setup_connections net address port =
    let interface = endpoint address port in
    let send = endpoint address (port + 1) in
    let receive = endpoint address (port + 2) in
    if net.accepts interface
    then (if net.accepts receive
        then (if net.accepts send then connected interface send receive else exits)
        else exits)
    else exits

unfoldable pub handle_connection : Network → Client → Connection × Client
handle_connection net k = elim (net.resolve k.hostname) [
  | none ↦ (not_found, k)
  | some address ↦
      (setup_connections net address k.console_socket_port, record k { signal_reconnect = false })
]

-- `hostname` holds 20 bytes. The threads have exited when the loop over `threads_exited` ends.
unfoldable pub follow : Network → Bytes → ℤ → Client → Io (Connection × Client)
follow net host port k =
    if ltb (length host) 20
    then done (
        handle_connection net
          (record k { hostname = host; console_socket_port = to_u16 port; threads_exited = 0 }))
    else crash

-- A turn of the loop of `notification_listener` with the connection that it accepts: `not_found` also
-- stands for a payload that is refused.
unfoldable pub notification_turn : Network → List Event → Client → Io (Connection × Client)
notification_turn net events k =
    let k' = record k { signal_reconnect = true } in
    elim ((read_packet events).0) [
      | null ↦ crash
      | waits ↦ waiting
      | packet p ↦ elim (scan_host_port (c_string p.body)) [
        | none ↦ done (not_found, k')
        | some (host, port) ↦ follow net host port k'
      ]
    ]
