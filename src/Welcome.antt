-- ===== src/Welcome.antt =====
-- The first exchange of a client and a server: `read_username` and `handle_new_connection` of
-- src/server/server.c, and `connect_to_server` of src/client/client.c.
pub mod Handshake
mod Tests
use inf01151_trabalho_final.Base.{
  ℕ, Option, none, some, List, [], ◌∷◌, Bytes, length, take, drop, leb, if◌then◌else◌, c_string,
  to_le,
}
use inf01151_trabalho_final.Text.{ℤ}
use inf01151_trabalho_final.Address.{SockaddrIn}
use inf01151_trabalho_final.Packet.Socket.{
  Event, data_in, end_of_stream, read_error, sent, broken_pipe, send_failed, Link, transmit,
}
use inf01151_trabalho_final.Transfer.{Io, done, waiting, ◌>>=◌}
use inf01151_trabalho_final.SyncBuffer.{FileEntry}
use inf01151_trabalho_final.Sessions.{SessionSockets}
use inf01151_trabalho_final.Server.{Server, initialize_user_session}

-- MAX_USERNAME_LENGTH
abbrev pub max_username_length : ℕ
max_username_length = 32

-- ANSWER_OK as it is written.
abbrev pub answer_ok : Bytes
answer_ok = to_le 4 1

-- One call of `read` for at most `n` bytes, none at the end of the stream; `none` is an error.
unfoldable pub read_some : ℕ → List Event → Io (Option (Bytes × List Event))
read_some n [] = waiting
read_some n (end_of_stream ∷ events) = done (some ([], end_of_stream ∷ events))
read_some n (read_error ∷ events) = done none
read_some n (data_in bytes ∷ events) =
    if leb (length bytes) n
    then done (some (bytes, events))
    else done (some (take n bytes, data_in (drop n bytes) ∷ events))

-- `none` is an exit of the process here and below.
unfoldable pub read_username : List Event → Io (Option (Bytes × List Event))
read_username events = (do
  r ← read_some max_username_length events
  elim r [ none ↦ done none | some (bytes, left) ↦ done (some (c_string bytes, left)) ])

-- The two sockets that are accepted, and the address of the client on the second.
pub record Accepted : Type 0 where
  pub sock_receive : ℤ
  pub sock_send : ℤ
  pub cli_send_addr : SockaddrIn

-- What `handle_new_connection` is given and finds: the interface's socket, what it accepts (`none`:
-- a call of `accept` fails), and the allocation of the session.
pub record Arrival : Type 0 where
  pub sock_interface : ℤ
  pub accepted : Option Accepted
  pub memory : List FileEntry

-- After the answer is written.
unfoldable pub accept_client : Arrival → Bytes → Server → Io (Option Server)
accept_client a username srv = elim (a.accepted) [
  | none ↦ done none
  | some s ↦ (do
    let sockets : SessionSockets = record {
      interface_socketfd = a.sock_interface;
      receive_socketfd = s.sock_receive;
      send_socketfd = s.sock_send;
    }
    srv' ← initialize_user_session s.cli_send_addr sockets username a.memory srv
    done (some srv'))
]

unfoldable pub answer_client : Arrival → Bytes → Link → Server → Io (Option (Server × Link))
answer_client a username link srv =
    let (o, link') = transmit link answer_ok in
    elim o [
      | sent ↦ (do
        r ← accept_client a username srv
        elim r [ none ↦ done none | some srv' ↦ done (some (srv', link')) ])
      | broken_pipe ↦ done none
      | send_failed ↦ done none
    ]

unfoldable pub handle_new_connection :
    Arrival → List Event → Link → Server → Io (Option (Server × Link × List Event))
handle_new_connection a events link srv = (do
  r ← read_username events
  elim r [
    | none ↦ done none
    | some (username, left) ↦ (do
      w ← answer_client a username link srv
      elim w [ none ↦ done none | some (srv', link') ↦ done (some (srv', link', left)) ])
  ])

-- `connect_to_server` once the socket is connected; `none` is a return of 1. The answer's value only
-- makes a message be printed.
unfoldable pub connect_to_server : Bytes → Link → List Event → Io (Option (Link × List Event))
connect_to_server username link events =
    let (o, link') = transmit link username in
    elim o [
      | sent ↦ (do
        r ← read_some 4 events
        elim r [ none ↦ done none | some (resposta, left) ↦ done (some (link', left)) ])
      | broken_pipe ↦ done none
      | send_failed ↦ done none
    ]
