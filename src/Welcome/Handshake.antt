-- ===== src/Welcome/Handshake.antt =====
-- A client connects and a server takes it in: `connect_to_server` of src/client/client.c and
-- `handle_new_connection` of src/server/server.c.
use inf01151_trabalho_final.Replicas.Invariant as ReplicaList
use inf01151_trabalho_final.Sessions.{SessionSockets}
use inf01151_trabalho_final.Server.{Server}
use inf01151_trabalho_final.Welcome.{Accepted, Arrival}

-- The sockets of the session.
abbrev pub sockets_of : Arrival → Accepted → SessionSockets
sockets_of a s = record {
  interface_socketfd = a.sock_interface;
  receive_socketfd = s.sock_receive;
  send_socketfd = s.sock_send;
}
