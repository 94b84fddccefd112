-- ===== src/Failover/Handover.antt =====
-- A backup that takes the manager's role, and a client that follows it: `run_as_backup` of
-- src/server/serverRoles.c together with `notification_listener` of src/client/client.c.
use inf01151_trabalho_final.Base.{ℕ, ◌≡◌}
use inf01151_trabalho_final.Address.{SockaddrIn}
use inf01151_trabalho_final.Transfer.{Io, done}
use inf01151_trabalho_final.Replicas.{Replicas}
use inf01151_trabalho_final.Sessions.Disconnect.{AllEmptied}
use inf01151_trabalho_final.Server.{Server}
use inf01151_trabalho_final.Failover.{Notices, reconnect_packet, Takeover, manager_address}
use inf01151_trabalho_final.Failover.Told.{Has}

-- What the takeover makes of the server, and that the client at `target` is told of the address.
pub record TakesOver (address target : SockaddrIn) (srv : Server) (result : Io (Server × Notices))
    : Type 0 where
  pub server : Server
  pub notices : Notices
  pub returns : result ≡ done (server, notices)
  pub same_files : server.fs ≡ srv.fs
  pub emptied : AllEmptied srv.contexts server.contexts
  pub rejoined : server.replicas.replica_count ≡ srv.replicas.replica_count
  pub told : Has notices target (reconnect_packet address)

-- The address that the clients are told.
abbrev pub clients_address : Takeover → ℕ → SockaddrIn
clients_address t server_address = record (manager_address t.listener_port server_address) {
  sin_port = t.interface_socket_port;
}
