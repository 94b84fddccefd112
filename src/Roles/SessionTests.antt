-- ===== src/Roles/SessionTests.antt =====
-- The replication of a session's start and end at concrete inputs.
use inf01151_trabalho_final.Base.{
  ◌^◌, ◌<◌, ◌≡◌, refl, some, false, List, [], ◌∷◌, ◌++◌, Bytes, codes, arith, length, to_le,
  get_elem?,
}
use inf01151_trabalho_final.Text.{pos, print_int, print_nat, digits, inet_ntop}
use inf01151_trabalho_final.Address.{af_inet, print_address}
use inf01151_trabalho_final.Packet.Socket.{Event, data_in}
use inf01151_trabalho_final.Packet.Stream.{arriving, IsStream}
use inf01151_trabalho_final.Packet.{read_packet, image, ok}
use inf01151_trabalho_final.Transfer.{done}
use inf01151_trabalho_final.Transfer.Sending.{open_link}
use inf01151_trabalho_final.ContextTable.{null, search, create, key_hash, scan}
use inf01151_trabalho_final.Events.{
  create_client_disconnected_event, create_client_connected_event, serialize_replica_event,
}
use inf01151_trabalho_final.Replicas.{send_event}
use inf01151_trabalho_final.Sessions.Users.{no_contexts, no_contexts-IsConsistent}
use inf01151_trabalho_final.Server.{initialize_user_session}
use inf01151_trabalho_final.Server.Connect.{Connected}
use inf01151_trabalho_final.Roles.{
  client_disconnected, Backup, no_sockets, with_server, backup_turn,
}
use inf01151_trabalho_final.Roles.Connection.{
  connection_text, connection_bytes, send_event-connection, replicated_connection,
}
use inf01151_trabalho_final.Roles.Ending.{
  ending_text, ending_bytes, send_event-ending, Freed, replicated_end,
}
use inf01151_trabalho_final.Roles.Samples.{
  device, session, ana, no_replicas, no_replicas-IsValid, srv, backup, moment, manager_disk, known,
  the_session, ana-IsName,
}

-- A backup that knows no user.
abbrev new_backup : Backup
new_backup = record {
  server = record {
    manager = false;
    contexts = no_contexts 30;
    replicas = no_replicas;
    fs = manager_disk;
  };
  last_heartbeat = 0;
  has_connection_closed = false;
}

text_fits : length (connection_text (codes "ana") device) < 2 ^ 16
unfolding create_client_connected_event serialize_replica_event print_int print_nat digits inet_ntop
    print_address
text_fits = omega arith

abbrev wire : Bytes
unfolding create_client_connected_event serialize_replica_event print_int print_nat digits inet_ntop
    print_address image to_le
wire = connection_bytes (codes "ana") device

sent :
    send_event manager_disk (create_client_connected_event (codes "ana") device) (open_link [])
    ≡ some (ok, open_link ([] ++ wire))
unfolding wire
sent = send_event-connection (codes "ana") [] device manager_disk text_fits

abbrev events : List Event
events = data_in wire ∷ []

events-IsStream : IsStream events
unfolding wire
events-IsStream = (cc, tt)

events_arrive : arriving events ≡ wire ++ []
unfolding wire
events_arrive = refl

no_user : search (no_contexts 30).table (codes "ana") ≡ null
unfolding search create key_hash scan
no_user = refl

replicated_connection_example :
    (u : Connected
      (record device { sin_family = af_inet })
      no_sockets
      (codes "ana")
      moment.memory
      new_backup.server
      (initialize_user_session
        (record device { sin_family = af_inet })
        no_sockets
        (codes "ana")
        moment.memory
        new_backup.server))
    × (backup_turn (pos 2) moment events new_backup
        ≡ done (with_server new_backup u.state, (read_packet events).1))
    × (arriving (read_packet events).1 ≡ [])
replicated_connection_example =
    replicated_connection (pos 2) (codes "ana") [] wire [] device manager_disk moment events
      new_backup (record { addr_fits = omega arith; port_fits = omega arith })
      (cc, (omega arith, (omega arith, (omega arith, tt))))
      (omega arith, (omega arith, (omega arith, tt))) text_fits sent
      (no_contexts-IsConsistent 30 (omega arith)) (λ e. cc (e, no_user)) no_replicas-IsValid
      events-IsStream events_arrive

ending_fits : length (ending_text (codes "ana") device) < 2 ^ 16
unfolding create_client_disconnected_event serialize_replica_event print_int print_nat digits
    inet_ntop print_address
ending_fits = omega arith

abbrev ending_wire : Bytes
unfolding create_client_disconnected_event serialize_replica_event print_int print_nat digits
    inet_ntop print_address image to_le
ending_wire = ending_bytes (codes "ana") device

ending_sent :
    send_event manager_disk (create_client_disconnected_event (codes "ana") device) (open_link [])
    ≡ some (ok, open_link ([] ++ ending_wire))
unfolding ending_wire
ending_sent = send_event-ending (codes "ana") [] device manager_disk ending_fits

abbrev endings : List Event
endings = data_in ending_wire ∷ []

endings-IsStream : IsStream endings
unfolding ending_wire
endings-IsStream = (cc, tt)

endings_arrive : arriving endings ≡ ending_wire ++ []
unfolding ending_wire
endings_arrive = refl

ana_at : get_elem? srv.contexts.heap 0 ≡ some ana
unfolding srv
ana_at = refl

at_its_slot : session.session_index ≡ 0
unfolding session
at_its_slot = refl

replicated_end_example :
    (u : Freed 0 0 ana backup.server
      (client_disconnected (codes "ana") (record device { sin_family = af_inet }) backup.server))
    × (backup_turn (pos 2) moment endings backup
        ≡ done (with_server backup u.state, (read_packet endings).1))
    × (arriving (read_packet endings).1 ≡ [])
replicated_end_example =
    replicated_end (pos 2) 0 0 session ana (codes "ana") [] ending_wire [] device manager_disk
      moment endings backup (record { addr_fits = omega arith; port_fits = omega arith }) ana-IsName
      (omega arith, (omega arith, (omega arith, tt))) ending_fits ending_sent known ana_at
      the_session at_its_slot endings-IsStream endings_arrive
