-- ===== src/Roles/DeletionTests.antt =====
-- The replication of a deletion at a concrete input.
use inf01151_trabalho_final.Base.{
  ◌^◌, ◌<◌, ◌≡◌, refl, some, List, [], ◌∷◌, ◌++◌, Bytes, codes, arith, length, to_le,
}
use inf01151_trabalho_final.Text.{pos, print_int, print_nat, digits, inet_ntop}
use inf01151_trabalho_final.Address.{print_address}
use inf01151_trabalho_final.Packet.Socket.{Event, data_in}
use inf01151_trabalho_final.Packet.{read_packet, image, ok}
use inf01151_trabalho_final.Packet.Stream.{arriving, IsStream}
use inf01151_trabalho_final.Transfer.{done}
use inf01151_trabalho_final.Transfer.Sending.{open_link}
use inf01151_trabalho_final.Events.{create_file_delete_event, serialize_replica_event}
use inf01151_trabalho_final.Replicas.{get_user_folder, send_event}
use inf01151_trabalho_final.Server.{handle_incoming_file}
use inf01151_trabalho_final.Roles.{with_server, backup_turn}
use inf01151_trabalho_final.Server.Removing.{Erased}
use inf01151_trabalho_final.Roles.Deletion.{
  delete_text, delete_bytes, send_event-delete, replicated_deletion,
}
use inf01151_trabalho_final.Roles.Samples.{
  device, session, ana, srv, backup, moment, manager_disk, path, serving, the_session, ana-IsName,
  f-IsName,
}

delete_fits : length (delete_text (codes "ana") device (codes "f")) < 2 ^ 16
unfolding create_file_delete_event serialize_replica_event print_int print_nat digits inet_ntop
    print_address
delete_fits = omega arith

abbrev deletion_wire : Bytes
unfolding create_file_delete_event serialize_replica_event print_int print_nat digits inet_ntop
    print_address image to_le
deletion_wire = delete_bytes (codes "ana") device (codes "f")

deletion_sent :
    send_event manager_disk
      (create_file_delete_event (codes "ana") device (codes "f"))
      (open_link [])
    ≡ some (ok, open_link ([] ++ deletion_wire))
unfolding deletion_wire
deletion_sent =
    send_event-delete (codes "ana") (codes "f") [] device manager_disk delete_fits (omega arith)

abbrev deletions : List Event
deletions = data_in deletion_wire ∷ []

deletions-IsStream : IsStream deletions
unfolding deletion_wire
deletions-IsStream = (cc, tt)

deletions_arrive : arriving deletions ≡ deletion_wire ++ []
unfolding deletion_wire
deletions_arrive = refl

replicated_deletion_example :
    (u : Erased 0 session.session_index
      (codes "f")
      (codes "user files/ana/f")
      []
      ana
      backup.server
      (handle_incoming_file 0 0
        (get_user_folder (codes "ana"))
        (read_packet deletions).1
        backup.server))
    × (backup_turn (pos 2) moment deletions backup ≡ done (with_server backup u.state, u.left))
unfolding srv
replicated_deletion_example =
    replicated_deletion (pos 2) 0 0 session ana (codes "ana") (codes "f") (codes "user files/ana/f")
      [] deletion_wire [] device manager_disk moment deletions backup
      (record { addr_fits = omega arith; port_fits = omega arith })
      (ana-IsName, f-IsName, (omega arith, (omega arith, (omega arith, tt))), (omega arith, tt))
      delete_fits (omega arith) path deletion_sent serving refl the_session deletions-IsStream
      deletions_arrive
