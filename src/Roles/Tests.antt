-- ===== src/Roles/Tests.antt =====
-- Tests of the roles, and their theorems at concrete inputs.
use inf01151_trabalho_final.Base.{
  ◌^◌, ◌<◌, ◌≡◌, refl, some, true, false, List, [], ◌∷◌, ◌++◌, Bytes, codes, str_eq, arith, length,
  to_le, c_string,
}
use inf01151_trabalho_final.Text.{pos, print_int, print_nat, digits, inet_ntop}
use inf01151_trabalho_final.Address.{print_address}
use inf01151_trabalho_final.Files.{content_of, lookup}
use inf01151_trabalho_final.Packet.Socket.{Event, data_in}
use inf01151_trabalho_final.Packet.{Packet, packet, read_packet, packet_replica_msg, image, ok}
use inf01151_trabalho_final.Packet.Stream.{arriving, IsStream}
use inf01151_trabalho_final.Packet.Framing.{packet_of}
use inf01151_trabalho_final.Transfer.{done, announcement, packet_amount}
use inf01151_trabalho_final.Transfer.Sending.{open_link, transfer_of, frames}
use inf01151_trabalho_final.Events.{
  create_file_upload_event, create_replica_added_event, serialize_replica_event,
}
use inf01151_trabalho_final.Replicas.{get_user_folder, send_event, find_node}
use inf01151_trabalho_final.Replicas.Invariant as ReplicaList
use inf01151_trabalho_final.Replicas.Survivors.{survivors}
use inf01151_trabalho_final.Server.{Server, handle_incoming_file}
use inf01151_trabalho_final.Server.Incoming.{Uploaded}
use inf01151_trabalho_final.Roles.{
  with_server, backup_turn, is_manager_running, introduction, accept_replica,
}
use inf01151_trabalho_final.Roles.Upload.{
  upload_text, upload_bytes, send_event-upload, replicated_upload,
}
use inf01151_trabalho_final.Roles.Joining.{joining_lem}
use inf01151_trabalho_final.Roles.Samples.{
  device, session, ana, no_replicas-IsValid, srv, backup, moment, manager_disk, path, serving,
  the_session, ana-IsName, f-IsName,
}

time_out :
    (is_manager_running 2 false false 7 ≡ true) × (is_manager_running 2 false false 8 ≡ false)
unfolding is_manager_running
time_out = (refl, refl)

content : content_of manager_disk (codes "user files/ana/f") ≡ some (7 ∷ 0 ∷ 9 ∷ [])
unfolding lookup str_eq
content = refl

text_fits : length (upload_text (codes "ana") device (codes "f")) < 2 ^ 16
unfolding create_file_upload_event serialize_replica_event print_int print_nat digits inet_ntop
    print_address
text_fits = omega arith

abbrev wire : Bytes
unfolding create_file_upload_event serialize_replica_event print_int print_nat digits inet_ntop
    print_address transfer_of image to_le announcement packet_amount frames
wire = upload_bytes (codes "ana") device (codes "f") (7 ∷ 0 ∷ 9 ∷ [])

sent :
    send_event manager_disk
      (create_file_upload_event (codes "ana") device (codes "f"))
      (open_link [])
    ≡ some (ok, open_link ([] ++ wire))
unfolding wire
sent =
    send_event-upload (codes "ana") (codes "f") (codes "user files/ana/f") (7 ∷ 0 ∷ 9 ∷ []) []
      device manager_disk text_fits path content (omega arith)

abbrev events : List Event
events = data_in wire ∷ []

events-IsStream : IsStream events
unfolding wire
events-IsStream = (cc, tt)

events_arrive : arriving events ≡ wire ++ []
unfolding wire
events_arrive = refl

replicated_upload_example :
    (u : Uploaded 0 session.session_index
      (codes "f")
      (codes "user files/ana/f")
      (7 ∷ 0 ∷ 9 ∷ [])
      []
      ana
      backup.server
      (handle_incoming_file 0 0
        (get_user_folder (codes "ana"))
        (read_packet events).1
        backup.server))
    × (backup_turn (pos 2) moment events backup ≡ done (with_server backup u.state, u.left))
unfolding srv
replicated_upload_example =
    replicated_upload (pos 2) 0 0 session ana (codes "ana") (codes "f") (codes "user files/ana/f")
      (7 ∷ 0 ∷ 9 ∷ []) [] wire [] device manager_disk moment events backup
      (record { addr_fits = omega arith; port_fits = omega arith })
      (ana-IsName, f-IsName, (omega arith, (omega arith, (omega arith, tt))), (omega arith, tt))
      text_fits (omega arith) path content sent refl serving refl the_session events-IsStream
      events_arrive

abbrev joining : List Event
unfolding introduction print_int print_nat digits image to_le
joining = data_in (image (packet_of packet_replica_msg (introduction (pos 2) (pos 4001)))) ∷ []

joining-IsStream : IsStream joining
unfolding joining
joining-IsStream = (cc, tt)

joining_arrives :
    arriving joining ≡ image (packet_of packet_replica_msg (introduction (pos 2) (pos 4001))) ++ []
unfolding joining
joining_arrives = refl

introduction_fits : length (introduction (pos 2) (pos 4001)) < 2 ^ 16
unfolding introduction print_int print_nat digits
introduction_fits = omega arith

not_listed : find_node srv.replicas.head 9 ≡ false
unfolding srv find_node
not_listed = refl

srv-IsValid : ReplicaList.IsValid srv.replicas
unfolding srv
srv-IsValid = no_replicas-IsValid

joining_lem_example :
    (p : Packet) × (srv' : Server) × ((read_packet joining).0 ≡ packet p)
    × (accept_replica 9 device (c_string p.body) (pos 0, pos 0) true srv ≡ done srv')
    × ReplicaList.IsValid srv'.replicas
    × (srv'.replicas.head
        ≡ survivors (create_replica_added_event (pos 2) (pos 4001) device) srv.replicas.links (
            record { id = pos 2; socketfd = 9; listener_port = pos 4001; device_address = device }
            ∷ srv.replicas.head))
joining_lem_example =
    joining_lem 9 (pos 2) (pos 4001) device (pos 0, pos 0) [] joining srv introduction_fits
      joining-IsStream joining_arrives srv-IsValid not_listed
