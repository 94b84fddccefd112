-- ===== src/Commands/Tests.antt =====
-- Tests of the commands, and their theorems at concrete inputs.
use inf01151_trabalho_final.Base.{◌≡◌, refl, [], ◌∷◌, codes, str_eq, to_le}
use inf01151_trabalho_final.Files.{create_filepath, lookup}
use inf01151_trabalho_final.Packet.Socket.{broken_pipe, transmit}
use inf01151_trabalho_final.Packet.{Packet, packet_delete, image, send_packet, create_packet}
use inf01151_trabalho_final.Packet.Framing.{packet_of}
use inf01151_trabalho_final.Transfer.{done, crash, send_new}
use inf01151_trabalho_final.Transfer.Sending.{open_link}
use inf01151_trabalho_final.Commands.Samples.{
  session, ana, no_replicas-IsValid, srv, serving, path, content,
}
use inf01151_trabalho_final.Commands.{list_command, download_command, handle_command}
use inf01151_trabalho_final.Commands.Delete.{Deleted, delete_command_lem}
use inf01151_trabalho_final.Commands.Exit.{Exited, exit_command_lem}

-- A listing that cannot be sent frees its packet twice.
failed_listing :
    list_command (codes "files") (record { outcomes = broken_pipe ∷ []; out = [] }) ≡ crash
unfolding list_command send_new send_packet create_packet transmit
failed_listing = refl

missing_file :
    download_command (codes "g") (codes "d") srv.fs (open_link [])
    ≡ done (open_link (8 ∷ 0 ∷ 0 ∷ 0 ∷ 0 ∷ 0 ∷ 0 ∷ 0 ∷ []))
unfolding download_command srv create_filepath lookup str_eq send_packet create_packet transmit
    image to_le
missing_file = refl

abbrev delete_f : Packet
delete_f = packet_of packet_delete (codes "f")

abbrev closed : Packet
closed = record { type = 7; length = 0; body = 0 ∷ 0 ∷ [] }

delete_command_lem_example :
    Deleted 0 0 session
      (codes "f")
      (codes "d/f")
      ana
      (open_link [])
      srv
      (handle_command 0 0 (codes "d") [] delete_f (open_link []) srv)
delete_command_lem_example =
    delete_command_lem 0 0 session ana (codes "d") [] (codes "d/f") (7 ∷ 0 ∷ []) delete_f
      (open_link []) srv serving refl path content

exit_command_lem_example :
    Exited 0 0 ana (open_link []) srv (handle_command 0 0 (codes "d") [] closed (open_link []) srv)
unfolding srv session
exit_command_lem_example =
    exit_command_lem 0 0 session ana srv (codes "d") [] closed (open_link []) refl refl refl refl
      no_replicas-IsValid
