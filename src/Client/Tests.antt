-- ===== src/Client/Tests.antt =====
-- Tests of the client's console, and its theorems at concrete inputs.
use inf01151_trabalho_final.Base.{
  ◌≡◌, refl, some, true, false, List, [], ◌∷◌, ◌++◌, Bytes, codes, str_eq, str_eq_refl, ap, ◌∙◌,
  arith, to_le, if◌then◌else◌,
}
use inf01151_trabalho_final.Files.{content_of, lookup}
use inf01151_trabalho_final.Packet.Socket.{Event, data_in, transmit}
use inf01151_trabalho_final.Packet.{
  Packet, packet, packet_download, read_packet, image, send_packet, create_packet,
}
use inf01151_trabalho_final.Packet.Stream.{arriving, IsStream}
use inf01151_trabalho_final.Packet.Framing.{packet_of}
use inf01151_trabalho_final.Text.{skip_space}
use inf01151_trabalho_final.Transfer.{done, send_new, announcement, packet_amount}
use inf01151_trabalho_final.Transfer.Sending.{open_link, transfer_of, frames}
use inf01151_trabalho_final.Commands.{handle_command}
use inf01151_trabalho_final.Commands.Delete.{Deleted}
use inf01151_trabalho_final.Commands.Samples.{session, ana, srv, serving, path, content}
use inf01151_trabalho_final.Client.{
  Console, fgets, word, scan_command, cut_newline, get_command, behind_slash, basename, delete,
  upload, run_command, console_turn,
}
use inf01151_trabalho_final.Client.Parsing.{get_command_lem}
use inf01151_trabalho_final.Client.Requests.{line, request, delete_typed}
use inf01151_trabalho_final.Client.Copy.{sync_upload_lem}

abbrev console : Bytes → List Event → Console
console stdin events = record {
  stdin = stdin;
  link = open_link [];
  events = events;
  fs = record { files = (codes "s/f", 5 ∷ []) ∷ []; writable = λ p. true };
  signal_shutdown = false;
}

two_words : get_command (codes "download   my file") ≡ some (codes "download", codes "my", [])
unfolding get_command fgets cut_newline scan_command word skip_space
two_words = refl

-- A command of more than twelve letters is cut, and the rest is its argument.
long_command :
    get_command (codes "get_sync_directory") ≡ some (codes "get_sync_dir", codes "ectory", [])
unfolding get_command fgets cut_newline scan_command word skip_space
long_command = refl

name_of_path : basename (codes "/home/ana/f") ≡ codes "f"
unfolding basename behind_slash
name_of_path = refl

abbrev deleting : Console
deleting = console (line (codes "delete") (codes "f") (codes "exit")) []

abbrev sent_bytes : Bytes
sent_bytes = 4 ∷ 0 ∷ 0 ∷ 0 ∷ 1 ∷ 0 ∷ 102 ∷ 0 ∷ 0 ∷ []

abbrev events : List Event
events = data_in sent_bytes ∷ []

events-IsStream : IsStream events
events-IsStream = (cc, tt)

sends_deletion : request [] (console_turn (codes "s") deleting) ≡ sent_bytes
unfolding delete console_turn get_command fgets cut_newline scan_command word skip_space run_command
    str_eq send_new send_packet create_packet transmit image to_le
sends_deletion = refl

sends : arriving events ≡ request [] (console_turn (codes "s") deleting) ++ []
sends = rw sends_deletion refl

delete_typed_example :
    (k' : Console) × (p : Packet) × (console_turn (codes "s") deleting ≡ done (true, k'))
    × (k'.stdin ≡ codes "exit")
    × (k'.fs ≡ deleting.fs)
    × ((read_packet events).0 ≡ packet p)
    × (arriving (read_packet events).1 ≡ [])
    × Deleted 0 0 session
        (codes "f")
        (codes "d/f")
        ana
        (open_link [])
        srv
        (handle_command 0 0 (codes "d") [] p (open_link []) srv)
delete_typed_example =
    delete_typed (codes "s") (codes "f") (codes "exit") [] [] deleting 0 0 session ana (codes "d")
      [] (codes "d/f") (7 ∷ 0 ∷ []) (open_link []) srv events refl refl (ground arith) (omega arith)
      serving path content events-IsStream sends

abbrev asked_bytes : Bytes
unfolding image to_le
asked_bytes = image (packet_of packet_download (codes "f"))

abbrev asking : List Event
asking = data_in asked_bytes ∷ []

abbrev answer_bytes : Bytes
unfolding transfer_of frames announcement to_le image packet_amount
answer_bytes = transfer_of (codes "f") (7 ∷ 0 ∷ [])

abbrev downloading : Console
downloading = console (line (codes "download") (codes "f") []) (data_in answer_bytes ∷ [])

own_file : content_of deleting.fs (codes "s" ++ b'/' ∷ codes "f") ≡ some (5 ∷ [])
unfolding lookup str_eq
own_file = refl

get_command_lem_example :
    get_command (line (codes "delete") (codes "f") (codes "exit"))
    ≡ some (codes "delete", codes "f", codes "exit")
get_command_lem_example =
    get_command_lem b'd' (codes "elete") (codes "f") (codes "exit") (ground arith) (ground arith)
      (omega arith) (omega arith) (omega arith)

-- A file of the synchronised folder that is uploaded is emptied.
emptied : content_of (upload (codes "s") (codes "s/f") deleting.fs).1 (codes "s/f") ≡ some []
emptied =
    (sync_upload_lem (codes "s") (codes "s") (codes "f") (5 ∷ []) deleting.fs (omega arith) own_file
      refl).1
    ∙ ap (λ b. some (if b then [] else 5 ∷ [])) (str_eq_refl (codes "s/f"))
