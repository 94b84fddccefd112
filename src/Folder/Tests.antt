-- ===== src/Folder/Tests.antt =====
-- Tests of the synchronised folder, and its theorems at concrete inputs.
use inf01151_trabalho_final.Base.{
  ◌≡◌, refl, ap, sym, ◌∙◌, some, true, List, [], ◌∷◌, ◌++◌, Bytes, codes, str_eq, arith, to_le,
}
use inf01151_trabalho_final.Files.{
  FileSystem, content_of, lookup, create_filepath, write_file, remove_file,
}
use inf01151_trabalho_final.Packet.Socket.{Event, Link, data_in}
use inf01151_trabalho_final.Packet.{packet_delete, image}
use inf01151_trabalho_final.Packet.Framing.{packet_of}
use inf01151_trabalho_final.Packet.Stream.{arriving, IsStream}
use inf01151_trabalho_final.Transfer.{done, announcement, packet_amount}
use inf01151_trabalho_final.Transfer.Sending.{open_link, transfer_of, frames}
use inf01151_trabalho_final.SyncBuffer.{
  FileEntry, FileSyncBuffer, file_entry_send, file_entry_delete, invalid, entry_for,
}
use inf01151_trabalho_final.SyncBuffer.Refine.{IsValid, contents}
use inf01151_trabalho_final.Sender.{send_turns}
use inf01151_trabalho_final.Sender.Drain.{send_turns_lem}
use inf01151_trabalho_final.Folder.{InotifyEvent, watch_events, receiver_turns}
use inf01151_trabalho_final.Folder.Arriving.{
  Delivers, arrived, stores, removes, Delivers-AreSent, sent_by, synchronised_lem,
}
use inf01151_trabalho_final.Folder.Watching.{
  Watches, none_left, ignored, written, deleted, watch_events_lem,
}

abbrev content : Bytes
content = 7 ∷ 0 ∷ 9 ∷ []

abbrev disk : FileSystem
disk = record { files = (codes "d/f", content) ∷ []; writable = λ p. true }

abbrev folder : FileSystem
folder = record { files = (codes "s/g", []) ∷ []; writable = λ p. true }

abbrev storing : FileEntry
storing = entry_for (codes "ana") 1 (codes "f") file_entry_send

abbrev removing : FileEntry
removing = entry_for (codes "ana") 1 (codes "g") file_entry_delete

abbrev queue : FileSyncBuffer
queue = record {
  buffer =
      removing ∷ invalid ∷ invalid ∷ invalid ∷ invalid ∷ invalid ∷ invalid ∷ invalid ∷ invalid
      ∷ storing ∷ [];
  start = 9;
  end = 1;
  count = 2;
}

queue-IsValid : IsValid queue
queue-IsValid = omega arith

server_path : create_filepath (codes "d") (codes "f") ≡ some (codes "d/f")
unfolding create_filepath
server_path = refl

client_path : create_filepath (codes "s") (codes "f") ≡ some (codes "s/f")
unfolding create_filepath
client_path = refl

removed_path : create_filepath (codes "s") (codes "g") ≡ some (codes "s/g")
unfolding create_filepath
removed_path = refl

server_content : content_of disk (codes "d/f") ≡ some content
unfolding lookup str_eq
server_content = refl

abbrev folder_after : FileSystem
folder_after = remove_file (write_file folder (codes "s/f") content) (codes "s/g")

abbrev wire : Bytes
wire = transfer_of (codes "f") content ++ (image (packet_of packet_delete (codes "g")) ++ [])

delivers : Delivers disk (codes "d") (codes "s") (storing ∷ removing ∷ []) wire folder folder_after
delivers =
    stores storing (codes "f") (codes "d/f") content (codes "s/f") refl refl refl (omega arith)
      server_path server_content (omega arith) client_path refl
      (removes removing (codes "g") (codes "s/g") refl refl refl (omega arith) (omega arith)
        removed_path (arrived refl))

abbrev wire_bytes : Bytes
unfolding transfer_of frames announcement to_le image packet_amount
wire_bytes = wire

abbrev events : List Event
events = data_in wire_bytes ∷ []

events-IsStream : IsStream events
unfolding wire_bytes
events-IsStream = (cc, tt)

wire_there : arriving events ≡ wire ++ []
unfolding wire_bytes transfer_of frames announcement to_le image packet_amount
wire_there = refl

sends : sent_by [] (send_turns 2 disk (codes "d") queue (open_link [])) ≡ wire
sends =
    ap (sent_by [])
      (send_turns_lem disk (codes "d") (storing ∷ removing ∷ []) wire [] queue queue-IsValid refl
        (Delivers-AreSent disk (codes "d") (codes "s") delivers)).1

synchronised_lem_example :
    (b' : FileSyncBuffer) × (link : Link) × (left : List Event) × (send_turns 2 disk
        (codes "d")
        queue
        (open_link [])
      ≡ done (b', link))
    × (contents b' ≡ [])
    × (receiver_turns 2 (codes "s") events folder ≡ done (folder_after, left))
    × (arriving left ≡ [])
synchronised_lem_example =
    synchronised_lem disk (codes "d") (codes "s") (storing ∷ removing ∷ []) wire [] [] queue folder
      folder_after events queue-IsValid refl delivers events-IsStream
      (wire_there ∙ ap (λ t. t ++ []) (sym sends))

-- A deletion that is the second event of a buffer is sent after 32 seconds.
abbrev created : InotifyEvent
created = record { mask = 256; len = 16; name = codes "f" }

abbrev deleted_g : InotifyEvent
deleted_g = record { mask = 512; len = 16; name = codes "g" }

abbrev accessed : InotifyEvent
accessed = record { mask = 1; len = 16; name = codes "h" }

watches :
    Watches (codes "d") 0 ((created, disk) ∷ (deleted_g, disk) ∷ (accessed, disk) ∷ []) wire 33
watches =
    written created disk (codes "d/f") content refl refl server_path server_content (omega arith)
      (deleted deleted_g disk refl refl (omega arith) (ignored accessed disk refl refl none_left))

watch_events_lem_example :
    watch_events
      (codes "d")
      0
      ((created, disk) ∷ (deleted_g, disk) ∷ (accessed, disk) ∷ [])
      (record { link = open_link []; slept = 0 })
    ≡ some (record { link = open_link ([] ++ wire); slept = 33 })
watch_events_lem_example = watch_events_lem (codes "d") [] 0 watches
