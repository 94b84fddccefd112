-- ===== src/Sender/Tests.antt =====
-- Tests of the sending thread, and its theorem at a concrete input.
use inf01151_trabalho_final.Base.{◌≡◌, refl, true, [], ◌∷◌, ◌++◌, Bytes, codes}
use inf01151_trabalho_final.Files.{FileSystem}
use inf01151_trabalho_final.Packet.{packet_delete, image}
use inf01151_trabalho_final.Packet.Framing.{packet_of}
use inf01151_trabalho_final.Transfer.{waiting}
use inf01151_trabalho_final.Transfer.Sending.{open_link, transfer_of}
use inf01151_trabalho_final.SyncBuffer.{
  FileEntry, FileSyncBuffer, file_entry_send, file_entry_delete, invalid, entry_for,
  get_next_file_to_sync,
}
use inf01151_trabalho_final.Sender.{send_turn}

abbrev disk : FileSystem
disk = record { files = (codes "d/f", 7 ∷ 0 ∷ 9 ∷ []) ∷ []; writable = λ p. true }

abbrev upload_of_a : FileEntry
upload_of_a = entry_for (codes "ana") 1 (codes "f") file_entry_send

abbrev deletion : FileEntry
deletion = entry_for (codes "ana") 1 (codes "g") file_entry_delete

-- Two entries, at the last place of the array and at the first.
abbrev queue : FileSyncBuffer
queue = record {
  buffer =
      deletion ∷ invalid ∷ invalid ∷ invalid ∷ invalid ∷ invalid ∷ invalid ∷ invalid ∷ invalid
      ∷ upload_of_a ∷ [];
  start = 9;
  end = 1;
  count = 2;
}

idle : send_turn disk (codes "d") true (record queue { count = 0 }) (open_link []) ≡ waiting
unfolding send_turn get_next_file_to_sync
idle = refl

abbrev wire : Bytes
wire =
    transfer_of (codes "f") (7 ∷ 0 ∷ 9 ∷ []) ++ (image (packet_of packet_delete (codes "g")) ++ [])
