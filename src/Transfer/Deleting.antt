-- ===== src/Transfer/Deleting.antt =====
-- A packet of a deletion arrives: `handle_send_delete` of src/util/communication.c on PACKET_DELETE.
use inf01151_trabalho_final.Base.{
  ◌^◌, ◌<◌, ◌≡◌, refl, ap, ◌∙◌, none, some, List, [], ◌∷◌, ◌++◌, Bytes, Lacks, length, take-append,
  c_string, c_string_all,
}
use inf01151_trabalho_final.Files.{FileSystem, remove_file, create_filepath}
use inf01151_trabalho_final.Packet.Socket.{Event}
use inf01151_trabalho_final.Packet.Stream.{arriving, IsStream}
use inf01151_trabalho_final.Packet.{packet, packet_delete, read_packet, image, payload}
use inf01151_trabalho_final.Packet.Framing.{packet_of, packet_of-IsPacket, read_packet-image}
use inf01151_trabalho_final.Transfer.{done, delete_file, handle_send_delete}

-- The bytes of a deletion.
abbrev pub deletion_of : Bytes → Bytes
deletion_of filename = image (packet_of packet_delete filename)

pub handle_deletion :
    (sync_dir_path filename saved_path : Bytes) (fs : FileSystem) (events : List Event)
    → Lacks 0 filename
    → create_filepath sync_dir_path filename ≡ some saved_path
    → handle_send_delete (packet_of packet_delete filename) sync_dir_path fs events
      ≡ done (some filename, remove_file fs saved_path, events)
unfolding handle_send_delete delete_file
handle_deletion sync_dir_path filename saved_path fs events z hs =
    let name : c_string (payload (packet_of packet_delete filename)) ≡ filename =
      ap c_string (take-append filename (0 ∷ 0 ∷ [])) ∙ c_string_all filename z in
    let deleted = λ (n : Bytes).
      elim (create_filepath sync_dir_path n) as (λ _. Bytes × FileSystem) [
        | none ↦ (n, fs)
        | some path ↦ (n, remove_file fs path)
      ] in
    ap (λ n. done (some (deleted n).0, (deleted n).1, events)) name ∙ rw hs refl

-- A deletion in front of a stream is read as its packet, and takes the file off the disk.
pub deletion_arrives :
    (sync_dir_path filename saved_path after : Bytes) (fs : FileSystem) (events : List Event)
    → Lacks 0 filename
    → length filename < 2 ^ 16
    → create_filepath sync_dir_path filename ≡ some saved_path
    → IsStream events
    → arriving events ≡ deletion_of filename ++ after
    → ((read_packet events).0 ≡ packet (packet_of packet_delete filename))
      × (handle_send_delete
            (packet_of packet_delete filename)
            sync_dir_path
            fs
            (read_packet events).1
          ≡ done (some filename, remove_file fs saved_path, (read_packet events).1))
      × (arriving (read_packet events).1 ≡ after)
      × IsStream (read_packet events).1
deletion_arrives sync_dir_path filename saved_path after fs events z fits hs s arrives =
    let (read, behind, stream) =
      read_packet-image (packet_of packet_delete filename) after events
        (packet_of-IsPacket packet_delete filename fits) s arrives in
    (
      read,
      handle_deletion sync_dir_path filename saved_path fs (read_packet events).1 z hs,
      behind,
      stream,
    )
