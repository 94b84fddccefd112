-- ===== src/Transfer/Tests.antt =====
-- Tests of the transfer of files, and its theorems at concrete inputs.
use inf01151_trabalho_final.Base.{
  ◌≡◌, refl, true, some, List, [], ◌∷◌, ◌++◌, arith, Bytes, codes, take, drop, to_le, str_eq,
}
use inf01151_trabalho_final.Files.{FileSystem, content_of, write_file, create_filepath, lookup}
use inf01151_trabalho_final.Packet.Socket.{Event, data_in}
use inf01151_trabalho_final.Packet.{Packet, packet, read_packet, image}
use inf01151_trabalho_final.Packet.Stream.{arriving, IsStream}
use inf01151_trabalho_final.Transfer.{
  done, handle_send_delete, send_file, announcement, packet_amount,
}
use inf01151_trabalho_final.Transfer.Sending.{open_link, transfer_of, frames, send_file_lem}
use inf01151_trabalho_final.Transfer.RoundTrip.{transfer_lem}

abbrev disk : FileSystem
disk = record { files = (codes "d/f", 7 ∷ 0 ∷ 9 ∷ []) ∷ []; writable = λ p. true }

abbrev wire : Bytes
unfolding transfer_of image to_le announcement packet_amount frames
wire = transfer_of (codes "f") (7 ∷ 0 ∷ 9 ∷ [])

abbrev cut : List Event
cut = data_in (take 5 wire) ∷ data_in (drop 5 wire) ∷ []

wire_bytes :
    wire
    ≡ 1 ∷ 0 ∷ 0 ∷ 0 ∷ 17 ∷ 0 ∷ 1 ∷ 0 ∷ 0 ∷ 0 ∷ 0 ∷ 0 ∷ 0 ∷ 0 ∷ 1 ∷ 0 ∷ 0 ∷ 0 ∷ 0 ∷ 0 ∷ 0 ∷ 0 ∷ 102
      ∷ 0 ∷ 0 ∷ 0 ∷ 0 ∷ 0 ∷ 0 ∷ 3 ∷ 0 ∷ 7 ∷ 0 ∷ 9 ∷ 0 ∷ 0 ∷ []
unfolding wire
wire_bytes = refl

disk_content : content_of disk (codes "d/f") ≡ some (7 ∷ 0 ∷ 9 ∷ [])
unfolding lookup str_eq
disk_content = refl

path_of_f : create_filepath (codes "d") (codes "f") ≡ some (codes "d/f")
unfolding create_filepath
path_of_f = refl

sample_sent : send_file (open_link []) (codes "f") (codes "d") disk ≡ some (open_link ([] ++ wire))
unfolding wire
sample_sent =
    send_file_lem (codes "f") (codes "d") (codes "d/f") (7 ∷ 0 ∷ 9 ∷ []) [] disk path_of_f
      disk_content (omega arith)

cut-IsStream : IsStream cut
unfolding wire
cut-IsStream = (cc, (cc, tt))

cut_arrives : arriving cut ≡ wire ++ []
unfolding wire
cut_arrives = refl

transfer_lem_example :
    (p : Packet) × (left : List Event) × (p.type ≡ 1)
    × ((read_packet cut).0 ≡ packet p)
    × (handle_send_delete p (codes "d") disk (read_packet cut).1
        ≡ done (some (codes "f"), write_file disk (codes "d/f") (7 ∷ 0 ∷ 9 ∷ []), left))
    × (arriving left ≡ [])
    × IsStream left
transfer_lem_example =
    transfer_lem (codes "f") (codes "d") (codes "d/f") (7 ∷ 0 ∷ 9 ∷ []) [] wire (codes "d")
      (codes "d/f") [] disk disk cut path_of_f disk_content (omega arith) (omega arith) path_of_f
      refl sample_sent cut-IsStream cut_arrives
