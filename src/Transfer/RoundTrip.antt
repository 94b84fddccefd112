-- ===== src/Transfer/RoundTrip.antt =====
-- A file that `send_file` of src/util/communication.c sends arrives whole.
use inf01151_trabalho_final.Base.{
  ℕ, ◌+◌, ◌^◌, ◌≤◌, ◌<◌, ◌≡◌, ◌≢◌, refl, ◌∙◌, sym, ap, true, Option, none, some, List, [], ◌∷◌,
  ◌++◌, append_assoc, arith, Bytes, length, take, drop, length-append, ◌==◌, to_le, take-append,
  drop-append, from_le, from_le-to_le, eqb_ne, le→ltb, c_string, c_string_all, Lacks,
}
use inf01151_trabalho_final.Files.{FileSystem, content_of, write_file, create_filepath}
use inf01151_trabalho_final.Packet.Socket.{Event, Link}
use inf01151_trabalho_final.Packet.{Packet, packet_send, packet, read_packet, image}
use inf01151_trabalho_final.Packet.Stream.{arriving, IsStream}
use inf01151_trabalho_final.Packet.Framing.{packet_of, packet_of-IsPacket, read_packet-image}
use inf01151_trabalho_final.Transfer.{
  done, ◌>>=◌, packet_amount, announcement, write_packets, write_packets_to_file, receive_file,
  handle_send_delete, send_file,
}
use inf01151_trabalho_final.Transfer.Sending.{
  open_link, frames, Fits, transfer_of, length-announcement, packet_amount-lt, send_file_lem,
}
use inf01151_trabalho_final.Transfer.Receiving.{write_packets-frames}

-- The fields that `receive_file` finds in an announcement.
announcement_fields :
    (num : ℕ) (filename : Bytes)
    → num < 2 ^ 64
    → length filename < 2 ^ 64
    → let body = announcement num filename ++ 0 ∷ 0 ∷ [] in
      (from_le (take 8 body) ≡ num)
      × (from_le (take 8 (drop 8 body)) ≡ length filename)
      × (take (length filename) (drop 16 body) ≡ filename)
unfolding announcement to_le
announcement_fields num filename hn hl = (
  from_le-to_le 8 num hn,
  from_le-to_le 8 (length filename) hl,
  take-append filename (0 ∷ 0 ∷ []),
)

receive_file_step :
    (p : Packet) (num size : ℕ) (filename path : Bytes) (fs : FileSystem) (events : List Event)
    → from_le (take 8 p.body) ≡ num
    → from_le (take 8 (drop 8 p.body)) ≡ size
    → c_string (take size (drop 16 p.body)) ≡ filename
    → 16 + size ≤ length p.body
    → receive_file p path fs events ≡ (
        write_packets_to_file (create_filepath path filename) num fs events >>= λ r.
        done (filename, r.0, r.1))
unfolding receive_file
receive_file_step p num size filename path fs events hn hs hf hl =
    rw (hs, le→ltb (length p.body) (16 + size) hl, hf, hn, receive_file)

write_packets_to_file_step :
    (filepath content : Bytes) (num : ℕ) (fs : FileSystem) (events left : List Event)
    → fs.writable filepath ≡ true
    → write_packets num [] events ≡ done (content, left)
    → write_packets_to_file (some filepath) num fs events
      ≡ done (write_file fs filepath content, left)
unfolding write_packets_to_file
write_packets_to_file_step filepath content num fs events left hw e =
    rw (hw, e, write_packets_to_file)

handle_send_step :
    (p : Packet) (path filename : Bytes) (fs fs' : FileSystem) (events left : List Event)
    → p.type ≡ 1
    → p.length ≢ 0
    → receive_file p path fs events ≡ done (filename, fs', left)
    → handle_send_delete p path fs events ≡ done (some filename, fs', left)
unfolding handle_send_delete
handle_send_step p path filename fs fs' events left ht hl e =
    rw (ap (λ t. t == 1) ht, eqb_ne hl, e, handle_send_delete)

-- The announcement as the peer handles it, once it is read.
announced :
    (filename content path saved_path after : Bytes) (fs : FileSystem) (events : List Event)
    → Fits filename content
    → Lacks 0 filename
    → create_filepath path filename ≡ some saved_path
    → fs.writable saved_path ≡ true
    → IsStream events
    → arriving events ≡ frames (packet_amount (length content)) content ++ after
    → let p = packet_of packet_send (announcement (packet_amount (length content)) filename) in
      (left : List Event) × (handle_send_delete p path fs events
        ≡ done (some filename, write_file fs saved_path content, left))
      × (arriving left ≡ after)
      × IsStream left
announced filename content path saved_path after fs events fits no_nul hp hw s e =
    let amount = packet_amount (length content) in
    let p = packet_of packet_send (announcement amount filename) in
    let small = packet_amount-lt (length content) fits.content_fits in
    let size = length-announcement amount filename in
    let f =
      announcement_fields amount filename (omega (arith, small)) (omega (arith, fits.name_fits)) in
    let written = write_packets-frames (length content) content [] after events (omega arith) s e in
    let nonempty : length (announcement amount filename) ≢ 0 = omega (arith, size) in
    let received =
      receive_file_step p amount (length filename) filename path fs events f.0 f.1
        (ap c_string f.2 ∙ c_string_all filename no_nul)
        (omega (arith, size, length-append (announcement amount filename) (0 ∷ 0 ∷ [])))
      ∙ rw hp (
          rw (
            write_packets_to_file_step saved_path content amount fs events written.left hw
              written.result)) in
    (
      written.left,
      handle_send_step p path filename fs (write_file fs saved_path content) events written.left
          refl nonempty received,
      written.rest,
      written.stream,
    )

-- What was added to a connection.
abbrev added : Bytes → Option Link → Bytes
added out none = []
added out (some link) = drop (length out) link.out

-- A file of any content that `send_file` sends over a connection that takes every packet, and that a
-- peer receives with `read_packet` and `handle_send_delete`, is written at the peer's path with the
-- same name and exactly the same content, and what follows on the stream is left untouched, however
-- the stream is cut into reads.
pub transfer_lem :
    (filename basepath sent_path content out bytes path saved_path after : Bytes)
    (from to : FileSystem) (events : List Event)
    → create_filepath basepath filename ≡ some sent_path
    → content_of from sent_path ≡ some content
    → Fits filename content
    → Lacks 0 filename
    → create_filepath path filename ≡ some saved_path
    → to.writable saved_path ≡ true
    → send_file (open_link out) filename basepath from ≡ some (open_link (out ++ bytes))
    → IsStream events
    → arriving events ≡ bytes ++ after
    → (p : Packet) × (left : List Event) × (p.type ≡ 1)
      × ((read_packet events).0 ≡ packet p)
      × (handle_send_delete p path to (read_packet events).1
          ≡ done (some filename, write_file to saved_path content, left))
      × (arriving left ≡ after)
      × IsStream left
unfolding transfer_of
transfer_lem filename basepath sent_path content out bytes path saved_path after from to events hp
      hc fits no_nul hp' hw sends s e =
    let amount = packet_amount (length content) in
    let p = packet_of packet_send (announcement amount filename) in
    let tail = frames amount content in
    let same : bytes ≡ image p ++ tail =
      sym (drop-append out bytes)
      ∙ ap (added out)
          (sym sends ∙ send_file_lem filename basepath sent_path content out from hp hc fits)
      ∙ drop-append out (image p ++ tail) in
    let (result, rest, stream) =
      read_packet-image p (tail ++ after) events
        (packet_of-IsPacket packet_send (announcement amount filename)
          (omega (arith, fits.name_fits, length-announcement amount filename)))
        s (e ∙ ap (λ t. t ++ after) same ∙ append_assoc (image p) tail after) in
    let (left, handled, behind, still) =
      announced filename content path saved_path after to (read_packet events).1 fits no_nul hp' hw
        stream rest in
    (p, left, refl, result, handled, behind, still)
