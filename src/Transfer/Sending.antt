-- ===== src/Transfer/Sending.antt =====
-- What `send_file` of src/util/communication.c puts on a connection that takes every packet.
use native.Mathlib.Decide.{dec_lt}
use inf01151_trabalho_final.Base.{
  ℕ, zero, suc, ◌+◌, ◌-◌, ◌*◌, ◌^◌, ◌≤◌, ◌<◌, ◌≡◌, refl, ◌∙◌, ap, false, some, [], ◌++◌,
  append_assoc, append-nil, arith, Bytes, length, take, drop, length-take, length-drop,
  length-append, lt→ltb, le→ltb, eqb_ne, ◌==◌, to_le, length-to_le,
}
use inf01151_trabalho_final.Files.{FileSystem, content_of, create_filepath}
use inf01151_trabalho_final.Packet.Socket.{Link, transmit}
use inf01151_trabalho_final.Packet.{PacketTypes, packet_data, packet_send, ok, send_packet, image}
use inf01151_trabalho_final.Packet.Framing.{packet_of, create_packet_lem}
use inf01151_trabalho_final.Transfer.{
  file_chunk_size, send_new, packet_amount, through_int, announcement, send_chunks, send_content,
  send_file,
}

-- A connection whose calls of `send` all succeed.
abbrev pub open_link : Bytes → Link
open_link out = record { outcomes = []; out = out }

pub send_new_lem :
    (out : Bytes) (type : PacketTypes) (bytes : Bytes)
    → length bytes < 2 ^ 16
    → send_new (open_link out) type bytes ≡ (ok, open_link (out ++ image (packet_of type bytes)))
unfolding send_new send_packet transmit
send_new_lem out type bytes h = rw (create_packet_lem type bytes h)

-- `n` data packets of a content, each but the last of 1000 bytes.
unfoldable pub frames : ℕ → Bytes → Bytes
frames zero content = []
frames (suc n) content =
    image (packet_of packet_data (take file_chunk_size content))
    ++ frames n (drop file_chunk_size content)

pub packet_amount-zero : packet_amount 0 ≡ 0
unfolding packet_amount
packet_amount-zero = refl

-- Each packet takes up to 1000 bytes off what is left.
pub packet_amount-pos :
    (n : ℕ) → 0 < n → packet_amount n ≡ suc (packet_amount (n - file_chunk_size))
unfolding packet_amount
packet_amount-pos n h = ground arith

module _ (fuel : ℕ) (rest out : Bytes) where
  -- The first chunk of what is left, as it is sent.
  abbrev first : Bytes
  first = image (packet_of packet_data (take file_chunk_size rest))

  chunk-lt : length (take file_chunk_size rest) < 2 ^ 16
  chunk-lt = omega (arith, length-take file_chunk_size rest)

  sent_first :
      send_new (open_link out) packet_data (take file_chunk_size rest)
      ≡ (ok, open_link (out ++ first))
  sent_first = send_new_lem out packet_data (take file_chunk_size rest) chunk-lt

  chunk_ne_zero : 0 < length rest → (length (take file_chunk_size rest) == 0) ≡ false
  chunk_ne_zero pos = eqb_ne (omega (arith, length-take file_chunk_size rest))

  send_chunks_last :
      0 < length rest
      → length rest < file_chunk_size
      → send_chunks (suc fuel) rest (open_link out) ≡ some (open_link (out ++ first))
  unfolding send_chunks
  send_chunks_last pos short =
      let last =
        lt→ltb (length (take file_chunk_size rest)) file_chunk_size
          (omega (arith, length-take file_chunk_size rest)) in
      rw (chunk_ne_zero pos, ap (λ r. r.0) sent_first, send_chunks)
        (rw last (ap (λ r. some r.1) sent_first))

  send_chunks_more :
      file_chunk_size ≤ length rest
      → send_chunks (suc fuel) rest (open_link out)
        ≡ send_chunks fuel (drop file_chunk_size rest) (open_link (out ++ first))
  unfolding send_chunks
  send_chunks_more long =
      let full =
        le→ltb (length (take file_chunk_size rest)) file_chunk_size
          (omega (arith, length-take file_chunk_size rest)) in
      rw (chunk_ne_zero (omega arith), ap (λ r. r.0) sent_first, send_chunks)
        (rw full (ap (λ r. send_chunks fuel (drop file_chunk_size rest) r.1) sent_first))

  send_chunks_end :
      length rest ≡ 0 → send_chunks (suc fuel) rest (open_link out) ≡ some (open_link out)
  unfolding send_chunks
  send_chunks_end empty =
      let size : length (take file_chunk_size rest) ≡ 0 =
        omega (arith, length-take file_chunk_size rest) in
      rw (size, send_chunks)

pub frames-pos :
    (content : Bytes)
    → 0 < length content
    → frames (packet_amount (length content)) content
      ≡ image (packet_of packet_data (take file_chunk_size content))
        ++ frames
            (packet_amount (length (drop file_chunk_size content)))
            (drop file_chunk_size content)
unfolding frames
frames-pos content pos =
    rw (packet_amount-pos (length content) pos, length-drop file_chunk_size content)

pub frames-short :
    (content : Bytes) → length content ≤ 0 → frames (packet_amount (length content)) content ≡ []
unfolding frames
frames-short content h =
    let empty : length content ≡ 0 = omega arith in rw (empty, packet_amount-zero)

send_chunks-frames :
    (fuel : ℕ) (rest out : Bytes)
    → length rest < fuel
    → send_chunks fuel rest (open_link out)
      ≡ some (open_link (out ++ frames (packet_amount (length rest)) rest))
send_chunks-frames zero rest out h = absurd (omega arith)
send_chunks-frames (suc fuel) rest out h = elim (dec_lt 0 (length rest)) [
  | no empty ↦
      rw (frames-short rest (omega arith), append-nil) (send_chunks_end fuel rest out (omega arith))
  | yes pos ↦ elim (dec_lt (length rest) file_chunk_size) [
    | yes short ↦
        rw
          (
            frames-pos rest pos,
            frames-short (drop file_chunk_size rest)
                (omega (arith, length-drop file_chunk_size rest)),
            append-nil,
          )
          (send_chunks_last fuel rest out pos short)
    | no long ↦
        rw (frames-pos rest pos, ← append_assoc)
          (send_chunks_more fuel rest out (omega arith)
            ∙ send_chunks-frames fuel (drop file_chunk_size rest) _
                (omega (arith, length-drop file_chunk_size rest)))
  ]
]

through_int_lem : (n : ℕ) → n < 2 ^ 31 → through_int n ≡ n
through_int_lem n h = ground arith

-- What a transfer of a file is on the wire: its announcement, and its content in data packets.
unfoldable pub transfer_of : Bytes → Bytes → Bytes
transfer_of filename content =
    image (packet_of packet_send (announcement (packet_amount (length content)) filename))
    ++ frames (packet_amount (length content)) content

-- The sizes that the formats have room for.
pub record Fits (filename content : Bytes) : Type 0 where
  pub name_fits : length filename + 16 < 2 ^ 16
  pub content_fits : length content ≤ 1000 * (2 ^ 31 - 1)

pub length-announcement :
    (n : ℕ) (filename : Bytes) → length (announcement n filename) ≡ 16 + length filename
unfolding announcement to_le
length-announcement n filename = omega (
  arith,
  length-append (to_le 8 n) (to_le 8 (length filename) ++ filename),
  length-append (to_le 8 (length filename)) filename,
  length-to_le 8 n,
  length-to_le 8 (length filename),
)

pub packet_amount-lt : (n : ℕ) → n ≤ 1000 * (2 ^ 31 - 1) → packet_amount n < 2 ^ 31
unfolding packet_amount
packet_amount-lt n h = ground arith

send_content_lem :
    (filename content out : Bytes)
    → Fits filename content
    → send_content (open_link out) filename content
      ≡ some (open_link (out ++ transfer_of filename content))
unfolding send_content transfer_of
send_content_lem filename content out h =
    let amount = packet_amount (length content) in
    let stored = through_int amount in
    let exact = through_int_lem amount (packet_amount-lt (length content) h.content_fits) in
    let announced = image (packet_of packet_send (announcement amount filename)) in
    let first_sent =
      send_new_lem out packet_send (announcement stored filename)
        (omega (arith, h.name_fits, length-announcement stored filename)) in
    rw (ap (λ r. r.0) first_sent, send_content)
      (ap (λ r. send_chunks (suc (length content)) content r.1) first_sent
        ∙ ap
            (λ n.
              send_chunks (suc (length content)) content
                (open_link (out ++ image (packet_of packet_send (announcement n filename)))))
            exact
        ∙ send_chunks-frames (suc (length content)) content (out ++ announced) (omega arith)
        ∙ ap (λ t. some (open_link t)) (append_assoc out announced (frames amount content)))

-- `send_file` of a file that is there, over a connection that takes every packet, always comes to its
-- end and sends the announcement followed by the content in data packets, as many as announced.
pub send_file_lem :
    (filename basepath filepath content out : Bytes) (fs : FileSystem)
    → create_filepath basepath filename ≡ some filepath
    → content_of fs filepath ≡ some content
    → Fits filename content
    → send_file (open_link out) filename basepath fs
      ≡ some (open_link (out ++ transfer_of filename content))
unfolding send_file
send_file_lem filename basepath filepath content out fs hp hc h =
    rw (hp, hc, send_file) (send_content_lem filename content out h)
