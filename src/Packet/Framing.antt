-- ===== src/Packet/Framing.antt =====
-- How `read_packet` of src/util/communication.c cuts packets out of a byte stream.
use inf01151_trabalho_final.Base.{
  ℕ, ◌+◌, ◌^◌, ◌<◌, ◌≡◌, refl, ◌∙◌, sym, ap, ap₂, some, List, [], ◌∷◌, ◌++◌, append_assoc, arith,
  Bytes, length, take, drop, length-append, take-append, drop-append, take_all, to_le, from_le,
  from_le-to_le, c_string, c_string-zero, Lacks,
}
use inf01151_trabalho_final.Packet.Socket.{Event, recv, complete}
use inf01151_trabalho_final.Packet.Stream.{arriving, IsStream, recv-Filled}
use inf01151_trabalho_final.Packet.{
  Packet, Read, packet, image, read_packet, read_body, payload, create_packet, PacketTypes,
  type_code,
}

-- A packet that `create_packet` can make, or a peer can send: the fields fit the struct.
pub record IsPacket (p : Packet) : Type 0 where
  pub type_fits : p.type < 2 ^ 32
  pub length_fits : p.length < 2 ^ 16
  pub body_size : length p.body ≡ p.length + 2

type_code-lt : (type : PacketTypes) → type_code type < 2 ^ 32
type_code-lt type = ground arith

-- What a call of `read_packet` on a stream that begins with a packet returns and leaves.
record ReadsPacket (p : Packet) (after : Bytes) (r : Read × List Event) : Type 0 where
  pub result : r.0 ≡ packet p
  pub rest : arriving r.1 ≡ after
  pub stream : IsStream r.1

read_body_step :
    (header bytes : Bytes) (size : ℕ) (events : List Event)
    → from_le (take 2 (drop 4 header)) ≡ size
    → (recv size [] events).0 ≡ complete bytes
    → read_body header events ≡ (
      packet
          (record { type = from_le (take 4 header); length = size; body = drop 6 header ++ bytes }),
      (recv size [] events).1,
    )
unfolding read_body
read_body_step header bytes size events hs e =
    let e' : (recv (from_le (take 2 (drop 4 header))) [] events).0 ≡ complete bytes = rw hs e in
    rw (e', read_body) (rw hs)

read_packet_step :
    (header : Bytes) (events : List Event)
    → (recv 8 [] events).0 ≡ complete header
    → read_packet events ≡ read_body header (recv 8 [] events).1
unfolding read_packet
read_packet_step header events e = rw (e, read_packet)

read_body_lem :
    (header tail after : Bytes) (size : ℕ) (events : List Event)
    → from_le (take 2 (drop 4 header)) ≡ size
    → size ≡ length tail
    → IsStream events
    → arriving events ≡ tail ++ after
    → ReadsPacket
        (record { type = from_le (take 4 header); length = size; body = drop 6 header ++ tail })
        after
        (read_body header events)
read_body_lem header tail after size events hs hl s e =
    let filled =
      recv-Filled size [] events s (omega (arith, ap length e, length-append tail after)) in
    let tail_read = filled.outcome ∙ ap complete (rw (e, hl) (take-append tail after)) in
    rw (read_body_step header tail size events hs tail_read) (record {
      result = refl;
      rest = filled.rest ∙ rw (e, hl) (drop-append tail after);
      stream = filled.stream;
    })

-- The header's eight bytes hold the two fields and the first two bytes of the body.
header_of : ℕ → ℕ → ℕ → ℕ → Bytes
header_of type size b c = to_le 4 type ++ to_le 2 size ++ b ∷ c ∷ []

header_fields :
    (type size b c : ℕ)
    → type < 2 ^ 32
    → size < 2 ^ 16
    → (from_le (take 4 (header_of type size b c)) ≡ type)
      × (from_le (take 2 (drop 4 (header_of type size b c))) ≡ size)
      × (drop 6 (header_of type size b c) ≡ b ∷ c ∷ [])
      × (length (header_of type size b c) ≡ 8)
unfolding header_of to_le
header_fields type size b c ht hs =
    (unfold to_le in from_le-to_le 4 type ht, unfold to_le in from_le-to_le 2 size hs, refl, refl)

image-header :
    (type size b c : ℕ) (tail : Bytes)
    → image (record { type = type; length = size; body = b ∷ c ∷ tail })
      ≡ header_of type size b c ++ tail
unfolding image header_of
image-header type size b c tail = simp append_assoc

reads_from :
    (type size b c : ℕ) (tail after : Bytes) (events : List Event)
    → type < 2 ^ 32
    → size < 2 ^ 16
    → size ≡ length tail
    → IsStream events
    → arriving events ≡ image (record { type = type; length = size; body = b ∷ c ∷ tail }) ++ after
    → ReadsPacket
        (record { type = type; length = size; body = b ∷ c ∷ tail })
        after
        (read_packet events)
reads_from type size b c tail after events ht hs hl s e =
    let header = header_of type size b c in
    let (type_at, size_at, body_at, eight) = header_fields type size b c ht hs in
    let joined =
      e ∙ ap (λ t. t ++ after) (image-header type size b c tail) ∙ append_assoc header tail after in
    let filled =
      recv-Filled 8 [] events s
        (omega (arith, ap length joined, eight, length-append header (tail ++ after))) in
    let header_read =
      filled.outcome ∙ ap complete (rw (joined, ← eight) (take-append header (tail ++ after))) in
    let then_body =
      read_body_lem header tail after size (recv 8 [] events).1 size_at hl filled.stream
        (filled.rest ∙ rw (joined, ← eight) (drop-append header (tail ++ after))) in
    let made = ap₂ (λ t d. record { type = t; length = size; body = d ++ tail }) type_at body_at in
    rw (read_packet_step header events header_read) (record {
      result = then_body.result ∙ ap packet made;
      rest = then_body.rest;
      stream = then_body.stream;
    })

-- However the kernel cuts the stream into reads, a stream that begins with the bytes of a packet is
-- read as that packet, and exactly the bytes behind it are left.
pub read_packet-image :
    (p : Packet) (after : Bytes) (events : List Event)
    → IsPacket p
    → IsStream events
    → arriving events ≡ image p ++ after
    → ((read_packet events).0 ≡ packet p)
      × (arriving (read_packet events).1 ≡ after)
      × IsStream (read_packet events).1
read_packet-image p after events h s e = by_body p.body refl
  where
    by_body :
        (body : Bytes)
        → p.body ≡ body
        → ((read_packet events).0 ≡ packet p)
          × (arriving (read_packet events).1 ≡ after)
          × IsStream (read_packet events).1
    by_body [] q = absurd (omega (arith, h.body_size, ap length q))
    by_body (b ∷ []) q = absurd (omega (arith, h.body_size, ap length q))
    by_body (b ∷ c ∷ tail) q =
        let same = ap (λ body. record p { body = body }) q in
        let r =
          reads_from p.type p.length b c tail after events h.type_fits h.length_fits
            (omega (arith, h.body_size, ap length q)) s (e ∙ ap (λ x. image x ++ after) same) in
        (r.result ∙ ap packet (sym same), r.rest, r.stream)

-- The packet of a payload of its own length.
abbrev pub packet_of : PacketTypes → Bytes → Packet
packet_of type bytes = record {
  type = type_code type;
  length = length bytes;
  body = bytes ++ 0 ∷ 0 ∷ [];
}

pub create_packet_lem :
    (type : PacketTypes) (bytes : Bytes)
    → length bytes < 2 ^ 16
    → create_packet type (length bytes) (some bytes) ≡ some (packet_of type bytes)
unfolding create_packet
create_packet_lem type [] h = refl
create_packet_lem type (b ∷ bytes) h = ground (arith, take_all (length (b ∷ bytes)) (b ∷ bytes))

pub packet_of-IsPacket :
    (type : PacketTypes) (bytes : Bytes) → length bytes < 2 ^ 16 → IsPacket (packet_of type bytes)
packet_of-IsPacket type bytes h = omega (arith, type_code-lt type, length-append bytes (0 ∷ 0 ∷ []))

-- A text that is sent as a payload of its own length is read back by the peer as the same C string,
-- although no NUL is sent as part of the payload and however the stream is cut into reads: the
-- struct's padding puts two zero bytes behind the payload.
pub read_packet-text :
    (type : PacketTypes) (text after : Bytes) {p : Packet} (events : List Event)
    → length text < 2 ^ 16
    → Lacks 0 text
    → create_packet type (length text) (some text) ≡ some p
    → IsStream events
    → arriving events ≡ image p ++ after
    → ((read_packet events).0 ≡ packet p)
      × (arriving (read_packet events).1 ≡ after)
      × (p.type ≡ type_code type)
      × (payload p ≡ text)
      × (c_string p.body ≡ text)
      × IsStream (read_packet events).1
read_packet-text type text after {p} events fits no_nul made s e =
    let same : p ≡ packet_of type text = cc (create_packet_lem type text fits) in
    let (result, rest, stream) =
      read_packet-image (packet_of type text) after events (packet_of-IsPacket type text fits) s
        (e ∙ ap (λ q. image q ++ after) same) in
    rw same (
      result,
      rest,
      refl,
      take-append text (0 ∷ 0 ∷ []),
      c_string-zero text (0 ∷ []) no_nul,
      stream,
    )
