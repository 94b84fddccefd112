-- ===== src/Transfer/Receiving.antt =====
-- What a peer makes of a file that `send_file` of src/util/communication.c sent.
use native.Mathlib.Decide.{dec_lt}
use inf01151_trabalho_final.Base.{
  ℕ, zero, suc, ◌≤◌, ◌<◌, ◌≡◌, refl, ◌∙◌, sym, ap, List, [], ◌∷◌, ◌++◌, append_assoc, append-nil,
  arith, Bytes, length, take, drop, length-take, length-drop, take-append, take-append-drop,
}
use inf01151_trabalho_final.Packet.Socket.{Event}
use inf01151_trabalho_final.Packet.{Packet, packet_data, packet, read_packet, payload, image}
use inf01151_trabalho_final.Packet.Stream.{arriving, IsStream}
use inf01151_trabalho_final.Packet.Framing.{packet_of, packet_of-IsPacket, read_packet-image}
use inf01151_trabalho_final.Transfer.{Io, done, file_chunk_size, packet_amount, write_packets}
use inf01151_trabalho_final.Transfer.Sending.{
  frames, frames-pos, frames-short, packet_amount-zero, packet_amount-pos,
}

-- The loop of `write_packets_to_file` has written a content, and left the stream at `after`.
pub record Writes (written content after : Bytes) (r : Io (Bytes × List Event)) : Type 0 where
  pub left : List Event
  pub result : r ≡ done (written ++ content, left)
  pub rest : arriving left ≡ after
  pub stream : IsStream left

write_packets_step :
    (i : ℕ) (written : Bytes) (events : List Event) (p : Packet)
    → (read_packet events).0 ≡ packet p
    → write_packets (suc i) written events
      ≡ write_packets i (written ++ payload p) (read_packet events).1
unfolding write_packets
write_packets_step i written events p e = rw (e, write_packets)

write_packets_zero :
    (written : Bytes) (events : List Event)
    → write_packets 0 written events ≡ done (written, events)
unfolding write_packets
write_packets_zero written events = refl

nothing_left :
    (content written after : Bytes) (events : List Event)
    → length content ≤ 0
    → IsStream events
    → arriving events ≡ frames (packet_amount (length content)) content ++ after
    → Writes written content after (write_packets (packet_amount (length content)) written events)
nothing_left [] written after events h s e = record {
  left = events;
  result =
      rw packet_amount-zero
        (write_packets_zero written events ∙ ap (λ t. done (t, events)) (sym (append-nil written)));
  rest = e ∙ ap (λ t. t ++ after) (frames-short [] h);
  stream = s;
}
nothing_left (b ∷ content) written after events h s e = absurd (omega arith)

-- The first data packet of a content that is not empty.
record ReadsFirst (content written after : Bytes) (events : List Event) : Type 0 where
  next : List Event
  step :
      write_packets (packet_amount (length content)) written events
      ≡ write_packets
          (packet_amount (length (drop file_chunk_size content)))
          (written ++ take file_chunk_size content)
          next
  rest :
      arriving next
      ≡ frames
          (packet_amount (length (drop file_chunk_size content)))
          (drop file_chunk_size content)
        ++ after
  stream : IsStream next

read_first :
    (content written after : Bytes) (events : List Event)
    → 0 < length content
    → IsStream events
    → arriving events ≡ frames (packet_amount (length content)) content ++ after
    → ReadsFirst content written after events
read_first content written after events pos s e =
    let chunk = take file_chunk_size content in
    let more = drop file_chunk_size content in
    let tail = frames (packet_amount (length more)) more in
    let joined =
      e
      ∙ ap (λ t. t ++ after) (frames-pos content pos)
      ∙ append_assoc (image (packet_of packet_data chunk)) tail after in
    let (result, rest, stream) =
      read_packet-image (packet_of packet_data chunk) (tail ++ after) events
        (packet_of-IsPacket packet_data chunk (omega (arith, length-take file_chunk_size content)))
        s joined in
    record {
      next = (read_packet events).1;
      step =
          ap (λ n. write_packets n written events)
            (packet_amount-pos (length content) pos
              ∙ ap (λ n. suc (packet_amount n)) (sym (length-drop file_chunk_size content)))
          ∙ write_packets_step (packet_amount (length more)) written events
              (packet_of packet_data chunk) result
          ∙ ap
              (λ t.
                write_packets (packet_amount (length more)) (written ++ t) (read_packet events).1)
              (take-append chunk (0 ∷ 0 ∷ []));
      rest = rest;
      stream = stream;
    }

pub write_packets-frames :
    (bound : ℕ) (content written after : Bytes) (events : List Event)
    → length content ≤ bound
    → IsStream events
    → arriving events ≡ frames (packet_amount (length content)) content ++ after
    → Writes written content after (write_packets (packet_amount (length content)) written events)
write_packets-frames zero content written after events h s e =
    nothing_left content written after events h s e
write_packets-frames (suc bound) content written after events h s e =
    elim (dec_lt 0 (length content)) [
      | no empty ↦ nothing_left content written after events (omega arith) s e
      | yes pos ↦
          let f = read_first content written after events pos s e in
          let chunk = take file_chunk_size content in
          let more = drop file_chunk_size content in
          let rest =
            write_packets-frames bound more (written ++ chunk) after f.next
              (omega (arith, length-drop file_chunk_size content)) f.stream f.rest in
          record {
            left = rest.left;
            result =
                f.step
                ∙ rest.result
                ∙ ap (λ t. done (t, rest.left))
                    (append_assoc written chunk more
                      ∙ ap (λ t. written ++ t) (take-append-drop file_chunk_size content));
            rest = rest.rest;
            stream = rest.stream;
          }
    ]
