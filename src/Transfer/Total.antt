-- ===== src/Transfer/Total.antt =====
-- `send_file` of src/util/communication.c returns.
use native.Mathlib.Decide.{dec_lt}
use inf01151_trabalho_final.Base.{
  ℕ, zero, suc, ◌<◌, ◌≡◌, refl, Bool, true, false, Option, some, Option-cases, inl, inr, arith,
  Bytes, length, take, drop, length-take, length-drop, ltb, ◌==◌,
}
use inf01151_trabalho_final.Files.{FileSystem, content_of, create_filepath}
use inf01151_trabalho_final.Packet.Socket.{Link}
use inf01151_trabalho_final.Packet.{packet_data, packet_send, SendCode, ok, socket_closed, error}
use inf01151_trabalho_final.Transfer.{
  file_chunk_size, send_new, packet_amount, through_int, announcement, send_chunks, send_content,
  send_file,
}

-- A call that returns.
abbrev pub Returns : Option Link → Type 0
Returns o = (link : Link) × (o ≡ some link)

-- After a packet, whichever code it gave.
after_code :
    (c : SendCode) (a b : Option Link) → Returns a → Returns b → Returns (elim c [ ok ↦ a | _ ↦ b ])
after_code ok a b ra rb = ra
after_code socket_closed a b ra rb = rb
after_code error a b ra rb = rb

after_test :
    (t : Bool) (a b : Option Link)
    → Returns a
    → Returns b
    → Returns (elim t [ true ↦ a | false ↦ b ])
after_test true a b ra rb = ra
after_test false a b ra rb = rb

-- The loop over the chunks comes to its end also when the connection fails on the way.
send_chunks_total :
    (fuel : ℕ) (rest : Bytes) (link : Link)
    → length rest < fuel
    → (link' : Link) × (send_chunks fuel rest link ≡ some link')
unfolding send_chunks
send_chunks_total zero rest link h = absurd (omega arith)
send_chunks_total (suc fuel) rest link h =
    let chunk = take file_chunk_size rest in
    let (code, link') = send_new link packet_data chunk in
    elim (dec_lt 0 (length rest)) [
      | no empty ↦
          let size : length chunk ≡ 0 = omega (arith, length-take file_chunk_size rest) in
          (link, rw (size, send_chunks))
      | yes pos ↦
          after_test (length chunk == 0) _ _ (link, refl)
            (after_code code _ _
              (after_test (ltb (length chunk) file_chunk_size) _ _ (link', refl)
                (send_chunks_total fuel (drop file_chunk_size rest) link'
                  (omega (arith, length-drop file_chunk_size rest))))
              (link', refl))
    ]

send_content_total :
    (link : Link) (filename content : Bytes)
    → (link' : Link) × (send_content link filename content ≡ some link')
unfolding send_content
send_content_total link filename content =
    let (code, link') =
      send_new link packet_send
        (announcement (through_int (packet_amount (length content))) filename) in
    after_code code _ _ (send_chunks_total (suc (length content)) content link' (omega arith))
      (link', refl)

pub send_file_total :
    (link : Link) (filename basepath : Bytes) (fs : FileSystem)
    → (link' : Link) × (send_file link filename basepath fs ≡ some link')
unfolding send_file
send_file_total link filename basepath fs =
    elim (Option-cases (create_filepath basepath filename)) [
      | inl e ↦ (link, rw (e, send_file))
      | inr (path, e) ↦ elim (Option-cases (content_of fs path)) [
        | inl f ↦ (link, rw (e, send_file) (rw f))
        | inr (content, f) ↦
            let (link', g) = send_content_total link filename content in
            (link', rw (e, send_file) (rw f g))
      ]
    ]
