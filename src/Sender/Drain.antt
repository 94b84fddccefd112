-- ===== src/Sender/Drain.antt =====
-- What waits in a session's queue reaches the client, in order: `send_f` of src/server/server.c.
use inf01151_trabalho_final.Base.{
  ℕ, suc, ◌^◌, ◌<◌, ◌≡◌, refl, ap, sym, ◌∙◌, true, some, List, [], ◌∷◌, ◌++◌, append_assoc,
  append-nil, Bytes, length, Option-cases, inl, inr,
}
use inf01151_trabalho_final.Files.{FileSystem, content_of, create_filepath}
use inf01151_trabalho_final.Packet.Socket.{Link}
use inf01151_trabalho_final.Packet.Framing.{packet_of}
use inf01151_trabalho_final.Packet.{packet_delete, image}
use inf01151_trabalho_final.Transfer.{done}
use inf01151_trabalho_final.Transfer.Sending.{
  open_link, Fits, transfer_of, send_file_lem, send_new_lem,
}
use inf01151_trabalho_final.SyncBuffer.{
  FileEntry, file_entry_send, file_entry_delete, FileSyncBuffer, get_next_file_to_sync,
}
use inf01151_trabalho_final.SyncBuffer.Refine.{IsValid, contents, get_lem, get_waits}
use inf01151_trabalho_final.Sender.{send_entry, send_turn, send_turns}

module _ (fs : FileSystem) (basepath : Bytes) where
  -- An entry that can be sent, and the bytes that it stands for.
  pub record IsSent (e : FileEntry) (bytes : Bytes) : Type 0 where
    pub valid : e.valid ≡ true
    pub sends :
        (out : Bytes)
        → send_entry fs basepath e.type e.filename (open_link out) ≡ done (open_link (out ++ bytes))

  -- An entry for a file that is on the disk stands for its transfer.
  pub send-IsSent :
      (e : FileEntry) (filename path content : Bytes)
      → e.valid ≡ true
      → e.type ≡ file_entry_send
      → e.filename ≡ some filename
      → create_filepath basepath filename ≡ some path
      → content_of fs path ≡ some content
      → Fits filename content
      → IsSent e (transfer_of filename content)
  unfolding send_entry
  send-IsSent e filename path content valid type name hp hc fits = record {
    valid = valid;
    sends = λ out.
        ap (λ t. send_entry fs basepath t e.filename (open_link out)) type
        ∙ ap (λ n. send_entry fs basepath file_entry_send n (open_link out)) name
        ∙ rw (send_file_lem filename basepath path content out fs hp hc fits, send_entry);
  }

  -- An entry for a deletion stands for a packet with the name.
  pub delete-IsSent :
      (e : FileEntry) (filename : Bytes)
      → e.valid ≡ true
      → e.type ≡ file_entry_delete
      → e.filename ≡ some filename
      → length filename < 2 ^ 16
      → IsSent e (image (packet_of packet_delete filename))
  unfolding send_entry
  delete-IsSent e filename valid type name fits = record {
    valid = valid;
    sends = λ out.
        ap (λ t. send_entry fs basepath t e.filename (open_link out)) type
        ∙ ap (λ n. send_entry fs basepath file_entry_delete n (open_link out)) name
        ∙ ap (λ r. done r.1) (send_new_lem out packet_delete filename fits);
  }

  -- The entries one after the other, and the bytes of all.
  pub data AreSent : List FileEntry → Bytes → Type 0 where
    none_left : AreSent [] []
    and_then :
        {e : FileEntry} {entries : List FileEntry} {bytes rest : Bytes}
        → IsSent e bytes
        → AreSent entries rest
        → AreSent (e ∷ entries) (bytes ++ rest)

  turn_step :
      (b b' : FileSyncBuffer) (e : FileEntry) (bytes out : Bytes)
      → get_next_file_to_sync true b ≡ some (e, b')
      → IsSent e bytes
      → send_turn fs basepath true b (open_link out) ≡ done (b', open_link (out ++ bytes))
  unfolding send_turn
  turn_step b b' e bytes out got h = rw (got, send_turn) (rw h.valid (rw (h.sends out)))

  turns_step :
      (n : ℕ) (b b' : FileSyncBuffer) (link link' : Link)
      → send_turn fs basepath true b link ≡ done (b', link')
      → send_turns (suc n) fs basepath b link ≡ send_turns n fs basepath b' link'
  unfolding send_turns
  turns_step n b b' link link' e = rw (e, send_turns) refl

  -- A queue that is not empty yields its oldest entry.
  next_entry :
      (b : FileSyncBuffer) (e : FileEntry) (entries : List FileEntry)
      → IsValid b
      → contents b ≡ e ∷ entries
      → (b' : FileSyncBuffer) × (get_next_file_to_sync true b ≡ some (e, b'))
        × IsValid b'
        × (contents b' ≡ entries)
  next_entry b e entries v has = elim (Option-cases (get_next_file_to_sync true b)) [
    | inl idle ↦ absurd (cons_ne (sym has ∙ (get_waits b).0 idle))
    | inr ((e', b'), got) ↦
        let (v', shape) = get_lem v got in
        let head_same : e' ≡ e = cc (sym has ∙ shape) in
        let tail_same : contents b' ≡ entries = cc (sym has ∙ shape) in
        (b', got ∙ ap (λ x. some (x, b')) head_same, v', tail_same)
  ]
    where
      cons_ne : {x : FileEntry} {xs : List FileEntry} → ◌≡◌ {A = List FileEntry} (x ∷ xs) [] → ⊥
      cons_ne q = cc

  pub send_turns_lem :
      (entries : List FileEntry) (bytes out : Bytes) (b : FileSyncBuffer)
      → IsValid b
      → contents b ≡ entries
      → AreSent entries bytes
      → (b' : FileSyncBuffer) × (send_turns (length entries) fs basepath b (open_link out)
          ≡ done (b', open_link (out ++ bytes)))
        × IsValid b'
        × (contents b' ≡ [])
  unfolding send_turns
  send_turns_lem [] bytes out b v has none_left =
      (b, ap (λ t. done (b, open_link t)) (sym (append-nil out)), v, has)
  send_turns_lem (e ∷ entries) bytes out b v has (and_then {bytes = first} {rest = rest} h hs) =
      let (b', got, v', left) = next_entry b e entries v has in
      let (b'', sent, v'', empty) = send_turns_lem entries rest (out ++ first) b' v' left hs in
      (
        b'',
        turns_step (length entries) b b' (open_link out) (open_link (out ++ first))
              (turn_step b b' e first out got h)
            ∙ sent
            ∙ ap (λ t. done (b'', open_link t)) (append_assoc out first rest),
        v'',
        empty,
      )
