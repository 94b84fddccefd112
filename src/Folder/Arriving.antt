-- ===== src/Folder/Arriving.antt =====
-- From a session's queue at the server to the client's folder: the threads `send_f` of
-- src/server/server.c and `start_file_receiver_thread` of src/client/client.c.
use inf01151_trabalho_final.Base.{
  ℕ, suc, ◌^◌, ◌<◌, ◌≡◌, refl, ap, ◌∙◌, true, false, Option, some, List, [], ◌∷◌, ◌++◌,
  append_assoc, Bytes, Lacks, length, drop, drop-append, ◌==◌,
}
use inf01151_trabalho_final.Files.{FileSystem, content_of, write_file, remove_file, create_filepath}
use inf01151_trabalho_final.Packet.Socket.{Event, Link}
use inf01151_trabalho_final.Packet.{Packet, packet, packet_delete, read_packet, image}
use inf01151_trabalho_final.Packet.Stream.{arriving, IsStream}
use inf01151_trabalho_final.Packet.Framing.{packet_of}
use inf01151_trabalho_final.Transfer.{Io, done, waiting, crash, handle_send_delete}
use inf01151_trabalho_final.Transfer.Sending.{open_link, Fits, transfer_of, send_file_lem}
use inf01151_trabalho_final.Transfer.RoundTrip.{transfer_lem}
use inf01151_trabalho_final.Transfer.Deleting.{deletion_arrives}
use inf01151_trabalho_final.SyncBuffer.{
  FileEntry, file_entry_send, file_entry_delete, FileSyncBuffer,
}
use inf01151_trabalho_final.SyncBuffer.Refine.{IsValid, contents}
use inf01151_trabalho_final.Sender.{send_turns}
use inf01151_trabalho_final.Sender.Drain.{
  AreSent, none_left, and_then, send-IsSent, delete-IsSent, send_turns_lem,
}
use inf01151_trabalho_final.Folder.{receiver_turn, receiver_turns}

-- What a queue has sent after its turns.
abbrev pub sent_by : Bytes → Io (FileSyncBuffer × Link) → Bytes
sent_by out (done (b, link)) = drop (length out) link.out
sent_by out waiting = []
sent_by out crash = []

module _ (disk : FileSystem) (basepath sync_dir_path : Bytes) where
  -- What the entries of a queue, the server's files being `disk`, make of the client's files, and the
  -- bytes by which they travel: a file of the queue gets the server's content, and a deleted one goes.
  pub data Delivers : List FileEntry → Bytes → FileSystem → FileSystem → Type 0 where
    arrived : {fs fs' : FileSystem} → fs ≡ fs' → Delivers [] [] fs fs'
    stores :
        {entries : List FileEntry} {bytes : Bytes} {fs fs' : FileSystem} (e : FileEntry)
        (filename path content saved_path : Bytes)
        → e.valid ≡ true
        → e.type ≡ file_entry_send
        → e.filename ≡ some filename
        → Lacks 0 filename
        → create_filepath basepath filename ≡ some path
        → content_of disk path ≡ some content
        → Fits filename content
        → create_filepath sync_dir_path filename ≡ some saved_path
        → fs.writable saved_path ≡ true
        → Delivers entries bytes (write_file fs saved_path content) fs'
        → Delivers (e ∷ entries) (transfer_of filename content ++ bytes) fs fs'
    removes :
        {entries : List FileEntry} {bytes : Bytes} {fs fs' : FileSystem} (e : FileEntry)
        (filename saved_path : Bytes)
        → e.valid ≡ true
        → e.type ≡ file_entry_delete
        → e.filename ≡ some filename
        → Lacks 0 filename
        → length filename < 2 ^ 16
        → create_filepath sync_dir_path filename ≡ some saved_path
        → Delivers entries bytes (remove_file fs saved_path) fs'
        → Delivers (e ∷ entries) (image (packet_of packet_delete filename) ++ bytes) fs fs'

  pub Delivers-AreSent :
      {entries : List FileEntry} {bytes : Bytes} {fs fs' : FileSystem}
      → Delivers entries bytes fs fs'
      → AreSent disk basepath entries bytes
  Delivers-AreSent (arrived e) = none_left
  Delivers-AreSent
        (stores e filename path content saved_path valid type name z hp hc fits hs hw rest) =
      and_then (send-IsSent disk basepath e filename path content valid type name hp hc fits)
        (Delivers-AreSent rest)
  Delivers-AreSent (removes e filename saved_path valid type name z fits hs rest) =
      and_then (delete-IsSent disk basepath e filename valid type name fits) (Delivers-AreSent rest)

  -- One turn on a packet whose handling is known.
  turn_step :
      (p : Packet) (name : Option Bytes) (events left : List Event) (fs fs' : FileSystem) (n : ℕ)
      → (p.type == 7) ≡ false
      → (read_packet events).0 ≡ packet p
      → handle_send_delete p sync_dir_path fs (read_packet events).1 ≡ done (name, fs', left)
      → receiver_turns (suc n) sync_dir_path events fs ≡ receiver_turns n sync_dir_path left fs'
  unfolding receiver_turns receiver_turn
  turn_step p name events left fs fs' n type read handled =
      rw (read, receiver_turn) (rw handled (rw type refl))

  receives :
      {entries : List FileEntry} {bytes : Bytes} {fs fs' : FileSystem} (after : Bytes)
      (events : List Event)
      → Delivers entries bytes fs fs'
      → IsStream events
      → arriving events ≡ bytes ++ after
      → (left : List Event) × (receiver_turns (length entries) sync_dir_path events fs
          ≡ done (fs', left))
        × (arriving left ≡ after)
  unfolding receiver_turns
  receives after events (arrived e) s arrives = (events, ap (λ f. done (f, events)) e, arrives)
  receives after events
        (stores {entries = entries} {bytes = bytes} {fs = fs} e filename path content saved_path
          valid type name z hp hc fits hs hw rest)
        s arrives =
      let (p, left, type_is, read, handled, behind, stream) =
        transfer_lem filename basepath path content [] (transfer_of filename content) sync_dir_path
          saved_path (bytes ++ after) disk fs events hp hc fits z hs hw
          (send_file_lem filename basepath path content [] disk hp hc fits) s
          (arrives ∙ append_assoc (transfer_of filename content) bytes after) in
      let (end, returns, rest_there) = receives after left rest stream behind in
      (
        end,
        turn_step p (some filename) events left fs (write_file fs saved_path content)
              (length entries) (ap (λ n. n == 7) type_is) read handled
            ∙ returns,
        rest_there,
      )
  receives after events
        (removes {entries = entries} {bytes = bytes} {fs = fs} e filename saved_path valid type name
          z fits hs rest)
        s arrives =
      let p = packet_of packet_delete filename in
      let (read, handled, behind, stream) =
        deletion_arrives sync_dir_path filename saved_path (bytes ++ after) fs events z fits hs s
          (arrives ∙ append_assoc (image p) bytes after) in
      let (end, returns, rest_there) = receives after (read_packet events).1 rest stream behind in
      (
        end,
        turn_step p (some filename) events (read_packet events).1 fs (remove_file fs saved_path)
              (length entries) refl read handled
            ∙ returns,
        rest_there,
      )

  -- The entries of a session's queue reach the client's folder. The sending thread empties the queue
  -- in as many turns as it has entries; the client's receiving thread, in as many turns and however
  -- the stream is cut into reads, gives each file that was queued the content that it has at the
  -- server and removes each that was queued as deleted, in the queue's order, and touches no other
  -- file; it leaves what follows on the stream. The server's files are there and fit a transfer, the
  -- names hold no NUL, the client can write them, and the connection takes every packet.
  pub synchronised_lem :
      (entries : List FileEntry) (bytes out after : Bytes) (b : FileSyncBuffer)
      (fs fs' : FileSystem) (events : List Event)
      → IsValid b
      → contents b ≡ entries
      → Delivers entries bytes fs fs'
      → IsStream events
      → arriving events
        ≡ sent_by out (send_turns (length entries) disk basepath b (open_link out)) ++ after
      → (b' : FileSyncBuffer) × (link : Link) × (left : List Event) × (send_turns
            (length entries)
            disk
            basepath
            b
            (open_link out)
          ≡ done (b', link))
        × (contents b' ≡ [])
        × (receiver_turns (length entries) sync_dir_path events fs ≡ done (fs', left))
        × (arriving left ≡ after)
  synchronised_lem entries bytes out after b fs fs' events v has d s arrives =
      let (b', sent, _, empty) =
        send_turns_lem disk basepath entries bytes out b v has (Delivers-AreSent d) in
      let (left, returns, behind) = receives after events d s (
        arrives
        ∙ ap (λ r. sent_by out r ++ after) sent
        ∙ ap (λ t. t ++ after) (drop-append out bytes)) in
      (b', open_link (out ++ bytes), left, sent, empty, returns, behind)
