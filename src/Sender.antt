-- ===== src/Sender.antt =====
-- The thread that sends a session's files to its client: `send_f` of src/server/server.c. One turn of
-- its loop is a step.
pub mod Drain
mod Tests
use inf01151_trabalho_final.Base.{ℕ, zero, suc, Bool, true, false, Option, none, some, Bytes}
use inf01151_trabalho_final.Files.{FileSystem}
use inf01151_trabalho_final.Packet.Socket.{Link}
use inf01151_trabalho_final.Packet.{packet_delete}
use inf01151_trabalho_final.Transfer.{Io, done, waiting, crash, ◌>>=◌, send_new, send_file}
use inf01151_trabalho_final.SyncBuffer.{
  FileEntry, FileEntryType, file_entry_send, file_entry_delete, FileSyncBuffer,
  get_next_file_to_sync,
}

-- What is sent for an entry; a NULL name is read through.
unfoldable pub send_entry : FileSystem → Bytes → FileEntryType → Option Bytes → Link → Io Link
send_entry fs basepath type none link = crash
send_entry fs basepath file_entry_send (some filename) link =
    elim (send_file link filename basepath fs) [ none ↦ waiting | some link' ↦ done link' ]
send_entry fs basepath file_entry_delete (some filename) link =
    done (send_new link packet_delete filename).1

-- A turn on an empty queue of an active session waits.
unfoldable pub send_turn :
    FileSystem → Bytes → Bool → FileSyncBuffer → Link → Io (FileSyncBuffer × Link)
send_turn fs basepath active b link = elim (get_next_file_to_sync active b) [
  | none ↦ waiting
  | some (e, b') ↦ elim (e.valid) [
    | false ↦ done (b', link)
    | true ↦ (do link' ← send_entry fs basepath e.type e.filename link; done (b', link'))
  ]
]

-- The turns of an active session, `n` of them.
unfoldable pub send_turns :
    ℕ → FileSystem → Bytes → FileSyncBuffer → Link → Io (FileSyncBuffer × Link)
send_turns zero fs basepath b link = done (b, link)
send_turns (suc n) fs basepath b link = (do
  (b', link') ← send_turn fs basepath true b link
  send_turns n fs basepath b' link')
