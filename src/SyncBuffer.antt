-- ===== src/SyncBuffer.antt =====
-- The per-session queue of files to send, src/util/fileSync.c with its header. A call that would
-- block on a condition variable returns `none` and leaves the state to whoever runs next.
pub mod Refine
pub mod Traffic
mod Tests
use inf01151_trabalho_final.Base.{
  ℕ, ◌+◌, ◌-◌, ◌%◌, Bool, true, false, not, Option, none, some, List, [], Bytes, get_or, set, ◌==◌,
  if◌then◌else◌,
}

-- FILE_SYNC_BUFFER_SIZE
abbrev pub file_sync_buffer_size : ℕ
file_sync_buffer_size = 10

pub data FileEntryType : Type 0 where
  file_entry_send file_entry_delete : FileEntryType

-- A `char *` is `none` where it is NULL.
pub record FileEntry : Type 0 where
  pub valid : Bool
  pub type : FileEntryType
  pub username : Option Bytes
  pub to_session_index : ℕ
  pub filename : Option Bytes

-- `{ .valid = 0 }`: the other members are zero.
abbrev pub invalid : FileEntry
invalid = record {
  valid = false;
  type = file_entry_send;
  username = none;
  to_session_index = 0;
  filename = none;
}

pub record FileSyncBuffer : Type 0 where
  pub buffer : List FileEntry
  pub start : ℕ
  pub end : ℕ
  pub count : ℕ

-- The array keeps whatever the allocation held.
unfoldable pub init_file_sync_buffer : List FileEntry → FileSyncBuffer
init_file_sync_buffer memory = record { buffer = memory; start = 0; end = 0; count = 0 }

-- The entry that a call writes for the session of `username` at `session_index`.
abbrev pub entry_for : Bytes → ℕ → Bytes → FileEntryType → FileEntry
entry_for username session_index filename type = record {
  valid = true;
  type = type;
  username = some username;
  to_session_index = session_index;
  filename = some filename;
}

-- `none`: the caller waits on `not_full`.
unfoldable pub add_file_to_sync_buffer :
    Bytes → ℕ → Bytes → FileEntryType → FileSyncBuffer → Option FileSyncBuffer
add_file_to_sync_buffer username session_index filename type b =
    if b.count == file_sync_buffer_size
    then none
    else some (record b {
      buffer = set b.buffer b.end (entry_for username session_index filename type);
      end = (b.end + 1) % file_sync_buffer_size;
      count = b.count + 1;
    })

-- `none`: the caller waits on `not_empty`. The first argument is `session->active`.
unfoldable pub get_next_file_to_sync : Bool → FileSyncBuffer → Option (FileEntry × FileSyncBuffer)
get_next_file_to_sync active b =
    if not active
    then some (invalid, b)
    else if b.count == 0
    then none
    else some (
      get_or b.buffer b.start invalid,
      record b { start = (b.start + 1) % file_sync_buffer_size; count = b.count - 1 },
    )
