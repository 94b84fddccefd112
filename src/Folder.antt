-- ===== src/Folder.antt =====
-- The synchronised folder of the client: the threads `start_file_receiver_thread` and
-- `start_directory_watcher_thread` of src/client/client.c.
pub mod Arriving
pub mod Watching
mod Tests
use Prim.Native.Nat.{bit_and}
use inf01151_trabalho_final.Base.{
  ℕ, zero, suc, ◌+◌, Bool, true, false, Option, none, some, List, [], ◌∷◌, Bytes, ◌==◌,
  if◌then◌else◌,
}
use inf01151_trabalho_final.Files.{FileSystem}
use inf01151_trabalho_final.Packet.Socket.{Event, Link}
use inf01151_trabalho_final.Packet.{
  packet, null, waits, read_packet, type_code, packet_connection_closed,
}
use inf01151_trabalho_final.Transfer.{
  Io, done, waiting, crash, handle_send_delete, send_file, ◌>>=◌,
}
use inf01151_trabalho_final.Client.{delete}

-- A turn of the receiving thread. `signalled` says whether a signal flag is set by then, and the
-- Boolean of the result whether the loop goes on.
unfoldable pub receiver_turn :
    Bytes → Bool → List Event → FileSystem → Io (Bool × FileSystem × List Event)
receiver_turn sync_dir_path signalled events fs =
    let (r, rest) = read_packet events in
    elim r [
      | null ↦ crash
      | waits ↦ waiting
      | packet p ↦ (do
        (filename, fs', left) ← handle_send_delete p sync_dir_path fs rest
        if signalled
            then done (false, fs', left)
            else if p.type == type_code packet_connection_closed
            then done (false, fs', left)
            else done (true, fs', left))
    ]

-- `n` turns with no signal.
unfoldable pub receiver_turns : ℕ → Bytes → List Event → FileSystem → Io (FileSystem × List Event)
receiver_turns zero sync_dir_path events fs = done (fs, events)
receiver_turns (suc n) sync_dir_path events fs = (do
  (goes_on, fs', left) ← receiver_turn sync_dir_path false events fs
  elim goes_on [ false ↦ done (fs', left) | true ↦ receiver_turns n sync_dir_path left fs' ])

-- The struct inotify_event, without the watch and the cookie. `len` counts the bytes of the name
-- with its padding.
pub record InotifyEvent : Type 0 where
  pub mask : ℕ
  pub len : ℕ
  pub name : Bytes

-- sizeof(struct inotify_event)
abbrev pub event_size : ℕ
event_size = 16

-- IN_CLOSE_WRITE | IN_CREATE | IN_MOVED_TO
abbrev pub is_written : ℕ → Bool
is_written mask = if bit_and mask 392 == 0 then false else true

-- IN_DELETE | IN_MOVED_FROM
abbrev pub is_deleted : ℕ → Bool
is_deleted mask = if bit_and mask 576 == 0 then false else true

-- The connection, and the seconds slept so far.
pub record Watcher : Type 0 where
  pub link : Link
  pub slept : ℕ

-- `none` as in `send_file`.
unfoldable pub watch_written : Bool → Bytes → InotifyEvent → FileSystem → Watcher → Option Watcher
watch_written false sync_dir_path e fs w = some w
watch_written true sync_dir_path e fs w = elim (send_file w.link e.name sync_dir_path fs) [
  | none ↦ none
  | some link ↦ some (record { link = link; slept = w.slept + 1 })
]

-- The event begins at the offset `i` of the buffer, for which the thread sleeps.
unfoldable pub watch_deleted : Bool → ℕ → InotifyEvent → Watcher → Watcher
watch_deleted false i e w = w
watch_deleted true i e w = record { link = delete e.name w.link; slept = w.slept + i }

-- The loop over the buffer. The disk is as it is when each file is opened, so it may differ by event.
unfoldable pub watch_events :
    Bytes → ℕ → List (InotifyEvent × FileSystem) → Watcher → Option Watcher
watch_events sync_dir_path i [] w = some w
watch_events sync_dir_path i ((e, fs) ∷ events) w =
    elim (watch_written (is_written e.mask) sync_dir_path e fs w) [
      | none ↦ none
      | some w' ↦
          watch_events sync_dir_path (i + event_size + e.len) events
            (watch_deleted (is_deleted e.mask) i e w')
    ]
