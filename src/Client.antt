-- ===== src/Client.antt =====
-- The console of the client: src/client/client.c from `copy_file` to the thread
-- `start_console_input_thread`. One turn of its loop is a step. Standard input is the bytes that are
-- still to be read, and the files are a map, as on the server's side.
pub mod Parsing
pub mod Requests
pub mod Copy
mod Tests
pub mod Download
use inf01151_trabalho_final.Base.{
  ℕ, zero, suc, ◌+◌, Bool, true, false, ◌||◌, Option, none, some, List, [], ◌∷◌, ◌++◌, Bytes, codes,
  str_eq, ◌==◌, if◌then◌else◌,
}
use inf01151_trabalho_final.Text.{is_space, skip_space}
use inf01151_trabalho_final.Files.{FileSystem, content_of, write_file}
use inf01151_trabalho_final.Packet.Socket.{Event, Link}
use inf01151_trabalho_final.Packet.{
  packet_list, packet_download, packet_delete, packet_exit, ok, packet, null, waits, Packet, Read,
  read_packet, create_packet, send_packet,
}
use inf01151_trabalho_final.Transfer.{Io, done, waiting, crash, send_new, handle_send_delete, ◌>>=◌}

-- MAX_INPUT_SIZE
abbrev pub max_input_size : ℕ
max_input_size = 128

-- fgets of at most `n` bytes, through the end of the line; and what is left.
unfoldable pub fgets : ℕ → Bytes → Bytes × Bytes
fgets zero stdin = ([], stdin)
fgets (suc n) [] = ([], [])
fgets (suc n) (c ∷ stdin) =
    let (line, rest) = fgets n stdin in if c == b'\n' then (c ∷ [], stdin) else (c ∷ line, rest)

-- input[strcspn(input, "\n")] = 0
unfoldable pub cut_newline : Bytes → Bytes
cut_newline [] = []
cut_newline (c ∷ line) = if c == 0 || c == b'\n' then [] else c ∷ cut_newline line

-- The word of at most `n` bytes in front of a text, and the rest.
unfoldable pub word : ℕ → Bytes → Bytes × Bytes
word zero s = ([], s)
word (suc n) [] = ([], [])
word (suc n) (c ∷ s) =
    let (letters, rest) = word n s in if is_space c then ([], c ∷ s) else (c ∷ letters, rest)

-- sscanf(input, "%12s %114s", command, arg) into strings that are empty before.
unfoldable pub scan_command : Bytes → Bytes × Bytes
scan_command input =
    let (command, rest) = word 12 (skip_space input) in
    let (arg, behind) = word 114 (skip_space rest) in (command, arg)

-- GET_COMMAND_NO_INPUT is `none`.
unfoldable pub get_command : Bytes → Option (Bytes × Bytes × Bytes)
get_command [] = none
get_command (c ∷ stdin) =
    let (input, rest) = fgets 127 (c ∷ stdin) in
    let (command, arg) = scan_command (cut_newline input) in some (command, arg, rest)

-- strrchr(path, '/'): what is behind the last slash.
unfoldable pub behind_slash : Bytes → Option Bytes
behind_slash [] = none
behind_slash (c ∷ path) = elim (behind_slash path) [
  | some name ↦ some name
  | none ↦ if c == b'/' then some path else none
]

unfoldable pub basename : Bytes → Bytes
basename path = elim (behind_slash path) [ none ↦ path | some name ↦ name ]

unfoldable pub build_destination_path : Bytes → Bytes → Bytes
build_destination_path sync_dir_path source_path = sync_dir_path ++ b'/' ∷ basename source_path

-- Once the source is open. The destination is opened, and so emptied, before the source is read.
unfoldable pub copy_into : Bytes → Bytes → FileSystem → FileSystem
copy_into source_path dest_path fs =
    let opened = write_file fs dest_path [] in
    elim (content_of opened source_path) [
      | none ↦ opened
      | some bytes ↦ write_file opened dest_path bytes
    ]

-- The Boolean says whether it returns 0.
unfoldable pub copy_file : Bytes → Bytes → FileSystem → Bool × FileSystem
copy_file source_path dest_path fs = elim (content_of fs source_path) [
  | none ↦ (false, fs)
  | some bytes ↦
      if fs.writable dest_path then (true, copy_into source_path dest_path fs) else (false, fs)
]

unfoldable pub upload : Bytes → Bytes → FileSystem → Bool × FileSystem
upload sync_dir_path source_path fs =
    copy_file source_path (build_destination_path sync_dir_path source_path) fs

-- The thread's input, its connection in both directions, the disk, and the flag that it sets.
pub record Console : Type 0 where
  pub stdin : Bytes
  pub link : Link
  pub events : List Event
  pub fs : FileSystem
  pub signal_shutdown : Bool

-- What is done with a reply. One that is NULL is read through.
abbrev pub with_reply : (Packet → List Event → Io Console) → Read × List Event → Io Console
with_reply use_reply (packet p, rest) = use_reply p rest
with_reply use_reply (null, rest) = crash
with_reply use_reply (waits, rest) = waiting

unfoldable pub list_server : Console → Io Console
list_server k =
    let (code, link) = send_packet k.link (create_packet packet_list 0 none) in
    elim code [
      | ok ↦
          with_reply (λ p rest. done (record k { link = link; events = rest }))
            (read_packet k.events)
      | _ ↦ done (record k { link = link })
    ]

-- The file is saved in the current directory.
unfoldable pub download_reply : Console → Packet → List Event → Io Console
download_reply k p rest = (do
  (filename, fs, left) ← handle_send_delete p (codes ".") k.fs rest
  done (record k { events = left; fs = fs }))

unfoldable pub download : Bytes → Console → Io Console
download filename k =
    let (code, link) = send_new k.link packet_download filename in
    elim code [
      | ok ↦ with_reply (download_reply (record k { link = link })) (read_packet k.events)
      | _ ↦ done (record k { link = link })
    ]

unfoldable pub delete : Bytes → Link → Link
delete filename link = (send_new link packet_delete filename).1

unfoldable pub close_client : Console → Console
close_client k = record k {
  link = (send_packet k.link (create_packet packet_exit 0 none)).1;
  signal_shutdown = true;
}

-- The Boolean says whether the loop goes on. The folder of `get_sync_dir` exists, and `list_client`
-- only prints.
unfoldable pub run_command : Bytes → Bytes → Bytes → Console → Io (Bool × Console)
run_command sync_dir_path command arg k =
    if str_eq command (codes "exit")
    then done (false, close_client k)
    else if str_eq command (codes "list_server")
    then (do k' ← list_server k; done (true, k'))
    else if str_eq command (codes "upload")
    then done (true, record k { fs = (upload sync_dir_path arg k.fs).1 })
    else if str_eq command (codes "delete")
    then done (true, record k { link = delete arg k.link })
    else if str_eq command (codes "download")
    then (do k' ← download arg k; done (true, k'))
    else done (true, k)

-- A turn in which standard input is readable.
unfoldable pub console_turn : Bytes → Console → Io (Bool × Console)
console_turn sync_dir_path k = elim (get_command k.stdin) [
  | none ↦ done (true, k)
  | some (command, arg, rest) ↦ run_command sync_dir_path command arg (record k { stdin = rest })
]
