-- ===== src/Client/Requests.antt =====
-- The user's commands DELETE and DOWNLOAD from the client's line to the server's disk and back:
-- src/client/client.c and the thread `interface` of src/server/server.c.
use inf01151_trabalho_final.Base.{
  ℕ, ◌≤◌, ◌≡◌, refl, ap, subst, ◌∙◌, true, some, List, [], ◌∷◌, ◌++◌, arith, Bytes, codes, length,
  drop, drop-append, take-append, str_eq, Bool, c_string, c_string-zero,
}
use inf01151_trabalho_final.Files.{content_of, create_filepath}
use inf01151_trabalho_final.Packet.Socket.{Event, Link}
use inf01151_trabalho_final.Packet.{Packet, PacketTypes, packet, packet_delete, read_packet, image}
use inf01151_trabalho_final.Packet.Stream.{arriving, IsStream}
use inf01151_trabalho_final.Packet.Framing.{packet_of, packet_of-IsPacket, read_packet-image}
use inf01151_trabalho_final.Transfer.{Io, done, waiting, crash, send_new}
use inf01151_trabalho_final.Transfer.Sending.{open_link, send_new_lem}
use inf01151_trabalho_final.Sessions.{Session, UserContext}
use inf01151_trabalho_final.Server.{Server}
use inf01151_trabalho_final.Server.Incoming.{IsServing}
use inf01151_trabalho_final.Commands.{argument, handle_command}
use inf01151_trabalho_final.Commands.Delete.{Deleted, delete_command_lem}
use inf01151_trabalho_final.Client.{Console, get_command, run_command, console_turn, delete}
use inf01151_trabalho_final.Client.Parsing.{IsWord, word-Lacks-zero, get_command_lem}

pub turn_step :
    (sync_dir_path command arg rest : Bytes) (k : Console)
    → get_command k.stdin ≡ some (command, arg, rest)
    → console_turn sync_dir_path k
      ≡ run_command sync_dir_path command arg (record k { stdin = rest })
unfolding console_turn
turn_step sync_dir_path command arg rest k e = rw (e, console_turn) refl

-- The line of a command with its argument.
abbrev pub line : Bytes → Bytes → Bytes → Bytes
line command arg rest = command ++ 32 ∷ (arg ++ b'\n' ∷ rest)

delete_line :
    (filename rest : Bytes)
    → IsWord filename
    → length filename ≤ 114
    → get_command (line (codes "delete") filename rest) ≡ some (codes "delete", filename, rest)
delete_line filename rest w h =
    get_command_lem b'd' (codes "elete") filename rest (ground arith) w (omega arith) h
      (omega arith)

-- What the client sends for the line.
pub delete_sends :
    (sync_dir_path filename rest out : Bytes) (k : Console)
    → k.stdin ≡ line (codes "delete") filename rest
    → k.link ≡ open_link out
    → IsWord filename
    → length filename ≤ 114
    → console_turn sync_dir_path k
      ≡ done (
        true,
        record k {
          stdin = rest;
          link = open_link (out ++ image (packet_of packet_delete filename));
        },
      )
unfolding run_command delete str_eq
delete_sends sync_dir_path filename rest out k typed link w h =
    turn_step sync_dir_path (codes "delete") filename rest k
      (ap get_command typed ∙ delete_line filename rest w h)
    ∙ ap (λ l. done (true, record k { stdin = rest; link = l }))
        (ap (λ l. (send_new l packet_delete filename).1) link
          ∙ ap (λ r. r.1) (send_new_lem out packet_delete filename (omega arith)))

pub argument-packet_of :
    (type : PacketTypes) (filename : Bytes)
    → IsWord filename
    → argument (packet_of type filename) ≡ filename
argument-packet_of type filename w =
    ap (λ t. c_string (t ++ 0 ∷ [])) (take-append filename (0 ∷ 0 ∷ []))
    ∙ c_string-zero filename [] (word-Lacks-zero filename w)

-- What a turn adds to the client's connection.
abbrev pub request : Bytes → Io (Bool × Console) → Bytes
request out (done (more, k)) = drop (length out) k.link.out
request out waiting = []
request out crash = []

-- The line `delete` with a file's name makes the client send a command that the server, however it
-- is cut into reads, reads and carries out: the file leaves the disk and the user's list, and the
-- other sessions' queues get the deletion as `delete_command` gives it. The client keeps its own
-- files and has read just the line. The name is a word of at most 114 bytes, and the client's
-- connection takes the packet.
pub delete_typed :
    (sync_dir_path filename rest out after : Bytes) (k : Console) (c i : ℕ) (session : Session)
    (context : UserContext) (folder_path files path content : Bytes) (link : Link) (srv : Server)
    (events : List Event)
    → k.stdin ≡ line (codes "delete") filename rest
    → k.link ≡ open_link out
    → IsWord filename
    → length filename ≤ 114
    → IsServing c i session context srv
    → create_filepath folder_path filename ≡ some path
    → content_of srv.fs path ≡ some content
    → IsStream events
    → arriving events ≡ request out (console_turn sync_dir_path k) ++ after
    → (k' : Console) × (p : Packet) × (console_turn sync_dir_path k ≡ done (true, k'))
      × (k'.stdin ≡ rest)
      × (k'.fs ≡ k.fs)
      × ((read_packet events).0 ≡ packet p)
      × (arriving (read_packet events).1 ≡ after)
      × Deleted c i session filename path context link srv
          (handle_command c i folder_path files p link srv)
delete_typed sync_dir_path filename rest out after k c i session context folder_path files path
      content link srv events typed linked w h serving hp there s arrives =
    let p = packet_of packet_delete filename in
    let turn = delete_sends sync_dir_path filename rest out k typed linked w h in
    let same = argument-packet_of packet_delete filename w in
    let (result, behind, _) =
      read_packet-image p after events (packet_of-IsPacket packet_delete filename (omega arith)) s (
        arrives
        ∙ ap (λ r. request out r ++ after) turn
        ∙ ap (λ t. t ++ after) (drop-append out (image p))) in
    (
      record k { stdin = rest; link = open_link (out ++ image p) },
      p,
      turn,
      refl,
      refl,
      result,
      behind,
      subst
          (λ f.
            Deleted c i session f path context link srv
              (handle_command c i folder_path files p link srv))
          same
          (delete_command_lem c i session context folder_path files path content p link srv serving
            refl (ap (create_filepath folder_path) same ∙ hp) there),
    )
