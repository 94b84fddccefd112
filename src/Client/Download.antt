-- ===== src/Client/Download.antt =====
-- The user's command DOWNLOAD from the client's line to the server's disk and back to the client's:
-- src/client/client.c and the thread `interface` of src/server/server.c.
use inf01151_trabalho_final.Base.{
  ℕ, ◌≡◌, refl, ap, ◌∙◌, Bool, true, none, some, [], ◌++◌, Bytes, length, drop, get_elem?,
}
use inf01151_trabalho_final.Files.{FileSystem, content_of, create_filepath}
use inf01151_trabalho_final.Packet.Socket.{Link}
use inf01151_trabalho_final.Packet.{Packet, Read, packet, null, waits, packet_download}
use inf01151_trabalho_final.Packet.Framing.{packet_of}
use inf01151_trabalho_final.Transfer.{Io, done, waiting, crash, send_new}
use inf01151_trabalho_final.Transfer.Sending.{open_link, Fits, transfer_of, send_file_lem}
use inf01151_trabalho_final.Sessions.{Session, UserContext, slot}
use inf01151_trabalho_final.Server.{Server}
use inf01151_trabalho_final.Commands.{argument, download_command, handle_command}
use inf01151_trabalho_final.Commands.Delete.{exists_file}
use inf01151_trabalho_final.Client.Parsing.{IsWord}
use inf01151_trabalho_final.Client.Requests.{argument-packet_of}

-- What the client sends for the command, before it reads.
abbrev pub asked : Bytes → Bytes → Link → Bytes
asked out filename link = drop (length out) (send_new link packet_download filename).1.out

-- What the server adds to its side of the connection for a packet that it has read.
abbrev pub answered : Bytes → Io (Bool × Link × Server) → Bytes
answered out (done (active, link, srv)) = drop (length out) link.out
answered out waiting = []
answered out crash = []

abbrev pub answer : (Packet → Io (Bool × Link × Server)) → Bytes → Read → Bytes
answer handle out (packet p) = answered out (handle p)
answer handle out null = []
answer handle out waits = []

module _ (c i : ℕ) (session : Session) (context : UserContext) (folder_path files : Bytes) where
  download_step :
      (filename path content out : Bytes) (fs : FileSystem)
      → create_filepath folder_path filename ≡ some path
      → content_of fs path ≡ some content
      → Fits filename content
      → download_command filename folder_path fs (open_link out)
        ≡ done (open_link (out ++ transfer_of filename content))
  unfolding download_command
  download_step filename path content out fs hp hc fits =
      rw (hp, exists_file fs path content hc, download_command)
        (ap (λ r. elim r as (λ _. Io Link) [ none ↦ waiting | some link' ↦ done link' ])
          (send_file_lem filename folder_path path content out fs hp hc fits))

  command_step :
      (p : Packet) (link link' : Link) (srv : Server)
      → p.type ≡ 3
      → get_elem? srv.contexts.heap c ≡ some context
      → slot context i ≡ some session
      → download_command (argument p) folder_path srv.fs link ≡ done link'
      → handle_command c i folder_path files p link srv ≡ done (true, link', srv)
  unfolding handle_command
  command_step p link link' srv type at sat sent =
      rw (at, handle_command) (rw sat (rw type (rw sent refl)))

-- What the server sends for the packet of the command.
pub server_sends :
    (c i : ℕ) (session : Session) (context : UserContext)
    (folder_path files filename path content out : Bytes) (srv : Server)
    → get_elem? srv.contexts.heap c ≡ some context
    → slot context i ≡ some session
    → IsWord filename
    → create_filepath folder_path filename ≡ some path
    → content_of srv.fs path ≡ some content
    → Fits filename content
    → handle_command c i folder_path files (packet_of packet_download filename) (open_link out) srv
      ≡ done (true, open_link (out ++ transfer_of filename content), srv)
server_sends c i session context folder_path files filename path content out srv at sat w hp hc
      fits =
    let same = argument-packet_of packet_download filename w in
    command_step c i session context folder_path files (packet_of packet_download filename)
      (open_link out) (open_link (out ++ transfer_of filename content)) srv refl at sat
      (ap (λ f. download_command f folder_path srv.fs (open_link out)) same
        ∙ download_step c i session context folder_path files filename path content out srv.fs hp hc
            fits)
