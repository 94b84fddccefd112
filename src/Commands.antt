-- ===== src/Commands.antt =====
-- The commands of a user on a session's interface connection: the thread `interface` of
-- src/server/server.c. One turn of its loop is a step.
pub mod Delete
pub mod Exit
pub mod Samples
mod Tests
use inf01151_trabalho_final.Base.{
  ℕ, Bool, true, false, Option, none, some, List, [], ◌∷◌, ◌++◌, Bytes, set, get_elem?, length,
  ◌==◌, if◌then◌else◌, c_string,
}
use inf01151_trabalho_final.Files.{FileSystem, content_of, remove_file, create_filepath}
use inf01151_trabalho_final.Packet.Socket.{Link}
use inf01151_trabalho_final.Packet.{
  Packet, payload, PacketTypes, type_code, packet_data, packet_list, packet_download, packet_delete,
  packet_exit, packet_error, packet_connection_closed, create_packet, send_packet, SendCode, ok,
}
use inf01151_trabalho_final.Transfer.{Io, done, crash, waiting, ◌>>=◌, send_new, send_file}
use inf01151_trabalho_final.Events.{create_client_disconnected_event}
use inf01151_trabalho_final.Sessions.{Session, UserContext, or_crash, slot}
use inf01151_trabalho_final.Server.{
  Server, context_at, with_context, tell_replicas, remove_file_from_user_list,
  send_file_event_to_replicas,
}

-- access(filepath, F_OK) == 0; a path that is NULL cannot be accessed.
abbrev pub exists : FileSystem → Option Bytes → Bool
exists fs none = false
exists fs (some path) = elim (content_of fs path) [ none ↦ false | some content ↦ true ]

-- The payload with a NUL behind it.
abbrev pub argument : Packet → Bytes
argument p = c_string (payload p ++ 0 ∷ [])

-- After an error the packet is freed twice.
unfoldable pub list_command : Bytes → Link → Io Link
list_command files link =
    let (code, link') = send_new link packet_data files in elim code [ ok ↦ done link' | _ ↦ crash ]

unfoldable pub download_command : Bytes → Bytes → FileSystem → Link → Io Link
download_command filename folder_path fs link =
    if exists fs (create_filepath folder_path filename)
    then elim (send_file link filename folder_path fs) [ none ↦ waiting | some link' ↦ done link' ]
    else done (send_packet link (create_packet packet_error 0 none)).1

-- remove(filepath) of a file that is there.
abbrev pub remove_from_disk : Option Bytes → Server → Server
remove_from_disk none srv = srv
remove_from_disk (some path) srv = record srv { fs = remove_file srv.fs path }

unfoldable pub delete_command : ℕ → UserContext → Session → Bytes → Bytes → Server → Io Server
delete_command c context session filename folder_path srv =
    if exists srv.fs (create_filepath folder_path filename)
    then (do
      unlisted ← remove_file_from_user_list c session filename folder_path srv
      send_file_event_to_replicas context session (type_code packet_delete) filename
          (remove_from_disk (create_filepath folder_path filename) unlisted))
    else done srv

-- Once the session's threads are joined: its slot is freed, and the replicas are told.
unfoldable pub exit_command : ℕ → Session → Server → Io Server
exit_command c session srv = (do
  context ← context_at srv c
  let e = create_client_disconnected_event context.username session.device_address
  let gone = record context { sessions = set context.sessions session.session_index none }
  tell_replicas e (with_context c gone srv))

-- A closed connection counts as an exit.
abbrev pub command_type : Packet → ℕ
command_type p =
    if p.type == type_code packet_connection_closed then type_code packet_exit else p.type

-- `files` is what `list_files` gives. The Boolean says whether the session stays active.
unfoldable pub handle_command :
    ℕ → ℕ → Bytes → Bytes → Packet → Link → Server → Io (Bool × Link × Server)
handle_command c i folder_path files p link srv = (do
  context ← context_at srv c
  session ← or_crash (slot context i)
  if command_type p == type_code packet_list
      then (do link' ← list_command files link; done (true, link', srv))
      else if command_type p == type_code packet_download
      then (do
        link' ← download_command (argument p) folder_path srv.fs link
        done (true, link', srv))
      else if command_type p == type_code packet_delete
      then (do
        srv' ← delete_command c context session (argument p) folder_path srv
        done (true, link, srv'))
      else if command_type p == type_code packet_exit
      then (do srv' ← exit_command c session srv; done (false, link, srv'))
      else done (true, link, srv))
