-- ===== src/Startup.antt =====
-- The arguments of a server and of a client, and the ports of a server: `parse_server_arguments` and
-- `main` of src/server/server.c, and `main` of src/client/client.c.
pub mod Arguments
pub mod Meeting
mod Tests
use inf01151_trabalho_final.Base.{
  ℕ, zero, suc, ◌+◌, ◌%◌, ◌^◌, Bool, true, false, Option, none, some, List, [], ◌∷◌, Bytes, codes,
  str_eq, length, take, ltb, if◌then◌else◌,
}
use inf01151_trabalho_final.Text.{ℤ, pos, negsuc, atoi}
use inf01151_trabalho_final.Address.{to_u16}
use inf01151_trabalho_final.Transfer.{Io, done, crash, ◌>>=◌}
use inf01151_trabalho_final.Failover.{Client}

-- The globals that the arguments of a server set; `manager` is global_server_mode == BACKUP_MANAGER.
pub record Settings : Type 0 where
  pub id : ℤ
  pub my_server_ip : Bytes
  pub manager : Bool
  pub manager_ip : Bytes
  pub manager_port : ℤ

-- The messages under which the process exits, or the settings it goes on with.
pub data Parsing : Type 0 where
  usage invalid_id no_manager invalid_port invalid_mode : Parsing
  started : Settings → Parsing

unfoldable pub is_positive : ℤ → Bool
is_positive (pos zero) = false
is_positive (pos (suc n)) = true
is_positive (negsuc n) = false

-- strncpy(destination, text, n), and a NUL at `n`.
abbrev pub copied : ℕ → Bytes → Bytes
copied n text = take n text

unfoldable pub with_manager : Bytes → ℤ → Settings → Parsing
with_manager manager_ip manager_port s =
    if is_positive manager_port
    then started (record s {
      manager = false;
      manager_ip = copied 255 manager_ip;
      manager_port = manager_port;
    })
    else invalid_port

-- The branch of `-B`, with the arguments behind the mode.
unfoldable pub parse_manager : List Bytes → Settings → Parsing
parse_manager [] s = no_manager
parse_manager (manager_ip ∷ []) s = no_manager
parse_manager (manager_ip ∷ port ∷ more) s = with_manager manager_ip (atoi port) s

unfoldable pub parse_mode : Bytes → List Bytes → Settings → Parsing
parse_mode mode more s =
    if str_eq mode (codes "-M")
    then started s
    else if str_eq mode (codes "-B")
    then parse_manager more s
    else invalid_mode

-- The settings before the mode is read, with the initial values of the globals.
abbrev pub named_settings : ℤ → Bytes → Settings
named_settings id ip = record {
  id = id;
  my_server_ip = copied 255 ip;
  manager = true;
  manager_ip = [];
  manager_port = negsuc 0;
}

unfoldable pub parse_id : ℤ → Bytes → Bytes → List Bytes → Parsing
parse_id id ip mode more =
    if is_positive id then parse_mode mode more (named_settings id ip) else invalid_id

-- The list is argv, so its length is argc.
unfoldable pub parse_server_arguments : List Bytes → Parsing
parse_server_arguments (program ∷ id ∷ ip ∷ mode ∷ more) = parse_id (atoi id) ip mode more
parse_server_arguments _ = usage

-- The ports on which a server listens.
pub record ServerPorts : Type 0 where
  pub interface : ℕ
  pub receive : ℕ
  pub send : ℕ
  pub replica : ℕ

abbrev pub server_ports : ℕ → ServerPorts
server_ports interface_socket_port = record {
  interface = interface_socket_port;
  receive = (interface_socket_port + 1) % 2 ^ 16;
  send = (interface_socket_port + 2) % 2 ^ 16;
  replica = (interface_socket_port + 3) % 2 ^ 16;
}

-- The initial values of the globals of the client, but the name.
abbrev pub named_client : Bytes → Client
named_client username = record {
  username = username;
  hostname = codes "localhost";
  console_socket_port = 4000;
  signal_reconnect = false;
  threads_exited = 0;
}

-- strcpy(hostname, …): `hostname` holds 20 bytes.
unfoldable pub with_hostname : Bytes → Client → Io Client
with_hostname hostname k =
    if ltb (length hostname) 20 then done (record k { hostname = hostname }) else crash

-- `main` of the client up to the folder; `none` is the exit without a name.
unfoldable pub parse_client_arguments : List Bytes → Io (Option Client)
parse_client_arguments [] = done none
parse_client_arguments (program ∷ []) = done none
parse_client_arguments (program ∷ username ∷ []) = done (some (named_client username))
parse_client_arguments (program ∷ username ∷ hostname ∷ []) = (do
  k ← with_hostname hostname (named_client username)
  done (some k))
parse_client_arguments (program ∷ username ∷ hostname ∷ port ∷ more) = (do
  k ← with_hostname hostname (named_client username)
  done (some (record k { console_socket_port = to_u16 (atoi port) })))
