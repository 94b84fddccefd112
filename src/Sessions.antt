-- ===== src/Sessions.antt =====
-- The contexts of the users and their sessions: src/util/connectionManagement.c with its header. A
-- `UserContext *` is an index into the contexts allocated so far; a session is reached through the
-- slot of its context that holds it.
pub mod Slots
pub mod Users
pub mod Disconnect
mod Tests
use inf01151_trabalho_final.Base.{
  ℕ, zero, suc, ◌+◌, ◌-◌, Bool, true, false, Option, none, some, List, [], ◌∷◌, ◌++◌, Bytes, length,
  get_elem?, set, map, replicate, ltb, ◌==◌, ◌&&◌, if◌then◌else◌,
}
use inf01151_trabalho_final.Text.{ℤ, pos, negsuc}
use inf01151_trabalho_final.Address.{SockaddrIn}
use inf01151_trabalho_final.Files.{FileSystem, create_filepath}
use inf01151_trabalho_final.Transfer.{Io, done, waiting, crash, ◌>>=◌}
use inf01151_trabalho_final.SyncBuffer.{
  FileEntry, FileEntryType, FileSyncBuffer, init_file_sync_buffer, add_file_to_sync_buffer,
}
use inf01151_trabalho_final.ContextTable.{HashTable, found, null, fault, search, insert}
use inf01151_trabalho_final.FileList.{FileNode, file_linked_list_push, remove_node, crc32}

-- MAX_SESSIONS
abbrev pub max_sessions : ℕ
max_sessions = 2

pub record SessionSockets : Type 0 where
  pub interface_socketfd : ℤ
  pub receive_socketfd : ℤ
  pub send_socketfd : ℤ

pub record Session : Type 0 where
  pub session_index : ℕ
  pub active : Bool
  pub device_address : SockaddrIn
  pub sockets : SessionSockets
  pub sync_buffer : FileSyncBuffer

pub record UserContext : Type 0 where
  pub username : Bytes
  pub sessions : List (Option Session)
  pub file_list : List FileNode

-- The contexts allocated so far, and the table from user names to them.
pub record Contexts : Type 0 where
  pub heap : List UserContext
  pub table : HashTable ℕ

abbrev pub or_crash {ℓ} : {A : Type ℓ} → Option A → Io A
or_crash none = crash
or_crash (some a) = done a

unfoldable pub create_context : Bytes → UserContext
create_context username = record {
  username = username;
  sessions = replicate max_sessions none;
  file_list = [];
}

-- A search that reads through NULL does not return.
unfoldable pub get_or_create_context : Bytes → Contexts → Io (ℕ × Contexts)
get_or_create_context username s = elim (search s.table username) [
  | found context ↦ done (context, s)
  | fault ↦ crash
  | null ↦
      let (table, context) = insert s.table username (length s.heap) in
      done (context, record { heap = s.heap ++ create_context username ∷ []; table = table })
]

-- The first free slot from `i` on; -1 is `none`.
unfoldable pub free_slot : List (Option Session) → ℕ → Option ℕ
free_slot [] i = none
free_slot (none ∷ sessions) i = some i
free_slot (some session ∷ sessions) i = free_slot sessions (suc i)

abbrev pub find_free_session_index : UserContext → Option ℕ
find_free_session_index context = free_slot context.sessions 0

-- Return code 1, that the user has no context, is `false`.
unfoldable pub add_file_to_context :
    Bytes → Bytes → Bytes → FileSystem → Contexts → Io (Bool × Contexts)
add_file_to_context filename base_path username fs s = elim (search s.table username) [
  | null ↦ done (false, s)
  | fault ↦ crash
  | found c ↦ (do
    context ← or_crash (get_elem? s.heap c)
    crc ← crc32 fs (create_filepath base_path filename)
    let file_list = file_linked_list_push context.file_list filename crc
    done (true, record s { heap = set s.heap c (record context { file_list = file_list }) }))
]

-- Likewise; `false` also stands for a name that is not in the list.
unfoldable pub remove_file_from_context : Bytes → Bytes → Contexts → Io (Bool × Contexts)
remove_file_from_context filename username s = elim (search s.table username) [
  | null ↦ done (false, s)
  | fault ↦ crash
  | found c ↦ (do
    context ← or_crash (get_elem? s.heap c)
    elim (remove_node context.file_list filename) [
      | none ↦ done (false, s)
      | some rest ↦
          done (true, record s { heap = set s.heap c (record context { file_list = rest }) })
    ])
]

-- The last argument is what the allocated memory holds where the queue's array lies.
unfoldable pub create_session : ℕ → SessionSockets → SockaddrIn → List FileEntry → Session
create_session index sockets device_address memory = record {
  session_index = index;
  active = true;
  device_address = device_address;
  sockets = sockets;
  sync_buffer = init_file_sync_buffer memory;
}

-- The session at a slot, or NULL.
abbrev pub slot : UserContext → ℕ → Option Session
slot context i = elim (get_elem? context.sessions i) [ none ↦ none | some session ↦ session ]

-- A full queue makes the caller wait.
unfoldable pub send_file_to_session : ℕ → Bytes → FileEntryType → UserContext → Io UserContext
send_file_to_session send_to_index filename type context = elim (slot context send_to_index) [
  | none ↦ done context
  | some session ↦
      elim (add_file_to_sync_buffer context.username session.session_index filename type
        session.sync_buffer) [
          | none ↦ waiting
          | some sync_buffer ↦ done (record context {
            sessions =
                set context.sessions send_to_index
                  (some (record session { sync_buffer = sync_buffer }));
          })
        ]
]

unfoldable pub get_user_session : Option UserContext → ℤ → Option Session
get_user_session none session_index = none
get_user_session (some context) (negsuc n) = none
get_user_session (some context) (pos i) = if ltb i max_sessions then slot context i else none

abbrev pub same_endpoint : SockaddrIn → SockaddrIn → Bool
same_endpoint a b = (a.sin_addr == b.sin_addr) && (a.sin_port == b.sin_port)

-- The first session of that address, with its slot.
unfoldable pub session_by_address : List (Option Session) → SockaddrIn → ℕ → Option (ℕ × Session)
session_by_address [] target i = none
session_by_address (none ∷ sessions) target i = session_by_address sessions target (suc i)
session_by_address (some session ∷ sessions) target i =
    if same_endpoint session.device_address target
    then some (i, session)
    else session_by_address sessions target (suc i)

abbrev pub get_user_session_by_address : Option UserContext → SockaddrIn → Option (ℕ × Session)
get_user_session_by_address none target = none
get_user_session_by_address (some context) target = session_by_address context.sessions target 0

abbrev pub disconnect : UserContext → UserContext
disconnect context = record context { sessions = replicate max_sessions none }

-- The contexts of one chain.
unfoldable pub disconnect_chain : List (Bytes × ℕ) → List UserContext → Io (List UserContext)
disconnect_chain [] heap = done heap
disconnect_chain ((username, c) ∷ node) heap = (do
  context ← or_crash (get_elem? heap c)
  disconnect_chain node (set heap c (disconnect context)))

unfoldable pub disconnect_buckets :
    List (List (Bytes × ℕ)) → List UserContext → Io (List UserContext)
disconnect_buckets [] heap = done heap
disconnect_buckets (chain ∷ array) heap = (do
  heap' ← disconnect_chain chain heap
  disconnect_buckets array heap')

unfoldable pub disconnect_all_users : Contexts → Io Contexts
disconnect_all_users s = (do
  heap ← disconnect_buckets s.table.array s.heap
  done (record s { heap = heap }))
