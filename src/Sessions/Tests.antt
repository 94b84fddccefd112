-- ===== src/Sessions/Tests.antt =====
-- Tests of contexts and sessions, and their theorems at concrete inputs.
use inf01151_trabalho_final.Base.{
  ℕ, ◌≡◌, refl, none, some, List, [], ◌∷◌, codes, str_eq, replicate, arith, All, length,
}
use inf01151_trabalho_final.Text.{pos}
use inf01151_trabalho_final.Address.{SockaddrIn}
use inf01151_trabalho_final.Transfer.{done}
use inf01151_trabalho_final.SyncBuffer.{FileEntry, invalid, file_entry_send, init_file_sync_buffer}
use inf01151_trabalho_final.ContextTable.{found, null, search, insert, create, key_hash, scan}
use inf01151_trabalho_final.Sessions.{
  Session, UserContext, Contexts, slot, create_session, session_by_address, send_file_to_session,
  free_slot,
}
use inf01151_trabalho_final.Sessions.Slots.{
  HasRoom, SentTo, FreeSlot, free_slot_lem, send_file_to_session_lem,
}
use inf01151_trabalho_final.Sessions.Disconnect.{InHeap}
use inf01151_trabalho_final.Sessions.Users.{no_contexts}

abbrev memory : List FileEntry
memory = replicate 10 invalid

abbrev device : ℕ → SockaddrIn
device port = record { sin_family = 2; sin_addr = 167772167; sin_port = port }

abbrev session : ℕ → ℕ → Session
unfolding create_session init_file_sync_buffer
session i port =
    create_session i
      (record { interface_socketfd = pos 4; receive_socketfd = pos 5; send_socketfd = pos 6 })
      (device port) memory

abbrev ana : UserContext
ana = record {
  username = codes "ana";
  sessions = some (session 0 4001) ∷ some (session 1 4002) ∷ [];
  file_list = [];
}

no_slot : free_slot ana.sessions 0 ≡ none
unfolding free_slot
no_slot = refl

free_slot_lem_example : FreeSlot ana.sessions 0 (free_slot ana.sessions 0)
free_slot_lem_example = free_slot_lem ana.sessions 0

second_session : session_by_address ana.sessions (device 4002) 0 ≡ some (1, session 1 4002)
unfolding session_by_address session
second_session = refl

has_room : HasRoom (slot ana 1)
unfolding session
has_room = (omega arith, omega arith)

send_file_to_session_lem_example :
    (context' : UserContext) × (send_file_to_session 1 (codes "a.txt") file_entry_send ana
      ≡ done context')
    × SentTo 1 (codes "a.txt") file_entry_send ana context'
send_file_to_session_lem_example =
    send_file_to_session_lem 1 (codes "a.txt") file_entry_send ana has_room

-- A table of thirty buckets with the one user.
abbrev one_user : Contexts
unfolding insert create key_hash
one_user = record { heap = ana ∷ []; table = (insert (create 30) (codes "ana") 0).0 }

known : search one_user.table (codes "ana") ≡ found 0
unfolding one_user search scan str_eq key_hash
known = refl

unknown : search one_user.table (codes "bob") ≡ null
unfolding one_user search scan str_eq key_hash
unknown = refl

one_user_entries : All (InHeap (length one_user.heap)) one_user.table.array
unfolding one_user insert create key_hash
one_user_entries = ground arith

no_user : search (no_contexts 30).table (codes "ana") ≡ null
unfolding search create key_hash scan
no_user = refl
