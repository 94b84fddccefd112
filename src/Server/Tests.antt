-- ===== src/Server/Tests.antt =====
-- Tests of the server's requests, and its theorems at concrete inputs.
use inf01151_trabalho_final.Base.{
  ℕ, zero, suc, ◌≡◌, refl, some, true, List, [], ◌∷◌, ◌++◌, Bytes, codes, str_eq, replicate, arith,
  get_elem?, to_le,
}
use inf01151_trabalho_final.Text.{pos}
use inf01151_trabalho_final.Address.{no_address}
use inf01151_trabalho_final.Files.{FileSystem, create_filepath, content_of, lookup}
use inf01151_trabalho_final.Packet.Socket.{Event, data_in}
use inf01151_trabalho_final.Packet.{image}
use inf01151_trabalho_final.Packet.Stream.{arriving, IsStream}
use inf01151_trabalho_final.Transfer.{send_file, announcement, packet_amount}
use inf01151_trabalho_final.Transfer.Sending.{open_link, transfer_of, frames, send_file_lem}
use inf01151_trabalho_final.SyncBuffer.{FileEntry, invalid, init_file_sync_buffer}
use inf01151_trabalho_final.ContextTable.{found, null, search, insert, create, key_hash, scan}
use inf01151_trabalho_final.Replicas.{Replicas}
use inf01151_trabalho_final.Replicas.Invariant as ReplicaList
use inf01151_trabalho_final.Sessions.{
  SessionSockets, Session, UserContext, slot, create_session, max_sessions,
}
use inf01151_trabalho_final.Sessions.Slots.{HasRoom}
use inf01151_trabalho_final.Sessions.Users.{no_contexts}
use inf01151_trabalho_final.Server.{Server, handle_incoming_file}
use inf01151_trabalho_final.Server.Others.{IsTold}
use inf01151_trabalho_final.Transfer.Deleting.{deletion_of}
use inf01151_trabalho_final.Server.Removing.{Erased, deletion_lem}
use inf01151_trabalho_final.Server.Incoming.{IsServing, Uploaded, upload_lem}

abbrev memory : List FileEntry
memory = replicate 10 invalid

abbrev sockets : SessionSockets
sockets = record { interface_socketfd = pos 4; receive_socketfd = pos 5; send_socketfd = pos 6 }

abbrev session : ℕ → Session
unfolding create_session init_file_sync_buffer
session i = create_session i sockets no_address memory

-- A user with two sessions, and one file.
abbrev ana : UserContext
ana = record {
  username = codes "ana";
  sessions = some (session 0) ∷ some (session 1) ∷ [];
  file_list = record { key = codes "f"; crc = 1 } ∷ [];
}

abbrev no_replicas : Replicas
no_replicas = record { head = []; replica_count = 0; links = λ fd. open_link []; closed = [] }

no_replicas-IsValid : ReplicaList.IsValid no_replicas
no_replicas-IsValid = record { distinct = tt; counted = refl }

abbrev disk : FileSystem
disk = record { files = []; writable = λ p. true }

-- A manager with the one user.
abbrev srv : Server
unfolding insert create key_hash
srv = record {
  manager = true;
  contexts = record { heap = ana ∷ []; table = (insert (create 30) (codes "ana") 0).0 };
  replicas = no_replicas;
  fs = disk;
}

ana_at : get_elem? srv.contexts.heap 0 ≡ some ana
unfolding srv
ana_at = refl

known : search srv.contexts.table (codes "ana") ≡ found 0
unfolding srv search scan str_eq key_hash
known = refl

room : (j : ℕ) → IsTold max_sessions 0 0 j → HasRoom (slot ana j)
unfolding session
room zero t = absurd (t.2 refl)
room (suc zero) t = (omega arith, omega arith)
room (suc (suc j)) t = absurd (omega (arith, t.1))

-- The client's disk, and what it sends for a file of three bytes.
abbrev client_disk : FileSystem
client_disk = record { files = (codes "c/f", 7 ∷ 0 ∷ 9 ∷ []) ∷ []; writable = λ p. true }

abbrev wire : Bytes
unfolding transfer_of image to_le announcement packet_amount frames
wire = transfer_of (codes "f") (7 ∷ 0 ∷ 9 ∷ [])

abbrev events : List Event
events = data_in wire ∷ []

client_path : create_filepath (codes "c") (codes "f") ≡ some (codes "c/f")
unfolding create_filepath
client_path = refl

server_path : create_filepath (codes "d") (codes "f") ≡ some (codes "d/f")
unfolding create_filepath
server_path = refl

client_content : content_of client_disk (codes "c/f") ≡ some (7 ∷ 0 ∷ 9 ∷ [])
unfolding lookup str_eq
client_content = refl

sent : send_file (open_link []) (codes "f") (codes "c") client_disk ≡ some (open_link ([] ++ wire))
unfolding wire
sent =
    send_file_lem (codes "f") (codes "c") (codes "c/f") (7 ∷ 0 ∷ 9 ∷ []) [] client_disk client_path
      client_content (omega arith)

events-IsStream : IsStream events
unfolding wire
events-IsStream = (cc, tt)

events_arrive : arriving events ≡ wire ++ []
unfolding wire
events_arrive = refl

serving : IsServing 0 0 (session 0) ana srv
unfolding session srv
serving = record {
  context_there = ana_at;
  session_there = refl;
  active = refl;
  known = known;
  ready = room;
  catalog = (refl, tt);
  replicas = no_replicas-IsValid;
}

upload_lem_example :
    Uploaded 0
      (session 0).session_index
      (codes "f")
      (codes "d/f")
      (7 ∷ 0 ∷ 9 ∷ [])
      []
      ana
      srv
      (handle_incoming_file 0 0 (codes "d") events srv)
unfolding srv
upload_lem_example =
    upload_lem 0 0 (session 0) ana (codes "f") (codes "c") (codes "c/f") (7 ∷ 0 ∷ 9 ∷ []) [] wire
      (codes "d") (codes "d/f") [] client_disk events srv serving client_path client_content
      (omega arith) (omega arith) server_path refl sent events-IsStream events_arrive

-- The deletion of `f`, in one read.
abbrev deleting : List Event
unfolding image to_le
deleting = data_in (deletion_of (codes "f")) ∷ []

deleting-IsStream : IsStream deleting
unfolding deleting
deleting-IsStream = (cc, tt)

deleting_arrives : arriving deleting ≡ deletion_of (codes "f") ++ []
unfolding deleting
deleting_arrives = refl

deletion_lem_example :
    Erased 0
      (session 0).session_index
      (codes "f")
      (codes "d/f")
      []
      ana
      srv
      (handle_incoming_file 0 0 (codes "d") deleting srv)
unfolding srv
deletion_lem_example =
    deletion_lem 0 0 (session 0) ana (codes "f") (codes "d") (codes "d/f") [] deleting srv serving
      (omega arith) (omega arith) server_path deleting-IsStream deleting_arrives

no_user : search (no_contexts 30).table (codes "ana") ≡ null
unfolding search create key_hash scan
no_user = refl
