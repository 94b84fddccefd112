-- ===== src/Commands/Samples.antt =====
-- A server with one user, one session and one file, to try theorems of src/server/server.c on.
use inf01151_trabalho_final.Base.{
  ℕ, zero, suc, ◌≡◌, refl, none, some, true, [], ◌∷◌, codes, str_eq, replicate, arith,
}
use inf01151_trabalho_final.Address.{no_address}
use inf01151_trabalho_final.Files.{create_filepath, content_of, lookup}
use inf01151_trabalho_final.Transfer.Sending.{open_link}
use inf01151_trabalho_final.SyncBuffer.{invalid, init_file_sync_buffer}
use inf01151_trabalho_final.ContextTable.{found, search, insert, create, key_hash, scan}
use inf01151_trabalho_final.Replicas.{Replicas}
use inf01151_trabalho_final.Replicas.Invariant as ReplicaList
use inf01151_trabalho_final.Sessions.{Session, UserContext, create_session, max_sessions, slot}
use inf01151_trabalho_final.Sessions.Slots.{HasRoom}
use inf01151_trabalho_final.Server.{Server}
use inf01151_trabalho_final.Server.Others.{IsTold}
use inf01151_trabalho_final.Server.Incoming.{IsServing}
use inf01151_trabalho_final.Roles.{no_sockets}

unfoldable pub session : Session
unfolding create_session init_file_sync_buffer
session = create_session 0 no_sockets no_address (replicate 10 invalid)

abbrev pub ana : UserContext
ana = record {
  username = codes "ana";
  sessions = some session ∷ none ∷ [];
  file_list = record { key = codes "f"; crc = 1 } ∷ [];
}

abbrev pub no_replicas : Replicas
no_replicas = record { head = []; replica_count = 0; links = λ fd. open_link []; closed = [] }

pub no_replicas-IsValid : ReplicaList.IsValid no_replicas
no_replicas-IsValid = record { distinct = tt; counted = refl }

unfoldable pub srv : Server
unfolding insert create key_hash
srv = record {
  manager = true;
  contexts = record { heap = ana ∷ []; table = (insert (create 30) (codes "ana") 0).0 };
  replicas = no_replicas;
  fs = record { files = (codes "d/f", 7 ∷ 0 ∷ []) ∷ []; writable = λ p. true };
}

pub known : search srv.contexts.table (codes "ana") ≡ found 0
unfolding srv search scan str_eq key_hash
known = refl

pub room : (j : ℕ) → IsTold max_sessions 0 0 j → HasRoom (slot ana j)
unfolding session
room zero t = absurd (t.2 refl)
room (suc zero) t = tt
room (suc (suc j)) t = absurd (omega (arith, t.1))

pub serving : IsServing 0 0 session ana srv
unfolding session srv
serving = record {
  context_there = refl;
  session_there = refl;
  active = refl;
  known = known;
  ready = room;
  catalog = (refl, tt);
  replicas = no_replicas-IsValid;
}

pub path : create_filepath (codes "d") (codes "f") ≡ some (codes "d/f")
unfolding create_filepath
path = refl

pub content : content_of srv.fs (codes "d/f") ≡ some (7 ∷ 0 ∷ [])
unfolding srv lookup str_eq
content = refl
