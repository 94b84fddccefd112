-- ===== src/Roles/Samples.antt =====
-- A backup with one user, one session and one file, to try theorems of src/server/serverRoles.c on.
use inf01151_trabalho_final.Base.{
  ◌≡◌, refl, none, some, true, false, [], ◌∷◌, codes, str_eq, replicate, arith,
}
use inf01151_trabalho_final.Address.{SockaddrIn, af_inet}
use inf01151_trabalho_final.Files.{FileSystem, create_filepath}
use inf01151_trabalho_final.Transfer.Sending.{open_link}
use inf01151_trabalho_final.SyncBuffer.{invalid, init_file_sync_buffer}
use inf01151_trabalho_final.ContextTable.{found, search, insert, create, key_hash, scan}
use inf01151_trabalho_final.Events.RoundTrip.{IsName}
use inf01151_trabalho_final.Replicas.{Replicas, get_user_folder}
use inf01151_trabalho_final.Replicas.Invariant as ReplicaList
use inf01151_trabalho_final.Sessions.{Session, UserContext, create_session, session_by_address}
use inf01151_trabalho_final.Server.{Server}
use inf01151_trabalho_final.Server.Incoming.{IsServing}
use inf01151_trabalho_final.Roles.{Moment, Backup, no_sockets}

-- 10.0.0.7, port 4002
abbrev pub device : SockaddrIn
device = record { sin_family = 2; sin_addr = 167772167; sin_port = 4002 }

unfoldable pub session : Session
unfolding create_session init_file_sync_buffer
session = create_session 0 no_sockets device (replicate 10 invalid)

abbrev pub ana : UserContext
ana = record {
  username = codes "ana";
  sessions = some session ∷ none ∷ [];
  file_list = record { key = codes "f"; crc = 1 } ∷ [];
}

abbrev pub no_replicas : Replicas
no_replicas = record { head = []; replica_count = 0; links = λ fd. open_link []; closed = [] }

pub no_replicas-IsValid : ReplicaList.IsValid no_replicas
no_replicas-IsValid = record { distinct = tt; counted = refl }

-- A backup that knows the user's session at the manager.
unfoldable pub srv : Server
unfolding insert create key_hash
srv = record {
  manager = false;
  contexts = record { heap = ana ∷ []; table = (insert (create 30) (codes "ana") 0).0 };
  replicas = no_replicas;
  fs = record { files = []; writable = λ p. true };
}

abbrev pub backup : Backup
backup = record { server = srv; last_heartbeat = 0; has_connection_closed = false }

abbrev pub moment : Moment
moment = record { now = 3; memory = []; socket = none; allocated = true }

abbrev pub manager_disk : FileSystem
manager_disk = record {
  files = (codes "user files/ana/f", 7 ∷ 0 ∷ 9 ∷ []) ∷ [];
  writable = λ p. true;
}

pub path :
    create_filepath (get_user_folder (codes "ana")) (codes "f") ≡ some (codes "user files/ana/f")
unfolding create_filepath
path = refl

pub known : search srv.contexts.table (codes "ana") ≡ found 0
unfolding srv search scan str_eq key_hash
known = refl

pub serving : IsServing 0 0 session ana srv
unfolding session srv
serving = record {
  context_there = refl;
  session_there = refl;
  active = refl;
  known = known;
  ready = tt;
  catalog = (refl, tt);
  replicas = no_replicas-IsValid;
}

pub the_session :
    session_by_address ana.sessions (record device { sin_family = af_inet }) 0 ≡ some (0, session)
unfolding session_by_address session
the_session = refl

pub ana-IsName : IsName (codes "ana")
ana-IsName = (cc, (omega arith, (omega arith, (omega arith, tt))))

pub f-IsName : IsName (codes "f")
f-IsName = (cc, (omega arith, tt))
