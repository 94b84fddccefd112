-- ===== src/Server/Telling.antt =====
-- The part of a request of src/server/server.c that queues a file for the other sessions of its user.
use inf01151_trabalho_final.Base.{
  ℕ, ◌≡◌, ◌≢◌, refl, ap, ◌∙◌, Bool, true, false, some, List, Bytes, get_elem?, get_elem?-set_self,
  get_elem?-set_ne, get_elem?-lt,
}
use inf01151_trabalho_final.Transfer.{Io, done}
use inf01151_trabalho_final.SyncBuffer.{FileEntryType}
use inf01151_trabalho_final.FileList.{FileNode}
use inf01151_trabalho_final.Sessions.{max_sessions, UserContext, slot}
use inf01151_trabalho_final.Sessions.Slots.{HasRoom}
use inf01151_trabalho_final.Server.Others.{IsTold, Spread, send_to_others_lem}
use inf01151_trabalho_final.Server.{Server, with_context, spread_if, send_to_others}

-- What a request for the context `c` leaves alone.
pub record Frame (c : ℕ) (srv srv' : Server) : Type 0 where
  pub same_mode : srv'.manager ≡ srv.manager
  pub same_replicas : srv'.replicas ≡ srv.replicas
  pub same_disk : srv'.fs ≡ srv.fs
  pub same_table : srv'.contexts.table ≡ srv.contexts.table
  pub others : (d : ℕ) → c ≢ d → get_elem? srv'.contexts.heap d ≡ get_elem? srv.contexts.heap d

pub with_context-Frame :
    (c : ℕ) (context : UserContext) (srv : Server) → Frame c srv (with_context c context srv)
with_context-Frame c context srv = record {
  same_mode = refl;
  same_replicas = refl;
  same_disk = refl;
  same_table = refl;
  others = λ d ne. get_elem?-set_ne srv.contexts.heap context ne;
}

pub Frame-then : {c : ℕ} {a b d : Server} → Frame c a b → Frame c b d → Frame c a d
Frame-then f g = record {
  same_mode = g.same_mode ∙ f.same_mode;
  same_replicas = g.same_replicas ∙ f.same_replicas;
  same_disk = g.same_disk ∙ f.same_disk;
  same_table = g.same_table ∙ f.same_table;
  others = λ e ne. g.others e ne ∙ f.others e ne;
}

pub context_at-with :
    (c : ℕ) (context context' : UserContext) (srv : Server)
    → get_elem? srv.contexts.heap c ≡ some context
    → get_elem? (with_context c context' srv).contexts.heap c ≡ some context'
context_at-with c context context' srv e =
    get_elem?-set_self srv.contexts.heap c context' (get_elem?-lt srv.contexts.heap c context e)

-- A manager queues the file for the user's other sessions; a backup does not.
abbrev pub IsReady : Bool → ℕ → UserContext → Type 0
IsReady false own context = Unit
IsReady true own context = (j : ℕ) → IsTold max_sessions 0 own j → HasRoom (slot context j)

pub IsReady-files :
    (manager : Bool) (own : ℕ) (context : UserContext) (list : List FileNode)
    → IsReady manager own context
    → IsReady manager own (record context { file_list = list })
IsReady-files false own context list ready = tt
IsReady-files true own context list ready = ready

abbrev pub Tells : Bool → ℕ → Bytes → FileEntryType → UserContext → UserContext → Type 0
Tells false own filename type context context' = context' ≡ context
Tells true own filename type context context' =
    Spread max_sessions 0 own filename type context context'

pub Tells-files :
    (manager : Bool) (own : ℕ) (filename : Bytes) (type : FileEntryType)
    (context context' : UserContext)
    → Tells manager own filename type context context'
    → context'.file_list ≡ context.file_list
Tells-files false own filename type context context' t = ap (λ x. x.file_list) t
Tells-files true own filename type context context' t = t.same_files

-- What `spread` does.
pub record Spreads (manager : Bool) (c own : ℕ) (filename : Bytes) (type : FileEntryType)
    (context : UserContext) (srv : Server) (result : Io Server) : Type 0 where
  pub state : Server
  pub context_after : UserContext
  pub returns : result ≡ done state
  pub holds : get_elem? state.contexts.heap c ≡ some context_after
  pub tells : Tells manager own filename type context context_after
  pub frame : Frame c srv state

module _ (c own : ℕ) (filename : Bytes) (type : FileEntryType) (srv : Server) where
  spread_backup : spread_if false c own filename type srv ≡ done srv
  unfolding spread_if
  spread_backup = refl

  spread_manager :
      (context context' : UserContext)
      → get_elem? srv.contexts.heap c ≡ some context
      → send_to_others max_sessions 0 own filename type context ≡ done context'
      → spread_if true c own filename type srv ≡ done (with_context c context' srv)
  unfolding spread_if
  spread_manager context context' at sent = rw (at, spread_if) (rw sent)

  pub spread_if_lem :
      (manager : Bool) (context : UserContext)
      → get_elem? srv.contexts.heap c ≡ some context
      → IsReady manager own context
      → Spreads manager c own filename type context srv (spread_if manager c own filename type srv)
  spread_if_lem false context at ready = record {
    state = srv;
    context_after = context;
    returns = spread_backup;
    holds = at;
    tells = refl;
    frame = record {
      same_mode = refl;
      same_replicas = refl;
      same_disk = refl;
      same_table = refl;
      others = λ d ne. refl;
    };
  }
  spread_if_lem true context at ready =
      let (context', sent, spreads) =
        send_to_others_lem max_sessions 0 own filename type context ready in
      record {
        state = with_context c context' srv;
        context_after = context';
        returns = spread_manager context context' at sent;
        holds = context_at-with c context context' srv at;
        tells = spreads;
        frame = with_context-Frame c context' srv;
      }
