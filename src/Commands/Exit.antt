-- ===== src/Commands/Exit.antt =====
-- The end of a session: the command EXIT of src/server/server.c.
use inf01151_trabalho_final.Base.{
  ℕ, ◌≡◌, ◌≢◌, refl, sym, ◌∙◌, Bool, false, some, none, Bytes, get_elem?, set, get_elem?-set_ne,
}
use inf01151_trabalho_final.Packet.Socket.{Link}
use inf01151_trabalho_final.Packet.{Packet, type_code, packet_exit}
use inf01151_trabalho_final.Transfer.{Io, done}
use inf01151_trabalho_final.Events.{create_client_disconnected_event}
use inf01151_trabalho_final.Replicas.{Replicas}
use inf01151_trabalho_final.Replicas.Invariant.{IsValid}
use inf01151_trabalho_final.Sessions.{Session, UserContext, slot}
use inf01151_trabalho_final.Sessions.Slots.{slot-set-none}
use inf01151_trabalho_final.Server.{Server, with_context, with_replicas, tell_replicas}
use inf01151_trabalho_final.Server.Telling.{context_at-with}
use inf01151_trabalho_final.Server.Incoming.{tell_replicas_lem}
use inf01151_trabalho_final.Commands.{command_type, exit_command, handle_command}

-- What the end of a session makes of the server.
pub record Exited (c i : ℕ) (context : UserContext) (link : Link) (srv : Server)
    (result : Io (Bool × Link × Server)) : Type 0 where
  pub state : Server
  pub context_after : UserContext
  pub returns : result ≡ done (false, link, state)
  pub holds : get_elem? state.contexts.heap c ≡ some context_after
  pub freed : slot context_after i ≡ none
  pub other_slots : (j : ℕ) → i ≢ j → slot context_after j ≡ slot context j
  pub same_files : context_after.file_list ≡ context.file_list
  pub other_users :
      (d : ℕ) → c ≢ d → get_elem? state.contexts.heap d ≡ get_elem? srv.contexts.heap d
  pub replicas : IsValid state.replicas

module _ (c i : ℕ) (session : Session) (context : UserContext) (srv : Server) where
  abbrev gone : UserContext
  gone = record context { sessions = set context.sessions session.session_index none }

  exit_step :
      (replicas : Replicas)
      → get_elem? srv.contexts.heap c ≡ some context
      → tell_replicas
          (create_client_disconnected_event context.username session.device_address)
          (with_context c gone srv)
        ≡ done (with_replicas replicas (with_context c gone srv))
      → exit_command c session srv ≡ done (with_replicas replicas (with_context c gone srv))
  unfolding exit_command
  exit_step replicas at told = rw (at, exit_command) told

  command_step :
      (folder_path files : Bytes) (p : Packet) (link : Link) (srv' : Server)
      → command_type p ≡ 5
      → get_elem? srv.contexts.heap c ≡ some context
      → slot context i ≡ some session
      → exit_command c session srv ≡ done srv'
      → handle_command c i folder_path files p link srv ≡ done (false, link, srv')
  unfolding handle_command
  command_step folder_path files p link srv' type at sat exited =
      rw (at, handle_command) (rw sat (rw type (rw exited refl)))

  -- A session that is at its own slot ends with an EXIT command or a closed connection: its slot is
  -- free for a new session, every other slot, the user's files and the other users are as before, the
  -- thread's loop ends, and the list of replicas stays consistent.
  pub exit_command_lem :
      (folder_path files : Bytes) (p : Packet) (link : Link)
      → command_type p ≡ type_code packet_exit
      → get_elem? srv.contexts.heap c ≡ some context
      → slot context i ≡ some session
      → session.session_index ≡ i
      → IsValid srv.replicas
      → Exited c i context link srv (handle_command c i folder_path files p link srv)
  exit_command_lem folder_path files p link type at sat index v =
      let (replicas, told, valid) =
        tell_replicas_lem (create_client_disconnected_event context.username session.device_address)
          (with_context c gone srv) v in
      record {
        state = with_replicas replicas (with_context c gone srv);
        context_after = gone;
        returns = command_step folder_path files p link _ type at sat (exit_step replicas at told);
        holds = context_at-with c context gone srv at;
        freed = rw (← index, slot) (slot-set-none context.sessions session.session_index);
        other_slots =
            λ j ne. rw (get_elem?-set_ne context.sessions none (λ e. ne (sym index ∙ e)), slot);
        same_files = refl;
        other_users = λ d ne. get_elem?-set_ne srv.contexts.heap gone ne;
        replicas = valid;
      }
