-- ===== src/Commands/Delete.antt =====
-- The command DELETE of src/server/server.c.
use inf01151_trabalho_final.Base.{
  ℕ, ◌≡◌, ◌⊎◌, refl, ap, subst, sym, ◌∙◌, Bool, true, false, some, none, Bytes, str_eq, str_eq_refl,
  get_elem?,
}
use inf01151_trabalho_final.Files.{
  FileSystem, content_of, remove_file, create_filepath, lookup-without,
}
use inf01151_trabalho_final.Packet.Socket.{Link}
use inf01151_trabalho_final.Packet.{Packet}
use inf01151_trabalho_final.Transfer.{Io, done}
use inf01151_trabalho_final.SyncBuffer.{file_entry_delete}
use inf01151_trabalho_final.Replicas.Invariant.{IsValid}
use inf01151_trabalho_final.FileList.Laws.{crc_of, Removes}
use inf01151_trabalho_final.Sessions.{Session, UserContext, slot}
use inf01151_trabalho_final.Server.{
  Server, with_replicas, send_file_event, remove_file_from_user_list,
}
use inf01151_trabalho_final.Server.Telling.{Tells}
use inf01151_trabalho_final.Server.Delete.{remove_file_from_user_list_lem}
use inf01151_trabalho_final.Server.Incoming.{IsServing}
use inf01151_trabalho_final.Server.Removing.{delete_event_lem, told_if_listed}
use inf01151_trabalho_final.Commands.{exists, argument, delete_command, handle_command}

-- What a deletion makes of the server.
pub record Deleted (c i : ℕ) (session : Session) (filename path : Bytes) (context : UserContext)
    (link : Link) (srv : Server) (result : Io (Bool × Link × Server)) : Type 0 where
  pub state : Server
  pub context_after : UserContext
  pub returns : result ≡ done (true, link, state)
  pub removed : content_of state.fs path ≡ none
  pub other_files :
      (q : Bytes) → str_eq q path ≡ false → content_of state.fs q ≡ content_of srv.fs q
  pub holds : get_elem? state.contexts.heap c ≡ some context_after
  pub removes : Removes context.file_list filename context_after.file_list
  pub tells :
      (crc_of context.file_list filename ≡ none)
      ⊎ Tells srv.manager session.session_index filename file_entry_delete
          (record context { file_list = context_after.file_list })
          context_after
  pub replicas : IsValid state.replicas

module _ (c i : ℕ) (session : Session) (context : UserContext) (folder_path files : Bytes) where
  delete_step :
      (filename path : Bytes) (srv srv' srv'' : Server)
      → create_filepath folder_path filename ≡ some path
      → exists srv.fs (some path) ≡ true
      → remove_file_from_user_list c session filename folder_path srv ≡ done srv'
      → send_file_event srv'.manager context session 4 filename
          (record srv' { fs = remove_file srv'.fs path })
        ≡ done srv''
      → delete_command c context session filename folder_path srv ≡ done srv''
  unfolding delete_command
  delete_step filename path srv srv' srv'' hp there unlisted told =
      rw (hp, there, delete_command) (rw unlisted told)

  command_step :
      (p : Packet) (link : Link) (srv srv' : Server)
      → p.type ≡ 4
      → get_elem? srv.contexts.heap c ≡ some context
      → slot context i ≡ some session
      → delete_command c context session (argument p) folder_path srv ≡ done srv'
      → handle_command c i folder_path files p link srv ≡ done (true, link, srv')
  unfolding handle_command
  command_step p link srv srv' type at sat deleted =
      rw (at, handle_command) (rw sat (rw type (rw deleted refl)))

pub exists_file :
    (fs : FileSystem) (path content : Bytes)
    → content_of fs path ≡ some content
    → exists fs (some path) ≡ true
exists_file fs path content e = rw (e, exists)

-- A DELETE command of a file that is on the disk takes the file off the disk and its name out of the
-- user's list, and leaves all other files and names. If the name was listed, a manager has queued the
-- deletion for each other session of the user. The command returns, leaves the session active, and
-- keeps the list of replicas consistent.
pub delete_command_lem :
    (c i : ℕ) (session : Session) (context : UserContext) (folder_path files path content : Bytes)
    (p : Packet) (link : Link) (srv : Server)
    → IsServing c i session context srv
    → p.type ≡ 4
    → create_filepath folder_path (argument p) ≡ some path
    → content_of srv.fs path ≡ some content
    → Deleted c i session
        (argument p)
        path
        context
        link
        srv
        (handle_command c i folder_path files p link srv)
delete_command_lem c i session context folder_path files path content p link srv h type hp there =
    let filename = argument p in
    let r =
      remove_file_from_user_list_lem c session filename folder_path srv context h.context_there
        h.known h.ready h.catalog in
    let cleaned : Server = record r.state { fs = remove_file r.state.fs path } in
    let (replicas, told, valid) =
      delete_event_lem r.state.manager context session filename cleaned
        (subst IsValid (sym r.frame.same_replicas) h.replicas) in
    record {
      state = with_replicas replicas cleaned;
      context_after = r.context_after;
      returns =
          command_step c i session context folder_path files p link srv
            (with_replicas replicas cleaned) type h.context_there h.session_there
            (delete_step c i session context folder_path files filename path srv r.state
              (with_replicas replicas cleaned) hp (exists_file srv.fs path content there) r.returns
              told);
      removed = lookup-without r.state.fs.files path path ∙ rw (str_eq_refl path);
      other_files = λ q ne.
          lookup-without r.state.fs.files path q
          ∙ rw ne refl
          ∙ ap (λ fs. content_of fs q) r.frame.same_disk;
      holds = r.holds;
      removes = r.removes;
      tells = told_if_listed r.tells;
      replicas = valid;
    }
