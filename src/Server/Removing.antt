-- ===== src/Server/Removing.antt =====
-- A deletion from end to end: `delete` of src/client/client.c, or the event of a manager, sends it, and
-- `handle_incoming_file` of src/server/server.c takes it.
use inf01151_trabalho_final.Base.{
  ℕ, ◌^◌, ◌<◌, ◌≡◌, ◌⊎◌, inl, inr, refl, ap, subst, sym, ◌∙◌, Bool, true, false, some, none, List,
  ◌++◌, Bytes, str_eq, str_eq_refl, get_elem?, Lacks, length,
}
use inf01151_trabalho_final.Files.{content_of, remove_file, create_filepath, lookup-without}
use inf01151_trabalho_final.Packet.Socket.{Event}
use inf01151_trabalho_final.Packet.Stream.{arriving, IsStream}
use inf01151_trabalho_final.Packet.{read_packet, packet_delete}
use inf01151_trabalho_final.Packet.Framing.{packet_of}
use inf01151_trabalho_final.Transfer.{Io, done}
use inf01151_trabalho_final.Transfer.Deleting.{deletion_of, deletion_arrives}
use inf01151_trabalho_final.SyncBuffer.{file_entry_delete}
use inf01151_trabalho_final.Events.{create_file_delete_event}
use inf01151_trabalho_final.Replicas.{Replicas}
use inf01151_trabalho_final.Replicas.Invariant.{IsValid}
use inf01151_trabalho_final.FileList.Laws.{crc_of, Removes}
use inf01151_trabalho_final.Sessions.{Session, UserContext}
use inf01151_trabalho_final.Server.{
  Server, with_replicas, send_file_event, remove_file_from_user_list, apply_packet,
  handle_incoming_file,
}
use inf01151_trabalho_final.Server.Telling.{Tells}
use inf01151_trabalho_final.Server.Delete.{remove_file_from_user_list_lem}
use inf01151_trabalho_final.Server.Handling.{applied_step, handled_step}
use inf01151_trabalho_final.Server.Incoming.{IsServing, tell_replicas_lem}

pub delete_event_lem :
    (manager : Bool) (context : UserContext) (session : Session) (filename : Bytes) (srv : Server)
    → IsValid srv.replicas
    → (replicas : Replicas) × (send_file_event manager context session 4 filename srv
        ≡ done (with_replicas replicas srv))
      × IsValid replicas
unfolding send_file_event
delete_event_lem false context session filename srv v = (srv.replicas, refl, v)
delete_event_lem true context session filename srv v =
    tell_replicas_lem (create_file_delete_event context.username session.device_address filename)
      srv v

-- Who was told, without what the removal says of a name that is not listed.
pub told_if_listed : {A : Type 0} {B : Type 0} {C : Type 0} {D : Type 0} → (A × B) ⊎ (C × D) → A ⊎ D
told_if_listed (inl (a, b)) = inl a
told_if_listed (inr (c, d)) = inr d

-- What a deletion that arrives makes of the server.
pub record Erased (c own : ℕ) (filename path after : Bytes) (context : UserContext) (srv : Server)
    (result : Io (Bool × Server × List Event)) : Type 0 where
  pub state : Server
  pub left : List Event
  pub context_after : UserContext
  pub returns : result ≡ done (true, state, left)
  pub removed : content_of state.fs path ≡ none
  pub other_files :
      (q : Bytes) → str_eq q path ≡ false → content_of state.fs q ≡ content_of srv.fs q
  pub holds : get_elem? state.contexts.heap c ≡ some context_after
  pub removes : Removes context.file_list filename context_after.file_list
  pub tells :
      (crc_of context.file_list filename ≡ none)
      ⊎ Tells srv.manager own filename file_entry_delete
          (record context { file_list = context_after.file_list })
          context_after
  pub replicas : IsValid state.replicas
  pub remaining : arriving left ≡ after
  pub stream : IsStream left

apply_deletion :
    (c : ℕ) (session : Session) (filename folder_path : Bytes) (srv : Server)
    → apply_packet c session 4 filename folder_path srv
      ≡ remove_file_from_user_list c session filename folder_path srv
unfolding apply_packet
apply_deletion c session filename folder_path srv = refl

-- A deletion that arrives at the server on the stream of an active session takes the file off the
-- disk and its name out of the user's list, and leaves all other files and names. If the name was
-- listed, a manager has queued the deletion for each other session of the user. The call returns,
-- leaves what follows on the stream, and keeps the list of replicas consistent. The name fits a
-- packet and holds no NUL.
pub deletion_lem :
    (c i : ℕ) (session : Session) (context : UserContext) (filename folder_path path after : Bytes)
    (events : List Event) (srv : Server)
    → IsServing c i session context srv
    → Lacks 0 filename
    → length filename < 2 ^ 16
    → create_filepath folder_path filename ≡ some path
    → IsStream events
    → arriving events ≡ deletion_of filename ++ after
    → Erased c session.session_index filename path after context srv
        (handle_incoming_file c i folder_path events srv)
deletion_lem c i session context filename folder_path path after events srv h z fits hp s arrives =
    let cleaned : Server = record srv { fs = remove_file srv.fs path } in
    let (read, handled, rest, still) =
      deletion_arrives folder_path filename path after srv.fs events z fits hp s arrives in
    let r =
      remove_file_from_user_list_lem c session filename folder_path cleaned context h.context_there
        h.known h.ready h.catalog in
    let (replicas, told, valid) =
      delete_event_lem r.state.manager context session filename r.state
        (subst IsValid (sym r.frame.same_replicas) h.replicas) in
    record {
      state = with_replicas replicas r.state;
      left = (read_packet events).1;
      context_after = r.context_after;
      returns =
          handled_step c i session context folder_path 4 filename events (read_packet events).1
            (packet_of packet_delete filename) cleaned.fs srv (with_replicas replicas r.state)
            h.context_there h.session_there read refl refl handled
            (applied_step c i session context folder_path 4 filename cleaned r.state h.active
                (apply_deletion c session filename folder_path cleaned ∙ r.returns)
              ∙ told);
      removed =
          ap (λ fs. content_of fs path) r.frame.same_disk
          ∙ lookup-without srv.fs.files path path
          ∙ rw (str_eq_refl path);
      other_files = λ q ne.
          ap (λ fs. content_of fs q) r.frame.same_disk
          ∙ lookup-without srv.fs.files path q
          ∙ rw ne refl;
      holds = r.holds;
      removes = r.removes;
      tells = told_if_listed r.tells;
      replicas = valid;
      remaining = rest;
      stream = still;
    }
