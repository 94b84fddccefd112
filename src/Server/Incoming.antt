-- ===== src/Server/Incoming.antt =====
-- An upload from end to end: `send_file` of src/util/communication.c at a client, and
-- `handle_incoming_file` of src/server/server.c at the server.
use inf01151_trabalho_final.Base.{
  ℕ, ◌≡◌, ◌≢◌, ◌⊎◌, refl, ap, subst, sym, ◌∙◌, Bool, true, false, some, List, ◌++◌, Bytes, str_eq,
  str_eq_refl, if◌then◌else◌, get_elem?, Lacks,
}
use inf01151_trabalho_final.Files.{
  FileSystem, content_of, write_file, create_filepath, content_of-write_file,
}
use inf01151_trabalho_final.Packet.Socket.{Event}
use inf01151_trabalho_final.Packet.Stream.{arriving, IsStream}
use inf01151_trabalho_final.Packet.{Packet, packet, read_packet}
use inf01151_trabalho_final.Transfer.{Io, done, send_file, handle_send_delete}
use inf01151_trabalho_final.Transfer.Sending.{open_link, Fits}
use inf01151_trabalho_final.Transfer.RoundTrip.{transfer_lem}
use inf01151_trabalho_final.SyncBuffer.{file_entry_send}
use inf01151_trabalho_final.ContextTable.{found, search}
use inf01151_trabalho_final.Events.{ReplicaEvent, create_file_upload_event}
use inf01151_trabalho_final.Replicas.{Replicas}
use inf01151_trabalho_final.Replicas.Invariant.{IsValid}
use inf01151_trabalho_final.Replicas.Notify.{notify_replicas_lem}
use inf01151_trabalho_final.FileList.Checksum.{checksum, checksum_of}
use inf01151_trabalho_final.FileList.Laws.{crc_of, IsCatalog}
use inf01151_trabalho_final.Sessions.{Session, UserContext, slot}
use inf01151_trabalho_final.Server.{
  Server, with_replicas, tell_replicas, record_upload, apply_packet, send_file_event,
  handle_incoming_file,
}
use inf01151_trabalho_final.Server.Telling.{IsReady, Tells}
use inf01151_trabalho_final.Server.Handling.{applied_step, handled_step}
use inf01151_trabalho_final.Server.Upload.{Recorded, record_upload_lem}

-- A notification keeps the list of replicas consistent and touches nothing else.
pub tell_replicas_lem :
    (e : ReplicaEvent) (srv : Server)
    → IsValid srv.replicas
    → (replicas : Replicas) × (tell_replicas e srv ≡ done (with_replicas replicas srv))
      × IsValid replicas
unfolding tell_replicas
tell_replicas_lem e srv v =
    let (replicas, told, valid, _, _) = notify_replicas_lem srv.fs e srv.replicas v in
    (replicas, rw (told, tell_replicas), valid)

pub upload_event_lem :
    (manager : Bool) (context : UserContext) (session : Session) (filename : Bytes) (srv : Server)
    → IsValid srv.replicas
    → (replicas : Replicas) × (send_file_event manager context session 1 filename srv
        ≡ done (with_replicas replicas srv))
      × IsValid replicas
unfolding send_file_event
upload_event_lem false context session filename srv v = (srv.replicas, refl, v)
upload_event_lem true context session filename srv v =
    tell_replicas_lem (create_file_upload_event context.username session.device_address filename)
      srv v

-- A server that serves an active session: its context is the one that the table has for the user, its
-- list of files has no name twice, a manager's queues for the other sessions have room, and the list
-- of replicas is consistent.
pub record IsServing (c i : ℕ) (session : Session) (context : UserContext) (srv : Server)
    : Type 0 where
  pub context_there : get_elem? srv.contexts.heap c ≡ some context
  pub session_there : slot context i ≡ some session
  pub active : session.active ≡ true
  pub known : search srv.contexts.table context.username ≡ found c
  pub ready : IsReady srv.manager session.session_index context
  pub catalog : IsCatalog context.file_list
  pub replicas : IsValid srv.replicas

-- What an upload makes of the server.
pub record Uploaded (c own : ℕ) (filename saved_path content after : Bytes) (context : UserContext)
    (srv : Server) (result : Io (Bool × Server × List Event)) : Type 0 where
  pub state : Server
  pub left : List Event
  pub context_after : UserContext
  pub returns : result ≡ done (true, state, left)
  pub stored : content_of state.fs saved_path ≡ some content
  pub other_files :
      (q : Bytes) → str_eq q saved_path ≡ false → content_of state.fs q ≡ content_of srv.fs q
  pub holds : get_elem? state.contexts.heap c ≡ some context_after
  pub catalog : IsCatalog context_after.file_list
  pub recorded :
      (q : Bytes)
      → crc_of context_after.file_list q
        ≡ (if str_eq q filename then some (checksum content) else crc_of context.file_list q)
  pub tells :
      ((crc_of context.file_list filename ≡ some (checksum content)) × (context_after ≡ context))
      ⊎ ((crc_of context.file_list filename ≢ some (checksum content))
          × Tells srv.manager own filename file_entry_send
              (record context { file_list = context_after.file_list })
              context_after)
  pub replicas : IsValid state.replicas
  pub remaining : arriving left ≡ after
  pub stream : IsStream left

apply_upload :
    (c : ℕ) (session : Session) (filename folder_path : Bytes) (srv : Server)
    → apply_packet c session 1 filename folder_path srv
      ≡ record_upload c session filename folder_path srv
unfolding apply_packet
apply_upload c session filename folder_path srv = refl

stored_checksum :
    (fs : FileSystem) (folder_path filename saved_path content : Bytes)
    → create_filepath folder_path filename ≡ some saved_path
    → checksum_of (write_file fs saved_path content) (create_filepath folder_path filename)
      ≡ checksum content
stored_checksum fs folder_path filename saved_path content hp =
    ap (checksum_of (write_file fs saved_path content)) hp
    ∙ rw (content_of-write_file fs saved_path content saved_path, checksum_of)
        (rw (str_eq_refl saved_path))

-- The server's part, once the transfer is known to arrive.
upload_handled :
    (c i : ℕ) (session : Session) (context : UserContext)
    (filename folder_path saved_path content after : Bytes) (events left : List Event) (p : Packet)
    (srv : Server)
    → IsServing c i session context srv
    → create_filepath folder_path filename ≡ some saved_path
    → (read_packet events).0 ≡ packet p
    → p.type ≡ 1
    → handle_send_delete p folder_path srv.fs (read_packet events).1
      ≡ done (some filename, write_file srv.fs saved_path content, left)
    → arriving left ≡ after
    → IsStream left
    → Uploaded c session.session_index filename saved_path content after context srv
        (handle_incoming_file c i folder_path events srv)
upload_handled c i session context filename folder_path saved_path content after events left p srv h
      hp read type handled rest still =
    let saved : Server = record srv { fs = write_file srv.fs saved_path content } in
    let r =
      subst
        (λ new.
          Recorded c session.session_index filename new context saved
            (record_upload c session filename folder_path saved))
        (stored_checksum srv.fs folder_path filename saved_path content hp)
        (record_upload_lem c session filename folder_path saved context h.context_there h.known
          h.ready h.catalog) in
    let (replicas, told, valid) =
      upload_event_lem r.state.manager context session filename r.state
        (subst IsValid (sym r.frame.same_replicas) h.replicas) in
    let disk = r.frame.same_disk in
    record {
      state = with_replicas replicas r.state;
      left = left;
      context_after = r.context_after;
      returns =
          handled_step c i session context folder_path 1 filename events left p saved.fs srv
            (with_replicas replicas r.state) h.context_there h.session_there read type refl handled
            (applied_step c i session context folder_path 1 filename saved r.state h.active
                (apply_upload c session filename folder_path saved ∙ r.returns)
              ∙ told);
      stored =
          ap (λ fs. content_of fs saved_path) disk
          ∙ content_of-write_file srv.fs saved_path content saved_path
          ∙ rw (str_eq_refl saved_path);
      other_files = λ q ne.
          ap (λ fs. content_of fs q) disk
          ∙ content_of-write_file srv.fs saved_path content q
          ∙ rw ne refl;
      holds = r.holds;
      catalog = r.catalog;
      recorded = r.recorded;
      tells = r.tells;
      replicas = valid;
      remaining = rest;
      stream = still;
    }

-- A file that a client sends with `send_file` is, when the server's `handle_incoming_file` returns, on
-- the server's disk with the same content, and listed under its name with the checksum of that
-- content; the other files and the list's other entries are as before. If the checksum is new, a
-- manager has queued the file for each other session of the user; if not, for none. The call returns,
-- leaves what follows on the stream, and keeps the list of replicas consistent.
pub upload_lem :
    (c i : ℕ) (session : Session) (context : UserContext)
    (filename basepath sent_path content out bytes folder_path saved_path after : Bytes)
    (from : FileSystem) (events : List Event) (srv : Server)
    → IsServing c i session context srv
    → create_filepath basepath filename ≡ some sent_path
    → content_of from sent_path ≡ some content
    → Fits filename content
    → Lacks 0 filename
    → create_filepath folder_path filename ≡ some saved_path
    → srv.fs.writable saved_path ≡ true
    → send_file (open_link out) filename basepath from ≡ some (open_link (out ++ bytes))
    → IsStream events
    → arriving events ≡ bytes ++ after
    → Uploaded c session.session_index filename saved_path content after context srv
        (handle_incoming_file c i folder_path events srv)
upload_lem c i session context filename basepath sent_path content out bytes folder_path saved_path
      after from events srv h hp hc fits no_nul hp' hw sends s e =
    let (p, left, type, read, handled, rest, still) =
      transfer_lem filename basepath sent_path content out bytes folder_path saved_path after from
        srv.fs events hp hc fits no_nul hp' hw sends s e in
    upload_handled c i session context filename folder_path saved_path content after events left p
      srv h hp' read type handled rest still
