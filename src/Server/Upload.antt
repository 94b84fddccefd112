-- ===== src/Server/Upload.antt =====
-- What `handle_incoming_file` of src/server/server.c records of an upload, and whom it tells.
use native.Mathlib.Decide.{ℕ_discrete}
use inf01151_trabalho_final.Base.{
  ℕ, ◌≡◌, ◌≢◌, ◌⊎◌, inl, inr, refl, ap, subst, sym, ◌∙◌, true, some, none, List, Bytes, str_eq,
  str_eq_sound, if◌then◌else◌, Option-cases, Bool-cases, get_elem?,
}
use inf01151_trabalho_final.Files.{create_filepath}
use inf01151_trabalho_final.Transfer.{Io, done}
use inf01151_trabalho_final.SyncBuffer.{file_entry_send}
use inf01151_trabalho_final.ContextTable.{found, search}
use inf01151_trabalho_final.FileList.{FileNode, file_linked_list_push, set_crc}
use inf01151_trabalho_final.FileList.Checksum.{crc32_lem}
use inf01151_trabalho_final.FileList.Laws.{crc_of, IsCatalog, crc_of-set_crc, set_crc-IsCatalog}
use inf01151_trabalho_final.FileList.Status.{current, status_unlisted, status_same, status_changed}
use inf01151_trabalho_final.Sessions.{Session, UserContext, add_file_to_context}
use inf01151_trabalho_final.Server.Telling.{
  Frame, with_context-Frame, Frame-then, context_at-with, IsReady, IsReady-files, Tells,
  Tells-files, spread_if_lem,
}
use inf01151_trabalho_final.Server.{Server, with_context, spread, record_upload}

-- What `record_upload` does; `new` is the checksum of the file on the disk.
pub record Recorded (c own : ℕ) (filename : Bytes) (new : ℕ) (context : UserContext) (srv : Server)
    (result : Io Server) : Type 0 where
  pub state : Server
  pub context_after : UserContext
  pub returns : result ≡ done state
  pub holds : get_elem? state.contexts.heap c ≡ some context_after
  pub frame : Frame c srv state
  pub catalog : IsCatalog context_after.file_list
  pub recorded :
      (q : Bytes)
      → crc_of context_after.file_list q
        ≡ (if str_eq q filename then some new else crc_of context.file_list q)
  pub tells :
      ((crc_of context.file_list filename ≡ some new) × (context_after ≡ context))
      ⊎ ((crc_of context.file_list filename ≢ some new)
          × Tells srv.manager own filename file_entry_send
              (record context { file_list = context_after.file_list })
              context_after)

module _ (c : ℕ) (session : Session) (filename folder_path : Bytes) (srv : Server)
    (context : UserContext) where
  abbrev new_crc : ℕ
  new_crc = current context.file_list filename folder_path srv.fs

  -- The state once a list is stored in the context.
  abbrev listed : List FileNode → Server
  listed list = with_context c (record context { file_list = list }) srv

  added_to_context :
      get_elem? srv.contexts.heap c ≡ some context
      → search srv.contexts.table context.username ≡ found c
      → add_file_to_context filename folder_path context.username srv.fs srv.contexts
        ≡ done (true, (listed (file_linked_list_push context.file_list filename new_crc)).contexts)
  unfolding add_file_to_context
  added_to_context at known =
      rw (known, add_file_to_context)
        (rw (at, crc32_lem srv.fs (create_filepath folder_path filename)))

  upload_new :
      get_elem? srv.contexts.heap c ≡ some context
      → search srv.contexts.table context.username ≡ found c
      → crc_of context.file_list filename ≡ none
      → record_upload c session filename folder_path srv
        ≡ spread c session.session_index filename file_entry_send
            (listed (file_linked_list_push context.file_list filename new_crc))
  unfolding record_upload
  upload_new at known absent =
      rw (at, record_upload)
        (rw (status_unlisted context.file_list filename folder_path srv.fs absent)
          (rw (added_to_context at known) refl))

  upload_changed :
      (old : ℕ)
      → get_elem? srv.contexts.heap c ≡ some context
      → crc_of context.file_list filename ≡ some old
      → new_crc ≢ old
      → record_upload c session filename folder_path srv
        ≡ spread c session.session_index filename file_entry_send
            (listed (set_crc context.file_list filename new_crc))
  unfolding record_upload
  upload_changed old at had ne =
      rw (at, record_upload)
        (rw (status_changed context.file_list filename folder_path srv.fs old had ne)
          (rw (crc32_lem srv.fs (create_filepath folder_path filename)) refl))

  upload_same :
      get_elem? srv.contexts.heap c ≡ some context
      → crc_of context.file_list filename ≡ some new_crc
      → record_upload c session filename folder_path srv ≡ done srv
  unfolding record_upload
  upload_same at had =
      rw (at, record_upload) (rw (status_same context.file_list filename folder_path srv.fs had))

  -- The end of the two cases that change the list.
  upload_told :
      (list : List FileNode)
      → get_elem? srv.contexts.heap c ≡ some context
      → IsReady srv.manager session.session_index context
      → record_upload c session filename folder_path srv
        ≡ spread c session.session_index filename file_entry_send (listed list)
      → crc_of context.file_list filename ≢ some new_crc
      → IsCatalog list
      → ((q : Bytes)
          → crc_of list q
            ≡ (if str_eq q filename then some new_crc else crc_of context.file_list q))
      → Recorded c session.session_index filename new_crc context srv
          (record_upload c session filename folder_path srv)
  upload_told list at ready by_spread changed catalog map =
      let context_listed : UserContext = record context { file_list = list } in
      let s =
        spread_if_lem c session.session_index filename file_entry_send (listed list) srv.manager
          context_listed (context_at-with c context context_listed srv at)
          (IsReady-files srv.manager session.session_index context list ready) in
      let files =
        Tells-files srv.manager session.session_index filename file_entry_send context_listed
          s.context_after s.tells in
      record {
        state = s.state;
        context_after = s.context_after;
        returns = by_spread ∙ s.returns;
        holds = s.holds;
        frame = Frame-then (with_context-Frame c context_listed srv) s.frame;
        catalog = subst IsCatalog (sym files) catalog;
        recorded = λ q. ap (λ l. crc_of l q) files ∙ map q;
        tells = inr (
          changed,
          subst
              (λ l.
                Tells srv.manager session.session_index filename file_entry_send
                  (record context { file_list = l }) s.context_after)
              (sym files) s.tells,
        );
      }

  upload_known :
      (old : ℕ)
      → get_elem? srv.contexts.heap c ≡ some context
      → IsReady srv.manager session.session_index context
      → IsCatalog context.file_list
      → crc_of context.file_list filename ≡ some old
      → Recorded c session.session_index filename new_crc context srv
          (record_upload c session filename folder_path srv)
  upload_known old at ready catalog had = elim (ℕ_discrete new_crc old) [
    | yes same ↦
        let had_new : crc_of context.file_list filename ≡ some new_crc = had ∙ ap some (sym same) in
        record {
          state = srv;
          context_after = context;
          returns = upload_same at had_new;
          holds = at;
          frame = record {
            same_mode = refl;
            same_replicas = refl;
            same_disk = refl;
            same_table = refl;
            others = λ d ne. refl;
          };
          catalog = catalog;
          recorded = λ q. elim (Bool-cases (str_eq q filename)) [
            | inl e ↦ rw e (ap (crc_of context.file_list) (str_eq_sound q filename e) ∙ had_new)
            | inr e ↦ rw e refl
          ];
          tells = inl (had_new, refl);
        }
    | no ne ↦
        upload_told (set_crc context.file_list filename new_crc) at ready
          (upload_changed old at had ne) (λ e. ne (cc (e, had)))
          (set_crc-IsCatalog context.file_list filename new_crc catalog)
          (λ q. crc_of-set_crc context.file_list filename q new_crc old had)
  ]

  -- After an upload the list has the checksum that the file on the disk has now, under its name once,
  -- and every other name as before. If that is a change, a manager has queued the file, in the order of
  -- arrival, for each other session of the user and for no one else; if the list had the checksum
  -- already, nothing happens. The call returns if the queues have room.
  pub record_upload_lem :
      get_elem? srv.contexts.heap c ≡ some context
      → search srv.contexts.table context.username ≡ found c
      → IsReady srv.manager session.session_index context
      → IsCatalog context.file_list
      → Recorded c session.session_index filename new_crc context srv
          (record_upload c session filename folder_path srv)
  record_upload_lem at known ready catalog =
      elim (Option-cases (crc_of context.file_list filename)) [
        | inl absent ↦
            upload_told (file_linked_list_push context.file_list filename new_crc) at ready
              (upload_new at known absent) (λ e. cc (e, absent)) (absent, catalog) (λ q. refl)
        | inr (old, had) ↦ upload_known old at ready catalog had
      ]
