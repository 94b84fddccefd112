-- ===== src/Server/Delete.antt =====
-- What `remove_file_from_user_list` of src/server/server.c does.
use native.Mathlib.Decide.{ℕ_discrete}
use inf01151_trabalho_final.Base.{
  ℕ, ◌≡◌, ◌≢◌, ◌⊎◌, inl, inr, refl, ap, subst, sym, ◌∙◌, true, Option, some, none, List, Bytes,
  Option-cases, get_elem?,
}
use inf01151_trabalho_final.Transfer.{Io, done, ◌>>=◌}
use inf01151_trabalho_final.SyncBuffer.{file_entry_delete}
use inf01151_trabalho_final.ContextTable.{found, search}
use inf01151_trabalho_final.FileList.{FileNode, remove_node}
use inf01151_trabalho_final.FileList.Laws.{
  crc_of, IsCatalog, Removes, remove_node_lem, remove_node-none,
}
use inf01151_trabalho_final.FileList.Status.{current, status_unlisted, status_same, status_changed}
use inf01151_trabalho_final.Sessions.{Session, UserContext, or_crash, remove_file_from_context}
use inf01151_trabalho_final.Server.Telling.{
  Frame, with_context-Frame, Frame-then, context_at-with, IsReady, IsReady-files, Tells,
  Tells-files, spread_if_lem,
}
use inf01151_trabalho_final.Server.{Server, with_context, spread, remove_file_from_user_list}

-- What the call does.
pub record Removed (c own : ℕ) (filename : Bytes) (context : UserContext) (srv : Server)
    (result : Io Server) : Type 0 where
  pub state : Server
  pub context_after : UserContext
  pub returns : result ≡ done state
  pub holds : get_elem? state.contexts.heap c ≡ some context_after
  pub frame : Frame c srv state
  pub removes : Removes context.file_list filename context_after.file_list
  pub tells :
      ((crc_of context.file_list filename ≡ none) × (state ≡ srv))
      ⊎ ((crc_of context.file_list filename ≢ none)
          × Tells srv.manager own filename file_entry_delete
              (record context { file_list = context_after.file_list })
              context_after)

none-ne-some : {A : Type 0} {a : A} → ◌≡◌ {A = Option A} none (some a) → ⊥
none-ne-some e = cc

module _ (c : ℕ) (session : Session) (filename folder_path : Bytes) (srv : Server)
    (context : UserContext) where
  abbrev without_file : List FileNode → Server
  without_file rest = with_context c (record context { file_list = rest }) srv

  removed_from_context :
      (rest : List FileNode)
      → get_elem? srv.contexts.heap c ≡ some context
      → search srv.contexts.table context.username ≡ found c
      → remove_node context.file_list filename ≡ some rest
      → remove_file_from_context filename context.username srv.contexts
        ≡ done (true, (without_file rest).contexts)
  unfolding remove_file_from_context
  removed_from_context rest at known e =
      rw (known, remove_file_from_context) (rw at (rw (e, ◌>>=◌, or_crash)))

  removal_unlisted :
      get_elem? srv.contexts.heap c ≡ some context
      → crc_of context.file_list filename ≡ none
      → remove_file_from_user_list c session filename folder_path srv ≡ done srv
  unfolding remove_file_from_user_list
  removal_unlisted at absent =
      rw (at, remove_file_from_user_list)
        (rw (status_unlisted context.file_list filename folder_path srv.fs absent))

  removal_listed :
      (old : ℕ) (rest : List FileNode)
      → get_elem? srv.contexts.heap c ≡ some context
      → search srv.contexts.table context.username ≡ found c
      → crc_of context.file_list filename ≡ some old
      → remove_node context.file_list filename ≡ some rest
      → remove_file_from_user_list c session filename folder_path srv
        ≡ spread c session.session_index filename file_entry_delete (without_file rest)
  unfolding remove_file_from_user_list
  removal_listed old rest at known had e =
      elim (ℕ_discrete (current context.file_list filename folder_path srv.fs) old) [
        | yes same ↦
            rw (at, remove_file_from_user_list)
              (rw
                (status_same context.file_list filename folder_path srv.fs
                  (had ∙ ap some (sym same)))
                (rw (removed_from_context rest at known e) refl))
        | no ne ↦
            rw (at, remove_file_from_user_list)
              (rw (status_changed context.file_list filename folder_path srv.fs old had ne)
                (rw (removed_from_context rest at known e) refl))
      ]

  removal_told :
      (rest : List FileNode)
      → get_elem? srv.contexts.heap c ≡ some context
      → IsReady srv.manager session.session_index context
      → remove_file_from_user_list c session filename folder_path srv
        ≡ spread c session.session_index filename file_entry_delete (without_file rest)
      → crc_of context.file_list filename ≢ none
      → Removes context.file_list filename rest
      → Removed c session.session_index filename context srv
          (remove_file_from_user_list c session filename folder_path srv)
  removal_told rest at ready by_spread listed removes =
      let shorter : UserContext = record context { file_list = rest } in
      let s =
        spread_if_lem c session.session_index filename file_entry_delete (without_file rest)
          srv.manager shorter (context_at-with c context shorter srv at)
          (IsReady-files srv.manager session.session_index context rest ready) in
      let files =
        Tells-files srv.manager session.session_index filename file_entry_delete shorter
          s.context_after s.tells in
      record {
        state = s.state;
        context_after = s.context_after;
        returns = by_spread ∙ s.returns;
        holds = s.holds;
        frame = Frame-then (with_context-Frame c shorter srv) s.frame;
        removes = subst (Removes context.file_list filename) (sym files) removes;
        tells = inr (
          listed,
          subst
              (λ l.
                Tells srv.manager session.session_index filename file_entry_delete
                  (record context { file_list = l }) s.context_after)
              (sym files) s.tells,
        );
      }

  -- After the removal of a file the user's list does not have its name, and has every other name with
  -- its checksum. If the list had the name, a manager has queued the deletion for each other session
  -- of the user; if not, nothing happens. The call returns if the queues have room.
  pub remove_file_from_user_list_lem :
      get_elem? srv.contexts.heap c ≡ some context
      → search srv.contexts.table context.username ≡ found c
      → IsReady srv.manager session.session_index context
      → IsCatalog context.file_list
      → Removed c session.session_index filename context srv
          (remove_file_from_user_list c session filename folder_path srv)
  remove_file_from_user_list_lem at known ready catalog =
      elim (remove_node_lem context.file_list filename catalog) [
        | inl (nothing, absent) ↦ record {
          state = srv;
          context_after = context;
          returns = removal_unlisted at absent;
          holds = at;
          frame = record {
            same_mode = refl;
            same_replicas = refl;
            same_disk = refl;
            same_table = refl;
            others = λ d ne. refl;
          };
          removes = record { gone = absent; others = λ q ne. refl; catalog = catalog };
          tells = inl (absent, refl);
        }
        | inr (rest, e, removes) ↦ elim (Option-cases (crc_of context.file_list filename)) [
          | inl absent ↦
              absurd (none-ne-some (sym (remove_node-none context.file_list filename absent) ∙ e))
          | inr (old, had) ↦
              removal_told rest at ready (removal_listed old rest at known had e)
                (λ absent. none-ne-some (sym absent ∙ had)) removes
        ]
      ]
