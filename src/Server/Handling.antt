-- ===== src/Server/Handling.antt =====
-- The steps of `handle_incoming_file` of src/server/server.c that uploads and deletions share.
use inf01151_trabalho_final.Base.{
  ℕ, ◌≡◌, ap, ◌∙◌, Bool, true, false, some, List, Bytes, if◌then◌else◌, get_elem?, ◌==◌,
}
use inf01151_trabalho_final.Files.{FileSystem}
use inf01151_trabalho_final.Packet.Socket.{Event}
use inf01151_trabalho_final.Packet.{Packet, packet, read_packet}
use inf01151_trabalho_final.Transfer.{Io, done, ◌>>=◌, handle_send_delete}
use inf01151_trabalho_final.Sessions.{Session, UserContext, slot}
use inf01151_trabalho_final.Server.{
  Server, apply_packet, send_file_event, incoming_file, handle_incoming_file,
}

module _ (c i : ℕ) (session : Session) (context : UserContext) (folder_path : Bytes)
    (type : ℕ) where
  pub applied_step :
      (filename : Bytes) (srv srv' : Server)
      → session.active ≡ true
      → apply_packet c session type filename folder_path srv ≡ done srv'
      → incoming_file c context session type (some filename) folder_path srv
        ≡ send_file_event srv'.manager context session type filename srv'
  unfolding incoming_file
  applied_step filename srv srv' active applies =
      ap
        (λ a.
          (if a then apply_packet c session type filename folder_path srv else done srv)
          >>= λ applied. send_file_event applied.manager context session type filename applied)
        active
      ∙ ap
          (λ r.
            r >>= λ applied. send_file_event applied.manager context session type filename applied)
          applies

  pub handled_step :
      (filename : Bytes) (events left : List Event) (p : Packet) (fs : FileSystem)
      (srv srv' : Server)
      → get_elem? srv.contexts.heap c ≡ some context
      → slot context i ≡ some session
      → (read_packet events).0 ≡ packet p
      → p.type ≡ type
      → (type == 7) ≡ false
      → handle_send_delete p folder_path srv.fs (read_packet events).1
        ≡ done (some filename, fs, left)
      → incoming_file c context session type (some filename) folder_path (record srv { fs = fs })
        ≡ done srv'
      → handle_incoming_file c i folder_path events srv ≡ done (true, srv', left)
  unfolding handle_incoming_file
  handled_step filename events left p fs srv srv' at sat read type_is other handled applied =
      rw (at, handle_incoming_file)
        (rw sat (
          rw read (
            rw handled (
              ap
                (λ t. elim (t == 7) as (λ x. Io (Bool × Server × List Event)) [
                  | true ↦ done (false, record srv { fs = fs }, left)
                  | false ↦
                      incoming_file c context session t (some filename) folder_path
                        (record srv { fs = fs })
                      >>= λ srv''. done (true, srv'', left)
                ])
                type_is
              ∙ rw other (ap (λ r. r >>= λ srv''. done (true, srv'', left)) applied)))))
