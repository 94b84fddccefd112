-- ===== src/Client/Copy.antt =====
-- The copy of a file into the synchronised folder: `upload` of src/client/client.c.
use inf01151_trabalho_final.Base.{
  ◌≡◌, refl, ap, subst, sym, ◌∙◌, Bool, true, false, some, none, [], ◌∷◌, ◌++◌, arith, Bytes, Lacks,
  str_eq, str_eq_refl, if◌then◌else◌, eqb_ne,
}
use inf01151_trabalho_final.Files.{FileSystem, content_of, write_file, content_of-write_file}
use inf01151_trabalho_final.Client.{
  behind_slash, basename, build_destination_path, copy_into, copy_file, upload,
}

behind_slash-none : (name : Bytes) → Lacks b'/' name → behind_slash name ≡ none
unfolding behind_slash
behind_slash-none [] h = refl
behind_slash-none (c ∷ name) h =
    rw (behind_slash-none name h.1, behind_slash) (rw (eqb_ne h.0) refl)

behind_slash_at :
    (folder name : Bytes) → Lacks b'/' name → behind_slash (folder ++ b'/' ∷ name) ≡ some name
unfolding behind_slash
behind_slash_at [] name h = rw (behind_slash-none name h, behind_slash) refl
behind_slash_at (c ∷ folder) name h = rw (behind_slash_at folder name h, behind_slash) refl

-- The name of a file in a folder.
pub basename_lem : (folder name : Bytes) → Lacks b'/' name → basename (folder ++ b'/' ∷ name) ≡ name
unfolding basename
basename_lem folder name h = rw (behind_slash_at folder name h, basename) refl

pub basename_bare : (name : Bytes) → Lacks b'/' name → basename name ≡ name
unfolding basename
basename_bare name h = rw (behind_slash-none name h, basename) refl

module _ (source dest content : Bytes) (fs : FileSystem) where
  reopened :
      content_of fs source ≡ some content
      → content_of (write_file fs dest []) source
        ≡ some (if str_eq source dest then [] else content)
  reopened there =
      content_of-write_file fs dest [] source
      ∙ ap (λ o. if str_eq source dest then some [] else o) there
      ∙ ground arith

  copy_into_step :
      content_of fs source ≡ some content
      → copy_into source dest fs
        ≡ write_file (write_file fs dest []) dest (if str_eq source dest then [] else content)
  unfolding copy_into
  copy_into_step there = rw (reopened there, copy_into) refl

  written :
      (q bytes : Bytes)
      → content_of (write_file (write_file fs dest []) dest bytes) q
        ≡ (if str_eq q dest then some bytes else content_of fs q)
  written q bytes =
      content_of-write_file (write_file fs dest []) dest bytes q
      ∙ ap (λ o. if str_eq q dest then some bytes else o) (content_of-write_file fs dest [] q)
      ∙ ground arith

  copy_file_step :
      content_of fs source ≡ some content
      → fs.writable dest ≡ true
      → copy_file source dest fs ≡ (
        true,
        write_file (write_file fs dest []) dest (if str_eq source dest then [] else content),
      )
  unfolding copy_file
  copy_file_step there writable =
      rw (there, copy_file) (rw writable (ap (λ f. (true, f)) (copy_into_step there)))

pub sync_upload_lem :
    (sync_dir_path folder name content : Bytes) (fs : FileSystem)
    → Lacks b'/' name
    → content_of fs (folder ++ b'/' ∷ name) ≡ some content
    → fs.writable (sync_dir_path ++ b'/' ∷ name) ≡ true
    → let source = folder ++ b'/' ∷ name in
      let dest = sync_dir_path ++ b'/' ∷ name in
      let (succeeds, fs') = upload sync_dir_path source fs in
      (succeeds ≡ true)
      × (content_of fs' dest ≡ some (if str_eq source dest then [] else content))
      × ((q : Bytes) → str_eq q dest ≡ false → content_of fs' q ≡ content_of fs q)
unfolding upload build_destination_path
sync_upload_lem sync_dir_path folder name content fs h there writable =
    let source = folder ++ b'/' ∷ name in
    let dest = sync_dir_path ++ b'/' ∷ name in
    let bytes = if str_eq source dest then [] else content in
    subst
      (λ (r : Bool × FileSystem).
        (r.0 ≡ true)
        × (content_of r.1 dest ≡ some bytes)
        × ((q : Bytes) → str_eq q dest ≡ false → content_of r.1 q ≡ content_of fs q))
      (sym (
        ap (λ n. copy_file source (sync_dir_path ++ b'/' ∷ n) fs) (basename_lem folder name h)
        ∙ copy_file_step source dest content fs there writable))
      (
        refl,
        written source dest content fs dest bytes ∙ rw (str_eq_refl dest) refl,
        λ q ne. written source dest content fs q bytes ∙ rw ne refl,
      )
