-- ===== src/Listing/Room.antt =====
-- The listing never leaves its buffer, and holds every file: `list_files` of src/server/server.c.
use inf01151_trabalho_final.Base.{
  ℕ, suc, ◌≡◌, refl, ap, subst, sym, ◌∙◌, Bool, true, false, Option, none, some, List, [], ◌∷◌,
  ◌++◌, append_assoc, append-nil, arith, Bytes, get_elem?, ◌⊎◌, Bool-cases, Option-cases, inl, inr,
}
use inf01151_trabalho_final.Transfer.{Io, done}
use inf01151_trabalho_final.Listing.{
  Times, Dirent, Buffer, strcat_each, entry_texts, needed, is_dot, make_room, list_entries,
  list_files,
}
use inf01151_trabalho_final.Listing.Growth.{entry_text, listing, Fits, put_entry, entry-Fits}

-- Some call of `realloc` fails.
abbrev pub Fails : List Dirent → Type 0
Fails entries = (i : ℕ) × (e : Dirent) × (get_elem? entries i ≡ some e) × (e.reallocates ≡ false)

no_room :
    (size : ℕ) (reallocates : Bool) (b : Buffer)
    → make_room size reallocates b ≡ none
    → reallocates ≡ false
unfolding make_room
no_room size reallocates b e = ground arith

-- The string with the listing behind it, or NULL.
abbrev Lists : List Dirent → Bytes → Io (Option Bytes) → Type 0
Lists entries result r =
    (r ≡ done (some (result ++ listing entries))) ⊎ ((r ≡ done none) × Fails entries)

Fails-cons : (e : Dirent) (entries : List Dirent) → Fails entries → Fails (e ∷ entries)
Fails-cons e entries (i, d, at, failed) = (suc i, d, at, failed)

module _ (e : Dirent) (entries : List Dirent) (b : Buffer) where
  skip_dot : is_dot e.d_name ≡ true → list_entries (e ∷ entries) b ≡ list_entries entries b
  unfolding list_entries
  skip_dot dot = rw (dot, list_entries) refl

  skip_unread :
      is_dot e.d_name ≡ false
      → e.times ≡ none
      → list_entries (e ∷ entries) b ≡ list_entries entries b
  unfolding list_entries
  skip_unread dot unread = rw (dot, list_entries) (rw unread refl)

  put_step :
      (t : Times) (roomy b' : Buffer)
      → is_dot e.d_name ≡ false
      → e.times ≡ some t
      → make_room (needed e.d_name t b) e.reallocates b ≡ some roomy
      → strcat_each (entry_texts e.d_name t) roomy ≡ done b'
      → list_entries (e ∷ entries) b ≡ list_entries entries b'
  unfolding list_entries
  put_step t roomy b' dot times made put = rw (dot, list_entries) (rw times (rw made (rw put refl)))

  give_up :
      (t : Times)
      → is_dot e.d_name ≡ false
      → e.times ≡ some t
      → make_room (needed e.d_name t b) e.reallocates b ≡ none
      → list_entries (e ∷ entries) b ≡ done none
  unfolding list_entries
  give_up t dot times full = rw (dot, list_entries) (rw times (rw full refl))

-- What is listed from the entry on, when the string before it is `result`.
after_entry :
    (e : Dirent) (entries : List Dirent) (result : Bytes) (t : Times) (r : Io (Option Bytes))
    → is_dot e.d_name ≡ false
    → e.times ≡ some t
    → Lists entries (result ++ entry_text e.d_name t) r
    → Lists (e ∷ entries) result r
after_entry e entries result t r dot times (inr (null, failed)) =
    inr (null, Fails-cons e entries failed)
after_entry e entries result t r dot times (inl listed) =
    let text = entry_text e.d_name t in
    let here : listing (e ∷ entries) ≡ text ++ listing entries =
      rw (dot, listing) (rw times refl) in
    inl (
      listed
      ∙ ap (λ l. done (some l))
          (append_assoc result text (listing entries) ∙ ap (λ l. result ++ l) (sym here)))

-- What is listed from the entry on, when the entry adds nothing.
after_skipped :
    (e : Dirent) (entries : List Dirent) (result : Bytes) (r : Io (Option Bytes))
    → listing (e ∷ entries) ≡ listing entries
    → Lists entries result r
    → Lists (e ∷ entries) result r
after_skipped e entries result r same (inr (null, failed)) = inr (null, Fails-cons e entries failed)
after_skipped e entries result r same (inl listed) =
    inl (listed ∙ ap (λ l. done (some (result ++ l))) (sym same))

list_entries_lem :
    (entries : List Dirent) (b : Buffer) → Fits b → Lists entries b.result (list_entries entries b)
unfolding list_entries
list_entries_lem [] b h = inl (ap (λ l. done (some l)) (sym (append-nil b.result)))
list_entries_lem (e ∷ entries) b h = elim (Bool-cases (is_dot e.d_name)) [
  | inl dot ↦ subst (Lists (e ∷ entries) b.result) (sym (skip_dot e entries b dot)) (
      after_skipped e entries b.result (list_entries entries b) (rw (dot, listing) refl)
        (list_entries_lem entries b h))
  | inr dot ↦ elim (Option-cases e.times) [
    | inl unread ↦ subst (Lists (e ∷ entries) b.result) (sym (skip_unread e entries b dot unread)) (
        after_skipped e entries b.result (list_entries entries b)
          (rw (dot, listing) (rw unread refl)) (list_entries_lem entries b h))
    | inr (t, times) ↦ elim (Option-cases (make_room (needed e.d_name t b) e.reallocates b)) [
      | inl full ↦ inr (
        give_up e entries b t dot times full,
        (0, e, refl, no_room (needed e.d_name t b) e.reallocates b full),
      )
      | inr (roomy, made) ↦
          let b' = record roomy { result = b.result ++ entry_text e.d_name t } in
          let put = put_entry e.d_name t e.reallocates b roomy made h in
          subst (Lists (e ∷ entries) b.result)
            (sym (put_step e entries b t roomy b' dot times made put))
            (after_entry e entries b.result t (list_entries entries b') dot times
              (list_entries_lem entries b' (entry-Fits e.d_name t e.reallocates b roomy made h)))
    ]
  ]
]

-- The listing of a folder that can be opened, when the first allocation succeeds, stays inside its
-- buffer however many files there are and however long their names: either it is the text of every
-- file but `.` and `..` whose times can be read, in the folder's order, or it is NULL, and then a call
-- of `realloc` fails for one of the entries.
pub list_files_lem :
    (entries : List Dirent)
    → (list_files (some entries) true ≡ done (some (listing entries)))
      ⊎ ((list_files (some entries) true ≡ done none) × Fails entries)
unfolding list_files
list_files_lem entries =
    list_entries_lem entries (record { result = []; buffer_size = 4096 }) (omega arith)
