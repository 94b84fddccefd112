-- ===== src/Listing.antt =====
-- The listing of a user's folder that the server sends: `list_files` of src/server/server.c. What the
-- C library finds in the folder is a list of entries.
pub mod Growth
pub mod Room
mod Tests
use inf01151_trabalho_final.Base.{
  ℕ, zero, suc, ◌+◌, ◌*◌, Bool, true, false, ◌||◌, Option, none, some, List, [], ◌∷◌, ◌++◌, Bytes,
  codes, str_eq, length, ltb, if◌then◌else◌,
}
use inf01151_trabalho_final.Transfer.{Io, done, crash, ◌>>=◌}

-- The times of a file as strftime writes them.
pub record Times : Type 0 where
  pub mod_time : Bytes
  pub acc_time : Bytes
  pub chg_time : Bytes

-- A name in the folder, and the times if `stat` succeeds; and whether a call of `realloc` for it does.
pub record Dirent : Type 0 where
  pub d_name : Bytes
  pub times : Option Times
  pub reallocates : Bool

-- while (needed > buffer_size) buffer_size *= 2, with fuel.
unfoldable pub grow : ℕ → ℕ → ℕ → ℕ
grow zero needed buffer_size = buffer_size
grow (suc fuel) needed buffer_size = elim (ltb buffer_size needed) [
  | true ↦ grow fuel needed (buffer_size * 2)
  | false ↦ buffer_size
]

-- The string so far, in an allocation of `buffer_size` bytes.
pub record Buffer : Type 0 where
  pub result : Bytes
  pub buffer_size : ℕ

-- strcat; a string that does not fit with its NUL is written outside the allocation.
unfoldable pub strcat : Bytes → Buffer → Io Buffer
strcat text b =
    let longer = b.result ++ text in
    if ltb b.buffer_size (length longer + 1) then crash else done (record b { result = longer })

unfoldable pub strcat_each : List Bytes → Buffer → Io Buffer
strcat_each [] b = done b
strcat_each (text ∷ texts) b = (do b' ← strcat text b; strcat_each texts b')

-- The texts that are put behind the string for a file.
abbrev pub entry_texts : Bytes → Times → List Bytes
entry_texts d_name t =
    codes "\nFile: "
    ∷ d_name
    ∷ codes "\n    Modification time: "
    ∷ t.mod_time
    ∷ codes "\n          Access time: "
    ∷ t.acc_time
    ∷ codes "\n Change/creation time: "
    ∷ t.chg_time
    ∷ codes "\n\n"
    ∷ []

-- strlen(result) + strlen(entry->d_name) + … + 200
abbrev pub needed : Bytes → Times → Buffer → ℕ
needed d_name t b =
    length b.result
    + length d_name
    + length t.mod_time
    + length t.acc_time
    + length t.chg_time
    + 200

unfoldable pub is_dot : Bytes → Bool
is_dot d_name = str_eq d_name (codes ".") || str_eq d_name (codes "..")

-- Room for an entry; `none` if `realloc` fails.
unfoldable pub make_room : ℕ → Bool → Buffer → Option Buffer
make_room size reallocates b =
    if ltb b.buffer_size size
    then (if reallocates
        then some (record b { buffer_size = grow size size b.buffer_size })
        else none)
    else some b

-- The loop over the folder; `none` is NULL.
unfoldable pub list_entries : List Dirent → Buffer → Io (Option Bytes)
list_entries [] b = done (some b.result)
list_entries (e ∷ entries) b = elim (is_dot e.d_name) [
  | true ↦ list_entries entries b
  | false ↦ elim (e.times) [
    | none ↦ list_entries entries b
    | some t ↦ elim (make_room (needed e.d_name t b) e.reallocates b) [
      | none ↦ done none
      | some roomy ↦ (do b' ← strcat_each (entry_texts e.d_name t) roomy; list_entries entries b')
    ]
  ]
]

-- The folder is `none` if it cannot be opened; the Boolean says whether the first allocation succeeds.
unfoldable pub list_files : Option (List Dirent) → Bool → Io (Option Bytes)
list_files none allocates = done none
list_files (some entries) false = done none
list_files (some entries) true = list_entries entries (record { result = []; buffer_size = 4096 })
