-- ===== src/Listing/Growth.antt =====
-- The buffer of `list_files` of src/server/server.c grows in time for every entry.
use inf01151_trabalho_final.Base.{
  ℕ, zero, suc, ◌+◌, ◌*◌, ◌≤◌, ◌≡◌, refl, ap, sym, ◌∙◌, Bool, true, false, none, some, List, [],
  ◌∷◌, ◌++◌, append_assoc, append-nil, arith, Bytes, codes, length, length-append, le→ltb,
}
use inf01151_trabalho_final.Transfer.{done}
use inf01151_trabalho_final.Listing.{
  Times, Dirent, grow, Buffer, strcat, strcat_each, entry_texts, needed, is_dot, make_room,
}

grow_enough :
    (fuel needed buffer_size : ℕ)
    → 1 ≤ buffer_size
    → needed ≤ buffer_size + fuel
    → needed ≤ grow fuel needed buffer_size
unfolding grow
grow_enough zero needed buffer_size pos h = omega arith
grow_enough (suc fuel) needed buffer_size pos h =
    ground (arith, grow_enough fuel needed (buffer_size * 2))

abbrev pub concat : List Bytes → Bytes
concat [] = []
concat (text ∷ texts) = text ++ concat texts

-- What a file adds to the listing.
abbrev pub entry_text : Bytes → Times → Bytes
entry_text d_name t = concat (entry_texts d_name t)

-- The files of a folder, without the folder itself and its parent.
abbrev pub listing : List Dirent → Bytes
listing [] = []
listing (e ∷ entries) = elim (is_dot e.d_name) [
  | true ↦ listing entries
  | false ↦ elim (e.times) [
    | none ↦ listing entries
    | some t ↦ entry_text e.d_name t ++ listing entries
  ]
]

strcat_lem :
    (text result : Bytes) (size : ℕ)
    → length result + length text + 1 ≤ size
    → strcat text (record { result = result; buffer_size = size })
      ≡ done (record { result = result ++ text; buffer_size = size })
unfolding strcat
strcat_lem text result size h =
    rw (le→ltb size (length (result ++ text) + 1) (omega (arith, length-append result text))) refl

strcat_step :
    (text result : Bytes) (texts : List Bytes) (size : ℕ)
    → length result + length text + 1 ≤ size
    → strcat_each (text ∷ texts) (record { result = result; buffer_size = size })
      ≡ strcat_each texts (record { result = result ++ text; buffer_size = size })
unfolding strcat_each
strcat_step text result texts size h = rw (strcat_lem text result size h, strcat_each) refl

strcat_each_lem :
    (texts : List Bytes) (result : Bytes) (size : ℕ)
    → length result + length (concat texts) + 1 ≤ size
    → strcat_each texts (record { result = result; buffer_size = size })
      ≡ done (record { result = result ++ concat texts; buffer_size = size })
unfolding strcat_each
strcat_each_lem [] result size h =
    ap (λ r. done (record { result = r; buffer_size = size })) (sym (append-nil result))
strcat_each_lem (text ∷ texts) result size h =
    let size_of = length-append text (concat texts) in
    strcat_step text result texts size (omega (arith, size_of, h))
    ∙ strcat_each_lem texts (result ++ text) size
        (omega (arith, size_of, length-append result text, h))
    ∙ ap (λ r. done (record { result = r; buffer_size = size }))
        (append_assoc result text (concat texts))

length-entry_text :
    (d_name : Bytes) (t : Times)
    → length (entry_text d_name t)
      ≡ 81 + length d_name + length t.mod_time + length t.acc_time + length t.chg_time
length-entry_text d_name t =
    let behind_acc = concat (codes "\n Change/creation time: " ∷ t.chg_time ∷ codes "\n\n" ∷ []) in
    let behind_mod = concat (codes "\n          Access time: " ∷ t.acc_time ∷ []) in
    let chg = length-append t.chg_time (codes "\n\n") in
    let acc = length-append t.acc_time behind_acc in
    let mod_rest = codes "\n          Access time: " ++ (t.acc_time ++ behind_acc) in
    omega (
      arith,
      length-append d_name (codes "\n    Modification time: " ++ (t.mod_time ++ mod_rest)),
      length-append t.mod_time mod_rest,
      acc,
      chg,
    )

-- The string and its NUL fit their allocation.
abbrev pub Fits : Buffer → Type 0
Fits b = length b.result + 1 ≤ b.buffer_size

-- There is room for an entry once `make_room` returns.
make_room_lem :
    (size : ℕ) (reallocates : Bool) (b roomy : Buffer)
    → Fits b
    → make_room size reallocates b ≡ some roomy
    → (roomy.result ≡ b.result) × (size ≤ roomy.buffer_size)
unfolding make_room
make_room_lem size reallocates b roomy h e = ground (arith, grow_enough size size b.buffer_size)

pub put_entry :
    (d_name : Bytes) (t : Times) (reallocates : Bool) (b roomy : Buffer)
    → make_room (needed d_name t b) reallocates b ≡ some roomy
    → Fits b
    → strcat_each (entry_texts d_name t) roomy
      ≡ done (record roomy { result = b.result ++ entry_text d_name t })
put_entry d_name t reallocates b roomy made h =
    let (same, room) = make_room_lem (needed d_name t b) reallocates b roomy h made in
    strcat_each_lem (entry_texts d_name t) roomy.result roomy.buffer_size
      (omega (arith, length-entry_text d_name t, ap length same, room))
    ∙ ap (λ r. done (record roomy { result = r ++ entry_text d_name t })) same

pub entry-Fits :
    (d_name : Bytes) (t : Times) (reallocates : Bool) (b roomy : Buffer)
    → make_room (needed d_name t b) reallocates b ≡ some roomy
    → Fits b
    → Fits (record roomy { result = b.result ++ entry_text d_name t })
entry-Fits d_name t reallocates b roomy made h =
    let (same, room) = make_room_lem (needed d_name t b) reallocates b roomy h made in
    omega (arith, length-entry_text d_name t, length-append b.result (entry_text d_name t), room)
