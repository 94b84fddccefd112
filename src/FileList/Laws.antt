-- ===== src/FileList/Laws.antt =====
-- The list of files as a map from names to checksums.
use inf01151_trabalho_final.Base.{
  ℕ, ◌≡◌, ◌≢◌, refl, ap, sym, ◌∙◌, true, false, Option, none, some, List, [], ◌∷◌, Bytes, str_eq,
  str_eq_iff, str_eq_refl, str_eq_sound, if◌then◌else◌, arith, Bool-cases, inl, inr, ◌⊎◌,
}
use inf01151_trabalho_final.FileList.{
  FileNode, file_linked_list_push, file_linked_list_get, set_crc, remove_node,
}

-- The checksum that a lookup finds.
abbrev pub crc_of : List FileNode → Bytes → Option ℕ
crc_of [] key = none
crc_of (node ∷ list) key = if str_eq key node.key then some node.crc else crc_of list key

-- No two nodes have the same name.
abbrev pub IsCatalog : List FileNode → Type 0
IsCatalog [] = Unit
IsCatalog (node ∷ list) = (crc_of list node.key ≡ none) × IsCatalog list

-- What a lookup returns, by the map.
pub file_linked_list_get-none :
    (list : List FileNode) (key : Bytes)
    → crc_of list key ≡ none
    → file_linked_list_get list key ≡ none
unfolding file_linked_list_get
file_linked_list_get-none [] key h = refl
file_linked_list_get-none (node ∷ list) key h = ground (arith, file_linked_list_get-none list key)

pub file_linked_list_get-some :
    (list : List FileNode) (key : Bytes) (crc : ℕ)
    → crc_of list key ≡ some crc
    → (node : FileNode) × (file_linked_list_get list key ≡ some node) × (node.crc ≡ crc)
unfolding file_linked_list_get
file_linked_list_get-some [] key crc h = cc
file_linked_list_get-some (node ∷ list) key crc h = elim (Bool-cases (str_eq key node.key)) [
  | inl same ↦ rw same (node, refl, cc)
  | inr other ↦ rw other (file_linked_list_get-some list key crc (ground arith))
]

pub crc_of-push :
    (list : List FileNode) (key : Bytes) (crc : ℕ)
    → crc_of (file_linked_list_push list key crc) key ≡ some crc
crc_of-push list key crc = rw (str_eq_refl key)

pub crc_of-set_crc :
    (list : List FileNode) (key q : Bytes) (crc old : ℕ)
    → crc_of list key ≡ some old
    → crc_of (set_crc list key crc) q ≡ (if str_eq q key then some crc else crc_of list q)
unfolding set_crc
crc_of-set_crc [] key q crc old h = cc
crc_of-set_crc (node ∷ list) key q crc old h = ground (
  arith,
  str_eq_iff q key,
  str_eq_iff q node.key,
  str_eq_iff key node.key,
  crc_of-set_crc list key q crc old,
)

set_crc-none :
    (list : List FileNode) (key q : Bytes) (crc : ℕ)
    → crc_of list q ≡ none
    → crc_of (set_crc list key crc) q ≡ none
unfolding set_crc
set_crc-none [] key q crc h = refl
set_crc-none (node ∷ list) key q crc h = ground (arith, set_crc-none list key q crc)

pub set_crc-IsCatalog :
    (list : List FileNode) (key : Bytes) (crc : ℕ)
    → IsCatalog list
    → IsCatalog (set_crc list key crc)
unfolding set_crc
set_crc-IsCatalog [] key crc h = tt
set_crc-IsCatalog (node ∷ list) key crc h = elim (Bool-cases (str_eq key node.key)) [
  | inl same ↦ rw same (h.0, h.1)
  | inr other ↦
      rw other (set_crc-none list key node.key crc h.0, set_crc-IsCatalog list key crc h.1)
]

-- What a removal does: the name is gone from the list, and every other name keeps its checksum.
pub record Removes (list : List FileNode) (filename : Bytes) (rest : List FileNode) : Type 0 where
  pub gone : crc_of rest filename ≡ none
  pub others : (q : Bytes) → q ≢ filename → crc_of rest q ≡ crc_of list q
  pub catalog : IsCatalog rest

remove_head :
    (head : FileNode) (list : List FileNode) (filename : Bytes)
    → IsCatalog (head ∷ list)
    → str_eq head.key filename ≡ true
    → Removes (head ∷ list) filename list
remove_head head list filename h same =
    let name : head.key ≡ filename = str_eq_sound head.key filename same in
    record {
      gone = ap (crc_of list) (sym name) ∙ h.0;
      others = λ q ne. ground (arith, str_eq_iff q head.key, name);
      catalog = h.1;
    }

remove_behind :
    (head : FileNode) (list rest : List FileNode) (filename : Bytes)
    → IsCatalog (head ∷ list)
    → str_eq head.key filename ≡ false
    → Removes list filename rest
    → Removes (head ∷ list) filename (head ∷ rest)
remove_behind head list rest filename h other r = record {
  gone = ground (arith, str_eq_iff filename head.key, str_eq_iff head.key filename, r.gone);
  others = λ q ne. ground (arith, r.others q ne);
  catalog = (ground (arith, str_eq_iff head.key filename, r.others head.key, h.0), r.catalog);
}

remove_node_behind :
    (head : FileNode) (list rest : List FileNode) (filename : Bytes)
    → str_eq head.key filename ≡ false
    → remove_node list filename ≡ some rest
    → remove_node (head ∷ list) filename ≡ some (head ∷ rest)
unfolding remove_node
remove_node_behind head list rest filename other e = rw (other, e, remove_node)

-- Removing a file from a list without repeated names fails exactly when the name is not there, and
-- otherwise removes the name, keeps the checksums of all others and repeats no name.
pub remove_node_lem :
    (list : List FileNode) (filename : Bytes)
    → IsCatalog list
    → ((remove_node list filename ≡ none) × (crc_of list filename ≡ none))
      ⊎ ((rest : List FileNode) × (remove_node list filename ≡ some rest)
          × Removes list filename rest)
unfolding remove_node
remove_node_lem [] filename h = inl (refl, refl)
remove_node_lem (head ∷ list) filename h = elim (Bool-cases (str_eq head.key filename)) [
  | inl same ↦ inr (list, rw (same, remove_node), remove_head head list filename h same)
  | inr other ↦ elim (remove_node_lem list filename h.1) [
    | inl (absent, unlisted) ↦ inl (
      rw (other, absent, remove_node),
      ground (arith, str_eq_iff filename head.key, str_eq_iff head.key filename),
    )
    | inr (rest, found, r) ↦ inr (
      head ∷ rest,
      remove_node_behind head list rest filename other found,
      remove_behind head list rest filename h other r,
    )
  ]
]

pub remove_node-none :
    (list : List FileNode) (filename : Bytes)
    → crc_of list filename ≡ none
    → remove_node list filename ≡ none
unfolding remove_node
remove_node-none [] filename h = refl
remove_node-none (head ∷ list) filename h = ground (
  arith,
  str_eq_iff filename head.key,
  str_eq_iff head.key filename,
  remove_node-none list filename,
)
