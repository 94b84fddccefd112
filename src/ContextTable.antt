-- ===== src/ContextTable.antt =====
-- The chained hash table from user names to contexts, src/util/contextHashTable.c. `V` is the type of a
-- `UserContext *`. Each operation runs under its bucket's mutex, so it is one step.
pub mod Hash
pub mod Lookup
pub mod History
pub mod Insert
mod Tests
use inf01151_trabalho_final.Base.{
  ℕ, zero, suc, ◌+◌, ◌-◌, ◌*◌, ◌%◌, ◌^◌, List, [], ◌∷◌, Bytes, str_eq, get_or, set, replicate, ltb,
  if◌then◌else◌,
}

-- PRIME_HASH
abbrev pub prime_hash : ℕ
prime_hash = 131

-- A `char` read as a `size_t`: it is signed, so a byte from 128 on is sign-extended.
abbrev pub char_to_size : ℕ → ℕ
char_to_size c = if ltb c 128 then c else 2 ^ 64 + c - 256

-- The loop of `keyHash` from the hash so far. Sums and products wrap around at 2^64.
pub hash_from : ℕ → ℕ → Bytes → ℕ
hash_from modulo hash [] = hash
hash_from modulo hash (c ∷ key) =
    hash_from modulo ((prime_hash * hash + char_to_size c) % 2 ^ 64 % modulo) key

unfoldable pub key_hash : Bytes → ℕ → ℕ
unfolding hash_from
key_hash key modulo = hash_from modulo 0 key

-- What a search returns: a pointer, NULL, or no return at all (a read through NULL).
pub data Found {ℓ} (V : Type ℓ) : Type ℓ where
  found : V → Found V
  null : Found V
  fault : Found V

module _ {ℓ} {V : Type ℓ} where
  -- The loop of `LinkedList_get`. Its test reads `list`, which never changes, and not `node`: at the
  -- end of the chain `node->key` is read through NULL.
  unfoldable pub scan : List (Bytes × V) → Bytes → Found V
  scan [] key = fault
  scan ((k, v) ∷ node) key = if str_eq key k then found v else scan node key

  unfoldable pub linked_list_get : List (Bytes × V) → Bytes → Found V
  unfolding scan
  linked_list_get [] key = null
  linked_list_get (n ∷ list) key = scan (n ∷ list) key

  abbrev pub linked_list_push : List (Bytes × V) → Bytes → V → List (Bytes × V)
  linked_list_push list key value = (key, value) ∷ list

pub record HashTable {ℓ} (V : Type ℓ) : Type ℓ where
  pub size : ℕ
  pub array : List (List (Bytes × V))

module _ {ℓ} {V : Type ℓ} where
  unfoldable pub create : ℕ → HashTable V
  create size = record { size = size; array = replicate size [] }

  -- The chain at an index.
  abbrev pub bucket : HashTable V → ℕ → List (Bytes × V)
  bucket t i = get_or t.array i []

  -- The value that it returns is the one that it was given.
  unfoldable pub insert : HashTable V → Bytes → V → HashTable V × V
  insert t key value =
      let index = key_hash key t.size in
      (record t { array = set t.array index (linked_list_push (bucket t index) key value) }, value)

  unfoldable pub search : HashTable V → Bytes → Found V
  unfolding linked_list_get
  search t key = linked_list_get (bucket t (key_hash key t.size)) key
