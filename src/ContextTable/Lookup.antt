-- ===== src/ContextTable/Lookup.antt =====
-- What a search of src/util/contextHashTable.c returns.
use inf01151_trabalho_final.Base.{
  ℕ, ◌<◌, ◌≡◌, refl, Option, none, some, List, [], ◌∷◌, arith, Bytes, str_eq, length,
  get_or-set_self, get_or-set_ne, if◌then◌else◌, ◌==◌, length-set,
}
use native.Mathlib.Decide.{ℕ_discrete}
use inf01151_trabalho_final.Base.{eqb_refl, eqb_ne}
use inf01151_trabalho_final.ContextTable.{
  Found, found, null, fault, scan, linked_list_get, HashTable, bucket, insert, search, key_hash,
}
use inf01151_trabalho_final.ContextTable.Hash.{key_hash-lt}

module _ {ℓ} {V : Type ℓ} where
  -- The newest binding of a key in a chain: what a search is meant to find.
  abbrev pub newest : List (Bytes × V) → Bytes → Option V
  newest [] key = none
  newest ((k, v) ∷ rest) key = if str_eq key k then some v else newest rest key

  -- The answer of a search, given the newest binding and whether the chain is empty.
  abbrev pub answer : List (Bytes × V) → Option V → Found V
  answer list (some v) = found v
  answer [] none = null
  answer (n ∷ list) none = fault

  scan_lem :
      (n : Bytes × V) (list : List (Bytes × V)) (key : Bytes)
      → scan list key ≡ answer (n ∷ list) (newest list key)
  unfolding scan
  scan_lem n [] key = refl
  scan_lem n ((k, v) ∷ list) key = ground (arith, scan_lem n list key)

  pub linked_list_get_lem :
      (list : List (Bytes × V)) (key : Bytes)
      → linked_list_get list key ≡ answer list (newest list key)
  unfolding linked_list_get scan
  linked_list_get_lem [] key = refl
  linked_list_get_lem ((k, v) ∷ list) key = ground (arith, scan_lem (k, v) list key)

  -- Every search finds the newest binding of its key; a key without one is reported as NULL if its
  -- bucket is empty, and otherwise the search reads through NULL past the end of the chain.
  pub search_lem :
      (t : HashTable V) (key : Bytes)
      → let chain = bucket t (key_hash key t.size) in search t key ≡ answer chain (newest chain key)
  unfolding search
  search_lem t key = linked_list_get_lem (bucket t (key_hash key t.size)) key

  -- The table has a bucket for each hash.
  pub record IsValid (t : HashTable V) : Type ℓ where
    pub nonempty : 0 < t.size
    pub buckets : length t.array ≡ t.size

  pub insert-IsValid :
      (t : HashTable V) (key : Bytes) (v : V) → IsValid t → IsValid (insert t key v).0
  unfolding insert
  insert-IsValid t key v h = record {
    nonempty = h.nonempty;
    buckets = ground (
      arith,
      h.buckets,
      length-set t.array (key_hash key t.size) ((key, v) ∷ bucket t (key_hash key t.size)),
    );
  }

  pub size-insert : (t : HashTable V) (key : Bytes) (v : V) → (insert t key v).0.size ≡ t.size
  unfolding insert
  size-insert t key v = refl

  -- An insertion adds to the chain of its key's hash, and leaves the others alone.
  pub bucket-insert :
      (t : HashTable V) (key : Bytes) (v : V) (i : ℕ)
      → IsValid t
      → bucket (insert t key v).0 i
        ≡ (if key_hash key t.size == i then (key, v) ∷ bucket t i else bucket t i)
  unfolding insert
  bucket-insert t key v i h = elim (ℕ_discrete (key_hash key t.size) i) [
    | yes e ↦
        rw e (rw (eqb_refl i) (get_or-set_self t.array i ((key, v) ∷ bucket t i) [] (in_range i e)))
    | no ne ↦
        rw (eqb_ne ne) (get_or-set_ne t.array ((key, v) ∷ bucket t (key_hash key t.size)) [] ne)
  ]
    where
      in_range : (i : ℕ) → key_hash key t.size ≡ i → i < length t.array
      in_range i e = omega (arith, h.nonempty, h.buckets, key_hash-lt key t.size)
