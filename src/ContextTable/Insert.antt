-- ===== src/ContextTable/Insert.antt =====
-- One insertion into a table of src/util/contextHashTable.c, as an update of a map.
use inf01151_trabalho_final.Base.{
  ◌≡◌, ap, sym, ◌∙◌, false, Option, none, some, List, [], ◌∷◌, Bytes, str_eq, str_eq_sound,
  str_eq_refl, if◌then◌else◌, ◌==◌, eqb_refl, Bool-cases, inl, inr,
}
use inf01151_trabalho_final.ContextTable.{found, HashTable, bucket, insert, search, key_hash}
use inf01151_trabalho_final.ContextTable.Lookup.{
  newest, answer, search_lem, IsValid, size-insert, bucket-insert,
}

module _ {ℓ} {V : Type ℓ} where
  -- The newest binding of a key.
  abbrev pub newest_in : HashTable V → Bytes → Option V
  newest_in t key = newest (bucket t (key_hash key t.size)) key

  pub newest_in-insert :
      (t : HashTable V) (key : Bytes) (v : V) (q : Bytes)
      → IsValid t
      → newest_in (insert t key v).0 q ≡ (if str_eq q key then some v else newest_in t q)
  newest_in-insert t key v q h =
      rw (size-insert t key v, bucket-insert t key v (key_hash q t.size) h)
        (elim (Bool-cases (str_eq q key)) [
          | inl same ↦
              rw (str_eq_sound q key same, eqb_refl (key_hash key t.size)) (rw (str_eq_refl key))
          | inr other ↦ elim (Bool-cases (key_hash key t.size == key_hash q t.size)) [
            | inl e ↦ rw (e, other)
            | inr e ↦ rw (e, other)
          ]
        ])

  answer-found :
      (chain : List (Bytes × V)) (o : Option V) (v : V) → answer chain o ≡ found v → o ≡ some v
  answer-found chain (some u) v e = cc
  answer-found [] none v e = cc
  answer-found (n ∷ chain) none v e = cc

  pub search-newest_in :
      (t : HashTable V) (key : Bytes) (v : V) → search t key ≡ found v → newest_in t key ≡ some v
  search-newest_in t key v e =
      answer-found (bucket t (key_hash key t.size)) (newest_in t key) v (sym (search_lem t key) ∙ e)

  pub newest_in-search :
      (t : HashTable V) (key : Bytes) (v : V) → newest_in t key ≡ some v → search t key ≡ found v
  newest_in-search t key v e = search_lem t key ∙ ap (answer (bucket t (key_hash key t.size))) e

  -- A search for the key just inserted finds its value.
  pub search-insert_self :
      (t : HashTable V) (key : Bytes) (v : V) → IsValid t → search (insert t key v).0 key ≡ found v
  search-insert_self t key v h =
      newest_in-search (insert t key v).0 key v
        (newest_in-insert t key v key h ∙ rw (str_eq_refl key))

  -- Another key's value is found after the insertion exactly if it was before.
  pub search-insert_ne :
      (t : HashTable V) (key : Bytes) (v : V) (q : Bytes) (u : V)
      → IsValid t
      → str_eq q key ≡ false
      → search t q ≡ found u
      → search (insert t key v).0 q ≡ found u
  search-insert_ne t key v q u h ne e =
      newest_in-search (insert t key v).0 q u
        (newest_in-insert t key v q h ∙ rw ne (search-newest_in t q u e))

  pub insert-search_ne :
      (t : HashTable V) (key : Bytes) (v : V) (q : Bytes) (u : V)
      → IsValid t
      → str_eq q key ≡ false
      → search (insert t key v).0 q ≡ found u
      → search t q ≡ found u
  insert-search_ne t key v q u h ne e = newest_in-search t q u (
      ap (λ b. if b then some v else newest_in t q) (sym ne)
      ∙ sym (newest_in-insert t key v q h)
      ∙ search-newest_in (insert t key v).0 q u e)
