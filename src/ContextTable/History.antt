-- ===== src/ContextTable/History.antt =====
-- A table of src/util/contextHashTable.c after any history of insertions.
use inf01151_trabalho_final.Base.{
  ℕ, zero, suc, ◌<◌, ◌≡◌, refl, ◌∙◌, List, [], ◌∷◌, Bytes, str_eq, if◌then◌else◌, ◌==◌, eqb_refl,
  Bool-cases, length, replicate, get_or, str_eq_sound, str_eq_refl, ap, inl, inr,
}
use inf01151_trabalho_final.ContextTable.{HashTable, bucket, create, insert, search, key_hash}
use inf01151_trabalho_final.ContextTable.Lookup.{
  newest, answer, search_lem, IsValid, insert-IsValid, size-insert, bucket-insert,
}

module _ {ℓ} {V : Type ℓ} where
  -- A new table of `size` buckets after the insertions of a log, whose head is the latest.
  abbrev pub after : ℕ → List (Bytes × V) → HashTable V
  after size [] = create size
  after size ((k, v) ∷ log) = (insert (after size log) k v).0

  -- The logged bindings whose keys hash to `i`.
  abbrev pub hashed_to : ℕ → ℕ → List (Bytes × V) → List (Bytes × V)
  hashed_to size i [] = []
  hashed_to size i ((k, v) ∷ log) =
      if key_hash k size == i then (k, v) ∷ hashed_to size i log else hashed_to size i log

  abbrev no_chain : List (Bytes × V)
  no_chain = []

  length-replicate : (n : ℕ) (x : List (Bytes × V)) → length (replicate n x) ≡ n
  length-replicate zero x = refl
  length-replicate (suc n) x = ap suc (length-replicate n x)

  get_or-replicate : (n i : ℕ) → get_or (replicate n no_chain) i no_chain ≡ no_chain
  get_or-replicate zero i = refl
  get_or-replicate (suc n) zero = refl
  get_or-replicate (suc n) (suc i) = get_or-replicate n i

  pub after-IsValid : (size : ℕ) (log : List (Bytes × V)) → 0 < size → IsValid (after size log)
  unfolding create
  after-IsValid size [] h = record { nonempty = h; buckets = length-replicate size [] }
  after-IsValid size ((k, v) ∷ log) h = insert-IsValid _ k v (after-IsValid size log h)

  size-after : (size : ℕ) (log : List (Bytes × V)) → (after size log).size ≡ size
  unfolding create
  size-after size [] = refl
  size-after size ((k, v) ∷ log) = size-insert (after size log) k v ∙ size-after size log

  bucket-after :
      (size : ℕ) (log : List (Bytes × V)) (i : ℕ)
      → 0 < size
      → bucket (after size log) i ≡ hashed_to size i log
  unfolding create
  bucket-after size [] i h = get_or-replicate size i
  bucket-after size ((k, v) ∷ log) i h = rw (
    bucket-insert (after size log) k v i (after-IsValid size log h),
    size-after size log,
    bucket-after size log i h,
  )

  -- Keys with another hash never hide a binding.
  newest-hashed_to :
      (size : ℕ) (log : List (Bytes × V)) (key : Bytes)
      → newest (hashed_to size (key_hash key size) log) key ≡ newest log key
  newest-hashed_to size [] key = refl
  newest-hashed_to size ((k, v) ∷ log) key = elim (Bool-cases (str_eq key k)) [
    | inl same ↦ rw (str_eq_sound key k same, eqb_refl (key_hash k size)) (rw (str_eq_refl k))
    | inr other ↦ elim (Bool-cases (key_hash k size == key_hash key size)) [
      | inl h ↦ rw (h, other) (newest-hashed_to size log key)
      | inr h ↦ rw (h, other) (newest-hashed_to size log key)
    ]
  ]

  -- A search after any history of insertions into a new table finds the latest value inserted under
  -- its key; for a key never inserted it returns NULL if no inserted key has the same hash, and
  -- reads through NULL if one has.
  pub search-after :
      (size : ℕ) (log : List (Bytes × V)) (key : Bytes)
      → 0 < size
      → search (after size log) key
        ≡ answer (hashed_to size (key_hash key size) log) (newest log key)
  search-after size log key h = rw (
    search_lem (after size log) key,
    size-after size log,
    bucket-after size log (key_hash key size) h,
    newest-hashed_to size log key,
  )
