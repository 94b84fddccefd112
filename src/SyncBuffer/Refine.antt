-- ===== src/SyncBuffer/Refine.antt =====
-- src/util/fileSync.c: the circular array seen as the queue of its pending entries.
use inf01151_trabalho_final.Base.{
  ℕ, zero, suc, ◌+◌, ◌-◌, ◌%◌, ◌≤◌, ◌<◌, ◌≡◌, ◌≢◌, refl, ap, ap₂, true, false, none, some, List, [],
  ◌∷◌, ◌++◌, arith, Bytes, length, get_or, set, length-set, get_or-set_self, get_or-set_ne,
}
use inf01151_trabalho_final.SyncBuffer.{
  FileEntry, FileEntryType, FileSyncBuffer, invalid, entry_for, init_file_sync_buffer,
  add_file_to_sync_buffer, get_next_file_to_sync, file_sync_buffer_size,
}

-- The indices are in range and agree with the count.
pub record IsValid (b : FileSyncBuffer) : Type 0 where
  pub storage : length b.buffer ≡ file_sync_buffer_size
  pub start_in : b.start < file_sync_buffer_size
  pub count_in : b.count ≤ file_sync_buffer_size
  pub end_at : b.end ≡ (b.start + b.count) % file_sync_buffer_size

-- The `n` entries from index `s` on, going round the array.
abbrev pub pending_from : List FileEntry → ℕ → ℕ → List FileEntry
pending_from xs s zero = []
pending_from xs s (suc n) =
    get_or xs s invalid ∷ pending_from xs ((s + 1) % file_sync_buffer_size) n

-- What waits to be sent, oldest first.
abbrev pub contents : FileSyncBuffer → List FileEntry
contents b = pending_from b.buffer b.start b.count

length-pending_from : (xs : List FileEntry) (s n : ℕ) → length (pending_from xs s n) ≡ n
length-pending_from xs s zero = refl
length-pending_from xs s (suc n) =
    ap suc (length-pending_from xs ((s + 1) % file_sync_buffer_size) n)

pub length-contents : (b : FileSyncBuffer) → length (contents b) ≡ b.count
length-contents b = length-pending_from b.buffer b.start b.count

-- A write at the end of a pending range appends to it.
pending_from-set :
    (xs : List FileEntry) (e : FileEntry) (n s i : ℕ)
    → length xs ≡ file_sync_buffer_size
    → s < file_sync_buffer_size
    → n < file_sync_buffer_size
    → i ≡ (s + n) % file_sync_buffer_size
    → pending_from (set xs i e) s (suc n) ≡ pending_from xs s n ++ e ∷ []
pending_from-set xs e zero s i hl hs hn hi =
    let at : i ≡ s = omega arith in rw at (rw (get_or-set_self xs s e invalid (omega arith)))
pending_from-set xs e (suc n) s i hl hs hn hi =
    let apart : i ≢ s = omega arith in
    ap₂ ◌∷◌ (get_or-set_ne xs e invalid apart) (
      pending_from-set xs e n ((s + 1) % file_sync_buffer_size) i hl (omega arith) (omega arith)
        (omega arith))

-- `get_next_file_to_sync` tests the count, the range is matched on it.
pending_from-pos :
    (xs : List FileEntry) (s n : ℕ)
    → n ≢ 0
    → pending_from xs s n
      ≡ get_or xs s invalid ∷ pending_from xs ((s + 1) % file_sync_buffer_size) (n - 1)
pending_from-pos xs s zero h = absurd (h refl)
pending_from-pos xs s (suc n) h = ap (λ k. pending_from xs s (suc k)) (omega arith)

-- What `init_file_sync_buffer` makes of an allocation of the array's size is valid and empty.
pub init-IsValid :
    (memory : List FileEntry)
    → length memory ≡ file_sync_buffer_size
    → IsValid (init_file_sync_buffer memory) × (contents (init_file_sync_buffer memory) ≡ [])
unfolding init_file_sync_buffer
init-IsValid memory h = (omega arith, refl)

module _ (username : Bytes) (session_index : ℕ) (filename : Bytes) (type : FileEntryType) where
  -- A call of `add_file_to_sync_buffer` that does not wait keeps the indices valid and appends
  -- exactly the entry that it describes.
  pub add_lem :
      {b b' : FileSyncBuffer}
      → IsValid b
      → add_file_to_sync_buffer username session_index filename type b ≡ some b'
      → IsValid b'
        × (contents b' ≡ contents b ++ entry_for username session_index filename type ∷ [])
  unfolding add_file_to_sync_buffer
  add_lem {b} v e =
      let written = entry_for username session_index filename type in
      ground (
        arith,
        length-set b.buffer b.end written,
        pending_from-set b.buffer written b.count b.start b.end,
      )

  -- It waits exactly when ten entries are pending.
  pub add_waits :
      (b : FileSyncBuffer)
      → (add_file_to_sync_buffer username session_index filename type b ≡ none
          → length (contents b) ≡ file_sync_buffer_size)
        × (length (contents b) ≡ file_sync_buffer_size
            → add_file_to_sync_buffer username session_index filename type b ≡ none)
  unfolding add_file_to_sync_buffer
  add_waits b = (λ e. ground (arith, length-contents b), λ e. ground (arith, length-contents b))

-- A call of `get_next_file_to_sync` of an active session that does not wait keeps the indices
-- valid, and returns and removes the oldest pending entry.
pub get_lem :
    {b b' : FileSyncBuffer} {e : FileEntry}
    → IsValid b
    → get_next_file_to_sync true b ≡ some (e, b')
    → IsValid b' × (contents b ≡ e ∷ contents b')
unfolding get_next_file_to_sync
get_lem {b} v h = ground (arith, pending_from-pos b.buffer b.start b.count)

-- Of an active session it waits exactly when nothing is pending.
pub get_waits :
    (b : FileSyncBuffer)
    → (get_next_file_to_sync true b ≡ none → contents b ≡ [])
      × (contents b ≡ [] → get_next_file_to_sync true b ≡ none)
unfolding get_next_file_to_sync
get_waits b = (λ e. ground arith, λ e. ground (arith, pending_from-pos b.buffer b.start b.count))

-- Of an inactive session it never waits: it returns an invalid entry and takes nothing.
pub get_inactive : (b : FileSyncBuffer) → get_next_file_to_sync false b ≡ some (invalid, b)
unfolding get_next_file_to_sync
get_inactive b = refl
