-- ===== src/SyncBuffer/Traffic.antt =====
-- Any interleaving of the threads that share one buffer of src/util/fileSync.c: the session threads
-- that queue files for a session, and the session's send thread. Each takes the buffer's lock for a
-- whole call, so a call that does not wait is one step.
use inf01151_trabalho_final.Base.{
  ℕ, ◌≤◌, ◌≡◌, ◌∙◌, sym, ap, true, some, List, [], ◌∷◌, ◌++◌, append_assoc, arith, Bytes, length,
}
use inf01151_trabalho_final.SyncBuffer.{
  FileEntry, FileEntryType, FileSyncBuffer, entry_for, init_file_sync_buffer,
  add_file_to_sync_buffer, get_next_file_to_sync, file_sync_buffer_size,
}
use inf01151_trabalho_final.SyncBuffer.Refine.{
  IsValid, contents, length-contents, init-IsValid, add_lem, get_lem,
}

-- The buffer with what was queued and what was taken so far, oldest first.
pub record Traffic : Type 0 where
  pub buffer : FileSyncBuffer
  pub queued : List FileEntry
  pub taken : List FileEntry

pub data Step (t u : Traffic) : Type 0 where
  put :
      (username : Bytes) (session_index : ℕ) (filename : Bytes) (type : FileEntryType)
      → add_file_to_sync_buffer username session_index filename type t.buffer ≡ some u.buffer
      → u.queued ≡ t.queued ++ entry_for username session_index filename type ∷ []
      → u.taken ≡ t.taken
      → Step t u
  get :
      (e : FileEntry)
      → get_next_file_to_sync true t.buffer ≡ some (e, u.buffer)
      → u.queued ≡ t.queued
      → u.taken ≡ t.taken ++ e ∷ []
      → Step t u

pub data Reach (memory : List FileEntry) : Traffic → Type 0 where
  start : Reach memory (record { buffer = init_file_sync_buffer memory; queued = []; taken = [] })
  later : {t u : Traffic} → Reach memory t → Step t u → Reach memory u

-- Nothing is lost, repeated or reordered.
pub record IsFifo (t : Traffic) : Type 0 where
  pub valid : IsValid t.buffer
  pub order : t.queued ≡ t.taken ++ contents t.buffer

Step-IsFifo : {t u : Traffic} → Step t u → IsFifo t → IsFifo u
Step-IsFifo {t} {u} (put username i filename type e q k) v =
    let (valid, more) = add_lem username i filename type {b' = u.buffer} v.valid e in
    record {
      valid = valid;
      order =
          q
          ∙ ap (λ l. l ++ entry_for username i filename type ∷ []) v.order
          ∙ append_assoc t.taken (contents t.buffer) _
          ∙ rw (k, more);
    }
Step-IsFifo {t} {u} (get e h q k) v =
    let (valid, less) = get_lem {b' = u.buffer} v.valid h in
    record {
      valid = valid;
      order =
          q
          ∙ v.order
          ∙ ap (λ l. t.taken ++ l) less
          ∙ sym (append_assoc t.taken (e ∷ []) (contents u.buffer))
          ∙ rw k;
    }

Reach-IsFifo :
    {memory : List FileEntry} {t : Traffic}
    → length memory ≡ file_sync_buffer_size
    → Reach memory t
    → IsFifo t
Reach-IsFifo {memory} h start =
    let (valid, empty) = init-IsValid memory h in record { valid = valid; order = sym empty }
Reach-IsFifo h (later r s) = Step-IsFifo s (Reach-IsFifo h r)

-- After any interleaving of calls that queue and take files, starting from an initialised buffer,
-- the entries taken followed by those still pending are exactly the entries queued, in order, and
-- at most ten are pending.
pub Reach-order :
    {memory : List FileEntry} {t : Traffic}
    → length memory ≡ file_sync_buffer_size
    → Reach memory t
    → (t.queued ≡ t.taken ++ contents t.buffer) × (length (contents t.buffer) ≤ 10)
Reach-order {t = t} h r =
    let v = Reach-IsFifo h r in (v.order, omega (arith, v.valid, length-contents t.buffer))
