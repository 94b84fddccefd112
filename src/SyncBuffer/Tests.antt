-- ===== src/SyncBuffer/Tests.antt =====
-- Tests of the session's file queue, and its theorems at concrete inputs.
use inf01151_trabalho_final.Base.{
  ◌≡◌, refl, ◌≤◌, true, none, some, List, [], ◌∷◌, ◌++◌, arith, codes, length, replicate,
}
use inf01151_trabalho_final.SyncBuffer.{
  FileEntry, FileSyncBuffer, file_entry_send, file_entry_delete, invalid, entry_for,
  init_file_sync_buffer, add_file_to_sync_buffer, get_next_file_to_sync,
}
use inf01151_trabalho_final.SyncBuffer.Refine.{IsValid, contents, add_lem, get_lem}
use inf01151_trabalho_final.SyncBuffer.Traffic.{Traffic, put, get, Reach, start, later, Reach-order}

abbrev file_a : FileEntry
file_a = entry_for (codes "ana") 1 (codes "a.txt") file_entry_send

abbrev file_b : FileEntry
file_b = entry_for (codes "ana") 1 (codes "b.txt") file_entry_delete

abbrev memory : List FileEntry
memory = replicate 10 invalid

-- One entry, at the last place of the array.
abbrev wrapped : FileSyncBuffer
wrapped = record {
  buffer =
      invalid ∷ invalid ∷ invalid ∷ invalid ∷ invalid ∷ invalid ∷ invalid ∷ invalid ∷ invalid
      ∷ file_a ∷ [];
  start = 9;
  end = 0;
  count = 1;
}

abbrev with_b : FileSyncBuffer
with_b = record {
  buffer =
      file_b ∷ invalid ∷ invalid ∷ invalid ∷ invalid ∷ invalid ∷ invalid ∷ invalid ∷ invalid
      ∷ file_a ∷ [];
  start = 9;
  end = 1;
  count = 2;
}

wrapped-IsValid : IsValid wrapped
wrapped-IsValid = omega arith

contents-with_b : contents with_b ≡ file_a ∷ file_b ∷ []
contents-with_b = refl

added_b :
    add_file_to_sync_buffer (codes "ana") 1 (codes "b.txt") file_entry_delete wrapped ≡ some with_b
unfolding add_file_to_sync_buffer
added_b = refl

full :
    add_file_to_sync_buffer
      (codes "ana")
      1
      (codes "b.txt")
      file_entry_delete
      (record wrapped { count = 10 })
    ≡ none
unfolding add_file_to_sync_buffer
full = refl

add_lem_example : IsValid with_b × (contents with_b ≡ contents wrapped ++ file_b ∷ [])
add_lem_example =
    add_lem (codes "ana") 1 (codes "b.txt") file_entry_delete {b = wrapped} wrapped-IsValid added_b

after_get : FileSyncBuffer
after_get = record with_b { start = 0; count = 1 }

taken_a : get_next_file_to_sync true with_b ≡ some (file_a, after_get)
unfolding get_next_file_to_sync after_get
taken_a = refl

get_lem_example : IsValid after_get × (contents with_b ≡ file_a ∷ contents after_get)
get_lem_example = get_lem {b = with_b} (omega arith) taken_a

-- One file queued and taken.
abbrev one_queued : Traffic
one_queued = record {
  buffer = record { buffer = file_a ∷ replicate 9 invalid; start = 0; end = 1; count = 1 };
  queued = file_a ∷ [];
  taken = [];
}

abbrev one_taken : Traffic
one_taken = record {
  buffer = record { buffer = file_a ∷ replicate 9 invalid; start = 1; end = 1; count = 0 };
  queued = file_a ∷ [];
  taken = file_a ∷ [];
}

one_taken-Reach : Reach memory one_taken
unfolding add_file_to_sync_buffer get_next_file_to_sync init_file_sync_buffer
one_taken-Reach =
    later {t = one_queued}
      (later start (put (codes "ana") 1 (codes "a.txt") file_entry_send refl refl refl))
      (get file_a refl refl refl)

Reach-order_example :
    (file_a ∷ [] ≡ file_a ∷ contents one_taken.buffer) × (length (contents one_taken.buffer) ≤ 10)
Reach-order_example = Reach-order {memory = memory} refl one_taken-Reach
