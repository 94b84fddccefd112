-- ===== src/FileList.antt =====
-- The files of a user with their checksums: src/util/fileLinkedList.c, `crc32` and the loop of
-- `remove_file_from_context` of src/util/connectionManagement.c, and `get_file_status` of
-- src/server/server.c.
pub mod Checksum
pub mod Laws
pub mod Status
mod Tests
use Prim.Native.Nat.{bit_xor}
use inf01151_trabalho_final.Base.{
  ℕ, zero, suc, ◌/◌, ◌%◌, Bool, true, false, Option, none, some, List, [], ◌∷◌, Bytes, str_eq,
  length, take, drop, ◌==◌, if◌then◌else◌,
}
use inf01151_trabalho_final.Files.{FileSystem, content_of, create_filepath}
use inf01151_trabalho_final.Transfer.{Io, done, waiting, crash, ◌>>=◌}

pub record FileNode : Type 0 where
  pub key : Bytes
  pub crc : ℕ

abbrev pub file_linked_list_push : List FileNode → Bytes → ℕ → List FileNode
file_linked_list_push list key file_hash = record { key = key; crc = file_hash } ∷ list

unfoldable pub file_linked_list_get : List FileNode → Bytes → Option FileNode
file_linked_list_get [] key = none
file_linked_list_get (node ∷ list) key =
    if str_eq key node.key then some node else file_linked_list_get list key

-- `file_node->crc = crc`, where `file_node` is what `FileLinkedList_get` finds.
unfoldable pub set_crc : List FileNode → Bytes → ℕ → List FileNode
set_crc [] key crc = []
set_crc (node ∷ list) key crc =
    if str_eq key node.key then record node { crc = crc } ∷ list else node ∷ set_crc list key crc

-- The loop of `remove_file_from_context`; `none` if no node has the name.
unfoldable pub remove_node : List FileNode → Bytes → Option (List FileNode)
remove_node [] filename = none
remove_node (head ∷ list) filename = elim (str_eq head.key filename) [
  | true ↦ some list
  | false ↦ elim (remove_node list filename) [ none ↦ none | some rest ↦ some (head ∷ rest) ]
]

-- One bit of the checksum.
abbrev pub crc_bit : ℕ → ℕ
crc_bit crc = if crc % 2 == 1 then bit_xor (crc / 2) 0xEDB88320 else crc / 2

unfoldable pub crc_bits : ℕ → ℕ → ℕ
crc_bits zero crc = crc
crc_bits (suc j) crc = crc_bits j (crc_bit crc)

-- The bytes of one read.
unfoldable pub crc_bytes : ℕ → Bytes → ℕ
crc_bytes crc [] = crc
crc_bytes crc (b ∷ buffer) = crc_bytes (crc_bits 8 (bit_xor crc b)) buffer

-- while ((bytesRead = fread(buffer, 1, 1024, file)) > 0); a loop that does not end is `waiting`.
unfoldable pub crc_reads : ℕ → ℕ → Bytes → Io ℕ
crc_reads zero crc rest = waiting
crc_reads (suc fuel) crc rest =
    let buffer = take 1024 rest in
    elim (length buffer == 0) [
      | true ↦ done crc
      | false ↦ crc_reads fuel (crc_bytes crc buffer) (drop 1024 rest)
    ]

-- A file that cannot be opened has the checksum 0.
unfoldable pub crc32 : FileSystem → Option Bytes → Io ℕ
crc32 fs none = done 0
crc32 fs (some filepath) = elim (content_of fs filepath) [
  | none ↦ done 0
  | some content ↦ (do
    crc ← crc_reads (suc (length content)) 0xFFFFFFFF content
    done (bit_xor crc 0xFFFFFFFF))
]

pub data FileStatus : Type 0 where
  file_status_not_found file_status_updated file_status_exists : FileStatus

unfoldable pub get_file_status : List FileNode → Bytes → Bytes → FileSystem → Io FileStatus
get_file_status list filename base_path fs = elim (file_linked_list_get list filename) [
  | none ↦ done file_status_not_found
  | some file_node ↦ (do
    new_crc ← crc32 fs (create_filepath base_path filename)
    done (if new_crc == file_node.crc then file_status_exists else file_status_updated))
]
