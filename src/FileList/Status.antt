-- ===== src/FileList/Status.antt =====
-- `get_file_status` of src/server/server.c by the map of names to checksums.
use inf01151_trabalho_final.Base.{
  ℕ, ◌≡◌, ◌≢◌, ◌∙◌, none, some, List, Bytes, ◌==◌, eqb_refl, eqb_ne, if◌then◌else◌,
}
use inf01151_trabalho_final.Files.{FileSystem, create_filepath}
use inf01151_trabalho_final.Transfer.{done}
use inf01151_trabalho_final.FileList.{
  FileNode, get_file_status, file_status_not_found, file_status_updated, file_status_exists,
  file_linked_list_get,
}
use inf01151_trabalho_final.FileList.Checksum.{checksum_of, crc32_lem}
use inf01151_trabalho_final.FileList.Laws.{
  crc_of, file_linked_list_get-none, file_linked_list_get-some,
}

module _ (list : List FileNode) (filename base_path : Bytes) (fs : FileSystem) where
  -- The checksum that the file on the disk has now.
  abbrev pub current : ℕ
  current = checksum_of fs (create_filepath base_path filename)

  pub status_unlisted :
      crc_of list filename ≡ none
      → get_file_status list filename base_path fs ≡ done file_status_not_found
  unfolding get_file_status
  status_unlisted h = rw (file_linked_list_get-none list filename h, get_file_status)

  status_of_node :
      (node : FileNode)
      → file_linked_list_get list filename ≡ some node
      → get_file_status list filename base_path fs
        ≡ done (if current == node.crc then file_status_exists else file_status_updated)
  unfolding get_file_status
  status_of_node node e =
      rw (e, get_file_status) (rw (crc32_lem fs (create_filepath base_path filename)))

  pub status_same :
      crc_of list filename ≡ some current
      → get_file_status list filename base_path fs ≡ done file_status_exists
  status_same h =
      let (node, e, same) = file_linked_list_get-some list filename current h in
      status_of_node node e ∙ rw (same, eqb_refl current)

  pub status_changed :
      (old : ℕ)
      → crc_of list filename ≡ some old
      → current ≢ old
      → get_file_status list filename base_path fs ≡ done file_status_updated
  status_changed old h ne =
      let (node, e, same) = file_linked_list_get-some list filename old h in
      status_of_node node e ∙ rw (same, eqb_ne ne)
