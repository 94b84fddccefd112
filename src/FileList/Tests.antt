-- ===== src/FileList/Tests.antt =====
-- Tests of the list of files, and its theorems at concrete inputs.
use inf01151_trabalho_final.Base.{◌≡◌, refl, some, true, List, [], ◌∷◌, codes, str_eq}
use inf01151_trabalho_final.Files.{FileSystem, lookup}
use inf01151_trabalho_final.Transfer.{done}
use inf01151_trabalho_final.FileList.{FileNode, crc_bits, crc_bytes, crc32}
use inf01151_trabalho_final.FileList.Checksum.{checksum, checksum_of, crc32_lem}
use inf01151_trabalho_final.FileList.Laws.{IsCatalog}

abbrev disk : FileSystem
disk = record { files = (codes "d/f", codes "123456789") ∷ []; writable = λ p. true }

-- The check value of CRC-32.
check_value : checksum (codes "123456789") ≡ 0xCBF43926
unfolding crc_bytes crc_bits
check_value = refl

of_nothing : crc32 disk (some (codes "d/g")) ≡ done 0
unfolding crc32 lookup str_eq
of_nothing = refl

crc32_lem_example : crc32 disk (some (codes "d/f")) ≡ done (checksum_of disk (some (codes "d/f")))
crc32_lem_example = crc32_lem disk (some (codes "d/f"))

abbrev two_files : List FileNode
two_files = record { key = codes "a"; crc = 1 } ∷ record { key = codes "b"; crc = 2 } ∷ []

two_files-IsCatalog : IsCatalog two_files
unfolding str_eq
two_files-IsCatalog = (refl, (refl, tt))
