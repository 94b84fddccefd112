-- ===== src/Listing/Tests.antt =====
-- Tests of the listing of a folder, and its theorem at a concrete folder.
use inf01151_trabalho_final.Base.{
  ◌≡◌, refl, true, false, none, some, List, [], ◌∷◌, codes, str_eq, ◌⊎◌,
}
use inf01151_trabalho_final.Transfer.{done, crash}
use inf01151_trabalho_final.Listing.{
  Times, Dirent, grow, strcat, strcat_each, list_files, list_entries, make_room, is_dot,
}
use inf01151_trabalho_final.Listing.Growth.{listing}
use inf01151_trabalho_final.Listing.Room.{Fails, list_files_lem}

abbrev times : Times
times = record {
  mod_time = codes "19/11/2025 10:00:00";
  acc_time = codes "20/11/2025 10:00:00";
  chg_time = codes "19/11/2025 10:00:01";
}

abbrev folder : List Dirent
folder =
    record { d_name = codes "."; times = some times; reallocates = true }
    ∷ record { d_name = codes "a.txt"; times = some times; reallocates = false }
    ∷ record { d_name = codes "gone"; times = none; reallocates = true }
    ∷ []

grown : grow 5000 5000 4096 ≡ 8192
unfolding grow
grown = refl

overrun : strcat (codes "abcd") (record { result = codes "xyz"; buffer_size = 7 }) ≡ crash
unfolding strcat
overrun = refl

one_file :
    list_files (some folder) true
    ≡ done (
        some (
          codes
            "\nFile: a.txt\n    Modification time: 19/11/2025 10:00:00\n          Access time: 20/11/2025 10:00:00\n Change/creation time: 19/11/2025 10:00:01\n\n"))
unfolding list_files list_entries make_room is_dot strcat strcat_each str_eq
one_file = refl

list_files_lem_example :
    (list_files (some folder) true ≡ done (some (listing folder)))
    ⊎ ((list_files (some folder) true ≡ done none) × Fails folder)
list_files_lem_example = list_files_lem folder
