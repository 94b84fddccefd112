-- ===== src/Files.antt =====
-- The files that the program works on, and paths to them (`create_filepath` of
-- src/util/communication.c). The file system of the C library is a map from paths to contents, and a
-- test of the paths that `fopen(path, "w")` can open.
use inf01151_trabalho_final.Base.{
  ℕ, ◌+◌, ◌≡◌, Bool, Option, none, some, List, [], ◌∷◌, ◌++◌, arith, Bytes, str_eq, length, ltb,
  if◌then◌else◌, str_eq_iff,
}

pub record FileSystem : Type 0 where
  pub files : List (Bytes × Bytes)
  pub writable : Bytes → Bool

unfoldable pub lookup : List (Bytes × Bytes) → Bytes → Option Bytes
lookup [] path = none
lookup ((p, content) ∷ files) path = if str_eq path p then some content else lookup files path

-- Without every file of that path.
unfoldable pub without : List (Bytes × Bytes) → Bytes → List (Bytes × Bytes)
without [] path = []
without ((p, content) ∷ files) path =
    if str_eq path p then without files path else (p, content) ∷ without files path

-- fopen(path, "rb") and the content that can be read from it.
abbrev pub content_of : FileSystem → Bytes → Option Bytes
content_of fs path = lookup fs.files path

abbrev pub write_file : FileSystem → Bytes → Bytes → FileSystem
write_file fs path content = record fs { files = (path, content) ∷ without fs.files path }

abbrev pub remove_file : FileSystem → Bytes → FileSystem
remove_file fs path = record fs { files = without fs.files path }

pub lookup-without :
    (files : List (Bytes × Bytes)) (p q : Bytes)
    → lookup (without files p) q ≡ (if str_eq q p then none else lookup files q)
unfolding lookup without
lookup-without [] p q = ground arith
lookup-without ((r, content) ∷ files) p q =
    ground (arith, str_eq_iff p r, str_eq_iff q r, str_eq_iff q p, lookup-without files p q)

pub content_of-write_file :
    (fs : FileSystem) (p content q : Bytes)
    → content_of (write_file fs p content) q
      ≡ (if str_eq q p then some content else content_of fs q)
unfolding lookup
content_of-write_file fs p content q = ground (arith, lookup-without fs.files p q)

-- PATH_MAX of linux/limits.h
abbrev pub path_max : ℕ
path_max = 4096

-- `none` is NULL.
unfoldable pub create_filepath : Bytes → Bytes → Option Bytes
create_filepath base_path filename =
    let length = length base_path + 1 + length filename + 1 in
    if ltb path_max length then none else some (base_path ++ b'/' ∷ filename)
