-- ===== src/Copy/Files.antt =====
-- The files of a Copy operation.
use remy.Base.{ℕ, ◌*◌, ◌/◌, ◌%◌, ◌≡◌, Bool, true, false, [], ◌∷◌, ◌++◌, length, ◌==◌, if◌then◌else◌}
use remy.Wire.{Text, FileMetainfo}
use remy.Serde.Bytes.{Bytes}
use remy.Serde.Containers.{FitsText}
use remy.Serde.Structs.{FitsMetainfo}

-- `mode & S_IFMT` of sys/stat.h, shifted to the right by its twelve low bits.
abbrev pub file_type : ℕ → ℕ
file_type mode = mode / 4096 % 16

abbrev pub is_reg : ℕ → Bool
is_reg mode = file_type mode == 8

abbrev pub is_dir : ℕ → Bool
is_dir mode = file_type mode == 4

abbrev pub is_lnk : ℕ → Bool
is_lnk mode = file_type mode == 10

-- One of `m_dentries`, with what the sender finds at its path when it comes to it: the content of a
-- regular file, the target of a link. The metadata are those that `statx` gave before.
pub record SourceFile : Type 0 where
  pub rel_path : Text
  pub meta : FileMetainfo
  pub content : Bytes
  pub target : Text

-- std::vector<char> buf(1024*1024)
abbrev pub buf_size : ℕ
buf_size = 1024 * 1024

-- `std::filesystem::path::operator/` on POSIX: an absolute right side replaces the left one.
abbrev pub is_absolute : Text → Bool
is_absolute [] = false
is_absolute (c ∷ s) = c == b'/'

abbrev pub ends_in_slash : Text → Bool
ends_in_slash [] = false
ends_in_slash (c ∷ []) = c == b'/'
ends_in_slash (c ∷ d ∷ s) = ends_in_slash (d ∷ s)

unfoldable pub join_path : Text → Text → Text
join_path [] rel = rel
join_path (c ∷ base) rel =
    if is_absolute rel
    then rel
    else if ends_in_slash (c ∷ base)
    then (c ∷ base) ++ rel
    else (c ∷ base) ++ (b'/' ∷ rel)

-- What the receiver asks of its file system.
pub data FsOp : Type 0 where
  write_file : Text → Bytes → FsOp
  create_symlink : Text → Text → FsOp
  create_directory : Text → FsOp
  apply_attrs : Text → FileMetainfo → FsOp

-- The file has not changed since its metadata were read, and its fields fit their types.
pub record IsSteady (f : SourceFile) : Type 0 where
  pub fits : FitsMetainfo f.meta
  pub path_fits : FitsText f.rel_path
  pub target_fits : FitsText f.target
  pub same_size : is_reg f.meta.mode ≡ true → length f.content ≡ f.meta.size
