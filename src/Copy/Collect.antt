-- ===== src/Copy/Collect.antt =====
-- `CopySender::collect_metadata` (src/client.cpp): which files are sent, and under which paths. The
-- file system is a parameter.
pub mod Paths
use remy.Base.{
  ℕ, ◌+◌, Bool, true, false, ◌||◌, List, [], ◌∷◌, ◌++◌, Option, none, some, ltb, ◌==◌,
  if◌then◌else◌, length, drop,
}
use remy.Base.Options.{◌>>=◌}
use remy.Wire.{Text, FileMetainfo}
use remy.Copy.Files.{is_reg, is_dir, is_lnk, join_path}

-- `statx` gives nothing where it fails, which throws; `is_directory` follows a link; `below` is
-- what a `recursive_directory_iterator` gives.
pub record FileTree : Type 0 where
  pub statx : Text → Option FileMetainfo
  pub is_directory : Text → Bool
  pub below : Text → List Text

-- while (!m_base_path.empty() && m_base_path.back() == '/') m_base_path.resize(size - 1)
abbrev pub unless_last_slash : ℕ → Text → Text
unless_last_slash c [] = if c == b'/' then [] else c ∷ []
unless_last_slash c (d ∷ s) = c ∷ d ∷ s

unfoldable pub strip_slashes : Text → Text
strip_slashes [] = []
strip_slashes (c ∷ s) = unless_last_slash c (strip_slashes s)

unfoldable pub base_len : Text → ℕ
base_len base = if ltb 0 (length base) then length base + 1 else 0

abbrev pub is_supported : ℕ → Bool
is_supported mode = is_reg mode || is_dir mode || is_lnk mode

abbrev pub Dentries : Type 0
Dentries = List (Text × FileMetainfo)

-- The files below a directory; those of other kinds are left out.
unfoldable pub collect_below : FileTree → List Text → Option Dentries
collect_below tree [] = some []
collect_below tree (path ∷ paths) = do
  meta ← tree.statx path
  others ← collect_below tree paths
  some (if is_supported meta.mode then (path, meta) ∷ others else others)

abbrev pub collect_inside : FileTree → Text → Option Dentries
collect_inside tree path =
    if tree.is_directory path then collect_below tree (tree.below path) else some []

unfoldable pub collect_names : FileTree → Text → List Text → Option Dentries
collect_names tree base [] = some []
collect_names tree base (name ∷ names) = do
  meta ← tree.statx (join_path base name)
  inside ← collect_inside tree (join_path base name)
  others ← collect_names tree base names
  some (((join_path base name, meta) ∷ inside) ++ others)

unfoldable pub collect_metadata : FileTree → Text → List Text → Option Dentries
collect_metadata tree base names = collect_names tree (strip_slashes base) names

-- path.c_str() + m_base_len, in `CopySender::process`.
unfoldable pub remote_rel_path : Text → Text → Text
remote_rel_path base path = drop (base_len (strip_slashes base)) path
