-- ===== src/View/Dents.antt =====
-- The order in which `ClientUi::show_dents` (src/view-client.cpp) lists a directory.
pub mod Order
pub mod Unique
use remy.Base.{ℕ, Bool, true, false, List, [], ◌∷◌, ◌==◌, ltb, not, if◌then◌else◌}
use remy.Wire.{Text, Dentry}
use remy.Copy.Files.{file_type, is_dir}

-- `(first <=> second) <= 0` on strings: bytes in turn, and a prefix first.
unfoldable pub name_le : Text → Text → Bool
name_le [] t = true
name_le (c ∷ s) [] = false
name_le (c ∷ s) (d ∷ t) = if ltb c d then true else if ltb d c then false else name_le s t

-- The lambda that `show_dents` gives to `std::sort`.
unfoldable pub comes_before : Dentry → Dentry → Bool
comes_before first second =
    let by_name = name_le first.basename second.basename in
    if not (file_type first.metainfo.mode == file_type second.metainfo.mode)
    then if is_dir first.metainfo.mode
      then true
      else if is_dir second.metainfo.mode
      then false
      else by_name
    else by_name

-- In place of `std::sort` by that lambda, an insertion sort. On equal names the lambda is no strict
-- weak order, and what `std::sort` does is undefined.
unfoldable pub insert : Dentry → List Dentry → List Dentry
insert d [] = d ∷ []
insert d (e ∷ es) = if comes_before d e then d ∷ e ∷ es else e ∷ insert d es

unfoldable pub sort_dents : List Dentry → List Dentry
sort_dents [] = []
sort_dents (d ∷ ds) = insert d (sort_dents ds)
