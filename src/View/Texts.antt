-- ===== src/View/Texts.antt =====
-- The texts that src/view-client.cpp computes from the state: a line of a listing, what the dialogs
-- ask, and the progress of a copy. How `std::format` prints a floating point number is a parameter.
pub mod Permissions
pub mod Remaining
use remy.Base.{
  ℕ, zero, suc, ◌-◌, ◌/◌, ◌%◌, ◌^◌, Bool, true, false, not, ◌&&◌, ◌||◌, List, [], ◌∷◌, ◌++◌, Option,
  none, some, ltb, ◌==◌, if◌then◌else◌, length,
}
use mathlib.Core.Option
use remy.Base.Options.{◌>>=◌}
use remy.Wire.{Text, FileMetainfo, RemoteDentries, RemoteDentry, WatcherInfo}
use remy.Copy.Files.{file_type, is_reg, is_dir, is_lnk}
use remy.Utils.Duration.{codes, decimal, pretty_duration}
use remy.Utils.Size.{pretty_size}
use remy.Logger.Levels.{Color, green, yellow, blue, cyan}
use remy.View.State.{Ui, CopyModal, DeleteModal, LogLine}

-- `mode & S_IXUSR` and the like: the bit of that value.
abbrev pub has_bit : ℕ → ℕ → Bool
has_bit value mode = mode / value % 2 == 1

abbrev pub is_chr : ℕ → Bool
is_chr mode = file_type mode == 2

-- `name_elem`: the name, with its style, and the mark behind it.
unfoldable pub name_elem : Text → ℕ → LogLine × Text
name_elem basename mode =
    let styled : Color → LogLine =
      λ c. record { color = some c; is_bold = true; line = basename } in
    if is_reg mode && has_bit 64 mode
    then (styled green, codes "*")
    else if is_dir mode
    then (styled blue, codes "/")
    else if is_lnk mode
    then (styled cyan, codes "@")
    else if is_chr mode
    then (styled yellow, [])
    else (record { color = none; is_bold = false; line = basename }, [])

unfoldable pub letter : ℕ → ℕ → ℕ → ℕ
letter value c mode = if has_bit value mode then c else b'-'

unfoldable pub permissions : ℕ → Text
permissions mode =
    letter 256 b'r' mode
    ∷ letter 128 b'w' mode
    ∷ letter 64 b'x' mode
    ∷ letter 32 b'r' mode
    ∷ letter 16 b'w' mode
    ∷ letter 8 b'x' mode
    ∷ letter 4 b'r' mode
    ∷ letter 2 b'w' mode
    ∷ letter 1 b'x' mode
    ∷ []

-- `make_text` of the Copy dialog: the entries on the side that they come from.
unfoldable pub copy_side : Bool → CopyModal → Text
copy_side is_left copy =
    if (is_left && not copy.direction) || (not is_left && copy.direction)
    then decimal (length copy.src.dentries)
      ++ codes " in dir: '"
      ++ copy.src.basedir
      ++ codes "':\n"
      ++ lines copy.src.dentries
    else copy.dst.1
  where
    lines : List Text → Text
    lines [] = []
    lines (name ∷ names) = name ++ codes "\n" ++ lines names

abbrev pub item_lines : List Text → Text
item_lines [] = []
item_lines (name ∷ names) = codes " - " ++ name ++ codes "\n" ++ item_lines names

unfoldable pub delete_question : DeleteModal → Text
delete_question delete =
    codes "Are you sure you want to delete "
    ++ decimal (length delete.entries.dentries)
    ++ codes " entries in '"
    ++ delete.entries.basedir
    ++ codes "'?\n"
    ++ item_lines delete.entries.dentries

unfoldable pub remaining_size : WatcherInfo → ℕ
remaining_size progress =
    if ltb progress.total_progress progress.total_size
    then progress.total_size - progress.total_progress
    else 0

-- A division of integers, which has no result where it divides by zero.
abbrev pub divide : ℕ → ℕ → Option ℕ
divide n zero = none
divide n (suc m) = some (n / suc m)

-- `none` is the undefined behaviour of a division by zero.
unfoldable pub eta_seconds : WatcherInfo → Option ℕ
unfolding remaining_size
eta_seconds progress =
    if ltb 0 progress.speed then divide (remaining_size progress) progress.speed else some 0

unfoldable pub eta_text : WatcherInfo → Option Text
unfolding eta_seconds pretty_duration
eta_text progress = do
  seconds ← eta_seconds progress
  some (codes "ETA: " ++ (if ltb 0 progress.speed then pretty_duration seconds else codes "--"))

module _ (print : ℕ → ℕ → ℕ → Text) where
  -- `right_text`; `none` where `pretty_size` reads past its names.
  unfoldable pub right_text : FileMetainfo → Option Text
  unfolding permissions
  right_text meta =
      Option.map (λ size. size ++ codes " " ++ permissions meta.mode) (pretty_size print meta.size)

  -- "3K/12M"
  unfoldable pub size_of_size : ℕ → ℕ → Option Text
  size_of_size part whole = do
    p ← pretty_size print part
    w ← pretty_size print whole
    some (p ++ codes "/" ++ w)
