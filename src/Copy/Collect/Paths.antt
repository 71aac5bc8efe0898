-- ===== src/Copy/Collect/Paths.antt =====
-- Under which paths a copy sends its files (src/client.cpp, `CopySender::collect_metadata`).
use remy.Base.{
  ℕ, zero, suc, ◌≡◌, refl, ap, sym, ◌∙◌, false, List, [], ◌∷◌, ◌++◌, Option, none, some, replicate,
  All,
}
use remy.Wire.{Text}
use remy.Copy.Files.{join_path, is_absolute}
use remy.Copy.Collect.{FileTree, strip_slashes, Dentries, collect_names, collect_metadata}

-- What the iterator promises: each path that it gives is that of the directory joined with a
-- relative one, so "/bin" for "/", and "d/bin" both for "d" and for "d/".
abbrev pub IsBelow : Text → Text → Type 0
IsBelow path e = (more : Text) × (is_absolute more ≡ false) × (e ≡ join_path path more)

pub record ListsBelow (tree : FileTree) : Type 0 where
  pub at : (path : Text) → All (IsBelow path) (tree.below path)

-- The path of a file below the base is made of the base, a slash, and the path that is sent.
abbrev IsUnder : Text → Text → Type 0
IsUnder base path = (rel : Text) × (path ≡ base ++ b'/' ∷ rel)

AllUnder : Text → Dentries → Type 0
AllUnder base = All (λ d. IsUnder base d.0)

-- What holds of a result, if there is one.
abbrev OrNone {ℓ} : {A : Type ℓ} → (A → Type 0) → Option A → Type 0
OrNone P none = Unit
OrNone P (some a) = P a

strip_root : (n : ℕ) → strip_slashes (replicate n b'/') ≡ []
unfolding strip_slashes
strip_root zero = refl
strip_root (suc n) = rw (strip_root n) refl

-- The root, however many slashes it is written with, is taken for the empty path: the names are
-- looked up from the sender's working directory.
collect_root :
    (tree : FileTree) (n : ℕ) (names : List Text)
    → collect_metadata tree (replicate n b'/') names ≡ collect_metadata tree [] names
unfolding collect_metadata
collect_root tree n names =
    ap (λ (b : Text). collect_names tree b names) (strip_root n ∙ sym (strip_root 0))
