-- ===== src/View/Texts/Permissions.antt =====
-- The nine letters of a mode (`right_text` of src/view-client.cpp).
use remy.Base.{
  ℕ, ◌+◌, ◌*◌, ◌/◌, ◌%◌, ◌≡◌, refl, ap, false, [], ◌∷◌, Option, none, some, arith, ◌==◌,
  if◌then◌else◌,
}
use remy.Base.Options.{◌>>=◌, bind_some}
use remy.Wire.{Text}
use remy.Utils.Duration.{codes}
use remy.View.Texts.{letter, permissions}

-- A letter at a place where `c` stands for the bit: `c` itself or a dash, and nothing else.
read_letter : ℕ → ℕ → Option ℕ
read_letter c d = if d == c then some 1 else if d == b'-' then some 0 else none

-- The text against the letters of `ls -l`, the most significant bit first.
unfoldable pub read_letters : Text → ℕ → Text → Option ℕ
unfolding read_letter
read_letters [] n [] = some n
read_letters [] n (d ∷ s) = none
read_letters (c ∷ cs) n [] = none
read_letters (c ∷ cs) n (d ∷ s) = do bit ← read_letter c d; read_letters cs (n * 2 + bit) s

module _ (mode : ℕ) where
  read_letter-letter :
      (value c : ℕ)
      → (c == b'-') ≡ false
      → read_letter c (letter value c mode) ≡ some (mode / value % 2)
  unfolding read_letter letter
  read_letter-letter value c h = ground (arith, h)

  -- The nine letters are those of `ls -l`, each at its place or a dash, and say the same as the nine
  -- low bits of the mode, the special bits left aside.
  pub permissions_lem : read_letters (codes "rwxrwxrwx") 0 (permissions mode) ≡ some (mode % 512)
  unfolding permissions read_letters read_letter
  permissions_lem = bind_some _ _ (read_letter-letter 256 b'r' refl) (
      bind_some _ _ (read_letter-letter 128 b'w' refl) (
        bind_some _ _ (read_letter-letter 64 b'x' refl) (
          bind_some _ _ (read_letter-letter 32 b'r' refl) (
            bind_some _ _ (read_letter-letter 16 b'w' refl) (
              bind_some _ _ (read_letter-letter 8 b'x' refl) (
                bind_some _ _ (read_letter-letter 4 b'r' refl) (
                  bind_some _ _ (read_letter-letter 2 b'w' refl)
                    (bind_some _ _ (read_letter-letter 1 b'x' refl) (ap some (omega arith))))))))))
