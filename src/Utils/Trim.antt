-- ===== src/Utils/Trim.antt =====
-- `trim_end` of include/remy/utils.hpp, on the bytes of the string.
use mathlib.Core.List.{reverse, reverse-append, reverse-reverse}
use remy.Base.{
  ℕ, ◌≡◌, refl, sym, ap, ◌∙◌, Bool, true, false, ◌&&◌, ◌||◌, [], ◌∷◌, ◌++◌, leb, ◌==◌,
  if◌then◌else◌, Bool-cases, inl, inr, All,
}
use remy.Wire.{Text}

-- `std::isspace` in the "C" locale: tab to carriage return, and the space.
unfoldable pub is_space : ℕ → Bool
is_space ch = (leb 9 ch && leb ch 13) || ch == 32

-- What `std::find_if` passes over, from the end of the string.
unfoldable pub skip_spaces : Text → Text
skip_spaces [] = []
skip_spaces (ch ∷ s) = let rest = skip_spaces s in if is_space ch then rest else ch ∷ s

unfoldable pub trim_end : Text → Text
unfolding skip_spaces is_space
trim_end s = reverse (skip_spaces (reverse s))

abbrev pub AllSpace : Text → Type 0
AllSpace = All (λ ch. is_space ch ≡ true)

-- The last byte, if there is one, is no space.
abbrev pub EndsTrimmed : Text → Type 0
EndsTrimmed [] = Unit
EndsTrimmed (ch ∷ s) = is_space ch ≡ false

skip_spaces_split : (s : Text) → (spaces : Text) × (s ≡ spaces ++ skip_spaces s) × AllSpace spaces
unfolding skip_spaces
skip_spaces_split [] = ([], refl, tt)
skip_spaces_split (ch ∷ s) = elim (Bool-cases (is_space ch)) [
  | inl space ↦
      let (spaces, e, all) = skip_spaces_split s in
      (ch ∷ spaces, rw space (ap (λ (t : Text). ch ∷ t) e), (space, all))
  | inr other ↦ ([], rw other, tt)
]

skip_spaces-EndsTrimmed : (s : Text) → EndsTrimmed (skip_spaces s)
unfolding skip_spaces
skip_spaces-EndsTrimmed [] = tt
skip_spaces-EndsTrimmed (ch ∷ s) = elim (Bool-cases (is_space ch)) [
  | inl space ↦ rw space (skip_spaces-EndsTrimmed s)
  | inr other ↦ rw other other
]

skip_spaces_done : (s : Text) → EndsTrimmed s → skip_spaces s ≡ s
unfolding skip_spaces
skip_spaces_done [] h = refl
skip_spaces_done (ch ∷ s) h = rw h

trim_again : (s : Text) → trim_end (trim_end s) ≡ trim_end s
unfolding trim_end
trim_again s =
    ap (λ (t : Text). reverse (skip_spaces t)) (reverse-reverse (skip_spaces (reverse s)))
    ∙ ap reverse (skip_spaces_done _ (skip_spaces-EndsTrimmed (reverse s)))

trim_split : (s : Text) → (spaces : Text) × (s ≡ trim_end s ++ reverse spaces) × AllSpace spaces
unfolding trim_end
trim_split s =
    let (spaces, e, all) = skip_spaces_split (reverse s) in
    (
      spaces,
      sym (reverse-reverse s) ∙ ap reverse e ∙ reverse-append spaces (skip_spaces (reverse s)),
      all,
    )

trim_ends : (s : Text) → EndsTrimmed (reverse (trim_end s))
unfolding trim_end
trim_ends s = rw reverse-reverse (skip_spaces-EndsTrimmed (reverse s))

-- The result is the string without some spaces at its end, it does not end in a space, and to trim
-- it again changes nothing.
trim_end_lem :
    (s : Text)
    → ((spaces : Text) × (s ≡ trim_end s ++ reverse spaces) × AllSpace spaces)
      × EndsTrimmed (reverse (trim_end s))
      × (trim_end (trim_end s) ≡ trim_end s)
trim_end_lem s = (trim_split s, trim_ends s, trim_again s)
