-- ===== src/View/Dents/Order.antt =====
-- What the comparison of `ClientUi::show_dents` (src/view-client.cpp) is, and what a sort by it
-- gives.
use remy.Base.{◌≡◌, ◌≢◌, refl, ap, ◌∙◌, true, List, [], ◌∷◌, arith, Bool-cases, inl, inr, ◌⊎◌, All}
use remy.Wire.{Text, Dentry}
use remy.View.Dents.{name_le, comes_before, insert, sort_dents}
use mathlib.Core.List.{Perm}
use mathlib.Core.List.Perm

name_le_refl : (s : Text) → name_le s s ≡ true
unfolding name_le
name_le_refl [] = refl
name_le_refl (c ∷ s) = ground (arith, name_le_refl s)

name_le_total : (s t : Text) → (name_le s t ≡ true) ⊎ (name_le t s ≡ true)
unfolding name_le
name_le_total [] t = inl refl
name_le_total (c ∷ s) [] = inr refl
name_le_total (c ∷ s) (d ∷ t) = ground (arith, name_le_total s t)

name_le_trans : (s t u : Text) → name_le s t ≡ true → name_le t u ≡ true → name_le s u ≡ true
unfolding name_le
name_le_trans [] t u h k = refl
name_le_trans (c ∷ s) [] u h k = ground arith
name_le_trans (c ∷ s) (d ∷ t) [] h k = ground arith
name_le_trans (c ∷ s) (d ∷ t) (e ∷ u) h k = ground (arith, name_le_trans s t u)

name_le_antisymm : (s t : Text) → name_le s t ≡ true → name_le t s ≡ true → s ≡ t
unfolding name_le
name_le_antisymm [] [] h k = refl
name_le_antisymm [] (d ∷ t) h k = ground arith
name_le_antisymm (c ∷ s) [] h k = ground arith
name_le_antisymm (c ∷ s) (d ∷ t) h k =
    let same : c ≡ d = ground arith in
    ap (λ x. x ∷ s) same
    ∙ ap (λ (x : Text). d ∷ x) (name_le_antisymm s t (ground arith) (ground arith))

-- Every entry is said to come before itself, which a comparison for `std::sort` must not say.
comes_before_refl : (d : Dentry) → comes_before d d ≡ true
unfolding comes_before
comes_before_refl d = ground (arith, name_le_refl d.basename)

pub comes_before_total : (a b : Dentry) → (comes_before a b ≡ true) ⊎ (comes_before b a ≡ true)
unfolding comes_before
comes_before_total a b = ground (arith, name_le_total a.basename b.basename)

pub comes_before_trans :
    (a b c : Dentry) → comes_before a b ≡ true → comes_before b c ≡ true → comes_before a c ≡ true
unfolding comes_before
comes_before_trans a b c h k = ground (arith, name_le_trans a.basename b.basename c.basename)

-- Two entries that come before each other have the same name.
pub comes_before_antisymm :
    (a b : Dentry) → comes_before a b ≡ true → comes_before b a ≡ true → a.basename ≡ b.basename
unfolding comes_before
comes_before_antisymm a b h k = ground (arith, name_le_antisymm a.basename b.basename)

abbrev pub HasNoTwins : List Dentry → Type 0
HasNoTwins [] = Unit
HasNoTwins (d ∷ ds) = All (λ e. d.basename ≢ e.basename) ds × HasNoTwins ds

-- Each entry comes before all that follow.
abbrev pub IsOrdered : List Dentry → Type 0
IsOrdered [] = Unit
IsOrdered (d ∷ ds) = All (λ e. comes_before d e ≡ true) ds × IsOrdered ds

All-trans :
    (d e : Dentry) (es : List Dentry)
    → comes_before d e ≡ true
    → All (λ x. comes_before e x ≡ true) es
    → All (λ x. comes_before d x ≡ true) es
All-trans d e [] h all = tt
All-trans d e (x ∷ es) h (first, others) =
    (comes_before_trans d e x h first, All-trans d e es h others)

All-insert :
    (d e : Dentry) (es : List Dentry)
    → comes_before e d ≡ true
    → All (λ x. comes_before e x ≡ true) es
    → All (λ x. comes_before e x ≡ true) (insert d es)
unfolding insert
All-insert d e [] h all = (h, tt)
All-insert d e (x ∷ es) h (first, others) = elim (Bool-cases (comes_before d x)) [
  | inl yes_before ↦ rw yes_before (h, (first, others))
  | inr after ↦ rw after (first, All-insert d e es h others)
]

insert-IsOrdered : (d : Dentry) (es : List Dentry) → IsOrdered es → IsOrdered (insert d es)
unfolding insert
insert-IsOrdered d [] ordered = (tt, tt)
insert-IsOrdered d (e ∷ es) (first, others) = elim (Bool-cases (comes_before d e)) [
  | inl before ↦ rw before ((before, All-trans d e es before first), (first, others))
  | inr after ↦ rw after (
    All-insert d e es (ground (arith, comes_before_total d e)) first,
    insert-IsOrdered d es others,
  )
]

insert-Perm : (d : Dentry) (es : List Dentry) → Perm (insert d es) (d ∷ es)
unfolding insert
insert-Perm d [] = Perm.refl (d ∷ [])
insert-Perm d (e ∷ es) = elim (Bool-cases (comes_before d e)) [
  | inl before ↦ rw before (Perm.refl (d ∷ e ∷ es))
  | inr after ↦ rw after (Perm.trans (Perm.cons e (insert-Perm d es)) (Perm.swap d e es))
]

-- The listing has the entries that it was given, in order: directories before all else, and each
-- of the two groups by name.
pub sort_dents_lem : (ds : List Dentry) → IsOrdered (sort_dents ds) × Perm (sort_dents ds) ds
unfolding sort_dents
sort_dents_lem [] = (tt, Perm.refl [])
sort_dents_lem (d ∷ ds) =
    let (ordered, perm) = sort_dents_lem ds in
    (
      insert-IsOrdered d (sort_dents ds) ordered,
      Perm.trans (insert-Perm d (sort_dents ds)) (Perm.cons d perm),
    )
