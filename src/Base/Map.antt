-- ===== src/Base/Map.antt =====
-- `std::unordered_map` with number keys: an association list with one entry for a key. The order of
-- iteration, which the standard leaves open, is that of the list.
use Prim.Native.Nat.{ℕ, suc, ◌≤◌}
use mathlib.Core.Path.{◌≡◌, refl}
use mathlib.Core.Bool.{Bool, true, false}
use mathlib.Core.Option.{Option, none, some}
use mathlib.Core.List.{List, [], ◌∷◌}
use native.Mathlib.Omega.{arith}
use remy.Base.Tests.{◌==◌, if◌then◌else◌}
use remy.Base.Lists.{length}

abbrev pub Map {ℓ} : Type ℓ → Type ℓ
Map V = List (ℕ × V)

module _ {ℓ} {V : Type ℓ} where
  -- `at` without the exception, and `contains` below.
  unfoldable pub get : ℕ → Map V → Option V
  get k [] = none
  get k ((j, v) ∷ m) = if j == k then some v else get k m

  unfoldable pub contains : ℕ → Map V → Bool
  contains k [] = false
  contains k ((j, v) ∷ m) = if j == k then true else contains k m

  -- m[k] = v
  unfoldable pub put : ℕ → V → Map V → Map V
  put k v [] = (k, v) ∷ []
  put k v ((j, w) ∷ m) = if j == k then (k, v) ∷ m else (j, w) ∷ put k v m

  unfoldable pub erase : ℕ → Map V → Map V
  erase k [] = []
  erase k ((j, v) ∷ m) = let rest = erase k m in if j == k then rest else (j, v) ∷ rest

  pub get-put :
      (k j : ℕ) (v : V) (m : Map V) → get j (put k v m) ≡ (if k == j then some v else get j m)
  unfolding get put
  get-put k j v [] = refl
  get-put k j v ((i, w) ∷ m) = ground (arith, get-put k j v m)

  pub get-erase : (k j : ℕ) (m : Map V) → get j (erase k m) ≡ (if k == j then none else get j m)
  unfolding get erase
  get-erase k j [] = ground arith
  get-erase k j ((i, w) ∷ m) = ground (arith, get-erase k j m)

  pub contains-put :
      (k j : ℕ) (v : V) (m : Map V)
      → contains j (put k v m) ≡ (if k == j then true else contains j m)
  unfolding contains put
  contains-put k j v [] = refl
  contains-put k j v ((i, w) ∷ m) = ground (arith, contains-put k j v m)

  pub contains-erase :
      (k j : ℕ) (m : Map V) → contains j (erase k m) ≡ (if k == j then false else contains j m)
  unfolding contains erase
  contains-erase k j [] = ground arith
  contains-erase k j ((i, w) ∷ m) = ground (arith, contains-erase k j m)

  pub contains-get : (k : ℕ) (m : Map V) → contains k m ≡ false → get k m ≡ none
  unfolding contains get
  contains-get k [] h = refl
  contains-get k ((i, w) ∷ m) h = ground (arith, contains-get k m)

  pub get-contains : (k : ℕ) (m : Map V) {v : V} → get k m ≡ some v → contains k m ≡ true
  unfolding contains get
  get-contains k [] h = ground arith
  get-contains k ((i, w) ∷ m) {v} h = ground (arith, get-contains k m {v = v})

  pub length-put_new :
      (k : ℕ) (v : V) (m : Map V) → contains k m ≡ false → length (put k v m) ≡ suc (length m)
  unfolding contains put
  length-put_new k v [] h = refl
  length-put_new k v ((i, w) ∷ m) h = ground (arith, length-put_new k v m)

  -- Erasing a new entry restores the map.
  pub erase-put_new : (k : ℕ) (v : V) (m : Map V) → contains k m ≡ false → erase k (put k v m) ≡ m
  unfolding contains erase put
  erase-put_new k v [] h = ground arith
  erase-put_new k v ((i, w) ∷ m) h = ground (arith, erase-put_new k v m, erase-absent k m)
    where
      erase-absent : (k : ℕ) (m : Map V) → contains k m ≡ false → erase k m ≡ m
      erase-absent k [] h = refl
      erase-absent k ((i, w) ∷ m) h = ground (arith, erase-absent k m)

  -- The last write to a key counts.
  pub put-put : (k : ℕ) (v w : V) (m : Map V) → put k v (put k w m) ≡ put k v m
  unfolding put
  put-put k v w [] = ground arith
  put-put k v w ((i, x) ∷ m) = ground (arith, put-put k v w m)

  pub length-erase-le : (k : ℕ) (m : Map V) → length (erase k m) ≤ length m
  unfolding erase
  length-erase-le k [] = omega arith
  length-erase-le k ((i, w) ∷ m) = ground (arith, length-erase-le k m)

  pub length-erase-lt :
      (k : ℕ) (m : Map V) → contains k m ≡ true → suc (length (erase k m)) ≤ length m
  unfolding contains erase
  length-erase-lt k [] h = ground arith
  length-erase-lt k ((i, w) ∷ m) h = ground (arith, length-erase-lt k m, length-erase-le k m)

pub ruleset map_laws = (get-put, get-erase, contains-put, contains-erase)
