-- ===== src/Utils/Size.antt =====
-- `pretty_size` of include/remy/utils.hpp. How `std::format` prints a floating point number is a
-- parameter of the model.
use native.Mathlib.Nat.{pow-suc, pow-zero, mul-le-mul_right}
use native.Mathlib.Numerals.{add-one}
use remy.Base.{
  ℕ, zero, suc, ◌+◌, ◌*◌, ◌/◌, ◌%◌, ◌^◌, ◌≤◌, ◌<◌, ◌≡◌, ◌↔◌, ◌⊎◌, refl, true, false, ◌&&◌, List, [],
  ◌∷◌, ◌++◌, Option, none, some, arith, leb, ltb, ◌==◌, if◌then◌else◌, Bool-cases, inl, inr,
  get_elem?, length,
}
use remy.Wire.{Text}
use remy.Utils.Duration.{codes}

abbrev pub size_names : List Text
size_names = codes "" ∷ codes "K" ∷ codes "M" ∷ codes "G" ∷ codes "T" ∷ []

pub record Scaled : Type 0 where
  pub size : ℕ
  pub rem : ℕ
  pub div : ℕ

-- The loop, on fuel. Six turns are enough, since `div` rises to 5.
unfoldable pub scale : ℕ → Scaled → Scaled
scale zero s = s
scale (suc fuel) s =
    let more = scale fuel (record { size = s.size / 1024; rem = s.size % 1024; div = s.div + 1 }) in
    if leb 1024 s.size && ltb s.div (length size_names) then more else s

unfoldable pub scaled : ℕ → Scaled
unfolding scale
scaled size = scale 6 (record { size = size; rem = 0; div = 0 })

-- `none`: the name is read past the end of the array. `print size rem precision` is the number
-- `size + rem / 1024` with that many digits behind the point.
unfoldable pub pretty_size : (ℕ → ℕ → ℕ → Text) → ℕ → Option Text
pretty_size print size =
    let s = scaled size in
    elim (get_elem? size_names s.div) [
      | none ↦ none
      | some name ↦ some (print s.size s.rem (if s.rem == 0 then 0 else 1) ++ name)
    ]

pow_step : (d : ℕ) → 1024 ^ (d + 1) ≡ 1024 ^ d * 1024
pow_step d = rw (add-one d) (pow-suc 1024 d)

below_div : (x p n : ℕ) → x * p ≤ n → x / 1024 * (p * 1024) ≤ n
below_div x p n h =
    let more : x / 1024 * 1024 * p ≤ x * p = mul-le-mul_right p (omega arith) in omega arith

above_div : (x p n : ℕ) → n < (x + 1) * p → n < (x / 1024 + 1) * (p * 1024)
above_div x p n h =
    let more : (x + 1) * p ≤ (x / 1024 + 1) * 1024 * p = mul-le-mul_right p (omega arith) in
    omega arith

-- What the loop keeps: `size` counts whole units of 1024 to the `div`.
record IsScaled (n : ℕ) (s : Scaled) : Type 0 where
  div_le : s.div ≤ 5
  low : s.size * 1024 ^ s.div ≤ n
  high : n < (s.size + 1) * 1024 ^ s.div
  some_unit : (s.div ≡ 0) ⊎ (1 ≤ s.size)

scale_turn :
    (n : ℕ) (s : Scaled)
    → IsScaled n s
    → leb 1024 s.size && ltb s.div 5 ≡ true
    → IsScaled n (record { size = s.size / 1024; rem = s.size % 1024; div = s.div + 1 })
scale_turn n s h again = record {
  div_le = ground arith;
  low = rw pow_step (below_div s.size _ n h.low);
  high = rw pow_step (above_div s.size _ n h.high);
  some_unit = inr (ground arith);
}

-- The loop stops by its own test.
scale_inv :
    (fuel : ℕ) (s : Scaled) (n : ℕ)
    → 5 < s.div + fuel
    → IsScaled n s
    → IsScaled n (scale fuel s) × (((scale fuel s).size < 1024) ⊎ ((scale fuel s).div ≡ 5))
unfolding scale
scale_inv zero s n f h = absurd (omega (arith, h.div_le))
scale_inv (suc fuel) s n f h = elim (Bool-cases (leb 1024 s.size && ltb s.div 5)) [
  | inl again ↦ rw again (scale_inv fuel _ n (omega arith) (scale_turn n s h again))
  | inr stop ↦ rw stop (h, stopped stop h.div_le)
]
  where
    stopped : leb 1024 s.size && ltb s.div 5 ≡ false → s.div ≤ 5 → (s.size < 1024) ⊎ (s.div ≡ 5)
    stopped stop le = ground arith

scaled_inv :
    (size : ℕ)
    → IsScaled size (scaled size) × (((scaled size).size < 1024) ⊎ ((scaled size).div ≡ 5))
unfolding scaled
scaled_inv size =
    scale_inv 6 (record { size = size; rem = 0; div = 0 }) size (omega arith)
      (record {
        div_le = omega arith;
        low = omega (arith, pow-zero 1024);
        high = omega (arith, pow-zero 1024);
        some_unit = inl refl;
      })

-- The number that is printed is the size in whole units of the `div`-th name, and below 1024 unless
-- the names ran out.
scaled_lem :
    (size : ℕ)
    → ((scaled size).size * 1024 ^ (scaled size).div ≤ size)
      × (size < ((scaled size).size + 1) * 1024 ^ (scaled size).div)
      × (((scaled size).size < 1024) ⊎ ((scaled size).div ≡ 5))
scaled_lem size = let (h, stop) = scaled_inv size in (h.low, h.high, stop)

name_missing : (div : ℕ) → div ≤ 5 → (get_elem? size_names div ≡ none) ↔ (div ≡ 5)
name_missing zero h = ground arith
name_missing (suc zero) h = ground arith
name_missing (suc (suc zero)) h = ground arith
name_missing (suc (suc (suc zero))) h = ground arith
name_missing (suc (suc (suc (suc zero)))) h = ground arith
name_missing (suc (suc (suc (suc (suc zero))))) h = ground arith
name_missing (suc (suc (suc (suc (suc (suc n)))))) h = absurd (omega arith)

units_at :
    (size div n : ℕ)
    → div ≤ 5
    → size * 1024 ^ div ≤ n
    → n < (size + 1) * 1024 ^ div
    → (div ≡ 0) ⊎ (1 ≤ size)
    → (size < 1024) ⊎ (div ≡ 5)
    → (div ≡ 5) ↔ (2 ^ 50 ≤ n)
units_at size zero n d l h u s = omega arith
units_at size (suc zero) n d l h u s = omega arith
units_at size (suc (suc zero)) n d l h u s = omega arith
units_at size (suc (suc (suc zero))) n d l h u s = omega arith
units_at size (suc (suc (suc (suc zero)))) n d l h u s = omega arith
units_at size (suc (suc (suc (suc (suc zero))))) n d l h u s = omega arith
units_at size (suc (suc (suc (suc (suc (suc k)))))) n d l h u s = absurd (omega arith)

pretty_size_name :
    (print : ℕ → ℕ → ℕ → Text) (size : ℕ)
    → (pretty_size print size ≡ none) ↔ (get_elem? size_names (scaled size).div ≡ none)
unfolding pretty_size
pretty_size_name print size = ground arith

-- The loop lets `div` reach the length of the array of names: exactly for sizes of at least 1024 T
-- (2 ^ 50 bytes) `pretty_size` reads past the end of the array, whatever prints the number.
pub pretty_size_overrun :
    (print : ℕ → ℕ → ℕ → Text) (size : ℕ) → (pretty_size print size ≡ none) ↔ (2 ^ 50 ≤ size)
pretty_size_overrun print size =
    let (h, stop) = scaled_inv size in
    let named = pretty_size_name print size in
    let missing = name_missing (scaled size).div h.div_le in
    let reached =
      units_at (scaled size).size (scaled size).div size h.div_le h.low h.high h.some_unit stop in
    (λ e. reached.0 (missing.0 (named.0 e)), λ e. named.1 (missing.1 (reached.1 e)))
