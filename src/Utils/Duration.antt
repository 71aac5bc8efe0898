-- ===== src/Utils/Duration.antt =====
-- `pretty_duration` of include/remy/utils.hpp.
use Prim.Native.Char.{code}
use Prim.Native.String.{String}
use native.Mathlib.Nat.{pow-suc, pow-zero}
use remy.Base.{
  ℕ, zero, suc, ◌+◌, ◌*◌, ◌/◌, ◌%◌, ◌^◌, ◌-◌, ◌<◌, ◌∙◌, ap, ◌&&◌, append_assoc, ltb→lt, ◌≡◌, refl,
  inl, inr, [], ◌∷◌, ◌++◌, arith, leb, ltb, ◌==◌, if◌then◌else◌, Bool-cases,
}
use remy.Wire.{Text}

-- The bytes of an ASCII literal.
abbrev pub codes : String → Text
codes String.[] = []
codes (String.◌∷◌ c s) = code c ∷ codes s

-- `std::format` of an unsigned number. Each turn takes a digit, so 20 turns print a `uint64_t`.
unfoldable pub digits : ℕ → ℕ → Text → Text
digits zero n out = out
digits (suc fuel) n out =
    let more = digits fuel (n / 10) ((48 + n % 10) ∷ out) in
    if ltb n 10 then (48 + n) ∷ out else more

unfoldable pub decimal : ℕ → Text
unfolding digits
decimal n = digits 20 n []

unfoldable pub pretty_duration : ℕ → Text
pretty_duration seconds =
    if leb 3600 seconds
    then decimal (seconds / 3600)
      ++ codes "h "
      ++ decimal (seconds % 3600 / 60)
      ++ codes "m "
      ++ decimal (seconds % 60)
      ++ codes "s"
    else if leb 60 seconds
    then decimal (seconds / 60) ++ codes "m " ++ decimal (seconds % 60) ++ codes "s"
    else decimal seconds ++ codes "s"

-- Reads such a text back: what has been counted, and the number before the next unit.
abbrev pub Reading : Type 0
Reading = ℕ × ℕ

read_step : ℕ → ℕ → ℕ → Reading
read_step total n c =
    if leb 48 c && leb c 57
    then (total, n * 10 + (c - 48))
    else if c == b'h'
    then (total + n * 3600, 0)
    else if c == b'm'
    then (total + n * 60, 0)
    else if c == b's'
    then (total + n, 0)
    else (total, n)

read_text : Reading → Text → Reading
read_text r [] = r
read_text r (c ∷ s) = read_text (read_step r.0 r.1 c) s

-- The seconds that a text such as `1h 2m 3s` stands for.
pub read_duration : Text → ℕ
unfolding read_text read_step
read_duration s = (read_text (0, 0) s).0

read_text-append : (r : Reading) (s t : Text) → read_text r (s ++ t) ≡ read_text (read_text r s) t
unfolding read_text
read_text-append r [] t = refl
read_text-append r (c ∷ s) t = read_text-append (read_step r.0 r.1 c) s t

read_digit : (total n d : ℕ) → d < 10 → read_step total n (48 + d) ≡ (total, n * 10 + d)
unfolding read_step
read_digit total n d h = ground arith

read_digits :
    (fuel total n : ℕ) (out : Text)
    → n < 10 ^ fuel
    → read_text (total, 0) (digits fuel n out) ≡ read_text (total, n) out
unfolding digits read_text
read_digits zero total n out h = let e : n ≡ 0 = omega (arith, pow-zero 10) in rw e
read_digits (suc fuel) total n out h = elim (Bool-cases (ltb n 10)) [
  | inl small ↦ rw small (
      ap (λ r. read_text r out) (read_digit total 0 n (ltb→lt n 10 small))
      ∙ ap (λ (k : ℕ). read_text (total, k) out) (omega arith))
  | inr large ↦ rw large (
      read_digits fuel total (n / 10) ((48 + n % 10) ∷ out) (omega (arith, pow-suc 10 fuel))
      ∙ ap (λ r. read_text r out) (read_digit total (n / 10) (n % 10) (omega arith))
      ∙ ap (λ (k : ℕ). read_text (total, k) out) (omega arith))
]

read_decimal :
    (total n : ℕ) (s : Text)
    → n < 10 ^ 20
    → read_text (total, 0) (decimal n ++ s) ≡ read_text (total, n) s
unfolding decimal
read_decimal total n s h =
    read_text-append (total, 0) (digits 20 n []) s
    ∙ ap (λ r. read_text r s) (read_digits 20 total n [] h ∙ unfold read_text in refl)

read_hms :
    (h m s : ℕ)
    → h < 10 ^ 20
    → m < 10 ^ 20
    → s < 10 ^ 20
    → read_text
        (0, 0)
        (decimal h ++ codes "h " ++ decimal m ++ codes "m " ++ decimal s ++ codes "s")
      ≡ (h * 3600 + m * 60 + s, 0)
unfolding read_text read_step
read_hms h m s bh bm bs = simp append_assoc (
    read_decimal 0 h (codes "h " ++ (decimal m ++ (codes "m " ++ (decimal s ++ codes "s")))) bh
    ∙ read_decimal (0 + h * 3600) m (codes "m " ++ (decimal s ++ codes "s")) bm
    ∙ read_decimal (0 + h * 3600 + m * 60) s (codes "s") bs
    ∙ ap (λ (k : ℕ). (k, zero)) (omega arith))

read_ms :
    (m s : ℕ)
    → m < 10 ^ 20
    → s < 10 ^ 20
    → read_text (0, 0) (decimal m ++ codes "m " ++ decimal s ++ codes "s") ≡ (m * 60 + s, 0)
unfolding read_text read_step
read_ms m s bm bs = simp append_assoc (
    read_decimal 0 m (codes "m " ++ (decimal s ++ codes "s")) bm
    ∙ read_decimal (0 + m * 60) s (codes "s") bs
    ∙ ap (λ (k : ℕ). (k, zero)) (omega arith))

read_s : (s : ℕ) → s < 10 ^ 20 → read_text (0, 0) (decimal s ++ codes "s") ≡ (s, 0)
unfolding read_text read_step
read_s s bs = read_decimal 0 s (codes "s") bs ∙ ap (λ (k : ℕ). (k, zero)) (omega arith)

read_pretty :
    (seconds : ℕ) → seconds < 2 ^ 64 → read_text (0, 0) (pretty_duration seconds) ≡ (seconds, 0)
unfolding pretty_duration
read_pretty seconds h = elim (Bool-cases (leb 3600 seconds)) [
  | inl hours ↦ rw hours (
      read_hms (seconds / 3600) (seconds % 3600 / 60) (seconds % 60) (omega arith) (omega arith)
        (omega arith)
      ∙ ap (λ (k : ℕ). (k, zero)) (omega arith))
  | inr below ↦ rw below (elim (Bool-cases (leb 60 seconds)) [
    | inl minutes ↦ rw minutes (
        read_ms (seconds / 60) (seconds % 60) (omega arith) (omega arith)
        ∙ ap (λ (k : ℕ). (k, zero)) (omega arith))
    | inr less ↦ rw less (read_s seconds (omega arith))
  ])
]

-- The text of a duration that fits a `uint64_t` stands for it: its hours, minutes and seconds add up.
pub read_duration-pretty_duration :
    (seconds : ℕ) → seconds < 2 ^ 64 → read_duration (pretty_duration seconds) ≡ seconds
unfolding read_duration
read_duration-pretty_duration seconds h = ap (λ (r : Reading). r.0) (read_pretty seconds h)
