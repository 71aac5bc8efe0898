-- ===== src/View/Texts/Remaining.antt =====
-- The time that is left for a copy (src/view-client.cpp).
use remy.Base.{
  ℕ, zero, suc, ◌+◌, ◌*◌, ◌/◌, ◌≤◌, ◌<◌, ◌≡◌, ◌⊎◌, inl, inr, refl, arith, lt→ltb, ltb, some,
  if◌then◌else◌,
}
use native.Mathlib.Nat.{div-mul-le_self, lt-mul-div-succ}
use remy.Wire.{WatcherInfo}
use remy.View.Texts.{divide, remaining_size, eta_seconds}

at_rate :
    (r s : ℕ)
    → (n : ℕ) × ((if ltb 0 s then divide r s else some 0) ≡ some n)
      × (n * s ≤ r)
      × ((s ≡ 0) × (n ≡ 0) ⊎ (r < (n + 1) * s))
at_rate r zero = (0, refl, omega arith, inl (refl, refl))
at_rate r (suc s) = (
  r / suc s,
  rw (lt→ltb 0 (suc s) (omega arith)) refl,
  div-mul-le_self r (suc s),
  inr (omega (arith, lt-mul-div-succ r {b = suc s} (omega arith))),
)

with_remaining :
    (w : WatcherInfo)
    → w.total_progress + remaining_size w
      ≡ (if ltb w.total_progress w.total_size then w.total_size else w.total_progress)
unfolding remaining_size
with_remaining w = ground arith

-- Whatever the speed, 0 included, nothing is divided by 0. At the speed shown, the time shown is
-- enough for the bytes that are left, up to a last second; with none left it is 0, also where more
-- bytes have been counted than were announced. A speed of 0 gives 0.
pub eta_seconds_lem :
    (w : WatcherInfo)
    → (n : ℕ) × (eta_seconds w ≡ some n)
      × (n * w.speed ≤ remaining_size w)
      × ((w.speed ≡ 0) × (n ≡ 0) ⊎ (remaining_size w < (n + 1) * w.speed))
      × (w.total_progress + remaining_size w
          ≡ (if ltb w.total_progress w.total_size then w.total_size else w.total_progress))
unfolding eta_seconds
eta_seconds_lem w =
    let (n, run, low, high) = at_rate (remaining_size w) w.speed in
    (n, run, low, high, with_remaining w)
