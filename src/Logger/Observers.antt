-- ===== src/Logger/Observers.antt =====
-- Who gets a log line, and who is removed (include/remy/logger.hpp).
use remy.Base.{
  ℕ, suc, ◌-◌, ◌≤◌, ◌<◌, ◌≡◌, refl, ap, ◌∙◌, Bool, true, false, List, [], ◌∷◌, ◌++◌, map,
  append-nil, some, arith, ◌==◌, if◌then◌else◌, length, drop, length-append, length-drop, inl, inr,
  ◌⊎◌, Bool-cases,
}
use remy.Logger.{
  Weak, expired, send_to_observers, live, left_behind, remove_if, cleanup_observers, log,
}

module _ (alive : ℕ → Bool) where
  length-live : (os : List Weak) → length (live alive os) ≤ length os
  unfolding live
  length-live [] = omega arith
  length-live (o ∷ os) = ground (arith, length-live os)

  send_lem : (os : List Weak) → (send_to_observers alive os).0 ≡ live alive os
  unfolding send_to_observers live
  send_lem [] = refl
  send_lem (o ∷ os) = elim (Bool-cases (expired alive o)) [
    | inl gone ↦ rw gone (send_lem os)
    | inr there ↦ rw there (ap (λ (l : List Weak). o ∷ l) (send_lem os))
  ]

  -- A cleanup is asked for just when an observer is gone.
  send_cleanup :
      (os : List Weak)
      → ((send_to_observers alive os).1 ≡ true) × (length (live alive os) < length os)
        ⊎ ((send_to_observers alive os).1 ≡ false) × (live alive os ≡ os)
  unfolding send_to_observers live
  send_cleanup [] = inr (refl, refl)
  send_cleanup (o ∷ os) = elim (Bool-cases (expired alive o)) [
    | inl gone ↦ rw gone (inl (refl, omega (arith, length-live os)))
    | inr there ↦ rw there (elim (send_cleanup os) [
      | inl (asked, fewer) ↦ inl (asked, omega (arith, fewer))
      | inr (quiet, same) ↦ inr (quiet, ap (λ (l : List Weak). o ∷ l) same)
    ])
  ]

  expired-left_behind : (o : Weak) → expired alive (left_behind alive o) ≡ true
  expired-left_behind o = elim (Bool-cases (expired alive o)) [
    | inl gone ↦ rw gone gone
    | inr there ↦ rw there refl
  ]

  live-left_behind : (os : List Weak) → live alive (map (left_behind alive) os) ≡ []
  unfolding live
  live-left_behind [] = refl
  live-left_behind (o ∷ os) = rw (expired-left_behind o) (live-left_behind os)

  live-append : (os ps : List Weak) → live alive (os ++ ps) ≡ live alive os ++ live alive ps
  unfolding live
  live-append [] ps = refl
  live-append (o ∷ os) ps = elim (Bool-cases (expired alive o)) [
    | inl gone ↦ rw gone (live-append os ps)
    | inr there ↦ rw there (ap (λ (l : List Weak). o ∷ l) (live-append os ps))
  ]

  live-live : (os : List Weak) → live alive (live alive os) ≡ live alive os
  unfolding live
  live-live [] = refl
  live-live (o ∷ os) = elim (Bool-cases (expired alive o)) [
    | inl gone ↦ rw gone (live-live os)
    | inr there ↦ rw (there, there) (ap (λ (l : List Weak). o ∷ l) (live-live os))
  ]

  length-map_left : (os : List Weak) → length (map (left_behind alive) os) ≡ length os
  length-map_left [] = refl
  length-map_left (o ∷ os) = ap suc (length-map_left os)

  cleanup_lem :
      (os rest : List Weak)
      → length (live alive os) < length os
      → drop (length (live alive os)) os ≡ rest
      → (ps : List Weak) × (cleanup_observers alive os ≡ some ps)
        × (live alive ps ≡ live alive os)
        × (suc (length ps) ≡ length os)
  unfolding cleanup_observers remove_if
  cleanup_lem os [] fewer e =
      absurd (omega (arith, fewer, ap length e, length-drop (length (live alive os)) os))
  cleanup_lem os (o ∷ rest) fewer e =
      let others = map (left_behind alive) rest in
      (
        live alive os ++ others,
        rw (e, cleanup_observers) refl,
        live-append (live alive os) others
            ∙ rw (live-live os, live-left_behind rest) (append-nil (live alive os)),
        omega (
          arith,
          length-append (live alive os) others,
          length-map_left rest,
          length-drop (length (live alive os)) os,
          ap length e,
          fewer,
        ),
      )

  -- A line is passed to each observer that is there, once and in order, and they all stay. If any is
  -- gone, one place of the list is removed, however many are gone; else the list stays as it is.
  pub log_lem :
      (os : List Weak)
      → ((log alive os).0 ≡ live alive os)
        × ((ps : List Weak) × ((log alive os).1 ≡ some ps)
            × (live alive ps ≡ live alive os)
            × (length ps
                ≡ (if length (live alive os) == length os then length os else length os - 1)))
  unfolding log
  log_lem os = (
    send_lem os,
    elim (send_cleanup os) [
      | inl (asked, fewer) ↦
          let (ps, run, same, one) = cleanup_lem os (drop (length (live alive os)) os) fewer refl in
          (ps, rw asked run, same, ground (arith, fewer, one))
      | inr (quiet, same) ↦ (os, rw quiet refl, refl, ground (arith, ap length same))
    ],
  )
