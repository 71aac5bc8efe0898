-- ===== src/Server/Ids.antt =====
-- The choice of a client's id in `Server::process_control_conn` (src/server.cpp).
use remy.Base.{
  ℕ, zero, suc, ◌+◌, ◌-◌, ◌^◌, ◌≤◌, ◌<◌, ◌≡◌, ◌≢◌, refl, false, Option, none, some, arith, ◌==◌,
  if◌then◌else◌, length, Bool-cases, inl, inr, ltb, Option-cases, ◌∙◌,
}
use remy.Base.Map.{Map, contains, erase, contains-erase, length-erase-lt}

-- std::numeric_limits<ClientId>::max()
abbrev pub max_id : ℕ
max_id = 2 ^ 64 - 1

-- The overflowing increment.
unfoldable pub next_id : ℕ → ℕ
next_id id = if id == max_id then 0 else id + 1

module _ {ℓ} {V : Type ℓ} where
  -- while (m_clients.contains(id)) id = next(id), on fuel; `none` means that the fuel ran out.
  unfoldable pub find_free : ℕ → Map V → ℕ → Option ℕ
  find_free zero clients id = none
  find_free (suc fuel) clients id =
      let other = find_free fuel clients (next_id id) in
      if contains id clients then other else some id

  -- One turn more than there are clients is enough, as `allocate_id_total` shows.
  unfoldable pub allocate_id : Map V → ℕ → Option ℕ
  unfolding find_free
  allocate_id clients id = find_free (suc (length clients)) clients id

-- How many turns after `id` the search comes to `k`.
distance : ℕ → ℕ → ℕ
distance id k = if ltb k id then k + 2 ^ 64 - id else k - id

next_id-lt : (id : ℕ) → id < 2 ^ 64 → next_id id < 2 ^ 64
unfolding next_id
next_id-lt id h = ground arith

distance_step :
    (id k : ℕ)
    → id < 2 ^ 64
    → k < 2 ^ 64
    → 0 < distance id k
    → (id ≢ k) × (suc (distance (next_id id) k) ≡ distance id k)
unfolding next_id distance
distance_step id k hi hk h = ground arith

distance_around : (id : ℕ) → id < 2 ^ 64 → suc (distance (next_id id) id) ≡ 2 ^ 64
unfolding next_id distance
distance_around id h = ground arith

module _ {ℓ} {V : Type ℓ} where
  -- The search does not look at an id that it has not come to.
  find_free-erase :
      (fuel : ℕ) (m : Map V) (id k : ℕ)
      → id < 2 ^ 64
      → k < 2 ^ 64
      → fuel ≤ distance id k
      → find_free fuel (erase k m) id ≡ find_free fuel m id
  unfolding find_free
  find_free-erase zero m id k hi hk h = refl
  find_free-erase (suc fuel) m id k hi hk h =
      let (apart, nearer) = distance_step id k hi hk (omega arith) in
      let later = find_free-erase fuel m (next_id id) k (next_id-lt id hi) hk (omega arith) in
      ground (arith, later, apart, contains-erase k id m)

  -- A search that fails has found a client at every turn, and these are all different.
  find_free_fails :
      (fuel : ℕ) (m : Map V) (id : ℕ)
      → id < 2 ^ 64
      → fuel ≤ 2 ^ 64
      → find_free fuel m id ≡ none
      → fuel ≤ length m
  unfolding find_free
  find_free_fails zero m id hi hf h = omega arith
  find_free_fails (suc fuel) m id hi hf h = elim (Bool-cases (contains id m)) [
    | inl taken ↦ omega (
      arith,
      length-erase-lt id m taken,
      find_free_fails fuel (erase id m) (next_id id) (next_id-lt id hi) (omega arith) (
          find_free-erase fuel m (next_id id) id (next_id-lt id hi) hi
            (omega (arith, distance_around id hi))
          ∙ ground (arith, taken)),
    )
    | inr free ↦ ground (arith, free)
  ]

  find_free_sound :
      (fuel : ℕ) (m : Map V) (id r : ℕ)
      → id < 2 ^ 64
      → find_free fuel m id ≡ some r
      → (contains r m ≡ false) × (r < 2 ^ 64)
  unfolding find_free
  find_free_sound zero m id r hi h = ground arith
  find_free_sound (suc fuel) m id r hi h = elim (Bool-cases (contains id m)) [
    | inl taken ↦ find_free_sound fuel m (next_id id) r (next_id-lt id hi) (ground (arith, taken))
    | inr free ↦ ground (arith, free)
  ]

  -- An id that the loop finds is new and has 64 bits.
  pub allocate_id_sound :
      (m : Map V) (id r : ℕ)
      → id < 2 ^ 64
      → allocate_id m id ≡ some r
      → (contains r m ≡ false) × (r < 2 ^ 64)
  unfolding allocate_id
  allocate_id_sound m id r = find_free_sound (suc (length m)) m id r

  -- While fewer than 2 ^ 64 clients are connected the loop ends, with an id of 64 bits that no client
  -- has.
  pub allocate_id_total :
      (m : Map V) (id : ℕ)
      → id < 2 ^ 64
      → length m < 2 ^ 64
      → (r : ℕ) × (allocate_id m id ≡ some r) × (contains r m ≡ false) × (r < 2 ^ 64)
  unfolding allocate_id
  allocate_id_total m id hi hm = elim (Option-cases (find_free (suc (length m)) m id)) [
    | inl failed ↦ absurd (omega (arith, find_free_fails (suc (length m)) m id hi hm failed))
    | inr (r, found) ↦
        let (free, fits) = find_free_sound (suc (length m)) m id r hi found in
        (r, found, free, fits)
  ]

  -- An id that is free is taken without a search.
  pub allocate_id_free : (m : Map V) (id : ℕ) → contains id m ≡ false → allocate_id m id ≡ some id
  unfolding allocate_id find_free
  allocate_id_free m id h = rw h
