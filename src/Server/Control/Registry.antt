-- ===== src/Server/Control/Registry.antt =====
-- The map of clients over the heap of their objects: what it means for the two to fit together, and
-- the changes that keep it so.
use remy.Base.{
  ℕ, ◌^◌, ◌<◌, ◌≡◌, ◌≢◌, refl, false, List, [], ◌∷◌, ◌++◌, some, arith, length, get_elem?, modify,
  ◌==◌, get_elem?-modify_self, get_elem?-modify_ne, get_elem?-append_left, get_elem?-append_end,
  get_elem?-lt, Bool-cases, inl, inr, ==_iff, ◌∙◌, sym,
}
use remy.Base.Map.{Map, put, erase, contains, contains-erase, contains-put}
use remy.Server.State.{ClientCtrl}

-- An entry of the map: its object is there, and knows its id.
abbrev pub Entry : List ClientCtrl → ℕ → ℕ → Type 0
Entry heap id addr = (c : ClientCtrl) × (get_elem? heap addr ≡ some c) × (c.id ≡ id) × (id < 2 ^ 64)

abbrev pub Apart : ℕ → Map ℕ → Type 0
Apart addr [] = Unit
Apart addr ((id, other) ∷ m) = (other ≢ addr) × Apart addr m

-- No id is there twice, and no two ids share an object.
abbrev pub Registered : List ClientCtrl → Map ℕ → Type 0
Registered heap [] = Unit
Registered heap ((id, addr) ∷ m) =
    Entry heap id addr × (contains id m ≡ false) × Apart addr m × Registered heap m

-- Objects stay where they are and keep their ids.
pub record SameIds (heap later : List ClientCtrl) : Type 0 where
  pub at :
      (addr : ℕ) (c : ClientCtrl)
      → get_elem? heap addr ≡ some c
      → (d : ClientCtrl) × (get_elem? later addr ≡ some d) × (d.id ≡ c.id)

pub SameIds-refl : (heap : List ClientCtrl) → SameIds heap heap
SameIds-refl heap = record { at = λ addr c h. (c, h, refl) }

pub SameIds-modify :
    (heap : List ClientCtrl) (addr : ℕ) (f : ClientCtrl → ClientCtrl)
    → ((c : ClientCtrl) → (f c).id ≡ c.id)
    → SameIds heap (modify heap addr f)
SameIds-modify heap addr f keep = record { at = at }
  where
    at :
        (j : ℕ) (c : ClientCtrl)
        → get_elem? heap j ≡ some c
        → (d : ClientCtrl) × (get_elem? (modify heap addr f) j ≡ some d) × (d.id ≡ c.id)
    at j c h = elim (Bool-cases (addr == j)) [
      | inl same ↦
          let e : addr ≡ j = (==_iff addr j).0 same in
          (f c, rw e (get_elem?-modify_self heap j f h), keep c)
      | inr other ↦ (c, get_elem?-modify_ne heap addr j f (λ e. ground (arith, other)) ∙ h, refl)
    ]

pub SameIds-append : (heap more : List ClientCtrl) → SameIds heap (heap ++ more)
SameIds-append heap more = record { at = λ j c h. (c, get_elem?-append_left heap more j h, refl) }

pub Registered-later :
    {heap later : List ClientCtrl} (m : Map ℕ)
    → SameIds heap later
    → Registered heap m
    → Registered later m
Registered-later [] same r = tt
Registered-later ((id, addr) ∷ m) same ((c, there, is, fits), fresh, apart, rest) =
    let (d, still, keeps) = same.at addr c there in
    ((d, still, keeps ∙ is, fits), fresh, apart, Registered-later m same rest)

-- A new object's address is in no entry.
Apart-new : (heap : List ClientCtrl) (m : Map ℕ) → Registered heap m → Apart (length heap) m
Apart-new heap [] r = tt
Apart-new heap ((id, addr) ∷ m) ((c, there, is, fits), fresh, apart, rest) =
    ((λ e. omega (arith, get_elem?-lt heap addr {x = c} there)), Apart-new heap m rest)

Apart-put :
    (addr id other : ℕ) (m : Map ℕ)
    → contains id m ≡ false
    → other ≢ addr
    → Apart addr m
    → Apart addr (put id other m)
unfolding put contains
Apart-put addr id other [] new ne h = (ne, tt)
Apart-put addr id other ((j, a) ∷ m) new ne (h, hs) = ground (arith, Apart-put addr id other m)

pub Registered-put :
    (heap : List ClientCtrl) (id addr : ℕ) (m : Map ℕ)
    → contains id m ≡ false
    → Entry heap id addr
    → Apart addr m
    → Registered heap m
    → Registered heap (put id addr m)
unfolding put contains
Registered-put heap id addr [] new e apart r = (e, refl, tt, tt)
Registered-put heap id addr ((j, a) ∷ m) new e (ne, aparts) (f, fresh, apart, rest) =
    elim (Bool-cases (j == id)) [
      | inl same ↦ absurd (ground arith)
      | inr other ↦ rw other (
        f,
        ground (arith, contains-put id j addr m),
        Apart-put a id addr m (ground arith) (λ q. ne (sym q)) apart,
        Registered-put heap id addr m (ground arith) e aparts rest,
      )
    ]

Apart-erase : (addr id : ℕ) (m : Map ℕ) → Apart addr m → Apart addr (erase id m)
unfolding erase
Apart-erase addr id [] h = tt
Apart-erase addr id ((j, a) ∷ m) (h, hs) = ground (arith, Apart-erase addr id m hs)

pub Registered-erase :
    (heap : List ClientCtrl) (id : ℕ) (m : Map ℕ) → Registered heap m → Registered heap (erase id m)
unfolding erase
Registered-erase heap id [] r = tt
Registered-erase heap id ((j, a) ∷ m) (f, fresh, apart, rest) = elim (Bool-cases (j == id)) [
  | inl same ↦ rw same (Registered-erase heap id m rest)
  | inr other ↦ rw other (
    f,
    ground (arith, contains-erase id j m),
    Apart-erase a id m apart,
    Registered-erase heap id m rest,
  )
]

-- A new client under a free id.
pub Registered-new :
    (heap : List ClientCtrl) (c : ClientCtrl) (m : Map ℕ)
    → c.id < 2 ^ 64
    → contains c.id m ≡ false
    → Registered heap m
    → Registered (heap ++ c ∷ []) (put c.id (length heap) m)
Registered-new heap c m fits new r =
    Registered-put (heap ++ c ∷ []) c.id (length heap) m new
      (c, get_elem?-append_end heap c, refl, fits) (Apart-new heap m r)
      (Registered-later m (SameIds-append heap (c ∷ [])) r)
