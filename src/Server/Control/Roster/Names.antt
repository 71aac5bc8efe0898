-- ===== src/Server/Control/Roster/Names.antt =====
-- What the changes of the server's objects and of its map of clients (src/server.cpp) do to the
-- roster.
use mathlib.Core.Option
use remy.Base.{
  ℕ, zero, suc, subst, Bool, ◌≡◌, ◌≢◌, refl, sym, ap, ◌∙◌, true, false, List, [], ◌∷◌, ◌++◌, Option,
  none, some, arith, ◌==◌, ==_iff, if◌then◌else◌, length, get_elem?, modify, get_elem?-modify_self,
  get_elem?-modify_ne, get_elem?-append_left, get_elem?-append_end, Bool-cases, inl, inr,
}
use remy.Base.Map.{Map, get, get-put}
use remy.Wire.{Text}
use remy.Server.State.{ClientCtrl, Server}
use remy.Server.Control.Stable.{IsStable, card}
use remy.Server.Control.Registry.{Registered, Entry}
use remy.Server.Control.Sound.{IsSound}
use remy.Server.Control.Lifetime.{registered_state}
use remy.Server.Control.{new_client}
use remy.Server.Control.Roster.{Roster, joins, apply, name_at, roster}

map_name-modify :
    (heap : List ClientCtrl) (addr j : ℕ) (f : ClientCtrl → ClientCtrl)
    → ((c : ClientCtrl) → card (f c) ≡ card c)
    → Option.map card (get_elem? (modify heap addr f) j) ≡ Option.map card (get_elem? heap j)
map_name-modify [] addr j f keep = refl
map_name-modify (c ∷ heap) zero zero f keep = ap (λ (n : Text × Text). some n) (keep c)
map_name-modify (c ∷ heap) zero (suc j) f keep = refl
map_name-modify (c ∷ heap) (suc addr) zero f keep = refl
map_name-modify (c ∷ heap) (suc addr) (suc j) f keep = map_name-modify heap addr j f keep

name_at-modify :
    (heap : List ClientCtrl) (addr : ℕ) (f : ClientCtrl → ClientCtrl) (o : Option ℕ)
    → ((c : ClientCtrl) → card (f c) ≡ card c)
    → name_at (modify heap addr f) o ≡ name_at heap o
unfolding name_at
name_at-modify heap addr f none keep = refl
name_at-modify heap addr f (some j) keep = map_name-modify heap addr j f keep

-- The server has this roster.
pub record Shows (r : Roster) (s : Server) : Type 0 where
  pub at : (j : ℕ) → roster s j ≡ r j

module _ (r : Roster) where
  Shows-modify :
      (s : Server) (addr : ℕ) (f : ClientCtrl → ClientCtrl)
      → ((c : ClientCtrl) → card (f c) ≡ card c)
      → Shows r s
      → Shows r (record s { heap = modify s.heap addr f })
  unfolding roster
  Shows-modify s addr f keep h = record {
    at = λ j. name_at-modify s.heap addr f (get j s.clients) keep ∙ h.at j;
  }

  pub Shows-IsStable : IsStable (Shows r)
  unfolding roster
  Shows-IsStable = record {
    modified = λ s addr f ids names h. Shows-modify s addr f names h;
    spawned = λ s task h. record { at = h.at };
  }

-- A client of the map has an object, which knows its id.
pub Registered-Entry :
    (heap : List ClientCtrl) (m : Map ℕ) (j : ℕ) {a : ℕ}
    → Registered heap m
    → get j m ≡ some a
    → Entry heap j a
unfolding get
Registered-Entry heap [] j r e = cc
Registered-Entry heap ((id, addr) ∷ m) j {a} (f, fresh, apart, rest) e =
    elim (Bool-cases (id == j)) [
      | inl same ↦
          subst (λ k. Entry heap k a) (ground (arith, same))
            (subst (λ b. Entry heap id b) (ground (arith, e, same)) f)
      | inr other ↦ Registered-Entry heap m j {a = a} rest (ground (arith, e, other))
    ]

pub name_at-some :
    (heap : List ClientCtrl) (a : ℕ) {c : ClientCtrl}
    → get_elem? heap a ≡ some c
    → name_at heap (some a) ≡ some (card c)
unfolding name_at
name_at-some heap a e = ap (λ o. Option.map card o) e

name_at-append :
    (heap more : List ClientCtrl) (o : Option ℕ)
    → ((a : ℕ) → o ≡ some a → (c : ClientCtrl) × (get_elem? heap a ≡ some c))
    → name_at (heap ++ more) o ≡ name_at heap o
unfolding name_at
name_at-append heap more none known = refl
name_at-append heap more (some a) known =
    let (c, there) = known a refl in
    name_at-some (heap ++ more) a (get_elem?-append_left heap more a there)
    ∙ sym (name_at-some heap a there)

module _ (s : Server) (sound : IsSound s) where
  pub known :
      (j a : ℕ) → get j s.clients ≡ some a → (c : ClientCtrl) × (get_elem? s.heap a ≡ some c)
  known j a e =
      let (c, there, _is, _fits) = Registered-Entry s.heap s.clients j {a = a} sound.registered e in
      (c, there)

  registered_name :
      (endpoint : Text) (id j : ℕ) (same : Bool)
      → name_at
          (s.heap ++ new_client id endpoint ∷ [])
          (if same then some (length s.heap) else get j s.clients)
        ≡ (if same then some (endpoint, endpoint) else name_at s.heap (get j s.clients))
  registered_name endpoint id j true =
      name_at-some (s.heap ++ new_client id endpoint ∷ []) (length s.heap)
        (get_elem?-append_end s.heap (new_client id endpoint))
  registered_name endpoint id j false =
      name_at-append s.heap (new_client id endpoint ∷ []) (get j s.clients) (known j)

  pub registered-roster :
      (endpoint : Text) (id : ℕ)
      → Shows (apply (joins id endpoint) (roster s)) (registered_state s endpoint id)
  unfolding roster apply
  registered-roster endpoint id = record {
    at = λ j.
        ap (λ o. name_at (s.heap ++ new_client id endpoint ∷ []) o)
          (get-put id j (length s.heap) s.clients)
        ∙ registered_name endpoint id j (id == j);
  }

  -- Two ids with one object are one id.
  one_object : (i j a : ℕ) → get i s.clients ≡ some a → get j s.clients ≡ some a → i ≡ j
  one_object i j a e h =
      let (c, there, is_i, _fits) =
        Registered-Entry s.heap s.clients i {a = a} sound.registered e in
      let (d, there', is_j, _fits') =
        Registered-Entry s.heap s.clients j {a = a} sound.registered h in
      cc

  other_name :
      (addr a : ℕ) (name : Text)
      → addr ≢ a
      → name_at (modify s.heap addr (λ d. record d { name = name })) (some a)
        ≡ name_at s.heap (some a)
  unfolding name_at
  other_name addr a name ne =
      ap (λ (o : Option ClientCtrl). Option.map card o)
        (get_elem?-modify_ne s.heap addr a (λ d. record d { name = name }) ne)

  pub renamed_name :
      (id addr j : ℕ) (name : Text) (o : Option ℕ)
      → get id s.clients ≡ some addr
      → {c : ClientCtrl} → get_elem? s.heap addr ≡ some c
      → get j s.clients ≡ o
      → name_at (modify s.heap addr (λ d. record d { name = name })) o
        ≡ (if id == j then some (c.endpoint_str, name) else name_at s.heap o)
  unfolding name_at
  renamed_name id addr j name none at {c} there e = elim (Bool-cases (id == j)) [
    | inl same ↦ let p : id ≡ j = (==_iff id j).0 same in cc
    | inr other ↦ rw other refl
  ]
  renamed_name id addr j name (some a) at {c} there e = elim (Bool-cases (id == j)) [
    | inl same ↦
        let p : id ≡ j = (==_iff id j).0 same in
        let q : addr ≡ a = cc in
        rw (same, sym q)
          (name_at-some (modify s.heap addr (λ d. record d { name = name })) addr
            (get_elem?-modify_self s.heap addr (λ d. record d { name = name }) there))
    | inr other ↦ rw other (
        other_name addr a name
          (λ q. ground (arith, other, one_object id j a (at ∙ ap (λ (n : ℕ). some n) q) e)))
  ]

pub left_name :
    (s : Server) (j : ℕ) (same : Bool)
    → name_at s.heap (if same then none else get j s.clients)
      ≡ (if same then none else name_at s.heap (get j s.clients))
unfolding name_at
left_name s j true = refl
left_name s j false = refl
