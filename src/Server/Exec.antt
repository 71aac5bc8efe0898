-- ===== src/Server/Exec.antt =====
-- A coroutine of the server, up to where it ends, throws, or waits: an action on the server's state.
use remy.Base.{◌≡◌}

-- `waits`: an `async_send` found its channel full, so the coroutine is suspended there. What it did
-- before stays done. `crashed`: the behaviour is undefined from there on.
pub data Outcome {ℓ} (A : Type ℓ) : Type ℓ where
  ok : A → Outcome A
  threw : Outcome A
  waits : Outcome A
  crashed : Outcome A

abbrev pub Exec {ℓ κ} : Type ℓ → Type κ → Type (ℓ ⊔ κ)
Exec S A = S → Outcome A × S

module _ {ℓ κ} {S : Type ℓ} {A : Type κ} where
  abbrev pub pure : A → Exec S A
  pure a s = (ok a, s)

  abbrev pub throw : Exec S A
  throw s = (threw, s)

  abbrev pub resume {μ} : {B : Type μ} → (A → Exec S B) → Outcome A × S → Outcome B × S
  resume f (ok a, s) = f a s
  resume f (threw, s) = (threw, s)
  resume f (waits, s) = (waits, s)
  resume f (crashed, s) = (crashed, s)

  -- try { m } catch (const std::exception&) { handler }
  abbrev pub catch_with : Exec S A → Outcome A × S → Outcome A × S
  catch_with handler (ok a, s) = (ok a, s)
  catch_with handler (threw, s) = handler s
  catch_with handler (waits, s) = (waits, s)
  catch_with handler (crashed, s) = (crashed, s)

  abbrev pub try : Exec S A → Exec S A → Exec S A
  try m handler s = catch_with handler (m s)

infixl 5 ◌>>=◌ ◌>>◌
abbrev pub ◌>>=◌ {ℓ κ μ} :
    {S : Type ℓ} {A : Type κ} {B : Type μ} → Exec S A → (A → Exec S B) → Exec S B
◌>>=◌ m f s = resume f (m s)

abbrev pub ◌>>◌ {ℓ κ μ} : {S : Type ℓ} {A : Type κ} {B : Type μ} → Exec S A → Exec S B → Exec S B
◌>>◌ m n s = resume (λ a. n) (m s)

module _ {ℓ κ μ} {S : Type ℓ} {A : Type κ} {B : Type μ} where
  -- A part of a `do` block whose first step ends.
  pub bind_ok :
      (m : Exec S A) (k : A → Exec S B) {s t : S} {a : A} → m s ≡ (ok a, t) → (m >>= k) s ≡ k a t
  bind_ok m k e = rw (e, ◌>>=◌)

  pub then_ok : (m : Exec S A) (n : Exec S B) {s t : S} {a : A} → m s ≡ (ok a, t) → (m >> n) s ≡ n t
  then_ok m n e = rw (e, ◌>>◌)
