-- ===== src/Server/Keeps.antt =====
-- Invariants of the server's coroutines: what holds before a part of one holds where it ends, throws
-- or waits. A rule for each way to build one; `search` applies them.
use remy.Server.Exec.{
  Exec, Outcome, ok, threw, waits, crashed, pure, try, catch_with, resume, ◌>>=◌, ◌>>◌,
}

pub record Keeps {ℓ κ} {S : Type ℓ} {A : Type κ} (P : S → Type ℓ) (m : Exec S A)
    : Type (ℓ ⊔ κ) where
  pub at : (s : S) → P s → P (m s).1

module _ {ℓ κ} {S : Type ℓ} {A : Type κ} {P : S → Type ℓ} where
  pub Keeps-pure : (a : A) → Keeps P (pure a)
  Keeps-pure a = record { at = λ s h. h }

  pub Keeps-try : (m n : Exec S A) → Keeps P m → Keeps P n → Keeps P (try m n)
  Keeps-try m n km kn = record { at = λ s h. caught (m s) (km.at s h) }
    where
      caught : (r : Outcome A × S) → P r.1 → P (catch_with n r).1
      caught (ok a, s) h = h
      caught (threw, s) h = kn.at s h
      caught (waits, s) h = h
      caught (crashed, s) h = h

module _ {ℓ κ μ} {S : Type ℓ} {A : Type κ} {B : Type μ} {P : S → Type ℓ} where
  resumed :
      (f : A → Exec S B)
      → ((a : A) → Keeps P (f a))
      → (r : Outcome A × S) → P r.1
      → P (resume f r).1
  resumed f kf (ok a, s) h = (kf a).at s h
  resumed f kf (threw, s) h = h
  resumed f kf (waits, s) h = h
  resumed f kf (crashed, s) h = h

  pub Keeps-bind :
      (m : Exec S A) (f : A → Exec S B) → Keeps P m → ((a : A) → Keeps P (f a)) → Keeps P (m >>= f)
  Keeps-bind m f km kf = record { at = λ s h. resumed f kf (m s) (km.at s h) }

  pub Keeps-then : (m : Exec S A) (n : Exec S B) → Keeps P m → Keeps P n → Keeps P (m >> n)
  Keeps-then m n km kn = record { at = λ s h. resumed (λ a. n) (λ a. kn) (m s) (km.at s h) }
