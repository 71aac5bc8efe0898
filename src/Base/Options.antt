-- ===== src/Base/Options.antt =====
-- `do` blocks of options.
use mathlib.Core.Path.{◌≡◌}
use mathlib.Core.Option.{Option, none, some}

infixl 5 ◌>>=◌
abbrev pub ◌>>=◌ {ℓ κ} : {A : Type ℓ} {B : Type κ} → Option A → (A → Option B) → Option B
none >>= f = none
some a >>= f = f a

pub bind_some {ℓ κ} :
    {A : Type ℓ} {B : Type κ} (o : Option A) (f : A → Option B) {a : A} {b : Option B}
    → o ≡ some a
    → f a ≡ b
    → (o >>= f) ≡ b
bind_some o f e h = rw (e, ◌>>=◌) h
