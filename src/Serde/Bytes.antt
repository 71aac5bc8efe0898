-- ===== src/Serde/Bytes.antt =====
-- Plain data: `sizeof(Type)` bytes, least significant first, as the `static_assert` on the byte order
-- says; and the reads of a socket.
use native.Mathlib.Nat.{pow-suc, pow-zero}
use remy.Base.{
  ℕ, zero, suc, ◌+◌, ◌*◌, ◌/◌, ◌%◌, ◌^◌, ◌<◌, ◌≡◌, refl, ap, subst, List, [], ◌∷◌, ◌++◌, Option,
  none, some, arith, leb, le→leb, if◌then◌else◌, length, take, drop, length-append, take-length,
  drop-length,
}

abbrev pub Bytes : Type 0
Bytes = List ℕ

abbrev pub Recv {ℓ} : Type ℓ → Type ℓ
Recv A = Bytes → Option (A × Bytes)

infixl 5 ◌>>=◌
abbrev pub ◌>>=◌ {ℓ κ} : {A : Type ℓ} {B : Type κ} → Recv A → (A → Recv B) → Recv B
◌>>=◌ m f bs = elim (m bs) [ none ↦ none | some (a, rest) ↦ f a rest ]

abbrev pub pure {ℓ} : {A : Type ℓ} → A → Recv A
pure a bs = some (a, bs)

-- What is sent is received, whatever follows on the socket.
pub record RoundTrips {ℓ} {A : Type ℓ} (send : A → Bytes) (recv : Recv A) (Fits : A → Type 0)
    : Type ℓ where
  pub at : (a : A) (rest : Bytes) → Fits a → recv (send a ++ rest) ≡ some (a, rest)

unfoldable pub bytes_le : ℕ → ℕ → Bytes
bytes_le zero n = []
bytes_le (suc w) n = (n % 256) ∷ bytes_le w (n / 256)

unfoldable pub from_le : Bytes → ℕ
from_le [] = 0
from_le (b ∷ bs) = b + 256 * from_le bs

-- A read of exactly `n` bytes.
unfoldable pub async_read : ℕ → Recv Bytes
async_read n bs = if leb n (length bs) then some (take n bs, drop n bs) else none

unfoldable pub send_pod : ℕ → ℕ → Bytes
send_pod w n = bytes_le w n

unfoldable pub recv_pod : ℕ → Recv ℕ
recv_pod w = do bs ← async_read w; pure (from_le bs)

length-bytes_le : (w n : ℕ) → length (bytes_le w n) ≡ w
unfolding bytes_le
length-bytes_le zero n = refl
length-bytes_le (suc w) n = ap suc (length-bytes_le w (n / 256))

from_le-bytes_le : (w n : ℕ) → n < 256 ^ w → from_le (bytes_le w n) ≡ n
unfolding bytes_le from_le
from_le-bytes_le zero n h = omega (arith, pow-zero 256)
from_le-bytes_le (suc w) n h =
    let small : n / 256 < 256 ^ w = omega (arith, pow-suc 256 w) in
    omega (arith, from_le-bytes_le w (n / 256) small)

-- A read takes its bytes off the front.
pub async_read_append : (bs rest : Bytes) → async_read (length bs) (bs ++ rest) ≡ some (bs, rest)
unfolding async_read
async_read_append bs rest =
    rw (le→leb (length bs) (length (bs ++ rest)) (omega (arith, length-append bs rest)))
      (rw (take-length bs rest, drop-length bs rest))

-- A step of a `do` block whose read is known.
pub read_then {ℓ κ} :
    {A : Type ℓ} {B : Type κ} (m : Recv A) (f : A → Recv B) {bs rest : Bytes} {a : A}
    {r : Option (B × Bytes)}
    → m bs ≡ some (a, rest)
    → f a rest ≡ r
    → ◌>>=◌ m f bs ≡ r
read_then m f e h = rw (e, ◌>>=◌) h

-- A step whose bytes have just been sent.
pub recv_then {ℓ κ} :
    {A : Type ℓ} {B : Type κ} {send : A → Bytes} {recv : Recv A} {Fits : A → Type 0}
    → RoundTrips send recv Fits
    → (f : A → Recv B) (a : A) (rest : Bytes) {r : Option (B × Bytes)} → Fits a
    → f a rest ≡ r
    → ◌>>=◌ recv f (send a ++ rest) ≡ r
recv_then {recv = recv} item f a rest fits h = read_then recv f (item.at a rest fits) h

pub roundtrip_pod :
    (w n : ℕ) (rest : Bytes) → n < 256 ^ w → recv_pod w (send_pod w n ++ rest) ≡ some (n, rest)
unfolding recv_pod send_pod
roundtrip_pod w n rest h =
    read_then (async_read w) _ read_w (ap (λ v. some (v, rest)) (from_le-bytes_le w n h))
  where
    read_w : async_read w (bytes_le w n ++ rest) ≡ some (bytes_le w n, rest)
    read_w =
        subst (λ k. async_read k (bytes_le w n ++ rest) ≡ some (bytes_le w n, rest))
          (length-bytes_le w n) (async_read_append (bytes_le w n) rest)

pub pod-RoundTrips : (w : ℕ) → RoundTrips (send_pod w) (recv_pod w) (λ n. n < 256 ^ w)
pod-RoundTrips w = record { at = roundtrip_pod w }

-- A closed connection gives no byte.
pub recv_byte-nil : recv_pod 1 [] ≡ none
unfolding recv_pod async_read
recv_byte-nil = refl
