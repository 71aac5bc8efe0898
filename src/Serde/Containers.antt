-- ===== src/Serde/Containers.antt =====
-- serde.hpp: strings, pairs, vectors and optionals. The templates take the `send` and `recv` of the
-- parts as arguments, as C++ finds them by the type.
use remy.Base.{
  ℕ, zero, suc, ◌^◌, ◌<◌, ◌≡◌, refl, List, [], ◌∷◌, ◌++◌, append_assoc, Option, none, some, arith,
  ◌==◌, if◌then◌else◌, length, All,
}
use remy.Serde.Bytes.{
  Bytes, Recv, RoundTrips, ◌>>=◌, pure, async_read, send_pod, recv_pod, pod-RoundTrips,
  async_read_append, read_then, recv_then,
}

unfoldable pub send_string : List ℕ → Bytes
send_string s = send_pod 8 (length s) ++ s

unfoldable pub recv_string : Recv (List ℕ)
recv_string = do size ← recv_pod 8; async_read size

module _ {ℓ κ} {A : Type ℓ} {B : Type κ} where
  unfoldable pub send_pair : (A → Bytes) → (B → Bytes) → A × B → Bytes
  send_pair send_first send_second (a, b) = send_first a ++ send_second b

  unfoldable pub recv_pair : Recv A → Recv B → Recv (A × B)
  recv_pair recv_first recv_second = do
    first ← recv_first
    second ← recv_second
    pure (first, second)

module _ {ℓ} {A : Type ℓ} where
  unfoldable pub send_items : (A → Bytes) → List A → Bytes
  send_items send [] = []
  send_items send (x ∷ xs) = send x ++ send_items send xs

  unfoldable pub send_vector : (A → Bytes) → List A → Bytes
  send_vector send xs = send_pod 8 (length xs) ++ send_items send xs

  -- The loop, on the number of items that are still to come.
  unfoldable pub recv_items : Recv A → ℕ → Recv (List A)
  recv_items recv zero = pure []
  recv_items recv (suc n) =
      let others = recv_items recv n in do x ← recv; xs ← others; pure (x ∷ xs)

  unfoldable pub recv_vector : Recv A → Recv (List A)
  recv_vector recv = do size ← recv_pod 8; recv_items recv size

  unfoldable pub send_optional : (A → Bytes) → Option A → Bytes
  send_optional send none = send_pod 1 0
  send_optional send (some a) = send_pod 1 1 ++ send a

  -- Any byte but 0 announces a value.
  unfoldable pub recv_optional : Recv A → Recv (Option A)
  recv_optional recv = do
    has_value ← recv_pod 1
    if has_value == 0 then pure none else (do a ← recv; pure (some a))

-- The size of a string or a vector travels as a `uint64_t`.
abbrev pub FitsText : List ℕ → Type 0
FitsText s = length s < 2 ^ 64

abbrev pub FitsVector {ℓ} : {A : Type ℓ} → (A → Type 0) → List A → Type 0
FitsVector Fits xs = (length xs < 2 ^ 64) × All Fits xs

abbrev pub FitsOptional {ℓ} : {A : Type ℓ} → (A → Type 0) → Option A → Type 0
FitsOptional Fits none = Unit
FitsOptional Fits (some a) = Fits a

abbrev pub FitsPair {ℓ κ} : {A : Type ℓ} {B : Type κ} → (A → Type 0) → (B → Type 0) → A × B → Type 0
FitsPair F G (a, b) = F a × G b

pub string-RoundTrips : RoundTrips send_string recv_string FitsText
unfolding send_string recv_string
string-RoundTrips = record {
  at = λ s rest h.
      rw append_assoc
        (recv_then (pod-RoundTrips 8) _ (length s) (s ++ rest) h (async_read_append s rest));
}

module _ {ℓ κ} {A : Type ℓ} {B : Type κ} where
  pub pair-RoundTrips :
      {send_first : A → Bytes} {recv_first : Recv A} {F : A → Type 0} {send_second : B → Bytes}
      {recv_second : Recv B} {G : B → Type 0}
      → RoundTrips send_first recv_first F
      → RoundTrips send_second recv_second G
      → RoundTrips
          (send_pair send_first send_second)
          (recv_pair recv_first recv_second)
          (FitsPair F G)
  unfolding send_pair recv_pair
  pair-RoundTrips first second = record {
    at = λ (a, b) rest h.
        rw append_assoc (recv_then first _ a _ h.0 (recv_then second _ b rest h.1 refl));
  }

module _ {ℓ} {A : Type ℓ} {send : A → Bytes} {recv : Recv A} {Fits : A → Type 0}
    (item : RoundTrips send recv Fits) where
  items-RoundTrips :
      (xs : List A) (rest : Bytes)
      → All Fits xs
      → recv_items recv (length xs) (send_items send xs ++ rest) ≡ some (xs, rest)
  unfolding recv_items send_items
  items-RoundTrips [] rest h = refl
  items-RoundTrips (x ∷ xs) rest h = rw append_assoc (
      recv_then item _ x _ h.0
        (read_then (recv_items recv (length xs)) _ (items-RoundTrips xs rest h.1) refl))

  pub vector-RoundTrips : RoundTrips (send_vector send) (recv_vector recv) (FitsVector Fits)
  unfolding send_vector recv_vector
  vector-RoundTrips = record {
    at = λ xs rest h.
        rw append_assoc
          (recv_then (pod-RoundTrips 8) _ (length xs) _ h.0 (items-RoundTrips xs rest h.1));
  }

  optional_at :
      (o : Option A) (rest : Bytes)
      → FitsOptional Fits o
      → recv_optional recv (send_optional send o ++ rest) ≡ some (o, rest)
  unfolding send_optional recv_optional
  optional_at none rest h = recv_then (pod-RoundTrips 1) _ 0 rest (omega arith) refl
  optional_at (some a) rest h =
      rw append_assoc
        (recv_then (pod-RoundTrips 1) _ 1 _ (omega arith) (recv_then item _ a rest h refl))

  pub optional-RoundTrips : RoundTrips (send_optional send) (recv_optional recv) (FitsOptional Fits)
  optional-RoundTrips = record { at = optional_at }
