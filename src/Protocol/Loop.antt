-- ===== src/Protocol/Loop.antt =====
-- The loops of `incoming_messages` (src/server.cpp), `incoming_control_msg` and the two
-- `incoming_msg` (src/client.cpp): read a byte, switch on it, read the payload, act. The four share
-- this shape and differ in the payloads, which are an interface here.
use remy.Base.{
  ℕ, zero, suc, ◌<◌, ◌≡◌, ◌≢◌, refl, List, [], ◌∷◌, ◌++◌, append_assoc, map, Option, none, some,
  arith, length, All, inl, inr, Option-cases,
}
use remy.Serde.Bytes.{Bytes, Recv, send_pod, recv_pod, pod-RoundTrips, recv_byte-nil}
use remy.Serde.Shrinks.{Shrinks, recv_byte_shrinks}

-- How a loop ended: no byte of a kind came, a payload was cut short and `recv` threw, or the fuel
-- of the model ran out.
pub data End : Type 0 where
  closed threw out_of_fuel : End

-- `recv_body` is the switch: `none` for a byte that no case names, after which the loop goes on.
pub record Protocol (M : Type 0) : Type 1 where
  pub kind : M → ℕ
  pub body : M → Bytes
  pub recv_body : ℕ → Recv (Option M)
  pub Fits : M → Type 0
  pub kind_fits : (m : M) → kind m < 256
  pub body_roundtrip :
      (m : M) (rest : Bytes) → Fits m → recv_body (kind m) (body m ++ rest) ≡ some (some m, rest)
  pub recv_body-Shrinks : (k : ℕ) → Shrinks (recv_body k)

module _ {M : Type 0} (p : Protocol M) where
  open p use {kind, body, recv_body, Fits, kind_fits, body_roundtrip, recv_body-Shrinks}

  unfoldable pub send_message : M → Bytes
  send_message m = send_pod 1 (kind m) ++ body m

  unfoldable pub send_messages : List M → Bytes
  unfolding send_message
  send_messages [] = []
  send_messages (m ∷ ms) = send_message m ++ send_messages ms

  unfoldable pub read_loop : ℕ → Bytes → List (Option M) × End
  read_loop zero bs = ([], out_of_fuel)
  read_loop (suc fuel) bs = elim (recv_pod 1 bs) [
    | none ↦ ([], closed)
    | some (k, payload) ↦ elim (recv_body k payload) [
      | none ↦ ([], threw)
      | some (m, rest) ↦ let later = read_loop fuel rest in (m ∷ later.0, later.1)
    ]
  ]

  -- One turn of the loop reads the message that was sent.
  read_message :
      (fuel : ℕ) (m : M) (rest : Bytes)
      → Fits m
      → read_loop (suc fuel) (send_message m ++ rest)
        ≡ (some m ∷ (read_loop fuel rest).0, (read_loop fuel rest).1)
  unfolding read_loop send_message
  read_message fuel m rest h = rw append_assoc (
      rw ((pod-RoundTrips 1).at (kind m) (body m ++ rest) (kind_fits m), read_loop)
        (rw (body_roundtrip m rest h, read_loop) refl))

  -- Whatever messages one side sends, if their fields fit their types, the loop of the other side
  -- reads these and no others, in order, and ends when the connection is closed; fuel for one turn
  -- more than there are messages is enough.
  pub read_loop-send_messages :
      (fuel : ℕ) (ms : List M)
      → All Fits ms
      → length ms < fuel
      → read_loop fuel (send_messages ms) ≡ (map some ms, closed)
  unfolding read_loop send_messages
  read_loop-send_messages zero ms h l = absurd (omega arith)
  read_loop-send_messages (suc fuel) [] h l = rw (recv_byte-nil, read_loop)
  read_loop-send_messages (suc fuel) (m ∷ ms) h l =
      rw (read_message fuel m (send_messages ms) h.0)
        (rw (read_loop-send_messages fuel ms h.1 (omega arith)) refl)

  -- The loop ends by itself on any input, since each turn takes a byte: fuel for more turns than
  -- there are bytes does not run out.
  pub read_loop_ends :
      (fuel : ℕ) (bs : Bytes) → length bs < fuel → (read_loop fuel bs).1 ≢ out_of_fuel
  unfolding read_loop
  read_loop_ends zero bs l e = absurd (omega arith)
  read_loop_ends (suc fuel) bs l e = elim (Option-cases (recv_pod 1 bs)) [
    | inl none_left ↦ ground (arith, none_left)
    | inr ((k, payload), read) ↦ elim (Option-cases (recv_body k payload)) [
      | inl cut ↦ ground (arith, read, cut)
      | inr ((m, rest), whole) ↦
          read_loop_ends fuel rest
            (omega (
              arith,
              recv_byte_shrinks bs payload k read,
              (recv_body-Shrinks k).at payload rest m whole,
            ))
            (ground (arith, read, whole))
    ]
  ]
