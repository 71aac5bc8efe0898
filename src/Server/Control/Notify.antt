-- ===== src/Server/Control/Notify.antt =====
-- What `clients_list_notify_all` (src/server.cpp) does to the channels of the clients.
use mathlib.Core.Option.{some-injective}
use remy.Base.{
  ℕ, ◌<◌, ◌≡◌, sym, ap, ◌∙◌, Bool, true, false, List, [], ◌∷◌, some, arith, length, get_elem?,
  modify, lt→ltb, if◌then◌else◌, ◌==◌, Bool-cases, inl, inr, get_elem?-modify_ne, ◌⊎◌,
}
use remy.Base.Map.{Map}
use remy.Wire.{ClientsListPayload}
use remy.Protocol.Control.{clients_list}
use remy.Server.Exec.{ok, threw, resume}
use remy.Server.Keeps.{Keeps, Keeps-pure, Keeps-then}
use remy.Server.State.{SendAction, send, ClientCtrl, Server, enqueue, async_send, requests_capacity}
use remy.Server.Control.Registry.{Apart, Registered}
use remy.Server.Control.{send_clients_list, notify_each}

-- The channel of the client at an address has room; and it is open too.
abbrev pub HasRoom : List ClientCtrl → ℕ → Type 0
HasRoom heap addr =
    (c : ClientCtrl) × (get_elem? heap addr ≡ some c) × (length c.requests < requests_capacity)

abbrev pub IsClosed : List ClientCtrl → ℕ → Type 0
IsClosed heap addr = (c : ClientCtrl) × (get_elem? heap addr ≡ some c) × (c.is_open ≡ false)

abbrev pub IsReady : List ClientCtrl → ℕ → Type 0
IsReady heap addr =
    (c : ClientCtrl) × (get_elem? heap addr ≡ some c)
    × (c.is_open ≡ true)
    × (length c.requests < requests_capacity)

abbrev pub AllAddrs : (ℕ → Type 0) → Map ℕ → Type 0
AllAddrs P [] = Unit
AllAddrs P ((id, addr) ∷ m) = P addr × AllAddrs P m

abbrev pub SomeAddr : (ℕ → Type 0) → Map ℕ → Type 0
SomeAddr P [] = ⊥
SomeAddr P ((id, addr) ∷ m) = P addr ⊎ SomeAddr P m

abbrev pub has_addr : ℕ → Map ℕ → Bool
has_addr j [] = false
has_addr j ((id, addr) ∷ m) = if addr == j then true else has_addr j m

-- The heap with an action in the channel of each client of the map.
deliver : SendAction → Map ℕ → List ClientCtrl → List ClientCtrl
deliver a [] heap = heap
deliver a ((id, addr) ∷ m) heap = deliver a m (modify heap addr (enqueue a))

pub sent_ready :
    (s : Server) (addr : ℕ) (a : SendAction)
    → IsReady s.heap addr
    → async_send addr a s ≡ (ok tt, record s { heap = modify s.heap addr (enqueue a) })
unfolding async_send
sent_ready s addr a (c, there, opened, room) =
    rw (there, async_send) (rw opened (rw (lt→ltb (length c.requests) 20 room)))

pub sent_closed :
    (s : Server) (addr : ℕ) (a : SendAction)
    → IsClosed s.heap addr
    → async_send addr a s ≡ (threw, s)
unfolding async_send
sent_closed s addr a (c, there, closed) = rw (there, async_send) (rw closed)

module _ (heap : List ClientCtrl) (a : SendAction) (addr : ℕ) where
  later : List ClientCtrl
  later = modify heap addr (enqueue a)

  Room-later : (m : Map ℕ) → Apart addr m → AllAddrs (HasRoom heap) m → AllAddrs (HasRoom later) m
  unfolding later
  Room-later [] apart h = tt
  Room-later ((id, j) ∷ m) (ne, apart) ((c, there, more), h) = (
    (c, get_elem?-modify_ne heap addr j (enqueue a) (λ e. ne (sym e)) ∙ there, more),
    Room-later m apart h,
  )

  Closed-later :
      (m : Map ℕ) → Apart addr m → SomeAddr (IsClosed heap) m → SomeAddr (IsClosed later) m
  unfolding later
  Closed-later [] apart h = h
  Closed-later ((id, j) ∷ m) (ne, apart) (inl (c, there, more)) =
      inl (c, get_elem?-modify_ne heap addr j (enqueue a) (λ e. ne (sym e)) ∙ there, more)
  Closed-later ((id, j) ∷ m) (ne, apart) (inr h) = inr (Closed-later m apart h)

-- No two entries share an object.
abbrev pub DistinctAddrs : Map ℕ → Type 0
DistinctAddrs [] = Unit
DistinctAddrs ((id, addr) ∷ m) = Apart addr m × DistinctAddrs m

pub distinct_addrs : (heap : List ClientCtrl) (m : Map ℕ) → Registered heap m → DistinctAddrs m
distinct_addrs heap [] r = tt
distinct_addrs heap ((id, addr) ∷ m) (e, fresh, apart, rest) = (apart, distinct_addrs heap m rest)

-- A closed channel throws out of the loop.
pub notify_closed :
    (list : ClientsListPayload) (m : Map ℕ) (s : Server)
    → DistinctAddrs m
    → AllAddrs (HasRoom s.heap) m
    → SomeAddr (IsClosed s.heap) m
    → (notify_each list m s).0 ≡ threw
unfolding notify_each later
notify_closed list [] s d room closed = absurd closed
notify_closed list ((id, addr) ∷ m) s (apart, d) ((c, there, room), rooms) closed =
    let a = send (clients_list list) in
    elim (Bool-cases c.is_open) [
      | inl opened ↦
          ap (λ r. (resume (λ u. notify_each list m) r).0)
            (sent_ready s addr a (c, there, opened, room))
          ∙ notify_closed list m (record s { heap = modify s.heap addr (enqueue a) }) d
              (Room-later s.heap a addr m apart rooms)
              (Closed-later s.heap a addr m apart (closed_later c there opened closed))
      | inr shut ↦
          ap (λ r. (resume (λ u. notify_each list m) r).0) (sent_closed s addr a (c, there, shut))
    ]
  where
    closed_later :
        (c : ClientCtrl)
        → get_elem? s.heap addr ≡ some c
        → c.is_open ≡ true
        → SomeAddr (IsClosed s.heap) ((id, addr) ∷ m)
        → SomeAddr (IsClosed s.heap) m
    closed_later c there opened (inl (e, found, shut)) =
        let same : c ≡ e = some-injective c e (sym there ∙ found) in absurd (ground arith)
    closed_later c there opened (inr h) = h

clients-async_send :
    (addr : ℕ) (a : SendAction) (k : Map ℕ) → Keeps (λ s. s.clients ≡ k) (async_send addr a)
unfolding async_send
clients-async_send addr a k = record { at = at }
  where
    at : (s : Server) → s.clients ≡ k → (async_send addr a s).1.clients ≡ k
    at s h = ground (arith, h)

-- The loop leaves the map alone, however it ends.
pub clients-notify_each :
    (list : ClientsListPayload) (m k : Map ℕ) → Keeps (λ s. s.clients ≡ k) (notify_each list m)
unfolding notify_each send_clients_list
clients-notify_each list [] k = Keeps-pure tt
clients-notify_each list ((id, addr) ∷ m) k =
    Keeps-then _ _ (clients-async_send addr (send (clients_list list)) k)
      (clients-notify_each list m k)
