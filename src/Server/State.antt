-- ===== src/Server/State.antt =====
-- The server's state (include/remy/server.hpp). Clients are shared objects: a `ClientCtrl` lives in
-- the heap under its address, and `m_clients`, the coroutines of the client and those of a Browser
-- or Copy operation hold the address. Objects are never moved, so an address is a position in the
-- heap.
use remy.Base.{
  ℕ, Bool, List, [], ◌∷◌, ◌++◌, none, some, ltb, if◌then◌else◌, length, get_elem?, modify,
}
use remy.Base.Map.{Map}
use remy.Wire.{Text, RemoteDentries, RemoteDentry}
use remy.Protocol.Control.{ServerMsg}
use remy.Server.Exec.{Exec, ok, threw, waits}

-- A `SendAction`: most send one message; that of `SetName` then notifies all clients.
pub data SendAction : Type 0 where
  send : ServerMsg → SendAction
  announce_name : Text → SendAction

-- `m_send_requests`, and what `outcoming_messages` has written to the socket.
pub record ClientCtrl : Type 0 where
  pub id : ℕ
  pub name : Text
  pub endpoint_str : Text
  pub is_open : Bool
  pub requests : List SendAction
  pub sent : List ServerMsg

-- A coroutine that `co_spawn` has started and that has not run yet.
pub data Task : Type 0 where
  process_browser_conn : ℕ → ℕ → ℕ → Task
  process_copy : RemoteDentries → RemoteDentry → ℕ → Task

-- A channel of new sockets has no buffer: a socket stays with its sender until it is received.
abbrev pub NewSocketsChan : Type 0
NewSocketsChan = List ℕ

pub record Server : Type 0 where
  pub next_allocated_client_id : ℕ
  pub clients : Map ℕ
  pub heap : List ClientCtrl
  pub pending_browsers : Map NewSocketsChan
  pub pending_copy_ops : Map NewSocketsChan
  pub spawned : List Task

-- The capacity of `m_send_requests`.
abbrev pub requests_capacity : ℕ
requests_capacity = 20

-- `co_await m_send_requests.async_send(action)` on the client at an address.
abbrev pub enqueue : SendAction → ClientCtrl → ClientCtrl
enqueue a c = record c { requests = c.requests ++ a ∷ [] }

unfoldable pub async_send : ℕ → SendAction → Exec Server (Unit {0})
async_send addr a s = elim (get_elem? s.heap addr) [
  | none ↦ (threw, s)
  | some c ↦
      if c.is_open
      then if ltb (length c.requests) requests_capacity
        then (ok tt, record s { heap = modify s.heap addr (enqueue a) })
        else (waits, s)
      else (threw, s)
]
