-- ===== src/Client/Net.antt =====
-- `ClientNet` (include/remy/client.hpp, src/client.cpp): its maps of Browser connections, its send
-- channels, and what it posts to the user interface. Everything up to where a coroutine waits is one
-- step. The values of `rand()`, the host name and the messages of exceptions are parameters.
pub mod Control
pub mod Readers
pub mod Panes
pub mod Locked
pub mod Later
pub mod Failures
use remy.Base.{
  ℕ, zero, suc, ◌+◌, Bool, true, false, List, [], ◌∷◌, ◌++◌, Option, none, some, ltb, ◌&&◌,
  if◌then◌else◌, length,
}
use remy.Base.Map.{Map}
use remy.Wire.{Text, RemoteDentries, RemoteDentry}
use remy.Protocol.Requests.{ClientMsg}
use remy.Protocol.Browser.{ReaderMsg}
use remy.View.Events.{Event}

-- `BrowserReader`: the pane is the key under which it stands. `receiving` tells that `outcoming_msg`
-- waits in `async_receive`, `written` is what it has sent.
pub record Reader : Type 0 where
  pub token : ℕ
  pub socket_open : Bool
  pub requests_open : Bool
  pub receiving : Bool
  pub written : List ReaderMsg

abbrev pub new_reader : ℕ → Reader
new_reader token = record {
  token = token;
  socket_open = false;
  requests_open = true;
  receiving = false;
  written = [];
}

-- The callbacks in `m_send_requests`.
pub data ControlAction : Type 0 where
  get_list : ControlAction
  ask_name : Text → ControlAction
  ask_browser : Bool → ℕ → ControlAction
  ask_copy : RemoteDentries → RemoteDentry → ControlAction

-- A coroutine that has been started and has not run yet.
pub data Task : Type 0 where
  browser_reader : ℕ → ℕ → Task
  browser_host : ℕ → Task
  copy_sender : ℕ → Text → List Text → Task
  copy_receiver : ℕ → Text → Task

-- `m_browser_readers` has the panes as keys, of which there are two.
pub record Net : Type 0 where
  pub id : ℕ
  pub browser_ids : Map Bool
  pub left_reader : Option Reader
  pub right_reader : Option Reader
  pub requests : List ControlAction
  pub requests_open : Bool
  pub control_open : Bool
  pub written : List ClientMsg
  pub browser_hosts_count : ℕ
  pub spawned : List Task
  pub posted : List Event

-- m_browser_readers.find(id)
abbrev pub reader_of : Bool → Net → Option Reader
reader_of false net = net.left_reader
reader_of true net = net.right_reader

abbrev pub set_reader : Bool → Option Reader → Net → Net
set_reader false r net = record net { left_reader = r }
set_reader true r net = record net { right_reader = r }

abbrev pub post : Event → Net → Net
post event net = record net { posted = net.posted ++ event ∷ [] }

abbrev pub spawn : Task → Net → Net
spawn task net = record net { spawned = net.spawned ++ task ∷ [] }

abbrev pub write : ClientMsg → Net → Net
write m net = record net { written = net.written ++ m ∷ [] }

-- m_send_requests(m_io_context, 100)
abbrev pub requests_capacity : ℕ
requests_capacity = 100

-- channel.try_send: false, here `none`, if the channel is full or closed.
unfoldable pub try_send : ControlAction → Net → Option Net
try_send action net =
    if net.requests_open && ltb (length net.requests) requests_capacity
    then some (record net { requests = net.requests ++ action ∷ [] })
    else none

-- `send_request`: it tries again after each sleep, in which the network's thread goes on; `found` are
-- the states that its attempts find. `none` means that it is still trying after these.
unfoldable pub send_request : ControlAction → List Net → Option Net
send_request action [] = none
send_request action (net ∷ found) = elim (try_send action net) [
  | none ↦ send_request action found
  | some sent ↦ some sent
]
