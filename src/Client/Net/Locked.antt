-- ===== src/Client/Net/Locked.antt =====
-- The thread of the user interface and the network thread of a client (src/client.cpp): `cd`,
-- `request_delete` and `request_mkdir` hold `m_mtx` while `send_request` tries, and the coroutine
-- of a reader needs `m_mtx` to begin and to end.
pub mod Deadlock
use remy.Base.{ℕ, ◌≡◌, Bool, true, false, ◌⊎◌, Option, none, some}
use remy.Protocol.Control.{ServerMsg, browser_connected}
use remy.Protocol.Browser.{ReaderMsg, HostMsg}
use remy.Server.Exec.{ok, threw, waits}
use remy.Client.Net.{Net}
use remy.Client.Net.Control.{handle_server_msg}
use remy.Client.Net.Readers.{
  ReadEnd, reader_start, reader_connected, handle_host_msg, incoming_ends, reader_ends, ask_host,
  outcoming_next,
}

-- `sending`: the thread of the user interface is in `send_request` for a reader, and holds the lock.
pub record Threads : Type 0 where
  pub net : Net
  pub sending : Option (Bool × ReaderMsg)

abbrev pub with_net : Threads → Net → Threads
with_net t net = record t { net = net }

-- The case of the switch that reads `m_browser_ids`.
abbrev pub takes_lock : ServerMsg → Bool
takes_lock (browser_connected client_token none) = true
takes_lock m = false

-- Every attempt of `try_send` is a step; what is between is a sleep.
pub data Step (t : Threads) (u : Threads) : Type 0 where
  asks :
      (pane : Bool) (m : ReaderMsg) (net : Net)
      → t.sending ≡ none
      → ask_host pane m t.net ≡ (ok tt, net)
      → u ≡ with_net t net
      → Step t u
  begins_to_send :
      (pane : Bool) (m : ReaderMsg)
      → t.sending ≡ none
      → ask_host pane m t.net ≡ (waits, t.net)
      → u ≡ record t { sending = some (pane, m) }
      → Step t u
  sends :
      (pane : Bool) (m : ReaderMsg) (net : Net)
      → t.sending ≡ some (pane, m)
      → ask_host pane m t.net ≡ (ok tt, net)
      → u ≡ record { net = net; sending = none }
      → Step t u
  tries :
      (pane : Bool) (m : ReaderMsg)
      → t.sending ≡ some (pane, m)
      → ask_host pane m t.net ≡ (waits, t.net)
      → u ≡ t
      → Step t u
  receives_server_msg :
      (m : ServerMsg)
      → (takes_lock m ≡ false) ⊎ (t.sending ≡ none)
      → u ≡ with_net t (handle_server_msg m t.net)
      → Step t u
  starts_reader :
      (client_token server_token : ℕ)
      → t.sending ≡ none
      → u ≡ with_net t (reader_start client_token server_token t.net).1
      → Step t u
  connects : (pane : Bool) → u ≡ with_net t (reader_connected pane t.net) → Step t u
  receives_host_msg :
      (pane : Bool) (m : HostMsg) → u ≡ with_net t (handle_host_msg pane m t.net) → Step t u
  stops_reading :
      (pane : Bool) (end : ReadEnd) → u ≡ with_net t (incoming_ends pane end t.net) → Step t u
  waits_again : (pane : Bool) → u ≡ with_net t (outcoming_next pane t.net) → Step t u
  ends_reader :
      (pane : Bool) → t.sending ≡ none → u ≡ with_net t (reader_ends pane t.net) → Step t u

pub data Reach (s : Threads) : Threads → Type 0 where
  here : Reach s s
  next : {t u : Threads} → Reach s t → Step t u → Reach s u
