-- ===== src/Server/Browser.antt =====
-- `Server::process_browser_conn` (src/server.cpp): a coroutine that waits twice for a socket. It is
-- written as its parts between these waits; `BrowserConn` says where it waits and what it holds.
pub mod Pairing
pub mod Failure
pub mod Tunnel
use remy.Base.{ℕ, Option, none, some, ◌≡◌}
use remy.Base.Map.{get}
use remy.Server.Exec.{Exec, Outcome, ok, threw, waits, pure, throw, try, ◌>>=◌, ◌>>◌}
use remy.Server.State.{Server}
use remy.Server.Control.{request_browser_host, request_browser_reader}
use remy.Server.Channels.{new_sockets_chan, delete_sockets_chan, receive}

pub data BrowserConn : Type 0 where
  wants_host : BrowserConn
  wants_reader : ℕ → BrowserConn
  proxies : ℕ → ℕ → BrowserConn
  over : BrowserConn

-- What the coroutine keeps: the two clients' addresses and the two tokens.
pub record Frame : Type 0 where
  pub host : ℕ
  pub reader : ℕ
  pub client_token : ℕ
  pub server_token : ℕ

-- The end of the coroutine after an exception inside the `try`.
unfoldable pub browser_failed : Frame → Exec Server BrowserConn
browser_failed f = request_browser_reader f.reader f.client_token none >> pure over

create_browser_chan : Frame → Exec Server (Unit {0})
create_browser_chan f s = elim (new_sockets_chan s.pending_browsers f.server_token) [
  | none ↦ (threw, s)
  | some chans ↦ (ok tt, record s { pending_browsers = chans })
]

-- The `try` up to the first wait.
unfoldable pub browser_asks_host : Frame → Exec Server BrowserConn
unfolding create_browser_chan
browser_asks_host f =
    try (create_browser_chan f >> request_browser_host f.host f.server_token >> pure wants_host)
      (browser_failed f)

-- `at` throws outside the `try` if a client is not there. `server_token` is the value of `rand()`.
unfoldable pub browser_start : ℕ → ℕ → ℕ → ℕ → Exec Server BrowserConn
browser_start host_id reader_id client_token server_token s = elim (get host_id s.clients) [
  | none ↦ (threw, s)
  | some host ↦ elim (get reader_id s.clients) [
    | none ↦ (threw, s)
    | some reader ↦
        browser_asks_host
          (record {
            host = host;
            reader = reader;
            client_token = client_token;
            server_token = server_token;
          })
          s
  ]
]

-- It has received the first socket, and asks the reader to connect.
unfoldable pub browser_asks_reader : Frame → ℕ → Exec Server BrowserConn
browser_asks_reader f host_socket =
    try
      (request_browser_reader f.reader f.client_token (some f.server_token)
        >> pure (wants_reader host_socket))
      (browser_failed f)

-- The coroutine goes on when its channel has a socket; with none it stays where it waits.
unfoldable pub browser_resume : Frame → BrowserConn → Exec Server BrowserConn
browser_resume f wants_host s = elim (receive s.pending_browsers f.server_token) [
  | none ↦ (ok wants_host, s)
  | some (socket, chans) ↦ browser_asks_reader f socket (record s { pending_browsers = chans })
]
browser_resume f (wants_reader host_socket) s = elim (receive s.pending_browsers f.server_token) [
  | none ↦ (ok (wants_reader host_socket), s)
  | some (socket, chans) ↦ (
    ok (proxies host_socket socket),
    record s { pending_browsers = delete_sockets_chan chans f.server_token },
  )
]
browser_resume f (proxies host_socket reader_socket) s = (ok (proxies host_socket reader_socket), s)
browser_resume f over s = (ok over, s)
