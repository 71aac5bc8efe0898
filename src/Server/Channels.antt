-- ===== src/Server/Channels.antt =====
-- The channels by which a new Browser or Copy connection reaches the coroutine that expects it:
-- `new_sockets_chan`, `get_sockets_chan`, `delete_sockets_chan` and `process_new_connection`
-- (src/server.cpp).
pub mod Announce
use remy.Base.{
  ◌≡◌, ap, ◌∙◌, ==_refl, ℕ, true, false, [], ◌∷◌, ◌++◌, Option, none, some, ◌==◌, if◌then◌else◌,
}
use remy.Base.Map.{Map, get, put, erase, contains, get-put, put-put}
use remy.Serde.Bytes.{Bytes, Recv, send_pod, recv_pod}
use remy.Wire.{Text}
use remy.Server.Exec.{Exec, ok, threw, pure, ◌>>◌}
use remy.Server.State.{NewSocketsChan, Server}
use remy.Server.Control.{connect}

-- `try_emplace`; `none` is the exception of a token that is taken.
unfoldable pub new_sockets_chan : Map NewSocketsChan → ℕ → Option (Map NewSocketsChan)
new_sockets_chan chans token = if contains token chans then none else some (put token [] chans)

-- `at`; `none` is its exception.
unfoldable pub get_sockets_chan : Map NewSocketsChan → ℕ → Option NewSocketsChan
get_sockets_chan chans token = get token chans

unfoldable pub delete_sockets_chan : Map NewSocketsChan → ℕ → Map NewSocketsChan
delete_sockets_chan chans token = erase token chans

-- co_await channel.async_send({}, socket.release()): the socket waits in the channel.
unfoldable pub offer : Map NewSocketsChan → ℕ → ℕ → Option (Map NewSocketsChan)
unfolding get_sockets_chan
offer chans token socket = elim (get_sockets_chan chans token) [
  | none ↦ none
  | some waiting ↦ some (put token (waiting ++ socket ∷ []) chans)
]

-- co_await sockets_chan.async_receive(): the socket that has waited longest, if there is one.
take_socket : Map NewSocketsChan → ℕ → NewSocketsChan → Option (ℕ × Map NewSocketsChan)
take_socket chans token [] = none
take_socket chans token (socket ∷ others) = some (socket, put token others chans)

unfoldable pub receive : Map NewSocketsChan → ℕ → Option (ℕ × Map NewSocketsChan)
unfolding take_socket
receive chans token = elim (get token chans) [
  | none ↦ none
  | some waiting ↦ take_socket chans token waiting
]

unfoldable pub offer_browser : ℕ → ℕ → Exec Server (Unit {0})
offer_browser token socket s = elim (offer s.pending_browsers token socket) [
  | none ↦ (threw, s)
  | some chans ↦ (ok tt, record s { pending_browsers = chans })
]

unfoldable pub offer_copy : ℕ → ℕ → Exec Server (Unit {0})
offer_copy token socket s = elim (offer s.pending_copy_ops token socket) [
  | none ↦ (threw, s)
  | some chans ↦ (ok tt, record s { pending_copy_ops = chans })
]

-- What a peer announces first on a new connection.
pub data Hello : Type 0 where
  control_conn : Hello
  browser_conn : ℕ → Hello
  copy_conn : ℕ → Hello
  other_conn : ℕ → Hello

unfoldable pub send_hello : Hello → Bytes
send_hello control_conn = send_pod 1 0
send_hello (browser_conn token) = send_pod 1 1 ++ send_pod 8 token
send_hello (copy_conn token) = send_pod 1 2 ++ send_pod 8 token
send_hello (other_conn type) = send_pod 1 type

-- The reads of `process_new_connection`.
recv_token : (ℕ → Hello) → Bytes → Option (Hello × Bytes)
recv_token conn bs = elim (recv_pod 8 bs) [
  | none ↦ none
  | some (token, rest) ↦ some (conn token, rest)
]

unfoldable pub recv_hello : Recv Hello
unfolding recv_token
recv_hello bs = elim (recv_pod 1 bs) [
  | none ↦ none
  | some (type, rest) ↦
      if type == 0
      then some (control_conn, rest)
      else if type == 1
      then recv_token browser_conn rest
      else if type == 2
      then recv_token copy_conn rest
      else some (other_conn type, rest)
]

-- Its switch, for a connection from this endpoint with this native handle; a read that throws, like
-- any other exception, is logged, and the socket is dropped.
unfoldable pub accept : Text → ℕ → Hello → Exec Server (Unit {0})
accept endpoint socket control_conn = connect endpoint >> pure tt
accept endpoint socket (browser_conn token) = offer_browser token socket
accept endpoint socket (copy_conn token) = offer_copy token socket
accept endpoint socket (other_conn type) = pure tt

module _ (chans : Map NewSocketsChan) (token : ℕ) where
  pub new_sockets_chan_free :
      contains token chans ≡ false → new_sockets_chan chans token ≡ some (put token [] chans)
  unfolding new_sockets_chan
  new_sockets_chan_free h = rw h

  pub new_sockets_chan_taken : contains token chans ≡ true → new_sockets_chan chans token ≡ none
  unfolding new_sockets_chan
  new_sockets_chan_taken h = rw h

  get-put_self : (v : NewSocketsChan) → get token (put token v chans) ≡ some v
  get-put_self v = get-put token token v chans ∙ rw (==_refl token)

  pub offer-put :
      (waiting : NewSocketsChan) (socket : ℕ)
      → offer (put token waiting chans) token socket
        ≡ some (put token (waiting ++ socket ∷ []) chans)
  unfolding offer get_sockets_chan
  offer-put waiting socket =
      rw (get-put_self waiting, offer) (ap some (put-put token _ waiting chans))

  pub receive-put :
      (socket : ℕ) (waiting : NewSocketsChan)
      → receive (put token (socket ∷ waiting) chans) token ≡ some (socket, put token waiting chans)
  unfolding receive take_socket
  receive-put socket waiting =
      rw (get-put_self (socket ∷ waiting), receive)
        (ap (λ (m : Map NewSocketsChan). some (socket, m)) (put-put token waiting _ chans))
