-- ===== src/Server/Browser/Pairing.antt =====
-- How a Browser connection comes about, and how it fails.
use remy.Base.{ℕ, ◌≡◌, ap, ◌∙◌, false, [], ◌∷◌, ◌++◌, some, modify}
use remy.Base.Map.{Map, get, put, contains, erase-put_new}
use remy.Protocol.Control.{browser_connected, connect_browser_request}
use remy.Server.Exec.{Exec, ok, catch_with, ◌>>=◌, ◌>>◌, bind_ok, then_ok}
use remy.Server.State.{SendAction, send, Server, enqueue, NewSocketsChan}
use remy.Server.Control.{request_browser_host, request_browser_reader}
use remy.Server.Control.Notify.{IsReady, sent_ready}
use remy.Server.Channels.{
  new_sockets_chan_free, offer-put, receive-put, delete_sockets_chan, offer_browser,
}
use remy.Server.Browser.{
  BrowserConn, wants_host, wants_reader, proxies, Frame, browser_failed, create_browser_chan,
  browser_asks_host, browser_start, browser_asks_reader, browser_resume,
}

-- The coroutine with the two connections that it waits for: the first peer, then the second,
-- announces `server_token`. The frame is that of the clients' addresses.
unfoldable pub establish : Frame → ℕ → ℕ → ℕ → ℕ → Exec Server BrowserConn
establish f host_id reader_id host_socket reader_socket = do
  asked ← browser_start host_id reader_id f.client_token f.server_token
  offer_browser f.server_token host_socket
  asked' ← browser_resume f asked
  offer_browser f.server_token reader_socket
  browser_resume f asked'

abbrev pending : Server → Map NewSocketsChan → Server
pending s chans = record s { pending_browsers = chans }

abbrev pub queued : Server → ℕ → SendAction → Server
queued s addr a = record s { heap = modify s.heap addr (enqueue a) }

module _ (f : Frame) (s : Server) (chans : Map NewSocketsChan) where
  chan : NewSocketsChan → Server
  chan waiting = pending s (put f.server_token waiting chans)

  created :
      contains f.server_token chans ≡ false
      → create_browser_chan f (pending s chans) ≡ (ok tt, chan [])
  unfolding create_browser_chan chan
  created free = rw (new_sockets_chan_free chans f.server_token free, create_browser_chan)

  asks_host :
      IsReady s.heap f.host
      → contains f.server_token chans ≡ false
      → browser_asks_host f (pending s chans)
        ≡ (ok wants_host, queued (chan []) f.host (send (connect_browser_request f.server_token)))
  unfolding browser_asks_host request_browser_host chan
  asks_host ready free = ap (catch_with (browser_failed f)) (
      then_ok (create_browser_chan f >> request_browser_host f.host f.server_token) _ (
        then_ok (create_browser_chan f) _ (created free)
        ∙ sent_ready (chan []) f.host (send (connect_browser_request f.server_token)) ready))

  offered :
      (waiting : NewSocketsChan) (socket : ℕ)
      → offer_browser f.server_token socket (chan waiting) ≡ (ok tt, chan (waiting ++ socket ∷ []))
  unfolding offer_browser chan
  offered waiting socket = rw (offer-put chans f.server_token waiting socket, offer_browser)

  asks_reader :
      (socket : ℕ)
      → IsReady s.heap f.reader
      → browser_resume f wants_host (chan (socket ∷ [])) ≡ (
        ok (wants_reader socket),
        queued (chan []) f.reader (send (browser_connected f.client_token (some f.server_token))),
      )
  unfolding browser_resume browser_asks_reader request_browser_reader chan
  asks_reader socket ready =
      rw (receive-put chans f.server_token socket [], browser_resume)
        (ap (catch_with (browser_failed f)) (
          then_ok (request_browser_reader f.reader f.client_token (some f.server_token)) _ (
            sent_ready (chan []) f.reader
              (send (browser_connected f.client_token (some f.server_token))) ready)))

  starts_proxy :
      (host_socket reader_socket : ℕ)
      → contains f.server_token chans ≡ false
      → browser_resume f (wants_reader host_socket) (chan (reader_socket ∷ []))
        ≡ (ok (proxies host_socket reader_socket), pending s chans)
  unfolding browser_resume delete_sockets_chan chan
  starts_proxy host_socket reader_socket free =
      rw (receive-put chans f.server_token reader_socket [], browser_resume)
        (ap (λ (m : Map NewSocketsChan). (ok (proxies host_socket reader_socket), pending s m))
          (erase-put_new f.server_token [] chans free))

-- With both clients connected, room in their channels and a token that is not in use, the two peers
-- are connected to each other and to nobody else: the host has been sent the token, the reader both
-- tokens, and of the server's state nothing else has changed. In particular the token is free again.
pub establish_lem :
    (f : Frame) (s : Server) (host_id reader_id host_socket reader_socket : ℕ)
    → get host_id s.clients ≡ some f.host
    → get reader_id s.clients ≡ some f.reader
    → contains f.server_token s.pending_browsers ≡ false
    → IsReady s.heap f.host
    → IsReady (queued s f.host (send (connect_browser_request f.server_token))).heap f.reader
    → establish f host_id reader_id host_socket reader_socket s ≡ (
      ok (proxies host_socket reader_socket),
      queued
          (queued s f.host (send (connect_browser_request f.server_token)))
          f.reader
          (send (browser_connected f.client_token (some f.server_token))),
    )
unfolding establish chan
establish_lem f s host_id reader_id host_socket reader_socket gh gr free rh rr =
    let P = s.pending_browsers in
    let s1 = queued s f.host (send (connect_browser_request f.server_token)) in
    let s2 = queued s1 f.reader (send (browser_connected f.client_token (some f.server_token))) in
    bind_ok (browser_start host_id reader_id f.client_token f.server_token) _ (started P)
    ∙ then_ok (offer_browser f.server_token host_socket) _ (offered f s1 P [] host_socket)
    ∙ bind_ok (browser_resume f wants_host) _ (asks_reader f s1 P host_socket rr)
    ∙ then_ok (offer_browser f.server_token reader_socket) _ (offered f s2 P [] reader_socket)
    ∙ starts_proxy f s2 P host_socket reader_socket free
  where
    started :
        (P : Map NewSocketsChan)
        → browser_start host_id reader_id f.client_token f.server_token s ≡ (
          ok wants_host,
          chan f
              (queued s f.host (send (connect_browser_request f.server_token)))
              s.pending_browsers
              [],
        )
    started P =
        unfold browser_start in
        rw (gh, browser_start) (rw (gr, browser_start) (asks_host f s s.pending_browsers rh free))
