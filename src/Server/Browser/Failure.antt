-- ===== src/Server/Browser/Failure.antt =====
-- The ways in which a Browser connection fails before the host is asked, and what the reader learns.
use remy.Base.{ℕ, ◌≡◌, refl, ap, ◌∙◌, true, Option, none, some, ◌⊎◌, inl, inr, modify}
use remy.Base.Map.{get, contains}
use remy.Protocol.Control.{browser_connected}
use remy.Server.Exec.{ok, threw, pure, catch_with, resume, then_ok}
use remy.Server.State.{send, Server, enqueue}
use remy.Server.Control.{request_browser_host, request_browser_reader}
use remy.Server.Control.Notify.{IsReady, sent_ready}
use remy.Server.Channels.{new_sockets_chan_taken}
use remy.Server.Browser.{
  wants_host, over, Frame, browser_failed, create_browser_chan, browser_asks_host, browser_start,
}

abbrev pub told_failure : Frame → Server → Server
told_failure f s = record s {
  heap = modify s.heap f.reader (enqueue (send (browser_connected f.client_token none)));
}

failed_ready :
    (f : Frame) (s : Server)
    → IsReady s.heap f.reader
    → browser_failed f s ≡ (ok over, told_failure f s)
unfolding browser_failed request_browser_reader
failed_ready f s ready =
    then_ok (request_browser_reader f.reader f.client_token none) _
      (sent_ready s f.reader (send (browser_connected f.client_token none)) ready)

module _ (f : Frame) (s : Server) (host_id reader_id : ℕ) where
  -- If the host, or the reader, is not in the map of clients, the coroutine ends by an exception and
  -- has changed nothing: no message tells the reader.
  pub browser_start_missing :
      (get host_id s.clients ≡ none) ⊎ (get reader_id s.clients ≡ none)
      → browser_start host_id reader_id f.client_token f.server_token s ≡ (threw, s)
  unfolding browser_start
  browser_start_missing (inl h) = rw (h, browser_start)
  browser_start_missing (inr h) = reader_missing (get host_id s.clients) refl
    where
      reader_missing :
          (o : Option ℕ)
          → get host_id s.clients ≡ o
          → browser_start host_id reader_id f.client_token f.server_token s ≡ (threw, s)
      reader_missing none e = rw (e, browser_start)
      reader_missing (some host) e = rw (e, browser_start) (rw (h, browser_start))

  clash :
      contains f.server_token s.pending_browsers ≡ true → browser_asks_host f s ≡ browser_failed f s
  unfolding browser_asks_host create_browser_chan
  clash taken =
      ap
        (λ r. catch_with (browser_failed f) (
          resume (λ u. pure wants_host)
            (resume (λ u. request_browser_host f.host f.server_token) r)))
        (no_chan taken)
    where
      no_chan :
          contains f.server_token s.pending_browsers ≡ true → create_browser_chan f s ≡ (threw, s)
      no_chan t =
          rw (new_sockets_chan_taken s.pending_browsers f.server_token t, create_browser_chan)

  started :
      get host_id s.clients ≡ some f.host
      → get reader_id s.clients ≡ some f.reader
      → browser_start host_id reader_id f.client_token f.server_token s ≡ browser_asks_host f s
  unfolding browser_start
  started gh gr = rw (gh, browser_start) (rw (gr, browser_start))

  -- If the token is in use, the reader is told that the connection failed, and nothing else happens.
  browser_start_clash :
      get host_id s.clients ≡ some f.host
      → get reader_id s.clients ≡ some f.reader
      → contains f.server_token s.pending_browsers ≡ true
      → IsReady s.heap f.reader
      → browser_start host_id reader_id f.client_token f.server_token s
        ≡ (ok over, told_failure f s)
  browser_start_clash gh gr taken ready = started gh gr ∙ clash taken ∙ failed_ready f s ready
