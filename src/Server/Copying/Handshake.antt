-- ===== src/Server/Copying/Handshake.antt =====
-- How the two connections of a Copy operation come about (src/server.cpp, `Server::copy_handshake`).
use remy.Base.{ℕ, ◌≡◌, refl, ◌∙◌, true, false, [], ◌∷◌, ◌++◌, some, modify, ==_refl}
use remy.Base.Map.{Map, get, put, contains, contains-put}
use remy.Wire.{Text, RemoteDentries, RemoteDentry}
use remy.Protocol.Control.{copy_source, copy_destination}
use remy.Server.Exec.{Exec, ok, threw, pure, ◌>>=◌, ◌>>◌, bind_ok, then_ok}
use remy.Server.State.{SendAction, send, Server, enqueue, NewSocketsChan}
use remy.Server.Control.{request_copy_source, request_copy_destination}
use remy.Server.Control.Notify.{IsReady, sent_ready}
use remy.Server.Channels.{
  new_sockets_chan_free, new_sockets_chan_taken, offer_copy, offer-put, receive-put,
}
use remy.Server.Copying.{
  CopyConn, wants_source, wants_destination, connected, CopyFrame, create_copy_chan, copy_start,
  copy_resume,
}

-- The coroutine, and the two connections that announce its token while it waits: the first peer's,
-- then the second one's.
unfoldable pub handshake : RemoteDentries → RemoteDentry → ℕ → ℕ → ℕ → Exec Server CopyConn
handshake src_info dst_info token src_socket dst_socket = do
  f ← copy_start src_info dst_info token
  offer_copy token src_socket
  asked ← copy_resume f wants_source
  offer_copy token dst_socket
  copy_resume f asked

abbrev pub with_copies : Server → Map NewSocketsChan → Server
with_copies s chans = record s { pending_copy_ops = chans }

abbrev pub told : Server → ℕ → SendAction → Server
told s addr a = record s { heap = modify s.heap addr (enqueue a) }

abbrev pub source_request : ℕ → RemoteDentries → SendAction
source_request token src_info = send (copy_source token src_info.basedir src_info.dentries)

abbrev pub destination_request : ℕ → Text → SendAction
destination_request token path = send (copy_destination token path)

abbrev pub copy_frame : ℕ → Text → ℕ → CopyFrame
copy_frame dst path token = record { destination = dst; path = path; token = token }

module _ (s : Server) (token : ℕ) (chans : Map NewSocketsChan) where
  chan : NewSocketsChan → Server
  chan waiting = with_copies s (put token waiting chans)

  copy_offered :
      (waiting : NewSocketsChan) (socket : ℕ)
      → offer_copy token socket (chan waiting) ≡ (ok tt, chan (waiting ++ socket ∷ []))
  unfolding offer_copy chan
  copy_offered waiting socket = rw (offer-put chans token waiting socket, offer_copy) refl

  source_came :
      (dst : ℕ) (path : Text) (socket : ℕ)
      → IsReady s.heap dst
      → copy_resume (copy_frame dst path token) wants_source (chan (socket ∷ []))
        ≡ (ok (wants_destination socket), told (chan []) dst (destination_request token path))
  unfolding copy_resume request_copy_destination chan
  source_came dst path socket ready =
      rw (receive-put chans token socket [], copy_resume)
        (then_ok (request_copy_destination dst token path) (pure (wants_destination socket))
          (sent_ready (chan []) dst (destination_request token path) ready))

  destination_came :
      (dst : ℕ) (path : Text) (src_socket socket : ℕ)
      → copy_resume (copy_frame dst path token) (wants_destination src_socket) (chan (socket ∷ []))
        ≡ (ok (connected src_socket socket), chan [])
  unfolding copy_resume chan
  destination_came dst path src_socket socket =
      rw (receive-put chans token socket [], copy_resume) refl

module _ (s : Server) (src_info : RemoteDentries) (dst_id : ℕ) (path : Text)
    (token src dst : ℕ) where
  copy_chan_created :
      contains token s.pending_copy_ops ≡ false
      → create_copy_chan token s ≡ (ok tt, with_copies s (put token [] s.pending_copy_ops))
  unfolding create_copy_chan
  copy_chan_created free =
      rw (new_sockets_chan_free s.pending_copy_ops token free, create_copy_chan) refl

  copy_started :
      get src_info.id s.clients ≡ some src
      → get dst_id s.clients ≡ some dst
      → contains token s.pending_copy_ops ≡ false
      → IsReady s.heap src
      → copy_start src_info (dst_id, path) token s ≡ (
        ok (copy_frame dst path token),
        told (with_copies s (put token [] s.pending_copy_ops)) src (source_request token src_info),
      )
  unfolding copy_start request_copy_source
  copy_started gs gd free ready =
      rw (gs, copy_start)
        (rw (gd, copy_start)
          (then_ok
            (create_copy_chan token
              >> request_copy_source src token src_info.basedir src_info.dentries)
            (pure (copy_frame dst path token))
            (then_ok (create_copy_chan token)
                (request_copy_source src token src_info.basedir src_info.dentries)
                (copy_chan_created free)
              ∙ sent_ready (with_copies s (put token [] s.pending_copy_ops)) src
                  (source_request token src_info) ready)))

  -- With both clients connected, room in their channels and a token that is not in use, the source
  -- and the destination are asked in this order, and the two connections are those that announced
  -- the token, in the order in which they did. The token's channel stays behind, empty.
  pub handshake_lem :
      (src_socket dst_socket : ℕ)
      → get src_info.id s.clients ≡ some src
      → get dst_id s.clients ≡ some dst
      → contains token s.pending_copy_ops ≡ false
      → IsReady s.heap src
      → IsReady (told s src (source_request token src_info)).heap dst
      → handshake src_info (dst_id, path) token src_socket dst_socket s ≡ (
        ok (connected src_socket dst_socket),
        with_copies
            (told (told s src (source_request token src_info)) dst (destination_request token path))
            (put token [] s.pending_copy_ops),
      )
  unfolding handshake chan
  handshake_lem src_socket dst_socket gs gd free ready ready' =
      let P = s.pending_copy_ops in
      let s1 = told s src (source_request token src_info) in
      let s2 = told s1 dst (destination_request token path) in
      bind_ok (copy_start src_info (dst_id, path) token) _ (copy_started gs gd free ready)
      ∙ then_ok (offer_copy token src_socket) _ (copy_offered s1 token P [] src_socket)
      ∙ bind_ok (copy_resume (copy_frame dst path token) wants_source) _
          (source_came s1 token P dst path src_socket ready')
      ∙ then_ok (offer_copy token dst_socket) _ (copy_offered s2 token P [] dst_socket)
      ∙ destination_came s2 token P dst path src_socket dst_socket

  token_taken :
      (t : Server)
      → get src_info.id t.clients ≡ some src
      → get dst_id t.clients ≡ some dst
      → contains token t.pending_copy_ops ≡ true
      → copy_start src_info (dst_id, path) token t ≡ (threw, t)
  unfolding copy_start create_copy_chan
  token_taken t gs gd taken =
      rw (gs, copy_start)
        (rw (gd, copy_start)
          (rw (new_sockets_chan_taken t.pending_copy_ops token taken, create_copy_chan) refl))

  -- A token is never given back: when its operation has come this far, the same operation fails under
  -- the same token, with an exception and before anyone is asked.
  token_leaks :
      (src_socket dst_socket : ℕ)
      → get src_info.id s.clients ≡ some src
      → get dst_id s.clients ≡ some dst
      → contains token s.pending_copy_ops ≡ false
      → IsReady s.heap src
      → IsReady (told s src (source_request token src_info)).heap dst
      → let t = (handshake src_info (dst_id, path) token src_socket dst_socket s).1 in
        copy_start src_info (dst_id, path) token t ≡ (threw, t)
  token_leaks src_socket dst_socket gs gd free ready ready' =
      rw (handshake_lem src_socket dst_socket gs gd free ready ready') (
        token_taken _ gs gd
          (contains-put token token [] s.pending_copy_ops ∙ rw (==_refl token) refl))
