-- ===== src/Server/Copying.antt =====
-- `Server::copy_handshake` (src/server.cpp): a coroutine that waits twice for a socket, written as
-- its parts between these waits.
pub mod Handshake
use remy.Base.{ℕ, Option, none, some}
use remy.Base.Map.{Map, get}
use remy.Wire.{Text, RemoteDentries, RemoteDentry}
use remy.Server.Exec.{Exec, Outcome, ok, threw, waits, pure, ◌>>=◌, ◌>>◌}
use remy.Server.State.{NewSocketsChan, Server}
use remy.Server.Control.{request_copy_source, request_copy_destination}
use remy.Server.Channels.{new_sockets_chan, receive}

pub data CopyConn : Type 0 where
  wants_source : CopyConn
  wants_destination : ℕ → CopyConn
  connected : ℕ → ℕ → CopyConn

-- What the coroutine keeps: the destination's address and path, and the token.
pub record CopyFrame : Type 0 where
  pub destination : ℕ
  pub path : Text
  pub token : ℕ

create_copy_chan : ℕ → Exec Server (Unit {0})
create_copy_chan token s = elim (new_sockets_chan s.pending_copy_ops token) [
  | none ↦ (threw, s)
  | some chans ↦ (ok tt, record s { pending_copy_ops = chans })
]

-- Up to the first wait. `token` is the value of `rand()`; `at` throws if a client is not there.
unfoldable pub copy_start : RemoteDentries → RemoteDentry → ℕ → Exec Server CopyFrame
unfolding create_copy_chan
copy_start src_info (dst_id, dst_path) token s = elim (get src_info.id s.clients) [
  | none ↦ (threw, s)
  | some src ↦ elim (get dst_id s.clients) [
    | none ↦ (threw, s)
    | some dst ↦
        (create_copy_chan token
            >> request_copy_source src token src_info.basedir src_info.dentries
            >> pure (record { destination = dst; path = dst_path; token = token }))
          s
  ]
]

-- It goes on when its channel has a socket.
unfoldable pub copy_resume : CopyFrame → CopyConn → Exec Server CopyConn
copy_resume f wants_source s = elim (receive s.pending_copy_ops f.token) [
  | none ↦ (ok wants_source, s)
  | some (socket, chans) ↦
      (request_copy_destination f.destination f.token f.path >> pure (wants_destination socket))
        (record s { pending_copy_ops = chans })
]
copy_resume f (wants_destination src_socket) s = elim (receive s.pending_copy_ops f.token) [
  | none ↦ (ok (wants_destination src_socket), s)
  | some (socket, chans) ↦ (ok (connected src_socket socket), record s { pending_copy_ops = chans })
]
copy_resume f (connected src_socket dst_socket) s = (ok (connected src_socket dst_socket), s)
