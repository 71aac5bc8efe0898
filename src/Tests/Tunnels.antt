-- ===== src/Tests/Tunnels.antt =====
-- A Browser connection through the server (src/server.cpp): what the reader asks, and its closing.
use remy.Base.{◌≡◌, refl, true, false, [], ◌∷◌, arith}
use remy.Server.Browser.Tunnel.{
  arrive, read, stop_reading, new_pump, arrives, reads, read_fails, Tunnel, new_tunnel, forth_steps,
  back_steps, second_closes, Reach, here, next, has_ended,
}
use remy.Server.Browser.Tunnel.Carries.{IsFaithful, ProxyAlone, Reach-IsFaithful, can_deliver}
use remy.Server.Browser.Tunnel.Waiting.{IsIdle, reader_close_unseen}

-- The host has sent three bytes, and the proxy has read two of them.
abbrev half_read : Tunnel
half_read = record new_tunnel { forth = read 2 (arrive (1 ∷ 2 ∷ 3 ∷ []) new_pump) }

abbrev reached : Reach new_tunnel half_read
reached =
    next
      (next here
        (forth_steps (arrive (1 ∷ 2 ∷ 3 ∷ []) new_pump) (arrives (1 ∷ 2 ∷ 3 ∷ []) refl refl) refl))
      (forth_steps (read 2 (arrive (1 ∷ 2 ∷ 3 ∷ []) new_pump))
        (reads 2 refl refl (omega arith) (omega arith) (omega arith) refl) refl)

Reach-IsFaithful_example : IsFaithful half_read.forth × IsFaithful half_read.back
Reach-IsFaithful_example = Reach-IsFaithful reached

can_deliver_example :
    (u : Tunnel) × Reach half_read u × ProxyAlone half_read u × (u.forth.written ≡ 1 ∷ 2 ∷ 3 ∷ [])
can_deliver_example = can_deliver reached refl

-- The reader has closed its socket, and the pump that reads from it has ended.
abbrev reader_gone : Tunnel
reader_gone = record new_tunnel { second_open = false; back = stop_reading new_pump }

abbrev goes : Reach new_tunnel reader_gone
goes =
    next (next here (second_closes refl))
      (back_steps (stop_reading new_pump) (read_fails refl refl refl refl) refl)

abbrev new_tunnel-IsIdle : IsIdle new_tunnel
new_tunnel-IsIdle = record { connected = refl; running = refl; read = refl; delivered = refl }

reader_close_unseen_example :
    (reader_gone.forth.is_running ≡ true) × (has_ended reader_gone ≡ false)
reader_close_unseen_example = reader_close_unseen new_tunnel-IsIdle goes refl refl
