-- ===== src/Server/Browser/Tunnel.antt =====
-- `simple_proxy` (src/server.cpp): the server carries bytes between the two sockets of a Browser
-- connection, in both directions at once, by two coroutines joined with `||`. How their steps and
-- the peers' interleave is free, so it is a step relation.
pub mod Carries
pub mod Waiting
use remy.Base.{ℕ, ◌≤◌, ◌<◌, ◌≡◌, Bool, true, false, not, ◌&&◌, [], ◌++◌, length, take, drop}
use remy.Serde.Bytes.{Bytes}

-- One direction: the lambda `proxy`. `arrived` is in the socket `src` and not read, `buf` is read and
-- not written, `written` is what `dst` has been given. `sent` is all that the source's peer has sent.
pub record Pump : Type 0 where
  pub sent : Bytes
  pub arrived : Bytes
  pub buf : Bytes
  pub written : Bytes
  pub is_running : Bool

-- std::vector<char> buf(4096)
abbrev pub buffer_size : ℕ
buffer_size = 4096

abbrev pub new_pump : Pump
new_pump = record { sent = []; arrived = []; buf = []; written = []; is_running = true }

abbrev pub arrive : Bytes → Pump → Pump
arrive bs p = record p { sent = p.sent ++ bs; arrived = p.arrived ++ bs }

-- asio::async_read(src, buf, transfer_at_least(1)) ends with `n` bytes.
abbrev pub read : ℕ → Pump → Pump
read n p = record p { arrived = drop n p.arrived; buf = take n p.arrived }

-- asio::async_write(dst, buf, size)
abbrev pub write : Pump → Pump
write p = record p { buf = []; written = p.written ++ p.buf }

-- An exception ends the pump; a write that fails may have written `k` bytes of the buffer.
abbrev pub stop_reading : Pump → Pump
stop_reading p = record p { is_running = false }

abbrev pub stop_writing : ℕ → Pump → Pump
stop_writing k p = record p {
  buf = drop k p.buf;
  written = p.written ++ take k p.buf;
  is_running = false;
}

-- A read fails only when the peer of `src` is gone, a write only when that of `dst` is.
pub data PumpStep (src_open : Bool) (dst_open : Bool) (p : Pump) (q : Pump) : Type 0 where
  arrives : (bs : Bytes) → src_open ≡ true → q ≡ arrive bs p → PumpStep src_open dst_open p q
  reads :
      (n : ℕ)
      → p.is_running ≡ true
      → p.buf ≡ []
      → 0 < n
      → n ≤ buffer_size
      → n ≤ length p.arrived
      → q ≡ read n p
      → PumpStep src_open dst_open p q
  writes : p.is_running ≡ true → 0 < length p.buf → q ≡ write p → PumpStep src_open dst_open p q
  read_fails :
      p.is_running ≡ true
      → p.buf ≡ []
      → src_open ≡ false
      → q ≡ stop_reading p
      → PumpStep src_open dst_open p q
  write_fails :
      (k : ℕ)
      → p.is_running ≡ true
      → 0 < length p.buf
      → dst_open ≡ false
      → q ≡ stop_writing k p
      → PumpStep src_open dst_open p q

-- `forth` carries from the first peer to the second.
pub record Tunnel : Type 0 where
  pub first_open : Bool
  pub second_open : Bool
  pub forth : Pump
  pub back : Pump

abbrev pub new_tunnel : Tunnel
new_tunnel = record { first_open = true; second_open = true; forth = new_pump; back = new_pump }

pub data Step (t : Tunnel) (u : Tunnel) : Type 0 where
  forth_steps :
      (p : Pump)
      → PumpStep t.first_open t.second_open t.forth p
      → u ≡ record t { forth = p }
      → Step t u
  back_steps :
      (p : Pump)
      → PumpStep t.second_open t.first_open t.back p
      → u ≡ record t { back = p }
      → Step t u
  first_closes : u ≡ record t { first_open = false } → Step t u
  second_closes : u ≡ record t { second_open = false } → Step t u

pub data Reach (s : Tunnel) : Tunnel → Type 0 where
  here : Reach s s
  next : {t u : Tunnel} → Reach s t → Step t u → Reach s u

-- `||` waits for one operation to succeed. A pump never returns, so `simple_proxy` ends when both
-- have thrown, and an exception in one does not cancel the other.
abbrev pub has_ended : Tunnel → Bool
has_ended t = not t.forth.is_running && not t.back.is_running
