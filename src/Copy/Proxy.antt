-- ===== src/Copy/Proxy.antt =====
-- `Server::process_copy` (src/server.cpp) after the handshake: it forwards what the source sends to
-- the destination, counts, and tells the watcher. The clock, the watcher's life and how much of what
-- has been sent a read finds are the environment's.
pub mod Ends
pub mod Crash
pub mod Forward
use remy.Base.{
  ℕ, zero, suc, ◌+◌, ◌-◌, ◌*◌, ◌/◌, ◌%◌, ◌^◌, Bool, true, false, ◌||◌, List, [], ◌∷◌, ◌++◌, Option,
  none, some, leb, ltb, min, ◌==◌, if◌then◌else◌, length, take, drop, map,
}
use remy.Wire.{Text, FileMetainfo, WatcherInfo}
use remy.Serde.Bytes.{Bytes, Recv, send_pod, recv_pod}
use remy.Serde.Containers.{send_string, recv_string}
use remy.Serde.Structs.{send_metainfo, recv_metainfo}
use remy.Copy.Files.{is_reg, is_lnk, is_dir, buf_size}
use remy.Server.Exec.{Exec, Outcome, ok, threw, waits, crashed, pure, throw, ◌>>=◌, ◌>>◌}

-- `now n` is the `n`-th reading of the steady clock, in nanoseconds; `arrived n wanted` the bytes
-- that a read of at most `wanted` finds; `is_alive n` whether `watcher.lock()` then gives the
-- client.
pub record Environment : Type 0 where
  pub now : ℕ → ℕ
  pub arrived : ℕ → ℕ → ℕ
  pub is_alive : ℕ → Bool

-- The coroutine's variables: the two sockets, `info`, `last_send`, the readings so far, and what the
-- watcher has been sent.
pub record Proxy : Type 0 where
  pub input : Bytes
  pub output : Bytes
  pub info : WatcherInfo
  pub last_send : ℕ
  pub readings : ℕ
  pub told : List WatcherInfo

unfoldable pub msg_proxy {ℓ} : {A : Type ℓ} → (A → Bytes) → Recv A → Exec Proxy A
msg_proxy send recv s = elim (recv s.input) [
  | none ↦ (threw, s)
  | some (value, rest) ↦ (ok value, record s { input = rest; output = s.output ++ send value })
]

abbrev pub with_info : (WatcherInfo → WatcherInfo) → Exec Proxy (Unit {0})
with_info f s = (ok tt, record s { info = f s.info })

-- uint64_t
abbrev pub add64 : ℕ → ℕ → ℕ
add64 a b = (a + b) % 2 ^ 64

abbrev pub count_chunk : ℕ → ℕ → Exec Proxy (Unit {0})
count_chunk f_prog read_size = with_info (λ w. record w {
  cur_progress = f_prog + read_size;
  total_progress = add64 w.total_progress read_size;
})

module _ (env : Environment) where
  open env use {now, arrived, is_alive}

  -- The lambda `progress_send`; 250 ms are 250,000,000 ns. The watcher's channel has room here:
  -- where it is full, the source waits for the watcher's own coroutine.
  unfoldable pub progress_send : Bool → Exec Proxy (Unit {0})
  progress_send force_send s =
      let cur_time = now s.readings in
      let t = record s { readings = s.readings + 1 } in
      if force_send || ltb 250_000_000 (cur_time - s.last_send)
      then (
        ok tt,
        record t {
          last_send = cur_time;
          told = if is_alive s.readings then s.told ++ s.info ∷ [] else s.told;
        },
      )
      else (ok tt, t)

  -- Bytes per second, from the milliseconds since the start. An elapsed time below one millisecond is
  -- cast to 0 milliseconds, by which the code divides.
  unfoldable pub update_speed : ℕ → Exec Proxy (Unit {0})
  update_speed start_time s =
      let elapsed = now s.readings - start_time in
      let t = record s { readings = s.readings + 1 } in
      if elapsed == 0
      then (ok tt, t)
      else if elapsed / 1_000_000 == 0
      then (crashed, t)
      else with_info
          (λ w. record w { speed = w.total_progress * 1000 % 2 ^ 64 / (elapsed / 1_000_000) }) t

  -- async_read with transfer_at_least(1), then async_write of what came, to a destination that is
  -- there.
  unfoldable pub forward_chunk : ℕ → Exec Proxy ℕ
  forward_chunk wanted s = elim s.input [
    | [] ↦ (threw, s)
    | b ∷ more ↦
        let n = min (arrived s.readings wanted) (length s.input) in
        (ok n, record s { input = drop n s.input; output = s.output ++ take n s.input })
  ]

  -- What the loop does once a chunk is through; `next` are the turns that follow.
  abbrev pub after_chunk : (ℕ → Exec Proxy (Unit {0})) → ℕ → ℕ → ℕ → Exec Proxy (Unit {0})
  after_chunk next start_time f_prog read_size =
      count_chunk f_prog read_size
      >> (update_speed start_time >> (progress_send false >> next (f_prog + read_size)))

  -- for (f_prog = 0; f_prog < meta.size;) { … }, on fuel.
  unfoldable pub forward_content : ℕ → ℕ → ℕ → ℕ → Exec Proxy (Unit {0})
  forward_content zero start_time size f_prog s = if leb size f_prog then (ok tt, s) else (waits, s)
  forward_content (suc fuel) start_time size f_prog s =
      let next = forward_content fuel start_time size in
      let turn =
        forward_chunk (min buf_size (size - f_prog)) >>= after_chunk next start_time f_prog in
      if leb size f_prog then (ok tt, s) else turn s

  -- The three kinds of files; any other has no payload.
  unfoldable pub forward_payload : ℕ → FileMetainfo → Exec Proxy (Unit {0})
  forward_payload start_time meta =
      if is_reg meta.mode
      then forward_content meta.size start_time meta.size 0
      else if is_lnk meta.mode
      then msg_proxy send_string recv_string
        >> with_info (λ w. record w { cur_progress = meta.size })
      else if is_dir meta.mode
      then with_info (λ w. record w { cur_progress = meta.size })
      else pure tt

  unfoldable pub forward_file : ℕ → Exec Proxy (Unit {0})
  forward_file start_time = do
    meta ← msg_proxy send_metainfo recv_metainfo
    path ← msg_proxy send_string recv_string
    with_info (λ w. record w { cur_file = path; cur_size = meta.size; cur_progress = 0 })
    progress_send false
    forward_payload start_time meta
    with_info (λ w. record w { files_completed = add64 w.files_completed 1 })
    progress_send false

  -- The loop over the files, on the number of those that are left.
  unfoldable pub forward_files : ℕ → ℕ → Exec Proxy (Unit {0})
  forward_files zero start_time = pure tt
  forward_files (suc n) start_time =
      let others = forward_files n start_time in forward_file start_time >> others

  -- auto start_time = std::chrono::steady_clock::now()
  unfoldable pub start_clock : Exec Proxy ℕ
  start_clock s = (ok (now s.readings), record s { readings = s.readings + 1 })

  unfoldable pub forward_copy : Exec Proxy (Unit {0})
  forward_copy = do
    files_count ← msg_proxy (send_pod 8) (recv_pod 8)
    with_info (λ w. record w { files_all = files_count })
    total ← msg_proxy (send_pod 8) (recv_pod 8)
    with_info (λ w. record w { total_size = total })
    progress_send true
    start_time ← start_clock
    forward_files files_count start_time
    progress_send true

-- The coroutine's variables after the handshake: `WatcherInfo{}`, and `last_send` at the clock's
-- epoch.
abbrev pub new_proxy : Bytes → Proxy
new_proxy input = record {
  input = input;
  output = [];
  info = record {
    files_all = 0;
    files_completed = 0;
    total_size = 0;
    total_progress = 0;
    cur_file = [];
    cur_size = 0;
    cur_progress = 0;
    speed = 0;
  };
  last_send = 0;
  readings = 0;
  told = [];
}

-- The end of the coroutine: an exception is caught, and the watcher is told `nullopt`.
unfoldable pub finish_copy : Environment → Outcome (Unit {0}) × Proxy → List (Option WatcherInfo)
finish_copy env (ok _, s) = map some s.told
finish_copy env (threw, s) = map some s.told ++ (if env.is_alive s.readings then none ∷ [] else [])
finish_copy env (waits, s) = map some s.told
finish_copy env (crashed, s) = map some s.told
