-- ===== src/Copy/Proxy/Crash.antt =====
-- The speed of a copy (src/server.cpp, `Server::process_copy`) in the first millisecond.
use remy.Base.{
  ℕ, suc, ◌+◌, ◌-◌, ◌<◌, ◌≡◌, refl, ap, ◌∙◌, false, ◌∷◌, ◌++◌, arith, leb, min, length, take, drop,
}
use remy.Serde.Bytes.{Bytes}
use remy.Server.Exec.{Outcome, ok, crashed, resume, ◌>>◌, bind_ok}
use remy.Copy.Files.{buf_size}
use remy.Copy.Proxy.{
  Environment, Proxy, add64, progress_send, update_speed, forward_chunk, after_chunk,
  forward_content,
}

not_through : (size f_prog : ℕ) → f_prog < size → leb size f_prog ≡ false
not_through size f_prog unsent = ground arith

module _ (env : Environment) where
  update_speed_crash :
      (start_time : ℕ) (s : Proxy)
      → start_time < env.now s.readings
      → env.now s.readings < start_time + 1_000_000
      → update_speed env start_time s ≡ (crashed, record s { readings = s.readings + 1 })
  unfolding update_speed
  update_speed_crash start_time s late early = ground arith

  chunk_runs :
      (wanted b : ℕ) (s : Proxy) (more : Bytes)
      → s.input ≡ b ∷ more
      → let n = min (env.arrived s.readings wanted) (length s.input) in
        forward_chunk env wanted s
        ≡ (ok n, record s { input = drop n s.input; output = s.output ++ take n s.input })
  unfolding forward_chunk
  chunk_runs wanted b s more e = rw (e, forward_chunk) (rw e refl)

  -- If a chunk of a file is through within the first millisecond after the start, but not at its very
  -- instant, the division by the elapsed milliseconds is by zero, and nothing catches it.
  pub early_chunk_crashes :
      (fuel start_time size f_prog b : ℕ) (s : Proxy) (more : Bytes)
      → f_prog < size
      → s.input ≡ b ∷ more
      → start_time < env.now s.readings
      → env.now s.readings < start_time + 1_000_000
      → (forward_content env (suc fuel) start_time size f_prog s).0 ≡ crashed
  unfolding forward_content
  early_chunk_crashes fuel start_time size f_prog b s more unsent e late early =
      let wanted = min buf_size (size - f_prog) in
      let n = min (env.arrived s.readings wanted) (length s.input) in
      let info = record s.info {
        cur_progress = f_prog + n;
        total_progress = add64 s.info.total_progress n;
      } in
      let t = record s {
        input = drop n s.input;
        output = s.output ++ take n s.input;
        info = info;
      } in
      let others = forward_content env fuel start_time size in
      rw (not_through size f_prog unsent) (
        ap (λ (r : Outcome (Unit {0}) × Proxy). r.0)
          (bind_ok (forward_chunk env wanted) (after_chunk env others start_time f_prog)
              (chunk_runs wanted b s more e)
            ∙ ap (resume (λ a. progress_send env false >> others (f_prog + n)))
                (update_speed_crash start_time t late early)))
