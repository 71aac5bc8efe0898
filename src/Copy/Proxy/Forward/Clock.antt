-- ===== src/Copy/Proxy/Forward/Clock.antt =====
-- The parts of the proxy that read the clock (src/server.cpp, `Server::process_copy`): nothing goes
-- through.
use remy.Base.{
  ℕ, ◌+◌, ◌-◌, ◌*◌, ◌/◌, ◌%◌, ◌^◌, ◌≤◌, ◌≡◌, refl, sym, Bool, true, false, [], append-nil, arith,
  ◌==◌, ◌⊎◌, inl, inr, Bool-cases,
}
use remy.Server.Exec.{ok}
use remy.Copy.Proxy.{Environment, Proxy, with_info, progress_send, update_speed, start_clock}
use remy.Copy.Proxy.Forward.{Forwarded, Passes, still}

elapsed-zero : {now start : ℕ} → now ≤ start → (now - start == 0) ≡ true
elapsed-zero le = ground arith

elapsed-ms : (now start : ℕ) → start + 1_000_000 ≤ now → ((now - start) / 1_000_000 == 0) ≡ false
elapsed-ms now start le = ground arith

-- Another clock reading and another speed.
still_speed :
    (s : Proxy) (n v : ℕ)
    → Forwarded s (record s { readings = n; info = record (s.info) { speed = v } }) [] s.input 0 0
still_speed s n v = record {
  input = refl;
  output = sym (append-nil s.output);
  total_progress = omega arith;
  files_completed = omega arith;
  files_all = refl;
  total_size = refl;
}

module _ (env : Environment) where
  pub progress_send-Passes :
      (force : Bool) (s : Proxy) → Passes (progress_send env force) s tt [] s.input 0 0
  unfolding progress_send
  progress_send-Passes force s = record {
    end = (progress_send env force s).1;
    run = ground arith;
    moved = still s _ (ground arith) (ground arith) (ground arith);
  }

  pub start_clock-Passes :
      (s : Proxy) → Passes (start_clock env) s (env.now s.readings) [] s.input 0 0
  unfolding start_clock
  start_clock-Passes s = record {
    end = record s { readings = s.readings + 1 };
    run = refl;
    moved = still s _ refl refl refl;
  }

  -- No reading of the clock falls into the first millisecond after the start, but at the start
  -- itself.
  pub record SkipsFirstMs (start_time : ℕ) : Type 0 where
    pub at : (n : ℕ) → (env.now n ≤ start_time) ⊎ (start_time + 1_000_000 ≤ env.now n)

  -- The speed is written, or nothing changes.
  pub update_speed_cases :
      (start_time : ℕ) (s : Proxy)
      → SkipsFirstMs start_time
      → let t = record s { readings = s.readings + 1 } in
        let elapsed = env.now s.readings - start_time in
        (update_speed env start_time s ≡ (ok tt, t))
        ⊎ (update_speed env start_time s
            ≡ with_info
                (λ w. record w { speed = w.total_progress * 1000 % 2 ^ 64 / (elapsed / 1_000_000) })
                t)
  unfolding update_speed
  update_speed_cases start_time s skips = elim (skips.at s.readings) [
    | inl early ↦ inl (rw (elapsed-zero early, update_speed))
    | inr late ↦ elim (Bool-cases (env.now s.readings - start_time == 0)) [
      | inl is_start ↦ inl (rw (is_start, update_speed))
      | inr later ↦ inr (rw (later, elapsed-ms (env.now s.readings) start_time late, update_speed))
    ]
  ]

  pub update_speed-Passes :
      (start_time : ℕ) (s : Proxy)
      → SkipsFirstMs start_time
      → Passes (update_speed env start_time) s tt [] s.input 0 0
  update_speed-Passes start_time s skips = elim (update_speed_cases start_time s skips) [
    | inl e ↦ record {
      end = record s { readings = s.readings + 1 };
      run = e;
      moved = still s _ refl refl refl;
    }
    | inr e ↦ record { end = _; run = e; moved = still_speed s _ _ }
  ]
