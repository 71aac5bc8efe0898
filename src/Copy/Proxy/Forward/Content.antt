-- ===== src/Copy/Proxy/Forward/Content.antt =====
-- The loop over the content of a regular file (src/server.cpp, `Server::process_copy`): it passes the
-- content on in chunks, whatever their sizes.
use remy.Base.{
  ℕ, zero, suc, ◌+◌, ◌-◌, ◌^◌, ◌≤◌, ◌<◌, ◌≡◌, refl, sym, false, [], ◌∷◌, ◌++◌, append-nil, arith,
  leb, le→leb, min, length, take, drop, take-append, drop-append, take-append-drop, length-drop,
  length-append,
}
use remy.Serde.Bytes.{Bytes}
use remy.Server.Exec.{Exec, ◌>>=◌, ◌>>◌}
use remy.Copy.Files.{buf_size}
use remy.Copy.Proxy.{
  Environment, Proxy, progress_send, update_speed, forward_chunk, count_chunk, after_chunk,
  forward_content,
}
use remy.Copy.Proxy.Forward.{Forwarded, Passes, Passes-bind, Passes-then, Passes-cast, Passes-rest}
use remy.Copy.Proxy.Forward.Clock.{progress_send-Passes, SkipsFirstMs, update_speed-Passes}

-- What `async_read` with `transfer_at_least(1)` promises: it ends with one byte at least, and no more
-- than were wanted.
pub record Arrives (env : Environment) : Type 0 where
  pub at :
      (n wanted : ℕ) → 0 < wanted → (1 ≤ env.arrived n wanted) × (env.arrived n wanted ≤ wanted)

lt→leb : (a b : ℕ) → b < a → leb a b ≡ false
lt→leb a b h = ground arith

within :
    (n b : ℕ) (content rest : Bytes)
    → n ≤ length (b ∷ content)
    → min n (length (b ∷ content ++ rest)) ≡ n
within n b content rest le = ground (arith, length-append content rest)

pub nothing : (s : Proxy) (rest : Bytes) → s.input ≡ rest → Forwarded s s [] rest 0 0
nothing s rest e = record {
  input = e;
  output = sym (append-nil s.output);
  total_progress = omega arith;
  files_completed = omega arith;
  files_all = refl;
  total_size = refl;
}

module _ (env : Environment) where
  forward_chunk-Passes :
      (wanted : ℕ) (s : Proxy) (b : ℕ) (content rest : Bytes)
      → let n = env.arrived s.readings wanted in
        n ≤ length (b ∷ content)
        → s.input ≡ b ∷ content ++ rest
        → Passes
            (forward_chunk env wanted)
            s
            n
            (take n (b ∷ content))
            (drop n (b ∷ content) ++ rest)
            0
            0
  unfolding forward_chunk
  forward_chunk-Passes wanted s b content rest le e =
      let n = env.arrived s.readings wanted in
      record {
        end = record s {
          input = drop n (b ∷ content) ++ rest;
          output = s.output ++ take n (b ∷ content);
        };
        run = rw (
          e,
          within n b content rest le,
          take-append n (b ∷ content) rest le,
          drop-append n (b ∷ content) rest le,
        );
        moved = record {
          input = refl;
          output = refl;
          total_progress = omega arith;
          files_completed = omega arith;
          files_all = refl;
          total_size = refl;
        };
      }

  advance-Passes :
      (cur n : ℕ) (s : Proxy)
      → s.info.total_progress + n < 2 ^ 64
      → Passes (count_chunk cur n) s tt [] s.input n 0
  advance-Passes cur n s small = record {
    end = _;
    run = refl;
    moved = record {
      input = refl;
      output = sym (append-nil s.output);
      total_progress = ground arith;
      files_completed = omega arith;
      files_all = refl;
      total_size = refl;
    };
  }

  -- One turn of the loop, whatever comes after it.
  forward_turn-Passes :
      (next : ℕ → Exec Proxy (Unit {0})) (start_time f_prog wanted : ℕ) (s : Proxy) (b : ℕ)
      (content rest : Bytes) {cs rest' : Bytes} {x : ℕ}
      → let n = env.arrived s.readings wanted in
        SkipsFirstMs env start_time
        → n ≤ length (b ∷ content)
        → s.input ≡ b ∷ content ++ rest
        → s.info.total_progress + n < 2 ^ 64
        → ((t : Proxy)
            → t.input ≡ drop n (b ∷ content) ++ rest
            → t.info.total_progress ≡ s.info.total_progress + n
            → Passes (next (f_prog + n)) t tt cs rest' x 0)
        → Passes
            (forward_chunk env wanted >>= after_chunk env next start_time f_prog)
            s
            tt
            (take n (b ∷ content) ++ cs)
            rest'
            (n + x)
            0
  forward_turn-Passes next start_time f_prog wanted s b content rest skips le e small after =
      let n = env.arrived s.readings wanted in
      let speed = update_speed env start_time in
      let send = progress_send env false in
      let more = next (f_prog + n) in
      let chunk = forward_chunk env wanted in
      let then_all = after_chunk env next start_time f_prog in
      Passes-cast (chunk >>= then_all) s tt refl (omega arith) (omega arith) (
        Passes-bind chunk then_all s n tt (forward_chunk-Passes wanted s b content rest le e)
          (λ t h.
            Passes-then (count_chunk f_prog n) (speed >> (send >> more)) t tt tt
              (Passes-rest (count_chunk f_prog n) t tt h.input
                (advance-Passes f_prog n t (omega (arith, h.total_progress, small))))
              (λ u k.
                Passes-then speed (send >> more) u tt tt
                  (Passes-rest speed u tt k.input (update_speed-Passes env start_time u skips))
                  (λ v l.
                    Passes-then send more v tt tt
                      (Passes-rest send v tt l.input (progress_send-Passes env false v))
                      (λ w m. after w m.input (
                        omega (
                          arith, h.total_progress, k.total_progress, l.total_progress,
                          m.total_progress,
                        )))))))

  -- Every chunk of a content is passed on, and the loop ends once the announced size is through.
  pub forward_content_lem :
      (fuel start_time size f_prog : ℕ) (s : Proxy) (content rest : Bytes)
      → Arrives env
      → SkipsFirstMs env start_time
      → s.input ≡ content ++ rest
      → f_prog + length content ≡ size
      → length content ≤ fuel
      → s.info.total_progress + length content < 2 ^ 64
      → Passes
          (forward_content env fuel start_time size f_prog)
          s
          tt
          content
          rest
          (length content)
          0
  unfolding forward_content
  forward_content_lem zero start_time size f_prog s [] rest arrives skips e whole enough small =
      record { end = s; run = rw (le→leb size f_prog (omega arith)); moved = nothing s rest e }
  forward_content_lem zero start_time size f_prog s (b ∷ content) rest arrives skips e whole enough
        small =
      absurd (omega arith)
  forward_content_lem (suc fuel) start_time size f_prog s [] rest arrives skips e whole enough
        small =
      record { end = s; run = rw (le→leb size f_prog (omega arith)); moved = nothing s rest e }
  forward_content_lem (suc fuel) start_time size f_prog s (b ∷ content) rest arrives skips e whole
        enough small =
      let wanted = min buf_size (size - f_prog) in
      let n = env.arrived s.readings wanted in
      let (some_came, no_more) = arrives.at s.readings wanted (omega (arith, whole)) in
      let turn =
        forward_turn-Passes (forward_content env fuel start_time size) start_time f_prog wanted s b
          content rest skips (omega (arith, no_more, whole)) e
          (omega (arith, no_more, whole, small))
          (λ t i p.
            forward_content_lem fuel start_time size (f_prog + n) t (drop n (b ∷ content)) rest
              arrives skips i (omega (arith, whole, no_more, length-drop n (b ∷ content)))
              (omega (arith, enough, some_came, length-drop n (b ∷ content)))
              (omega (arith, p, small, no_more, whole, length-drop n (b ∷ content)))) in
      Passes-cast (forward_content env (suc fuel) start_time size f_prog) s tt
        (take-append-drop n (b ∷ content))
        (omega (arith, no_more, whole, length-drop n (b ∷ content))) refl
        record {
          end = turn.end;
          run = rw (lt→leb size f_prog (omega (arith, whole))) turn.run;
          moved = turn.moved;
        }
