-- ===== src/Copy/Proxy/Ends.antt =====
-- How the proxy of a copy (src/server.cpp, `Server::process_copy`) ends, whatever the source sends.
use remy.Base.{
  ℕ, zero, suc, ◌+◌, ◌-◌, ◌≤◌, ◌<◌, ◌≡◌, refl, ap, Bool, true, false, [], ◌∷◌, ◌++◌, arith, leb,
  le→leb, min, length, take, drop, inl, inr, Bool-cases, if◌then◌else◌,
}
use remy.Wire.{FileMetainfo, WatcherInfo}
use remy.Serde.Bytes.{Bytes, Recv, send_pod, recv_pod}
use remy.Serde.Containers.{send_string, recv_string}
use remy.Serde.Structs.{send_metainfo, recv_metainfo}
use remy.Server.Exec.{Exec, Outcome, ok, threw, waits, crashed, pure, resume, ◌>>=◌, ◌>>◌}
use remy.Copy.Files.{buf_size, is_reg, is_lnk, is_dir}
use remy.Copy.Proxy.{
  Environment, Proxy, msg_proxy, with_info, progress_send, update_speed, start_clock, forward_chunk,
  count_chunk, after_chunk, forward_content, forward_payload, forward_file, forward_files,
  forward_copy,
}
use remy.Copy.Proxy.Forward.Content.{Arrives}

abbrev pub IsEnded {ℓ} : {A : Type ℓ} → Outcome A → Type 0
IsEnded (ok a) = Unit {0}
IsEnded threw = Unit {0}
IsEnded waits = ⊥
IsEnded crashed = Unit {0}

-- A part of the coroutine that ends from any state.
record Ends {ℓ} {A : Type ℓ} (m : Exec Proxy A) : Type 0 where
  from : (s : Proxy) → IsEnded (m s).0

module _ {ℓ κ} {A : Type ℓ} {B : Type κ} where
  resume-IsEnded :
      (k : A → Exec Proxy B) (r : Outcome A × Proxy)
      → IsEnded r.0
      → ((a : A) → Ends (k a))
      → IsEnded (resume k r).0
  resume-IsEnded k (ok a, t) h next = (next a).from t
  resume-IsEnded k (threw, t) h next = tt
  resume-IsEnded k (waits, t) h next = h
  resume-IsEnded k (crashed, t) h next = tt

  bind-Ends :
      (m : Exec Proxy A) (k : A → Exec Proxy B) → Ends m → ((a : A) → Ends (k a)) → Ends (m >>= k)
  bind-Ends m k h next = record { from = λ s. resume-IsEnded k (m s) (h.from s) next }

  then-Ends : (m : Exec Proxy A) (n : Exec Proxy B) → Ends m → Ends n → Ends (m >> n)
  then-Ends m n h next = record { from = λ s. resume-IsEnded (λ a. n) (m s) (h.from s) (λ a. next) }

msg_proxy-Ends {ℓ} : {A : Type ℓ} (send : A → Bytes) (recv : Recv A) → Ends (msg_proxy send recv)
unfolding msg_proxy
msg_proxy-Ends send recv = record { from = λ s. ground arith }

still-Ends : (f : WatcherInfo → WatcherInfo) → Ends (with_info f)
still-Ends f = record { from = λ s. tt }

unfinished : (size f_prog : ℕ) → leb size f_prog ≡ false → 0 < min buf_size (size - f_prog)
unfinished size f_prog more = ground arith

directory-Ends :
    (dir : Bool) (size : ℕ)
    → Ends (if dir then with_info (λ w. record w { cur_progress = size }) else pure tt)
directory-Ends true size = record { from = λ s. tt }
directory-Ends false size = record { from = λ s. tt }

module _ (env : Environment) where
  start_clock-Ends : Ends (start_clock env)
  unfolding start_clock
  start_clock-Ends = record { from = λ s. tt }

  progress_send-Ends : (force : Bool) → Ends (progress_send env force)
  unfolding progress_send
  progress_send-Ends force = record { from = λ s. ground arith }

  update_speed-Ends : (start_time : ℕ) → Ends (update_speed env start_time)
  unfolding update_speed
  update_speed-Ends start_time = record { from = λ s. ground arith }

  -- A read gives a byte at least, or the connection is closed.
  chunk_then-IsEnded :
      (k : ℕ → Exec Proxy (Unit {0})) (wanted : ℕ) (s : Proxy) (input : Bytes)
      → Arrives env
      → 0 < wanted
      → s.input ≡ input
      → ((n : ℕ) → 1 ≤ n → Ends (k n))
      → IsEnded ((forward_chunk env wanted >>= k) s).0
  unfolding forward_chunk
  chunk_then-IsEnded k wanted s [] arrives some_wanted e next = rw (e, forward_chunk) tt
  chunk_then-IsEnded k wanted s (b ∷ more) arrives some_wanted e next =
      let (some_came, no_more) = arrives.at s.readings wanted some_wanted in
      let n = min (env.arrived s.readings wanted) (length s.input) in
      rw (e, forward_chunk)
        ((next n (omega (arith, some_came, ap length e))).from
          (record s { input = drop n s.input; output = s.output ++ take n s.input }))

  after_chunk-Ends :
      (next : ℕ → Exec Proxy (Unit {0})) (start_time f_prog n : ℕ)
      → Ends (next (f_prog + n))
      → Ends (after_chunk env next start_time f_prog n)
  after_chunk-Ends next start_time f_prog n h = then-Ends (count_chunk f_prog n) _ (still-Ends _) (
      then-Ends (update_speed env start_time) _ (update_speed-Ends start_time)
        (then-Ends (progress_send env false) (next (f_prog + n)) (progress_send-Ends false) h))

  content-Ends :
      (fuel start_time size f_prog : ℕ)
      → Arrives env
      → size ≤ f_prog + fuel
      → Ends (forward_content env fuel start_time size f_prog)
  unfolding forward_content
  content-Ends zero start_time size f_prog arrives enough = record {
    from = λ s. rw (le→leb size f_prog (omega (arith, enough))) tt;
  }
  content-Ends (suc fuel) start_time size f_prog arrives enough =
      elim (Bool-cases (leb size f_prog)) [
        | inl done ↦ record { from = λ s. rw done tt }
        | inr more ↦
            let others = forward_content env fuel start_time size in
            record {
              from = λ s. rw more (
                  chunk_then-IsEnded (after_chunk env others start_time f_prog)
                    (min buf_size (size - f_prog)) s s.input arrives (unfinished size f_prog more)
                    refl
                    (λ n some_came. after_chunk-Ends others start_time f_prog n (
                      content-Ends fuel start_time size (f_prog + n) arrives
                        (omega (arith, some_came, enough)))));
            }
      ]

  payload-Ends :
      (start_time : ℕ) (meta : FileMetainfo)
      → Arrives env
      → Ends (forward_payload env start_time meta)
  unfolding forward_payload
  payload-Ends start_time meta arrives = elim (Bool-cases (is_reg meta.mode)) [
    | inl reg ↦ rw reg (content-Ends meta.size start_time meta.size 0 arrives (omega arith))
    | inr other ↦ elim (Bool-cases (is_lnk meta.mode)) [
      | inl link ↦
          rw (other, link)
            (then-Ends (msg_proxy send_string recv_string) _
              (msg_proxy-Ends send_string recv_string) (still-Ends _))
      | inr plain ↦ rw (other, plain) (directory-Ends (is_dir meta.mode) meta.size)
    ]
  ]

  file-Ends : (start_time : ℕ) → Arrives env → Ends (forward_file env start_time)
  unfolding forward_file
  file-Ends start_time arrives =
      bind-Ends (msg_proxy send_metainfo recv_metainfo) _
        (msg_proxy-Ends send_metainfo recv_metainfo)
        (λ meta.
          bind-Ends (msg_proxy send_string recv_string) _ (msg_proxy-Ends send_string recv_string)
            (λ path. then-Ends _ _ (still-Ends _) (
              then-Ends (progress_send env false) _ (progress_send-Ends false) (
                then-Ends (forward_payload env start_time meta) _
                  (payload-Ends start_time meta arrives)
                  (then-Ends _ (progress_send env false) (still-Ends _)
                    (progress_send-Ends false))))))

  files-Ends : (n start_time : ℕ) → Arrives env → Ends (forward_files env n start_time)
  unfolding forward_files
  files-Ends zero start_time arrives = record { from = λ s. tt }
  files-Ends (suc n) start_time arrives =
      then-Ends (forward_file env start_time) _ (file-Ends start_time arrives)
        (files-Ends n start_time arrives)

  -- Where the watcher's channel has room and no write fails, from any state, whatever the source
  -- sends and however little, if each read finds a byte at least where the connection is not
  -- closed, the proxy ends, by a crash or otherwise: the fuel of no content's loop runs out, since
  -- each turn forwards a byte or meets a closed connection.
  pub forward_copy-Ends : (s : Proxy) → Arrives env → IsEnded (forward_copy env s).0
  unfolding forward_copy
  forward_copy-Ends s arrives =
      (bind-Ends (msg_proxy (send_pod 8) (recv_pod 8)) _ (msg_proxy-Ends (send_pod 8) (recv_pod 8))
          (λ count. then-Ends _ _ (still-Ends _) (
            bind-Ends (msg_proxy (send_pod 8) (recv_pod 8)) _
              (msg_proxy-Ends (send_pod 8) (recv_pod 8))
              (λ total. then-Ends _ _ (still-Ends _) (
                then-Ends (progress_send env true) _ (progress_send-Ends true) (
                  bind-Ends (start_clock env) _ start_clock-Ends (λ start_time.
                    then-Ends (forward_files env count start_time) _
                      (files-Ends count start_time arrives) (progress_send-Ends true)))))))).from
        s
