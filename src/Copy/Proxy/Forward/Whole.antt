-- ===== src/Copy/Proxy/Forward/Whole.antt =====
-- A whole copy through the proxy (src/server.cpp, `Server::process_copy`): the counts, and the files
-- in turn.
use remy.Base.{
  ℕ, ◌+◌, ◌^◌, ◌<◌, ◌≡◌, refl, ap, sym, ◌∙◌, true, List, [], ◌∷◌, ◌++◌, append_assoc, append-nil,
  some, arith, length, All, inl, inr, Bool-cases, if◌then◌else◌,
}
use remy.Serde.Bytes.{Bytes, Recv, RoundTrips, send_pod, recv_pod, pod-RoundTrips}
use remy.Server.Exec.{ok, ◌>>=◌, ◌>>◌, bind_ok}
use remy.Copy.Files.{SourceFile, IsSteady, is_reg}
use remy.Copy.Sender.{send_files, send_copy, total_size, total_size-lt, prepend}
use remy.Copy.Proxy.{
  Environment, Proxy, msg_proxy, progress_send, start_clock, forward_file, forward_files,
  forward_copy, new_proxy,
}
use remy.Copy.Proxy.Forward.{Passes-then, Passes-cast, Passes-rest}
use remy.Copy.Proxy.Forward.Clock.{progress_send-Passes, SkipsFirstMs}
use remy.Copy.Proxy.Forward.Content.{Arrives, nothing}
use remy.Copy.Proxy.Forward.Files.{Forwards, payload_size, payload_sizes, file_forwarded}

payload_size-meta :
    (f : SourceFile) → IsSteady f → (if is_reg f.meta.mode then f.meta.size else 0) ≡ payload_size f
payload_size-meta f steady = elim (Bool-cases (is_reg f.meta.mode)) [
  | inl reg ↦ rw reg (sym (steady.same_size reg))
  | inr other ↦ rw other refl
]

-- The announced total is that of the contents, where this fits.
total_size-payload_sizes :
    (fs : List SourceFile)
    → All IsSteady fs
    → payload_sizes fs < 2 ^ 64
    → total_size fs ≡ payload_sizes fs
unfolding total_size
total_size-payload_sizes [] steady small = refl
total_size-payload_sizes (f ∷ fs) (steady, others) small =
    rw (payload_size-meta f steady, total_size-payload_sizes fs others (omega (arith, small)))
      (omega (arith, small))

runs {ℓ} :
    {A : Type ℓ} {send : A → Bytes} {recv : Recv A} {Fits : A → Type 0}
    → RoundTrips send recv Fits
    → (s : Proxy) (a : A) (rest : Bytes) → Fits a
    → s.input ≡ send a ++ rest
    → msg_proxy send recv s ≡ (ok a, record s { input = rest; output = s.output ++ send a })
unfolding msg_proxy
runs {recv = recv} trip s a rest fits e = rw (ap recv e ∙ trip.at a rest fits, msg_proxy)

module _ (env : Environment) where
  files_forwarded :
      (start_time : ℕ) (fs : List SourceFile)
      → Arrives env
      → SkipsFirstMs env start_time
      → All IsSteady fs
      → Forwards
          (send_files fs)
          (forward_files env (length fs) start_time)
          (payload_sizes fs)
          (length fs)
  unfolding send_files forward_files
  files_forwarded start_time [] arrives skips steady =
      ([], refl, λ s rest small few e. record { end = s; run = refl; moved = nothing s rest e })
  files_forwarded start_time (f ∷ fs) arrives skips (steady, others) =
      let (bs, sent, forwarded) = file_forwarded env start_time f arrives skips steady in
      let (cs, sent_others, forwarded_others) =
        files_forwarded start_time fs arrives skips others in
      (
        bs ++ cs,
        rw (sent, send_files) (ap (prepend bs) sent_others),
        λ s rest small few e. Passes-cast _ s tt refl refl (omega arith) (
            Passes-then (forward_file env start_time) _ s tt tt
              (forwarded s (cs ++ rest) (omega (arith, small)) (omega (arith, few))
                (e ∙ append_assoc bs cs rest))
              (λ t h.
                forwarded_others t rest (omega (arith, small, h.total_progress))
                  (omega (arith, few, h.files_completed)) h.input)),
      )

  -- The state in which the loop over the files starts.
  abbrev started : Bytes → Bytes → ℕ → ℕ → Proxy
  started input output count total =
      let info = record (new_proxy []).info { files_all = count; total_size = total } in
      record {
        input = input;
        output = output;
        info = info;
        last_send = env.now 0;
        readings = 2;
        told = if env.is_alive 0 then info ∷ [] else [];
      }

  -- What comes between the announced counts and the loop reads the clock twice.
  forward_starts :
      (s : Proxy) (count : ℕ)
      → (progress_send env true
            >> (start_clock env >>= λ start_time.
                forward_files env count start_time >> progress_send env true))
          s
        ≡ (forward_files env count (env.now (s.readings + 1)) >> progress_send env true) (record s {
          last_send = env.now s.readings;
          readings = s.readings + 1 + 1;
          told = if env.is_alive s.readings then s.told ++ s.info ∷ [] else s.told;
        })
  unfolding progress_send start_clock
  forward_starts s count = refl

  forward_copy_starts :
      (count total : ℕ) (rest : Bytes)
      → count < 2 ^ 64
      → total < 2 ^ 64
      → forward_copy env (new_proxy (send_pod 8 count ++ (send_pod 8 total ++ rest)))
        ≡ (forward_files env count (env.now 1) >> progress_send env true)
            (started rest (send_pod 8 count ++ send_pod 8 total) count total)
  unfolding forward_copy
  forward_copy_starts count total rest few fits =
      bind_ok (msg_proxy (send_pod 8) (recv_pod 8)) _
        (runs (pod-RoundTrips 8) (new_proxy _) count (send_pod 8 total ++ rest) few refl)
      ∙ bind_ok (msg_proxy (send_pod 8) (recv_pod 8)) _
          (runs (pod-RoundTrips 8) _ total rest fits refl)
      ∙ forward_starts _ count

  -- If no file changes while it is sent, files and bytes are fewer than 2 ^ 64, each read finds a
  -- byte at least and no more than it wants, and the clock is not read in the millisecond after the
  -- start, then the proxy ends, it has written exactly the sender's bytes, and it has counted each
  -- file and each byte that was announced.
  pub forward_copy_lem :
      (fs : List SourceFile) (rest : Bytes)
      → Arrives env
      → SkipsFirstMs env (env.now 1)
      → All IsSteady fs
      → length fs < 2 ^ 64
      → payload_sizes fs < 2 ^ 64
      → (bs : Bytes) × (send_copy fs ≡ some bs)
        × (t : Proxy) × (forward_copy env (new_proxy (bs ++ rest)) ≡ (ok tt, t))
        × (t.output ≡ bs)
        × (t.input ≡ rest)
        × (t.info.files_all ≡ length fs)
        × (t.info.files_completed ≡ t.info.files_all)
        × (t.info.total_size ≡ payload_sizes fs)
        × (t.info.total_progress ≡ t.info.total_size)
  unfolding send_copy
  forward_copy_lem fs rest arrives skips steady few small =
      let (bs, sent, forwarded) = files_forwarded (env.now 1) fs arrives skips steady in
      let head = send_pod 8 (length fs) ++ send_pod 8 (total_size fs) in
      let start = started (bs ++ rest) head (length fs) (total_size fs) in
      let files = forwarded start rest (omega (arith, small)) (omega (arith, few)) refl in
      let ends =
        Passes-then (forward_files env (length fs) (env.now 1)) (progress_send env true) start tt tt
          files (λ t h. Passes-rest _ t tt h.input (progress_send-Passes env true t)) in
      let h = ends.moved in
      let total = total_size-payload_sizes fs steady small in
      (
        head ++ bs,
        ap (prepend head) sent,
        ends.end,
        ap (λ (i : Bytes). forward_copy env (new_proxy i)) (simp append_assoc refl)
            ∙ forward_copy_starts (length fs) (total_size fs) (bs ++ rest) few (total_size-lt fs)
            ∙ ends.run,
        h.output ∙ ap (λ (o : Bytes). head ++ o) (append-nil bs),
        h.input,
        h.files_all,
        omega (arith, h.files_completed, h.files_all),
        h.total_size ∙ total,
        omega (arith, h.total_progress, h.total_size, total),
      )
