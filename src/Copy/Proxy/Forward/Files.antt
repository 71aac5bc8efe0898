-- ===== src/Copy/Proxy/Forward/Files.antt =====
-- One file through the proxy (src/server.cpp, `Server::process_copy`): its metadata, its path and its
-- payload.
use remy.Base.{
  ℕ, ◌+◌, ◌^◌, ◌<◌, ◌≡◌, refl, ap, sym, ◌∙◌, Bool, true, false, List, [], ◌∷◌, ◌++◌, append_assoc,
  append-nil, Option, some, arith, length, inl, inr, Bool-cases, if◌then◌else◌,
}
use remy.Serde.Bytes.{Bytes, Recv, RoundTrips}
use remy.Serde.Containers.{send_string, recv_string, string-RoundTrips}
use remy.Serde.Structs.{send_metainfo, recv_metainfo, metainfo-RoundTrips}
use remy.Server.Exec.{Exec, pure, ◌>>◌}
use remy.Copy.Files.{SourceFile, IsSteady, is_reg, is_lnk, is_dir}
use remy.Copy.Sender.{send_payload, send_file, prepend}
use remy.Copy.Sender.Loop.{send_content_lem}
use remy.Copy.Proxy.{
  Environment, Proxy, msg_proxy, with_info, add64, progress_send, forward_payload, forward_file,
}
use remy.Copy.Proxy.Forward.{
  Passes, Passes-bind, Passes-then, Passes-cast, Passes-rest, KeepsCounts, with_info-Passes,
  msg_proxy-Passes,
}
use remy.Copy.Proxy.Forward.Clock.{progress_send-Passes, SkipsFirstMs}
use remy.Copy.Proxy.Forward.Content.{Arrives, forward_content_lem, nothing}

-- How many bytes of content the proxy counts.
abbrev pub payload_size : SourceFile → ℕ
payload_size f = if is_reg f.meta.mode then length f.content else 0

abbrev pub payload_sizes : List SourceFile → ℕ
payload_sizes [] = 0
payload_sizes (f ∷ fs) = payload_size f + payload_sizes fs

keeps_progress : (n : ℕ) → KeepsCounts (λ w. record w { cur_progress = n })
keeps_progress n = record { at = λ w. (refl, refl, refl, refl) }

payload_size-reg : (f : SourceFile) → is_reg f.meta.mode ≡ true → payload_size f ≡ length f.content
payload_size-reg f reg = rw reg refl

-- A value that fits goes through as it is.
proxied {ℓ} :
    {A : Type ℓ} {send : A → Bytes} {recv : Recv A} {Fits : A → Type 0}
    → RoundTrips send recv Fits
    → (s : Proxy) (a : A) (rest : Bytes) → Fits a
    → s.input ≡ send a ++ rest
    → Passes (msg_proxy send recv) s a (send a) rest 0 0
proxied {send = send} {recv = recv} trip s a rest fits e =
    msg_proxy-Passes send recv s a rest (ap recv e ∙ trip.at a rest fits)

link_forwarded :
    (f : SourceFile) (s : Proxy) (rest : Bytes)
    → IsSteady f
    → s.input ≡ send_string f.target ++ rest
    → Passes
        (msg_proxy send_string recv_string
          >> with_info (λ w. record w { cur_progress = f.meta.size }))
        s
        tt
        (send_string f.target)
        rest
        0
        0
link_forwarded f s rest steady e = Passes-cast _ s tt (append-nil _) refl refl (
    Passes-then (msg_proxy send_string recv_string) _ s f.target tt
      (proxied string-RoundTrips s f.target rest steady.target_fits e)
      (λ t h. Passes-rest _ t tt h.input (with_info-Passes _ t (keeps_progress f.meta.size))))

plain_forwarded :
    (dir : Bool) (size : ℕ) (s : Proxy) (rest : Bytes)
    → s.input ≡ rest
    → Passes
        (if dir then with_info (λ w. record w { cur_progress = size }) else pure tt)
        s
        tt
        []
        rest
        0
        0
plain_forwarded true size s rest e =
    Passes-rest _ s tt e (with_info-Passes _ s (keeps_progress size))
plain_forwarded false size s rest e = record { end = s; run = refl; moved = nothing s rest e }

count_file-Passes :
    (s : Proxy)
    → s.info.files_completed + 1 < 2 ^ 64
    → Passes
        (with_info (λ w. record w { files_completed = add64 w.files_completed 1 }))
        s
        tt
        []
        s.input
        0
        1
count_file-Passes s small = record {
  end = _;
  run = refl;
  moved = record {
    input = refl;
    output = sym (append-nil s.output);
    total_progress = omega arith;
    files_completed = ground arith;
    files_all = refl;
    total_size = refl;
  };
}

-- Where the sender writes bytes, a part of the proxy takes them in and passes them on, from any
-- state in which the counters have room.
abbrev pub Forwards : Option Bytes → Exec Proxy (Unit {0}) → ℕ → ℕ → Type 0
Forwards sent m x n =
    (bs : Bytes) × (sent ≡ some bs)
    × ((s : Proxy) (rest : Bytes)
        → s.info.total_progress + x < 2 ^ 64
        → s.info.files_completed + n < 2 ^ 64
        → s.input ≡ bs ++ rest
        → Passes m s tt bs rest x n)

module _ (env : Environment) where
  payload_forwarded :
      (start_time : ℕ) (f : SourceFile)
      → Arrives env
      → SkipsFirstMs env start_time
      → IsSteady f
      → Forwards (send_payload f) (forward_payload env start_time f.meta) (payload_size f) 0
  unfolding send_payload forward_payload
  payload_forwarded start_time f arrives skips steady = elim (Bool-cases (is_reg f.meta.mode)) [
    | inl reg ↦
        let size = f.meta.size in
        let whole : length f.content ≡ size = steady.same_size reg in
        (
          f.content,
          rw reg (
              send_content_lem size size 0 f.content (omega (arith, whole)) (omega (arith, whole))),
          λ s rest small few e. rw reg (
              forward_content_lem env size start_time size 0 s f.content rest arrives skips e
                (omega (arith, whole)) (omega (arith, whole))
                (omega (arith, small, payload_size-reg f reg))),
        )
    | inr other ↦ elim (Bool-cases (is_lnk f.meta.mode)) [
      | inl link ↦ (
        send_string f.target,
        rw (other, link),
        λ s rest small few e. rw (other, link) (link_forwarded f s rest steady e),
      )
      | inr plain ↦ (
        [],
        rw (other, plain),
        λ s rest small few e.
            rw (other, plain) (plain_forwarded (is_dir f.meta.mode) f.meta.size s rest e),
      )
    ]
  ]

  pub file_forwarded :
      (start_time : ℕ) (f : SourceFile)
      → Arrives env
      → SkipsFirstMs env start_time
      → IsSteady f
      → Forwards (send_file f) (forward_file env start_time) (payload_size f) 1
  unfolding send_file forward_file
  file_forwarded start_time f arrives skips steady =
      let (bs, sent, forwarded) = payload_forwarded start_time f arrives skips steady in
      (
        (send_metainfo f.meta ++ send_string f.rel_path) ++ bs,
        ap (prepend (send_metainfo f.meta ++ send_string f.rel_path)) sent,
        λ s rest small few e.
            Passes-cast _ s tt
              (ap (λ (o : Bytes). send_metainfo f.meta ++ (send_string f.rel_path ++ o))
                  (append-nil bs)
                ∙ sym (append_assoc (send_metainfo f.meta) (send_string f.rel_path) bs))
              (omega arith) (omega arith)
              (Passes-bind (msg_proxy send_metainfo recv_metainfo) _ s f.meta tt
                (proxied metainfo-RoundTrips s f.meta (send_string f.rel_path ++ (bs ++ rest))
                  steady.fits (e ∙ simp append_assoc refl))
                (λ t h.
                  Passes-bind (msg_proxy send_string recv_string) _ t f.rel_path tt
                    (proxied string-RoundTrips t f.rel_path (bs ++ rest) steady.path_fits h.input)
                    (λ u k.
                      Passes-then _ _ u tt tt
                        (Passes-rest _ u tt k.input
                          (with_info-Passes _ u (record { at = λ w. (refl, refl, refl, refl) })))
                        (λ v l.
                          Passes-then (progress_send env false) _ v tt tt
                            (Passes-rest _ v tt l.input (progress_send-Passes env false v))
                            (λ w m.
                              Passes-then (forward_payload env start_time f.meta) _ w tt tt
                                (forwarded w rest
                                  (omega (
                                    arith, small, h.total_progress, k.total_progress,
                                    l.total_progress, m.total_progress,
                                  ))
                                  (omega (
                                    arith, few, h.files_completed, k.files_completed,
                                    l.files_completed, m.files_completed,
                                  ))
                                  m.input)
                                (λ x n.
                                  Passes-then _ _ x tt tt
                                    (Passes-rest _ x tt n.input (
                                      count_file-Passes x (
                                        omega (
                                          arith, few, h.files_completed, k.files_completed,
                                          l.files_completed, m.files_completed, n.files_completed,
                                        ))))
                                    (λ y o.
                                      Passes-rest _ y tt o.input
                                        (progress_send-Passes env false y)))))))),
      )
