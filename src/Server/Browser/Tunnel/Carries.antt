-- ===== src/Server/Browser/Tunnel/Carries.antt =====
-- What the two pumps of `simple_proxy` (src/server.cpp) deliver.
use remy.Base.{
  ℕ, ◌≤◌, ◌≡◌, refl, sym, ap, ◌∙◌, Bool, true, [], ◌++◌, append_assoc, append-nil, ◌∷◌, length,
  take, drop, take-append-drop, length-take, length-drop, arith,
}
use remy.Serde.Bytes.{Bytes}
use remy.Server.Browser.Tunnel.{
  Pump, arrive, read, write, stop_writing, buffer_size, PumpStep, arrives, reads, writes,
  read_fails, write_fails, Tunnel, new_tunnel, Step, forth_steps, back_steps, first_closes,
  second_closes, Reach, here, next,
}

-- Every byte is delivered, or in the buffer, or still in the socket, in the order of sending.
pub record IsFaithful (p : Pump) : Type 0 where
  pub all : p.written ++ (p.buf ++ p.arrived) ≡ p.sent
  pub fits : length p.buf ≤ buffer_size

module _ (p : Pump) (f : IsFaithful p) where
  arrive-IsFaithful : (bs : Bytes) → IsFaithful (arrive bs p)
  arrive-IsFaithful bs = record {
    all =
        ap (λ t. p.written ++ t) (sym (append_assoc p.buf p.arrived bs))
        ∙ sym (append_assoc p.written (p.buf ++ p.arrived) bs)
        ∙ ap (λ t. t ++ bs) f.all;
    fits = f.fits;
  }

  read-IsFaithful : (n : ℕ) → p.buf ≡ [] → n ≤ buffer_size → IsFaithful (read n p)
  read-IsFaithful n e h = record {
    all =
        ap (λ t. p.written ++ t) (take-append-drop n p.arrived)
        ∙ ap (λ t. p.written ++ (t ++ p.arrived)) (sym e)
        ∙ f.all;
    fits = omega (arith, length-take n p.arrived);
  }

  write-IsFaithful : IsFaithful (write p)
  write-IsFaithful = record {
    all = append_assoc p.written p.buf p.arrived ∙ f.all;
    fits = omega arith;
  }

  stop_writing-IsFaithful : (k : ℕ) → IsFaithful (stop_writing k p)
  stop_writing-IsFaithful k = record {
    all =
        append_assoc p.written (take k p.buf) (drop k p.buf ++ p.arrived)
        ∙ ap (λ t. p.written ++ t) (sym (append_assoc (take k p.buf) (drop k p.buf) p.arrived))
        ∙ ap (λ t. p.written ++ (t ++ p.arrived)) (take-append-drop k p.buf)
        ∙ f.all;
    fits = omega (arith, length-drop k p.buf, f.fits);
  }

PumpStep-IsFaithful : {s d : Bool} {p q : Pump} → PumpStep s d p q → IsFaithful p → IsFaithful q
PumpStep-IsFaithful {p = p} (arrives bs o e) f = rw e (arrive-IsFaithful p f bs)
PumpStep-IsFaithful {p = p} (reads n r b h k l e) f = rw e (read-IsFaithful p f n b k)
PumpStep-IsFaithful {p = p} (writes r b e) f = rw e (write-IsFaithful p f)
PumpStep-IsFaithful (read_fails r b o e) f = rw e (record { all = f.all; fits = f.fits })
PumpStep-IsFaithful {p = p} (write_fails k r b o e) f = rw e (stop_writing-IsFaithful p f k)

Step-IsFaithful :
    {t u : Tunnel}
    → Step t u
    → IsFaithful t.forth × IsFaithful t.back
    → IsFaithful u.forth × IsFaithful u.back
Step-IsFaithful (forth_steps p s e) f = rw e (PumpStep-IsFaithful s f.0, f.1)
Step-IsFaithful (back_steps p s e) f = rw e (f.0, PumpStep-IsFaithful s f.1)
Step-IsFaithful (first_closes e) f = rw e f
Step-IsFaithful (second_closes e) f = rw e f

-- However the two pumps, the two peers and their failures interleave: in each direction what has been
-- written, what is in the buffer and what waits in the socket are, in this order, all that was sent,
-- and the buffer holds 4096 bytes at most.
pub Reach-IsFaithful : {t : Tunnel} → Reach new_tunnel t → IsFaithful t.forth × IsFaithful t.back
Reach-IsFaithful here =
    (record { all = refl; fits = omega arith }, record { all = refl; fits = omega arith })
Reach-IsFaithful (next r s) = Step-IsFaithful s (Reach-IsFaithful r)

Reach-trans : {s t u : Tunnel} → Reach s t → Reach t u → Reach s u
Reach-trans r here = r
Reach-trans r (next q s) = next (Reach-trans r q) s

abbrev forth_to : Tunnel → Pump → Tunnel
forth_to t p = record t { forth = p }

-- No peer has sent more or closed its socket, and the other pump has not moved.
abbrev pub ProxyAlone : Tunnel → Tunnel → Type 0
ProxyAlone t u =
    (u.first_open ≡ t.first_open)
    × (u.second_open ≡ t.second_open)
    × (u.forth.sent ≡ t.forth.sent)
    × (u.back ≡ t.back)

-- With an empty buffer, the pump empties its socket byte by byte.
empties :
    (a : Bytes) (t : Tunnel)
    → t.forth.arrived ≡ a
    → t.forth.is_running ≡ true
    → t.forth.buf ≡ []
    → IsFaithful t.forth
    → (u : Tunnel) × Reach t u × ProxyAlone t u × (u.forth.written ≡ t.forth.sent)
empties [] t e r b f = (
  t,
  here,
  (refl, refl, refl, refl),
  sym (append-nil t.forth.written)
      ∙ sym
          (ap (λ x. t.forth.written ++ (x ++ t.forth.arrived)) b ∙ ap (λ x. t.forth.written ++ x) e)
      ∙ f.all,
)
empties (x ∷ a) t e r b f =
    let (u, reached, alone, done) =
      empties a (forth_to t (write (read 1 t.forth))) (ap (λ l. drop 1 l) e) r refl
        (write-IsFaithful (read 1 t.forth) (read-IsFaithful t.forth f 1 b (omega arith))) in
    (
      u,
      Reach-trans
          (next
            (next here (
              forth_steps (read 1 t.forth)
                (reads 1 r b (omega arith) (omega arith) (rw e (omega arith)) refl) refl))
            (forth_steps (write (read 1 t.forth)) (writes r (rw e (omega arith)) refl) refl))
          reached,
      alone,
      done,
    )

delivers_from :
    (b : Bytes) (t : Tunnel)
    → t.forth.buf ≡ b
    → t.forth.is_running ≡ true
    → IsFaithful t.forth
    → (u : Tunnel) × Reach t u × ProxyAlone t u × (u.forth.written ≡ t.forth.sent)
delivers_from [] t e r f = empties t.forth.arrived t refl r e f
delivers_from (x ∷ b) t e r f =
    let (u, reached, alone, done) =
      empties t.forth.arrived (forth_to t (write t.forth)) refl r refl
        (write-IsFaithful t.forth f) in
    (
      u,
      Reach-trans
          (next here (forth_steps (write t.forth) (writes r (rw e (omega arith)) refl) refl))
          reached,
      alone,
      done,
    )

-- Whatever has happened before: while the pump from the first socket to the second runs, steps in
-- which no peer sends or closes, and the other pump stands still, can bring all that the first peer
-- has sent to the second.
pub can_deliver :
    {t : Tunnel}
    → Reach new_tunnel t
    → t.forth.is_running ≡ true
    → (u : Tunnel) × Reach t u × ProxyAlone t u × (u.forth.written ≡ t.forth.sent)
can_deliver {t} r running = delivers_from t.forth.buf t refl running (Reach-IsFaithful r).0
