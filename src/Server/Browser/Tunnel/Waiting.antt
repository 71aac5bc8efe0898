-- ===== src/Server/Browser/Tunnel/Waiting.antt =====
-- When `simple_proxy` (src/server.cpp) ends, and when it does not. The host's socket is the first
-- one, that of the reader the second.
use remy.Base.{
  ℕ, ◌≤◌, ◌<◌, ◌≡◌, refl, ap, ◌∙◌, ◌⊎◌, inl, inr, Bool, true, false, [], ◌∷◌, append-nil, length,
  length-append, arith,
}
use remy.Serde.Bytes.{Bytes}
use remy.Server.Browser.Tunnel.{
  Pump, PumpStep, arrives, reads, writes, read_fails, write_fails, Tunnel, Step, forth_steps,
  back_steps, first_closes, second_closes, Reach, here, next, has_ended,
}

-- The host is connected and all that it has sent is with the reader.
pub record IsIdle (t : Tunnel) : Type 0 where
  pub connected : t.first_open ≡ true
  pub running : t.forth.is_running ≡ true
  pub read : t.forth.buf ≡ []
  pub delivered : t.forth.arrived ≡ []

-- The host has closed its socket or has sent more than `n` bytes.
abbrev HasActed : ℕ → Tunnel → Type 0
HasActed n t = (t.first_open ≡ false) ⊎ (n < length t.forth.sent)

PumpStep-sent : {s d : Bool} {p q : Pump} → PumpStep s d p q → length p.sent ≤ length q.sent
PumpStep-sent {p = p} (arrives bs o e) = rw e (omega (arith, length-append p.sent bs))
PumpStep-sent (reads n r b h k l e) = rw e (omega arith)
PumpStep-sent (writes r b e) = rw e (omega arith)
PumpStep-sent (read_fails r b o e) = rw e (omega arith)
PumpStep-sent (write_fails k r b o e) = rw e (omega arith)

Step-HasActed : {n : ℕ} {t u : Tunnel} → Step t u → HasActed n t → HasActed n u
Step-HasActed (forth_steps p s e) (inl c) = rw e (inl c)
Step-HasActed (forth_steps p s e) (inr m) = rw e (inr (omega (arith, PumpStep-sent s)))
Step-HasActed (back_steps p s e) h = rw e h
Step-HasActed (first_closes e) h = rw e (inl refl)
Step-HasActed (second_closes e) h = rw e h

abbrev Waits : ℕ → Tunnel → Type 0
Waits n t = (IsIdle t × (n ≤ length t.forth.sent)) ⊎ HasActed n t

-- Only the host's own bytes give the idle pump something to do.
PumpStep-Waits :
    {n : ℕ} (t : Tunnel) {p : Pump}
    → IsIdle t
    → n ≤ length t.forth.sent
    → PumpStep t.first_open t.second_open t.forth p
    → Waits n (record t { forth = p })
PumpStep-Waits t i m (arrives [] o e) = rw e (
    inl (
      record {
        connected = i.connected;
        running = i.running;
        read = i.read;
        delivered = append-nil t.forth.arrived ∙ i.delivered;
      },
      omega (arith, length-append t.forth.sent []),
    ))
PumpStep-Waits t i m (arrives (b ∷ bs) o e) =
    rw e (inr (inr (omega (arith, length-append t.forth.sent (b ∷ bs)))))
PumpStep-Waits t i m (reads n r b h k l e) =
    absurd (omega (arith, ap (λ (a : Bytes). length a) i.delivered))
PumpStep-Waits t i m (writes r b e) = absurd (omega (arith, ap (λ (a : Bytes). length a) i.read))
PumpStep-Waits t i m (read_fails r b o e) = cc (i.connected)
PumpStep-Waits t i m (write_fails k r b o e) =
    absurd (omega (arith, ap (λ (a : Bytes). length a) i.read))

Step-Waits : {n : ℕ} {t u : Tunnel} → Step t u → Waits n t → Waits n u
Step-Waits s (inr h) = inr (Step-HasActed s h)
Step-Waits {t = t} (forth_steps p s e) (inl (i, m)) = rw e (PumpStep-Waits t i m s)
Step-Waits (back_steps p s e) (inl (i, m)) = rw e (
    inl (
      record {
        connected = i.connected;
        running = i.running;
        read = i.read;
        delivered = i.delivered;
      },
      m,
    ))
Step-Waits (first_closes e) (inl h) = rw e (inr (inl refl))
Step-Waits (second_closes e) (inl (i, m)) = rw e (
    inl (
      record {
        connected = i.connected;
        running = i.running;
        read = i.read;
        delivered = i.delivered;
      },
      m,
    ))

Reach-Waits : {n : ℕ} {t u : Tunnel} → Waits n t → Reach t u → Waits n u
Reach-Waits h here = h
Reach-Waits h (next r s) = Step-Waits s (Reach-Waits h r)

-- Once all that the host has sent is with the reader, the proxy does not end while the host stays
-- connected and sends no more, whatever the reader does, its closing included: the reader's end does
-- not stop the other pump.
pub reader_close_unseen :
    {t u : Tunnel}
    → IsIdle t
    → Reach t u
    → u.first_open ≡ true
    → length u.forth.sent ≡ length t.forth.sent
    → (u.forth.is_running ≡ true) × (has_ended u ≡ false)
reader_close_unseen {t} {u} i r o same =
    elim (Reach-Waits {n = length t.forth.sent} (inl (i, omega arith)) r) [
      | inl (j, m) ↦ (j.running, rw j.running refl)
      | inr (inl c) ↦ cc
      | inr (inr m) ↦ absurd (omega arith)
    ]
