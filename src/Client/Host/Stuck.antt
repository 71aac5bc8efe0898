-- ===== src/Client/Host/Stuck.antt =====
-- What becomes of `BrowserHost` (src/client.cpp) when an answer cannot be written.
use remy.Base.{◌≡◌, refl, ap, ◌∙◌, false, some}
use remy.Protocol.Browser.{ReaderMsg}
use remy.Client.{FileSystem}
use remy.Client.Host.{
  running, threw, Host, has_ended, Step, asks, closes, reads, hands_over, answers, answer_fails,
  incoming_returns, Reach, here, next,
}

module _ {S : Type 0} (fs : FileSystem S) where
  -- `incoming_msg` waits in `async_send`, and no one is left to receive.
  record IsStuck (m : ReaderMsg) (h : Host S) : Type 0 where
    incoming : h.incoming ≡ running
    outcoming : h.outcoming ≡ threw
    offered : h.offered ≡ some m

  Step-IsStuck : {m : ReaderMsg} {h k : Host S} → Step fs h k → IsStuck m h → IsStuck m k
  Step-IsStuck (asks m p f e) s =
      rw e (record { incoming = s.incoming; outcoming = s.outcoming; offered = s.offered })
  Step-IsStuck (closes e) s =
      rw e (record { incoming = s.incoming; outcoming = s.outcoming; offered = s.offered })
  Step-IsStuck (reads request rest i w r e) s = cc (s.offered)
  Step-IsStuck (hands_over m i u w t e) s = cc (s.outcoming)
  Step-IsStuck (answers m i u t e) s = cc (s.outcoming)
  Step-IsStuck (answer_fails m n i u p t e) s = cc (s.outcoming)
  Step-IsStuck (incoming_returns i w p a e) s = cc (s.offered)

  Reach-IsStuck : {m : ReaderMsg} {h k : Host S} → Reach fs h k → IsStuck m h → IsStuck m k
  Reach-IsStuck here s = s
  Reach-IsStuck (next r t) s = Step-IsStuck t (Reach-IsStuck r s)

  still_runs :
      {m : ReaderMsg} {k : Host S} → k.outcoming ≡ running → k.outcoming ≡ threw → IsStuck m k
  still_runs e x = cc

  fails-IsStuck :
      {m : ReaderMsg} {h k : Host S}
      → Step fs h k
      → h.outcoming ≡ running
      → k.outcoming ≡ threw
      → h.offered ≡ some m
      → IsStuck m k
  fails-IsStuck (answer_fails n m i u p t e) v x w =
      rw e (record { incoming = i; outcoming = refl; offered = w })
  fails-IsStuck (asks n p f e) v x w = still_runs (ap (λ z. z.outcoming) e ∙ v) x
  fails-IsStuck (closes e) v x w = still_runs (ap (λ z. z.outcoming) e ∙ v) x
  fails-IsStuck (reads request rest i u r e) v x w = still_runs (ap (λ z. z.outcoming) e ∙ v) x
  fails-IsStuck (hands_over n i u q t e) v x w = still_runs (ap (λ z. z.outcoming) e ∙ v) x
  fails-IsStuck (incoming_returns i u p a e) v x w = still_runs (ap (λ z. z.outcoming) e ∙ v) x
  fails-IsStuck (answers n i u t e) v x w = still_runs (ap (λ z. z.outcoming) e) x

  -- A step in which the writing of an answer fails, while the next request waits to be handed over,
  -- leaves the host there for ever: whatever the peer does, it never ends, and the request stays
  -- where it is.
  pub unwritten_answer_hangs :
      {m : ReaderMsg} {h k l : Host S}
      → Step fs h k
      → h.outcoming ≡ running
      → k.outcoming ≡ threw
      → h.offered ≡ some m
      → Reach fs k l
      → (l.incoming ≡ running) × (l.offered ≡ some m) × (has_ended l ≡ false)
  unwritten_answer_hangs s v x w r =
      let t = Reach-IsStuck r (fails-IsStuck s v x w) in
      (t.incoming, t.offered, rw (t.incoming, t.outcoming) refl)
