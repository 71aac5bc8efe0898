-- ===== src/Copy/Proxy/Forward.antt =====
-- The proxy passes on exactly what it is sent, and counts it.
pub mod Clock
pub mod Content
pub mod Files
pub mod Whole
use remy.Base.{
  ℕ, zero, suc, ◌+◌, ◌-◌, ◌*◌, ◌/◌, ◌%◌, ◌^◌, ◌≤◌, ◌<◌, ◌≡◌, ◌≢◌, refl, ap, sym, ◌∙◌, Bool, true,
  false, ◌||◌, List, [], ◌∷◌, ◌++◌, append_assoc, append-nil, Option, none, some, arith, ltb, ◌==◌,
  if◌then◌else◌, length, ◌⊎◌, inl, inr, Bool-cases,
}
use remy.Wire.{WatcherInfo}
use remy.Serde.Bytes.{Bytes, Recv}
use remy.Server.Exec.{Exec, Outcome, ok, threw, waits, crashed, pure, ◌>>=◌, ◌>>◌, bind_ok, then_ok}
use remy.Copy.Proxy.{
  Environment, Proxy, msg_proxy, with_info, progress_send, update_speed, start_clock,
}

-- From one state to a later one: the bytes that went through, what is left to read, and how far the
-- two counters have risen. The announced totals stay.
pub record Forwarded (s t : Proxy) (bs rest : Bytes) (bytes files : ℕ) : Type 0 where
  pub input : t.input ≡ rest
  pub output : t.output ≡ s.output ++ bs
  pub total_progress : t.info.total_progress ≡ s.info.total_progress + bytes
  pub files_completed : t.info.files_completed ≡ s.info.files_completed + files
  pub files_all : t.info.files_all ≡ s.info.files_all
  pub total_size : t.info.total_size ≡ s.info.total_size

pub Forwarded-trans :
    {s t u : Proxy} {bs cs rest rest' : Bytes} {b b' f f' : ℕ}
    → Forwarded s t bs rest b f
    → Forwarded t u cs rest' b' f'
    → Forwarded s u (bs ++ cs) rest' (b + b') (f + f')
Forwarded-trans {s} {t} {u} {bs} {cs} h k = record {
  input = k.input;
  output = k.output ∙ ap (λ (o : Bytes). o ++ cs) h.output ∙ append_assoc s.output bs cs;
  total_progress = omega (arith, h.total_progress, k.total_progress);
  files_completed = omega (arith, h.files_completed, k.files_completed);
  files_all = k.files_all ∙ h.files_all;
  total_size = k.total_size ∙ h.total_size;
}

-- A coroutine's part that ends with a value, and forwards.
pub record Passes {ℓ} {A : Type ℓ} (m : Exec Proxy A) (s : Proxy) (a : A) (bs rest : Bytes)
    (bytes files : ℕ) : Type ℓ where
  pub end : Proxy
  pub run : m s ≡ (ok a, end)
  pub moved : Forwarded s end bs rest bytes files

module _ {ℓ κ} {A : Type ℓ} {B : Type κ} where
  pub Passes-bind :
      (m : Exec Proxy A) (k : A → Exec Proxy B) (s : Proxy) (a : A) (b : B)
      {bs cs rest rest' : Bytes} {x x' f f' : ℕ}
      → Passes m s a bs rest x f
      → ((t : Proxy) → Forwarded s t bs rest x f → Passes (k a) t b cs rest' x' f')
      → Passes (m >>= k) s b (bs ++ cs) rest' (x + x') (f + f')
  Passes-bind m k s a b p next =
      let q = next p.end p.moved in
      record {
        end = q.end;
        run = bind_ok m k p.run ∙ q.run;
        moved = Forwarded-trans p.moved q.moved;
      }

  pub Passes-then :
      (m : Exec Proxy A) (n : Exec Proxy B) (s : Proxy) (a : A) (b : B) {bs cs rest rest' : Bytes}
      {x x' f f' : ℕ}
      → Passes m s a bs rest x f
      → ((t : Proxy) → Forwarded s t bs rest x f → Passes n t b cs rest' x' f')
      → Passes (m >> n) s b (bs ++ cs) rest' (x + x') (f + f')
  Passes-then m n s a b p next =
      let q = next p.end p.moved in
      record {
        end = q.end;
        run = then_ok m n p.run ∙ q.run;
        moved = Forwarded-trans p.moved q.moved;
      }

-- The numbers and the bytes of a `Passes`, up to equations.
pub Passes-cast {ℓ} :
    {A : Type ℓ} (m : Exec Proxy A) (s : Proxy) (a : A) {bs cs rest : Bytes} {x y f g : ℕ}
    → bs ≡ cs
    → x ≡ y
    → f ≡ g
    → Passes m s a bs rest x f
    → Passes m s a cs rest y g
Passes-cast m s a p q r was =
    let h = was.moved in
    record {
      end = was.end;
      run = was.run;
      moved = record {
        input = h.input;
        output = h.output ∙ ap (λ (o : Bytes). s.output ++ o) p;
        total_progress = omega (arith, h.total_progress, q);
        files_completed = omega (arith, h.files_completed, r);
        files_all = h.files_all;
        total_size = h.total_size;
      };
    }

-- The input that is left, up to an equation.
pub Passes-rest {ℓ} :
    {A : Type ℓ} (m : Exec Proxy A) (s : Proxy) (a : A) {bs rest : Bytes} {x f : ℕ}
    → s.input ≡ rest
    → Passes m s a bs s.input x f
    → Passes m s a bs rest x f
Passes-rest m s a p was =
    let h = was.moved in
    record {
      end = was.end;
      run = was.run;
      moved = record {
        input = h.input ∙ p;
        output = h.output;
        total_progress = h.total_progress;
        files_completed = h.files_completed;
        files_all = h.files_all;
        total_size = h.total_size;
      };
    }

-- A change of `info` that leaves the counters and totals.
pub record KeepsCounts (f : WatcherInfo → WatcherInfo) : Type 0 where
  pub at :
      (w : WatcherInfo)
      → ((f w).total_progress ≡ w.total_progress)
        × ((f w).files_completed ≡ w.files_completed)
        × ((f w).files_all ≡ w.files_all)
        × ((f w).total_size ≡ w.total_size)

-- Nothing goes through.
pub still :
    (s t : Proxy)
    → t.input ≡ s.input
    → t.output ≡ s.output
    → t.info ≡ s.info
    → Forwarded s t [] s.input 0 0
still s t i o e = record {
  input = i;
  output = o ∙ sym (append-nil s.output);
  total_progress = ap (λ (w : WatcherInfo). w.total_progress) e ∙ omega arith;
  files_completed = ap (λ (w : WatcherInfo). w.files_completed) e ∙ omega arith;
  files_all = ap (λ (w : WatcherInfo). w.files_all) e;
  total_size = ap (λ (w : WatcherInfo). w.total_size) e;
}

pub with_info-Passes :
    (f : WatcherInfo → WatcherInfo) (s : Proxy)
    → KeepsCounts f
    → Passes (with_info f) s tt [] s.input 0 0
with_info-Passes f s keep =
    let (p, c, a, z) = keep.at s.info in
    record {
      end = record s { info = f s.info };
      run = refl;
      moved = record {
        input = refl;
        output = sym (append-nil s.output);
        total_progress = omega (arith, p);
        files_completed = omega (arith, c);
        files_all = a;
        total_size = z;
      };
    }

pub msg_proxy-Passes {ℓ} :
    {A : Type ℓ} (send : A → Bytes) (recv : Recv A) (s : Proxy) (a : A) (rest : Bytes)
    → recv s.input ≡ some (a, rest)
    → Passes (msg_proxy send recv) s a (send a) rest 0 0
unfolding msg_proxy
msg_proxy-Passes send recv s a rest e = record {
  end = record s { input = rest; output = s.output ++ send a };
  run = rw (e, msg_proxy);
  moved = record {
    input = refl;
    output = refl;
    total_progress = omega arith;
    files_completed = omega arith;
    files_all = refl;
    total_size = refl;
  };
}
