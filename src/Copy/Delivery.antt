-- ===== src/Copy/Delivery.antt =====
-- A Copy operation from end to end: `CopySender::process`, `Server::process_copy` between the two,
-- and `CopyReceiver::process` (src/client.cpp, src/server.cpp).
use remy.Base.{◌^◌, ◌<◌, ◌≡◌, ap, sym, ◌∙◌, List, [], append-nil, some, length, All}
use remy.Wire.{Text}
use remy.Serde.Bytes.{Bytes}
use remy.Server.Exec.{ok}
use remy.Copy.Files.{SourceFile, IsSteady}
use remy.Copy.Sender.{send_copy}
use remy.Copy.Receiver.{recv_copy}
use remy.Copy.Receiver.Faithful.{rebuild, copy_received}
use remy.Copy.Proxy.{Environment, Proxy, new_proxy, forward_copy}
use remy.Copy.Proxy.Forward.Clock.{SkipsFirstMs}
use remy.Copy.Proxy.Forward.Content.{Arrives}
use remy.Copy.Proxy.Forward.Files.{payload_sizes}
use remy.Copy.Proxy.Forward.Whole.{forward_copy_lem}

-- If no file changes while it is sent, files and bytes are fewer than 2 ^ 64, each read of the
-- proxy finds a byte at least and no more than it wants, and its clock is not read in the
-- millisecond after the start, then sender, proxy and receiver all end, and what the receiver makes
-- of the bytes that the proxy wrote are exactly the sender's files, in order, under the
-- destination's directory.
pub copy_delivered :
    (env : Environment) (base : Text) (fs : List SourceFile)
    → Arrives env
    → SkipsFirstMs env (env.now 1)
    → All IsSteady fs
    → length fs < 2 ^ 64
    → payload_sizes fs < 2 ^ 64
    → (bs : Bytes) × (send_copy fs ≡ some bs)
      × (t : Proxy) × (forward_copy env (new_proxy bs) ≡ (ok tt, t))
      × (recv_copy base t.output ≡ some (rebuild base fs, []))
copy_delivered env base fs arrives skips steady few small =
    let (bs, sent, t, run, output, _rest, _all, _done, _size, _progress) =
      forward_copy_lem env fs [] arrives skips steady few small in
    let (bs', sent', received) = copy_received base fs [] steady few in
    (
      bs,
      sent,
      t,
      ap (λ (i : Bytes). forward_copy env (new_proxy i)) (sym (append-nil bs)) ∙ run,
      ap (recv_copy base) (output ∙ same_bytes bs bs' sent sent' ∙ sym (append-nil bs')) ∙ received,
    )
  where
    same_bytes : (bs bs' : Bytes) → send_copy fs ≡ some bs → send_copy fs ≡ some bs' → bs ≡ bs'
    same_bytes bs bs' h k = cc
