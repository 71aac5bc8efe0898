-- ===== src/Client/Net/Locked/Deadlock.antt =====
-- A connection that ends while the user interface waits for its reader (src/client.cpp).
use remy.Base.{
  ◌≡◌, refl, arith, ap, subst, ◌∙◌, Bool, true, false, Option, none, some, if◌then◌else◌,
}
use remy.Protocol.Control.{
  ServerMsg, client_id, client_name, clients_list, browser_connected, connect_browser_request,
  copy_source, copy_destination, watcher_info,
}
use remy.Protocol.Browser.{ReaderMsg, HostMsg, path_dents, delete_response, mkdir_response}
use remy.Server.Exec.{ok, waits}
use remy.View.Events.{Event, posted_error}
use remy.Client.Net.{Reader, Net, reader_of, post}
use remy.Client.Net.Control.{handle_server_msg, browser_refused, pane_of}
use remy.Client.Net.Readers.{
  ReadEnd, operation_canceled, other_error, exception, with_reader, on_reader, reader_connected,
  handle_host_msg, incoming_ends, hand_over, ask_host, outcoming_next,
}
use remy.Client.Net.Panes.{reader_of-post}
use remy.Client.Net.Locked.{
  Threads, with_net, Step, asks, begins_to_send, sends, tries, receives_server_msg, starts_reader,
  connects, receives_host_msg, stops_reading, waits_again, ends_reader, Reach, here, next,
}

-- The pane has a reader whose channel is closed.
abbrev pub IsClosed : Bool → Net → Type 0
IsClosed pane net = (r : Reader) × (reader_of pane net ≡ some r) × (r.requests_open ≡ false)

post-IsClosed :
    (pane : Bool) (event : Event) (net : Net) → IsClosed pane net → IsClosed pane (post event net)
post-IsClosed false event net h = h
post-IsClosed true event net h = h

same_shut :
    (q r : Reader) {o : Option Reader}
    → o ≡ some q
    → o ≡ some r
    → q.requests_open ≡ false
    → r.requests_open ≡ false
same_shut q r e h shut = cc

with_reader-IsClosed :
    (pane other : Bool) (f : Reader → Reader) (o : Option Reader) (net : Net)
    → ((r : Reader) → r.requests_open ≡ false → (f r).requests_open ≡ false)
    → reader_of other net ≡ o
    → IsClosed pane net
    → IsClosed pane (with_reader other f o net)
with_reader-IsClosed pane other f none net keep e h = h
with_reader-IsClosed false false f (some r) net keep e (q, there, shut) =
    (f r, refl, keep r (same_shut q r there e shut))
with_reader-IsClosed false true f (some r) net keep e h = h
with_reader-IsClosed true false f (some r) net keep e h = h
with_reader-IsClosed true true f (some r) net keep e (q, there, shut) =
    (f r, refl, keep r (same_shut q r there e shut))

on_reader-IsClosed :
    (pane other : Bool) (f : Reader → Reader) (net : Net)
    → ((r : Reader) → r.requests_open ≡ false → (f r).requests_open ≡ false)
    → IsClosed pane net
    → IsClosed pane (on_reader other f net)
on_reader-IsClosed pane other f net keep h =
    with_reader-IsClosed pane other f (reader_of other net) net keep refl h

server_msg-IsClosed :
    (pane : Bool) (m : ServerMsg) (net : Net)
    → IsClosed pane net
    → IsClosed pane (handle_server_msg m net)
unfolding handle_server_msg browser_refused pane_of
server_msg-IsClosed false (client_id id) net h = h
server_msg-IsClosed true (client_id id) net h = h
server_msg-IsClosed pane (client_name name) net h = post-IsClosed pane _ net h
server_msg-IsClosed pane (clients_list list) net h = post-IsClosed pane _ net h
server_msg-IsClosed false (browser_connected token (some server_token)) net h = h
server_msg-IsClosed true (browser_connected token (some server_token)) net h = h
server_msg-IsClosed false (browser_connected token none) net h = h
server_msg-IsClosed true (browser_connected token none) net h = h
server_msg-IsClosed false (connect_browser_request server_token) net h = h
server_msg-IsClosed true (connect_browser_request server_token) net h = h
server_msg-IsClosed false (copy_source token path dentries) net h = h
server_msg-IsClosed true (copy_source token path dentries) net h = h
server_msg-IsClosed false (copy_destination token path) net h = h
server_msg-IsClosed true (copy_destination token path) net h = h
server_msg-IsClosed pane (watcher_info info) net h = post-IsClosed pane _ net h

host_msg-IsClosed :
    (pane other : Bool) (m : HostMsg) (net : Net)
    → IsClosed pane net
    → IsClosed pane (handle_host_msg other m net)
unfolding handle_host_msg
host_msg-IsClosed pane other (path_dents payload) net h = post-IsClosed pane _ net h
host_msg-IsClosed pane other (delete_response msg) net h = post-IsClosed pane _ net h
host_msg-IsClosed pane other (mkdir_response msg) net h = post-IsClosed pane _ net h

ends-IsClosed :
    (pane other : Bool) (end : ReadEnd) (net : Net)
    → IsClosed pane net
    → IsClosed pane (incoming_ends other end net)
unfolding incoming_ends
ends-IsClosed pane other operation_canceled net h =
    on_reader-IsClosed pane other _ net (λ r e. refl) h
ends-IsClosed pane other other_error net h =
    on_reader-IsClosed pane other _ (post _ net) (λ r e. refl) (post-IsClosed pane _ net h)
ends-IsClosed pane other exception net h =
    on_reader-IsClosed pane other _ (post _ net) (λ r e. refl) (post-IsClosed pane _ net h)

next-keeps :
    (r : Reader)
    → r.requests_open ≡ false
    → (if r.requests_open
        then record r { receiving = true }
        else record r { receiving = false; socket_open = false }).requests_open
      ≡ false
next-keeps r e = ground (arith, e)

shut_waits :
    (pane : Bool) (m : ReaderMsg) (r : Reader) (net : Net)
    → r.requests_open ≡ false
    → hand_over pane m (some r) net ≡ (waits, net)
shut_waits pane m r net shut = ground (arith, shut)

-- No attempt succeeds on a closed channel.
refuses :
    (pane : Bool) (m : ReaderMsg) (net after : Net)
    → IsClosed pane net
    → ask_host pane m net ≡ (ok tt, after)
    → ⊥
unfolding ask_host
refuses pane m net after (r, there, shut) e =
    let waiting : ask_host pane m net ≡ (waits, net) =
      ap (λ o. hand_over pane m o net) there ∙ shut_waits pane m r net shut in
    cc

-- The thread of the user interface waits for a reader whose channel is closed.
pub record IsStuck (pane : Bool) (m : ReaderMsg) (t : Threads) : Type 0 where
  pub sending : t.sending ≡ some (pane, m)
  pub closed : IsClosed pane t.net

busy :
    (t : Threads) {pane : Bool} {m : ReaderMsg} → t.sending ≡ some (pane, m) → t.sending ≡ none → ⊥
busy t h e = cc

to_net :
    (pane : Bool) (m : ReaderMsg) (t u : Threads) (net : Net)
    → IsStuck pane m t
    → u ≡ with_net t net
    → IsClosed pane net
    → IsStuck pane m u
to_net pane m t u net h e closed = rw e (record { sending = h.sending; closed = closed })

Step-IsStuck :
    (pane : Bool) (m : ReaderMsg) {t u : Threads} → Step t u → IsStuck pane m t → IsStuck pane m u
unfolding reader_connected outcoming_next
Step-IsStuck pane m {t} (asks p n net free run e) h = absurd (busy t h.sending free)
Step-IsStuck pane m {t} (begins_to_send p n free run e) h = absurd (busy t h.sending free)
Step-IsStuck pane m {t} (sends p n net at run e) h =
    let same : pane ≡ p = cc in
    absurd (refuses p n t.net net (subst (λ b. IsClosed b t.net) same h.closed) run)
Step-IsStuck pane m (tries p n at run e) h = rw e h
Step-IsStuck pane m {t} {u} (receives_server_msg n l e) h =
    to_net pane m t u _ h e (server_msg-IsClosed pane n t.net h.closed)
Step-IsStuck pane m {t} (starts_reader c s free e) h = absurd (busy t h.sending free)
Step-IsStuck pane m {t} {u} (connects p e) h =
    to_net pane m t u _ h e (on_reader-IsClosed pane p _ t.net (λ r shut. shut) h.closed)
Step-IsStuck pane m {t} {u} (receives_host_msg p n e) h =
    to_net pane m t u _ h e (host_msg-IsClosed pane p n t.net h.closed)
Step-IsStuck pane m {t} {u} (stops_reading p end e) h =
    to_net pane m t u _ h e (ends-IsClosed pane p end t.net h.closed)
Step-IsStuck pane m {t} {u} (waits_again p e) h =
    to_net pane m t u _ h e (on_reader-IsClosed pane p _ t.net next-keeps h.closed)
Step-IsStuck pane m {t} (ends_reader p free e) h = absurd (busy t h.sending free)

Reach-IsStuck :
    (pane : Bool) (m : ReaderMsg) {t u : Threads} → IsStuck pane m t → Reach t u → IsStuck pane m u
Reach-IsStuck pane m h here = h
Reach-IsStuck pane m h (next r s) = Step-IsStuck pane m s (Reach-IsStuck pane m h r)

closing :
    (pane : Bool) (o : Option Reader) (net : Net) {r : Reader}
    → o ≡ some r
    → IsClosed pane (with_reader pane (λ x. record x { requests_open = false }) o net)
closing pane none net e = cc
closing false (some q) net e = (_, refl, refl)
closing true (some q) net e = (_, refl, refl)

incoming_ends-IsClosed :
    (pane : Bool) (end : ReadEnd) (net : Net) {r : Reader}
    → reader_of pane net ≡ some r
    → IsClosed pane (incoming_ends pane end net)
unfolding incoming_ends
incoming_ends-IsClosed pane operation_canceled net there =
    closing pane (reader_of pane net) net there
incoming_ends-IsClosed pane other_error net there =
    closing pane (reader_of pane (post (posted_error pane) net)) _
      (reader_of-post (posted_error pane) pane net ∙ there)
incoming_ends-IsClosed pane exception net there =
    closing pane (reader_of pane (post (posted_error pane) net)) _
      (reader_of-post (posted_error pane) pane net ∙ there)

-- If the loop that reads from a pane's connection ends while the user interface waits in
-- `send_request` for the reader of that pane, then whatever steps follow, the user interface stays
-- in this wait for ever, holds the lock, and the reader stays in the map: the coroutine that would
-- erase it needs the lock.
pub deadlock :
    (pane : Bool) (m : ReaderMsg) (end : ReadEnd) (t : Threads) {r : Reader} {u : Threads}
    → t.sending ≡ some (pane, m)
    → reader_of pane t.net ≡ some r
    → Reach (with_net t (incoming_ends pane end t.net)) u
    → IsStuck pane m u
deadlock pane m end t sending there reach =
    Reach-IsStuck pane m
      (record { sending = sending; closed = incoming_ends-IsClosed pane end t.net there }) reach
