-- ===== src/Client/Net/Later.antt =====
-- The steps of a client's network thread, and of its user interface through the net (src/client.cpp).
use remy.Base.{
  ℕ, ◌≡◌, refl, ap, sym, ◌∙◌, Bool, true, false, List, [], ◌∷◌, Option, none, some, ◌&&◌,
  if◌then◌else◌,
}
use mathlib.Core.Option.{none-ne-some, some-injective}
use remy.Wire.{Text}
use remy.Protocol.Control.{
  ServerMsg, client_id, client_name, clients_list, browser_connected, connect_browser_request,
  copy_source, copy_destination, watcher_info,
}
use remy.Protocol.Browser.{ReaderMsg, HostMsg, path_dents, delete_response, mkdir_response}
use remy.Client.Net.{
  ControlAction, Net, Reader, Task, browser_reader, browser_host, copy_sender, copy_receiver,
  reader_of, set_reader, try_send,
}
use remy.Client.Net.Control.{handle_server_msg, browser_refused, pane_of, outcoming_turn}
use remy.Client.Net.Readers.{
  ReadEnd, operation_canceled, other_error, exception, emplace, reader_start, with_reader,
  reader_connected, handle_host_msg, incoming_ends, reader_ends, reader_failed, disconnect_browser,
  hand_over, ask_host, outcoming_next, host_begins, host_ends, start_task,
}

pub data Step (n : Net) (m : Net) : Type 0 where
  receives : (msg : ServerMsg) → m ≡ handle_server_msg msg n → Step n m
  turns : (rand : ℕ) → outcoming_turn rand n ≡ some m → Step n m
  starts : (task : Task) → m ≡ (start_task task n).1 → Step n m
  connects : (pane : Bool) → m ≡ reader_connected pane n → Step n m
  receives_host : (pane : Bool) (msg : HostMsg) → m ≡ handle_host_msg pane msg n → Step n m
  stops_reading : (pane : Bool) (end : ReadEnd) → m ≡ incoming_ends pane end n → Step n m
  waits_again : (pane : Bool) → m ≡ outcoming_next pane n → Step n m
  ends_reader : (pane : Bool) → m ≡ reader_ends pane n → Step n m
  fails_reader : (pane : Bool) (msg : Text) → m ≡ reader_failed pane msg n → Step n m
  ends_host : (msg : Option Text) → m ≡ host_ends msg n → Step n m
  disconnects : (pane : Bool) → m ≡ disconnect_browser pane n → Step n m
  asks_host : (pane : Bool) (msg : ReaderMsg) → m ≡ (ask_host pane msg n).1 → Step n m
  sends : (action : ControlAction) → try_send action n ≡ some m → Step n m

pub data Reach (n : Net) : Net → Type 0 where
  here : Reach n n
  next : {m k : Net} → Reach n m → Step m k → Reach n k

-- Each state comes after the one before it.
abbrev pub Trail : Net → List Net → Type 0
Trail n [] = Unit {0}
Trail n (m ∷ found) = Reach n m × Trail m found

abbrev pub IsShut : Net → Type 0
IsShut net = net.requests_open ≡ false

set_reader-IsShut :
    (pane : Bool) (r : Option Reader) (n : Net) → IsShut n → IsShut (set_reader pane r n)
set_reader-IsShut false r n h = h
set_reader-IsShut true r n h = h

with_reader-IsShut :
    (pane : Bool) (f : Reader → Reader) (r : Option Reader) (n : Net)
    → IsShut n
    → IsShut (with_reader pane f r n)
with_reader-IsShut pane f none n h = h
with_reader-IsShut pane f (some r) n h = set_reader-IsShut pane _ n h

emplace-IsShut :
    (pane : Bool) (token : ℕ) (r : Option Reader) (n : Net)
    → IsShut n
    → IsShut (emplace pane token r n).1
emplace-IsShut pane token none n h = set_reader-IsShut pane _ n h
emplace-IsShut pane token (some r) n h = h

either-IsShut :
    {A : Type 0} (b : Bool) (x y : A × Net)
    → IsShut x.1
    → IsShut y.1
    → IsShut (if b then x else y).1
either-IsShut true x y h k = h
either-IsShut false x y h k = k

hand_over-IsShut :
    (pane : Bool) (m : ReaderMsg) (r : Option Reader) (n : Net)
    → IsShut n
    → IsShut (hand_over pane m r n).1
hand_over-IsShut pane m none n h = h
hand_over-IsShut pane m (some r) n h =
    either-IsShut (r.requests_open && r.receiving) _ _ (set_reader-IsShut pane _ n h) h

server_msg-IsShut : (msg : ServerMsg) (n : Net) → IsShut n → IsShut (handle_server_msg msg n)
unfolding handle_server_msg browser_refused pane_of
server_msg-IsShut (client_id id) n h = h
server_msg-IsShut (client_name name) n h = h
server_msg-IsShut (clients_list list) n h = h
server_msg-IsShut (browser_connected token none) n h = h
server_msg-IsShut (browser_connected token (some server_token)) n h = h
server_msg-IsShut (connect_browser_request token) n h = h
server_msg-IsShut (copy_source token path dentries) n h = h
server_msg-IsShut (copy_destination token path) n h = h
server_msg-IsShut (watcher_info info) n h = h

host_msg-IsShut :
    (pane : Bool) (msg : HostMsg) (n : Net) → IsShut n → IsShut (handle_host_msg pane msg n)
unfolding handle_host_msg
host_msg-IsShut pane (path_dents payload) n h = h
host_msg-IsShut pane (delete_response msg) n h = h
host_msg-IsShut pane (mkdir_response msg) n h = h

task-IsShut : (task : Task) (n : Net) → IsShut n → IsShut (start_task task n).1
unfolding start_task reader_start host_begins pane_of
task-IsShut (browser_reader client_token server_token) n h = emplace-IsShut _ server_token _ _ h
task-IsShut (browser_host server_token) n h = h
task-IsShut (copy_sender token path dentries) n h = h
task-IsShut (copy_receiver token path) n h = h

end-IsShut : (pane : Bool) (end : ReadEnd) (n : Net) → IsShut n → IsShut (incoming_ends pane end n)
unfolding incoming_ends
end-IsShut pane operation_canceled n h = with_reader-IsShut pane _ _ n h
end-IsShut pane other_error n h = with_reader-IsShut pane _ _ _ h
end-IsShut pane exception n h = with_reader-IsShut pane _ _ _ h

host_end-IsShut : (msg : Option Text) (n : Net) → IsShut n → IsShut (host_ends msg n)
unfolding host_ends
host_end-IsShut none n h = h
host_end-IsShut (some msg) n h = h

pub refuses : (action : ControlAction) (n : Net) → IsShut n → try_send action n ≡ none
unfolding try_send
refuses action n h = rw h refl

-- Its only turn then closes the socket.
turn-IsShut : (rand : ℕ) (n m : Net) → IsShut n → outcoming_turn rand n ≡ some m → IsShut m
unfolding outcoming_turn
turn-IsShut rand n m h e =
    let closes : outcoming_turn rand n ≡ some (record n { control_open = false }) = rw h refl in
    sym (ap (λ (k : Net). k.requests_open) (some-injective _ m (sym closes ∙ e))) ∙ h

-- A channel that is closed stays closed.
Step-IsShut : {n m : Net} → Step n m → IsShut n → IsShut m
unfolding reader_connected outcoming_next reader_ends reader_failed disconnect_browser ask_host
Step-IsShut {n} (receives msg e) h = rw e (server_msg-IsShut msg n h)
Step-IsShut {n} {m} (turns rand e) h = turn-IsShut rand n m h e
Step-IsShut {n} (starts task e) h = rw e (task-IsShut task n h)
Step-IsShut {n} (connects pane e) h = rw e (with_reader-IsShut pane _ _ n h)
Step-IsShut {n} (receives_host pane msg e) h = rw e (host_msg-IsShut pane msg n h)
Step-IsShut {n} (stops_reading pane end e) h = rw e (end-IsShut pane end n h)
Step-IsShut {n} (waits_again pane e) h = rw e (with_reader-IsShut pane _ _ n h)
Step-IsShut {n} (ends_reader pane e) h = rw e (set_reader-IsShut pane _ n h)
Step-IsShut {n} (fails_reader pane msg e) h = rw e (set_reader-IsShut pane _ _ h)
Step-IsShut {n} (ends_host msg e) h = rw e (host_end-IsShut msg n h)
Step-IsShut {n} (disconnects pane e) h = rw e (with_reader-IsShut pane _ _ n h)
Step-IsShut {n} (asks_host pane msg e) h = rw e (hand_over-IsShut pane msg (reader_of pane n) n h)
Step-IsShut {n} (sends action e) h = absurd (none-ne-some _ (sym (refuses action n h) ∙ e))

pub Reach-IsShut : {n m : Net} → Reach n m → IsShut n → IsShut m
Reach-IsShut here h = h
Reach-IsShut (next r s) h = Step-IsShut s (Reach-IsShut r h)
