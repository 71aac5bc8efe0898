-- ===== src/Client/Net/Readers.antt =====
-- The Browser connections that a client reads from: `run_browser_reader_coro` and `BrowserReader` of
-- src/client.cpp; and the count of those that read from it.
use remy.Base.{
  ℕ, ◌+◌, ◌-◌, Bool, true, false, [], ◌∷◌, ◌++◌, Option, none, some, ◌&&◌, if◌then◌else◌,
}
use remy.Wire.{Text}
use remy.Utils.Duration.{codes}
use remy.Protocol.Browser.{
  ReaderMsg, get_dents, HostMsg, path_dents, delete_response, mkdir_response,
}
use remy.Server.Exec.{Exec, ok, threw, waits}
use remy.View.Events.{posted_error, posted_dents, posted_deleted, posted_made, posted_warning}
use remy.Client.Net.{
  Task, browser_reader, browser_host, copy_sender, copy_receiver, Reader, new_reader, Net,
  reader_of, set_reader, post,
}
use remy.Client.Net.Control.{pane_of}

-- try_emplace of a reader for the pane, under the lock. The result is the pane, if there was room.
abbrev pub emplace : Bool → ℕ → Option Reader → Net → Option Bool × Net
emplace pane server_token none net =
    (some pane, set_reader pane (some (new_reader server_token)) net)
emplace pane server_token (some reader) net =
    (none, post (posted_warning (codes "Can't allocate new connection")) net)

unfoldable pub reader_start : ℕ → ℕ → Net → Option Bool × Net
unfolding pane_of
reader_start client_token server_token net =
    let (pane, after) = pane_of client_token net in
    emplace pane server_token (reader_of pane after) after

abbrev pub with_reader : Bool → (Reader → Reader) → Option Reader → Net → Net
with_reader pane f none net = net
with_reader pane f (some reader) net = set_reader pane (some (f reader)) net

abbrev pub on_reader : Bool → (Reader → Reader) → Net → Net
on_reader pane f net = with_reader pane f (reader_of pane net) net

-- `connect` has succeeded, and `outcoming_msg` asks for the first directory and waits.
unfoldable pub reader_connected : Bool → Net → Net
reader_connected pane net =
    on_reader pane
      (λ r. record r {
        socket_open = true;
        receiving = true;
        written = r.written ++ get_dents [] ∷ [];
      })
      net

-- The switch of `incoming_msg`.
unfoldable pub handle_host_msg : Bool → HostMsg → Net → Net
handle_host_msg pane (path_dents payload) net = post (posted_dents pane payload) net
handle_host_msg pane (delete_response msg) net = post (posted_deleted msg) net
handle_host_msg pane (mkdir_response msg) net = post (posted_made msg) net

-- How its loop ends: the read was cancelled, failed otherwise, or an exception came.
pub data ReadEnd : Type 0 where
  operation_canceled other_error exception : ReadEnd

unfoldable pub incoming_ends : Bool → ReadEnd → Net → Net
incoming_ends pane operation_canceled net =
    on_reader pane (λ r. record r { requests_open = false }) net
incoming_ends pane other_error net =
    on_reader pane (λ r. record r { requests_open = false }) (post (posted_error pane) net)
incoming_ends pane exception net =
    on_reader pane (λ r. record r { requests_open = false }) (post (posted_error pane) net)

-- An exception of `connect`, or of the two loops when both have thrown, and then the end of the
-- coroutine; without an exception there is only the end.
unfoldable pub reader_ends : Bool → Net → Net
reader_ends pane net = set_reader pane none net

unfoldable pub reader_failed : Bool → Text → Net → Net
unfolding reader_ends
reader_failed pane msg net = reader_ends pane (post (posted_warning msg) net)

-- `disconnect_browser`: `stop` closes the socket.
unfoldable pub disconnect_browser : Bool → Net → Net
disconnect_browser pane net = on_reader pane (λ r. record r { socket_open = false }) net

-- `cd`, `request_delete` and `request_mkdir`: `at` throws if the pane has no reader. The channel
-- has no buffer, so `try_send` takes a request only while `outcoming_msg` waits for one. `waits` is
-- the loop of `send_request`, with the lock held.
abbrev pub hand_over : Bool → ReaderMsg → Option Reader → Exec Net (Unit {0})
hand_over pane m none net = (threw, net)
hand_over pane m (some reader) net =
    if reader.requests_open && reader.receiving
    then (
      ok tt,
      set_reader pane
          (some (record reader { receiving = false; written = reader.written ++ m ∷ [] })) net,
    )
    else (waits, net)

unfoldable pub ask_host : Bool → ReaderMsg → Exec Net (Unit {0})
ask_host pane m net = hand_over pane m (reader_of pane net) net

-- `outcoming_msg` after a callback: it waits again while the channel is open, and stops otherwise.
unfoldable pub outcoming_next : Bool → Net → Net
outcoming_next pane net =
    on_reader pane
      (λ r.
        if r.requests_open
        then record r { receiving = true }
        else record r { receiving = false; socket_open = false })
      net

-- `run_browser_host_coro`, whatever becomes of it in between.
unfoldable pub host_begins : Net → Net
host_begins net = record net { browser_hosts_count = net.browser_hosts_count + 1 }

unfoldable pub host_ends : Option Text → Net → Net
host_ends none net = record net { browser_hosts_count = net.browser_hosts_count - 1 }
host_ends (some msg) net = record (post (posted_warning msg) net) {
  browser_hosts_count = net.browser_hosts_count - 1;
}

-- co_spawn: what a coroutine does to the net where it begins. A copy works on a connection of its
-- own.
unfoldable pub start_task : Task → Net → Option Bool × Net
unfolding reader_start host_begins
start_task (browser_reader client_token server_token) net =
    reader_start client_token server_token net
start_task (browser_host server_token) net = (none, host_begins net)
start_task (copy_sender token path dentries) net = (none, net)
start_task (copy_receiver token path) net = (none, net)
