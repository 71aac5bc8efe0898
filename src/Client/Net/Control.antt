-- ===== src/Client/Net/Control.antt =====
-- The Control connection of a client: `incoming_control_msg`, `outcoming_control_msg` and the
-- requests of src/client.cpp.
use remy.Base.{ℕ, Bool, false, List, [], ◌∷◌, Option, none, some, if◌then◌else◌}
use remy.Base.Map.{get, put}
use remy.Wire.{Text}
use remy.Protocol.Control.{
  ServerMsg, client_id, client_name, clients_list, browser_connected, connect_browser_request,
  copy_source, copy_destination, watcher_info,
}
use remy.Protocol.Requests.{set_name, get_clients_list, connect_browser, copy}
use remy.View.Events.{posted_clients, posted_name, posted_error, posted_progress, posted_critical}
use remy.Client.Net.{
  ControlAction, get_list, ask_name, ask_browser, ask_copy, Net, browser_reader, browser_host,
  copy_sender, copy_receiver, post, spawn, write, try_send,
}

-- m_browser_ids[client_token]: a token that is not there gets the first pane.
abbrev pub or_first : Option Bool → Bool
or_first none = false
or_first (some pane) = pane

unfoldable pub pane_of : ℕ → Net → Bool × Net
pane_of client_token net =
    let pane = or_first (get client_token net.browser_ids) in
    (pane, record net { browser_ids = put client_token pane net.browser_ids })

unfoldable pub browser_refused : ℕ → Net → Net
unfolding pane_of
browser_refused client_token net =
    let (pane, after) = pane_of client_token net in post (posted_error pane) after

-- The switch of `incoming_control_msg`.
unfoldable pub handle_server_msg : ServerMsg → Net → Net
unfolding browser_refused
handle_server_msg (client_id id) net = record net { id = id }
handle_server_msg (client_name name) net = post (posted_name name) net
handle_server_msg (clients_list list) net = post (posted_clients list) net
handle_server_msg (browser_connected client_token (some server_token)) net =
    spawn (browser_reader client_token server_token) net
handle_server_msg (browser_connected client_token none) net = browser_refused client_token net
handle_server_msg (connect_browser_request server_token) net = spawn (browser_host server_token) net
handle_server_msg (copy_source token path dentries) net =
    spawn (copy_sender token path dentries) net
handle_server_msg (copy_destination token path) net = spawn (copy_receiver token path) net
handle_server_msg (watcher_info info) net = post (posted_progress info) net

-- Its end, by an error of the read or by an exception, and `msg` is what it logs.
unfoldable pub incoming_ends : Text → Net → Net
incoming_ends msg net = record (post (posted_critical msg) net) { requests_open = false }

-- A callback; `rand` is the value of std::rand().
unfoldable pub run_action : ℕ → ControlAction → Net → Net
run_action rand get_list net = write get_clients_list net
run_action rand (ask_name name) net = write (set_name name) net
run_action rand (ask_browser pane host_id) net =
    write (connect_browser rand host_id)
      (record net { browser_ids = put rand pane net.browser_ids })
run_action rand (ask_copy src dst) net = write (copy src dst) net

-- `outcoming_control_msg` before its loop.
unfoldable pub outcoming_start : Net → Net
outcoming_start net = write get_clients_list net

-- One turn of its loop; `none` means that it waits. Once the channel is closed, it closes the socket.
take_action : ℕ → List ControlAction → Net → Option Net
unfolding run_action
take_action rand [] net = none
take_action rand (a ∷ rest) net = some (run_action rand a (record net { requests = rest }))

unfoldable pub outcoming_turn : ℕ → Net → Option Net
unfolding take_action
outcoming_turn rand net =
    if net.requests_open
    then take_action rand net.requests net
    else some (record net { control_open = false })

-- `set_default_hostname`, with what `get_hostname` returns; `none` is a channel without room.
unfoldable pub set_default_hostname : Text → Net → Option Net
unfolding try_send
set_default_hostname [] net = some net
set_default_hostname (c ∷ hostname) net = try_send (ask_name (c ∷ hostname)) net
