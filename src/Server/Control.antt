-- ===== src/Server/Control.antt =====
-- The Control connections (src/server.cpp): the life of a client and its two coroutines.
pub mod Registry
pub mod Stable
pub mod Sound
pub mod Notify
pub mod Lifetime
pub mod Run
pub mod Roster
use Prim.Native.String.{String}
use remy.Base.{
  ℕ, zero, suc, ◌+◌, Bool, true, false, List, [], ◌∷◌, ◌++◌, map, Option, none, some, length,
  get_elem?, modify,
}
use remy.Base.Map.{Map, get, put, erase}
use remy.Wire.{Text, ClientsListPayload, WatcherInfo}
use remy.Utils.Trim.{trim_end}
use remy.Utils.Duration.{codes}
use remy.Protocol.Control.{
  ServerMsg, client_id, client_name, clients_list, browser_connected, connect_browser_request,
  copy_source, copy_destination, watcher_info,
}
use remy.Protocol.Requests.{ClientMsg, set_name, get_clients_list, connect_browser, copy}
use remy.Server.Exec.{Exec, Outcome, ok, threw, waits, crashed, pure, try, ◌>>=◌, ◌>>◌}
use remy.Server.State.{
  SendAction, send, announce_name, ClientCtrl, Task, process_browser_conn, process_copy, Server,
  async_send,
}
use remy.Server.Ids.{allocate_id}

-- `client->name()` of the object at an address; the map holds no dangling one (`Sound.IsSound`).
unfoldable pub name_of : List ClientCtrl → ℕ → Text
name_of heap addr = elim (get_elem? heap addr) [ none ↦ [] | some c ↦ c.name ]

unfoldable pub get_clients_descs : Server → ClientsListPayload
unfolding name_of
get_clients_descs s = map (λ (id, addr). (id, name_of s.heap addr)) s.clients

-- `ClientCtrl::send_clients_list` on the client at an address.
unfoldable pub send_clients_list : ClientsListPayload → ℕ → Exec Server (Unit {0})
send_clients_list list addr = async_send addr (send (clients_list list))

-- for (const auto& [id, client] : m_clients) co_await client->send_clients_list(list)
unfoldable pub notify_each : ClientsListPayload → Map ℕ → Exec Server (Unit {0})
unfolding send_clients_list
notify_each list [] = pure tt
notify_each list ((id, addr) ∷ others) =
    let later = notify_each list others in send_clients_list list addr >> later

-- One turn of this loop, from a suspension to the next: the iterator stands at the client with this
-- id. If another coroutine has erased it meanwhile, the iterator is invalid, and to go on is
-- undefined.
unfoldable pub notify_turn : ClientsListPayload → ℕ → Exec Server (Unit {0})
notify_turn list id s = elim (get id s.clients) [
  | none ↦ (crashed, s)
  | some addr ↦ send_clients_list list addr s
]

unfoldable pub clients_list_notify_all : Exec Server (Unit {0})
clients_list_notify_all s = notify_each (get_clients_descs s) s.clients s

-- The constructor of `ClientCtrl`.
abbrev pub new_client : ℕ → Text → ClientCtrl
new_client id endpoint = record {
  id = id;
  name = endpoint;
  endpoint_str = endpoint;
  is_open = true;
  requests = [];
  sent = [];
}

-- The first block of `process_control_conn`, under the lock; the result is the client's address.
-- `threw` stands for a search that does not end, which `allocate_id_total` excludes.
unfoldable pub register : Text → Exec Server ℕ
register endpoint s = elim (allocate_id s.clients s.next_allocated_client_id) [
  | none ↦ (threw, s)
  | some id ↦ (
    ok (length s.heap),
    record s {
      next_allocated_client_id = id;
      clients = put id (length s.heap) s.clients;
      heap = s.heap ++ new_client id endpoint ∷ [];
    },
  )
]

-- `process_control_conn` up to the `try`: what it does before the client's coroutines run.
unfoldable pub connect : Text → Exec Server ℕ
connect endpoint = do addr ← register endpoint; clients_list_notify_all; pure addr

-- Its last block, once both coroutines are over; the erasing is under the lock.
unfoldable pub unregister : ℕ → Server → Server
unregister id s = record s { clients = erase id s.clients }

unfoldable pub disconnect : ℕ → Exec Server (Unit {0})
unfolding unregister
disconnect id s = clients_list_notify_all (unregister id s)

-- The end of `incoming_messages`: m_send_requests.close().
unfoldable pub close_requests : ℕ → Server → Server
close_requests addr s = elim (get_elem? s.heap addr) [
  | none ↦ s
  | some c ↦ record s { heap = modify s.heap addr (λ d. record d { is_open = false }) }
]

-- std::format("{} ({})", new_name, m_endpoint_str)
unfoldable pub full_name : Text → ClientCtrl → Text
full_name new_name c = trim_end new_name ++ codes " (" ++ c.endpoint_str ++ codes ")"

unfoldable pub handle_set_name : ℕ → Text → Exec Server (Unit {0})
unfolding full_name
handle_set_name addr new_name s = elim (get_elem? s.heap addr) [
  | none ↦ (threw, s)
  | some c ↦
      let name = full_name new_name c in
      async_send addr (announce_name name)
        (record s { heap = modify s.heap addr (λ d. record d { name = name }) })
]

unfoldable pub spawn : Task → Exec Server (Unit {0})
spawn task s = (ok tt, record s { spawned = s.spawned ++ task ∷ [] })

-- The cases of the switch in `incoming_messages` of the client with this address and id.
unfoldable pub handle_client_msg : ℕ → ℕ → ClientMsg → Exec Server (Unit {0})
unfolding handle_set_name spawn
handle_client_msg addr id (set_name new_name) = handle_set_name addr new_name
handle_client_msg addr id get_clients_list = λ s. send_clients_list (get_clients_descs s) addr s
handle_client_msg addr id (connect_browser client_token host_id) =
    spawn (process_browser_conn host_id id client_token)
handle_client_msg addr id (copy src dst) = spawn (process_copy src dst addr)

-- co_await serde::send(m_socket, …) in a `SendAction`, and in `outcoming_messages` at its start.
unfoldable pub write : ℕ → ServerMsg → Exec Server (Unit {0})
write addr m s = elim (get_elem? s.heap addr) [
  | none ↦ (threw, s)
  | some c ↦
      (ok tt, record s { heap = modify s.heap addr (λ d. record d { sent = d.sent ++ m ∷ [] }) })
]

unfoldable pub run_action : ℕ → SendAction → Exec Server (Unit {0})
unfolding write
run_action addr (send m) = write addr m
run_action addr (announce_name name) = write addr (client_name name) >> clients_list_notify_all

-- What `outcoming_messages` writes first.
unfoldable pub greet : ℕ → Exec Server (Unit {0})
unfolding write
greet addr s = elim (get_elem? s.heap addr) [
  | none ↦ (threw, s)
  | some c ↦ (write addr (client_id c.id) >> write addr (client_name c.name)) s
]

-- m_send_requests.async_receive()
unfoldable pub receive_action : ℕ → List SendAction → Server → Server
receive_action addr rest s = record s {
  heap = modify s.heap addr (λ d. record d { requests = rest });
}

-- One turn of the loop of `outcoming_messages`: it takes an action off the channel and runs it.
-- With nothing in the channel it waits.
take_action : ℕ → ClientCtrl → List SendAction → Exec Server (Unit {0})
unfolding run_action receive_action
take_action addr c [] s = (waits, s)
take_action addr c (a ∷ rest) s = run_action addr a (receive_action addr rest s)

unfoldable pub outcoming_turn : ℕ → Exec Server (Unit {0})
unfolding take_action
outcoming_turn addr s = elim (get_elem? s.heap addr) [
  | none ↦ (threw, s)
  | some c ↦ take_action addr c c.requests s
]

-- The other senders of `ClientCtrl`.
unfoldable pub request_browser_host : ℕ → ℕ → Exec Server (Unit {0})
request_browser_host addr server_token =
    async_send addr (send (connect_browser_request server_token))

unfoldable pub request_browser_reader : ℕ → ℕ → Option ℕ → Exec Server (Unit {0})
request_browser_reader addr client_token server_token =
    async_send addr (send (browser_connected client_token server_token))

unfoldable pub request_copy_source : ℕ → ℕ → Text → List Text → Exec Server (Unit {0})
request_copy_source addr token path dentries =
    async_send addr (send (copy_source token path dentries))

unfoldable pub request_copy_destination : ℕ → ℕ → Text → Exec Server (Unit {0})
request_copy_destination addr token path = async_send addr (send (copy_destination token path))

-- It catches what the channel throws.
unfoldable pub send_watcher_info : ℕ → Option WatcherInfo → Exec Server (Unit {0})
send_watcher_info addr info = try (async_send addr (send (watcher_info info))) (pure tt)
