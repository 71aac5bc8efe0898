-- ===== src/Server/Control/Sound.antt =====
-- Every part of a Control connection keeps the map of clients sound, on every path.
use remy.Base.{ℕ, ◌^◌, ◌<◌, ◌≡◌, refl, get_elem?, modify, List, Option-cases, inl, inr}
use remy.Wire.{Text, ClientsListPayload}
use remy.Protocol.Control.{ServerMsg}
use remy.Protocol.Requests.{ClientMsg, set_name, get_clients_list, connect_browser, copy}
use remy.Server.Keeps.{Keeps}
use remy.Server.State.{SendAction, announce_name, ClientCtrl, Server, async_send}
use remy.Server.Ids.{allocate_id, allocate_id_sound}
use remy.Server.Control.Stable.{
  IsStable, async_send-Keeps, send_clients_list-Keeps, notify_all-Keeps, close_requests-Keeps,
  spawn-Keeps, notify_turn-Keeps, receive_action-Keeps, write-Keeps,
}
use remy.Server.Control.Registry.{
  Registered, Registered-later, Registered-erase, Registered-new, SameIds-modify,
}
use remy.Server.Control.{
  clients_list_notify_all, get_clients_descs, new_client, register, unregister, notify_turn,
  receive_action, write, close_requests, full_name, handle_set_name, handle_client_msg,
}

pub record IsSound (s : Server) : Type 0 where
  pub next_fits : s.next_allocated_client_id < 2 ^ 64
  pub registered : Registered s.heap s.clients

-- A change of one object that leaves its id.
pub IsSound-modify :
    (s : Server) (addr : ℕ) (f : ClientCtrl → ClientCtrl)
    → ((c : ClientCtrl) → (f c).id ≡ c.id)
    → IsSound s
    → IsSound (record s { heap = modify s.heap addr f })
IsSound-modify s addr f keep h = record {
  next_fits = h.next_fits;
  registered = Registered-later s.clients (SameIds-modify s.heap addr f keep) h.registered;
}

IsSound-IsStable : IsStable IsSound
IsSound-IsStable = record {
  modified = λ s addr f ids names h. IsSound-modify s addr f ids h;
  spawned = λ s task h. record { next_fits = h.next_fits; registered = h.registered };
}

pub async_send-IsSound : (addr : ℕ) (a : SendAction) → Keeps IsSound (async_send addr a)
async_send-IsSound = async_send-Keeps IsSound IsSound-IsStable

pub notify_all-IsSound : Keeps IsSound clients_list_notify_all
notify_all-IsSound = notify_all-Keeps IsSound IsSound-IsStable

pub register-IsSound : (endpoint : Text) → Keeps IsSound (register endpoint)
unfolding register
register-IsSound endpoint = record { at = at }
  where
    at : (s : Server) → IsSound s → IsSound (register endpoint s).1
    at s h = elim (Option-cases (allocate_id s.clients s.next_allocated_client_id)) [
      | inl failed ↦ rw (failed, register) h
      | inr (id, found) ↦
          let (new, fits) =
            allocate_id_sound s.clients s.next_allocated_client_id id h.next_fits found in
          rw (found, register)
            (record {
              next_fits = fits;
              registered =
                  Registered-new s.heap (new_client id endpoint) s.clients fits new h.registered;
            })
    ]

pub unregister-IsSound : (id : ℕ) (s : Server) → IsSound s → IsSound (unregister id s)
unfolding unregister
unregister-IsSound id s h = record {
  next_fits = h.next_fits;
  registered = Registered-erase s.heap id s.clients h.registered;
}

pub notify_turn-IsSound : (list : ClientsListPayload) (id : ℕ) → Keeps IsSound (notify_turn list id)
notify_turn-IsSound = notify_turn-Keeps IsSound IsSound-IsStable

pub receive_action-IsSound :
    (addr : ℕ) (rest : List SendAction) (s : Server)
    → IsSound s
    → IsSound (receive_action addr rest s)
receive_action-IsSound = receive_action-Keeps IsSound IsSound-IsStable

pub write-IsSound : (addr : ℕ) (m : ServerMsg) → Keeps IsSound (write addr m)
write-IsSound = write-Keeps IsSound IsSound-IsStable

pub close_requests-IsSound : (addr : ℕ) (s : Server) → IsSound s → IsSound (close_requests addr s)
close_requests-IsSound = close_requests-Keeps IsSound IsSound-IsStable

set_name-IsSound : (addr : ℕ) (name : Text) → Keeps IsSound (handle_set_name addr name)
unfolding handle_set_name
set_name-IsSound addr name = record { at = at }
  where
    at : (s : Server) → IsSound s → IsSound (handle_set_name addr name s).1
    at s h = elim (Option-cases (get_elem? s.heap addr)) [
      | inl missing ↦ rw (missing, handle_set_name) h
      | inr (c, found) ↦
          rw (found, handle_set_name)
            ((async_send-IsSound addr (announce_name (full_name name c))).at _
              (IsSound-modify s addr (λ d. record d { name = full_name name c }) (λ d. refl) h))
    ]

pub handle_client_msg-IsSound :
    (addr id : ℕ) (m : ClientMsg) → Keeps IsSound (handle_client_msg addr id m)
unfolding handle_client_msg
handle_client_msg-IsSound addr id (set_name name) = set_name-IsSound addr name
handle_client_msg-IsSound addr id get_clients_list = record {
  at = λ s h. (send_clients_list-Keeps IsSound IsSound-IsStable (get_clients_descs s) addr).at s h;
}
handle_client_msg-IsSound addr id (connect_browser token host_id) =
    spawn-Keeps IsSound IsSound-IsStable _
handle_client_msg-IsSound addr id (copy src dst) = spawn-Keeps IsSound IsSound-IsStable _
