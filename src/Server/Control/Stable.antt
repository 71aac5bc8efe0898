-- ===== src/Server/Control/Stable.antt =====
-- The steps of a Control connection (src/server.cpp) that leave ids, names and the map of clients as
-- they are: whatever is stable under such changes holds after them, on every path.
use remy.Base.{
  ℕ, ◌≡◌, refl, false, List, [], ◌∷◌, ◌++◌, arith, get_elem?, modify, Option-cases, inl, inr,
}
use remy.Base.Map.{Map, get}
use remy.Wire.{Text, ClientsListPayload}
use remy.Protocol.Control.{ServerMsg, client_id, client_name, clients_list}
use remy.Server.Keeps.{Keeps, Keeps-pure, Keeps-then}
use remy.Server.State.{
  SendAction, send, announce_name, ClientCtrl, Task, Server, enqueue, async_send,
}
use remy.Server.Control.{
  send_clients_list, notify_turn, receive_action, notify_each, clients_list_notify_all,
  get_clients_descs, close_requests, spawn, write, run_action, greet, take_action, outcoming_turn,
}

-- What others can know of a client: its endpoint and its name.
abbrev pub card : ClientCtrl → Text × Text
card c = (c.endpoint_str, c.name)

-- A change of one object that leaves its id and its card, and a new task, keep it.
pub record IsStable (P : Server → Type 0) : Type 0 where
  pub modified :
      (s : Server) (addr : ℕ) (f : ClientCtrl → ClientCtrl)
      → ((c : ClientCtrl) → (f c).id ≡ c.id)
      → ((c : ClientCtrl) → card (f c) ≡ card c)
      → P s
      → P (record s { heap = modify s.heap addr f })
  pub spawned : (s : Server) (task : Task) → P s → P (record s { spawned = s.spawned ++ task ∷ [] })

module _ (P : Server → Type 0) (stable : IsStable P) where
  keep :
      (s : Server) (addr : ℕ) (f : ClientCtrl → ClientCtrl)
      → ((c : ClientCtrl) → (f c).id ≡ c.id)
      → ((c : ClientCtrl) → card (f c) ≡ card c)
      → P s
      → P (record s { heap = modify s.heap addr f })
  keep = stable.modified

  pub async_send-Keeps : (addr : ℕ) (a : SendAction) → Keeps P (async_send addr a)
  unfolding async_send
  async_send-Keeps addr a = record { at = at }
    where
      at : (s : Server) → P s → P (async_send addr a s).1
      at s h = ground (
        arith,
        h,
        keep s addr (enqueue a) (λ (c : ClientCtrl). refl) (λ (c : ClientCtrl). refl) h,
      )

  pub send_clients_list-Keeps :
      (list : ClientsListPayload) (addr : ℕ) → Keeps P (send_clients_list list addr)
  unfolding send_clients_list
  send_clients_list-Keeps list addr = async_send-Keeps addr (send (clients_list list))

  pub notify_turn-Keeps : (list : ClientsListPayload) (id : ℕ) → Keeps P (notify_turn list id)
  unfolding notify_turn
  notify_turn-Keeps list id = record { at = at }
    where
      at : (s : Server) → P s → P (notify_turn list id s).1
      at s h = elim (Option-cases (get id s.clients)) [
        | inl erased ↦ rw (erased, notify_turn) h
        | inr (addr, found) ↦ rw (found, notify_turn) ((send_clients_list-Keeps list addr).at s h)
      ]

  notify_each-Keeps : (list : ClientsListPayload) (m : Map ℕ) → Keeps P (notify_each list m)
  unfolding notify_each
  notify_each-Keeps list [] = Keeps-pure tt
  notify_each-Keeps list ((id, addr) ∷ m) =
      Keeps-then _ _ (send_clients_list-Keeps list addr) (notify_each-Keeps list m)

  pub notify_all-Keeps : Keeps P clients_list_notify_all
  unfolding clients_list_notify_all
  notify_all-Keeps = record {
    at = λ s h. (notify_each-Keeps (get_clients_descs s) s.clients).at s h;
  }

  pub close_requests-Keeps : (addr : ℕ) (s : Server) → P s → P (close_requests addr s)
  unfolding close_requests
  close_requests-Keeps addr s h = ground (
    arith,
    h,
    keep s addr (λ (c : ClientCtrl). record c { is_open = false }) (λ (c : ClientCtrl). refl)
        (λ (c : ClientCtrl). refl) h,
  )

  pub spawn-Keeps : (task : Task) → Keeps P (spawn task)
  unfolding spawn
  spawn-Keeps task = record { at = λ s h. stable.spawned s task h }

  pub write-Keeps : (addr : ℕ) (m : ServerMsg) → Keeps P (write addr m)
  unfolding write
  write-Keeps addr m = record { at = at }
    where
      at : (s : Server) → P s → P (write addr m s).1
      at s h = ground (
        arith,
        h,
        keep s addr (λ (c : ClientCtrl). record c { sent = c.sent ++ m ∷ [] })
            (λ (c : ClientCtrl). refl) (λ (c : ClientCtrl). refl) h,
      )

  run_action-Keeps : (addr : ℕ) (a : SendAction) → Keeps P (run_action addr a)
  unfolding run_action
  run_action-Keeps addr (send m) = write-Keeps addr m
  run_action-Keeps addr (announce_name name) =
      Keeps-then (write addr (client_name name)) _ (write-Keeps addr (client_name name))
        notify_all-Keeps

  pub greet-Keeps : (addr : ℕ) → Keeps P (greet addr)
  unfolding greet
  greet-Keeps addr = record { at = at }
    where
      at : (s : Server) → P s → P (greet addr s).1
      at s h = elim (Option-cases (get_elem? s.heap addr)) [
        | inl missing ↦ rw (missing, greet) h
        | inr (c, found) ↦
            rw (found, greet)
              ((Keeps-then (write addr (client_id c.id)) _ (write-Keeps addr _)
                  (write-Keeps addr (client_name c.name))).at
                s h)
      ]

  pub receive_action-Keeps :
      (addr : ℕ) (rest : List SendAction) (s : Server) → P s → P (receive_action addr rest s)
  unfolding receive_action
  receive_action-Keeps addr rest s h =
      keep s addr (λ d. record d { requests = rest }) (λ d. refl) (λ d. refl) h

  take_action-Keeps :
      (addr : ℕ) (c : ClientCtrl) (requests : List SendAction)
      → Keeps P (take_action addr c requests)
  unfolding take_action
  take_action-Keeps addr c [] = record { at = λ s h. h }
  take_action-Keeps addr c (a ∷ rest) = record {
    at = λ s h. (run_action-Keeps addr a).at _ (receive_action-Keeps addr rest s h);
  }

  pub outcoming_turn-Keeps : (addr : ℕ) → Keeps P (outcoming_turn addr)
  unfolding outcoming_turn
  outcoming_turn-Keeps addr = record { at = at }
    where
      at : (s : Server) → P s → P (outcoming_turn addr s).1
      at s h = elim (Option-cases (get_elem? s.heap addr)) [
        | inl missing ↦ rw (missing, outcoming_turn) h
        | inr (c, found) ↦ rw (found, outcoming_turn) ((take_action-Keeps addr c c.requests).at s h)
      ]
