-- ===== src/Server/Control/Lifetime.antt =====
-- A client from its connection to its end: `process_control_conn` (src/server.cpp).
use remy.Base.{
  ℕ, ◌^◌, ◌<◌, ◌≡◌, refl, ◌∙◌, subst, false, [], ◌∷◌, ◌++◌, some, arith, length, if◌then◌else◌,
  ◌==◌, ==_refl, Bool-cases, inl, inr, get_elem?-append_end, get_elem?-append_left,
}
use remy.Base.Map.{Map, get, put, erase, contains, get-put, contains-erase, erase-put_new}
use remy.Wire.{Text}
use remy.Server.Exec.{Outcome, ok, threw, ◌>>=◌}
use remy.Server.Keeps.{Keeps, Keeps-pure, Keeps-then}
use remy.Server.State.{Server}
use remy.Server.Ids.{allocate_id, allocate_id_total, allocate_id_free}
use remy.Server.Control.Sound.{IsSound, register-IsSound}
use remy.Server.Control.Notify.{
  AllAddrs, SomeAddr, HasRoom, IsClosed, notify_closed, distinct_addrs, clients-notify_each,
}
use remy.Server.Control.{
  new_client, register, connect, disconnect, clients_list_notify_all, get_clients_descs,
}

-- The state in which `register` leaves the server, with the id that it chose.
abbrev pub registered_state : Server → Text → ℕ → Server
registered_state s endpoint id = record s {
  next_allocated_client_id = id;
  clients = put id (length s.heap) s.clients;
  heap = s.heap ++ new_client id endpoint ∷ [];
}

-- In a sound state, while fewer than 2 ^ 64 clients are connected, a new client is registered:
-- under an id of 64 bits that no client had, and with the other entries and objects as they were.
pub register_lem :
    (s : Server) (endpoint : Text)
    → IsSound s
    → length s.clients < 2 ^ 64
    → (id : ℕ) × (id < 2 ^ 64)
      × (contains id s.clients ≡ false)
      × (register endpoint s ≡ (ok (length s.heap), registered_state s endpoint id))
      × ((j : ℕ)
          → get j (register endpoint s).1.clients
            ≡ (if id == j then some (length s.heap) else get j s.clients))
unfolding register
register_lem s endpoint sound few =
    let (id, found, new, fits) =
      allocate_id_total s.clients s.next_allocated_client_id sound.next_fits few in
    (
      id,
      fits,
      new,
      rw (found, register),
      λ j. rw (found, register) (get-put id j (length s.heap) s.clients),
    )

clients-notify_all : (k : Map ℕ) → Keeps (λ s. s.clients ≡ k) clients_list_notify_all
unfolding clients_list_notify_all
clients-notify_all k = record {
  at = λ s h. (clients-notify_each (get_clients_descs s) s.clients k).at s h;
}

clients-disconnect : (id : ℕ) (s : Server) → (disconnect id s).1.clients ≡ erase id s.clients
unfolding disconnect
clients-disconnect id s = (clients-notify_all (erase id s.clients)).at _ refl

clients-connect :
    (s : Server) (endpoint : Text) (id : ℕ)
    → register endpoint s ≡ (ok (length s.heap), registered_state s endpoint id)
    → (connect endpoint s).1.clients ≡ put id (length s.heap) s.clients
unfolding connect
clients-connect s endpoint id e =
    rw (e, ◌>>=◌)
      ((Keeps-then clients_list_notify_all _ (clients-notify_all (put id (length s.heap) s.clients))
          (Keeps-pure (length s.heap))).at
        (registered_state s endpoint id) refl)

-- In a sound state with fewer than 2 ^ 64 clients, when a client has come and gone, the map of
-- clients is what it was, whatever became of the notifications.
disconnect-connect :
    (s : Server) (endpoint : Text)
    → IsSound s
    → length s.clients < 2 ^ 64
    → (id : ℕ) × (get id (connect endpoint s).1.clients ≡ some (length s.heap))
      × ((disconnect id (connect endpoint s).1).1.clients ≡ s.clients)
disconnect-connect s endpoint sound few =
    let (id, fits, new, e, others) = register_lem s endpoint sound few in
    (
      id,
      rw (clients-connect s endpoint id e)
          (get-put id id (length s.heap) s.clients ∙ rw (==_refl id)),
      clients-disconnect id (connect endpoint s).1
          ∙ rw (clients-connect s endpoint id e) (erase-put_new id (length s.heap) s.clients new),
    )

-- In a sound state with fewer than 2 ^ 64 clients, the id of a client that has just been registered
-- and removed is given to the next one: the search starts from the last id, not behind it.
id_reused :
    (s : Server) (endpoint : Text)
    → IsSound s
    → length s.clients < 2 ^ 64
    → let t = (register endpoint s).1 in
      let id = t.next_allocated_client_id in allocate_id (erase id t.clients) id ≡ some id
id_reused s endpoint sound few =
    let (id, fits, new, e, others) = register_lem s endpoint sound few in
    rw e (
      allocate_id_free (erase id (put id (length s.heap) s.clients)) id
        (contains-erase id id (put id (length s.heap) s.clients) ∙ rw (==_refl id)))

AllAddrs-put :
    (P : ℕ → Type 0) (id addr : ℕ) (m : Map ℕ) → P addr → AllAddrs P m → AllAddrs P (put id addr m)
unfolding put
AllAddrs-put P id addr [] p h = (p, tt)
AllAddrs-put P id addr ((j, a) ∷ m) p (q, h) = elim (Bool-cases (j == id)) [
  | inl same ↦ rw same (p, h)
  | inr other ↦ rw other (q, AllAddrs-put P id addr m p h)
]

SomeAddr-put :
    (P : ℕ → Type 0) (id addr : ℕ) (m : Map ℕ)
    → contains id m ≡ false
    → SomeAddr P m
    → SomeAddr P (put id addr m)
unfolding put contains
SomeAddr-put P id addr [] new h = absurd h
SomeAddr-put P id addr ((j, a) ∷ m) new (inl q) = elim (Bool-cases (j == id)) [
  | inl same ↦ absurd (ground arith)
  | inr other ↦ rw other (inl q)
]
SomeAddr-put P id addr ((j, a) ∷ m) new (inr h) = elim (Bool-cases (j == id)) [
  | inl same ↦ absurd (ground arith)
  | inr other ↦ rw other (inr (SomeAddr-put P id addr m (ground arith) h))
]

AllAddrs-map : (P Q : ℕ → Type 0) (m : Map ℕ) → ((a : ℕ) → P a → Q a) → AllAddrs P m → AllAddrs Q m
AllAddrs-map P Q [] f h = tt
AllAddrs-map P Q ((id, a) ∷ m) f (p, h) = (f a p, AllAddrs-map P Q m f h)

SomeAddr-map : (P Q : ℕ → Type 0) (m : Map ℕ) → ((a : ℕ) → P a → Q a) → SomeAddr P m → SomeAddr Q m
SomeAddr-map P Q [] f h = h
SomeAddr-map P Q ((id, a) ∷ m) f (inl p) = inl (f a p)
SomeAddr-map P Q ((id, a) ∷ m) f (inr h) = inr (SomeAddr-map P Q m f h)

-- The notification that follows a registration meets the closed channel.
stale_notification :
    (s : Server) (endpoint : Text) (id : ℕ)
    → IsSound (registered_state s endpoint id)
    → contains id s.clients ≡ false
    → AllAddrs (HasRoom s.heap) s.clients
    → SomeAddr (IsClosed s.heap) s.clients
    → (clients_list_notify_all (registered_state s endpoint id)).0 ≡ threw
unfolding clients_list_notify_all
stale_notification s endpoint id sound new room closed =
    let heap = s.heap ++ new_client id endpoint ∷ [] in
    notify_closed _ (put id (length s.heap) s.clients) (registered_state s endpoint id)
      (distinct_addrs heap _ sound.registered)
      (AllAddrs-put (HasRoom heap) id (length s.heap) s.clients
        (new_client id endpoint, get_elem?-append_end s.heap (new_client id endpoint), omega arith)
        (AllAddrs-map (HasRoom s.heap) (HasRoom heap) s.clients
          (λ a (c, there, fits). (c, get_elem?-append_left s.heap _ a there, fits)) room))
      (SomeAddr-put (IsClosed heap) id (length s.heap) s.clients new (
        SomeAddr-map (IsClosed s.heap) (IsClosed heap) s.clients
          (λ a (c, there, shut). (c, get_elem?-append_left s.heap _ a there, shut)) closed))

threw-then :
    (s t : Server) (endpoint : Text) (addr : ℕ)
    → register endpoint s ≡ (ok addr, t)
    → (clients_list_notify_all t).0 ≡ threw
    → (connect endpoint s).0 ≡ threw
unfolding connect
threw-then s t endpoint addr e h = rw (e, ◌>>=◌) (ground arith)

-- In a sound state with fewer than 2 ^ 64 clients, if the channel of some client is closed but the
-- client is still registered, and all channels have room, then the first notification throws,
-- before the `try`: the new client's coroutines never run and the client stays in the map.
pub connect_stale :
    (s : Server) (endpoint : Text)
    → IsSound s
    → length s.clients < 2 ^ 64
    → AllAddrs (HasRoom s.heap) s.clients
    → SomeAddr (IsClosed s.heap) s.clients
    → ((connect endpoint s).0 ≡ threw)
      × ((id : ℕ) × (contains id s.clients ≡ false)
          × (get id (connect endpoint s).1.clients ≡ some (length s.heap)))
connect_stale s endpoint sound few room closed =
    let (id, fits, new, e, others) = register_lem s endpoint sound few in
    let sound' : IsSound (registered_state s endpoint id) =
      subst (λ (r : Outcome ℕ × Server). IsSound r.1) e ((register-IsSound endpoint).at s sound) in
    (
      threw-then s _ endpoint (length s.heap) e
          (stale_notification s endpoint id sound' new room closed),
      (
        id,
        new,
        rw (clients-connect s endpoint id e)
            (get-put id id (length s.heap) s.clients ∙ rw (==_refl id)),
      ),
    )
