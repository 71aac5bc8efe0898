-- ===== src/Tests/Clients.antt =====
-- A server with two clients (src/server.cpp), and what becomes of it.
use remy.Base.{
  ℕ, ◌^◌, ◌<◌, ◌≡◌, inl, inr, refl, List, true, false, [], ◌∷◌, some, arith, if◌then◌else◌, ◌==◌,
}
use remy.Base.Map.{get, put, contains}
use remy.Wire.{Text, RemoteDentries}
use remy.Protocol.Control.{connect_browser_request, browser_connected}
use remy.Protocol.Requests.{set_name}
use remy.Server.Exec.{ok, threw}
use remy.Server.State.{Server, send}
use remy.Server.Control.{new_client, register, connect}
use remy.Server.Control.Sound.{IsSound}
use remy.Server.Control.Notify.{IsReady}
use remy.Server.Control.Lifetime.{registered_state, register_lem, connect_stale}
use remy.Server.Control.Run.{
  Step, registers, notifies, receives, closes, unregisters, run, OnState, new_server, run-IsSound,
}
use remy.Server.Browser.{Frame, proxies}
use remy.Server.Browser.Pairing.{queued, establish, establish_lem}
use remy.Server.Copying.{connected}
use remy.Server.Copying.Handshake.{
  handshake, with_copies, told, source_request, destination_request, handshake_lem,
}

abbrev pc : Text
pc = b'p' ∷ b'c' ∷ []

abbrev nas : Text
nas = b'n' ∷ b'a' ∷ b's' ∷ []

abbrev two_clients : Server
two_clients = record new_server {
  next_allocated_client_id = 1;
  clients = (0, 0) ∷ (1, 1) ∷ [];
  heap = new_client 0 pc ∷ new_client 1 nas ∷ [];
}

two_clients-IsSound : IsSound two_clients
unfolding contains
two_clients-IsSound = record {
  next_fits = omega arith;
  registered = (
    (new_client 0 pc, refl, refl, omega arith),
    refl,
    (λ e. absurd (omega (arith, e)), tt),
    ((new_client 1 nas, refl, refl, omega arith), refl, tt, tt),
  );
}

abbrev visits : List Step
visits =
    registers pc
    ∷ registers nas
    ∷ notifies ((0, pc) ∷ []) 1
    ∷ receives 0 0 (set_name nas)
    ∷ closes 1
    ∷ unregisters 1
    ∷ []

run-IsSound_example : OnState (run visits new_server) IsSound
run-IsSound_example = run-IsSound visits

register_lem_example :
    (id : ℕ) × (id < 2 ^ 64)
    × (contains id two_clients.clients ≡ false)
    × (register pc two_clients ≡ (ok 2, registered_state two_clients pc id))
    × ((j : ℕ)
        → get j (register pc two_clients).1.clients
          ≡ (if id == j then some 2 else get j two_clients.clients))
register_lem_example = register_lem two_clients pc two_clients-IsSound (omega arith)

pc-IsReady : IsReady two_clients.heap 0
pc-IsReady = (new_client 0 pc, refl, refl, omega arith)

nas-IsReady : IsReady two_clients.heap 1
nas-IsReady = (new_client 1 nas, refl, refl, omega arith)

-- The second client's channel is closed, but it has not been removed yet.
abbrev one_closed : Server
one_closed = record two_clients {
  heap = new_client 0 pc ∷ record (new_client 1 nas) { is_open = false } ∷ [];
}

one_closed-IsSound : IsSound one_closed
unfolding contains
one_closed-IsSound = record {
  next_fits = omega arith;
  registered = (
    (new_client 0 pc, refl, refl, omega arith),
    refl,
    (λ e. absurd (omega (arith, e)), tt),
    ((record (new_client 1 nas) { is_open = false }, refl, refl, omega arith), refl, tt, tt),
  );
}

connect_stale_example :
    ((connect pc one_closed).0 ≡ threw)
    × ((id : ℕ) × (contains id one_closed.clients ≡ false)
        × (get id (connect pc one_closed).1.clients ≡ some 2))
connect_stale_example =
    connect_stale one_closed pc one_closed-IsSound (omega arith)
      (
        (new_client 0 pc, refl, omega arith),
        ((record (new_client 1 nas) { is_open = false }, refl, omega arith), tt),
      )
      (inr (inl (record (new_client 1 nas) { is_open = false }, refl, refl)))

abbrev frame : Frame
frame = record { host = 0; reader = 1; client_token = 11; server_token = 22 }

pc_there : get 0 two_clients.clients ≡ some 0
unfolding get
pc_there = refl

nas_there : get 1 two_clients.clients ≡ some 1
unfolding get
nas_there = refl

abbrev token_in_use : Server
token_in_use = record two_clients { pending_browsers = (22, []) ∷ [] }

in_use : contains 22 token_in_use.pending_browsers ≡ true
unfolding contains
in_use = refl

no_browsers : contains 22 two_clients.pending_browsers ≡ false
unfolding contains
no_browsers = refl

establish_lem_example : establish frame 0 1 7 8 two_clients ≡ (
  ok (proxies 7 8),
  queued
      (queued two_clients 0 (send (connect_browser_request 22)))
      1
      (send (browser_connected 11 (some 22))),
)
establish_lem_example =
    establish_lem frame two_clients 0 1 7 8 pc_there nas_there no_browsers pc-IsReady nas-IsReady

abbrev music : RemoteDentries
music = record { id = 0; basedir = b'/' ∷ []; dentries = pc ∷ [] }

handshake_lem_example : handshake music (1, b'/' ∷ []) 22 7 8 two_clients ≡ (
  ok (connected 7 8),
  with_copies
      (told (told two_clients 0 (source_request 22 music)) 1 (destination_request 22 (b'/' ∷ [])))
      (put 22 [] []),
)
handshake_lem_example =
    handshake_lem two_clients music 1 (b'/' ∷ []) 22 0 1 7 8 pc_there nas_there no_browsers
      pc-IsReady nas-IsReady
