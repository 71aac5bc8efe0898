-- ===== src/Tests/Rosters.antt =====
-- The roster of the server (src/server.cpp) while clients come, change their names and go; and the
-- announcements of new connections.
use remy.Base.{◌≡◌, refl, arith, List, [], ◌∷◌, ◌++◌, none, some}
use remy.Base.Map.{get, put, contains, erase}
use remy.Utils.Duration.{codes}
use remy.Protocol.Requests.{set_name}
use remy.Server.State.{async_send}
use remy.Server.Ids.{allocate_id, find_free}
use remy.Server.Control.{register, send_clients_list, notify_turn, unregister, handle_client_msg}
use remy.Server.Control.Run.{
  Step, registers, notifies, receives, unregisters, run, OnState, new_server,
}
use remy.Server.Control.Roster.{roster}
use remy.Server.Control.Roster.Refines.{AllAttached, Follows, run_refines}
use remy.Server.Channels.{browser_conn, send_hello, recv_hello}
use remy.Server.Channels.Announce.{recv_hello-send_hello}

-- The client gets the list that it is on, and later nobody does.
abbrev visit : List Step
visit =
    registers (codes "10.0.0.2")
    ∷ notifies ((0, codes "10.0.0.2") ∷ []) 0
    ∷ receives 0 0 (set_name (codes "pc"))
    ∷ unregisters 0
    ∷ []

attached : AllAttached visit new_server
unfolding get put contains register allocate_id find_free send_clients_list async_send notify_turn
    handle_client_msg
attached = (omega arith, (tt, (refl, (tt, tt))))

run_refines_example : OnState (run visit new_server) (λ t. Follows visit (λ id. none) (roster t))
run_refines_example = run_refines visit attached

-- A loop that stands at a client which is erased meanwhile.
went_on_from_erased : run (registers [] ∷ unregisters 0 ∷ notifies [] 0 ∷ []) new_server ≡ none
unfolding get put register allocate_id find_free notify_turn unregister contains erase
went_on_from_erased = refl

recv_hello-send_hello_example :
    recv_hello (send_hello (browser_conn 77) ++ 5 ∷ []) ≡ some (browser_conn 77, 5 ∷ [])
recv_hello-send_hello_example = recv_hello-send_hello (browser_conn 77) (5 ∷ []) (omega arith)
