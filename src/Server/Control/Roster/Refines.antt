-- ===== src/Server/Control/Roster/Refines.antt =====
-- Every step of the server's Control coroutines (src/server.cpp) is a step of the roster.
use remy.Base.{ℕ, subst, ◌≡◌, refl, sym, List, [], ◌∷◌, Option, none, some, arith}
use remy.Base.Options.{◌>>=◌}
use remy.Base.Map.{get}
use remy.Protocol.Requests.{ClientMsg, set_name, get_clients_list, connect_browser, copy}
use remy.Server.Exec.{Outcome, ok, threw, waits, crashed, pure, resume}
use remy.Server.State.{Server, async_send}
use remy.Server.Control.Stable.{
  async_send-Keeps, send_clients_list-Keeps, notify_turn-Keeps, receive_action-Keeps, write-Keeps,
  close_requests-Keeps, spawn-Keeps,
}
use remy.Server.Control.Sound.{IsSound}
use remy.Server.Control.Run.{
  Step, registers, notifies, receives, takes, writes, sends, closes, unregisters, take_step,
  survives, run, OnState, new_server, step-IsSound,
}
use remy.Server.Control.{
  send_clients_list, get_clients_descs, close_requests, spawn, handle_client_msg, register,
  notify_turn, receive_action, write,
}
use remy.Server.Control.Roster.Names.{Shows, Shows-IsStable}
use remy.Server.Control.Roster.Steps.{
  Attached, Makes, Changes, same_roster, unchanged, quiet, register-Changes, set_name-Changes,
  unregister-Changes,
}
use remy.Server.Control.Roster.{Roster, Change, apply, Allowed, name_at, roster}

client_msg-Changes :
    (s : Server) (addr id : ℕ) (m : ClientMsg)
    → IsSound s
    → get id s.clients ≡ some addr
    → Changes (receives addr id m) s (handle_client_msg addr id m s).1
unfolding handle_client_msg
client_msg-Changes s addr id (set_name name) sound at = set_name-Changes s addr id name sound at
client_msg-Changes s addr id get_clients_list sound at =
    quiet (receives addr id get_clients_list) s (send_clients_list (get_clients_descs s) addr) tt
      (send_clients_list-Keeps (Shows (roster s)) (Shows-IsStable (roster s)) _ addr)
client_msg-Changes s addr id (connect_browser token host_id) sound at =
    quiet (receives addr id (connect_browser token host_id)) s (spawn _) tt
      (spawn-Keeps (Shows (roster s)) (Shows-IsStable (roster s)) _)
client_msg-Changes s addr id (copy src dst) sound at =
    quiet (receives addr id (copy src dst)) s (spawn _) tt
      (spawn-Keeps (Shows (roster s)) (Shows-IsStable (roster s)) _)

pure_after : (r : Outcome ℕ × Server) → (resume {0, 0, 0} (λ a. pure (tt {0})) r).1 ≡ r.1
pure_after (ok a, s) = refl
pure_after (threw, s) = refl
pure_after (waits, s) = refl
pure_after (crashed, s) = refl

-- Every step of a Control coroutine makes one change of the roster, or none.
pub step_refines :
    (step : Step) (s : Server) → IsSound s → Attached step s → Changes step s (take_step step s).1
step_refines (registers endpoint) s sound at =
    subst (Changes (registers endpoint) s) (sym (pure_after (register endpoint s)))
      (register-Changes s endpoint sound at)
step_refines (notifies list id) s sound at =
    quiet (notifies list id) s (notify_turn list id) tt
      (notify_turn-Keeps (Shows (roster s)) (Shows-IsStable (roster s)) list id)
step_refines (receives addr id m) s sound at = client_msg-Changes s addr id m sound at
step_refines (takes addr rest) s sound at =
    unchanged (takes addr rest) s (receive_action addr rest s) tt (
      receive_action-Keeps (Shows (roster s)) (Shows-IsStable (roster s)) addr rest s
        (same_roster s))
step_refines (writes addr m) s sound at =
    quiet (writes addr m) s (write addr m) tt
      (write-Keeps (Shows (roster s)) (Shows-IsStable (roster s)) addr m)
step_refines (sends addr a) s sound at =
    quiet (sends addr a) s (async_send addr a) tt
      (async_send-Keeps (Shows (roster s)) (Shows-IsStable (roster s)) addr a)
step_refines (closes addr) s sound at =
    unchanged (closes addr) s (close_requests addr s) tt
      (close_requests-Keeps (Shows (roster s)) (Shows-IsStable (roster s)) addr s (same_roster s))
step_refines (unregisters id) s sound at = unregister-Changes s id

abbrev pub AllAttached : List Step → Server → Type 0
AllAttached [] s = Unit
AllAttached (step ∷ steps) s =
    Attached step s × OnState (survives (take_step step s)) (AllAttached steps)

-- The roster follows the steps, each by a change that the step makes and that is allowed.
abbrev pub Follows : List Step → Roster → Roster → Type 0
Follows [] r t = t ≡ r
Follows (step ∷ steps) r t = (c : Change) × Makes step c × Allowed c r × Follows steps (apply c r) t

OnState-map :
    (P Q : Server → Type 0) (o : Option Server)
    → ((t : Server) → P t → Q t)
    → OnState o P
    → OnState o Q
OnState-map P Q none f h = tt
OnState-map P Q (some t) f h = f t h

continues :
    {A : Type 0} (P Q : Server → Type 0) (r : Outcome A × Server) (f : Server → Option Server)
    → OnState (survives r) P
    → (P r.1 → OnState (f r.1) Q)
    → OnState (survives r >>= f) Q
continues P Q (ok a, s) f h k = k h
continues P Q (threw, s) f h k = k h
continues P Q (waits, s) f h k = k h
continues P Q (crashed, s) f h k = tt

run_refines_from :
    (steps : List Step) (s : Server)
    → IsSound s
    → AllAttached steps s
    → OnState (run steps s) (λ t. Follows steps (roster s) (roster t))
run_refines_from [] s sound at = refl
run_refines_from (step ∷ steps) s sound (at, later) =
    let (c, makes, allowed, e) = step_refines step s sound at in
    continues (AllAttached steps) (λ t. Follows (step ∷ steps) (roster s) (roster t))
      (take_step step s) (run steps) later
      (λ attached.
        let u = (take_step step s).1 in
        OnState-map (λ t. Follows steps (roster u) (roster t)) _ (run steps u)
          (λ t follows. (c, makes, allowed, subst (λ r. Follows steps r (roster t)) e follows))
          (run_refines_from steps u (step-IsSound step s sound) attached))

-- Whatever the order of the steps of all coroutines, each from a suspension to the next, also of
-- those that throw or wait, unless a loop over the clients has gone on from an erased one; where
-- messages are received from registered clients, and fewer than 2 ^ 64 are connected when another
-- one comes: the server implements a roster of endpoints and names by id that is empty at first. A
-- connection adds its endpoint, also as its name, under a free id; a `SetName` gives its sender the
-- new name with the endpoint in parentheses; an end removes its client; no other step changes the
-- roster.
pub run_refines :
    (steps : List Step)
    → AllAttached steps new_server
    → OnState (run steps new_server) (λ t. Follows steps (λ id. none) (roster t))
unfolding roster name_at get
run_refines steps at =
    run_refines_from steps new_server (record { next_fits = omega arith; registered = tt }) at
