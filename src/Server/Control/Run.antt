-- ===== src/Server/Control/Run.antt =====
-- The server under any sequence of the steps of its coroutines (src/server.cpp).
use remy.Base.{ℕ, ◌≡◌, arith, List, [], ◌∷◌, Option, none, some}
use remy.Base.Options.{◌>>=◌}
use remy.Wire.{Text, ClientsListPayload}
use remy.Protocol.Control.{ServerMsg}
use remy.Protocol.Requests.{ClientMsg}
use remy.Server.Exec.{Exec, Outcome, ok, threw, waits, crashed, pure}
use remy.Server.Exec
use remy.Server.Keeps.{Keeps-pure, Keeps-then}
use remy.Server.State.{SendAction, Server, async_send}
use remy.Server.Control.{
  register, unregister, notify_turn, close_requests, handle_client_msg, receive_action, write,
}
use remy.Server.Control.Sound.{
  IsSound, register-IsSound, unregister-IsSound, notify_turn-IsSound, close_requests-IsSound,
  handle_client_msg-IsSound, async_send-IsSound, receive_action-IsSound, write-IsSound,
}

-- What a coroutine does from one suspension to the next, or under one hold of the lock. A client's
-- coroutine registers it, then notifies: `notifies` is one turn of this loop, in which the iterator
-- stands at an id, and the list may be one that was made long ago. It receives messages, takes
-- actions off the channel, writes messages of any kind, closes the channel, unregisters, and notifies
-- again. `sends` is an action for a client, of another coroutine or one that has waited for room.
pub data Step : Type 0 where
  registers : Text → Step
  notifies : ClientsListPayload → ℕ → Step
  receives : ℕ → ℕ → ClientMsg → Step
  takes : ℕ → List SendAction → Step
  writes : ℕ → ServerMsg → Step
  sends : ℕ → SendAction → Step
  closes : ℕ → Step
  unregisters : ℕ → Step

abbrev pub take_step : Step → Exec Server (Unit {0})
take_step (registers endpoint) = Exec.◌>>◌ (register endpoint) (pure tt)
take_step (notifies list id) = notify_turn list id
take_step (receives addr id m) = handle_client_msg addr id m
take_step (takes addr rest) = λ s. (ok tt, receive_action addr rest s)
take_step (writes addr m) = write addr m
take_step (sends addr a) = async_send addr a
take_step (closes addr) = λ s. (ok tt, close_requests addr s)
take_step (unregisters id) = λ s. (ok tt, unregister id s)

-- Undefined behaviour has no state after it.
abbrev pub survives : {A : Type 0} → Outcome A × Server → Option Server
survives (ok a, s) = some s
survives (threw, s) = some s
survives (waits, s) = some s
survives (crashed, s) = none

abbrev pub run : List Step → Server → Option Server
run [] s = some s
run (step ∷ steps) s = survives (take_step step s) >>= run steps

abbrev pub new_server : Server
new_server = record {
  next_allocated_client_id = 0;
  clients = [];
  heap = [];
  pending_browsers = [];
  pending_copy_ops = [];
  spawned = [];
}

pub step-IsSound : (step : Step) (s : Server) → IsSound s → IsSound (take_step step s).1
step-IsSound (registers endpoint) s h =
    (Keeps-then (register endpoint) _ (register-IsSound endpoint) (Keeps-pure tt)).at s h
step-IsSound (notifies list id) s h = (notify_turn-IsSound list id).at s h
step-IsSound (receives addr id m) s h = (handle_client_msg-IsSound addr id m).at s h
step-IsSound (takes addr rest) s h = receive_action-IsSound addr rest s h
step-IsSound (writes addr m) s h = (write-IsSound addr m).at s h
step-IsSound (sends addr a) s h = (async_send-IsSound addr a).at s h
step-IsSound (closes addr) s h = close_requests-IsSound addr s h
step-IsSound (unregisters id) s h = unregister-IsSound id s h

-- A step that has not crashed leads to the state that it leaves.
pub survives-state :
    {A : Type 0} (r : Outcome A × Server) {t : Server} → survives r ≡ some t → t ≡ r.1
survives-state (ok a, s) e = cc
survives-state (threw, s) e = cc
survives-state (waits, s) e = cc
survives-state (crashed, s) e = cc

abbrev pub OnState : Option Server → (Server → Type 0) → Type 0
OnState none P = Unit {0}
OnState (some s) P = P s

survived-IsSound :
    {A : Type 0} (r : Outcome A × Server) → IsSound r.1 → OnState (survives r) IsSound
survived-IsSound (ok a, s) h = h
survived-IsSound (threw, s) h = h
survived-IsSound (waits, s) h = h
survived-IsSound (crashed, s) h = tt

continued :
    (o : Option Server) (f : Server → Option Server)
    → ((s : Server) → IsSound s → OnState (f s) IsSound)
    → OnState o IsSound
    → OnState (o >>= f) IsSound
continued none f keep h = tt
continued (some s) f keep h = keep s h

run-IsSound_from : (steps : List Step) (s : Server) → IsSound s → OnState (run steps s) IsSound
run-IsSound_from [] s h = h
run-IsSound_from (step ∷ steps) s h =
    continued (survives (take_step step s)) (run steps) (run-IsSound_from steps)
      (survived-IsSound (take_step step s) (step-IsSound step s h))

-- In every order of the steps of all coroutines, each from a suspension to the next, also of those
-- that throw or wait, unless a loop over the clients has gone on from an erased one: the map of
-- clients stays a one-to-one map from ids of 64 bits to the objects that have them: no id stands
-- twice, no object is missing, and the next id to try has 64 bits.
pub run-IsSound : (steps : List Step) → OnState (run steps new_server) IsSound
run-IsSound steps =
    run-IsSound_from steps new_server (record { next_fits = omega arith; registered = tt })
