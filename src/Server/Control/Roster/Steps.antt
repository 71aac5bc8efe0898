-- ===== src/Server/Control/Roster/Steps.antt =====
-- The parts of the server's Control coroutines (src/server.cpp) that change the roster.
use mathlib.Core.Option
use remy.Base.{
  ℕ, ◌^◌, ◌<◌, ◌≡◌, refl, sym, ap, fun_ext, ◌∙◌, false, Option, none, some, ◌==◌, if◌then◌else◌,
  length, modify, get_elem?,
}
use remy.Base.Map.{get, contains, contains-get, get-erase}
use remy.Wire.{Text}
use remy.Protocol.Requests.{set_name, get_clients_list, connect_browser, copy}
use remy.Server.Exec.{Exec}
use remy.Server.Keeps.{Keeps}
use remy.Server.State.{announce_name, ClientCtrl, Server}
use remy.Server.Control.Stable.{card, async_send-Keeps}
use remy.Server.Control.Sound.{IsSound}
use remy.Server.Control.Lifetime.{register_lem}
use remy.Server.Control.Run.{
  Step, registers, notifies, receives, takes, writes, sends, closes, unregisters,
}
use remy.Server.Control.{register, unregister, full_name, handle_set_name}
use remy.Server.Control.Roster.Names.{
  Shows, Shows-IsStable, name_at-some, known, registered-roster, renamed_name, left_name,
}
use remy.Server.Control.Roster.{
  Change, joins, renames, leaves, stays, apply, renamed_card, Allowed, name_at, roster,
}

-- Fewer than 2 ^ 64 clients are connected when another one comes, and who sends a message is there.
abbrev pub Attached : Step → Server → Type 0
Attached (registers endpoint) s = length s.clients < 2 ^ 64
Attached (receives addr id m) s = get id s.clients ≡ some addr
Attached step s = Unit {0}

-- What change a step makes: a client joins under its endpoint, a `SetName` renames the client that
-- sent it as this asks for, the end of the coroutines takes the client away.
abbrev pub Makes : Step → Change → Type 0
Makes (registers endpoint) (joins id joined) = joined ≡ endpoint
Makes (receives addr id (set_name new_name)) (renames renamed name) =
    (renamed ≡ id) × (name ≡ new_name)
Makes (receives addr id get_clients_list) stays = Unit {0}
Makes (receives addr id (connect_browser token host_id)) stays = Unit {0}
Makes (receives addr id (copy src dst)) stays = Unit {0}
Makes (notifies list id) stays = Unit {0}
Makes (takes addr rest) stays = Unit {0}
Makes (writes addr m) stays = Unit {0}
Makes (sends addr a) stays = Unit {0}
Makes (closes addr) stays = Unit {0}
Makes (unregisters id) (leaves left) = left ≡ id
Makes step change = ⊥

-- It makes such a change, and one that is allowed.
abbrev pub Changes : Step → Server → Server → Type 0
Changes step s t =
    (c : Change) × Makes step c × Allowed c (roster s) × (roster t ≡ apply c (roster s))

pub same_roster : (s : Server) → Shows (roster s) s
same_roster s = record { at = λ j. refl }

pub unchanged :
    (step : Step) (s t : Server) → Makes step stays → Shows (roster s) t → Changes step s t
unfolding apply
unchanged step s t makes h = (stays, makes, tt, fun_ext h.at)

pub quiet :
    (step : Step) (s : Server) (m : Exec Server (Unit {0}))
    → Makes step stays
    → Keeps (Shows (roster s)) m
    → Changes step s (m s).1
quiet step s m makes k = unchanged step s (m s).1 makes (k.at s (same_roster s))

absent : (s : Server) (id : ℕ) → contains id s.clients ≡ false → roster s id ≡ none
unfolding roster name_at
absent s id new = ap (λ o. name_at s.heap o) (contains-get id s.clients new)

pub register-Changes :
    (s : Server) (endpoint : Text)
    → IsSound s
    → length s.clients < 2 ^ 64
    → Changes (registers endpoint) s (register endpoint s).1
register-Changes s endpoint sound few =
    let (id, fits, new, run, _keys) = register_lem s endpoint sound few in
    rw run
      (joins id endpoint, refl, absent s id new, fun_ext (registered-roster s sound endpoint id).at)

abbrev with_name : Server → ℕ → Text → Server
with_name s addr name = record s { heap = modify s.heap addr (λ d. record d { name = name }) }

card_of :
    (s : Server) (addr id : ℕ) {c : ClientCtrl}
    → get id s.clients ≡ some addr
    → get_elem? s.heap addr ≡ some c
    → name_at s.heap (get id s.clients) ≡ some (card c)
card_of s addr id at there = ap (λ o. name_at s.heap o) at ∙ name_at-some s.heap addr there

renamed :
    (s : Server) (addr id : ℕ) (new_name : Text) {c : ClientCtrl}
    → IsSound s
    → get id s.clients ≡ some addr
    → get_elem? s.heap addr ≡ some c
    → Shows (apply (renames id new_name) (roster s)) (with_name s addr (full_name new_name c))
unfolding roster apply full_name renamed_card
renamed s addr id new_name {c} sound at there = record {
  at = λ j.
      renamed_name s sound id addr j (full_name new_name c) (get j s.clients) at there refl
      ∙ ap
          (λ (o : Option (Text × Text)).
            if id == j
            then Option.map (renamed_card new_name) o
            else name_at s.heap (get j s.clients))
          (sym (card_of s addr id at there));
}

pub set_name-Changes :
    (s : Server) (addr id : ℕ) (new_name : Text)
    → IsSound s
    → get id s.clients ≡ some addr
    → Changes (receives addr id (set_name new_name)) s (handle_set_name addr new_name s).1
unfolding handle_set_name roster
set_name-Changes s addr id new_name sound at =
    let (c, there) = known s sound id addr at in
    let name = full_name new_name c in
    let r = apply (renames id new_name) (roster s) in
    let after : Shows r (handle_set_name addr new_name s).1 =
      rw (there, handle_set_name)
        ((async_send-Keeps (Shows r) (Shows-IsStable r) addr (announce_name name)).at
          (with_name s addr name) (renamed s addr id new_name sound at there)) in
    (renames id new_name, (refl, refl), (card c, card_of s addr id at there), fun_ext after.at)

pub unregister-Changes : (s : Server) (id : ℕ) → Changes (unregisters id) s (unregister id s)
unfolding unregister roster apply
unregister-Changes s id = (
  leaves id,
  refl,
  tt,
  fun_ext (λ j. ap (λ o. name_at s.heap o) (get-erase id j s.clients) ∙ left_name s j (id == j)),
)
