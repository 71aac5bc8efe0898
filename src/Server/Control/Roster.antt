-- ===== src/Server/Control/Roster.antt =====
-- What the server promises about its clients, without addresses and channels: a roster of names by
-- id. `Refines` shows that the coroutines of src/server.cpp implement it.
pub mod Names
pub mod Steps
pub mod Refines
use mathlib.Core.Option
use remy.Base.{ℕ, ◌≡◌, List, [], ◌∷◌, ◌++◌, Option, none, some, ◌==◌, if◌then◌else◌, get_elem?}
use remy.Base.Map.{get}
use remy.Wire.{Text}
use remy.Utils.Trim.{trim_end}
use remy.Utils.Duration.{codes}
use remy.Server.State.{ClientCtrl, Server}
use remy.Server.Control.Stable.{card}

-- The endpoint and the name of each client.
abbrev pub Roster : Type 0
Roster = ℕ → Option (Text × Text)

-- A client that calls itself so.
unfoldable pub renamed_card : Text → Text × Text → Text × Text
renamed_card new_name (endpoint, name) =
    (endpoint, trim_end new_name ++ codes " (" ++ endpoint ++ codes ")")

pub data Change : Type 0 where
  joins : ℕ → Text → Change
  renames : ℕ → Text → Change
  leaves : ℕ → Change
  stays : Change

unfoldable pub apply : Change → Roster → Roster
apply (joins id endpoint) r = λ j. if id == j then some (endpoint, endpoint) else r j
apply (renames id new_name) r =
    λ j. if id == j then Option.map (renamed_card new_name) (r id) else r j
apply (leaves id) r = λ j. if id == j then none else r j
apply stays r = r

-- Nobody joins under an id that is taken, and only a client that is there changes its name.
abbrev pub Allowed : Change → Roster → Type 0
Allowed (joins id name) r = r id ≡ none
Allowed (renames id name) r = (old : Text × Text) × (r id ≡ some old)
Allowed (leaves id) r = Unit {0}
Allowed stays r = Unit {0}

-- The roster of a server: through the map of clients to the object, to its endpoint and name.
unfoldable pub name_at : List ClientCtrl → Option ℕ → Option (Text × Text)
name_at heap none = none
name_at heap (some addr) = Option.map card (get_elem? heap addr)

unfoldable pub roster : Server → Roster
unfolding name_at
roster s id = name_at s.heap (get id s.clients)
