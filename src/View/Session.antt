-- ===== src/View/Session.antt =====
-- A whole session of `ClientUi` (src/view-client.cpp).
use remy.Base.{ℕ, ◌≡◌, refl, List, [], ◌∷◌, Option, none, some, subst}
use remy.Base.Options.{◌>>=◌, bind_some}
use remy.View.State.{Ui}
use remy.View.Initial.{new_ui, new_ui-IsSound}
use remy.View.Events.{Event, handle}
use remy.View.Events.Panels.{IsSound, InRange}
use remy.View.Events.Sound.{handle-IsSound}

unfoldable pub run : List Event → Ui → Option Ui
run [] ui = some ui
run (e ∷ es) ui = handle e ui >>= run es

abbrev pub OnResult : Option Ui → (Ui → Type 0) → Type 0
OnResult none P = Unit
OnResult (some t) P = P t

-- None of the events, where it comes, enters a client that is not listed, or lists a name twice.
abbrev pub AllInRange : List Event → Ui → Type 0
AllInRange [] ui = Unit
AllInRange (e ∷ es) ui = InRange e ui × OnResult (handle e ui) (AllInRange es)

run-IsSound_from :
    (events : List Event) (ui : Ui)
    → AllInRange events ui
    → IsSound ui
    → (t : Ui) × (run events ui ≡ some t) × IsSound t
unfolding run
run-IsSound_from [] ui at ok = (ui, refl, ok)
run-IsSound_from (e ∷ es) ui (at, later) ok =
    let (t, handled, sound) = handle-IsSound e ui at ok in
    let (u, runs, sound_after) =
      run-IsSound_from es t (subst (λ o. OnResult o (AllInRange es)) handled later) sound in
    (u, bind_some (handle e ui) (run es) handled runs, sound_after)

-- From the constructor on, whatever the user does and the network posts, in any order: as long as
-- the lists of clients hand out indices of their entries, and no listing has a name twice, with
-- which the comparison for `std::sort` is at fault, every event is handled without a read beyond
-- the end of a vector, and the state stays sound: the lists of each browser fit together, and a
-- copy dialog that is shown has something to copy.
pub session-IsSound :
    (dimx : ℕ) (events : List Event)
    → AllInRange events (new_ui dimx)
    → (t : Ui) × (run events (new_ui dimx) ≡ some t) × IsSound t
session-IsSound dimx events at = run-IsSound_from events (new_ui dimx) at (new_ui-IsSound dimx)
