-- ===== src/Client/Net/Failures.antt =====
-- What a user is left with when a connection fails (src/client.cpp): the network's part and the user
-- interface together.
use remy.Base.{◌≡◌, refl, Bool, true, false, List, [], ◌∷◌, ◌++◌, none, All}
use remy.Wire.{Text}
use remy.View.State.{Ui}
use remy.View.Events.{Event, posted_warning, posted_critical}
use remy.View.Events.Modal.{Shows}
use remy.View.Events.Modal.Stranded.{IsWaiting, is_news, waits_for_news}
use remy.Client.Net.{ControlAction, Net, reader_of, send_request}
use remy.Client.Net.Control.{incoming_ends}
use remy.Client.Net.Later.{IsShut, Trail, Reach-IsShut, refuses}
use remy.Client.Net.Readers.{reader_ends, reader_failed}

reader_of-ends : (pane : Bool) (net : Net) → reader_of pane (reader_ends pane net) ≡ none
unfolding reader_ends
reader_of-ends false net = refl
reader_of-ends true net = refl

posted-ends : (pane : Bool) (net : Net) → (reader_ends pane net).posted ≡ net.posted
unfolding reader_ends
posted-ends false net = refl
posted-ends true net = refl

-- If `connect` throws for a pane that waits, a warning is posted and the reader is removed, and
-- that is all: after the warning the pane stays in its waiting tab, whatever else happens, until
-- the network reports an error or a listing for this pane.
pub connect_failure_strands :
    (pane : Bool) (msg : Text) (net : Net) (later : List Event) (ui t : Ui)
    → IsWaiting pane ui
    → All (λ e. is_news pane e ≡ false) later
    → Shows (posted_warning msg ∷ later) ui t
    → ((reader_failed pane msg net).posted ≡ net.posted ++ posted_warning msg ∷ [])
      × (reader_of pane (reader_failed pane msg net) ≡ none)
      × IsWaiting pane t
unfolding reader_failed
connect_failure_strands pane msg net later ui t waits quiet shows = (
  posted-ends pane _,
  reader_of-ends pane _,
  waits_for_news pane (posted_warning msg ∷ later) ui t waits (refl, quiet) shows,
)

closed_refuses :
    (action : ControlAction) (net : Net) (found : List Net)
    → IsShut net
    → Trail net found
    → send_request action found ≡ none
unfolding send_request
closed_refuses action net [] shut at = refl
closed_refuses action net (m ∷ found) shut (reach, later) =
    let still = Reach-IsShut reach shut in
    rw (refuses action m still, send_request) (closed_refuses action m found still later)

-- When the Control connection is lost, the critical error is posted and the channel is closed. From
-- then on, whatever steps of the network thread come before each attempt, no attempt sends a request,
-- so that each request of the user interface, which waits for its success, never returns.
pub lost_control :
    (action : ControlAction) (msg : Text) (net : Net) (found : List Net)
    → Trail (incoming_ends msg net) found
    → ((incoming_ends msg net).posted ≡ net.posted ++ posted_critical msg ∷ [])
      × (send_request action found ≡ none)
unfolding incoming_ends
lost_control action msg net found at = (refl, closed_refuses action _ found refl at)
