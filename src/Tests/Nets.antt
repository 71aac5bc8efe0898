-- ===== src/Tests/Nets.antt =====
-- The network part of a client (src/client.cpp) with two panes, and what becomes of its connections.
use remy.Base.{◌≡◌, ◌⊎◌, refl, false, true, [], ◌∷◌, none, some}
use remy.Utils.Duration.{codes}
use remy.Protocol.Control.{browser_connected}
use remy.Protocol.Browser.{get_dents, delete_response}
use remy.Tests.Views.{two_browsers}
use remy.View.State.{Ui, waiting}
use remy.View.Events.{posted_error, posted_warning, posted_critical}
use remy.View.Main.{show_warning}
use remy.View.Events.{handle}
use remy.View.Events.Modal.{Shows, is_posted}
use remy.View.Events.Modal.Stranded.{IsWaiting}
use remy.Client.Net.{Net, Task, Reader, new_reader, reader_of, get_list, send_request}
use remy.Client.Net.Control.{handle_server_msg, incoming_ends}
use remy.Client.Net.Readers
use remy.Client.Net.Readers.{other_error, reader_failed, start_task, handle_host_msg}
use remy.Client.Net.Later
use remy.Client.Net.Later.{receives_host}
use remy.Client.Net.Panes.{accepted, asked, browser_answer}
use remy.Client.Net.Locked.{Threads, with_net, here}
use remy.Client.Net.Locked.Deadlock.{IsStuck, deadlock}
use remy.Client.Net.Failures.{connect_failure_strands, lost_control}

-- The right pane has a reader that is at work, the left one has none.
abbrev at_work : Reader
at_work = record (new_reader 7) { socket_open = true; written = get_dents [] ∷ [] }

abbrev one_reader : Net
one_reader = record {
  id = 3;
  browser_ids = [];
  left_reader = none;
  right_reader = some at_work;
  requests = [];
  requests_open = true;
  control_open = true;
  written = [];
  browser_hosts_count = 0;
  spawned = [];
  posted = [];
}

browser_answer_example :
    let sent = asked true 4 11 one_reader in
    let answered = accepted true 4 11 8 one_reader in
    ((handle_server_msg (browser_connected 11 none) sent).posted ≡ posted_error true ∷ [])
    × ((task : Task) × (answered.spawned ≡ task ∷ [])
        × let (given, t) = start_task task answered in
          ((reader_of true one_reader ≡ none)
              × (given ≡ some true)
              × (reader_of true t ≡ some (new_reader 8))
              × (reader_of false t ≡ none)
              × (t.posted ≡ [])
            ⊎ ((r : Reader) × (reader_of true one_reader ≡ some r)
                × (given ≡ none)
                × (reader_of true t ≡ some r)
                × (reader_of false t ≡ none)
                × (t.posted ≡ posted_warning (codes "Can't allocate new connection") ∷ []))))
browser_answer_example = browser_answer true 4 11 8 one_reader

-- The user interface waits for the reader of the right pane, and its connection ends.
abbrev asking : Threads
asking = record { net = one_reader; sending = some (true, get_dents (codes "/home")) }

abbrev after_end : Threads
after_end = with_net asking (Readers.incoming_ends true other_error one_reader)

deadlock_example : IsStuck true (get_dents (codes "/home")) after_end
deadlock_example =
    deadlock true (get_dents (codes "/home")) other_error asking {r = at_work} {u = after_end} refl
      refl here

-- An error of a browsed host is read between the two attempts.
abbrev shut : Net
shut = incoming_ends [] one_reader

abbrev shut_later : Net
shut_later = handle_host_msg true (delete_response []) shut

lost_control_example :
    (shut.posted ≡ posted_critical [] ∷ [])
    × (send_request get_list (shut ∷ shut_later ∷ []) ≡ none)
lost_control_example =
    lost_control get_list [] one_reader (shut ∷ shut_later ∷ [])
      (Later.here, (Later.next Later.here (receives_host true (delete_response []) refl), tt))

-- The left pane waits.
abbrev pane_waits : Ui
pane_waits = record two_browsers { left = record two_browsers.left { view_selected = waiting } }

abbrev warned : Ui
warned = record pane_waits { warning = record { message = codes "refused"; is_shown = true } }

warning_shown : Shows (posted_warning (codes "refused") ∷ []) pane_waits warned
unfolding handle is_posted show_warning
warning_shown = (warned, record { reaches = refl; handled = refl }, refl)

connect_failure_strands_example :
    ((reader_failed false (codes "refused") one_reader).posted
      ≡ posted_warning (codes "refused") ∷ [])
    × (reader_of false (reader_failed false (codes "refused") one_reader) ≡ none)
    × IsWaiting false warned
connect_failure_strands_example =
    connect_failure_strands false (codes "refused") one_reader [] pane_waits warned refl tt
      warning_shown
