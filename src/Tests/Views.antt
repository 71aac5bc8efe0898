-- ===== src/Tests/Views.antt =====
-- A user interface with two browsers (src/view-client.cpp).
use remy.Base.{
  ℕ, ◌+◌, ◌*◌, ◌≤◌, ◌<◌, ◌≡◌, ◌≢◌, ◌⊎◌, inl, refl, ap, not, ◌||◌, ltb, true, false, List, [], ◌∷◌,
  some, arith, length,
}
use remy.Wire.{Text, Dentry, RemoteDentries, WatcherInfo}
use remy.Utils.Duration.{codes}
use remy.Tests.Copying.{meta_of}
use remy.View.Dents.Order.{HasNoTwins}
use remy.View.Texts.{permissions, eta_seconds, remaining_size}
use remy.View.Texts.Permissions.{read_letters, permissions_lem}
use remy.View.Texts.Remaining.{eta_seconds_lem}
use remy.View.Events.Modal.{Shows, is_posted}
use remy.View.Events.Modal.Stuck.{IsWaiting, waits_for_answer}
use remy.View.State.{
  Browser, Panel, panel_of, browser, clients, delete_waiting, copy_dialog, confirmation_dialog,
  input, Ui,
}
use remy.View.Panels.{
  browser_error, update_clients, enter_client, show_dents, collect_selected_dentries, no_metainfo,
}
use remy.View.Panels.Consistent.{IsConsistent, AreAmong, collect_lem}
use remy.View.Modals.{copy_dialog_payload, first_info}
use remy.View.Events.{
  Event, posted_error, posted_clients, posted_dents, entered_client, chose_client, toggled, handle,
}
use remy.View.Events.Panels.{IsSound}
use remy.View.Initial.{new_ui}
use remy.View.Session.{run, AllInRange, session-IsSound}
use remy.View.Events.Copying.{is_idle, Directed, copy_dialog_lem}

abbrev file : ℕ → ℕ → Dentry
file c mode = record { basename = c ∷ []; metainfo = meta_of 3 mode }

abbrev dents : List Dentry
dents = file b'b' 33188 ∷ file b'a' 33188 ∷ file b'z' 16877 ∷ []

-- Two entries, the second one is highlighted and neither is marked.
abbrev listing : Browser
listing = record {
  client_id = 4;
  name = codes "pc";
  cwd = codes "/home";
  pretty_cwd = codes "pc:/home";
  menu_index = 2;
  basenames = codes ".." ∷ codes "a" ∷ codes "b" ∷ [];
  metas = no_metainfo ∷ meta_of 3 33188 ∷ meta_of 4 33188 ∷ [];
  selected_dentries = false ∷ false ∷ false ∷ [];
}

listing-IsConsistent : IsConsistent listing
listing-IsConsistent = record {
  names = codes "a" ∷ codes "b" ∷ [];
  basenames = refl;
  marks = refl;
  metas = omega arith;
  index = omega arith;
}

collect_lem_example :
    (r : RemoteDentries) × (collect_selected_dentries listing ≡ some r)
    × (r.id ≡ 4)
    × (r.basedir ≡ codes "/home")
    × AreAmong r.dentries (codes "a" ∷ codes "b" ∷ [])
    × ((0 < length r.dentries) ⊎ (codes "a" ∷ codes "b" ∷ [] ≡ []))
collect_lem_example = collect_lem listing listing-IsConsistent

abbrev panel : Panel
panel = record { view_selected = browser; client_menu_index = 0; browser = listing }

abbrev nothing_chosen : RemoteDentries
nothing_chosen = record { id = 0; basedir = []; dentries = [] }

abbrev pub two_browsers : Ui
two_browsers = record {
  clients = record { ids = []; names = []; pretty_names = [] };
  left = panel;
  right = panel;
  right_focused = true;
  warning = record { message = []; is_shown = false };
  copy = record {
    is_shown = false;
    direction = true;
    view_selected = copy_dialog;
    src = nothing_chosen;
    dst = (0, []);
    progress_info = first_info;
  };
  delete = record {
    is_shown = false;
    state = confirmation_dialog;
    id = false;
    entries = nothing_chosen;
    result_msg = [];
  };
  mkdir = record {
    is_shown = false;
    state = input;
    id = false;
    basedir = [];
    name = [];
    result_msg = [];
  };
  name_modal = record { new_name = []; is_shown = false };
  critical = record { message = []; is_shown = false };
  show_help = false;
  pretty_name = codes "Client name is unknown";
  split_size = 40;
  log_lines = [];
  logs_shown = false;
  last_click = 0;
  returns = 0;
  has_exited = false;
  sent = [];
}

two_browsers-IsSound : IsSound two_browsers
two_browsers-IsSound = (listing-IsConsistent, listing-IsConsistent, refl, inl refl)

-- A session: the list of clients comes, the user chooses it, and it sends a directory.
abbrev session : List Event
session =
    posted_clients ((1, codes "pc") ∷ (2, codes "nas") ∷ [])
    ∷ chose_client false 1
    ∷ entered_client false
    ∷ posted_dents false ([], some dents)
    ∷ toggled false
    ∷ []

abbrev head : Text → ℕ
head [] = 0
head (c ∷ s) = c

apart : {c d : ℕ} → c ≢ d → c ∷ [] ≢ d ∷ []
apart h e = h (ap head e)

dents-HasNoTwins : HasNoTwins dents
dents-HasNoTwins =
    ((apart (omega arith), (apart (omega arith), tt)), ((apart (omega arith), tt), (tt, tt)))

session_in_range : AllInRange session (new_ui 80)
unfolding handle update_clients enter_client show_dents
session_in_range = (tt, (tt, (omega arith, (dents-HasNoTwins, (tt, tt)))))

session-IsSound_example : (t : Ui) × (run session (new_ui 80) ≡ some t) × IsSound t
session-IsSound_example = session-IsSound 80 session session_in_range

copy_dialog_lem_example :
    (t : Ui) × (copy_dialog_payload two_browsers ≡ some t)
    × ((is_idle two_browsers ≡ true) × (t ≡ two_browsers)
        ⊎ (is_idle two_browsers ≡ false)
          × Directed two_browsers t.copy.direction
          × (collect_selected_dentries (panel_of t.copy.direction two_browsers).browser
              ≡ some t.copy.src)
          × (t.copy.src.id ≡ (panel_of t.copy.direction two_browsers).browser.client_id)
          × (t.copy.src.basedir ≡ (panel_of t.copy.direction two_browsers).browser.cwd)
          × (t.copy.dst ≡ (
            (panel_of (not t.copy.direction) two_browsers).browser.client_id,
            (panel_of (not t.copy.direction) two_browsers).browser.cwd,
          ))
          × (t.copy.is_shown ≡ (two_browsers.copy.is_shown || ltb 0 (length t.copy.src.dentries))))
copy_dialog_lem_example = copy_dialog_lem two_browsers two_browsers-IsSound

-- The right pane's entries are about to be deleted, and the answer has not come.
abbrev deleting : Ui
deleting = record two_browsers {
  delete = record {
    is_shown = true;
    state = delete_waiting;
    id = true;
    entries = nothing_chosen;
    result_msg = [];
  };
}

deleting-IsWaiting : IsWaiting deleting
deleting-IsWaiting = record { is_shown = refl; waits = refl; uncovered = refl }

abbrev disconnected : Ui
disconnected = record deleting {
  right = record panel { view_selected = clients };
  warning = record { message = codes "Client pc unexpectedly disconnected"; is_shown = true };
}

disconnected_shown : Shows (posted_error true ∷ []) deleting disconnected
unfolding handle is_posted browser_error
disconnected_shown = (disconnected, record { reaches = refl; handled = refl }, refl)

waits_for_answer_example : IsWaiting disconnected
waits_for_answer_example =
    waits_for_answer (posted_error true ∷ []) deleting-IsWaiting (refl, tt) disconnected_shown

permissions_lem_example : read_letters (codes "rwxrwxrwx") 0 (permissions 33261) ≡ some 493
permissions_lem_example = permissions_lem 33261

abbrev copying : WatcherInfo
copying = record first_info { total_size = 1000; total_progress = 300; speed = 64 }

eta_seconds_lem_example :
    (n : ℕ) × (eta_seconds copying ≡ some n)
    × (n * 64 ≤ remaining_size copying)
    × ((◌≡◌ {A = ℕ} 64 0) × (n ≡ 0) ⊎ (remaining_size copying < (n + 1) * 64))
    × (300 + remaining_size copying ≡ 1000)
eta_seconds_lem_example = eta_seconds_lem copying
