-- ===== src/View/Initial.antt =====
-- A `ClientUi` as it is constructed: the initial values of include/remy/view-client.hpp.
use remy.Base.{ℕ, ◌/◌, refl, inl, false, true, [], ◌∷◌, arith}
use remy.Utils.Duration.{codes}
use remy.Wire.{RemoteDentries, WatcherInfo}
use remy.View.State.{
  Browser, Panel, clients, ErrorModal, copy_dialog, confirmation_dialog, input, Ui,
}
use remy.View.Panels.Consistent.{IsConsistent}
use remy.View.Events.Panels.{IsSound}

-- What has no initial value there is 0.
abbrev new_browser : Browser
new_browser = record {
  client_id = 0;
  name = [];
  cwd = [];
  pretty_cwd = [];
  menu_index = 0;
  basenames = codes ".." ∷ [];
  metas = [];
  selected_dentries = false ∷ [];
}

abbrev new_panel : Panel
new_panel = record { view_selected = clients; client_menu_index = 0; browser = new_browser }

abbrev hidden : ErrorModal
hidden = record { message = []; is_shown = false }

abbrev no_entries : RemoteDentries
no_entries = record { id = 0; basedir = []; dentries = [] }

abbrev no_progress : WatcherInfo
no_progress = record {
  files_all = 0;
  files_completed = 0;
  total_size = 0;
  total_progress = 0;
  cur_size = 0;
  cur_progress = 0;
  cur_file = [];
  speed = 0;
}

-- `create_main_container` sets the split to half of the terminal's width.
abbrev pub new_ui : ℕ → Ui
new_ui dimx = record {
  clients = record { ids = []; names = []; pretty_names = [] };
  left = new_panel;
  right = new_panel;
  right_focused = false;
  warning = hidden;
  copy = record {
    is_shown = false;
    direction = true;
    view_selected = copy_dialog;
    src = no_entries;
    dst = (0, []);
    progress_info = no_progress;
  };
  delete = record {
    is_shown = false;
    state = confirmation_dialog;
    id = false;
    entries = no_entries;
    result_msg = [];
  };
  mkdir = record {
    is_shown = false;
    state = input;
    id = false;
    basedir = [];
    name = [];
    result_msg = [];
  };
  name_modal = record { new_name = []; is_shown = false };
  critical = hidden;
  show_help = false;
  pretty_name = codes "Client name is unknown";
  split_size = dimx / 2;
  log_lines = [];
  logs_shown = false;
  last_click = 0;
  returns = 0;
  has_exited = false;
  sent = [];
}

new_browser-IsConsistent : IsConsistent new_browser
new_browser-IsConsistent = record {
  names = [];
  basenames = refl;
  marks = refl;
  metas = omega arith;
  index = omega arith;
}

pub new_ui-IsSound : (dimx : ℕ) → IsSound (new_ui dimx)
new_ui-IsSound dimx = (new_browser-IsConsistent, new_browser-IsConsistent, refl, inl refl)
