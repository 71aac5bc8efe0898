-- ===== src/View/Modals.antt =====
-- The dialogs of `ClientUi` (src/view-client.cpp): copying, deleting, making a directory; and the
-- log.
use remy.Base.{
  ℕ, Bool, true, false, not, ◌||◌, ◌&&◌, List, [], ◌∷◌, ◌++◌, Option, none, some, leb, ◌==◌,
  if◌then◌else◌, length, drop,
}
use remy.Base.Options.{◌>>=◌}
use remy.Wire.{Text, RemoteDentries, WatcherInfo}
use remy.Utils.Trim.{trim_end}
use remy.View.State.{
  Browser, PanelView, browser, copy_dialog, copy_progress, copy_completed, copy_failed,
  confirmation_dialog, delete_waiting, delete_result, input, mkdir_waiting, mkdir_result, Ui,
  request_copy, request_delete, request_mkdir, panel_of, request,
}
use remy.View.Panels.{collect_selected_dentries, reload_info}

abbrev pub is_browser : PanelView → Bool
is_browser browser = true
is_browser view = false

-- m_basenames.size() <= 1
abbrev pub is_empty : Browser → Bool
is_empty b = leb (length b.basenames) 1

abbrev pub next_direction : Ui → Bool
next_direction ui =
    if not ui.copy.is_shown
    then ui.right_focused
    else if is_empty ui.left.browser
    then true
    else if is_empty ui.right.browser
    then false
    else not ui.copy.direction

-- Both `src` and `dst` are written before the check that there is something to send.
abbrev pub set_copy : Bool → RemoteDentries → Browser → Ui → Ui
set_copy direction src destination ui = record ui {
  copy = record ui.copy {
    direction = direction;
    src = src;
    dst = (destination.client_id, destination.cwd);
    is_shown = if length src.dentries == 0 then ui.copy.is_shown else true;
  };
}

abbrev pub choose_copy : Bool → Ui → Option Ui
choose_copy direction ui = do
  src ← collect_selected_dentries (panel_of direction ui).browser
  some (set_copy direction src (panel_of (not direction) ui).browser ui)

unfoldable pub copy_dialog_payload : Ui → Option Ui
copy_dialog_payload ui =
    if not (is_browser ui.left.view_selected) || not (is_browser ui.right.view_selected)
    then some ui
    else if is_empty ui.left.browser && is_empty ui.right.browser
    then some ui
    else choose_copy (next_direction ui) ui

-- WatcherInfo{.files_all = 1}
abbrev pub first_info : WatcherInfo
first_info = record {
  files_all = 1;
  files_completed = 0;
  total_size = 0;
  total_progress = 0;
  cur_size = 0;
  cur_progress = 0;
  cur_file = [];
  speed = 0;
}

-- The buttons of the dialog.
unfoldable pub copy_proceed : Ui → Ui
copy_proceed ui = record (request (request_copy ui.copy.src ui.copy.dst) ui) {
  copy = record ui.copy { progress_info = first_info; view_selected = copy_progress };
}

unfoldable pub copy_cancel : Ui → Ui
copy_cancel ui = record ui { copy = record ui.copy { is_shown = false } }

unfoldable pub copy_completed_ok : Ui → Ui
copy_completed_ok ui =
    reload_info
      (record ui { copy = record ui.copy { is_shown = false; view_selected = copy_dialog } })

unfoldable pub copy_failed_ok : Ui → Ui
copy_failed_ok ui = record ui {
  copy = record ui.copy { is_shown = false; view_selected = copy_dialog };
}

unfoldable pub update_watcher_info : Option WatcherInfo → Ui → Ui
update_watcher_info none ui = record ui { copy = record ui.copy { view_selected = copy_failed } }
update_watcher_info (some info) ui = record ui {
  copy = record ui.copy {
    progress_info = info;
    view_selected =
        if info.files_completed == info.files_all then copy_completed else copy_progress;
  };
}

-- The focused panel: `m_panels_components[0]->Focused() ? 0 : 1`.
abbrev pub open_delete : Bool → RemoteDentries → Ui → Ui
open_delete id entries ui =
    if length entries.dentries == 0
    then record ui { delete = record ui.delete { id = id; entries = entries } }
    else record ui {
      delete = record ui.delete {
        id = id;
        entries = entries;
        state = confirmation_dialog;
        is_shown = true;
      };
    }

unfoldable pub delete_dialog_payload : Ui → Option Ui
delete_dialog_payload ui =
    let id = ui.right_focused in
    let chosen = do
      entries ← collect_selected_dentries (panel_of id ui).browser
      some (open_delete id entries ui)
    in if is_browser (panel_of id ui).view_selected then chosen else some ui

unfoldable pub delete_confirm : Ui → Ui
delete_confirm ui = record (request (request_delete ui.delete.id ui.delete.entries) ui) {
  delete = record ui.delete { state = delete_waiting };
}

unfoldable pub show_delete_result : Text → Ui → Ui
show_delete_result msg ui = record ui {
  delete = record ui.delete { result_msg = msg; state = delete_result };
}

unfoldable pub delete_ok : Ui → Ui
delete_ok ui = reload_info (record ui { delete = record ui.delete { is_shown = false } })

unfoldable pub mkdir_dialog_payload : Ui → Ui
mkdir_dialog_payload ui =
    let id = ui.right_focused in
    if is_browser (panel_of id ui).view_selected
    then record ui {
      mkdir = record ui.mkdir {
        id = id;
        basedir = (panel_of id ui).browser.cwd;
        name = [];
        state = input;
        is_shown = true;
      };
    }
    else ui

-- The name is trimmed in place, also if nothing is left of it.
unfoldable pub apply_mkdir : Ui → Ui
apply_mkdir ui =
    let name = trim_end ui.mkdir.name in
    if length name == 0
    then record ui { mkdir = record ui.mkdir { name = name } }
    else record (request (request_mkdir ui.mkdir.id ui.mkdir.basedir name) ui) {
      mkdir = record ui.mkdir { name = name; state = mkdir_waiting };
    }

unfoldable pub show_mkdir_result : Text → Ui → Ui
show_mkdir_result msg ui = record ui {
  mkdir = record ui.mkdir { result_msg = msg; state = mkdir_result };
}

unfoldable pub mkdir_ok : Ui → Ui
mkdir_ok ui = reload_info (record ui { mkdir = record ui.mkdir { is_shown = false } })

-- LOG_BUF_LEN; what is done to `m_logs.lines` for a new line.
abbrev pub log_buf_len : ℕ
log_buf_len = 25

unfoldable pub log {ℓ} : {A : Type ℓ} → A → List A → List A
log line lines = (if leb log_buf_len (length lines) then drop 1 lines else lines) ++ line ∷ []
