-- ===== src/View/Main.antt =====
-- The main container of `ClientUi` (src/view-client.cpp): its keys and mouse clicks; the help, name,
-- warning and critical dialogs; and the log view.
use remy.Base.{
  ℕ, ◌+◌, ◌-◌, ◌/◌, Bool, true, false, not, Option, some, ltb, ◌==◌, if◌then◌else◌, ◌++◌,
}
use remy.Wire.{Text}
use remy.Utils.Duration.{codes}
use remy.Utils.Trim.{trim_end}
use remy.Logger.Levels.{LogLevel, log_color, log_is_bold}
use remy.View.State.{Ui, request, warn, set_new_name}
use remy.View.Panels.{reload_info}
use remy.View.Modals.{copy_dialog_payload, delete_dialog_payload, mkdir_dialog_payload, log}

-- `apply_new_name`: the name is trimmed in place.
unfoldable pub apply_new_name : Ui → Ui
apply_new_name ui =
    let name = trim_end ui.name_modal.new_name in
    record (request (set_new_name name) ui) {
      name_modal = record { new_name = name; is_shown = false };
      pretty_name = codes "Setting new name...";
    }

unfoldable pub update_name : Text → Ui → Ui
update_name name ui = record ui { pretty_name = codes "Client name: " ++ name }

unfoldable pub show_warning : Text → Ui → Ui
show_warning msg ui = warn msg ui

unfoldable pub critical_error : Text → Ui → Ui
critical_error msg ui = record ui { critical = record { message = msg; is_shown = true } }

unfoldable pub show_line : LogLevel → Text → Ui → Ui
show_line level line ui = record ui {
  log_lines =
      log (record { color = log_color level; is_bold = log_is_bold level; line = line })
        ui.log_lines;
}

abbrev pub show_name_modal : Bool → Ui → Ui
show_name_modal shown ui = record ui { name_modal = record ui.name_modal { is_shown = shown } }

-- `dimx` is the width of the terminal.
unfoldable pub reset_panels : ℕ → Ui → Ui
reset_panels dimx ui = record ui { split_size = dimx / 2 }

unfoldable pub toggle_logs : Ui → Ui
toggle_logs ui = record ui { logs_shown = not ui.logs_shown }

abbrev pub exit_screen : Ui → Ui
exit_screen ui = record ui { has_exited = true }

pub data Key : Type 0 where
  f1 : Key
  character : ℕ → Key
  other : Key

-- The `CatchEvent` of the main container: a key that no case names changes nothing here.
unfoldable pub main_key : ℕ → Key → Ui → Option Ui
main_key dimx f1 ui = some (record ui { show_help = true })
main_key dimx (character c) ui =
    if c == b'r'
    then some (reload_info ui)
    else if c == b'c'
    then copy_dialog_payload ui
    else if c == b'd'
    then delete_dialog_payload ui
    else if c == b'm'
    then some (mkdir_dialog_payload ui)
    else if c == b'n'
    then some (show_name_modal true ui)
    else if c == b'='
    then some (reset_panels dimx ui)
    else if c == b'g'
    then some (toggle_logs ui)
    else if c == b'q'
    then some (exit_screen ui)
    else some ui
main_key dimx other ui = some ui

-- DOUBLE_CLICK_TIME, in nanoseconds.
abbrev pub double_click_time : ℕ
double_click_time = 500000000

-- The left button is released at `now`.
unfoldable pub click : ℕ → Ui → Ui
click now ui =
    let is_double_clicked = ltb (now - ui.last_click) double_click_time in
    record ui {
      last_click = now;
      returns = if is_double_clicked then ui.returns + 1 else ui.returns;
    }

-- The `CatchEvent` of the help window, and its button.
unfoldable pub help_key : Key → Ui → Ui
help_key f1 ui = record ui { show_help = false }
help_key (character c) ui = if c == b'q' then record ui { show_help = false } else ui
help_key other ui = ui
