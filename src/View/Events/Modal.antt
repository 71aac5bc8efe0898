-- ===== src/View/Events/Modal.antt =====
-- Which events reach a handler: src/view-client.cpp puts seven modal windows over the main
-- container, each over those before it, and a window that is shown gets every key and click. A step
-- of the screen is an event that is posted, or one that the window on top offers.
pub mod Stuck
pub mod Panes
pub mod Quiet
pub mod Stranded
use remy.Base.{◌≡◌, Bool, true, false, List, [], ◌∷◌, ◌||◌, Option, some, if◌then◌else◌}
use remy.View.State.{
  Ui, PanelView, clients, browser, panel_of, CopyView, copy_dialog, copy_progress, copy_completed,
  copy_failed, DeleteState, confirmation_dialog, delete_waiting, delete_result, MkdirState, input,
  mkdir_waiting, mkdir_result,
}
use remy.View.Events.{
  Event, handle, posted_clients, posted_error, posted_dents, posted_progress, posted_deleted,
  posted_made, posted_name, posted_warning, posted_critical, posted_line, entered_client,
  entered_dentry, toggled, moved, chose_client, focused, reloaded, asked_copy, proceeded, cancelled,
  completed_ok, failed_ok, asked_delete, confirmed_delete, deleted_ok, asked_mkdir, applied_mkdir,
  made_ok, pressed, clicked, pressed_in_help, warning_ok, critical_exit, typed_name, applied_name,
  cancelled_name, typed_mkdir, cancelled_mkdir, cancelled_delete,
}

pub data Layer : Type 0 where
  main_container help name_window warning_window critical_window copy_window delete_window
        mkdir_window :
      Layer

-- `run` wraps the container in the windows, the one for new directories last.
unfoldable pub top : Ui → Layer
top ui =
    if ui.mkdir.is_shown
    then mkdir_window
    else if ui.delete.is_shown
    then delete_window
    else if ui.copy.is_shown
    then copy_window
    else if ui.critical.is_shown
    then critical_window
    else if ui.warning.is_shown
    then warning_window
    else if ui.name_modal.is_shown
    then name_window
    else if ui.show_help
    then help
    else main_container

-- The tabs of a panel, and those of the three windows that have them. A tab without a menu or a
-- button offers nothing.
abbrev pub in_clients_tab : PanelView → Bool
in_clients_tab clients = true
in_clients_tab tab = false

abbrev pub in_browser_tab : PanelView → Bool
in_browser_tab browser = true
in_browser_tab tab = false

abbrev in_copy_tab : CopyView → Event → Bool
in_copy_tab copy_dialog cancelled = true
in_copy_tab copy_dialog asked_copy = true
in_copy_tab copy_dialog proceeded = true
in_copy_tab copy_completed completed_ok = true
in_copy_tab copy_failed failed_ok = true
in_copy_tab tab event = false

abbrev in_delete_tab : DeleteState → Event → Bool
in_delete_tab confirmation_dialog cancelled_delete = true
in_delete_tab confirmation_dialog confirmed_delete = true
in_delete_tab delete_result deleted_ok = true
in_delete_tab tab event = false

abbrev in_mkdir_tab : MkdirState → Event → Bool
in_mkdir_tab input (typed_mkdir name) = true
in_mkdir_tab input applied_mkdir = true
in_mkdir_tab input cancelled_mkdir = true
in_mkdir_tab mkdir_result made_ok = true
in_mkdir_tab tab event = false

unfoldable pub offers : Layer → Ui → Event → Bool
offers mkdir_window ui event = in_mkdir_tab ui.mkdir.state event
offers delete_window ui event = in_delete_tab ui.delete.state event
offers copy_window ui event = in_copy_tab ui.copy.view_selected event
offers critical_window ui critical_exit = true
offers warning_window ui warning_ok = true
offers name_window ui (typed_name name) = true
offers name_window ui applied_name = true
offers name_window ui cancelled_name = true
offers help ui (pressed_in_help key) = true
offers main_container ui (entered_client id) = in_clients_tab (panel_of id ui).view_selected
offers main_container ui (entered_dentry id) = in_browser_tab (panel_of id ui).view_selected
offers main_container ui (toggled id) = in_browser_tab (panel_of id ui).view_selected
offers main_container ui (moved id index) = in_browser_tab (panel_of id ui).view_selected
offers main_container ui (chose_client id index) = in_clients_tab (panel_of id ui).view_selected
offers main_container ui (focused right) = true
offers main_container ui reloaded = true
offers main_container ui asked_copy = true
offers main_container ui (pressed dimx key) = true
offers main_container ui (clicked now) = true
offers layer ui event = false

-- What `ClientNet` and the log post runs whatever is shown.
unfoldable pub is_posted : Event → Bool
is_posted (posted_clients list) = true
is_posted (posted_error id) = true
is_posted (posted_dents id payload) = true
is_posted (posted_progress info) = true
is_posted (posted_deleted msg) = true
is_posted (posted_made msg) = true
is_posted (posted_name name) = true
is_posted (posted_warning msg) = true
is_posted (posted_critical msg) = true
is_posted (posted_line level line) = true
is_posted event = false

pub record ScreenStep (event : Event) (ui : Ui) (t : Ui) : Type 0 where
  pub reaches : (is_posted event || offers (top ui) ui event) ≡ true
  pub handled : handle event ui ≡ some t

-- These events, one after the other, lead from the one state to the other.
abbrev pub Shows : List Event → Ui → Ui → Type 0
Shows [] ui t = ui ≡ t
Shows (e ∷ es) ui t = (u : Ui) × ScreenStep e ui u × Shows es u t
