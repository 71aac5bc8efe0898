-- ===== src/View/Events.antt =====
-- All that happens to a `ClientUi` (src/view-client.cpp), by its handlers: the keys and buttons of
-- the user, and what `ClientNet` posts. They run one after the other in the loop of the screen.
pub mod Panels
pub mod Dialogs
pub mod Copying
pub mod Keys
pub mod Sound
pub mod Modal
use remy.Base.{ℕ, Bool, false, Option, none, some}
use remy.Wire.{Text, PathDentsPayload, ClientsListPayload, WatcherInfo}
use remy.View.State.{Ui, on_panel}
use remy.View.Panels.{
  update_clients, browser_error, show_dents, enter_client, enter_dentry, toggle, move_to,
  reload_info,
}
use remy.Logger.Levels.{LogLevel}
use remy.View.Main.{
  Key, main_key, click, help_key, update_name, show_warning, critical_error, show_line, exit_screen,
  apply_new_name, show_name_modal,
}
use remy.View.Modals.{
  copy_dialog_payload, copy_proceed, copy_cancel, copy_completed_ok, copy_failed_ok,
  update_watcher_info, delete_dialog_payload, delete_confirm, show_delete_result, delete_ok,
  mkdir_dialog_payload, apply_mkdir, show_mkdir_result, mkdir_ok,
}

pub data Event : Type 0 where
  posted_clients : ClientsListPayload → Event
  posted_error : Bool → Event
  posted_dents : Bool → PathDentsPayload → Event
  posted_progress : Option WatcherInfo → Event
  posted_deleted : Text → Event
  posted_made : Text → Event
  posted_name : Text → Event
  posted_warning : Text → Event
  posted_critical : Text → Event
  posted_line : LogLevel → Text → Event
  entered_client : Bool → Event
  entered_dentry : Bool → Event
  toggled : Bool → Event
  moved : Bool → ℕ → Event
  chose_client : Bool → ℕ → Event
  focused : Bool → Event
  reloaded : Event
  asked_copy : Event
  proceeded cancelled completed_ok failed_ok : Event
  asked_delete : Event
  confirmed_delete deleted_ok : Event
  asked_mkdir : Event
  applied_mkdir made_ok : Event
  pressed : ℕ → Key → Event
  clicked : ℕ → Event
  pressed_in_help : Key → Event
  warning_ok critical_exit : Event
  typed_name : Text → Event
  applied_name cancelled_name : Event
  typed_mkdir : Text → Event
  cancelled_mkdir cancelled_delete : Event

-- `none` is a read beyond the end of a vector.
unfoldable pub handle : Event → Ui → Option Ui
handle (posted_clients list) ui = some (update_clients list ui)
handle (posted_error id) ui = some (browser_error id ui)
handle (posted_dents id payload) ui = some (show_dents id payload ui)
handle (posted_progress info) ui = some (update_watcher_info info ui)
handle (posted_deleted msg) ui = some (show_delete_result msg ui)
handle (posted_made msg) ui = some (show_mkdir_result msg ui)
handle (entered_client id) ui = enter_client id ui
handle (entered_dentry id) ui = enter_dentry id ui
handle (toggled id) ui = some (on_panel id (λ p. record p { browser = toggle p.browser }) ui)
handle (moved id index) ui =
    some (on_panel id (λ p. record p { browser = move_to index p.browser }) ui)
handle (chose_client id index) ui =
    some (on_panel id (λ p. record p { client_menu_index = index }) ui)
handle (focused right) ui = some (record ui { right_focused = right })
handle reloaded ui = some (reload_info ui)
handle asked_copy ui = copy_dialog_payload ui
handle proceeded ui = some (copy_proceed ui)
handle cancelled ui = some (copy_cancel ui)
handle completed_ok ui = some (copy_completed_ok ui)
handle failed_ok ui = some (copy_failed_ok ui)
handle asked_delete ui = delete_dialog_payload ui
handle confirmed_delete ui = some (delete_confirm ui)
handle deleted_ok ui = some (delete_ok ui)
handle asked_mkdir ui = some (mkdir_dialog_payload ui)
handle applied_mkdir ui = some (apply_mkdir ui)
handle made_ok ui = some (mkdir_ok ui)
handle (posted_name name) ui = some (update_name name ui)
handle (posted_warning msg) ui = some (show_warning msg ui)
handle (posted_critical msg) ui = some (critical_error msg ui)
handle (posted_line level line) ui = some (show_line level line ui)
handle (pressed dimx key) ui = main_key dimx key ui
handle (clicked now) ui = some (click now ui)
handle (pressed_in_help key) ui = some (help_key key ui)
handle warning_ok ui = some (record ui { warning = record ui.warning { is_shown = false } })
handle critical_exit ui = some (exit_screen ui)
handle (typed_name name) ui =
    some (record ui { name_modal = record ui.name_modal { new_name = name } })
handle applied_name ui = some (apply_new_name ui)
handle cancelled_name ui = some (show_name_modal false ui)
handle (typed_mkdir name) ui = some (record ui { mkdir = record ui.mkdir { name = name } })
handle cancelled_mkdir ui = some (record ui { mkdir = record ui.mkdir { is_shown = false } })
handle cancelled_delete ui = some (record ui { delete = record ui.delete { is_shown = false } })
