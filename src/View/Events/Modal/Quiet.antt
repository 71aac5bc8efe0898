-- ===== src/View/Events/Modal/Quiet.antt =====
-- The events of `ClientUi` (src/view-client.cpp) that leave both panels as they are.
use remy.Base.{◌≡◌, refl, Bool, true, false}
use remy.View.State.{Ui}
use remy.View.Panels.{update_clients}
use remy.View.Modals.{
  copy_proceed, copy_cancel, copy_completed_ok, copy_failed_ok, delete_confirm, show_delete_result,
  delete_ok, show_mkdir_result, mkdir_ok,
}
use remy.View.Main.{update_name, show_warning, critical_error, show_line, click, apply_new_name}
use remy.View.Events.{
  Event, handle, posted_clients, posted_error, posted_dents, posted_progress, posted_deleted,
  posted_made, entered_client, entered_dentry, toggled, moved, chose_client, focused, reloaded,
  asked_copy, proceeded, cancelled, completed_ok, failed_ok, asked_delete, confirmed_delete,
  deleted_ok, asked_mkdir, applied_mkdir, made_ok, posted_name, posted_warning, posted_critical,
  posted_line, pressed, clicked, pressed_in_help, warning_ok, critical_exit, typed_name,
  applied_name, cancelled_name, typed_mkdir, cancelled_mkdir, cancelled_delete,
}
use remy.View.Events.Modal.Panes.{
  KeepsPanels, keeps, same, after_reload, reload_info-SamePanels, copy_dialog-KeepsPanels,
  delete_dialog-KeepsPanels, mkdir_dialog-SamePanels, apply_mkdir-SamePanels, progress-SamePanels,
  main_key-KeepsPanels, help_key-SamePanels,
}

abbrev pub is_panel_event : Event → Bool
is_panel_event (posted_error id) = true
is_panel_event (posted_dents id payload) = true
is_panel_event (entered_client id) = true
is_panel_event (entered_dentry id) = true
is_panel_event (toggled id) = true
is_panel_event (moved id index) = true
is_panel_event (chose_client id index) = true
is_panel_event event = false

pub quiet : (e : Event) (ui : Ui) → is_panel_event e ≡ false → KeepsPanels ui (handle e ui)
unfolding handle update_clients copy_proceed copy_cancel copy_completed_ok copy_failed_ok
    show_delete_result show_mkdir_result delete_confirm delete_ok mkdir_ok update_name show_warning
    critical_error show_line click apply_new_name
quiet (posted_clients list) ui h = keeps ui _ (same ui _ refl refl)
quiet (posted_error id) ui h = cc
quiet (posted_dents id payload) ui h = cc
quiet (entered_client id) ui h = cc
quiet (entered_dentry id) ui h = cc
quiet (toggled id) ui h = cc
quiet (moved id index) ui h = cc
quiet (chose_client id index) ui h = cc
quiet (posted_progress info) ui h = keeps ui _ (progress-SamePanels info ui)
quiet (posted_deleted msg) ui h = keeps ui _ (same ui _ refl refl)
quiet (posted_made msg) ui h = keeps ui _ (same ui _ refl refl)
quiet (focused right) ui h = keeps ui _ (same ui _ refl refl)
quiet reloaded ui h = keeps ui _ (reload_info-SamePanels ui)
quiet asked_copy ui h = copy_dialog-KeepsPanels ui
quiet proceeded ui h = keeps ui _ (same ui _ refl refl)
quiet cancelled ui h = keeps ui _ (same ui _ refl refl)
quiet completed_ok ui h = keeps ui _ (after_reload ui _ refl refl)
quiet failed_ok ui h = keeps ui _ (same ui _ refl refl)
quiet asked_delete ui h = delete_dialog-KeepsPanels ui
quiet confirmed_delete ui h = keeps ui _ (same ui _ refl refl)
quiet deleted_ok ui h = keeps ui _ (after_reload ui _ refl refl)
quiet asked_mkdir ui h = keeps ui _ (mkdir_dialog-SamePanels ui)
quiet applied_mkdir ui h = keeps ui _ (apply_mkdir-SamePanels ui)
quiet made_ok ui h = keeps ui _ (after_reload ui _ refl refl)
quiet (posted_name name) ui h = keeps ui _ (same ui _ refl refl)
quiet (posted_warning msg) ui h = keeps ui _ (same ui _ refl refl)
quiet (posted_critical msg) ui h = keeps ui _ (same ui _ refl refl)
quiet (posted_line level line) ui h = keeps ui _ (same ui _ refl refl)
quiet (pressed dimx key) ui h = main_key-KeepsPanels dimx key ui
quiet (clicked now) ui h = keeps ui _ (same ui _ refl refl)
quiet (pressed_in_help key) ui h = keeps ui _ (help_key-SamePanels key ui)
quiet warning_ok ui h = keeps ui _ (same ui _ refl refl)
quiet critical_exit ui h = keeps ui _ (same ui _ refl refl)
quiet (typed_name name) ui h = keeps ui _ (same ui _ refl refl)
quiet applied_name ui h = keeps ui _ (same ui _ refl refl)
quiet cancelled_name ui h = keeps ui _ (same ui _ refl refl)
quiet (typed_mkdir name) ui h = keeps ui _ (same ui _ refl refl)
quiet cancelled_mkdir ui h = keeps ui _ (same ui _ refl refl)
quiet cancelled_delete ui h = keeps ui _ (same ui _ refl refl)
