-- ===== src/View/Events/Sound.antt =====
-- What holds of a `ClientUi` (src/view-client.cpp) whatever happens.
use remy.Base.{◌≡◌, refl, sym, ◌∙◌, some, inl}
use remy.View.State.{Ui}
use remy.View.Panels.{update_clients, toggle, move_to}
use remy.View.Panels.Consistent.{toggle-IsConsistent, move_to-IsConsistent, length-map}
use remy.View.Modals.{
  copy_proceed, copy_cancel, copy_completed_ok, copy_failed_ok, delete_confirm, show_delete_result,
  delete_ok, show_mkdir_result, mkdir_ok,
}
use remy.View.Main.{update_name, show_warning, critical_error, show_line, click, apply_new_name}
use remy.View.Events.Keys.{main_key-Answers, help_key-IsSound}
use remy.View.Events.{
  Event, handle, posted_clients, posted_error, posted_dents, posted_progress, posted_deleted,
  posted_made, entered_client, entered_dentry, toggled, moved, chose_client, focused, reloaded,
  asked_copy, proceeded, cancelled, completed_ok, failed_ok, asked_delete, confirmed_delete,
  deleted_ok, asked_mkdir, applied_mkdir, made_ok, posted_name, posted_warning, posted_critical,
  posted_line, pressed, clicked, pressed_in_help, warning_ok, critical_exit, typed_name,
  applied_name, cancelled_name, typed_mkdir, cancelled_mkdir, cancelled_delete,
}
use remy.View.Events.Panels.{
  IsSound, InRange, on_panel-IsSound, reload_info-IsSound, show_dents-IsSound,
  browser_error-IsSound, enter_client-Answers, enter_dentry-Answers,
}
use remy.View.Events.Dialogs.{
  copy_dialog-Answers, delete_dialog-Answers, mkdir-IsSound, progress-IsSound,
}

-- Every event in a sound state is answered, without a read beyond the end of a list, and leaves the
-- state sound, where the list of clients hands out an index of one of its entries.
pub handle-IsSound :
    (event : Event) (ui : Ui)
    → InRange event ui
    → IsSound ui
    → (t : Ui) × (handle event ui ≡ some t) × IsSound t
unfolding handle update_clients copy_proceed copy_cancel copy_completed_ok copy_failed_ok
    show_delete_result show_mkdir_result delete_confirm delete_ok mkdir_ok update_name show_warning
    critical_error show_line click apply_new_name
handle-IsSound (posted_clients list) ui h (l, r, c, d) =
    (_, refl, (l, r, length-map _ list ∙ sym (length-map _ list), d))
handle-IsSound (posted_error id) ui h ok = (_, refl, browser_error-IsSound id ui ok)
handle-IsSound (posted_dents id payload) ui h ok = (_, refl, show_dents-IsSound id payload ui ok)
handle-IsSound (posted_progress info) ui h ok = (_, refl, progress-IsSound info ui ok)
handle-IsSound (posted_deleted msg) ui h ok = (_, refl, ok)
handle-IsSound (posted_made msg) ui h ok = (_, refl, ok)
handle-IsSound (entered_client id) ui h ok = enter_client-Answers id ui h ok
handle-IsSound (entered_dentry id) ui h ok = enter_dentry-Answers id ui ok
handle-IsSound (toggled id) ui h ok = (
  _,
  refl,
  on_panel-IsSound id (λ p. record p { browser = toggle p.browser }) ui
      (λ p. toggle-IsConsistent p.browser) ok,
)
handle-IsSound (moved id index) ui h ok = (
  _,
  refl,
  on_panel-IsSound id (λ p. record p { browser = move_to index p.browser }) ui
      (λ p. move_to-IsConsistent index p.browser) ok,
)
handle-IsSound (chose_client id index) ui h ok =
    (_, refl, on_panel-IsSound id (λ p. record p { client_menu_index = index }) ui (λ p k. k) ok)
handle-IsSound (focused right) ui h ok = (_, refl, ok)
handle-IsSound reloaded ui h ok = (_, refl, reload_info-IsSound ui ok)
handle-IsSound asked_copy ui h ok = copy_dialog-Answers ui ok
handle-IsSound proceeded ui h ok = (_, refl, ok)
handle-IsSound cancelled ui h (l, r, c, d) = (_, refl, (l, r, c, inl refl))
handle-IsSound completed_ok ui h (l, r, c, d) = (_, refl, reload_info-IsSound _ (l, r, c, inl refl))
handle-IsSound failed_ok ui h (l, r, c, d) = (_, refl, (l, r, c, inl refl))
handle-IsSound asked_delete ui h ok = delete_dialog-Answers ui ok
handle-IsSound confirmed_delete ui h ok = (_, refl, ok)
handle-IsSound deleted_ok ui h ok = (_, refl, reload_info-IsSound _ ok)
handle-IsSound asked_mkdir ui h ok = (_, refl, (mkdir-IsSound ui ok).0)
handle-IsSound applied_mkdir ui h ok = (_, refl, (mkdir-IsSound ui ok).1)
handle-IsSound made_ok ui h ok = (_, refl, reload_info-IsSound _ ok)
handle-IsSound (posted_name name) ui h ok = (_, refl, ok)
handle-IsSound (posted_warning msg) ui h ok = (_, refl, ok)
handle-IsSound (posted_critical msg) ui h ok = (_, refl, ok)
handle-IsSound (posted_line level line) ui h ok = (_, refl, ok)
handle-IsSound (pressed dimx key) ui h ok = main_key-Answers dimx key ui ok
handle-IsSound (clicked now) ui h ok = (_, refl, ok)
handle-IsSound (pressed_in_help key) ui h ok = (_, refl, help_key-IsSound key ui ok)
handle-IsSound warning_ok ui h ok = (_, refl, ok)
handle-IsSound critical_exit ui h ok = (_, refl, ok)
handle-IsSound (typed_name name) ui h ok = (_, refl, ok)
handle-IsSound applied_name ui h ok = (_, refl, ok)
handle-IsSound cancelled_name ui h ok = (_, refl, ok)
handle-IsSound (typed_mkdir name) ui h ok = (_, refl, ok)
handle-IsSound cancelled_mkdir ui h ok = (_, refl, ok)
handle-IsSound cancelled_delete ui h ok = (_, refl, ok)
