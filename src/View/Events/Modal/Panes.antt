-- ===== src/View/Events/Modal/Panes.antt =====
-- Which handlers of src/view-client.cpp leave both panels as they are.
use remy.Base.{
  ℕ, ◌≡◌, refl, ◌∙◌, inl, inr, Bool, true, false, not, ◌||◌, ◌&&◌, Option, none, some, ◌==◌,
  if◌then◌else◌, Option-cases, length,
}
use remy.Base.Options.{◌>>=◌, bind_some}
use remy.Wire.{Text, RemoteDentries, WatcherInfo}
use remy.Utils.Trim.{trim_end}
use remy.View.State.{
  Ui, PanelView, clients, browser, waiting, panel_of, request, request_clients_list,
}
use remy.View.Panels.{collect_selected_dentries, reload_info, refresh}
use remy.View.Modals.{
  copy_dialog_payload, choose_copy, next_direction, is_browser, is_empty, delete_dialog_payload,
  open_delete, mkdir_dialog_payload, apply_mkdir, update_watcher_info,
}
use remy.View.Main.{Key, f1, character, other, main_key, help_key, reset_panels, toggle_logs}

pub record SamePanels (ui : Ui) (t : Ui) : Type 0 where
  pub left : t.left ≡ ui.left
  pub right : t.right ≡ ui.right

-- A handler that fails, or leaves the panels.
pub data KeepsPanels (ui : Ui) (o : Option Ui) : Type 0 where
  fails : o ≡ none → KeepsPanels ui o
  gives : (t : Ui) → o ≡ some t → SamePanels ui t → KeepsPanels ui o

pub keeps : (ui t : Ui) → SamePanels ui t → KeepsPanels ui (some t)
keeps ui t same = gives t refl same

pub same : (ui t : Ui) → t.left ≡ ui.left → t.right ≡ ui.right → SamePanels ui t
same ui t l r = record { left = l; right = r }

if-KeepsPanels :
    (b : Bool) (ui : Ui) (o p : Option Ui)
    → KeepsPanels ui o
    → KeepsPanels ui p
    → KeepsPanels ui (if b then o else p)
if-KeepsPanels true ui o p h k = h
if-KeepsPanels false ui o p h k = k

if-SamePanels :
    (b : Bool) (ui t u : Ui)
    → SamePanels ui t
    → SamePanels ui u
    → SamePanels ui (if b then t else u)
if-SamePanels true ui t u h k = h
if-SamePanels false ui t u h k = k

refresh-SamePanels :
    (view : PanelView) (id : Bool) (cwd : Text) (ui : Ui) → SamePanels ui (refresh view id cwd ui)
refresh-SamePanels clients id cwd ui = same ui _ refl refl
refresh-SamePanels browser id cwd ui = same ui _ refl refl
refresh-SamePanels waiting id cwd ui = same ui _ refl refl

same_trans : (ui t u : Ui) → SamePanels ui t → SamePanels t u → SamePanels ui u
same_trans ui t u h k = same ui u (k.left ∙ h.left) (k.right ∙ h.right)

pub reload_info-SamePanels : (ui : Ui) → SamePanels ui (reload_info ui)
unfolding reload_info
reload_info-SamePanels ui =
    same_trans ui _ _
      (same_trans ui (request request_clients_list ui) _ (same ui _ refl refl)
        (refresh-SamePanels ui.left.view_selected false ui.left.browser.cwd _))
      (refresh-SamePanels ui.right.view_selected true ui.right.browser.cwd _)

-- A handler that reads the panels again as its last step.
pub after_reload :
    (ui t : Ui) → t.left ≡ ui.left → t.right ≡ ui.right → SamePanels ui (reload_info t)
after_reload ui t l r = same_trans ui t (reload_info t) (same ui t l r) (reload_info-SamePanels t)

choose_copy-KeepsPanels : (direction : Bool) (ui : Ui) → KeepsPanels ui (choose_copy direction ui)
choose_copy-KeepsPanels direction ui =
    let b = (panel_of direction ui).browser in
    elim (Option-cases (collect_selected_dentries b)) [
      | inl none_chosen ↦ fails (rw (none_chosen, ◌>>=◌) refl)
      | inr (src, chosen) ↦
          gives _ (bind_some (collect_selected_dentries b) _ chosen refl) (same ui _ refl refl)
    ]

pub copy_dialog-KeepsPanels : (ui : Ui) → KeepsPanels ui (copy_dialog_payload ui)
unfolding copy_dialog_payload
copy_dialog-KeepsPanels ui =
    if-KeepsPanels
      (not (is_browser ui.left.view_selected) || not (is_browser ui.right.view_selected)) ui _ _
      (keeps ui _ (same ui _ refl refl))
      (if-KeepsPanels (is_empty ui.left.browser && is_empty ui.right.browser) ui _ _
        (keeps ui _ (same ui _ refl refl)) (choose_copy-KeepsPanels (next_direction ui) ui))

open_delete-SamePanels :
    (id : Bool) (entries : RemoteDentries) (ui : Ui) → SamePanels ui (open_delete id entries ui)
open_delete-SamePanels id entries ui =
    if-SamePanels (length entries.dentries == 0) ui _ _ (same ui _ refl refl) (same ui _ refl refl)

pub delete_dialog-KeepsPanels : (ui : Ui) → KeepsPanels ui (delete_dialog_payload ui)
unfolding delete_dialog_payload
delete_dialog-KeepsPanels ui =
    if-KeepsPanels (is_browser (panel_of ui.right_focused ui).view_selected) ui _ _
      (elim (Option-cases (collect_selected_dentries (panel_of ui.right_focused ui).browser)) [
        | inl none_chosen ↦ fails (rw (none_chosen, ◌>>=◌) refl)
        | inr (entries, chosen) ↦
            gives _
              (bind_some (collect_selected_dentries (panel_of ui.right_focused ui).browser) _ chosen
                refl)
              (open_delete-SamePanels ui.right_focused entries ui)
      ])
      (keeps ui _ (same ui _ refl refl))

pub mkdir_dialog-SamePanels : (ui : Ui) → SamePanels ui (mkdir_dialog_payload ui)
unfolding mkdir_dialog_payload
mkdir_dialog-SamePanels ui =
    if-SamePanels (is_browser (panel_of ui.right_focused ui).view_selected) ui _ _
      (same ui _ refl refl) (same ui _ refl refl)

pub apply_mkdir-SamePanels : (ui : Ui) → SamePanels ui (apply_mkdir ui)
unfolding apply_mkdir
apply_mkdir-SamePanels ui =
    if-SamePanels (length (trim_end ui.mkdir.name) == 0) ui _ _ (same ui _ refl refl)
      (same ui _ refl refl)

pub progress-SamePanels :
    (info : Option WatcherInfo) (ui : Ui) → SamePanels ui (update_watcher_info info ui)
unfolding update_watcher_info
progress-SamePanels none ui = same ui _ refl refl
progress-SamePanels (some info) ui = same ui _ refl refl

pub main_key-KeepsPanels : (dimx : ℕ) (key : Key) (ui : Ui) → KeepsPanels ui (main_key dimx key ui)
unfolding main_key reset_panels toggle_logs
main_key-KeepsPanels dimx f1 ui = keeps ui _ (same ui _ refl refl)
main_key-KeepsPanels dimx (character c) ui =
    if-KeepsPanels (c == b'r') ui _ _ (keeps ui _ (reload_info-SamePanels ui)) (
      if-KeepsPanels (c == b'c') ui _ _ (copy_dialog-KeepsPanels ui) (
        if-KeepsPanels (c == b'd') ui _ _ (delete_dialog-KeepsPanels ui) (
          if-KeepsPanels (c == b'm') ui _ _ (keeps ui _ (mkdir_dialog-SamePanels ui)) (
            if-KeepsPanels (c == b'n') ui _ _ (keeps ui _ (same ui _ refl refl)) (
              if-KeepsPanels (c == b'=') ui _ _ (keeps ui _ (same ui _ refl refl)) (
                if-KeepsPanels (c == b'g') ui _ _ (keeps ui _ (same ui _ refl refl)) (
                  if-KeepsPanels (c == b'q') ui _ _ (keeps ui _ (same ui _ refl refl))
                    (keeps ui _ (same ui _ refl refl)))))))))
main_key-KeepsPanels dimx other ui = keeps ui _ (same ui _ refl refl)

pub help_key-SamePanels : (key : Key) (ui : Ui) → SamePanels ui (help_key key ui)
unfolding help_key
help_key-SamePanels f1 ui = same ui _ refl refl
help_key-SamePanels (character c) ui =
    if-SamePanels (c == b'q') ui _ _ (same ui _ refl refl) (same ui _ refl refl)
help_key-SamePanels other ui = same ui _ refl refl
