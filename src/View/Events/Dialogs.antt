-- ===== src/View/Events/Dialogs.antt =====
-- The dialogs of a `ClientUi` (src/view-client.cpp) keep what holds of it.
use remy.Base.{
  ℕ, ◌<◌, ◌≡◌, refl, ap, ◌∙◌, Bool, true, false, not, ◌||◌, ◌&&◌, List, [], ◌∷◌, Option, none, some,
  arith, leb, ◌==◌, if◌then◌else◌, length, drop, inl, inr, ◌⊎◌, Bool-cases,
}
use remy.Base.Options.{bind_some}
use remy.Wire.{Text, RemoteDentries, WatcherInfo}
use remy.Utils.Trim.{trim_end}
use remy.View.State.{Browser, Ui, panel_of}
use remy.View.Panels.{collect_selected_dentries}
use remy.View.Panels.Consistent.{collect_lem}
use remy.View.Modals.{
  copy_dialog_payload, update_watcher_info, delete_dialog_payload, mkdir_dialog_payload,
  apply_mkdir, is_browser, is_empty, next_direction, set_copy, choose_copy, open_delete,
}
use remy.View.Events.Panels.{IsSound, Answers, panel_of-IsConsistent, if-IsSound}

filled_side :
    (l r direction : Bool) (side_is_empty : Bool → Bool)
    → side_is_empty false ≡ l
    → side_is_empty true ≡ r
    → (l && r) ≡ false
    → side_is_empty (if l then true else if r then false else not direction) ≡ false
filled_side true true direction side_is_empty h k both = cc
filled_side true false direction side_is_empty h k both = k
filled_side false true direction side_is_empty h k both = h
filled_side false false true side_is_empty h k both = h
filled_side false false false side_is_empty h k both = k

-- An open dialog never turns to copy from an empty side, unless both are.
next_direction-filled :
    (ui : Ui)
    → (is_empty ui.left.browser && is_empty ui.right.browser) ≡ false
    → ui.copy.is_shown ≡ true
    → is_empty (panel_of (next_direction ui) ui).browser ≡ false
next_direction-filled ui filled shown =
    let turned =
      if is_empty ui.left.browser
      then true
      else if is_empty ui.right.browser
      then false
      else not ui.copy.direction in
    ap
      (λ (shown : Bool).
        is_empty (panel_of (if not shown then ui.right_focused else turned) ui).browser)
      shown
    ∙ filled_side (is_empty ui.left.browser) (is_empty ui.right.browser) ui.copy.direction
        (λ side. is_empty (panel_of side ui).browser) refl refl filled

src_filled :
    (b : Browser) (ns : List Text)
    → (0 < length ns) ⊎ (drop 1 b.basenames ≡ [])
    → is_empty b ≡ false
    → 0 < length ns
src_filled b ns (inl some_names) filled = some_names
src_filled b ns (inr nothing) filled = absurd (drop_filled b.basenames nothing filled)
  where
    drop_filled : (xs : List Text) → drop 1 xs ≡ [] → leb (length xs) 1 ≡ false → ⊥
    drop_filled [] e filled = ground arith
    drop_filled (x ∷ xs) e filled = ground (arith, ap length e)

set_copy-filled :
    (n : ℕ) (shown : Bool)
    → (shown ≡ false) ⊎ (0 < n)
    → ((if n == 0 then shown else true) ≡ false) ⊎ (0 < n)
set_copy-filled n shown h = ground (arith, h)

-- An open dialog stays filled; one that is not open is filled when it opens.
stays_filled :
    (shown : Bool) (b : Browser) (ns : List Text)
    → (shown ≡ true → is_empty b ≡ false)
    → (0 < length ns) ⊎ (drop 1 b.basenames ≡ [])
    → (shown ≡ false) ⊎ (0 < length ns)
stays_filled true b ns filled some_if_any = inr (src_filled b ns some_if_any (filled refl))
stays_filled false b ns filled some_if_any = inl refl

choose_copy-Answers :
    (direction : Bool) (ui : Ui)
    → (ui.copy.is_shown ≡ true → is_empty (panel_of direction ui).browser ≡ false)
    → IsSound ui
    → Answers (choose_copy direction ui)
choose_copy-Answers direction ui filled (l, r, c, d) =
    let b = (panel_of direction ui).browser in
    let (src, run, _id, _dir, _among, some_if_any) =
      collect_lem b (panel_of-IsConsistent direction ui (l, r, c, d)) in
    (
      set_copy direction src (panel_of (not direction) ui).browser ui,
      bind_some (collect_selected_dentries b) _ run refl,
      (
        l,
        r,
        c,
        set_copy-filled (length src.dentries) ui.copy.is_shown
            (stays_filled ui.copy.is_shown b src.dentries filled some_if_any),
      ),
    )

pub copy_dialog-Answers : (ui : Ui) → IsSound ui → Answers (copy_dialog_payload ui)
unfolding copy_dialog_payload
copy_dialog-Answers ui ok =
    elim (Bool-cases
      (not (is_browser ui.left.view_selected) || not (is_browser ui.right.view_selected))) [
        | inl closed ↦ rw closed (ui, refl, ok)
        | inr both_open ↦
            elim (Bool-cases (is_empty ui.left.browser && is_empty ui.right.browser)) [
              | inl empty ↦ rw (both_open, empty) (ui, refl, ok)
              | inr filled ↦
                  rw (both_open, filled)
                    (choose_copy-Answers (next_direction ui) ui (next_direction-filled ui filled)
                      ok)
            ]
      ]

open_delete-IsSound :
    (id : Bool) (entries : RemoteDentries) (ui : Ui)
    → IsSound ui
    → IsSound (open_delete id entries ui)
open_delete-IsSound id entries ui ok = if-IsSound (length entries.dentries == 0) _ _ ok ok

pub delete_dialog-Answers : (ui : Ui) → IsSound ui → Answers (delete_dialog_payload ui)
unfolding delete_dialog_payload
delete_dialog-Answers ui ok =
    elim (Bool-cases (is_browser (panel_of ui.right_focused ui).view_selected)) [
      | inl is_open ↦
          let b = (panel_of ui.right_focused ui).browser in
          let (entries, run, _id, _dir, _among, _some) =
            collect_lem b (panel_of-IsConsistent ui.right_focused ui ok) in
          rw is_open (
            open_delete ui.right_focused entries ui,
            bind_some (collect_selected_dentries b) _ run refl,
            open_delete-IsSound ui.right_focused entries ui ok,
          )
      | inr closed ↦ rw closed (ui, refl, ok)
    ]

pub mkdir-IsSound :
    (ui : Ui) → IsSound ui → IsSound (mkdir_dialog_payload ui) × IsSound (apply_mkdir ui)
unfolding mkdir_dialog_payload apply_mkdir
mkdir-IsSound ui ok = (
  if-IsSound (is_browser (panel_of ui.right_focused ui).view_selected) _ _ ok ok,
  if-IsSound (length (trim_end ui.mkdir.name) == 0) _ _ ok ok,
)

pub progress-IsSound :
    (info : Option WatcherInfo) (ui : Ui) → IsSound ui → IsSound (update_watcher_info info ui)
unfolding update_watcher_info
progress-IsSound none ui ok = ok
progress-IsSound (some info) ui ok = ok
