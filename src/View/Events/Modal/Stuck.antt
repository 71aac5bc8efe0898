-- ===== src/View/Events/Modal/Stuck.antt =====
-- The tab in which the Delete window waits for the answer of the other client (src/view-client.cpp).
use remy.Base.{
  ◌≡◌, refl, ◌∙◌, inl, inr, Bool, true, false, List, [], ◌∷◌, All, subst, ap, none, Bool-cases,
  Option, some, arith,
}
use remy.Wire.{PathDentsPayload, WatcherInfo}
use remy.View.State.{Ui, DeleteModal, delete_waiting}
use remy.View.Panels.{update_clients, browser_error, show_dents}
use remy.View.Modals.{update_watcher_info, show_mkdir_result}
use remy.View.Main.{update_name, show_warning, critical_error, show_line}
use remy.View.Events.{
  Event, handle, posted_clients, posted_error, posted_dents, posted_progress, posted_deleted,
  posted_made, posted_name, posted_warning, posted_critical, posted_line, confirmed_delete,
}
use remy.View.Events.Modal.{delete_window, top, offers, is_posted, ScreenStep, Shows}

pub record IsWaiting (ui : Ui) : Type 0 where
  pub is_shown : ui.delete.is_shown ≡ true
  pub waits : ui.delete.state ≡ delete_waiting
  pub uncovered : ui.mkdir.is_shown ≡ false

top-IsWaiting : (ui : Ui) → IsWaiting ui → top ui ≡ delete_window
unfolding top
top-IsWaiting ui w = rw (w.uncovered, w.is_shown) refl

dead :
    (event : Event) (ui : Ui)
    → ui.delete.state ≡ delete_waiting
    → offers delete_window ui event ≡ false
unfolding offers
dead confirmed_delete ui h = ground arith
dead event ui h = ground arith

abbrev pub is_answer : Event → Bool
is_answer (posted_deleted msg) = true
is_answer event = false

-- What is posted by another handler leaves the window alone.
abbrev LeavesAlone : Ui → Option Ui → Type 0
LeavesAlone ui o =
    (t : Ui) × (o ≡ some t) × (t.delete ≡ ui.delete) × (t.mkdir.is_shown ≡ ui.mkdir.is_shown)

browser_error-LeavesAlone : (id : Bool) (ui : Ui) → LeavesAlone ui (some (browser_error id ui))
unfolding browser_error
browser_error-LeavesAlone false ui = (_, refl, refl, refl)
browser_error-LeavesAlone true ui = (_, refl, refl, refl)

show_dents-LeavesAlone :
    (id : Bool) (payload : PathDentsPayload) (ui : Ui)
    → LeavesAlone ui (some (show_dents id payload ui))
unfolding show_dents
show_dents-LeavesAlone false (path, none) ui = (_, refl, refl, refl)
show_dents-LeavesAlone true (path, none) ui = (_, refl, refl, refl)
show_dents-LeavesAlone false (path, some dents) ui = (_, refl, refl, refl)
show_dents-LeavesAlone true (path, some dents) ui = (_, refl, refl, refl)

progress-LeavesAlone :
    (info : Option WatcherInfo) (ui : Ui) → LeavesAlone ui (some (update_watcher_info info ui))
unfolding update_watcher_info
progress-LeavesAlone none ui = (_, refl, refl, refl)
progress-LeavesAlone (some info) ui = (_, refl, refl, refl)

posted-LeavesAlone :
    (e : Event) (ui : Ui) → is_posted e ≡ true → is_answer e ≡ false → LeavesAlone ui (handle e ui)
unfolding handle is_posted update_clients show_mkdir_result update_name show_warning critical_error
    show_line
posted-LeavesAlone (posted_clients list) ui p a = (_, refl, refl, refl)
posted-LeavesAlone (posted_error id) ui p a = browser_error-LeavesAlone id ui
posted-LeavesAlone (posted_dents id payload) ui p a = show_dents-LeavesAlone id payload ui
posted-LeavesAlone (posted_progress info) ui p a = progress-LeavesAlone info ui
posted-LeavesAlone (posted_deleted msg) ui p a = cc
posted-LeavesAlone (posted_made msg) ui p a = (_, refl, refl, refl)
posted-LeavesAlone (posted_name name) ui p a = (_, refl, refl, refl)
posted-LeavesAlone (posted_warning msg) ui p a = (_, refl, refl, refl)
posted-LeavesAlone (posted_critical msg) ui p a = (_, refl, refl, refl)
posted-LeavesAlone (posted_line level line) ui p a = (_, refl, refl, refl)
posted-LeavesAlone event ui p a = cc

Step-IsWaiting :
    (e : Event) {ui t : Ui} → IsWaiting ui → is_answer e ≡ false → ScreenStep e ui t → IsWaiting t
Step-IsWaiting e {ui} {t} w a step = elim (Bool-cases (is_posted e)) [
  | inl posted ↦
      let (u, run, same, covered) = posted-LeavesAlone e ui posted a in
      subst IsWaiting {x = u} {y = t} (cc) (record {
        is_shown = ap (λ (d : DeleteModal). d.is_shown) same ∙ w.is_shown;
        waits = ap (λ (d : DeleteModal). d.state) same ∙ w.waits;
        uncovered = covered ∙ w.uncovered;
      })
  | inr taken ↦ cc (step.reaches, top-IsWaiting ui w, dead e ui w.waits)
]

-- While the Delete window waits for the other client, and no window is over it, nothing but the
-- answer changes that: no key, no button and nothing else that the network reports, also not that
-- the other client is gone.
pub waits_for_answer :
    (events : List Event) {ui t : Ui}
    → IsWaiting ui
    → All (λ e. is_answer e ≡ false) events
    → Shows events ui t
    → IsWaiting t
waits_for_answer [] w none_answers e = subst IsWaiting e w
waits_for_answer (e ∷ es) w (a, others) (u, step, shows) =
    waits_for_answer es (Step-IsWaiting e w a step) others shows
