-- ===== src/View/Events/Keys.antt =====
-- The keys of the main container and of its dialogs (src/view-client.cpp) keep what holds of a
-- `ClientUi`.
use remy.Base.{refl, Bool, true, false, Option, some, ◌==◌, if◌then◌else◌}
use remy.View.State.{Ui}
use remy.View.Main.{Key, f1, character, other, main_key, reset_panels, toggle_logs, help_key}
use remy.View.Events.Panels.{IsSound, Answers, if-IsSound, reload_info-IsSound}
use remy.View.Events.Dialogs.{copy_dialog-Answers, delete_dialog-Answers, mkdir-IsSound}
use remy.Base.{ℕ}

if-Answers : (b : Bool) {o p : Option Ui} → Answers o → Answers p → Answers (if b then o else p)
if-Answers true h k = h
if-Answers false h k = k

answers : {t : Ui} → IsSound t → Answers (some t)
answers ok = (_, refl, ok)

pub main_key-Answers :
    (dimx : ℕ) (key : Key) (ui : Ui) → IsSound ui → Answers (main_key dimx key ui)
unfolding main_key reset_panels toggle_logs
main_key-Answers dimx f1 ui ok = (_, refl, ok)
main_key-Answers dimx (character c) ui ok =
    if-Answers (c == b'r') (_, refl, reload_info-IsSound ui ok)
      (if-Answers (c == b'c') (copy_dialog-Answers ui ok) (
        if-Answers (c == b'd') (delete_dialog-Answers ui ok) (
          if-Answers (c == b'm') (_, refl, (mkdir-IsSound ui ok).0)
            (if-Answers (c == b'n') (_, refl, ok)
              (if-Answers (c == b'=') (_, refl, ok)
                (if-Answers (c == b'g') (_, refl, ok)
                  (if-Answers (c == b'q') (_, refl, ok) (_, refl, ok))))))))
main_key-Answers dimx other ui ok = (_, refl, ok)

pub help_key-IsSound : (key : Key) (ui : Ui) → IsSound ui → IsSound (help_key key ui)
unfolding help_key
help_key-IsSound f1 ui ok = ok
help_key-IsSound (character c) ui ok = if-IsSound (c == b'q') _ _ ok ok
help_key-IsSound other ui ok = ok
