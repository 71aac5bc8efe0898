-- ===== src/View/Events/Copying.antt =====
-- The dialogs of `ClientUi` (src/view-client.cpp) work on what the panels show; the log keeps its
-- last lines.
use remy.Base.{
  ℕ, zero, suc, ◌+◌, ◌-◌, ◌<◌, ◌≡◌, refl, ap, sym, ◌∙◌, Bool, false, not, ◌||◌, ◌&&◌, List, [], ◌∷◌,
  ◌++◌, some, arith, leb, ltb, ◌==◌, ◌⊎◌, true, le→leb, leb→le, append_assoc, append-nil,
  if◌then◌else◌, length, length-append, length-drop, drop, drop-append, inl, inr, Bool-cases,
}
use remy.Base.Options.{bind_some}
use remy.Wire.{Text}
use remy.View.State.{Ui, panel_of}
use remy.View.Panels.{collect_selected_dentries}
use remy.View.Panels.Consistent.{collect_lem}
use remy.View.Modals.{
  copy_dialog_payload, is_browser, is_empty, next_direction, set_copy, choose_copy, log,
  log_buf_len,
}
use remy.View.Events.Panels.{IsSound, panel_of-IsConsistent}

-- There is nothing to copy or nowhere to copy it: a panel shows no browser, or both are empty.
abbrev pub is_idle : Ui → Bool
is_idle ui =
    not (is_browser ui.left.view_selected)
    || (not (is_browser ui.right.view_selected)
        || (is_empty ui.left.browser && is_empty ui.right.browser))

payload-idle :
    (ui : Ui)
    → copy_dialog_payload ui ≡ (if is_idle ui then some ui else choose_copy (next_direction ui) ui)
unfolding copy_dialog_payload
payload-idle ui = ground arith

-- Which panel is the source, from what is seen: the one with the focus when the dialog is opened, the
-- other one than before when it is open, if that one has entries.
abbrev pub Directed : Ui → Bool → Type 0
Directed ui direction =
    (ui.copy.is_shown ≡ false → direction ≡ ui.right_focused)
    × (ui.copy.is_shown ≡ true
        → (is_empty (panel_of direction ui).browser ≡ false)
          × (is_empty (panel_of (not ui.copy.direction) ui).browser ≡ false
              → direction ≡ not ui.copy.direction))

pick : Bool → Bool → Bool → Bool
pick l r false = l
pick l r true = r

pick-panel :
    (ui : Ui) (b : Bool)
    → is_empty (panel_of b ui).browser
      ≡ pick (is_empty ui.left.browser) (is_empty ui.right.browser) b
unfolding pick
pick-panel ui false = refl
pick-panel ui true = refl

-- The choice of `next_direction`, where `l` and `r` tell which panels are empty.
directed :
    (shown focus l r d : Bool)
    → (l && r) ≡ false
    → let x = if not shown then focus else if l then true else if r then false else not d in
      (shown ≡ false → x ≡ focus)
      × (shown ≡ true → (pick l r x ≡ false) × (pick l r (not d) ≡ false → x ≡ not d))
unfolding pick
directed false focus l r d h = (λ e. refl, λ e. cc)
directed true focus true true d h = cc
directed true focus true false false h = (λ e. cc, λ e. (refl, λ k. refl))
directed true focus true false true h = (λ e. cc, λ e. (refl, λ k. cc))
directed true focus false true false h = (λ e. cc, λ e. (refl, λ k. cc))
directed true focus false true true h = (λ e. cc, λ e. (refl, λ k. refl))
directed true focus false false false h = (λ e. cc, λ e. (refl, λ k. refl))
directed true focus false false true h = (λ e. cc, λ e. (refl, λ k. refl))

last_guard : (a b c : Bool) → (a || (b || c)) ≡ false → c ≡ false
last_guard false false c h = h
last_guard false true c h = cc
last_guard true b c h = cc

next_direction-Directed : (ui : Ui) → is_idle ui ≡ false → Directed ui (next_direction ui)
next_direction-Directed ui busy =
    let (opened, turned) =
      directed ui.copy.is_shown ui.right_focused (is_empty ui.left.browser)
        (is_empty ui.right.browser) ui.copy.direction (last_guard _ _ _ busy) in
    (
      opened,
      λ e. (
        pick-panel ui (next_direction ui) ∙ (turned e).0,
        λ k. (turned e).1 (sym (pick-panel ui (not ui.copy.direction)) ∙ k),
      ),
    )

shown_lem : (n : ℕ) (shown : Bool) → (if n == 0 then shown else true) ≡ (shown || ltb 0 n)
shown_lem n shown = ground arith

-- The key of the copy dialog. If a panel shows no browser or both are empty, nothing changes. Else
-- the dialog takes the entries to work on of one panel, and the directory of the other one; the
-- source is the panel with the focus when the dialog is opened, and when it is open the other one
-- than before, unless that is empty. The dialog is shown then if it was or has something to copy.
pub copy_dialog_lem :
    (ui : Ui)
    → IsSound ui
    → (t : Ui) × (copy_dialog_payload ui ≡ some t)
      × ((is_idle ui ≡ true) × (t ≡ ui)
          ⊎ (is_idle ui ≡ false)
            × Directed ui t.copy.direction
            × (collect_selected_dentries (panel_of t.copy.direction ui).browser ≡ some t.copy.src)
            × (t.copy.src.id ≡ (panel_of t.copy.direction ui).browser.client_id)
            × (t.copy.src.basedir ≡ (panel_of t.copy.direction ui).browser.cwd)
            × (t.copy.dst ≡ (
              (panel_of (not t.copy.direction) ui).browser.client_id,
              (panel_of (not t.copy.direction) ui).browser.cwd,
            ))
            × (t.copy.is_shown ≡ (ui.copy.is_shown || ltb 0 (length t.copy.src.dentries))))
copy_dialog_lem ui ok = elim (Bool-cases (is_idle ui)) [
  | inl idle ↦ (ui, rw (payload-idle ui, idle) refl, inl (idle, refl))
  | inr busy ↦
      let direction = next_direction ui in
      let b = (panel_of direction ui).browser in
      let (src, run, same_id, same_dir, _among, _some) =
        collect_lem b (panel_of-IsConsistent direction ui ok) in
      (
        set_copy direction src (panel_of (not direction) ui).browser ui,
        rw (payload-idle ui, busy) (bind_some (collect_selected_dentries b) _ run refl),
        inr (
          busy,
          next_direction-Directed ui busy,
          run,
          same_id,
          same_dir,
          refl,
          shown_lem (length src.dentries) ui.copy.is_shown,
        ),
      )
]

-- All lines in turn.
abbrev pub logged : List Text → List Text → List Text
logged [] lines = lines
logged (line ∷ more) lines = logged more (log line lines)

drop-suc : (k : ℕ) (xs : List Text) → drop 1 (drop k xs) ≡ drop (suc k) xs
drop-suc zero [] = refl
drop-suc zero (x ∷ xs) = refl
drop-suc (suc k) [] = refl
drop-suc (suc k) (x ∷ xs) = drop-suc k xs

-- The last lines of `xs`, as many as the view holds.
abbrev pub last_lines : List Text → List Text
last_lines xs = drop (length xs - log_buf_len) xs

-- A full view gives its first line up for the new one.
log_full :
    (k : ℕ) (line : Text) (xs : List Text)
    → length xs ≡ k + log_buf_len
    → log line (drop k xs) ≡ drop (suc k) (xs ++ line ∷ [])
unfolding log
log_full k line xs e =
    rw (le→leb log_buf_len (length (drop k xs)) (omega (arith, e, length-drop k xs))) (
      ap (λ (l : List Text). l ++ line ∷ []) (drop-suc k xs)
      ∙ sym (drop-append (suc k) xs (line ∷ []) (omega (arith, e))))

log_room : (line : Text) (xs : List Text) → length xs < log_buf_len → log line xs ≡ xs ++ line ∷ []
unfolding log
log_room line xs h = rw (not_full (length xs) h) refl
  where
    not_full : (n : ℕ) → n < log_buf_len → leb log_buf_len n ≡ false
    not_full n h = ground arith

has_room : (n : ℕ) → leb log_buf_len n ≡ false → n < log_buf_len
has_room n h = ground arith

drop_at : (j k : ℕ) (xs : List Text) → j ≡ k → drop j xs ≡ drop k xs
drop_at j k xs e = ap (λ (n : ℕ). drop n xs) e

log_last : (line : Text) (xs : List Text) → log line (last_lines xs) ≡ last_lines (xs ++ line ∷ [])
log_last line xs = elim (Bool-cases (leb log_buf_len (length xs))) [
  | inl full ↦
      log_full (length xs - log_buf_len) line xs
        (omega (arith, leb→le log_buf_len (length xs) full))
      ∙ sym (
          drop_at (length (xs ++ line ∷ []) - log_buf_len) (suc (length xs - log_buf_len))
            (xs ++ line ∷ [])
            (omega (arith, leb→le log_buf_len (length xs) full, length-append xs (line ∷ []))))
  | inr room ↦
      ap (log line)
        (drop_at (length xs - log_buf_len) 0 xs (omega (arith, has_room (length xs) room)))
      ∙ log_room line xs (has_room (length xs) room)
      ∙ sym (
          drop_at (length (xs ++ line ∷ []) - log_buf_len) 0 (xs ++ line ∷ [])
            (omega (arith, has_room (length xs) room, length-append xs (line ∷ []))))
]

logged_last : (xs ys : List Text) → logged ys (last_lines xs) ≡ last_lines (xs ++ ys)
logged_last xs [] = ap last_lines (sym (append-nil xs))
logged_last xs (y ∷ ys) =
    ap (logged ys) (log_last y xs)
    ∙ logged_last (xs ++ y ∷ []) ys
    ∙ ap last_lines (append_assoc xs (y ∷ []) ys)

-- After any lines, the log view shows the last 25 of them in their order, or all if they are fewer.
pub logged_lem : (lines : List Text) → logged lines [] ≡ drop (length lines - 25) lines
logged_lem lines = logged_last [] lines
