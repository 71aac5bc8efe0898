-- ===== src/View/Events/Modal/Stranded.antt =====
-- A pane that shows "Waiting..." (src/view-client.cpp): what takes it out of this tab.
use remy.Base.{
  ℕ, zero, suc, ◌≡◌, refl, sym, ap, ◌∙◌, Bool, true, false, ◌||◌, List, [], ◌∷◌, Option, none, some,
  arith, if◌then◌else◌, get_elem?, All, Bool-cases, inl, inr, subst,
}
use remy.Base.Options.{◌>>=◌}
use remy.Wire.{Text, PathDentsPayload}
use remy.Copy.Files.{is_dir, join_path}
use remy.View.State.{
  Ui, Panel, Browser, Request, waiting, panel_of, on_panel, request, request_browser_connection,
  warn,
}
use remy.View.Events.Modal.Quiet.{quiet}
use remy.View.Panels.{
  browser_error, show_dents, enter_client, enter_dentry, enter_at, enter_parent, change_directory,
  parent_path,
}
use remy.View.Events.{
  Event, handle, posted_error, posted_dents, entered_client, entered_dentry, toggled, moved,
  chose_client,
}
use remy.View.Events.Modal.{
  Layer, main_container, top, offers, in_clients_tab, in_browser_tab, is_posted, Shows,
}
use remy.View.Events.Modal.Panes.{KeepsPanels, fails, gives, same}

abbrev pub is_pane : Bool → Bool → Bool
is_pane false false = true
is_pane true true = true
is_pane id other = false

-- What the network reports about this pane.
abbrev pub is_news : Bool → Event → Bool
is_news id (posted_error other) = is_pane id other
is_news id (posted_dents other payload) = is_pane id other
is_news id event = false

-- A handler that fails, or leaves this pane in its tab.
data KeepsTab (id : Bool) (ui : Ui) (o : Option Ui) : Type 0 where
  no_result : o ≡ none → KeepsTab id ui o
  result :
      (t : Ui)
      → o ≡ some t
      → (panel_of id t).view_selected ≡ (panel_of id ui).view_selected
      → KeepsTab id ui o

keeps_tab :
    (id : Bool) (ui t : Ui)
    → (panel_of id t).view_selected ≡ (panel_of id ui).view_selected
    → KeepsTab id ui (some t)
keeps_tab id ui t e = result t refl e

from_panels : (id : Bool) (ui : Ui) {o : Option Ui} → KeepsPanels ui o → KeepsTab id ui o
from_panels id ui (fails e) = no_result e
from_panels false ui (gives t e same) = result t e (ap (λ (p : Panel). p.view_selected) same.left)
from_panels true ui (gives t e same) = result t e (ap (λ (p : Panel). p.view_selected) same.right)

bind-KeepsTab {ℓ} :
    {A : Type ℓ} (id : Bool) (ui : Ui) (o : Option A) (f : A → Option Ui)
    → ((a : A) → KeepsTab id ui (f a))
    → KeepsTab id ui (o >>= f)
bind-KeepsTab id ui none f h = no_result refl
bind-KeepsTab id ui (some a) f h = h a

if_tab :
    (b id : Bool) (ui t : Ui)
    → (panel_of id t).view_selected ≡ (panel_of id ui).view_selected
    → (panel_of id (if b then t else ui)).view_selected ≡ (panel_of id ui).view_selected
if_tab true id ui t h = h
if_tab false id ui t h = refl

-- A change of one pane, of its browser only or of the other pane.
same_tab :
    (id other : Bool) (f : Browser → Browser) (ui : Ui)
    → (panel_of id (on_panel other (λ p. record p { browser = f p.browser }) ui)).view_selected
      ≡ (panel_of id ui).view_selected
same_tab false false f ui = refl
same_tab false true f ui = refl
same_tab true false f ui = refl
same_tab true true f ui = refl

same_choice :
    (id other : Bool) (index : ℕ) (ui : Ui)
    → (panel_of id (on_panel other (λ p. record p { client_menu_index = index }) ui)).view_selected
      ≡ (panel_of id ui).view_selected
same_choice false false index ui = refl
same_choice false true index ui = refl
same_choice true false index ui = refl
same_choice true true index ui = refl

other_pane :
    (id other : Bool) (f : Panel → Panel) (ui : Ui)
    → is_pane id other ≡ false
    → panel_of id (on_panel other f ui) ≡ panel_of id ui
other_pane false false f ui h = cc
other_pane false true f ui h = refl
other_pane true false f ui h = refl
other_pane true true f ui h = cc

request-panel : (id : Bool) (r : Request) (ui : Ui) → panel_of id (request r ui) ≡ panel_of id ui
request-panel false r ui = refl
request-panel true r ui = refl

warn-panel : (id : Bool) (msg : Text) (ui : Ui) → panel_of id (warn msg ui) ≡ panel_of id ui
warn-panel false msg ui = refl
warn-panel true msg ui = refl

tab_of : {p q : Panel} → p ≡ q → p.view_selected ≡ q.view_selected
tab_of e = ap (λ (p : Panel). p.view_selected) e

module _ (id other : Bool) (ui : Ui) (apart : is_pane id other ≡ false) where
  error-tab : (panel_of id (browser_error other ui)).view_selected ≡ (panel_of id ui).view_selected
  unfolding browser_error
  error-tab = tab_of (other_pane id other _ (warn _ ui) apart ∙ warn-panel id _ ui)

  dents-tab :
      (payload : PathDentsPayload)
      → (panel_of id (show_dents other payload ui)).view_selected ≡ (panel_of id ui).view_selected
  unfolding show_dents
  dents-tab (path, none) =
      tab_of (warn-panel id _ (on_panel other _ ui) ∙ other_pane id other _ ui apart)
  dents-tab (path, some dents) = tab_of (other_pane id other _ ui apart)

  change_directory-tab :
      (path : Text)
      → (panel_of id (change_directory other path ui)).view_selected
        ≡ (panel_of id ui).view_selected
  change_directory-tab path =
      tab_of (other_pane id other _ (request _ ui) apart ∙ request-panel id _ ui)

  enter_parent-tab :
      (cwd : Text)
      → (panel_of id (enter_parent other cwd ui)).view_selected ≡ (panel_of id ui).view_selected
  enter_parent-tab [] = tab_of (other_pane id other _ (request _ ui) apart ∙ request-panel id _ ui)
  enter_parent-tab (c ∷ s) = change_directory-tab (parent_path (c ∷ s))

  enter_client-KeepsTab : KeepsTab id ui (enter_client other ui)
  unfolding enter_client
  enter_client-KeepsTab =
      let index = (panel_of other ui).client_menu_index in
      bind-KeepsTab id ui (get_elem? ui.clients.ids index) _ λ client_id.
        bind-KeepsTab id ui (get_elem? ui.clients.names index) _ λ name. keeps_tab id ui _ (
          tab_of (
            other_pane id other _ (request (request_browser_connection other client_id) ui) apart
            ∙ request-panel id (request_browser_connection other client_id) ui))

  enter_at-KeepsTab : (index : ℕ) (b : Browser) → KeepsTab id ui (enter_at other index b ui)
  enter_at-KeepsTab zero b = keeps_tab id ui _ (enter_parent-tab b.cwd)
  enter_at-KeepsTab (suc i) b = bind-KeepsTab id ui (get_elem? b.metas (suc i)) _ λ meta.
      bind-KeepsTab id ui (get_elem? b.basenames (suc i)) _ λ name. keeps_tab id ui _ (
        if_tab (is_dir meta.mode) id ui (change_directory other (join_path b.cwd name) ui)
          (change_directory-tab (join_path b.cwd name)))

-- A menu offers its entries only in its tab.
client_offered :
    (layer : Layer) (ui : Ui) (id : Bool)
    → offers layer ui (entered_client id) ≡ true
    → in_clients_tab (panel_of id ui).view_selected ≡ true
unfolding offers
client_offered main_container ui id h = h
client_offered layer ui id h = ground (arith, h)

dentry_offered :
    (layer : Layer) (ui : Ui) (id : Bool)
    → offers layer ui (entered_dentry id) ≡ true
    → in_browser_tab (panel_of id ui).view_selected ≡ true
unfolding offers
dentry_offered main_container ui id h = h
dentry_offered layer ui id h = ground (arith, h)

is_pane-eq : (id other : Bool) → is_pane id other ≡ true → id ≡ other
is_pane-eq false false h = refl
is_pane-eq true true h = refl
is_pane-eq false true h = cc
is_pane-eq true false h = cc

the_same :
    (id other : Bool) (ui : Ui) → is_pane id other ≡ true → panel_of other ui ≡ panel_of id ui
the_same id other ui h = ap (λ b. panel_of b ui) (sym (is_pane-eq id other h))

abbrev pub IsWaiting : Bool → Ui → Type 0
IsWaiting id ui = (panel_of id ui).view_selected ≡ waiting

step-KeepsTab :
    (e : Event) (id : Bool) (ui : Ui)
    → IsWaiting id ui
    → is_news id e ≡ false
    → (is_posted e || offers (top ui) ui e) ≡ true
    → KeepsTab id ui (handle e ui)
unfolding handle is_posted enter_dentry
step-KeepsTab (posted_error other) id ui w n o = keeps_tab id ui _ (error-tab id other ui n)
step-KeepsTab (posted_dents other payload) id ui w n o =
    keeps_tab id ui _ (dents-tab id other ui n payload)
step-KeepsTab (toggled other) id ui w n o = keeps_tab id ui _ (same_tab id other _ ui)
step-KeepsTab (moved other index) id ui w n o = keeps_tab id ui _ (same_tab id other _ ui)
step-KeepsTab (chose_client other index) id ui w n o =
    keeps_tab id ui _ (same_choice id other index ui)
step-KeepsTab (entered_client other) id ui w n o = elim (Bool-cases (is_pane id other)) [
  | inl here ↦
      let shut : in_clients_tab (panel_of other ui).view_selected ≡ false =
        ap in_clients_tab (tab_of (the_same id other ui here) ∙ w) in
      let offered : in_clients_tab (panel_of other ui).view_selected ≡ true =
        client_offered (top ui) ui other o in
      cc
  | inr apart ↦ enter_client-KeepsTab id other ui apart
]
step-KeepsTab (entered_dentry other) id ui w n o = elim (Bool-cases (is_pane id other)) [
  | inl here ↦
      let shut : in_browser_tab (panel_of other ui).view_selected ≡ false =
        ap in_browser_tab (tab_of (the_same id other ui here) ∙ w) in
      let offered : in_browser_tab (panel_of other ui).view_selected ≡ true =
        dentry_offered (top ui) ui other o in
      cc
  | inr apart ↦
      enter_at-KeepsTab id other ui apart (panel_of other ui).browser.menu_index
        (panel_of other ui).browser
]
step-KeepsTab e id ui w n o = from_panels id ui (quiet e ui refl)

some_tab :
    (id : Bool) {ui t : Ui} {o : Option Ui}
    → KeepsTab id ui o
    → o ≡ some t
    → IsWaiting id ui
    → IsWaiting id t
some_tab id (no_result e) h w = cc
some_tab id {t = t} (result u e same) h w =
    let p : u ≡ t = cc in subst (λ v. IsWaiting id v) p (same ∙ w)

-- A pane that waits for a connection shows nothing else until the network reports an error or a
-- listing for this very pane: no key and no button brings the user back, and a warning does not
-- either.
pub waits_for_news :
    (id : Bool) (events : List Event) (ui t : Ui)
    → IsWaiting id ui
    → All (λ e. is_news id e ≡ false) events
    → Shows events ui t
    → IsWaiting id t
waits_for_news id [] ui t w quiet_events e = subst (λ v. IsWaiting id v) e w
waits_for_news id (e ∷ es) ui t w (n, others) (u, step, shows) =
    waits_for_news id es u t (some_tab id (step-KeepsTab e id ui w n step.reaches) step.handled w)
      others shows
