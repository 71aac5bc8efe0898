-- ===== src/View/Events/Panels.antt =====
-- What is to hold of a `ClientUi` (src/view-client.cpp), and that its panels keep it.
use remy.Base.{
  ℕ, zero, suc, ◌<◌, ◌≡◌, refl, ap, Bool, true, false, [], ◌∷◌, Option, none, some, arith,
  if◌then◌else◌, length, get_elem?, ◌⊎◌,
}
use remy.Base.Options.{bind_some}
use remy.Wire.{Text, PathDentsPayload}
use remy.Copy.Files.{is_dir, join_path}
use remy.View.State.{
  Browser, Panel, PanelView, clients, browser, waiting, Ui, panel_of, on_panel, request, warn,
  disconnect_browser,
}
use remy.View.Panels.{
  browser_error, show_dents, enter_client, enter_dentry, reload_info, refresh, change_directory,
  parent_path, enter_parent, enter_at,
}
use remy.View.Panels.Consistent.{IsConsistent, list_dents-IsConsistent, get_elem?-in_range}
use remy.View.Events.{Event, entered_client, posted_dents}
use remy.View.Dents.Order.{HasNoTwins}

-- Both browsers are consistent, the three lists of clients are of one length, and a copy dialog
-- that is shown has something to copy.
abbrev pub IsSound : Ui → Type 0
IsSound ui =
    IsConsistent ui.left.browser
    × IsConsistent ui.right.browser
    × (length ui.clients.names ≡ length ui.clients.ids)
    × ((ui.copy.is_shown ≡ false) ⊎ (0 < length ui.copy.src.dentries))

-- The list of clients hands out an index only of one of its entries, and a listing has no name twice:
-- the comparison that is given to `std::sort` is no strict weak order on equal entries.
abbrev pub InRange : Event → Ui → Type 0
InRange (posted_dents id (path, some dents)) ui = HasNoTwins dents
InRange (entered_client id) ui = (panel_of id ui).client_menu_index < length ui.clients.ids
InRange event ui = Unit {0}

pub on_panel-IsSound :
    (id : Bool) (f : Panel → Panel) (ui : Ui)
    → ((p : Panel) → IsConsistent p.browser → IsConsistent (f p).browser)
    → IsSound ui
    → IsSound (on_panel id f ui)
on_panel-IsSound false f ui keep (l, r, c, d) = (keep ui.left l, r, c, d)
on_panel-IsSound true f ui keep (l, r, c, d) = (l, keep ui.right r, c, d)

pub panel_of-IsConsistent :
    (id : Bool) (ui : Ui) → IsSound ui → IsConsistent (panel_of id ui).browser
panel_of-IsConsistent false ui (l, r, c, d) = l
panel_of-IsConsistent true ui (l, r, c, d) = r

refresh-IsSound :
    (view : PanelView) (id : Bool) (cwd : Text) (ui : Ui)
    → IsSound ui
    → IsSound (refresh view id cwd ui)
refresh-IsSound clients id cwd ui ok = ok
refresh-IsSound browser id cwd ui ok = ok
refresh-IsSound waiting id cwd ui ok = ok

pub reload_info-IsSound : (ui : Ui) → IsSound ui → IsSound (reload_info ui)
unfolding reload_info
reload_info-IsSound ui ok =
    refresh-IsSound ui.right.view_selected true ui.right.browser.cwd _
      (refresh-IsSound ui.left.view_selected false ui.left.browser.cwd _ ok)

pub show_dents-IsSound :
    (id : Bool) (payload : PathDentsPayload) (ui : Ui)
    → IsSound ui
    → IsSound (show_dents id payload ui)
unfolding show_dents
show_dents-IsSound id (path, none) ui ok = on_panel-IsSound id _ ui (λ p h. h) ok
show_dents-IsSound id (path, some dents) ui ok =
    on_panel-IsSound id _ ui (λ p. list_dents-IsConsistent path dents p.browser) ok

pub browser_error-IsSound : (id : Bool) (ui : Ui) → IsSound ui → IsSound (browser_error id ui)
unfolding browser_error
browser_error-IsSound id ui ok = on_panel-IsSound id _ (warn _ ui) (λ p h. h) ok

-- A handler that may read beyond an end does not, and leaves all sound.
abbrev pub Answers : Option Ui → Type 0
Answers o = (t : Ui) × (o ≡ some t) × IsSound t

change_directory-IsSound :
    (id : Bool) (path : Text) (ui : Ui) → IsSound ui → IsSound (change_directory id path ui)
change_directory-IsSound id path ui ok = on_panel-IsSound id _ (request _ ui) (λ p h. h) ok

relabel :
    (b : Browser) (id : ℕ) (name : Text)
    → IsConsistent b
    → IsConsistent (record b { client_id = id; name = name })
relabel b id name ok = record {
  names = ok.names;
  basenames = ok.basenames;
  marks = ok.marks;
  metas = ok.metas;
  index = ok.index;
}

pub enter_client-Answers :
    (id : Bool) (ui : Ui)
    → (panel_of id ui).client_menu_index < length ui.clients.ids
    → IsSound ui
    → Answers (enter_client id ui)
unfolding enter_client
enter_client-Answers id ui h ok =
    let index = (panel_of id ui).client_menu_index in
    let (client, at) = get_elem?-in_range ui.clients.ids index h in
    let (name, at_name) = get_elem?-in_range ui.clients.names index (omega (arith, h, ok.2)) in
    (
      _,
      bind_some (get_elem? ui.clients.ids index) _ at
          (bind_some (get_elem? ui.clients.names index) _ at_name refl),
      on_panel-IsSound id _ (request _ ui) (λ p. relabel p.browser client name) ok,
    )

pub if-IsSound : (b : Bool) (t u : Ui) → IsSound t → IsSound u → IsSound (if b then t else u)
if-IsSound true t u h k = h
if-IsSound false t u h k = k

enter_parent-IsSound :
    (id : Bool) (cwd : Text) (ui : Ui) → IsSound ui → IsSound (enter_parent id cwd ui)
enter_parent-IsSound id [] ui ok =
    on_panel-IsSound id (λ p. record p { view_selected = clients })
      (request (disconnect_browser id) ui) (λ p h. h) ok
enter_parent-IsSound id (c ∷ s) ui ok = change_directory-IsSound id (parent_path (c ∷ s)) ui ok

enter_at-Answers :
    (id : Bool) (index : ℕ) (b : Browser) (ui : Ui)
    → IsConsistent b
    → b.menu_index ≡ index
    → IsSound ui
    → Answers (enter_at id index b ui)
enter_at-Answers id zero b ui c e ok =
    (enter_parent id b.cwd ui, refl, enter_parent-IsSound id b.cwd ui ok)
enter_at-Answers id (suc i) b ui c e ok =
    let (meta, at_meta) = get_elem?-in_range b.metas (suc i) (omega (arith, c.index, c.metas, e)) in
    let (name, at_name) =
      get_elem?-in_range b.basenames (suc i) (omega (arith, c.index, e, ap length c.basenames)) in
    let opened = change_directory id (join_path b.cwd name) ui in
    (
      if is_dir meta.mode then opened else ui,
      bind_some (get_elem? b.metas (suc i)) _ at_meta
          (bind_some (get_elem? b.basenames (suc i)) _ at_name refl),
      if-IsSound (is_dir meta.mode) opened ui
          (change_directory-IsSound id (join_path b.cwd name) ui ok) ok,
    )

pub enter_dentry-Answers : (id : Bool) (ui : Ui) → IsSound ui → Answers (enter_dentry id ui)
unfolding enter_dentry
enter_dentry-Answers id ui ok =
    let b = (panel_of id ui).browser in
    enter_at-Answers id b.menu_index b ui (panel_of-IsConsistent id ui ok) refl ok
