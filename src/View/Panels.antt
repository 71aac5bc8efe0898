-- ===== src/View/Panels.antt =====
-- The two panels of `ClientUi` (src/view-client.cpp): the list of clients, the browser of one, and
-- what the network reports about them.
pub mod Consistent
use remy.Base.{
  ℕ, zero, suc, ◌+◌, ◌-◌, min, Bool, true, false, not, List, [], ◌∷◌, ◌++◌, map, Option, none, some,
  ltb, ◌==◌, if◌then◌else◌, length, get_elem?, modify, replicate, drop,
}
use remy.Wire.{
  Text, FileMetainfo, Timestamp, Dentry, RemoteDentries, PathDentsPayload, ClientsListPayload,
}
use remy.Copy.Files.{is_dir, join_path, is_absolute}
use remy.Utils.Duration.{codes, decimal}
use remy.View.Dents.{sort_dents}
use remy.View.State.{
  Browser, Panel, PanelView, clients, browser, waiting, Ui, ClientsInfo, ErrorModal, Request,
  request_browser_connection, disconnect_browser, cd, request_clients_list, panel_of, on_panel,
  request, warn,
}
use mathlib.Core.List.{reverse}
use mathlib.Core.Option
use remy.Base.Options.{◌>>=◌}

-- std::vector::resize(1)
abbrev pub resize_one {ℓ} : {A : Type ℓ} → A → List A → List A
resize_one a [] = a ∷ []
resize_one a (x ∷ xs) = x ∷ []

-- FileMetainfo{}
abbrev pub no_metainfo : FileMetainfo
no_metainfo = record {
  size = 0;
  uid = 0;
  gid = 0;
  mode = 0;
  padding = 0;
  atime = record { tv_sec = 0; tv_nsec = 0; reserved = 0 };
  mtime = record { tv_sec = 0; tv_nsec = 0; reserved = 0 };
}

unfoldable pub update_clients : ClientsListPayload → Ui → Ui
update_clients list ui = record ui {
  clients = record {
    ids = map (λ c. c.0) list;
    names = map (λ c. c.1) list;
    pretty_names = map (λ c. c.1 ++ codes " (" ++ decimal c.0 ++ codes ")") list;
  };
}

unfoldable pub browser_error : Bool → Ui → Ui
browser_error id ui =
    let b = (panel_of id ui).browser in
    on_panel id (λ p. record p { view_selected = clients })
      (warn (codes "Client " ++ b.name ++ codes " unexpectedly disconnected") ui)

-- What `show_dents` makes of a browser, once there are entries.
unfoldable pub list_dents : Text → List Dentry → Browser → Browser
list_dents path dents b =
    let sorted = sort_dents dents in
    record b {
      pretty_cwd = b.name ++ codes ":" ++ path;
      cwd = path;
      menu_index = 0;
      basenames = resize_one [] b.basenames ++ map (λ d. d.basename) sorted;
      metas = resize_one no_metainfo b.metas ++ map (λ d. d.metainfo) sorted;
      selected_dentries = replicate (length dents + 1) false;
    }

unfoldable pub show_dents : Bool → PathDentsPayload → Ui → Ui
show_dents id (path, none) ui =
    warn (codes "cd to '" ++ path ++ codes "' failed")
      (on_panel id (λ p. record p { view_selected = browser }) ui)
show_dents id (path, some dents) ui =
    on_panel id
      (λ p. record p { view_selected = browser; browser = list_dents path dents p.browser }) ui

-- The `on_enter` of the list of clients. `none` is an index out of range.
unfoldable pub enter_client : Bool → Ui → Option Ui
enter_client id ui = do
  let index = (panel_of id ui).client_menu_index
  client_id ← get_elem? ui.clients.ids index
  name ← get_elem? ui.clients.names index
  some (
      on_panel id
        (λ p. record p {
          view_selected = waiting;
          browser = record p.browser { client_id = client_id; name = name };
        })
        (request (request_browser_connection id client_id) ui))

-- `std::filesystem::path::parent_path` on POSIX.
abbrev pub skip_name : Text → Text
skip_name [] = []
skip_name (c ∷ s) = if c == b'/' then c ∷ s else skip_name s

abbrev pub skip_slashes : Text → Text
skip_slashes [] = []
skip_slashes (c ∷ s) = if c == b'/' then skip_slashes s else c ∷ s

abbrev pub or_root : Bool → Text → Text
or_root true [] = b'/' ∷ []
or_root absolute s = s

unfoldable pub parent_path : Text → Text
parent_path s = or_root (is_absolute s) (reverse (skip_slashes (skip_name (reverse s))))

abbrev pub change_directory : Bool → Text → Ui → Ui
change_directory id path ui =
    on_panel id (λ p. record p { view_selected = waiting }) (request (cd id path) ui)

-- The `on_enter` of a browser's list: ".." leads to the parent, and out of the browser from the list
-- of roots; a directory is entered.
abbrev pub enter_parent : Bool → Text → Ui → Ui
enter_parent id [] ui =
    on_panel id (λ p. record p { view_selected = clients }) (request (disconnect_browser id) ui)
enter_parent id (c ∷ s) ui = change_directory id (parent_path (c ∷ s)) ui

abbrev pub enter_at : Bool → ℕ → Browser → Ui → Option Ui
enter_at id zero b ui = some (enter_parent id b.cwd ui)
enter_at id (suc i) b ui = do
  meta ← get_elem? b.metas (suc i)
  name ← get_elem? b.basenames (suc i)
  some (if is_dir meta.mode then change_directory id (join_path b.cwd name) ui else ui)

unfoldable pub enter_dentry : Bool → Ui → Option Ui
enter_dentry id ui = let b = (panel_of id ui).browser in enter_at id b.menu_index b ui

-- The space key on a browser's list.
unfoldable pub toggle : Browser → Browser
toggle b =
    if ltb 0 b.menu_index
    then record b {
      selected_dentries = modify b.selected_dentries b.menu_index not;
      menu_index = min (b.menu_index + 1) (length b.basenames - 1);
    }
    else b

-- The arrow keys: the menu keeps its index within its entries.
unfoldable pub move_to : ℕ → Browser → Browser
move_to index b = record b { menu_index = min index (length b.basenames - 1) }

-- The names of the entries that are marked, without the first entry: the loop of
-- `collect_selected_dentries` from index 1.
unfoldable pub chosen : List Bool → List Text → Option (List Text)
chosen [] names = some []
chosen (false ∷ marks) names = chosen marks (drop 1 names)
chosen (true ∷ marks) [] = none
chosen (true ∷ marks) (n ∷ names) = Option.map (λ ns. n ∷ ns) (chosen marks names)

-- What it falls back to if none is.
abbrev pub highlighted : Browser → Option (List Text)
highlighted b = elim b.menu_index [
  | zero ↦ some (drop 1 b.basenames)
  | suc i ↦ Option.map (λ n. n ∷ []) (get_elem? b.basenames (suc i))
]

abbrev pub or_highlighted : Browser → List Text → Option (List Text)
or_highlighted b [] = highlighted b
or_highlighted b (n ∷ ns) = some (n ∷ ns)

unfoldable pub collect_selected_dentries : Browser → Option RemoteDentries
collect_selected_dentries b = do
  marked ← chosen (drop 1 b.selected_dentries) (drop 1 b.basenames)
  names ← or_highlighted b marked
  some (record { id = b.client_id; basedir = b.cwd; dentries = names })

abbrev pub refresh : PanelView → Bool → Text → Ui → Ui
refresh browser id cwd ui = request (cd id cwd) ui
refresh view id cwd ui = ui

-- It asks for the clients, and reads each open directory again.
unfoldable pub reload_info : Ui → Ui
reload_info ui =
    refresh ui.right.view_selected true ui.right.browser.cwd
      (refresh ui.left.view_selected false ui.left.browser.cwd (request request_clients_list ui))
