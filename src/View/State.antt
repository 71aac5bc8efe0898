-- ===== src/View/State.antt =====
-- The state of `ClientUi` (include/remy/view-client.hpp): what the handlers of src/view-client.cpp
-- read and write. What they ask of `ClientNet` is a list of requests.
use remy.Logger.Levels.{Color}
use remy.Base.{ℕ, Bool, true, false, Option, List, [], ◌∷◌, ◌++◌}
use remy.Wire.{Text, FileMetainfo, RemoteDentries, RemoteDentry, WatcherInfo}

pub data PanelView : Type 0 where
  clients browser waiting : PanelView

pub record Browser : Type 0 where
  pub client_id : ℕ
  pub name : Text
  pub cwd : Text
  pub pretty_cwd : Text
  pub menu_index : ℕ
  pub basenames : List Text
  pub metas : List FileMetainfo
  pub selected_dentries : List Bool

pub record Panel : Type 0 where
  pub view_selected : PanelView
  pub client_menu_index : ℕ
  pub browser : Browser

pub record ErrorModal : Type 0 where
  pub message : Text
  pub is_shown : Bool

pub data CopyView : Type 0 where
  copy_dialog copy_progress copy_completed copy_failed : CopyView

-- `direction` is true from right to left.
pub record CopyModal : Type 0 where
  pub is_shown : Bool
  pub direction : Bool
  pub view_selected : CopyView
  pub src : RemoteDentries
  pub dst : RemoteDentry
  pub progress_info : WatcherInfo

pub data DeleteState : Type 0 where
  confirmation_dialog delete_waiting delete_result : DeleteState

pub record DeleteModal : Type 0 where
  pub is_shown : Bool
  pub state : DeleteState
  pub id : Bool
  pub entries : RemoteDentries
  pub result_msg : Text

pub data MkdirState : Type 0 where
  input mkdir_waiting mkdir_result : MkdirState

pub record MkdirModal : Type 0 where
  pub is_shown : Bool
  pub state : MkdirState
  pub id : Bool
  pub basedir : Text
  pub name : Text
  pub result_msg : Text

pub record NameModal : Type 0 where
  pub new_name : Text
  pub is_shown : Bool

-- A line of the log view: `color` by its number, if one is set, and `bold`.
pub record LogLine : Type 0 where
  pub color : Option Color
  pub is_bold : Bool
  pub line : Text

pub record ClientsInfo : Type 0 where
  pub ids : List ℕ
  pub names : List Text
  pub pretty_names : List Text

-- The calls of `ClientNet`. A `UiBrowserId` is false for the left panel and true for the right one.
pub data Request : Type 0 where
  request_clients_list : Request
  set_new_name : Text → Request
  request_browser_connection : Bool → ℕ → Request
  disconnect_browser : Bool → Request
  cd : Bool → Text → Request
  request_copy : RemoteDentries → RemoteDentry → Request
  request_delete : Bool → RemoteDentries → Request
  request_mkdir : Bool → Text → Text → Request

-- `log_lines` and `logs_shown` are the fields of `m_logs`, `last_click` is in nanoseconds of the
-- steady clock, `returns` counts the `Event::Return`s that have been posted to the screen, and
-- `has_exited` tells that `m_screen.Exit()` was called. `right_focused` is
-- `m_panels_components[1]->Focused()`, and the left panel is focused where it is not.
pub record Ui : Type 0 where
  pub clients : ClientsInfo
  pub left : Panel
  pub right : Panel
  pub right_focused : Bool
  pub warning : ErrorModal
  pub copy : CopyModal
  pub delete : DeleteModal
  pub mkdir : MkdirModal
  pub name_modal : NameModal
  pub critical : ErrorModal
  pub show_help : Bool
  pub pretty_name : Text
  pub split_size : ℕ
  pub log_lines : List LogLine
  pub logs_shown : Bool
  pub last_click : ℕ
  pub returns : ℕ
  pub has_exited : Bool
  pub sent : List Request

-- m_panels[id]
abbrev pub panel_of : Bool → Ui → Panel
panel_of false ui = ui.left
panel_of true ui = ui.right

abbrev pub on_panel : Bool → (Panel → Panel) → Ui → Ui
on_panel false f ui = record ui { left = f ui.left }
on_panel true f ui = record ui { right = f ui.right }

abbrev pub request : Request → Ui → Ui
request r ui = record ui { sent = ui.sent ++ r ∷ [] }

abbrev pub warn : Text → Ui → Ui
warn msg ui = record ui { warning = record { message = msg; is_shown = true } }
