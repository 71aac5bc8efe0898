-- ===== src/Programs.antt =====
-- The two programs, src/main-server.cpp and src/main-client.cpp: their options, the observers of the
-- log, and how they end. boost::program_options parses the command line: what it finds, or throws, is
-- a parameter, as is the exception, if any, with which the rest of the program ends.
use remy.Base.{ℕ, zero, suc, ◌-◌, Bool, List, [], ◌∷◌, ◌++◌, Option, none, some, if◌then◌else◌}
use remy.Wire.{Text}
use remy.Utils.Duration.{codes}

-- include/remy/common.hpp
pub record Config : Type 0 where
  pub addr : Text
  pub port : ℕ
  pub log_path : Text

abbrev pub remy_default_port : ℕ
remy_default_port = 7312

-- What the command line gives. `dir` is an option of the client only.
pub record Options : Type 0 where
  pub help : Bool
  pub addr : Option Text
  pub port : Option ℕ
  pub dir : Option Text
  pub log_file : Option Text

pub data Exception : Type 0 where
  standard : Text → Exception
  unknown : Exception

pub data Parsed : Type 0 where
  options : Options → Parsed
  parse_threw : Exception → Parsed

pub data Action : Type 0 where
  print_help : Action
  change_directory : Text → Action
  add_cout_observer : Action
  add_file_observer : Text → Action
  add_ui_observer : Action
  wait_for_signals : Action
  spawn_server : Config → Action
  run_thread : ℕ → Action
  run_ui : Config → Action
  report : Text → Action

abbrev pub exit_success : ℕ
exit_success = 0

abbrev pub exit_failure : ℕ
exit_failure = 1

abbrev or_default {ℓ} : {A : Type ℓ} → A → Option A → A
or_default a none = a
or_default a (some b) = b

-- `notify` stores the values and the defaults.
unfoldable pub config_of : Options → Config
config_of o = record {
  addr = or_default (codes "127.0.0.1") o.addr;
  port = or_default remy_default_port o.port;
  log_path = or_default [] o.log_file;
}

-- The two `catch` clauses of `main`.
unfoldable pub handle_exception : Option Exception → List Action × ℕ
handle_exception none = ([], exit_success)
handle_exception (some (standard what)) = (report (codes "Error: " ++ what) ∷ [], exit_failure)
handle_exception (some unknown) = (report (codes "Unknown error") ∷ [], exit_failure)

abbrev after : List Action → List Action × ℕ → List Action × ℕ
after actions (more, code) = (actions ++ more, code)

abbrev log_observer : Text → List Action
log_observer [] = []
log_observer (c ∷ path) = add_file_observer (c ∷ path) ∷ []

-- The loop that starts threads 1 to nproc - 1; thread 0 is that of `main`.
unfoldable pub threads : ℕ → ℕ → List Action
threads i zero = []
threads i (suc n) = run_thread i ∷ threads (suc i) n

unfoldable pub server_main : Parsed → ℕ → Option Exception → List Action × ℕ
unfolding config_of handle_exception threads
server_main (parse_threw e) nproc ended = handle_exception (some e)
server_main (options o) nproc ended =
    let conf = config_of o in
    if o.help
    then (print_help ∷ [], exit_success)
    else after
        (add_cout_observer
          ∷ (log_observer conf.log_path
              ++ wait_for_signals
                ∷ spawn_server conf
                ∷ (threads 1 (nproc - 1) ++ run_thread 0 ∷ [])))
        (handle_exception ended)

-- `current_path` of the directory throws if it cannot be entered.
abbrev enter_dir : Option Text → Option Exception → List Action × ℕ → List Action × ℕ
enter_dir none entered runs = runs
enter_dir (some dir) none runs =
    after
      (report (codes "INFO: change directory to '" ++ dir ++ codes "'") ∷ change_directory dir ∷ [])
      runs
enter_dir (some dir) (some e) runs =
    after (report (codes "INFO: change directory to '" ++ dir ++ codes "'") ∷ [])
      (handle_exception (some e))

unfoldable pub client_main : Parsed → Option Exception → Option Exception → List Action × ℕ
unfolding config_of handle_exception
client_main (parse_threw e) entered ended = handle_exception (some e)
client_main (options o) entered ended =
    let conf = config_of o in
    if o.help
    then (print_help ∷ [], exit_success)
    else enter_dir o.dir entered (
        after (log_observer conf.log_path ++ add_ui_observer ∷ run_ui conf ∷ [])
          (handle_exception ended))
