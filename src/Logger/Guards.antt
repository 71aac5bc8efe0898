-- ===== src/Logger/Guards.antt =====
-- `DistLog::Guard` of include/remy/logger.hpp: a line at the begin of a scope, and one at its end,
-- which the destructor logs also when an exception leaves the scope.
use remy.Base.{◌≢◌, Bool, true, false, List, [], ◌∷◌, ◌++◌}
use remy.Wire.{Text}
use remy.Utils.Duration.{codes}
use remy.Logger.Levels.{LogLevel, trace}

abbrev pub Line : Type 0
Line = LogLevel × Text

abbrev pub begin_line : Text → Line
begin_line func_name = (trace, codes "++" ++ func_name)

abbrev pub end_line : Text → Line
end_line func_name = (trace, codes "--" ++ func_name)

-- What a piece of code does to the log: it logs, it opens a scope with a guard, it ends or it throws.
pub data Code : Type 0 where
  ends throws : Code
  logs : Line → Code → Code
  guarded : Text → Code → Code → Code

-- ~Guard(), after the lines of its scope; what comes later runs if the scope has not thrown.
abbrev pub leave_scope : Text → List Line × Bool → List Line × Bool → List Line × Bool
leave_scope func_name (lines, true) later =
    (begin_line func_name ∷ (lines ++ end_line func_name ∷ []), true)
leave_scope func_name (lines, false) (later, threw) =
    (begin_line func_name ∷ (lines ++ end_line func_name ∷ later), threw)

-- The lines, and whether it threw.
unfoldable pub run_code : Code → List Line × Bool
run_code ends = ([], false)
run_code throws = ([], true)
run_code (logs line code) = let (lines, threw) = run_code code in (line ∷ lines, threw)
run_code (guarded func_name inner code) =
    let later = run_code code in leave_scope func_name (run_code inner) later

abbrev IsPlain : Line → Type 0
IsPlain line = (func_name : Text) → (line ≢ begin_line func_name) × (line ≢ end_line func_name)

abbrev LogsPlain : Code → Type 0
LogsPlain (logs line code) = IsPlain line × LogsPlain code
LogsPlain (guarded func_name inner code) = LogsPlain inner × LogsPlain code
LogsPlain code = Unit {0}

-- Each begin has its end, of the same name, and what stands between is nested, too.
data IsNested : List Line → Type 0 where
  no_line : IsNested []
  plain :
      {line : Line} {lines : List Line} → IsPlain line → IsNested lines → IsNested (line ∷ lines)
  scope :
      (func_name : Text) {lines later : List Line}
      → IsNested lines
      → IsNested later
      → IsNested (begin_line func_name ∷ (lines ++ end_line func_name ∷ later))

leave_scope-IsNested :
    (func_name : Text) (inner later : List Line × Bool)
    → IsNested inner.0
    → IsNested later.0
    → IsNested (leave_scope func_name inner later).0
leave_scope-IsNested func_name (lines, true) later h k = scope func_name h no_line
leave_scope-IsNested func_name (lines, false) (later, threw) h k = scope func_name h k

-- However scopes are nested, and wherever an exception is thrown: if the code's own lines look like
-- no guard's, the lines of the guards are nested.
run_code-IsNested : (code : Code) → LogsPlain code → IsNested (run_code code).0
unfolding run_code
run_code-IsNested ends h = no_line
run_code-IsNested throws h = no_line
run_code-IsNested (logs line code) h = plain h.0 (run_code-IsNested code h.1)
run_code-IsNested (guarded func_name inner code) h =
    leave_scope-IsNested func_name (run_code inner) (run_code code) (run_code-IsNested inner h.0)
      (run_code-IsNested code h.1)
