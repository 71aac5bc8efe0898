-- ===== src/Logger/Levels.antt =====
-- The levels of a log line and how they are shown: include/remy/logger.hpp, and the view of the log
-- in src/view-client.cpp.
use remy.Base.{◌∷◌, ◌++◌, Bool, true, false, Option, none, some}
use remy.Wire.{Text}
use remy.Utils.Duration.{codes}

pub data LogLevel : Type 0 where
  trace info warning error critical : LogLevel

unfoldable pub to_str : LogLevel → Text
to_str trace = codes "Trace"
to_str info = codes "Info"
to_str warning = codes "Warning"
to_str error = codes "Error"
to_str critical = codes "Critical"

-- The escape character is code 27.
abbrev escape : Text → Text
escape s = 27 ∷ s

unfoldable pub ansi_color : LogLevel → Text
ansi_color info = escape (codes "[32m")
ansi_color warning = escape (codes "[33m")
ansi_color error = escape (codes "[31m")
ansi_color critical = escape (codes "[31;1;4m")
ansi_color trace = escape (codes "[0m")

-- `CoutLogWriter::log`: what it writes for a line.
unfoldable pub cout_line : LogLevel → Text → Text
unfolding to_str ansi_color
cout_line level line =
    ansi_color level ++ to_str level ++ codes " " ++ line ++ escape (codes "[0m") ++ codes "\n"

-- `FileLogWriter::log`: the time comes from the clock, as `strftime` prints it.
unfoldable pub file_line : Text → LogLevel → Text → Text
unfolding to_str
file_line time level line = time ++ codes " [" ++ to_str level ++ codes "]: " ++ line ++ codes "\n"

-- The colours that `ClientUi` uses for its log and for the names in a listing.
pub data Color : Type 0 where
  green yellow red blue cyan : Color

-- `ClientUi::log`: `Critical` falls through to `Error`.
unfoldable pub log_color : LogLevel → Option Color
log_color info = some green
log_color warning = some yellow
log_color critical = some red
log_color error = some red
log_color trace = none

unfoldable pub log_is_bold : LogLevel → Bool
log_is_bold critical = true
log_is_bold level = false
