-- ===== src/Tests/Helpers.antt =====
-- Small inputs for the helpers (include/remy/utils.hpp), the ids and the logger.
use remy.Base.{ℕ, ◌-◌, ◌≡◌, Bool, List, [], ◌∷◌, some, arith, ◌==◌, if◌then◌else◌, length}
use remy.Base.Map.{Map}
use remy.Wire.{Text}
use remy.Utils.Duration.{pretty_duration, read_duration, read_duration-pretty_duration}
use remy.Logger.{Weak, live, log}
use remy.Logger.Observers.{log_lem}

abbrev padded : Text
padded = b'a' ∷ b' ' ∷ b'b' ∷ b' ' ∷ b' ' ∷ []

read_duration-pretty_duration_example : read_duration (pretty_duration 3725) ≡ 3725
read_duration-pretty_duration_example = read_duration-pretty_duration 3725 (omega arith)

abbrev no_digits : ℕ → ℕ → ℕ → Text
no_digits a b c = []

abbrev taken_ids : Map ℕ
taken_ids = (7, 0) ∷ (8, 1) ∷ []

abbrev is_two : ℕ → Bool
is_two n = n == 2

abbrev observers : List Weak
observers = some 1 ∷ some 2 ∷ some 3 ∷ []

log_lem_example :
    ((log is_two observers).0 ≡ live is_two observers)
    × ((ps : List Weak) × ((log is_two observers).1 ≡ some ps)
        × (live is_two ps ≡ live is_two observers)
        × (length ps ≡ (
            if length (live is_two observers) == length observers
            then length observers
            else length observers - 1)))
log_lem_example = log_lem is_two observers
