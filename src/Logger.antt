-- ===== src/Logger.antt =====
-- include/remy/logger.hpp: the observers of a log line, and their removal.
pub mod Guards
pub mod Levels
pub mod Observers
use remy.Base.{
  ℕ, ◌+◌, Bool, true, false, not, ◌||◌, List, [], ◌∷◌, ◌++◌, map, Option, none, some, ◌==◌,
  if◌then◌else◌, length, drop,
}

-- A `weak_ptr` to an observer; `none` is one that was moved from. `alive` tells whose objects exist.
abbrev pub Weak : Type 0
Weak = Option ℕ

abbrev pub add_observer : Weak → List Weak → List Weak
add_observer observer os = os ++ observer ∷ []

module _ (alive : ℕ → Bool) where
  -- weak.expired()
  abbrev pub expired : Weak → Bool
  expired none = true
  expired (some observer) = not (alive observer)

  -- The observers that `send_to_observers` calls, in turn, and whether it met one that is gone. What
  -- an observer throws is caught.
  unfoldable pub send_to_observers : List Weak → List Weak × Bool
  send_to_observers [] = ([], false)
  send_to_observers (o ∷ os) =
      let (called, needs_cleanup) = send_to_observers os in
      if expired o then (called, true) else (o ∷ called, needs_cleanup)

  unfoldable pub live : List Weak → List Weak
  live [] = []
  live (o ∷ os) = if expired o then live os else o ∷ live os

  -- What a moved element leaves behind.
  abbrev pub left_behind : Weak → Weak
  left_behind o = if expired o then o else none

  -- std::remove_if moves the elements that stay to the front; behind the iterator that it returns
  -- stand those that were not overwritten.
  unfoldable pub remove_if : List Weak → List Weak × List Weak
  remove_if os = (live os, map left_behind (drop (length (live os)) os))

  -- m_observers.erase(it): one element, the one that the iterator points to. There has to be one.
  unfoldable pub cleanup_observers : List Weak → Option (List Weak)
  cleanup_observers os =
      let (kept, rest) = remove_if os in
      elim rest [ [] ↦ none | _o ∷ others ↦ some (kept ++ others) ]

  -- `Logger::log`, when no other thread logs at the same time.
  unfoldable pub log : List Weak → List Weak × Option (List Weak)
  log os =
      let (called, needs_cleanup) = send_to_observers os in
      (called, if needs_cleanup then cleanup_observers os else some os)
