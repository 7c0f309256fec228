-- ===== src/Patterns/Memento/Examples.antt =====
-- The game of `main`: two moves, and two loads.
use awesome_patterns.Base.{◌≡◌, List, [], ◌∷◌, some, length}
use awesome_patterns.Base.Int.{ℤ, pos}
use awesome_patterns.Patterns.Memento.{Player}
use awesome_patterns.Patterns.Memento.Laws.{visit, load, left_behind, load-visit}

abbrev icg : Player
icg = record { x = pos 114; y = pos 514; name = "icg" }

abbrev places : List (ℤ × ℤ)
places = (pos 810, pos 19) ∷ (pos 0, pos 0) ∷ []

load-visit_example :
    load (length places) (visit places icg []).0 (visit places icg []).1
    ≡ some (left_behind places icg [], icg, [])
load-visit_example = load-visit places icg []
