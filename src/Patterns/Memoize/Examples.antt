-- ===== src/Patterns/Memoize/Examples.antt =====
-- Calls of the memoized `fib`.
use awesome_patterns.Base.{◌≡◌, [], ◌∷◌, map}
use awesome_patterns.Patterns.Memoize.{calls, fib}
use awesome_patterns.Patterns.Memoize.Laws.{calls_lem}

calls_lem_example : calls fib [] (7 ∷ 3 ∷ 7 ∷ []) ≡ map fib (7 ∷ 3 ∷ 7 ∷ [])
calls_lem_example = calls_lem fib (7 ∷ 3 ∷ 7 ∷ []) [] tt
