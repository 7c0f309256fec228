-- ===== src/Semaphore/Examples.antt =====
-- The semaphore of `main`, with one ticket, which is acquired.
use awesome_patterns.Base.{refl, false, [], ◌∷◌}
use awesome_patterns.Channel.{Chan, try_send}
use awesome_patterns.Semaphore.{Reach, start, acquired, new, acquire}

abbrev taken : Chan (Unit {0})
taken = record { buffer = tt ∷ []; capacity = 1; closed = false }

one_taken : Reach 1 taken 1 0
unfolding new acquire try_send
one_taken = acquired (start refl) false refl
