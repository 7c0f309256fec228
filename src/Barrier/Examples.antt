-- ===== src/Barrier/Examples.antt =====
-- A barrier for two goroutines; and one for a single goroutine that two call.
use awesome_patterns.Base.{ℕ, ◌≡◌, ◌≢◌, refl, true, false, List, [], ◌∷◌, some, get_elem?}
use awesome_patterns.Channel.{make, try_send, try_receive}
use awesome_patterns.Barrier.{
  token, outside, releasing, passed, State, Outcome, panics, moves, fill, new_chan_barrier, entered,
  on_enter, on_pass, on_open, Action, enter, pass, open_sign, step, Reach, start, later,
}
use awesome_patterns.Barrier.Safety.{await-waits_for_all}

abbrev execute : Outcome → List Action → Outcome
execute (moves s) (a ∷ acts) = execute (step s a) acts
execute o acts = o

abbrev fresh : State
fresh = record {
  callers = outside ∷ outside ∷ [];
  wait_ch = record { buffer = token ∷ []; capacity = 1; closed = false };
  sign_closed = false;
}

abbrev one_passed : State
one_passed = record {
  callers = passed ∷ releasing ∷ [];
  wait_ch = record { buffer = []; capacity = 1; closed = false };
  sign_closed = true;
}

fresh-Reach : Reach 2 fresh
unfolding new_chan_barrier fill try_send
fresh-Reach = start refl refl refl

one_passed-Reach : Reach 2 one_passed
unfolding step on_enter entered on_open on_pass try_receive
one_passed-Reach =
    later (later (later (later fresh-Reach (enter 0) refl) (enter 1) refl) (open_sign 1) refl)
      (pass 0) refl

await-waits_for_all_example :
    ((i j : ℕ)
      → get_elem? one_passed.callers i ≡ some passed
      → get_elem? one_passed.callers j ≢ some outside)
    × ((a : Action) → step one_passed a ≢ panics)
await-waits_for_all_example = await-waits_for_all one_passed-Reach

-- With one caller more than the barrier is made for, two may find no value and close the sign twice.
one_more_panics :
    execute
      (moves (record { callers = outside ∷ outside ∷ []; wait_ch = make 0; sign_closed = false }))
      (enter 0 ∷ enter 1 ∷ open_sign 0 ∷ open_sign 1 ∷ [])
    ≡ panics
unfolding step on_enter entered on_open try_receive
one_more_panics = refl
