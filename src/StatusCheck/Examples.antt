-- ===== src/StatusCheck/Examples.antt =====
-- Two URLs, of which the first gives an error while the second waits to send its response.
use awesome_patterns.Base.{ℕ, ◌≡◌, refl, true, false, List, [], ◌∷◌, some, get_elem?, total, Steps}
use awesome_patterns.Gather.{Evaluated, result, failed}
use awesome_patterns.StatusCheck.{
  sending, gone, over, left, State, begin, deliver, continue_main, new, is_done, on_begin,
  on_deliver, on_main, step, Reach, start, later,
}
use awesome_patterns.StatusCheck.Stranding.{Next, IsStranded, received_or_waiting}

abbrev answers : List (Evaluated ℕ ℕ)
answers = failed 404 ∷ result 5 ∷ []

abbrev after_error : State ℕ ℕ
after_error = record {
  fetches = gone ∷ sending (result 5) ∷ [];
  results_closed = false;
  signalled = true;
  main = left 404;
  responses = [];
}

after_error-Reach : Reach answers after_error
unfolding new step on_begin is_done on_deliver on_main
after_error-Reach =
    later (later (later (later (start refl) (begin 0) refl) (begin 1) refl) (deliver 0) refl)
      continue_main refl

received_or_waiting_example :
    (after_error.main ≡ over
      → (w : Evaluated ℕ ℕ → ℕ) → total (λ r. w (result r)) after_error.responses ≡ total w answers)
    × ((i y : ℕ) (x : Evaluated ℕ ℕ) (t : State ℕ ℕ)
        → IsStranded i y x after_error
        → Steps Next after_error t
        → get_elem? t.fetches i ≡ some (sending x))
received_or_waiting_example = received_or_waiting after_error-Reach
