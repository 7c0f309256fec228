-- ===== src/Requests/Examples.antt =====
-- Two endpoints: the first answers with an error, the second has still to answer.
use awesome_patterns.Base.{ℕ, ◌≡◌, ◌≤◌, refl, true, List, [], ◌∷◌, none, some, get_elem?, total}
use awesome_patterns.Channel.{try_send, try_receive}
use awesome_patterns.Gather.{Evaluated, result, failed}
use awesome_patterns.Requests.{
  asking, answered, returned, State, send, receive, new, on_send, collected, on_receive, step,
  Reach, start, later,
}
use awesome_patterns.Requests.Answers.{Sends, barrier_answers}

abbrev answers : List (Evaluated ℕ ℕ)
answers = failed 404 ∷ result 5 ∷ []

abbrev after_error : State ℕ ℕ
after_error = record {
  requests = answered ∷ asking (result 5) ∷ [];
  in_ch = record { buffer = []; capacity = 2; closed = true };
  main = returned (some 404);
  responses = [];
}

after_error-Reach : Reach answers after_error
unfolding new step on_send on_receive collected try_send try_receive
after_error-Reach = later (later (start refl) (send 0) refl) receive refl

barrier_answers_example :
    (after_error.main ≡ returned none
      → (w : Evaluated ℕ ℕ → ℕ) → total (λ r. w (result r)) after_error.responses ≡ total w answers)
    × ((e : ℕ)
        → after_error.main ≡ returned (some e)
        → (w : Evaluated ℕ ℕ → ℕ) → w (failed e) ≤ total w answers)
    × ((i : ℕ) (x : Evaluated ℕ ℕ)
        → get_elem? after_error.requests i ≡ some (asking x)
        → Sends after_error i after_error.main)
barrier_answers_example = barrier_answers after_error-Reach
