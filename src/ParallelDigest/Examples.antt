-- ===== src/ParallelDigest/Examples.antt =====
-- A walk over a directory with the file 7, whose reading gives 3, with the sum of a file its content.
use mathlib.Core.Path.{subst}
use awesome_patterns.Base.{
  ℕ, zero, suc, ◌≡◌, ◌<◌, refl, true, List, [], ◌∷◌, Option, none, some, ◌==◌, if◌then◌else◌, Ends,
}
use awesome_patterns.BoundedDigest.{Error, Visit, other, file}
use awesome_patterns.ParallelDigest.{
  ended, gone, closed, returned, State, Event, silent, collected, Outcome, moves, blocked, panics,
  is_closed, all_gone, new, on_visit, on_walk_end, on_cancel, on_count, on_close, on_main,
  on_result, sum_file, on_deliver, Action, visit, end_walk, deliver, count_down, close_results,
  continue_main, step, Reach, start, later,
}
use awesome_patterns.BoundedDigest.Tally.{IsComplete}
use awesome_patterns.ParallelDigest.Completeness.{map-IsComplete}
use awesome_patterns.ParallelDigest.Progress.{work_left}
use awesome_patterns.ParallelDigest.Ending.{IsOver, Next, sums-Ends}

abbrev read_file : ℕ → ℕ × Error
read_file p = (3, none)

abbrev md5_sum : ℕ → ℕ
md5_sum n = n

abbrev visits : List Visit
visits = other ∷ file 7 ∷ []

-- A run of some actions, where each of them can be made.
abbrev execute : Outcome ℕ → List Event → List Action → Option (State ℕ × List Event)
execute (moves s e) es [] = some (s, e ∷ es)
execute (moves s e) es (a ∷ acts) = execute (step read_file md5_sum s a) (e ∷ es) acts
execute _ es acts = none

abbrev Reached : Option (State ℕ × List Event) → Type 0
Reached (some (s, es)) = Reach read_file md5_sum visits s es
Reached none = Unit

execute-Reach :
    (o : Outcome ℕ) (es : List Event) (acts : List Action) {s' : State ℕ} {es' : List Event}
    → ((s : State ℕ) (e : Event) → o ≡ moves s e → Reach read_file md5_sum visits s (e ∷ es))
    → execute o es acts ≡ some (s', es')
    → Reach read_file md5_sum visits s' es'
execute-Reach (moves s e) es [] r h = subst Reached h (r s e refl)
execute-Reach (moves s e) es (a ∷ acts) r h =
    execute-Reach (step read_file md5_sum s a) (e ∷ es) acts (λ s' e' f. later (r s e refl) a f) h
execute-Reach blocked es acts r h = cc
execute-Reach panics es acts r h = cc

abbrev whole_run : List Action
whole_run =
    visit
    ∷ visit
    ∷ visit
    ∷ deliver 0
    ∷ count_down 0
    ∷ end_walk
    ∷ end_walk
    ∷ close_results
    ∷ continue_main
    ∷ continue_main
    ∷ []

abbrev result : State ℕ
result = record {
  walk = ended;
  errc = none;
  summers = gone ∷ [];
  closer = closed;
  done_closed = true;
  main = returned none;
  sums = λ x. if 7 == x then some 3 else none;
}

abbrev silences : ℕ → List Event → List Event
silences zero es = es
silences (suc n) es = silent ∷ silences n es

result-Reach : Reach read_file md5_sum visits result (silences 6 (collected 7 ∷ silences 4 []))
unfolding step new on_visit on_walk_end on_cancel on_count all_gone on_close on_main on_result
    sum_file on_deliver is_closed
result-Reach =
    execute-Reach (step read_file md5_sum (new visits) visit) [] whole_run
      (λ s e f. later (start refl) visit f) refl

map-IsComplete_example : IsComplete read_file md5_sum visits result.sums
map-IsComplete_example = map-IsComplete read_file md5_sum visits result-Reach refl

sums-Ends_example :
    Ends (Next read_file md5_sum) IsOver (new {S = ℕ} visits)
    × ((t : State ℕ)
        → Next read_file md5_sum (new visits) t
        → work_left t < work_left (new {S = ℕ} visits))
sums-Ends_example =
    let r : Reach read_file md5_sum visits (new visits) [] = start refl in
    sums-Ends read_file md5_sum r
