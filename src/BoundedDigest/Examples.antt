-- ===== src/BoundedDigest/Examples.antt =====
-- A walk over a directory with the file 7, whose reading gives 3, with the sum of a file its content.
use mathlib.Core.Path.{subst}
use awesome_patterns.Base.{
  ℕ, zero, suc, ◌≡◌, refl, true, List, [], ◌∷◌, ◌++◌, Option, none, some, ◌==◌, if◌then◌else◌,
  replicate, ◌<◌,
}
use awesome_patterns.BoundedDigest.{
  Error, Visit, other, file, ended, gone, walking, offering, receiving, holding, returned, State,
  Event, silent, collected, Outcome, moves, blocked, panics, new, on_visit, on_take, on_walk_cancel,
  on_walk_end, on_finish, on_cancel, on_count, all_gone, on_close, on_main, on_result, digest,
  on_deliver, Action, visit, take, end_walk, finish, deliver, count_down, close_results,
  continue_main, step, Reach, start, later,
}
use awesome_patterns.BoundedDigest.Tally.{IsComplete}
use awesome_patterns.BoundedDigest.Completeness.{no_error-IsComplete}
use awesome_patterns.BoundedDigest.Blame.{IsGenuine, error-IsGenuine}
use awesome_patterns.BoundedDigest.Progress.{work_left}
use awesome_patterns.BoundedDigest.Ending.{Ends, call-Ends}

abbrev read_file : ℕ → ℕ × Error
read_file p = (3, none)

abbrev unreadable : ℕ → ℕ × Error
unreadable p = (0, some "permission denied")

abbrev md5_sum : ℕ → ℕ
md5_sum n = n

abbrev visits : List Visit
visits = other ∷ file 7 ∷ []

-- A run of some actions, where each of them can be made.
abbrev execute : Outcome ℕ → List Event → List Action → Option (State ℕ × List Event)
execute (moves s e) es [] = some (s, e ∷ es)
execute (moves s e) es (a ∷ acts) = execute (step read_file md5_sum s a) (e ∷ es) acts
execute _ es acts = none

abbrev ReachedBy : Option (State ℕ × List Event) → Type 0
ReachedBy (some (s, es)) = Reach read_file md5_sum visits s es
ReachedBy none = Unit

execute-Reach :
    (o : Outcome ℕ) (es : List Event) (acts : List Action) {s' : State ℕ} {es' : List Event}
    → ((s : State ℕ) (e : Event) → o ≡ moves s e → Reach read_file md5_sum visits s (e ∷ es))
    → execute o es acts ≡ some (s', es')
    → Reach read_file md5_sum visits s' es'
execute-Reach (moves s e) es [] r h = subst (λ o. ReachedBy o) h (r s e refl)
execute-Reach (moves s e) es (a ∷ acts) r h =
    execute-Reach (step read_file md5_sum s a) (e ∷ es) acts (λ s' e' f. later (r s e refl) a f) h
execute-Reach blocked es acts r h = cc
execute-Reach panics es acts r h = cc

abbrev all_leave : ℕ → List Action
all_leave zero = []
all_leave (suc n) = finish n ∷ count_down n ∷ all_leave n

abbrev whole_run : List Action
whole_run =
    visit ∷ take 4 ∷ deliver 4 ∷ visit ∷ end_walk ∷ end_walk ∷ all_leave 20
    ++ close_results ∷ continue_main ∷ continue_main ∷ []

abbrev result : State ℕ
result = record {
  walk = ended;
  errc = none;
  paths_closed = true;
  digesters = replicate 20 gone;
  c_closed = true;
  done_closed = true;
  main = returned none;
  sums = λ x. if 7 == x then some 3 else none;
}

abbrev silences : ℕ → List Event → List Event
silences zero es = es
silences (suc n) es = silent ∷ silences n es

result-Reach : Reach read_file md5_sum visits result (silences 46 (collected 7 ∷ silences 3 []))
unfolding step new on_visit on_take on_walk_cancel on_walk_end on_finish on_cancel on_count all_gone
    on_close on_main on_result digest on_deliver
result-Reach =
    execute-Reach (step read_file md5_sum (new visits) visit) [] whole_run
      (λ s e f. later (start refl) visit f) refl

no_error-IsComplete_example : IsComplete read_file md5_sum visits result.sums
no_error-IsComplete_example = no_error-IsComplete read_file md5_sum result-Reach refl

call-Ends_example :
    Ends read_file md5_sum visits []
    × ((a : Action) (s' : State ℕ) (e : Event)
        → step read_file md5_sum (new visits) a ≡ moves s' e
        → work_left s' < work_left (new {S = ℕ} visits))
call-Ends_example = call-Ends read_file md5_sum (start refl)

abbrev stopped : State ℕ
stopped = record (new visits) {
  walk = walking [];
  digesters = replicate 20 receiving;
  done_closed = true;
  main = returned (some "permission denied");
}

stopped-Reach : Reach unreadable md5_sum visits stopped (silences 4 [])
unfolding step new on_visit on_take on_result digest on_deliver
stopped-Reach =
    let start_of : Reach unreadable md5_sum visits (new visits) [] = start refl in
    let r1 : Reach unreadable md5_sum visits (record (new visits) { walk = walking (file 7 ∷ []) })
        (silences 1 []) =
      later start_of visit refl in
    let r2 : Reach unreadable md5_sum visits (record (new visits) { walk = offering 7 [] })
        (silences 2 []) =
      later r1 visit refl in
    let r3 : Reach unreadable md5_sum visits
        (record (new visits) { walk = walking []; digesters = holding 7 ∷ replicate 19 receiving })
        (silences 3 []) =
      later r2 (take 0) refl in
    later r3 (deliver 0) refl

error-IsGenuine_example : IsGenuine unreadable md5_sum visits "permission denied"
error-IsGenuine_example = error-IsGenuine unreadable md5_sum stopped-Reach refl
