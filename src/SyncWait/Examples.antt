-- ===== src/SyncWait/Examples.antt =====
-- The eight goroutines of the function, of which two report an error; and four, of which one does.
use awesome_patterns.Base.{
  ℕ, ◌≡◌, ◌≢◌, ◌≤◌, refl, false, List, [], ◌∷◌, Option, none, some, set, total,
}
use awesome_patterns.Channel.{make, try_send, try_receive}
use awesome_patterns.SyncWait.{
  RoutinePc, reported, MainPc, succeeded, failed, State, Outcome, blocked, panics, moves, launch,
  new, on_report, on_done, all_gone, on_wait, on_finished, on_error, Action, report, finish,
  await_all, select_finished, select_error, step, Reach, start, later,
}
use awesome_patterns.SyncWait.Reports.{to_report, errors_reported}

abbrev errored : ℕ → ℕ
errored i = i

abbrev eight : List (RoutinePc ℕ)
unfolding launch
eight = launch errored 8 0

abbrev first_failed : State ℕ
first_failed = record {
  routines = set eight 5 (reported 6);
  err_channel = make 1;
  finished_closed = false;
  main = failed 6;
}

first_failed-Reach : Reach eight first_failed
unfolding new step on_report on_error try_send try_receive launch
first_failed-Reach = later (later (start refl) (report 5) refl) select_error refl

errors_reported_example :
    (2 ≤ total (to_report (λ e. 1)) eight → first_failed.main ≢ succeeded)
    × ((e : ℕ) → first_failed.main ≡ failed e → (w : ℕ → ℕ) → w e ≤ total (to_report w) eight)
errors_reported_example = errors_reported eight first_failed-Reach

abbrev result_of : Outcome ℕ → List Action → Option (MainPc ℕ × List ℕ)
result_of (moves s) [] = some (s.main, s.err_channel.buffer)
result_of (moves s) (a ∷ acts) = result_of (step s a) acts
result_of blocked acts = none
result_of panics acts = none

-- A single error may be left in the channel while success is printed.
one_error_lost :
    result_of
      (moves (new (launch errored 4 0)))
      (finish 0 ∷ report 1 ∷ finish 1 ∷ finish 2 ∷ finish 3 ∷ await_all ∷ select_finished ∷ [])
    ≡ some (succeeded, 2 ∷ [])
unfolding new launch step on_report on_done on_wait all_gone on_finished try_send
one_error_lost = refl
