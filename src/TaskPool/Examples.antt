-- ===== src/TaskPool/Examples.antt =====
-- Two tasks and one worker.
use awesome_patterns.Base.{
  ◌≡◌, refl, true, false, List, [], ◌∷◌, none, some, arith, if◌then◌else◌, ◌==◌, count,
}
use awesome_patterns.TaskPool.{
  Error, idle, returned, running, sending, Pool, new_run, Event, silent, performed, on_hand,
  on_finish, on_count, on_close, on_wait, hand, finish, count_down, close_tasks, end_wait, step,
  Reach, start, later,
}
use awesome_patterns.TaskPool.Accounting.{performances, last_error, run_performs_all}
use awesome_patterns.TaskPool.Progress.{Returns, run_completes}

abbrev working : Pool
working = record {
  workers = running 4 ∷ [];
  run = sending [];
  tasks_closed = false;
  wait_group = 1;
  errs = λ t. none;
}

working_reach : Reach (4 ∷ []) 1 working (silent ∷ [])
unfolding new_run step on_hand
working_reach =
    let r0 : Reach (4 ∷ []) 1 (new_run (4 ∷ []) 1) [] = start refl in later r0 (hand 0) refl

abbrev failed : Error
failed = some "failed"

abbrev finished : Pool
finished = record {
  workers = idle ∷ [];
  run = returned;
  tasks_closed = true;
  wait_group = 0;
  errs = λ x. if 4 == x then failed else none;
}

abbrev events : List Event
events = silent ∷ silent ∷ silent ∷ performed 4 failed ∷ silent ∷ []

finished_reach : Reach (4 ∷ []) 1 finished events
unfolding step on_finish on_count on_close on_wait
finished_reach =
    let r2 = later working_reach (finish 0 failed) refl in
    let r3 = later r2 (count_down 0) refl in
    let r4 = later r3 close_tasks refl in later r4 end_wait refl

run_performs_all_example :
    (performances 4 events ≡ count 4 (4 ∷ [])) × (finished.errs 4 ≡ last_error 4 events)
run_performs_all_example = run_performs_all finished_reach refl 4

run_completes_example : Returns (λ t. failed) (4 ∷ []) 1 (silent ∷ [])
run_completes_example = (run_completes (λ t. failed) (omega arith) working_reach).0
