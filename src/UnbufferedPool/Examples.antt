-- ===== src/UnbufferedPool/Examples.antt =====
-- Calls of `Run` on a pool of one worker, and of two.
use awesome_patterns.Base.{ℕ, ◌==◌, if◌then◌else◌, refl, [], ◌∷◌, none, some, replicate}
use awesome_patterns.UnbufferedPool.{
  Error, idle, reporting, waiting, returned, not_called, Pool, new, is_work_closed, on_submit,
  on_perform, call_run, submit, perform, step, Run, Reach,
}
use awesome_patterns.UnbufferedPool.Exchange.{TaskRun, errors_exchanged}
use awesome_patterns.UnbufferedPool.Serial.{SerialRun}

abbrev invalid : Error
invalid = some "Invalid name"

abbrev performed : Pool
performed = record {
  workers = reporting 7 invalid ∷ [];
  callers = waiting 7 ∷ [];
  shutdown = not_called;
}

performed_reach : Reach 1 performed (perform 0 invalid ∷ submit 0 0 ∷ call_run 7 ∷ [])
unfolding new step on_submit on_perform is_work_closed
performed_reach =
    let r0 : Reach 1 (new 1) [] = Run.start refl in
    let r1 = Run.later r0 (call_run 7) refl in
    let r2 = Run.later r1 (submit 0 0) refl in Run.later r2 (perform 0 invalid) refl

performed_serial : SerialRun 1 performed
unfolding new step on_submit on_perform is_work_closed
performed_serial =
    let r0 : SerialRun 1 (new 1) = SerialRun.start refl in
    let r1 = SerialRun.later r0 (call_run 7) (λ t e. refl) refl in
    let r2 = SerialRun.later r1 (submit 0 0) (λ t e. cc) refl in
    SerialRun.later r2 (perform 0 invalid) (λ t e. cc) refl

-- The task 1 returns nil, and the task 2 an error.
abbrev returns : ℕ → Error
returns t = if t == 2 then invalid else none

errors_exchanged_example : TaskRun returns 2 (record {
  workers = replicate 2 idle;
  callers = returned 1 invalid ∷ returned 2 none ∷ [];
  shutdown = not_called;
})
errors_exchanged_example = errors_exchanged returns 0 1 2
