-- ===== src/UnbufferedPool/Exchange.antt =====
-- Calls of `Run` that overlap can return each other's errors.
use awesome_patterns.Base.{ℕ, suc, ◌≡◌, refl, [], ◌∷◌, some, get_elem?, replicate}
use awesome_patterns.UnbufferedPool.{
  Error, idle, working, returned, not_called, Pool, new, is_work_closed, is_errs_closed, on_submit,
  on_perform, on_report, Action, call_run, submit, perform, report, closed_receive, leave,
  shut_down, moves, step,
}

-- A task that a worker performs returns what `fs` says of it.
abbrev pub Obeys : (ℕ → Error) → Pool → Action → Type 0
Obeys fs p (perform j e) = (t : ℕ) → get_elem? p.workers j ≡ some (working t) → e ≡ fs t
Obeys fs p (call_run t) = Unit
Obeys fs p (submit i j) = Unit
Obeys fs p (report j i) = Unit
Obeys fs p (closed_receive i) = Unit
Obeys fs p (leave j) = Unit
Obeys fs p shut_down = Unit

-- The states of a pool where each task returns what `fs` says.
pub data TaskRun (fs : ℕ → Error) (n : ℕ) : Pool → Type 0 where
  start : {p : Pool} → p ≡ new n → TaskRun fs n p
  later :
      {p p' : Pool}
      → TaskRun fs n p
      → (a : Action) → Obeys fs p a
      → step p a ≡ moves p'
      → TaskRun fs n p'

-- With two workers at least, for any two tasks and whatever the tasks return, two calls of `Run` can
-- each return what the task of the other one returns.
pub errors_exchanged :
    (fs : ℕ → Error) (n t t' : ℕ)
    → TaskRun fs (suc (suc n)) (record {
      workers = replicate (suc (suc n)) idle;
      callers = returned t (fs t') ∷ returned t' (fs t) ∷ [];
      shutdown = not_called;
    })
unfolding new step on_submit on_perform on_report is_work_closed is_errs_closed
errors_exchanged fs n t t' =
    let r0 : TaskRun fs (suc (suc n)) (new (suc (suc n))) = start refl in
    let r1 = later r0 (call_run t) tt refl in
    let r2 = later r1 (call_run t') tt refl in
    let r3 = later r2 (submit 0 0) tt refl in
    let r4 = later r3 (submit 1 1) tt refl in
    let r5 = later r4 (perform 0 (fs t)) (λ x e. cc) refl in
    let r6 = later r5 (perform 1 (fs t')) (λ x e. cc) refl in
    let r7 = later r6 (report 1 0) tt refl in later r7 (report 0 1) tt refl
