-- ===== src/UnbufferedPool/Balance.antt =====
-- The calls that wait and the workers that have a task.
use awesome_patterns.Base.{
  ℕ, ◌≡◌, refl, sym, ap, false, List, Option, none, some, arith, get_elem?, total, total-set,
  total-snoc, total-replicate,
}
use awesome_patterns.UnbufferedPool.{
  Error, WorkerPc, idle, working, reporting, gone, CallerPc, submitting, waiting, returned,
  ShutdownPc, not_called, work_closed, errs_closed, completed, Pool, new, is_errs_closed, moves,
  on_submit, on_perform, on_report, on_closed_receive, on_leave, on_shutdown, Action, call_run,
  submit, perform, report, closed_receive, leave, shut_down, step, Reach, start, later,
}

abbrev pub busy : WorkerPc → ℕ
busy (working t) = 1
busy (reporting t e) = 1
busy _ = 0

abbrev pub waits : CallerPc → ℕ
waits (waiting t) = 1
waits _ = 0

-- Until the channel of errors is closed.
abbrev pub Balanced : Pool → Type 0
Balanced p = is_errs_closed p.shutdown ≡ false → total waits p.callers ≡ total busy p.workers

module _ (p : Pool) (v : Balanced p) where
  on_submit-Balanced :
      (i j : ℕ) (c : Option CallerPc) (w : Option WorkerPc) {p' : Pool}
      → get_elem? p.callers i ≡ c
      → get_elem? p.workers j ≡ w
      → on_submit p i j c w ≡ moves p'
      → Balanced p'
  unfolding on_submit
  on_submit-Balanced i j (some (submitting t)) (some idle) f g h o = ground (
    arith,
    v,
    total-set waits p.callers i (waiting t) f,
    total-set busy p.workers j (working t) g,
  )
  on_submit-Balanced i j (some (submitting t)) (some (working _)) f g h o = ground arith
  on_submit-Balanced i j (some (submitting t)) (some (reporting _ _)) f g h o = ground arith
  on_submit-Balanced i j (some (submitting t)) (some gone) f g h o = ground arith
  on_submit-Balanced i j (some (submitting t)) none f g h o = ground arith
  on_submit-Balanced i j (some (waiting t)) w f g h o = cc
  on_submit-Balanced i j (some (returned t e)) w f g h o = cc
  on_submit-Balanced i j none w f g h o = cc

  on_perform-Balanced :
      (j : ℕ) (e : Error) (w : Option WorkerPc) {p' : Pool}
      → get_elem? p.workers j ≡ w
      → on_perform p j e w ≡ moves p'
      → Balanced p'
  unfolding on_perform
  on_perform-Balanced j e (some (working t)) g h o =
      ground (arith, v, total-set busy p.workers j (reporting t e) g)
  on_perform-Balanced j e (some idle) g h o = cc
  on_perform-Balanced j e (some (reporting _ _)) g h o = cc
  on_perform-Balanced j e (some gone) g h o = cc
  on_perform-Balanced j e none g h o = cc

  on_report-Balanced :
      (j i : ℕ) (w : Option WorkerPc) (c : Option CallerPc) {p' : Pool}
      → get_elem? p.workers j ≡ w
      → get_elem? p.callers i ≡ c
      → on_report p j i w c ≡ moves p'
      → Balanced p'
  unfolding on_report
  on_report-Balanced j i (some (reporting t e)) (some (waiting t')) g f h o =
      ground
        (arith, v, total-set waits p.callers i (returned t' e) f, total-set busy p.workers j idle g)
  on_report-Balanced j i (some (reporting t e)) (some (submitting _)) g f h o = ground arith
  on_report-Balanced j i (some (reporting t e)) (some (returned _ _)) g f h o = ground arith
  on_report-Balanced j i (some (reporting t e)) none g f h o = ground arith
  on_report-Balanced j i (some idle) c g f h o = cc
  on_report-Balanced j i (some (working _)) c g f h o = cc
  on_report-Balanced j i (some gone) c g f h o = cc
  on_report-Balanced j i none c g f h o = cc

  on_closed_receive-Balanced :
      (i : ℕ) (c : Option CallerPc) {p' : Pool} → on_closed_receive p i c ≡ moves p' → Balanced p'
  unfolding on_closed_receive
  on_closed_receive-Balanced i (some (waiting t)) h o = ground arith
  on_closed_receive-Balanced i (some (submitting t)) h o = cc
  on_closed_receive-Balanced i (some (returned t e)) h o = cc
  on_closed_receive-Balanced i none h o = cc

  on_leave-Balanced :
      (j : ℕ) (w : Option WorkerPc) {p' : Pool}
      → get_elem? p.workers j ≡ w
      → on_leave p j w ≡ moves p'
      → Balanced p'
  unfolding on_leave
  on_leave-Balanced j (some idle) g h o = ground (arith, v, total-set busy p.workers j gone g)
  on_leave-Balanced j (some (working _)) g h o = cc
  on_leave-Balanced j (some (reporting _ _)) g h o = cc
  on_leave-Balanced j (some gone) g h o = cc
  on_leave-Balanced j none g h o = cc

  on_shutdown-Balanced :
      (s : ShutdownPc) {p' : Pool} → p.shutdown ≡ s → on_shutdown p s ≡ moves p' → Balanced p'
  unfolding on_shutdown is_errs_closed
  on_shutdown-Balanced not_called e h o = ground (arith, v (ap is_errs_closed e))
  on_shutdown-Balanced work_closed e h o = ground arith
  on_shutdown-Balanced errs_closed e h o = ground arith
  on_shutdown-Balanced completed e h o = cc

  pub step-Balanced : (a : Action) {p' : Pool} → step p a ≡ moves p' → Balanced p'
  unfolding step
  step-Balanced (call_run t) h o = ground (arith, v, total-snoc waits p.callers (submitting t))
  step-Balanced (submit i j) h o =
      on_submit-Balanced i j (get_elem? p.callers i) (get_elem? p.workers j) refl refl h o
  step-Balanced (perform j e) h o = on_perform-Balanced j e (get_elem? p.workers j) refl h o
  step-Balanced (report j i) h o =
      on_report-Balanced j i (get_elem? p.workers j) (get_elem? p.callers i) refl refl h o
  step-Balanced (closed_receive i) h o = on_closed_receive-Balanced i (get_elem? p.callers i) h o
  step-Balanced (leave j) h o = on_leave-Balanced j (get_elem? p.workers j) refl h o
  step-Balanced shut_down h o = on_shutdown-Balanced p.shutdown refl h o

-- Until `Shutdown` closes the channel of errors, just as many calls of `Run` wait for an error as
-- workers perform a task or wait to report one.
pub calls_balanced :
    (n : ℕ) {p : Pool} {acts : List Action}
    → Reach n p acts
    → is_errs_closed p.shutdown ≡ false
    → total waits p.callers ≡ total busy p.workers
unfolding new
calls_balanced n (start e) o = rw e (sym (total-replicate busy n idle refl))
calls_balanced n (later {p = p} r a h) o = step-Balanced p (calls_balanced n r) a h o
