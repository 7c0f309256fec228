-- ===== src/UnbufferedPool/Pending.antt =====
-- The calls of `Run` that have not returned.
use awesome_patterns.Base.{
  ℕ, ◌≤◌, ◌≡◌, refl, Option, none, some, arith, get_elem?, total, total-set, total-snoc,
}
use awesome_patterns.UnbufferedPool.{
  Error, WorkerPc, idle, working, reporting, gone, CallerPc, submitting, waiting, returned,
  ShutdownPc, not_called, work_closed, errs_closed, completed, Pool, moves, on_submit, on_perform,
  on_report, on_closed_receive, on_leave, on_shutdown, Action, call_run, submit, perform, report,
  closed_receive, leave, shut_down, step,
}

abbrev pub pending : CallerPc → ℕ
pending (returned t e) = 0
pending _ = 1

-- At most one stays at most one, if a new call is made only where there is none.
module _ (p : Pool) (v : total pending p.callers ≤ 1) where
  on_submit-few :
      (i j : ℕ) (c : Option CallerPc) (w : Option WorkerPc) {p' : Pool}
      → get_elem? p.callers i ≡ c
      → on_submit p i j c w ≡ moves p'
      → total pending p'.callers ≤ 1
  unfolding on_submit
  on_submit-few i j (some (submitting t)) (some idle) f h =
      ground (arith, total-set pending p.callers i (waiting t) f)
  on_submit-few i j (some (submitting t)) (some (working _)) f h = ground arith
  on_submit-few i j (some (submitting t)) (some (reporting _ _)) f h = ground arith
  on_submit-few i j (some (submitting t)) (some gone) f h = ground arith
  on_submit-few i j (some (submitting t)) none f h = ground arith
  on_submit-few i j (some (waiting t)) w f h = cc
  on_submit-few i j (some (returned t e)) w f h = cc
  on_submit-few i j none w f h = cc

  on_perform-few :
      (j : ℕ) (e : Error) (w : Option WorkerPc) {p' : Pool}
      → on_perform p j e w ≡ moves p'
      → total pending p'.callers ≤ 1
  unfolding on_perform
  on_perform-few j e (some (working t)) h = ground arith
  on_perform-few j e (some idle) h = cc
  on_perform-few j e (some (reporting _ _)) h = cc
  on_perform-few j e (some gone) h = cc
  on_perform-few j e none h = cc

  on_report-few :
      (j i : ℕ) (w : Option WorkerPc) (c : Option CallerPc) {p' : Pool}
      → get_elem? p.callers i ≡ c
      → on_report p j i w c ≡ moves p'
      → total pending p'.callers ≤ 1
  unfolding on_report
  on_report-few j i (some (reporting t e)) (some (waiting t')) f h =
      ground (arith, total-set pending p.callers i (returned t' e) f)
  on_report-few j i (some (reporting t e)) (some (submitting _)) f h = ground arith
  on_report-few j i (some (reporting t e)) (some (returned _ _)) f h = ground arith
  on_report-few j i (some (reporting t e)) none f h = ground arith
  on_report-few j i (some idle) c f h = cc
  on_report-few j i (some (working _)) c f h = cc
  on_report-few j i (some gone) c f h = cc
  on_report-few j i none c f h = cc

  on_closed_receive-few :
      (i : ℕ) (c : Option CallerPc) {p' : Pool}
      → get_elem? p.callers i ≡ c
      → on_closed_receive p i c ≡ moves p'
      → total pending p'.callers ≤ 1
  unfolding on_closed_receive
  on_closed_receive-few i (some (waiting t)) f h =
      ground (arith, total-set pending p.callers i (returned t none) f)
  on_closed_receive-few i (some (submitting t)) f h = cc
  on_closed_receive-few i (some (returned t e)) f h = cc
  on_closed_receive-few i none f h = cc

  on_leave-few :
      (j : ℕ) (w : Option WorkerPc) {p' : Pool}
      → on_leave p j w ≡ moves p'
      → total pending p'.callers ≤ 1
  unfolding on_leave
  on_leave-few j (some idle) h = ground arith
  on_leave-few j (some (working _)) h = cc
  on_leave-few j (some (reporting _ _)) h = cc
  on_leave-few j (some gone) h = cc
  on_leave-few j none h = cc

  on_shutdown-few :
      (s : ShutdownPc) {p' : Pool} → on_shutdown p s ≡ moves p' → total pending p'.callers ≤ 1
  unfolding on_shutdown
  on_shutdown-few not_called h = ground arith
  on_shutdown-few work_closed h = ground arith
  on_shutdown-few errs_closed h = ground arith
  on_shutdown-few completed h = cc

  pub step-few :
      (a : Action) {p' : Pool}
      → ((t : ℕ) → a ≡ call_run t → total pending p.callers ≡ 0)
      → step p a ≡ moves p'
      → total pending p'.callers ≤ 1
  unfolding step
  step-few (call_run t) once h =
      ground (arith, once t refl, total-snoc pending p.callers (submitting t))
  step-few (submit i j) once h =
      on_submit-few i j (get_elem? p.callers i) (get_elem? p.workers j) refl h
  step-few (perform j e) once h = on_perform-few j e (get_elem? p.workers j) h
  step-few (report j i) once h =
      on_report-few j i (get_elem? p.workers j) (get_elem? p.callers i) refl h
  step-few (closed_receive i) once h = on_closed_receive-few i (get_elem? p.callers i) refl h
  step-few (leave j) once h = on_leave-few j (get_elem? p.workers j) h
  step-few shut_down once h = on_shutdown-few p.shutdown h
