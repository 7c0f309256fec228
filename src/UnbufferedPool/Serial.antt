-- ===== src/UnbufferedPool/Serial.antt =====
-- Calls of `Run` that do not overlap return the errors of their own tasks.
use mathlib.Core.Path.{subst}
use awesome_patterns.Base.{
  ℕ, zero, suc, ◌≤◌, ◌≡◌, refl, sym, ap, false, List, [], ◌∷◌, Option, none, some, arith, get_elem?,
  set, total, total-set, total-snoc, total-replicate, total-get_elem?, same,
}
use awesome_patterns.UnbufferedPool.{
  Error, WorkerPc, idle, working, reporting, gone, CallerPc, submitting, waiting, returned,
  ShutdownPc, not_called, work_closed, errs_closed, completed, Pool, new, is_errs_closed, moves,
  on_submit, on_perform, on_report, on_closed_receive, on_leave, on_shutdown, Action, call_run,
  submit, perform, report, closed_receive, leave, shut_down, step,
}
use awesome_patterns.UnbufferedPool.Pending.{pending, step-few}

-- The tasks of the calls that wait and of the workers.
abbrev pub waits_for : ℕ → CallerPc → ℕ
waits_for x (waiting t) = same x t
waits_for x _ = 0

abbrev pub works_on : ℕ → WorkerPc → ℕ
works_on x (working t) = same x t
works_on x (reporting t e) = same x t
works_on x _ = 0

-- The runs in which `Run` is called only when no call is pending.
pub data SerialRun (n : ℕ) : Pool → Type 0 where
  start : {p : Pool} → p ≡ new n → SerialRun n p
  later :
      {p p' : Pool}
      → SerialRun n p
      → (a : Action) → ((t : ℕ) → a ≡ call_run t → total pending p.callers ≡ 0)
      → step p a ≡ moves p'
      → SerialRun n p'

none_waits : (x : ℕ) (cs : List CallerPc) → total pending cs ≡ 0 → total (waits_for x) cs ≡ 0
none_waits x [] h = refl
none_waits x (submitting t ∷ cs) h = absurd (omega arith)
none_waits x (waiting t ∷ cs) h = absurd (omega arith)
none_waits x (returned t e ∷ cs) h = omega (arith, none_waits x cs (omega arith))

alone :
    (x : ℕ) (cs : List CallerPc) (i : ℕ) {t : ℕ}
    → total pending cs ≤ 1
    → get_elem? cs i ≡ some (waiting t)
    → total (waits_for x) cs ≡ same x t
alone x [] i h e = cc
alone x (c ∷ cs) zero h e = ground (arith, none_waits x cs (ground arith))
alone x (submitting t ∷ cs) (suc i) h e = absurd (omega (arith, total-get_elem? pending cs i e))
alone x (waiting t ∷ cs) (suc i) h e = absurd (omega (arith, total-get_elem? pending cs i e))
alone x (returned t f ∷ cs) (suc i) h e = omega (arith, alone x cs i (omega arith) e)

same-eq : (x y : ℕ) → 1 ≤ same x y → x ≡ y
same-eq x y h = ground arith

record Inv (p : Pool) : Type 0 where
  few : total pending p.callers ≤ 1
  tasks :
      is_errs_closed p.shutdown ≡ false
      → (x : ℕ) → total (waits_for x) p.callers ≡ total (works_on x) p.workers

-- The worker that reports has the task of the call that waits.
own_task :
    (p : Pool) (i j : ℕ) {t t' : ℕ} {e : Error}
    → Inv p
    → is_errs_closed p.shutdown ≡ false
    → get_elem? p.callers i ≡ some (waiting t')
    → get_elem? p.workers j ≡ some (reporting t e)
    → t ≡ t'
own_task p i j {t} {t'} v o f g = same-eq t t' (
    ground
      (arith, alone t p.callers i v.few f, v.tasks o t, total-get_elem? (works_on t) p.workers j g))

abbrev Tasks : ℕ → Pool → Type 0
Tasks x p =
    is_errs_closed p.shutdown ≡ false → total (waits_for x) p.callers ≡ total (works_on x) p.workers

module _ (p : Pool) (v : Inv p) (x : ℕ) where
  Tasks-now : Tasks x p
  Tasks-now o = v.tasks o x

  on_submit-Tasks :
      (i j : ℕ) (c : Option CallerPc) (w : Option WorkerPc) {p' : Pool}
      → get_elem? p.callers i ≡ c
      → get_elem? p.workers j ≡ w
      → on_submit p i j c w ≡ moves p'
      → Tasks x p'
  unfolding on_submit
  on_submit-Tasks i j (some (submitting t)) (some idle) f g h o = ground (
    arith,
    Tasks-now,
    total-set (waits_for x) p.callers i (waiting t) f,
    total-set (works_on x) p.workers j (working t) g,
  )
  on_submit-Tasks i j (some (submitting t)) (some (working _)) f g h o = ground arith
  on_submit-Tasks i j (some (submitting t)) (some (reporting _ _)) f g h o = ground arith
  on_submit-Tasks i j (some (submitting t)) (some gone) f g h o = ground arith
  on_submit-Tasks i j (some (submitting t)) none f g h o = ground arith
  on_submit-Tasks i j (some (waiting t)) w f g h o = cc
  on_submit-Tasks i j (some (returned t e)) w f g h o = cc
  on_submit-Tasks i j none w f g h o = cc

  on_perform-Tasks :
      (j : ℕ) (e : Error) (w : Option WorkerPc) {p' : Pool}
      → get_elem? p.workers j ≡ w
      → on_perform p j e w ≡ moves p'
      → Tasks x p'
  unfolding on_perform
  on_perform-Tasks j e (some (working t)) g h o =
      ground (arith, Tasks-now, total-set (works_on x) p.workers j (reporting t e) g)
  on_perform-Tasks j e (some idle) g h o = cc
  on_perform-Tasks j e (some (reporting _ _)) g h o = cc
  on_perform-Tasks j e (some gone) g h o = cc
  on_perform-Tasks j e none g h o = cc

  on_report-Tasks :
      (j i : ℕ) (w : Option WorkerPc) (c : Option CallerPc) {p' : Pool}
      → get_elem? p.workers j ≡ w
      → get_elem? p.callers i ≡ c
      → on_report p j i w c ≡ moves p'
      → Tasks x p'
  unfolding on_report
  on_report-Tasks j i (some (reporting t e)) (some (waiting t')) g f h o = ground (
    arith,
    Tasks-now,
    λ (q : is_errs_closed p.shutdown ≡ false). own_task p i j v q f g,
    total-set (waits_for x) p.callers i (returned t' e) f,
    total-set (works_on x) p.workers j idle g,
  )
  on_report-Tasks j i (some (reporting t e)) (some (submitting _)) g f h o = ground arith
  on_report-Tasks j i (some (reporting t e)) (some (returned _ _)) g f h o = ground arith
  on_report-Tasks j i (some (reporting t e)) none g f h o = ground arith
  on_report-Tasks j i (some idle) c g f h o = cc
  on_report-Tasks j i (some (working _)) c g f h o = cc
  on_report-Tasks j i (some gone) c g f h o = cc
  on_report-Tasks j i none c g f h o = cc

  on_closed_receive-Tasks :
      (i : ℕ) (c : Option CallerPc) {p' : Pool} → on_closed_receive p i c ≡ moves p' → Tasks x p'
  unfolding on_closed_receive
  on_closed_receive-Tasks i (some (waiting t)) h o = ground arith
  on_closed_receive-Tasks i (some (submitting t)) h o = cc
  on_closed_receive-Tasks i (some (returned t e)) h o = cc
  on_closed_receive-Tasks i none h o = cc

  on_leave-Tasks :
      (j : ℕ) (w : Option WorkerPc) {p' : Pool}
      → get_elem? p.workers j ≡ w
      → on_leave p j w ≡ moves p'
      → Tasks x p'
  unfolding on_leave
  on_leave-Tasks j (some idle) g h o =
      ground (arith, Tasks-now, total-set (works_on x) p.workers j gone g)
  on_leave-Tasks j (some (working _)) g h o = cc
  on_leave-Tasks j (some (reporting _ _)) g h o = cc
  on_leave-Tasks j (some gone) g h o = cc
  on_leave-Tasks j none g h o = cc

  on_shutdown-Tasks :
      (s : ShutdownPc) {p' : Pool} → p.shutdown ≡ s → on_shutdown p s ≡ moves p' → Tasks x p'
  unfolding on_shutdown is_errs_closed
  on_shutdown-Tasks not_called e h o = ground (arith, v.tasks (ap is_errs_closed e) x)
  on_shutdown-Tasks work_closed e h o = ground arith
  on_shutdown-Tasks errs_closed e h o = ground arith
  on_shutdown-Tasks completed e h o = cc

  step-Tasks : (a : Action) {p' : Pool} → step p a ≡ moves p' → Tasks x p'
  unfolding step
  step-Tasks (call_run t) h o =
      ground (arith, Tasks-now, total-snoc (waits_for x) p.callers (submitting t))
  step-Tasks (submit i j) h o =
      on_submit-Tasks i j (get_elem? p.callers i) (get_elem? p.workers j) refl refl h o
  step-Tasks (perform j e) h o = on_perform-Tasks j e (get_elem? p.workers j) refl h o
  step-Tasks (report j i) h o =
      on_report-Tasks j i (get_elem? p.workers j) (get_elem? p.callers i) refl refl h o
  step-Tasks (closed_receive i) h o = on_closed_receive-Tasks i (get_elem? p.callers i) h o
  step-Tasks (leave j) h o = on_leave-Tasks j (get_elem? p.workers j) refl h o
  step-Tasks shut_down h o = on_shutdown-Tasks p.shutdown refl h o

new-Inv : (n : ℕ) → Inv (new n)
unfolding new
new-Inv n = record {
  few = omega arith;
  tasks = λ o x. sym (total-replicate (works_on x) n idle refl);
}

SerialRun-Inv : {n : ℕ} {p : Pool} → SerialRun n p → Inv p
SerialRun-Inv {n} (start e) = subst Inv (sym e) (new-Inv n)
SerialRun-Inv (later {p = p} r a once h) =
    let v = SerialRun-Inv r in
    record { few = step-few p v.few a once h; tasks = λ o x. step-Tasks p v x a h o }

-- While no two calls of `Run` overlap and the channel of errors is open, the worker that reports an
-- error to the call that waits performed the task of that call, so that the call returns the error
-- of its own task.
serial_call_own_error :
    {n : ℕ} {p : Pool}
    → SerialRun n p
    → is_errs_closed p.shutdown ≡ false
    → (i j : ℕ) {t t' : ℕ} {e : Error} → get_elem? p.callers i ≡ some (waiting t')
    → get_elem? p.workers j ≡ some (reporting t e)
    → (t ≡ t')
      × (step p (report j i)
          ≡ moves (record p {
            callers = set p.callers i (returned t e);
            workers = set p.workers j idle;
          }))
unfolding step on_report
serial_call_own_error {p = p} r o i j f g =
    let own = own_task p i j (SerialRun-Inv r) o f g in (own, ground (arith, f, g, own, o))
