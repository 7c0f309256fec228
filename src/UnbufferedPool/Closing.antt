-- ===== src/UnbufferedPool/Closing.antt =====
-- `Shutdown` once the calls of `Run` have returned.
use mathlib.Core.Path.{subst}
use awesome_patterns.Base.{
  ℕ, ◌≤◌, ◌≡◌, ◌≢◌, refl, sym, false, List, [], ◌∷◌, Option, none, some, arith, get_elem?, total,
  total-set, total-get_elem?,
}
use awesome_patterns.UnbufferedPool.{
  Error, WorkerPc, idle, working, reporting, gone, CallerPc, submitting, waiting, returned,
  ShutdownPc, not_called, work_closed, errs_closed, completed, Pool, blocked, is_errs_closed,
  panics, moves, on_submit, on_perform, on_report, on_closed_receive, on_leave, on_shutdown, Action,
  call_run, submit, perform, report, closed_receive, leave, shut_down, step, Run, Reach, start,
  later,
}
use awesome_patterns.UnbufferedPool.Pending.{pending}
use awesome_patterns.UnbufferedPool.Balance.{busy, waits, calls_balanced}

-- No call is pending and no worker has a task.
abbrev IsQuiet : Pool → Type 0
IsQuiet p = (total pending p.callers ≡ 0) × (total busy p.workers ≡ 0)

abbrev pub NoCall : Action → Type 0
NoCall (call_run t) = ⊥
NoCall _ = Unit

abbrev pub NoCalls : List Action → Type 0
NoCalls [] = Unit
NoCalls (a ∷ acts) = NoCall a × NoCalls acts

module _ (p : Pool) (v : IsQuiet p) where
  on_submit-blocked :
      (i j : ℕ) (c : Option CallerPc) (w : Option WorkerPc)
      → get_elem? p.callers i ≡ c
      → on_submit p i j c w ≡ blocked
  unfolding on_submit
  on_submit-blocked i j (some (submitting t)) w f =
      absurd (omega (arith, v.0, total-get_elem? pending p.callers i f))
  on_submit-blocked i j (some (waiting t)) w f = refl
  on_submit-blocked i j (some (returned t e)) w f = refl
  on_submit-blocked i j none w f = refl

  on_perform-blocked :
      (j : ℕ) (e : Error) (w : Option WorkerPc)
      → get_elem? p.workers j ≡ w
      → on_perform p j e w ≡ blocked
  unfolding on_perform
  on_perform-blocked j e (some (working t)) g =
      absurd (omega (arith, v.1, total-get_elem? busy p.workers j g))
  on_perform-blocked j e (some idle) g = refl
  on_perform-blocked j e (some (reporting _ _)) g = refl
  on_perform-blocked j e (some gone) g = refl
  on_perform-blocked j e none g = refl

  on_report-blocked :
      (j i : ℕ) (w : Option WorkerPc) (c : Option CallerPc)
      → get_elem? p.workers j ≡ w
      → on_report p j i w c ≡ blocked
  unfolding on_report
  on_report-blocked j i (some (reporting t e)) c g =
      absurd (omega (arith, v.1, total-get_elem? busy p.workers j g))
  on_report-blocked j i (some idle) c g = refl
  on_report-blocked j i (some (working _)) c g = refl
  on_report-blocked j i (some gone) c g = refl
  on_report-blocked j i none c g = refl

  on_closed_receive-blocked :
      (i : ℕ) (c : Option CallerPc) → get_elem? p.callers i ≡ c → on_closed_receive p i c ≡ blocked
  unfolding on_closed_receive
  on_closed_receive-blocked i (some (waiting t)) f =
      absurd (omega (arith, v.0, total-get_elem? pending p.callers i f))
  on_closed_receive-blocked i (some (submitting t)) f = refl
  on_closed_receive-blocked i (some (returned t e)) f = refl
  on_closed_receive-blocked i none f = refl

  on_leave-IsQuiet :
      (j : ℕ) (w : Option WorkerPc) {p' : Pool}
      → get_elem? p.workers j ≡ w
      → on_leave p j w ≡ moves p'
      → IsQuiet p'
  unfolding on_leave
  on_leave-IsQuiet j (some idle) g h =
      (ground (arith, v.0), ground (arith, v.1, total-set busy p.workers j gone g))
  on_leave-IsQuiet j (some (working _)) g h = cc
  on_leave-IsQuiet j (some (reporting _ _)) g h = cc
  on_leave-IsQuiet j (some gone) g h = cc
  on_leave-IsQuiet j none g h = cc

  on_shutdown-IsQuiet : (s : ShutdownPc) {p' : Pool} → on_shutdown p s ≡ moves p' → IsQuiet p'
  unfolding on_shutdown
  on_shutdown-IsQuiet not_called h = (ground (arith, v.0), ground (arith, v.1))
  on_shutdown-IsQuiet work_closed h = (ground (arith, v.0), ground (arith, v.1))
  on_shutdown-IsQuiet errs_closed h = (ground (arith, v.0), ground (arith, v.1))
  on_shutdown-IsQuiet completed h = cc

  step-IsQuiet : (a : Action) {p' : Pool} → NoCall a → step p a ≡ moves p' → IsQuiet p'
  unfolding step
  step-IsQuiet (call_run t) n h = absurd n
  step-IsQuiet (submit i j) n h =
      absurd
        (ground (arith, on_submit-blocked i j (get_elem? p.callers i) (get_elem? p.workers j) refl))
  step-IsQuiet (perform j e) n h =
      absurd (ground (arith, on_perform-blocked j e (get_elem? p.workers j) refl))
  step-IsQuiet (report j i) n h =
      absurd
        (ground (arith, on_report-blocked j i (get_elem? p.workers j) (get_elem? p.callers i) refl))
  step-IsQuiet (closed_receive i) n h =
      absurd (ground (arith, on_closed_receive-blocked i (get_elem? p.callers i) refl))
  step-IsQuiet (leave j) n h = on_leave-IsQuiet j (get_elem? p.workers j) refl h
  step-IsQuiet shut_down n h = on_shutdown-IsQuiet p.shutdown h

  on_leave-safe : (j : ℕ) (w : Option WorkerPc) → on_leave p j w ≢ panics
  unfolding on_leave
  on_leave-safe j (some idle) h = ground arith
  on_leave-safe j (some (working _)) h = cc
  on_leave-safe j (some (reporting _ _)) h = cc
  on_leave-safe j (some gone) h = cc
  on_leave-safe j none h = cc

  on_shutdown-safe : (s : ShutdownPc) → on_shutdown p s ≢ panics
  unfolding on_shutdown
  on_shutdown-safe not_called h = cc
  on_shutdown-safe work_closed h = cc
  on_shutdown-safe errs_closed h = ground arith
  on_shutdown-safe completed h = cc

  step-safe : (a : Action) → NoCall a → step p a ≢ panics
  unfolding step
  step-safe (call_run t) n h = absurd n
  step-safe (submit i j) n h =
      ground (arith, on_submit-blocked i j (get_elem? p.callers i) (get_elem? p.workers j) refl)
  step-safe (perform j e) n h = ground (arith, on_perform-blocked j e (get_elem? p.workers j) refl)
  step-safe (report j i) n h =
      ground (arith, on_report-blocked j i (get_elem? p.workers j) (get_elem? p.callers i) refl)
  step-safe (closed_receive i) n h =
      ground (arith, on_closed_receive-blocked i (get_elem? p.callers i) refl)
  step-safe (leave j) n h = on_leave-safe j (get_elem? p.workers j) h
  step-safe shut_down n h = on_shutdown-safe p.shutdown h

waits-le : (cs : List CallerPc) → total waits cs ≤ total pending cs
waits-le [] = omega arith
waits-le (submitting t ∷ cs) = omega (arith, waits-le cs)
waits-le (waiting t ∷ cs) = omega (arith, waits-le cs)
waits-le (returned t e ∷ cs) = omega (arith, waits-le cs)

Run-IsQuiet :
    {o p : Pool} {acts : List Action} → IsQuiet o → Run o p acts → NoCalls acts → IsQuiet p
Run-IsQuiet v (start e) n = subst IsQuiet (sym e) v
Run-IsQuiet v (later {p = p} r a h) n = step-IsQuiet p (Run-IsQuiet v r n.1) a n.0 h

-- Once every call of `Run` has returned, with the channel of errors open, no goroutine panics any
-- more, whether or not `Shutdown` is called, if `Run` is not called again.
closing_never_panics :
    (n : ℕ) {o p : Pool} {before after : List Action}
    → Reach n o before
    → is_errs_closed o.shutdown ≡ false
    → total pending o.callers ≡ 0
    → Run o p after
    → NoCalls after
    → (a : Action) → NoCall a
    → step p a ≢ panics
closing_never_panics n {o} {p} r e q run calls a c =
    let quiet : IsQuiet o = (q, omega (arith, q, waits-le o.callers, calls_balanced n r e)) in
    step-safe p (Run-IsQuiet quiet run calls) a c
