-- ===== src/Deadline/Laws.antt =====
-- What `Run` returns, and that its goroutine can end.
use awesome_patterns.Base.{
  ◌≡◌, ◌⊎◌, refl, sym, inl, inr, Bool, true, false, List, [], ◌∷◌, Option, none, some,
}
use mathlib.Core.Path.{subst}
use mathlib.Core.Option.{some-injective}
use awesome_patterns.Deadline.{
  Deadline, Error, timed_out, Worker, working, selecting, ended, Move, finish_work, hand_over,
  expire, see_stopper, on_finish, on_hand_over, on_expire, on_stopper, step, Reach, start, later,
}

-- The value that the work returned, in a history.
abbrev pub work_value : List Move → Option Error
work_value [] = none
work_value (finish_work e ∷ ms) = some e
work_value (hand_over ∷ ms) = work_value ms
work_value (expire ∷ ms) = work_value ms
work_value (see_stopper ∷ ms) = work_value ms

-- What each state says of the history: the stopper is closed just if `Run` timed out, and the worker
-- has the value of the work.
data Agrees : Worker → Option Error → Bool → Option Error → Type 0 where
  at_work : Agrees working none false none
  late_work : Agrees working (some timed_out) true none
  waits : (e : Error) → Agrees (selecting e) none false (some e)
  waits_late : (e : Error) → Agrees (selecting e) (some timed_out) true (some e)
  gave : (e : Error) → Agrees ended (some e) false (some e)
  left : (e : Error) → Agrees ended (some timed_out) true (some e)

Next : Option Deadline → List Move → Type 0
Next none ms = Unit {0}
Next (some d) ms = Agrees d.worker d.result d.stopper_closed (work_value ms)

step-Next :
    {w : Worker} {o : Option Error} {b : Bool} {v : Option Error}
    → Agrees w o b v
    → (m : Move) (ms : List Move) → v ≡ work_value ms
    → Next (step (record { worker = w; result = o; stopper_closed = b }) m) (m ∷ ms)
unfolding step on_finish on_hand_over on_expire on_stopper Next
step-Next at_work (finish_work e) ms p = waits e
step-Next at_work hand_over ms p = tt
step-Next at_work expire ms p = subst (Agrees working (some timed_out) true) p late_work
step-Next at_work see_stopper ms p = tt
step-Next late_work (finish_work e) ms p = waits_late e
step-Next late_work hand_over ms p = tt
step-Next late_work expire ms p = tt
step-Next late_work see_stopper ms p = tt
step-Next (waits e) (finish_work x) ms p = tt
step-Next (waits e) hand_over ms p = subst (Agrees ended (some e) false) p (gave e)
step-Next (waits e) expire ms p =
    subst (Agrees (selecting e) (some timed_out) true) p (waits_late e)
step-Next (waits e) see_stopper ms p = tt
step-Next (waits_late e) (finish_work x) ms p = tt
step-Next (waits_late e) hand_over ms p = tt
step-Next (waits_late e) expire ms p = tt
step-Next (waits_late e) see_stopper ms p = subst (Agrees ended (some timed_out) true) p (left e)
step-Next (gave e) (finish_work x) ms p = tt
step-Next (gave e) hand_over ms p = tt
step-Next (gave e) expire ms p = tt
step-Next (gave e) see_stopper ms p = tt
step-Next (left e) (finish_work x) ms p = tt
step-Next (left e) hand_over ms p = tt
step-Next (left e) expire ms p = tt
step-Next (left e) see_stopper ms p = tt

Reach-Agrees :
    {d : Deadline} {ms : List Move}
    → Reach d ms
    → Agrees d.worker d.result d.stopper_closed (work_value ms)
unfolding Next
Reach-Agrees (start p) = subst (λ x. Agrees x.worker x.result x.stopper_closed none) (sym p) at_work
Reach-Agrees (later {d = d} {ms = ms} r m e) =
    subst (λ x. Next x (m ∷ ms)) e (step-Next (Reach-Agrees r) m ms refl)

returned-lem :
    {w : Worker} {o : Option Error} {b : Bool} {v : Option Error}
    → Agrees w o b v
    → (e : Error) → o ≡ some e
    → ((b ≡ true) × (e ≡ timed_out)) ⊎ ((b ≡ false) × (v ≡ some e))
returned-lem at_work e p = inl cc
returned-lem late_work e p = inl (refl, sym (some-injective _ _ p))
returned-lem (waits x) e p = inl cc
returned-lem (waits_late x) e p = inl (refl, sym (some-injective _ _ p))
returned-lem (gave x) e p = inr (refl, p)
returned-lem (left x) e p = inl (refl, sym (some-injective _ _ p))

-- In every history of `Run`, once it has returned `e`, either the stopper is closed and `e` is
-- `ErrTimedOut`, or the stopper is open and `e` is the value that the work returned.
run_returns :
    {d : Deadline} {ms : List Move}
    → Reach d ms
    → (e : Error) → d.result ≡ some e
    → ((d.stopper_closed ≡ true) × (e ≡ timed_out))
      ⊎ ((d.stopper_closed ≡ false) × (work_value ms ≡ some e))
run_returns r e p = returned-lem (Reach-Agrees r) e p

can_leave :
    {w : Worker} {o : Option Error} {b : Bool} {v : Option Error}
    → Agrees w o b v
    → (x e : Error) → w ≡ selecting x
    → o ≡ some e
    → step (record { worker = w; result = o; stopper_closed = b }) see_stopper
      ≡ some (record { worker = ended; result = o; stopper_closed = b })
unfolding step on_stopper
can_leave at_work x e p q = cc
can_leave late_work x e p q = cc
can_leave (waits y) x e p q = cc
can_leave (waits_late y) x e p q = refl
can_leave (gave y) x e p q = cc
can_leave (left y) x e p q = cc

-- In every history of `Run`, when `Run` has returned and its goroutine is at the `select` with a
-- value, the goroutine's receive on the stopper succeeds and ends it: it is not stranded.
worker_ends :
    {d : Deadline} {ms : List Move}
    → Reach d ms
    → (x e : Error) → d.worker ≡ selecting x
    → d.result ≡ some e
    → step d see_stopper ≡ some (record d { worker = ended })
worker_ends r x e p q = can_leave (Reach-Agrees r) x e p q
