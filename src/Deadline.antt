-- ===== src/Deadline.antt =====
-- stability/deadline/deadline.go: `Run` of a work function with a timeout.
pub mod Laws
mod Examples
use awesome_patterns.Base.{ℕ, ◌≡◌, String, Bool, true, false, List, [], ◌∷◌, Option, none, some}

-- An error value, by its message; nil is `none`.
abbrev pub Error : Type 0
Error = Option String

abbrev pub timed_out : Error
timed_out = some "timed out waiting for function to finish"

-- The goroutine of the work: in `work`, at its `select` with the value, or ended.
pub data Worker : Type 0 where
  working : Worker
  selecting : Error → Worker
  ended : Worker

-- `result` is what `Run` has returned; `stopper_closed` says whether the stopper channel is closed.
pub record Deadline : Type 0 where
  pub worker : Worker
  pub result : Option Error
  pub stopper_closed : Bool

pub data Move : Type 0 where
  finish_work : Error → Move
  hand_over : Move
  expire : Move
  see_stopper : Move

pub on_finish : Deadline → Error → Worker → Option Deadline
on_finish d e working = some (record d { worker = selecting e })
on_finish d e _ = none

-- `result <- value` meets `ret := <-result`.
pub on_hand_over : Deadline → Worker → Option Error → Option Deadline
on_hand_over d (selecting e) none = some (record d { worker = ended; result = some e })
on_hand_over d _ _ = none

-- `<-time.After(d.timeout)`
pub on_expire : Deadline → Option Error → Option Deadline
on_expire d none = some (record d { result = some timed_out; stopper_closed = true })
on_expire d (some e) = none

-- `<-stopper` of the worker
pub on_stopper : Deadline → Worker → Bool → Option Deadline
on_stopper d (selecting e) true = some (record d { worker = ended })
on_stopper d _ _ = none

pub step : Deadline → Move → Option Deadline
unfolding on_finish on_hand_over on_expire on_stopper
step d (finish_work e) = on_finish d e d.worker
step d hand_over = on_hand_over d d.worker d.result
step d expire = on_expire d d.result
step d see_stopper = on_stopper d d.worker d.stopper_closed

abbrev pub started : Deadline
started = record { worker = working; result = none; stopper_closed = false }

pub data Reach : Deadline → List Move → Type 0 where
  start : {d : Deadline} → d ≡ started → Reach d []
  later :
      {d d' : Deadline} {ms : List Move}
      → Reach d ms
      → (m : Move) → step d m ≡ some d'
      → Reach d' (m ∷ ms)
