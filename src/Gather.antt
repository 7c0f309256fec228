-- ===== src/Gather.antt =====
-- concurrency/subtasks/divide_and_conquer/divide_and_conquer.go: one goroutine for each evaluator,
-- whose results and errors are gathered through two buffered channels.
pub mod Laws
pub mod Network
use awesome_patterns.Base.{Bool, true, false, List, [], ◌∷◌, ◌++◌, length}
use awesome_patterns.Channel.{Chan, Send, queued, full, send_panics, make, try_send}

-- What `Evaluate` returns: a result with a nil error, or an error.
pub data Evaluated (R E : Type 0) : Type 0 where
  result : R → Evaluated R E
  failed : E → Evaluated R E

-- The two channels that all goroutines send on.
pub record Channels (R E : Type 0) : Type 0 where
  pub gather : Chan R
  pub errors : Chan E

-- The select of an evaluator's goroutine: `late` says that the timer fires first.
pub outcome : {D R E : Type 0} → (D → Evaluated R E) → E → D → Bool → Evaluated R E
outcome evaluate timeout_error input true = failed timeout_error
outcome evaluate timeout_error input false = evaluate input

-- A send either succeeds, or waits on a full channel or panics, which no goroutine does.
pub data Sent (R E : Type 0) : Type 0 where
  sent : Channels R E → Sent R E
  stuck : Sent R E

unfoldable pub send : {R E : Type 0} → Channels R E → Evaluated R E → Sent R E
unfolding try_send
send c (result r) = elim (try_send c.gather r) [
  | queued g ↦ sent (record c { gather = g })
  | full ↦ stuck
  | send_panics ↦ stuck
]
send c (failed e) = elim (try_send c.errors e) [
  | queued g ↦ sent (record c { errors = g })
  | full ↦ stuck
  | send_panics ↦ stuck
]

-- The goroutines' sends in the order in which they happen, when the gathering loop takes none.
pub send_all : {R E : Type 0} → List (Evaluated R E) → Channels R E → Sent R E
unfolding send
send_all [] c = sent c
send_all (o ∷ os) c = elim (send c o) [ sent c' ↦ send_all os c' | stuck ↦ stuck ]

-- The gathering loop, one receive for each evaluator, on what arrives.
pub gather_all : {R E : Type 0} → List (Evaluated R E) → List R → List E → List R × List E
gather_all [] out errs = (out, errs)
gather_all (result r ∷ os) out errs = gather_all os (out ++ r ∷ []) errs
gather_all (failed e ∷ os) out errs = gather_all os out (errs ++ e ∷ [])
