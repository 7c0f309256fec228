-- ===== src/Runner.antt =====
-- concurrency/runner/main.go: tasks run in order, beside a timeout and an interrupt.
pub mod Laws
mod Examples
use awesome_patterns.Base.{
  ℕ, zero, suc, ◌+◌, ◌≡◌, Bool, true, false, List, [], ◌∷◌, ◌++◌, Option, none, some, if◌then◌else◌,
}

pub data Error : Type 0 where
  received_timeout received_interrupt : Error

-- `interrupt` holds at most one signal; tasks are known by a number.
pub record Runner : Type 0 where
  pub interrupt : Bool
  pub tasks : List ℕ

pub new : Runner
new = record { interrupt = false; tasks = [] }

-- `Add`
pub add : Runner → List ℕ → Runner
add r tasks = record r { tasks = r.tasks ++ tasks }

-- `gotInterrupt` takes the signal, if there is one.
pub got_interrupt : Runner → Bool × Runner
got_interrupt r = if r.interrupt then (true, record r { interrupt = false }) else (false, r)

-- The rest of the loop of `run`, at index `id`. `signals` says at each check whether a signal has
-- come since the last. The calls made, task and id, come with the result, nil being `none`.
pub run_from : Runner → ℕ → List ℕ → List Bool → List (ℕ × ℕ) × Option Error
unfolding got_interrupt
run_from r id [] signals = ([], none)
run_from r id (task ∷ tasks) [] =
    let rest = run_from r (suc id) tasks [] in
    if (got_interrupt r).0 then ([], some received_interrupt) else ((task, id) ∷ rest.0, rest.1)
run_from r id (task ∷ tasks) (signal ∷ signals) =
    let r' : Runner = if signal then (record r { interrupt = true }) else r in
    let rest = run_from r' (suc id) tasks signals in
    if (got_interrupt r').0 then ([], some received_interrupt) else ((task, id) ∷ rest.0, rest.1)

pub run : Runner → List Bool → List (ℕ × ℕ) × Option Error
unfolding run_from
run r signals = run_from r 0 r.tasks signals

-- The goroutine of `Start`: in `run`, at its send on `complete`, or ended.
pub data Goroutine : Type 0 where
  running : Goroutine
  sending : Option Error → Goroutine
  finished : Goroutine

-- `Start` waits, or has returned its result.
pub record Started : Type 0 where
  pub goroutine : Goroutine
  pub result : Option (Option Error)

pub data Move : Type 0 where
  run_ends : Option Error → Move
  completes : Move
  times_out : Move

pub complete : Started → Goroutine → Option (Option Error) → Option Started
complete s (sending e) none = some (record { goroutine = finished; result = some e })
complete s _ _ = none

pub end_run : Started → Goroutine → Option Error → Option Started
end_run s running e = some (record s { goroutine = sending e })
end_run s _ e = none

pub time_out : Started → Option (Option Error) → Option Started
time_out s none = some (record s { result = some (some received_timeout) })
time_out s (some r) = none

-- The send on `complete`, which has no buffer, and the receive in `Start` are one step.
pub step : Started → Move → Option Started
unfolding complete end_run time_out
step s (run_ends e) = end_run s s.goroutine e
step s completes = complete s s.goroutine s.result
step s times_out = time_out s s.result

pub data Reach : Started → List Move → Type 0 where
  start : {s : Started} → s ≡ record { goroutine = running; result = none } → Reach s []
  later :
      {s s' : Started} {ms : List Move}
      → Reach s ms
      → (m : Move) → step s m ≡ some s'
      → Reach s' (m ∷ ms)
