-- ===== src/UnbufferedPool.antt =====
-- concurrency/worker_unbuffed/main.go: a pool whose channels of work and of errors have no buffer.
pub mod Balance
pub mod Exchange
pub mod Pending
pub mod Serial
pub mod Closing
mod Examples
use awesome_patterns.Base.{
  ℕ, ◌≡◌, Bool, true, false, String, List, [], ◌∷◌, ◌++◌, Option, none, some, if◌then◌else◌,
  get_elem?, set, replicate,
}

abbrev pub Error : Type 0
Error = Option String

-- A goroutine of `New`: at its receive, in `w.Task()`, at its send of what the task returned, or
-- ended.
pub data WorkerPc : Type 0 where
  idle : WorkerPc
  working : ℕ → WorkerPc
  reporting : ℕ → Error → WorkerPc
  gone : WorkerPc

-- A call of `Run`, with its task: at its send, at its receive, or returned.
pub data CallerPc : Type 0 where
  submitting : ℕ → CallerPc
  waiting : ℕ → CallerPc
  returned : ℕ → Error → CallerPc

-- `Shutdown`: before it, behind the first `close`, behind the second one, or returned.
pub data ShutdownPc : Type 0 where
  not_called : ShutdownPc
  work_closed : ShutdownPc
  errs_closed : ShutdownPc
  completed : ShutdownPc

pub record Pool : Type 0 where
  pub workers : List WorkerPc
  pub callers : List CallerPc
  pub shutdown : ShutdownPc

pub new : ℕ → Pool
new max_goroutines = record {
  workers = replicate max_goroutines idle;
  callers = [];
  shutdown = not_called;
}

pub is_work_closed : ShutdownPc → Bool
is_work_closed not_called = false
is_work_closed _ = true

pub is_errs_closed : ShutdownPc → Bool
is_errs_closed errs_closed = true
is_errs_closed completed = true
is_errs_closed _ = false

pub data Outcome : Type 0 where
  blocked : Outcome
  panics : Outcome
  moves : Pool → Outcome

-- `p.work <- w` meets the receive of a worker; on the closed channel it panics.
pub on_submit : Pool → ℕ → ℕ → Option CallerPc → Option WorkerPc → Outcome
unfolding is_work_closed
on_submit p i j (some (submitting t)) (some idle) =
    if is_work_closed p.shutdown
    then panics
    else moves
        (record p { callers = set p.callers i (waiting t); workers = set p.workers j (working t) })
on_submit p i j (some (submitting t)) _ = if is_work_closed p.shutdown then panics else blocked
on_submit p i j _ _ = blocked

pub on_perform : Pool → ℕ → Error → Option WorkerPc → Outcome
on_perform p j e (some (working t)) = moves (record p { workers = set p.workers j (reporting t e) })
on_perform p j e _ = blocked

-- `p.errChan <- …` meets `err = <-p.errChan` of any call; on the closed channel it panics.
pub on_report : Pool → ℕ → ℕ → Option WorkerPc → Option CallerPc → Outcome
unfolding is_errs_closed
on_report p j i (some (reporting t e)) (some (waiting t')) =
    if is_errs_closed p.shutdown
    then panics
    else moves
        (record p { callers = set p.callers i (returned t' e); workers = set p.workers j idle })
on_report p j i (some (reporting t e)) _ = if is_errs_closed p.shutdown then panics else blocked
on_report p j i _ _ = blocked

-- A receive from the closed channel of errors gives nil.
pub on_closed_receive : Pool → ℕ → Option CallerPc → Outcome
unfolding is_errs_closed
on_closed_receive p i (some (waiting t)) =
    if is_errs_closed p.shutdown
    then moves (record p { callers = set p.callers i (returned t none) })
    else blocked
on_closed_receive p i _ = blocked

-- The end of `range p.work`, and `p.wg.Done()`.
pub on_leave : Pool → ℕ → Option WorkerPc → Outcome
unfolding is_work_closed
on_leave p j (some idle) =
    if is_work_closed p.shutdown
    then moves (record p { workers = set p.workers j gone })
    else blocked
on_leave p j _ = blocked

pub all_gone : List WorkerPc → Bool
all_gone [] = true
all_gone (gone ∷ ws) = all_gone ws
all_gone (_ ∷ ws) = false

pub on_shutdown : Pool → ShutdownPc → Outcome
unfolding all_gone
on_shutdown p not_called = moves (record p { shutdown = work_closed })
on_shutdown p work_closed = moves (record p { shutdown = errs_closed })
on_shutdown p errs_closed =
    if all_gone p.workers then moves (record p { shutdown = completed }) else blocked
on_shutdown p completed = blocked

pub data Action : Type 0 where
  call_run : ℕ → Action
  submit : (caller worker : ℕ) → Action
  perform : (worker : ℕ) → Error → Action
  report : (worker caller : ℕ) → Action
  closed_receive : (caller : ℕ) → Action
  leave : (worker : ℕ) → Action
  shut_down : Action

pub step : Pool → Action → Outcome
unfolding on_submit on_perform on_report on_closed_receive on_leave on_shutdown
step p (call_run t) = moves (record p { callers = p.callers ++ submitting t ∷ [] })
step p (submit i j) = on_submit p i j (get_elem? p.callers i) (get_elem? p.workers j)
step p (perform j e) = on_perform p j e (get_elem? p.workers j)
step p (report j i) = on_report p j i (get_elem? p.workers j) (get_elem? p.callers i)
step p (closed_receive i) = on_closed_receive p i (get_elem? p.callers i)
step p (leave j) = on_leave p j (get_elem? p.workers j)
step p shut_down = on_shutdown p p.shutdown

-- The states that follow on another one by some actions, the latest action first.
pub data Run (origin : Pool) : Pool → List Action → Type 0 where
  start : {p : Pool} → p ≡ origin → Run origin p []
  later :
      {p p' : Pool} {acts : List Action}
      → Run origin p acts
      → (a : Action) → step p a ≡ moves p'
      → Run origin p' (a ∷ acts)

abbrev pub Reach : ℕ → Pool → List Action → Type 0
Reach n = Run (new n)
