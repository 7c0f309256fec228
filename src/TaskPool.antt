-- ===== src/TaskPool.antt =====
-- workerpool/main.go: a pool that performs a list of tasks, each once.
pub mod Invariant
pub mod Accounting
pub mod Progress
pub mod Safety
mod Examples
use awesome_patterns.Base.{
  ℕ, ◌-◌, ◌≡◌, Bool, true, false, String, List, [], ◌∷◌, Option, none, some, if◌then◌else◌, ◌==◌,
  length, get_elem?, set, replicate,
}

abbrev pub Error : Type 0
Error = Option String

-- Where a goroutine of `work` stands: at its receive, in `t.f()`, before `wg.Done()`, or at its end.
pub data WorkerPc : Type 0 where
  idle : WorkerPc
  running : ℕ → WorkerPc
  counting : ℕ → WorkerPc
  gone : WorkerPc

-- Where `Run` stands: in its loop of sends with the tasks left, in `p.wg.Wait()`, or at its end.
pub data RunPc : Type 0 where
  sending : List ℕ → RunPc
  waiting : RunPc
  returned : RunPc

-- The tasks are numbered; `errs` has the field `Err` of each.
pub record Pool : Type 0 where
  pub workers : List WorkerPc
  pub run : RunPc
  pub tasks_closed : Bool
  pub wait_group : ℕ
  pub errs : ℕ → Error

-- `NewPool`, and `Run` up to its loop.
pub new_run : List ℕ → ℕ → Pool
new_run tasks concurrency = record {
  workers = replicate concurrency idle;
  run = sending tasks;
  tasks_closed = false;
  wait_group = length tasks;
  errs = λ t. none;
}

pub data Event : Type 0 where
  silent : Event
  performed : ℕ → Error → Event

pub data Outcome : Type 0 where
  blocked : Outcome
  panics : Outcome
  moves : Pool → Event → Outcome

abbrev pub at : Pool → ℕ → WorkerPc → Pool
at p i c = record p { workers = set p.workers i c }

-- `p.tasksChan <- task` meets the receive of a worker.
pub on_hand : Pool → ℕ → RunPc → Option WorkerPc → Outcome
on_hand p i (sending (t ∷ ts)) (some idle) =
    if p.tasks_closed
    then panics
    else moves (record (at p i (running t)) { run = sending ts }) silent
on_hand p i _ _ = blocked

-- `t.Err = t.f()`
pub on_finish : Pool → ℕ → Error → Option WorkerPc → Outcome
on_finish p i e (some (running t)) =
    moves (record (at p i (counting t)) { errs = λ x. if t == x then e else p.errs x })
      (performed t e)
on_finish p i e _ = blocked

-- `wg.Done()`
pub on_count : Pool → ℕ → Option WorkerPc → Outcome
on_count p i (some (counting t)) =
    if p.wait_group == 0
    then panics
    else moves (record (at p i idle) { wait_group = p.wait_group - 1 }) silent
on_count p i _ = blocked

-- The end of `range p.tasksChan`
pub on_leave : Pool → ℕ → Option WorkerPc → Outcome
on_leave p i (some idle) = if p.tasks_closed then moves (at p i gone) silent else blocked
on_leave p i _ = blocked

-- `close(p.tasksChan)`
pub on_close : Pool → RunPc → Outcome
on_close p (sending []) =
    if p.tasks_closed
    then panics
    else moves (record p { run = waiting; tasks_closed = true }) silent
on_close p _ = blocked

-- `p.wg.Wait()`
pub on_wait : Pool → RunPc → Outcome
on_wait p waiting =
    if p.wait_group == 0 then moves (record p { run = returned }) silent else blocked
on_wait p _ = blocked

pub data Action : Type 0 where
  hand : ℕ → Action
  finish : ℕ → Error → Action
  count_down : ℕ → Action
  leave : ℕ → Action
  close_tasks : Action
  end_wait : Action

pub step : Pool → Action → Outcome
unfolding on_hand on_finish on_count on_leave on_close on_wait
step p (hand i) = on_hand p i p.run (get_elem? p.workers i)
step p (finish i e) = on_finish p i e (get_elem? p.workers i)
step p (count_down i) = on_count p i (get_elem? p.workers i)
step p (leave i) = on_leave p i (get_elem? p.workers i)
step p close_tasks = on_close p p.run
step p end_wait = on_wait p p.run

-- The states of a run, with what it has shown, the latest event first.
pub data Reach (tasks : List ℕ) (concurrency : ℕ) : Pool → List Event → Type 0 where
  start : {p : Pool} → p ≡ new_run tasks concurrency → Reach tasks concurrency p []
  later :
      {p p' : Pool} {es : List Event} {e : Event}
      → Reach tasks concurrency p es
      → (a : Action) → step p a ≡ moves p' e
      → Reach tasks concurrency p' (e ∷ es)
