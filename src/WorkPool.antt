-- ===== src/WorkPool.antt =====
-- workerpool/ardan_labs_worker_pool/worker_pool.go: a queue routine, work routines, the callers of
-- `PostWork` and one of `Shutdown`. A step is one communication or one atomic access to a counter.
pub mod Invariant
pub mod Queueing
pub mod Accounting
mod Examples
use awesome_patterns.Base.{
  ℕ, suc, ◌+◌, ◌-◌, ◌%◌, ◌^◌, ◌<◌, ◌≡◌, Bool, true, false, ◌&&◌, List, [], ◌∷◌, ◌++◌, Option, none,
  some, if◌then◌else◌, ltb, ◌==◌, length, get_elem?, set, replicate,
}

-- An `int32`, by its bit pattern: `atomic.AddInt32` of 1 and of -1.
abbrev pub inc32 : ℕ → ℕ
inc32 n = (n + 1) % 2 ^ 32

abbrev pub dec32 : ℕ → ℕ
dec32 n = (n + 2 ^ 32 - 1) % 2 ^ 32

-- Where `queueRoutine` stands: at its `select`; with an item behind the receive; behind the test of
-- the capacity; behind the increment, at the send on `workChannel`; at the send of the result; at
-- the answer to `Shutdown`; behind its `return`. Work is known by a number.
pub data QueuePc : Type 0 where
  waiting : QueuePc
  received : ℕ → QueuePc
  admitted : ℕ → QueuePc
  pushing : ℕ → QueuePc
  confirming : ℕ → QueuePc
  refusing : ℕ → QueuePc
  answering : QueuePc
  stopped : QueuePc

-- Where a work routine stands: at its `select`; in `safelyDoWork` before each of the two counters is
-- changed; in `DoWork`; at the deferred decrement, which a panic of the work reaches too; gone.
pub data WorkerPc : Type 0 where
  idle : WorkerPc
  taken : ℕ → WorkerPc
  uncounted : ℕ → WorkerPc
  working : ℕ → WorkerPc
  leaving : ℕ → WorkerPc
  gone : WorkerPc

-- Where `Shutdown` stands: not called; behind the send of "Down"; behind the receive of it; behind
-- the three `close`s, at `Wait`; behind `close(workChannel)`.
pub data ShutdownPc : Type 0 where
  not_called : ShutdownPc
  asked : ShutdownPc
  answered : ShutdownPc
  awaiting : ShutdownPc
  completed : ShutdownPc

pub record WorkPool : Type 0 where
  pub queue : QueuePc
  pub workers : List WorkerPc
  pub shutdown : ShutdownPc
  pub work_channel : List ℕ
  pub queued_work : ℕ
  pub active_routines : ℕ
  pub queue_capacity : ℕ
  pub wait_group : ℕ

-- `New(numberOfRoutines, queueCapacity)`
pub new : ℕ → ℕ → WorkPool
new routines capacity = record {
  queue = waiting;
  workers = replicate routines idle;
  shutdown = not_called;
  work_channel = [];
  queued_work = 0;
  active_routines = 0;
  queue_capacity = capacity;
  wait_group = routines;
}

pub data Action : Type 0 where
  post_work : ℕ → Action
  queue_step : Action
  worker_step : (routine : ℕ) → Action
  worker_quits : (routine : ℕ) → Action
  shutdown_step : Action

-- What a step shows: the result that a caller of `PostWork` gets, the start and the end of `DoWork`.
pub data Event : Type 0 where
  silent : Event
  accepted : ℕ → Event
  at_capacity : ℕ → Event
  ended : ℕ → Event

pub data Outcome : Type 0 where
  blocked : Outcome
  panics : Outcome
  moves : WorkPool → Event → Outcome

-- `workPool.queueChannel <- poolWork`, which panics once `Shutdown` has closed the channel.
pub on_post : WorkPool → ℕ → ShutdownPc → QueuePc → Outcome
on_post w x awaiting _ = panics
on_post w x completed _ = panics
on_post w x _ waiting = moves (record w { queue = received x }) silent
on_post w x _ _ = blocked

pub push_work : WorkPool → ℕ → ShutdownPc → Outcome
push_work w x completed = panics
push_work w x _ =
    if ltb (length w.work_channel) w.queue_capacity
    then moves (record w { queue = confirming x; work_channel = w.work_channel ++ x ∷ [] }) silent
    else blocked

pub on_queue : WorkPool → QueuePc → Outcome
unfolding push_work
on_queue w waiting = blocked
on_queue w (received x) =
    if w.queued_work == w.queue_capacity
    then moves (record w { queue = refusing x }) silent
    else moves (record w { queue = admitted x }) silent
on_queue w (admitted x) =
    moves (record w { queue = pushing x; queued_work = inc32 w.queued_work }) silent
on_queue w (pushing x) = push_work w x w.shutdown
on_queue w (confirming x) = moves (record w { queue = waiting }) (accepted x)
on_queue w (refusing x) = moves (record w { queue = waiting }) (at_capacity x)
on_queue w answering = blocked
on_queue w stopped = blocked

abbrev pub at : WorkPool → ℕ → WorkerPc → WorkPool
at w i p = record w { workers = set w.workers i p }

pub take_work : WorkPool → ℕ → List ℕ → Outcome
take_work w i [] = blocked
take_work w i (x ∷ rest) = moves (record (at w i (taken x)) { work_channel = rest }) silent

pub on_worker : WorkPool → ℕ → Option WorkerPc → Outcome
unfolding take_work
on_worker w i (some idle) = take_work w i w.work_channel
on_worker w i (some (taken x)) =
    moves (record (at w i (uncounted x)) { queued_work = dec32 w.queued_work }) silent
on_worker w i (some (uncounted x)) =
    moves (record (at w i (working x)) { active_routines = inc32 w.active_routines }) silent
on_worker w i (some (working x)) = moves (at w i (leaving x)) (ended x)
on_worker w i (some (leaving x)) =
    moves (record (at w i idle) { active_routines = dec32 w.active_routines }) silent
on_worker w i (some gone) = blocked
on_worker w i none = blocked

-- `case <-workPool.shutdownWorkChannel`, ready once the channel is closed, and `Done`.
pub on_quit : WorkPool → ℕ → ShutdownPc → Option WorkerPc → Outcome
on_quit w i awaiting (some idle) =
    if w.wait_group == 0
    then panics
    else moves (record (at w i gone) { wait_group = w.wait_group - 1 }) silent
on_quit w i _ _ = blocked

pub on_shutdown : WorkPool → ShutdownPc → QueuePc → Outcome
on_shutdown w not_called waiting = moves (record w { shutdown = asked; queue = answering }) silent
on_shutdown w asked answering = moves (record w { shutdown = answered; queue = stopped }) silent
on_shutdown w answered _ = moves (record w { shutdown = awaiting }) silent
on_shutdown w awaiting _ =
    if w.wait_group == 0 then moves (record w { shutdown = completed }) silent else blocked
on_shutdown w _ _ = blocked

pub step : WorkPool → Action → Outcome
unfolding on_post on_queue on_worker on_quit on_shutdown
step w (post_work x) = on_post w x w.shutdown w.queue
step w queue_step = on_queue w w.queue
step w (worker_step i) = on_worker w i (get_elem? w.workers i)
step w (worker_quits i) = on_quit w i w.shutdown (get_elem? w.workers i)
step w shutdown_step = on_shutdown w w.shutdown w.queue

-- The states from `New`, with what the run has shown, the latest event first.
pub data Reach (routines capacity : ℕ) : WorkPool → List Event → Type 0 where
  start : {w : WorkPool} → w ≡ new routines capacity → Reach routines capacity w []
  later :
      {w w' : WorkPool} {es : List Event} {e : Event}
      → Reach routines capacity w es
      → (a : Action) → step w a ≡ moves w' e
      → Reach routines capacity w' (e ∷ es)
