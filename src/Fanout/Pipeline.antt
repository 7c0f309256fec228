-- ===== src/Fanout/Pipeline.antt =====
-- messaging/fanout.go: `Pipeline`, whose goroutine hands the messages of its channel to the workers.
pub mod Workers
pub mod Safety
pub mod Order
mod Examples
use awesome_patterns.Base.{
  ℕ, ◌*◌, ◌%◌, ◌≡◌, List, [], ◌∷◌, Option, none, some, if◌then◌else◌, ltb, length, get_elem?, set,
  replicate,
}
use awesome_patterns.Channel.{
  Chan, queued, full, send_panics, value, drained, empty, make, try_send, try_receive,
}
use awesome_patterns.Fanout.Worker.{Message, max_queue_size, Worker, new_worker, start_stream}
use awesome_patterns.Fanout.Worker

abbrev pub max_workers : ℕ
max_workers = 16

abbrev pub master_queue_size : ℕ
master_queue_size = max_queue_size * max_workers

-- The goroutine of `Start`: before the choice of a worker, at its `select` with the choice, or
-- ended.
pub data StartPc : Type 0 where
  choosing : StartPc
  waiting : (expectation_workers : ℕ) → StartPc
  stopped : StartPc

pub record Pipeline : Type 0 where
  pub workers : List Worker
  pub chain : Chan Message
  pub pc : StartPc

-- `NewPipeline`, and the goroutine of `Start`.
pub new_pipeline : ℕ → Pipeline
new_pipeline idle = record {
  workers = replicate max_workers (new_worker idle);
  chain = make master_queue_size;
  pc = choosing;
}

-- What a step shows: a message that went into the channel, and one that a worker was given.
pub data Event : Type 0 where
  silent : Event
  dispatched : Message → Event
  handed : ℕ → Message → Event

pub data Outcome : Type 0 where
  blocked : Outcome
  panics : Outcome
  moves : Pipeline → Event → Outcome

-- `p.chain <- msg`
pub dispatch : Pipeline → Message → Outcome
dispatch p msg = elim (try_send p.chain msg) [
  | queued c ↦ moves (record p { chain = c }) (dispatched msg)
  | full ↦ blocked
  | send_panics ↦ panics
]

pub expectation : ℕ → ℕ
expectation n = let k = n % max_workers in if ltb k max_workers then k else 0

pub choose : Pipeline → StartPc → Outcome
unfolding expectation
choose p choosing = moves (record p { pc = waiting (expectation (length p.chain.buffer)) }) silent
choose p _ = blocked

-- `go pipe.workers[k].stream(val)`; a missing worker is a nil pointer.
pub hand_over : Pipeline → ℕ → Message → Chan Message → Option Worker → Outcome
hand_over p k msg c none = panics
hand_over p k msg c (some w) = elim (Worker.step w (start_stream msg)) [
  | Worker.moves w' e ↦
      moves (record p { workers = set p.workers k w'; chain = c; pc = choosing }) (handed k msg)
  | _ ↦ panics
]

pub take : Pipeline → StartPc → Outcome
unfolding hand_over
take p (waiting k) = elim (try_receive p.chain) [
  | value msg c ↦ hand_over p k msg c (get_elem? p.workers k)
  | drained ↦ moves (record p { pc = stopped }) silent
  | empty ↦ blocked
]
take p _ = blocked

-- `case <-ctx.Done()`
pub cancel : Pipeline → StartPc → Outcome
cancel p (waiting k) = moves (record p { pc = stopped }) silent
cancel p _ = blocked

-- A step of a call of `stream` of one worker.
pub worked : Pipeline → ℕ → Worker.Outcome → Outcome
worked p k (Worker.moves w e) = moves (record p { workers = set p.workers k w }) silent
worked p k Worker.blocked = blocked
worked p k Worker.panics = panics

pub work : Pipeline → ℕ → ℕ → Option Worker → Outcome
unfolding worked
work p k i none = blocked
work p k i (some w) = worked p k (Worker.step w (Worker.continue_stream i))

pub data Action : Type 0 where
  call_dispatch : Message → Action
  choose_worker : Action
  take_message : Action
  cancel_context : Action
  continue_worker : (worker stream : ℕ) → Action

pub step : Pipeline → Action → Outcome
unfolding dispatch choose take cancel work
step p (call_dispatch msg) = dispatch p msg
step p choose_worker = choose p p.pc
step p take_message = take p p.pc
step p cancel_context = cancel p p.pc
step p (continue_worker k i) = work p k i (get_elem? p.workers k)

-- The states of a pipeline, with what the run has shown, the latest event first.
pub data Reach (idle : ℕ) : Pipeline → List Event → Type 0 where
  start : {p : Pipeline} → p ≡ new_pipeline idle → Reach idle p []
  later :
      {p p' : Pipeline} {es : List Event} {e : Event}
      → Reach idle p es
      → (a : Action) → step p a ≡ moves p' e
      → Reach idle p' (e ∷ es)
