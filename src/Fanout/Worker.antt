-- ===== src/Fanout/Worker.antt =====
-- messaging/fanout.go: a `worker`, with every goroutine that runs its method `stream`.
pub mod Exclusion
pub mod Order
pub mod Sends
pub mod Stranding
mod Examples
pub mod Idle
use awesome_patterns.Base.{
  ℕ, zero, suc, ◌+◌, ◌^◌, ◌%◌, ◌≡◌, Bool, true, false, List, [], ◌∷◌, ◌++◌, Option, none, some,
  ◌&&◌, if◌then◌else◌, ltb, get_elem?, set,
}
use awesome_patterns.Channel.{
  Chan, queued, full, send_panics, value, drained, empty, make, try_send, try_receive,
}

-- A message, by a number; the nil interface is `none`.
abbrev pub Message : Type 0
Message = Option ℕ

abbrev pub max_queue_size : ℕ
max_queue_size = 512

-- Where a call of `stream` stands: before each access to what the calls share, in a call of
-- `Before`, `Process` or `After`, or at its end.
pub data StreamPc : Type 0 where
  sending : Message → StreamPc
  checking : StreamPc
  locking : StreamPc
  marking : StreamPc
  starting : StreamPc
  looping : (idle : ℕ) → StreamPc
  processing : ℕ → StreamPc
  leaving : StreamPc
  unlocking : StreamPc
  clearing : StreamPc
  ended : StreamPc

-- `idle` is the field that bounds the idle passes; `locked` says whether the mutex is held.
pub record Worker : Type 0 where
  pub chain : Chan Message
  pub running : Bool
  pub locked : Bool
  pub idle : ℕ
  pub streams : List StreamPc

-- A worker of `NewPipeline`.
unfoldable pub new_worker : ℕ → Worker
new_worker idle = record {
  chain = make max_queue_size;
  running = false;
  locked = false;
  idle = idle;
  streams = [];
}

-- What a step shows: a message that went into the channel, a nil message that was dropped, and the
-- end of a `Process`.
pub data Event : Type 0 where
  silent : Event
  sent : Message → Event
  dropped : Event
  processed : ℕ → Event

pub data Outcome : Type 0 where
  blocked : Outcome
  panics : Outcome
  moves : Worker → Event → Outcome

abbrev pub at : Worker → ℕ → StreamPc → Worker
at w i p = record w { streams = set w.streams i p }

-- `c.chain <- val`
pub on_send : Worker → ℕ → Message → Outcome
on_send w i msg = elim (try_send w.chain msg) [
  | queued c ↦ moves (record (at w i checking) { chain = c }) (sent msg)
  | full ↦ blocked
  | send_panics ↦ panics
]

-- `if msg != nil { … }`, behind the reset of `idle`
pub on_message : Worker → ℕ → Message → Chan Message → Outcome
on_message w i (some n) c = moves (record (at w i (processing n)) { chain = c }) silent
on_message w i none c = moves (record (at w i (looping 0)) { chain = c }) dropped

-- The default case, with the counter in 32 bits.
pub on_default : Worker → ℕ → ℕ → Outcome
on_default w i idle =
    let n = (idle + 1) % 2 ^ 32 in
    if ltb 0 n && ltb w.idle n
    then moves (at w i leaving) silent
    else moves (at w i (looping n)) silent

pub on_select : Worker → ℕ → ℕ → Outcome
unfolding on_message on_default
on_select w i idle = elim (try_receive w.chain) [
  | value msg c ↦ on_message w i msg c
  | drained ↦ moves (at w i (looping 0)) silent
  | empty ↦ on_default w i idle
]

pub on_stream : Worker → ℕ → Option StreamPc → Outcome
unfolding on_send on_select
on_stream w i (some (sending msg)) = on_send w i msg
on_stream w i (some checking) =
    if w.running then moves (at w i ended) silent else moves (at w i locking) silent
on_stream w i (some locking) =
    if w.locked then blocked else moves (record (at w i marking) { locked = true }) silent
on_stream w i (some marking) = moves (record (at w i starting) { running = true }) silent
on_stream w i (some starting) = moves (at w i (looping 0)) silent
on_stream w i (some (looping idle)) = on_select w i idle
on_stream w i (some (processing n)) = moves (at w i (looping 0)) (processed n)
on_stream w i (some leaving) = moves (at w i unlocking) silent
on_stream w i (some unlocking) =
    if w.locked then moves (record (at w i clearing) { locked = false }) silent else panics
on_stream w i (some clearing) = moves (record (at w i ended) { running = false }) silent
on_stream w i (some ended) = blocked
on_stream w i none = blocked

pub data Action : Type 0 where
  start_stream : Message → Action
  continue_stream : ℕ → Action

-- `go pipe.workers[k].stream(val)`, and a step of a call.
unfoldable pub step : Worker → Action → Outcome
unfolding on_stream
step w (start_stream msg) = moves (record w { streams = w.streams ++ sending msg ∷ [] }) silent
step w (continue_stream i) = on_stream w i (get_elem? w.streams i)

-- The states from a new worker, with what the run has shown, the latest event first.
pub data Reach (idle : ℕ) : Worker → List Event → Type 0 where
  start : {w : Worker} → w ≡ new_worker idle → Reach idle w []
  later :
      {w w' : Worker} {es : List Event} {e : Event}
      → Reach idle w es
      → (a : Action) → step w a ≡ moves w' e
      → Reach idle w' (e ∷ es)
