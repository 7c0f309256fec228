-- ===== src/ResourcePool.antt =====
-- concurrency/pool/main.go: a pool of resources that goroutines share. A step is one operation on the
-- channel: `Acquire` runs without the mutex, also while `Close` drains the channel; `Release` holds it.
pub mod Invariant
pub mod Ownership
mod Examples
use awesome_patterns.Base.{
  ℕ, ◌+◌, ◌-◌, ◌<◌, ◌≡◌, String, Bool, true, false, List, [], ◌∷◌, Option, none, some, ite,
  ℕ_discrete, if◌then◌else◌, ◌==◌,
}
use awesome_patterns.Channel.{
  Chan, Send, Receive, queued, full, send_panics, value, drained, empty, make, try_send,
  try_receive,
}

abbrev pub Error : Type 0
Error = String

-- A resource is known by a number. `locked` says that `Close` holds the mutex.
pub record Pool : Type 0 where
  pub resources : Chan ℕ
  pub closed : Bool
  pub locked : Bool

-- What the operations show: a resource handed out from the channel or by the factory, an error of
-- the factory, `ErrPoolClosed`, a resource put back, and a resource that is closed.
pub data Event : Type 0 where
  shared : ℕ → Event
  created : ℕ → Event
  refused : Error → Event
  pool_closed : Event
  put_back : ℕ → Event
  discarded : ℕ → Event
  flushed : ℕ → Event
  nothing : Event

pub data Outcome : Type 0 where
  blocked : Outcome
  panics : Outcome
  moves : Pool → Event → Outcome

-- `New`, with the error for a size of 0.
pub new : ℕ → Option Pool
new size =
    if size == 0
    then none
    else some (record { resources = make size; closed = false; locked = false })

-- What the factory returns if it is called: a resource or an error.
pub data Made : Type 0 where
  resource : ℕ → Made
  failure : Error → Made

pub make_new : Pool → Made → Outcome
make_new p (resource r) = moves p (created r)
make_new p (failure e) = moves p (refused e)

pub acquire : Pool → Made → Outcome
unfolding make_new
acquire p made = elim (try_receive p.resources) [
  | value r c ↦ moves (record p { resources = c }) (shared r)
  | drained ↦ moves p pool_closed
  | empty ↦ make_new p made
]

pub send_back : Pool → ℕ → Outcome
send_back p r = elim (try_send p.resources r) [
  | queued c ↦ moves (record p { resources = c }) (put_back r)
  | full ↦ moves p (discarded r)
  | send_panics ↦ panics
]

-- `Release` waits for the mutex.
pub release : Pool → ℕ → Outcome
unfolding send_back
release p r =
    if p.locked then blocked else (if p.closed then moves p (discarded r) else send_back p r)

-- `Close` up to its loop; a second call returns.
pub close : Pool → Outcome
close p =
    if p.locked
    then blocked
    else (if p.closed
        then moves p nothing
        else moves
            (record p {
              closed = true;
              locked = true;
              resources = record (p.resources) { closed = true };
            })
            nothing)

-- One pass of `for r := range p.resources`, and the end of the loop, which unlocks the mutex.
pub flush : Pool → Outcome
flush p =
    if p.locked
    then (elim (try_receive p.resources) [
      | value r c ↦ moves (record p { resources = c }) (flushed r)
      | drained ↦ moves (record p { locked = false }) nothing
      | empty ↦ blocked
    ])
    else blocked

pub data Action : Type 0 where
  call_acquire : Made → Action
  call_release : ℕ → Action
  call_close : Action
  flush_one : Action

pub step : Pool → Action → Outcome
unfolding acquire release close flush
step p (call_acquire made) = acquire p made
step p (call_release r) = release p r
step p call_close = close p
step p flush_one = flush p

-- How often each resource was made by the factory, is held by a client, and was closed.
pub record Ledger : Type 0 where
  pub made : ℕ → ℕ
  pub held : ℕ → ℕ
  pub shut : ℕ → ℕ

abbrev pub more : ℕ → (ℕ → ℕ) → ℕ → ℕ
more r f x = ite (ℕ_discrete r x) (f x + 1) (f x)

abbrev pub less : ℕ → (ℕ → ℕ) → ℕ → ℕ
less r f x = ite (ℕ_discrete r x) (f x - 1) (f x)

-- A caller of `Release` gives its resource away, whatever becomes of it.
abbrev pub given : Action → Ledger → Ledger
given (call_release r) b = record b { held = less r b.held }
given _ b = b

abbrev pub enter : Event → Ledger → Ledger
enter (shared r) b = record b { held = more r b.held }
enter (created r) b = record b { made = more r b.made; held = more r b.held }
enter (discarded r) b = record b { shut = more r b.shut }
enter (flushed r) b = record b { shut = more r b.shut }
enter _ b = b

-- A client releases only what it holds.
abbrev pub Allowed : Action → Ledger → Type 0
Allowed (call_release r) b = 0 < b.held r
Allowed _ b = Unit

pub data Reach (size : ℕ) : Pool → Ledger → Type 0 where
  start :
      {p : Pool} {b : Ledger}
      → new size ≡ some p
      → b ≡ record { made = λ x. 0; held = λ x. 0; shut = λ x. 0 }
      → Reach size p b
  later :
      {p p' : Pool} {b : Ledger} {e : Event}
      → Reach size p b
      → (a : Action) → Allowed a b
      → step p a ≡ moves p' e
      → Reach size p' (enter e (given a b))
