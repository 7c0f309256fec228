-- ===== src/Barrier.antt =====
-- concurrency/barrier/n_barrier/main.go: a barrier of two channels, one with a value for each caller
-- but one, the other closed by the caller who finds none.
pub mod Invariant
pub mod Preservation
pub mod Safety
pub mod Ending
mod Examples
use awesome_patterns.Base.{
  ℕ, zero, suc, ◌≡◌, Bool, true, false, List, [], ◌∷◌, ◌++◌, Option, none, some, get_elem?, set,
  replicate,
}
use awesome_patterns.Channel.{
  Chan, queued, full, send_panics, Receive, value, drained, empty, make, try_send, try_receive,
}

-- A value of `struct{}`.
pub data Token : Type 0 where
  token : Token

-- A goroutine that calls `Await` once: before it, at the receive from `sign`, before the two closes,
-- between them, or behind the call.
pub data CallerPc : Type 0 where
  outside : CallerPc
  waiting : CallerPc
  opening : CallerPc
  releasing : CallerPc
  passed : CallerPc

pub record State : Type 0 where
  pub callers : List CallerPc
  pub wait_ch : Chan Token
  pub sign_closed : Bool

pub data Outcome : Type 0 where
  blocked : Outcome
  panics : Outcome
  moves : State → Outcome

-- The loop of `NewChanBarrier`, or `none` where it waits for ever.
pub fill : ℕ → Chan Token → Option (Chan Token)
unfolding try_send
fill zero c = some c
fill (suc n) c = elim (try_send c token) [
  | queued c' ↦ fill n c'
  | full ↦ none
  | send_panics ↦ none
]

-- `NewChanBarrier(gos)`; with no goroutine the size of the channel is negative, and `make` panics.
pub new_chan_barrier : ℕ → Option (Chan Token)
unfolding fill
new_chan_barrier zero = none
new_chan_barrier (suc n) = fill n (make n)

abbrev pub at : State → ℕ → CallerPc → State
at s i p = record s { callers = set s.callers i p }

-- `select { case <-b.waitCh: ... default: ... }`
pub entered : State → ℕ → Receive Token → Outcome
entered s i (value t c) = moves (record (at s i waiting) { wait_ch = c })
entered s i drained = moves (at s i waiting)
entered s i empty = moves (at s i opening)

pub on_enter : State → ℕ → Option CallerPc → Outcome
unfolding entered
on_enter s i (some outside) = entered s i (try_receive s.wait_ch)
on_enter s i _ = blocked

-- `<-b.sign`
pub on_pass : State → ℕ → Option CallerPc → Bool → Outcome
on_pass s i (some waiting) true = moves (at s i passed)
on_pass s i _ b = blocked

-- `close(b.sign)`
pub on_open : State → ℕ → Option CallerPc → Bool → Outcome
on_open s i (some opening) true = panics
on_open s i (some opening) false = moves (record (at s i releasing) { sign_closed = true })
on_open s i _ b = blocked

-- `close(b.waitCh)`
pub on_release : State → ℕ → Option CallerPc → Bool → Outcome
on_release s i (some releasing) true = panics
on_release s i (some releasing) false =
    moves (record (at s i passed) { wait_ch = record (s.wait_ch) { closed = true } })
on_release s i _ b = blocked

pub data Action : Type 0 where
  enter : ℕ → Action
  pass : ℕ → Action
  open_sign : ℕ → Action
  release : ℕ → Action

pub step : State → Action → Outcome
unfolding on_enter on_pass on_open on_release
step s (enter i) = on_enter s i (get_elem? s.callers i)
step s (pass i) = on_pass s i (get_elem? s.callers i) s.sign_closed
step s (open_sign i) = on_open s i (get_elem? s.callers i) s.sign_closed
step s (release i) = on_release s i (get_elem? s.callers i) s.wait_ch.closed

-- The states of a barrier for as many goroutines as call `Await`, once each.
pub data Reach (gos : ℕ) : State → Type 0 where
  start :
      {s : State}
      → new_chan_barrier gos ≡ some s.wait_ch
      → s.sign_closed ≡ false
      → s.callers ≡ replicate gos outside
      → Reach gos s
  later : {s s' : State} → Reach gos s → (a : Action) → step s a ≡ moves s' → Reach gos s'
