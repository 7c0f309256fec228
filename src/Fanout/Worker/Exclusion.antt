-- ===== src/Fanout/Worker/Exclusion.antt =====
-- One goroutine of a worker processes at a time.
use mathlib.Core.Path.{subst}
use awesome_patterns.Base.{
  ℕ, ◌+◌, ◌≤◌, ◌≡◌, ◌≢◌, refl, sym, ap, ◌%◌, ◌^◌, true, false, Bool, List, [], ◌∷◌, Option, none,
  some, arith, length, length-append, get_elem?, total, total-set, total-snoc, total-two,
  ℕ_discrete, total-get_elem?,
}
use awesome_patterns.Channel.{try_send, try_receive}
use awesome_patterns.Fanout.Worker.{
  Message, max_queue_size, StreamPc, sending, checking, locking, marking, starting, looping,
  processing, leaving, unlocking, clearing, ended, Worker, new_worker, Event, panics, moves,
  on_send, on_message, on_default, on_select, on_stream, Action, start_stream, continue_stream,
  step, Reach, start, later,
}

-- Whether the call is between its `Lock` and its `Unlock`.
abbrev pub inside : StreamPc → ℕ
inside marking = 1
inside starting = 1
inside (looping idle) = 1
inside (processing n) = 1
inside leaving = 1
inside unlocking = 1
inside _ = 0

abbrev pub held : Bool → ℕ
held true = 1
held false = 0

pub record Inv (w : Worker) : Type 0 where
  pub open_ : w.chain.closed ≡ false
  pub capacity : w.chain.capacity ≡ max_queue_size
  pub room : length w.chain.buffer ≤ max_queue_size
  pub lock : total inside w.streams ≡ held w.locked

module _ (w : Worker) (v : Inv w) (i : ℕ) where
  on_send-Inv :
      (msg : Message) {w' : Worker} {e : Event}
      → get_elem? w.streams i ≡ some (sending msg)
      → on_send w i msg ≡ moves w' e
      → Inv w'
  unfolding on_send try_send
  on_send-Inv msg f h =
      ground
        (arith, v, length-append w.chain.buffer (msg ∷ []), total-set inside w.streams i checking f)

  on_select-Inv :
      (idle : ℕ) (q : List Message) {w' : Worker} {e : Event}
      → get_elem? w.streams i ≡ some (looping idle)
      → w.chain.buffer ≡ q
      → on_select w i idle ≡ moves w' e
      → Inv w'
  unfolding on_select on_message on_default try_receive
  on_select-Inv idle [] f g h = ground (
    arith,
    v,
    g,
    total-set inside w.streams i leaving f,
    total-set inside w.streams i (looping ((idle + 1) % 2 ^ 32)) f,
    total-set inside w.streams i (looping 0) f,
  )
  on_select-Inv idle (none ∷ rest) f g h =
      ground (arith, v, g, ap length g, total-set inside w.streams i (looping 0) f)
  on_select-Inv idle (some n ∷ rest) f g h =
      ground (arith, v, g, ap length g, total-set inside w.streams i (processing n) f)

  on_stream-Inv :
      (o : Option StreamPc) {w' : Worker} {e : Event}
      → get_elem? w.streams i ≡ o
      → on_stream w i o ≡ moves w' e
      → Inv w'
  unfolding on_stream
  on_stream-Inv (some (sending msg)) f h = on_send-Inv msg f h
  on_stream-Inv (some checking) f h =
      ground
        (arith, v, total-set inside w.streams i ended f, total-set inside w.streams i locking f)
  on_stream-Inv (some locking) f h = ground (arith, v, total-set inside w.streams i marking f)
  on_stream-Inv (some marking) f h = ground (arith, v, total-set inside w.streams i starting f)
  on_stream-Inv (some starting) f h = ground (arith, v, total-set inside w.streams i (looping 0) f)
  on_stream-Inv (some (looping idle)) f h = on_select-Inv idle w.chain.buffer f refl h
  on_stream-Inv (some (processing n)) f h =
      ground (arith, v, total-set inside w.streams i (looping 0) f)
  on_stream-Inv (some leaving) f h = ground (arith, v, total-set inside w.streams i unlocking f)
  on_stream-Inv (some unlocking) f h = ground (arith, v, total-set inside w.streams i clearing f)
  on_stream-Inv (some clearing) f h = ground (arith, v, total-set inside w.streams i ended f)
  on_stream-Inv (some ended) f h = cc
  on_stream-Inv none f h = cc

step-Inv :
    (w : Worker) → Inv w → (a : Action) {w' : Worker} {e : Event} → step w a ≡ moves w' e → Inv w'
unfolding step
step-Inv w v (start_stream msg) h = ground (arith, v, total-snoc inside w.streams (sending msg))
step-Inv w v (continue_stream i) h = on_stream-Inv w v i (get_elem? w.streams i) refl h

new_worker-Inv : (idle : ℕ) → Inv (new_worker idle)
unfolding new_worker
new_worker-Inv idle = record { open_ = refl; capacity = refl; room = omega arith; lock = refl }

pub Reach-Inv : {idle : ℕ} {w : Worker} {es : List Event} → Reach idle w es → Inv w
Reach-Inv {idle} (start e) = subst Inv (sym e) (new_worker-Inv idle)
Reach-Inv (later {w = w} r a h) = step-Inv w (Reach-Inv r) a h

pub held-le : (b : Bool) → held b ≤ 1
held-le true = omega arith
held-le false = omega arith

apart :
    (i j : ℕ) (xs : List StreamPc) {p q : StreamPc}
    → total inside xs ≤ 1
    → get_elem? xs i ≡ some p
    → get_elem? xs j ≡ some q
    → inside p ≡ 1
    → inside q ≡ 1
    → Dec (i ≡ j)
    → i ≡ j
apart i j xs t e f a b (yes h) = h
apart i j xs t e f a b (no h) = absurd (omega (arith, total-two inside xs i j e f h))

-- Between the `Lock` and the `Unlock` of `stream`, where it processes the messages and calls
-- `Before` and `After`, at most one goroutine of a worker stands at a time.
pub one_at_a_time :
    {idle : ℕ} {w : Worker} {es : List Event}
    → Reach idle w es
    → (i j : ℕ) {p q : StreamPc} → get_elem? w.streams i ≡ some p
    → get_elem? w.streams j ≡ some q
    → inside p ≡ 1
    → inside q ≡ 1
    → i ≡ j
one_at_a_time {w = w} r i j e f a b =
    apart i j w.streams (omega (arith, (Reach-Inv r).lock, held-le w.locked)) e f a b
      (ℕ_discrete i j)

on_stream-safe :
    (w : Worker) (i : ℕ) (o : Option StreamPc)
    → Inv w
    → get_elem? w.streams i ≡ o
    → on_stream w i o ≢ panics
unfolding on_stream on_send on_select on_message on_default try_send try_receive
on_stream-safe w i (some (sending msg)) v f h = ground (arith, v)
on_stream-safe w i (some checking) v f h = ground arith
on_stream-safe w i (some locking) v f h = ground arith
on_stream-safe w i (some marking) v f h = cc
on_stream-safe w i (some starting) v f h = cc
on_stream-safe w i (some (looping idle)) v f h = ground arith
on_stream-safe w i (some (processing n)) v f h = cc
on_stream-safe w i (some leaving) v f h = cc
on_stream-safe w i (some unlocking) v f h =
    ground (arith, v.lock, total-get_elem? inside w.streams i f)
on_stream-safe w i (some clearing) v f h = cc
on_stream-safe w i (some ended) v f h = cc
on_stream-safe w i none v f h = cc

-- No step of a worker panics: nothing is sent on a closed channel, and the mutex is unlocked only
-- while it is held.
pub worker_never_panics :
    {idle : ℕ} {w : Worker} {es : List Event} → Reach idle w es → (a : Action) → step w a ≢ panics
unfolding step
worker_never_panics r (start_stream msg) h = cc
worker_never_panics {w = w} r (continue_stream i) h =
    on_stream-safe w i (get_elem? w.streams i) (Reach-Inv r) refl h
