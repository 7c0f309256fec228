-- ===== src/WorkPool/Invariant.antt =====
-- What the counters of the work pool count.
use awesome_patterns.Base.{
  ℕ, zero, suc, ◌+◌, ◌^◌, ◌≤◌, ◌<◌, ◌≡◌, refl, ap, List, [], ◌∷◌, Option, none, some, arith, length,
  length-append, get_elem?, replicate, total, total-set, length-set, total-replicate,
  length-replicate, total-get_elem?, total-le,
}
use awesome_patterns.WorkPool.{
  QueuePc, waiting, received, admitted, pushing, confirming, refusing, answering, stopped, WorkerPc,
  idle, taken, uncounted, working, leaving, gone, ShutdownPc, not_called, asked, awaiting, WorkPool,
  new, Action, post_work, queue_step, worker_step, worker_quits, shutdown_step, Event, moves,
  on_queue, take_work, on_worker, on_quit, step, Reach, start, later,
}

-- A routine that holds work which `queuedWork` still counts; one that `activeRoutines` counts; one
-- that has not gone.
abbrev pub holding : WorkerPc → ℕ
holding (taken x) = 1
holding _ = 0

abbrev pub active : WorkerPc → ℕ
active (working x) = 1
active (leaving x) = 1
active _ = 0

abbrev pub alive : WorkerPc → ℕ
alive gone = 0
alive _ = 1

-- Work that `queuedWork` counts and that is not yet in the channel.
abbrev pub in_hand : QueuePc → ℕ
in_hand (pushing x) = 1
in_hand _ = 0

abbrev pub has_room : QueuePc → ℕ
has_room (admitted x) = 1
has_room _ = 0

-- How far `Shutdown` has come with `queueRoutine`, as each of them sees it.
abbrev pub asked_by : ShutdownPc → ℕ
asked_by not_called = 0
asked_by asked = 1
asked_by _ = 2

abbrev pub answered_by : QueuePc → ℕ
answered_by answering = 1
answered_by stopped = 2
answered_by _ = 0

pub record Inv (n c : ℕ) (w : WorkPool) : Type 0 where
  pub size : length w.workers ≡ n
  pub capacity : w.queue_capacity ≡ c
  pub queued : w.queued_work ≡ length w.work_channel + total holding w.workers + in_hand w.queue
  pub bounded : w.queued_work + has_room w.queue ≤ c
  pub busy : w.active_routines ≡ total active w.workers
  pub waits : w.wait_group ≡ total alive w.workers
  pub stage : asked_by w.shutdown ≡ answered_by w.queue

alive-replicate : (n : ℕ) → total alive (replicate n idle) ≡ n
alive-replicate zero = refl
alive-replicate (suc n) = omega (arith, alive-replicate n)

new-Inv : (n c : ℕ) → Inv n c (new n c)
unfolding new
new-Inv n c = record {
  size = length-replicate n idle;
  capacity = refl;
  queued = omega (arith, total-replicate holding n idle refl);
  bounded = omega arith;
  busy = omega (arith, total-replicate active n idle refl);
  waits = omega (arith, alive-replicate n);
  stage = refl;
}

module _ {n c : ℕ} (small : c < 2 ^ 31) (few : n < 2 ^ 31) (w : WorkPool) (v : Inv n c w) where
  on_post-Inv : (x : ℕ) {w' : WorkPool} {e : Event} → step w (post_work x) ≡ moves w' e → Inv n c w'
  unfolding step
  on_post-Inv x h = ground arith

  on_queue-Inv :
      (q : QueuePc) {w' : WorkPool} {e : Event}
      → w.queue ≡ q
      → on_queue w q ≡ moves w' e
      → Inv n c w'
  unfolding on_queue
  on_queue-Inv waiting f h = cc
  on_queue-Inv (received x) f h = ground arith
  on_queue-Inv (admitted x) f h = ground arith
  on_queue-Inv (pushing x) f h = ground (arith, length-append w.work_channel (x ∷ []))
  on_queue-Inv (confirming x) f h = ground arith
  on_queue-Inv (refusing x) f h = ground arith
  on_queue-Inv answering f h = cc
  on_queue-Inv stopped f h = cc

  on_shutdown-Inv : {w' : WorkPool} {e : Event} → step w shutdown_step ≡ moves w' e → Inv n c w'
  unfolding step
  on_shutdown-Inv h = ground arith

  active-le : total active w.workers ≤ n
  active-le = omega (arith, total-le active (λ p. ground arith) w.workers, v.size)

  module _ (i : ℕ) where
    take_work-Inv :
        (xs : List ℕ) {w' : WorkPool} {e : Event}
        → get_elem? w.workers i ≡ some idle
        → w.work_channel ≡ xs
        → take_work w i xs ≡ moves w' e
        → Inv n c w'
    unfolding take_work
    take_work-Inv [] f g h = cc
    take_work-Inv (x ∷ rest) f g h = ground (
      arith,
      ap length g,
      length-set w.workers i (taken x),
      total-set holding w.workers i (taken x) f,
      total-set active w.workers i (taken x) f,
      total-set alive w.workers i (taken x) f,
    )

    on_worker-Inv :
        (o : Option WorkerPc) {w' : WorkPool} {e : Event}
        → get_elem? w.workers i ≡ o
        → on_worker w i o ≡ moves w' e
        → Inv n c w'
    unfolding on_worker
    on_worker-Inv (some idle) f h = take_work-Inv w.work_channel f refl h
    on_worker-Inv (some (taken x)) f h = ground (
      arith,
      length-set w.workers i (uncounted x),
      total-get_elem? holding w.workers i f,
      total-set holding w.workers i (uncounted x) f,
      total-set active w.workers i (uncounted x) f,
      total-set alive w.workers i (uncounted x) f,
    )
    on_worker-Inv (some (uncounted x)) f h = ground (
      arith,
      active-le,
      length-set w.workers i (working x),
      total-set holding w.workers i (working x) f,
      total-set active w.workers i (working x) f,
      total-set alive w.workers i (working x) f,
    )
    on_worker-Inv (some (working x)) f h = ground (
      arith,
      length-set w.workers i (leaving x),
      total-set holding w.workers i (leaving x) f,
      total-set active w.workers i (leaving x) f,
      total-set alive w.workers i (leaving x) f,
    )
    on_worker-Inv (some (leaving x)) f h = ground (
      arith,
      active-le,
      length-set w.workers i idle,
      total-get_elem? active w.workers i f,
      total-set holding w.workers i idle f,
      total-set active w.workers i idle f,
      total-set alive w.workers i idle f,
    )
    on_worker-Inv (some gone) f h = cc
    on_worker-Inv none f h = cc

    on_quit-Inv :
        (s : ShutdownPc) (o : Option WorkerPc) {w' : WorkPool} {e : Event}
        → w.shutdown ≡ s
        → get_elem? w.workers i ≡ o
        → on_quit w i s o ≡ moves w' e
        → Inv n c w'
    unfolding on_quit
    on_quit-Inv awaiting (some idle) g f h = ground (
      arith,
      length-set w.workers i gone,
      total-get_elem? alive w.workers i f,
      total-set holding w.workers i gone f,
      total-set active w.workers i gone f,
      total-set alive w.workers i gone f,
    )
    on_quit-Inv awaiting _ g f h = cc
    on_quit-Inv _ _ g f h = cc

  step-Inv : (a : Action) {w' : WorkPool} {e : Event} → step w a ≡ moves w' e → Inv n c w'
  unfolding step
  step-Inv (post_work x) h = on_post-Inv x h
  step-Inv queue_step h = on_queue-Inv w.queue refl h
  step-Inv (worker_step i) h = on_worker-Inv i (get_elem? w.workers i) refl h
  step-Inv (worker_quits i) h = on_quit-Inv i w.shutdown (get_elem? w.workers i) refl refl h
  step-Inv shutdown_step h = on_shutdown-Inv h

pub Reach-Inv :
    {n c : ℕ} {w : WorkPool} {es : List Event}
    → c < 2 ^ 31
    → n < 2 ^ 31
    → Reach n c w es
    → Inv n c w
Reach-Inv {n} {c} small few (start e) = rw e (new-Inv n c)
Reach-Inv small few (later {w = w} r a h) = step-Inv small few w (Reach-Inv small few r) a h
