-- ===== src/WorkPool/Queueing.antt =====
-- The capacity of the work pool, and that nothing in it panics.
use awesome_patterns.Base.{
  ℕ, ◌+◌, ◌^◌, ◌≤◌, ◌<◌, ◌≡◌, ◌≢◌, refl, ◌⊎◌, List, [], ◌∷◌, ◌++◌, Option, none, some, arith,
  length, get_elem?, total, total-get_elem?, total-le,
}
use awesome_patterns.WorkPool.{
  QueuePc, waiting, received, admitted, pushing, confirming, refusing, answering, stopped, WorkerPc,
  idle, taken, uncounted, working, leaving, gone, ShutdownPc, awaiting, completed, WorkPool, Action,
  post_work, queue_step, worker_step, worker_quits, shutdown_step, Event, silent, panics, moves,
  push_work, on_queue, on_worker, on_quit, take_work, step, Reach,
}
use awesome_patterns.WorkPool.Invariant.{holding, active, alive, in_hand, Reach-Inv}

-- The queue routine never waits at its send on `workChannel`: the test of the counter leaves room in
-- the buffer for the work that it admits.
pub push_never_blocks :
    {n c : ℕ} {w : WorkPool} {es : List Event}
    → c < 2 ^ 31
    → n < 2 ^ 31
    → Reach n c w es
    → (x : ℕ) → w.queue ≡ pushing x
    → step w queue_step
      ≡ moves (record w { queue = confirming x; work_channel = w.work_channel ++ x ∷ [] }) silent
unfolding step on_queue push_work
push_never_blocks small few r x e =
    let v = Reach-Inv small few r in ground (arith, v.capacity, v.queued, v.bounded, v.stage)

-- `PostWork` is refused just when the pool holds `queueCapacity` items of work that no routine has
-- begun to perform: those in the buffer and those that a routine took and has not yet counted.
refused_iff_full :
    {n c : ℕ} {w : WorkPool} {es : List Event}
    → c < 2 ^ 31
    → n < 2 ^ 31
    → Reach n c w es
    → (x : ℕ) → w.queue ≡ received x
    → (length w.work_channel + total holding w.workers ≡ c
        → step w queue_step ≡ moves (record w { queue = refusing x }) silent)
      × (length w.work_channel + total holding w.workers ≢ c
          → step w queue_step ≡ moves (record w { queue = admitted x }) silent)
unfolding step on_queue
refused_iff_full small few r x e =
    let v = Reach-Inv small few r in
    (λ h. ground (arith, v.capacity, v.queued), λ h. ground (arith, v.capacity, v.queued))

-- `QueuedWork` and `ActiveRoutines`, which read the counters, are exact between two steps and in
-- range: the first counts the work in the buffer, taken and not yet counted, or admitted, and is at
-- most `queueCapacity`; the second counts the routines in `DoWork`, and is at most their number.
counters_exact :
    {n c : ℕ} {w : WorkPool} {es : List Event}
    → c < 2 ^ 31
    → n < 2 ^ 31
    → Reach n c w es
    → (w.queued_work ≡ length w.work_channel + total holding w.workers + in_hand w.queue)
      × (w.queued_work ≤ c)
      × (w.active_routines ≡ total active w.workers)
      × (w.active_routines ≤ n)
counters_exact {w = w} small few r =
    let v = Reach-Inv small few r in
    (
      v.queued,
      omega (arith, v.bounded),
      v.busy,
      omega (arith, v.busy, v.size, total-le active (λ p. ground arith) w.workers),
    )

on_queue-safe :
    (w : WorkPool) (q : QueuePc)
    → w.queue ≡ q
    → (w.queue ≡ q → in_hand q ≡ 1 → w.shutdown ≢ completed)
    → on_queue w q ≢ panics
unfolding on_queue push_work
on_queue-safe w (pushing x) e f h = ground (arith, f e)
on_queue-safe w waiting e f h = cc
on_queue-safe w (received x) e f h = ground arith
on_queue-safe w (admitted x) e f h = cc
on_queue-safe w (confirming x) e f h = cc
on_queue-safe w (refusing x) e f h = cc
on_queue-safe w answering e f h = cc
on_queue-safe w stopped e f h = cc

on_worker-safe : (w : WorkPool) (i : ℕ) (o : Option WorkerPc) → on_worker w i o ≢ panics
unfolding on_worker take_work
on_worker-safe w i (some idle) h = ground arith
on_worker-safe w i (some (taken x)) h = cc
on_worker-safe w i (some (uncounted x)) h = cc
on_worker-safe w i (some (working x)) h = cc
on_worker-safe w i (some (leaving x)) h = cc
on_worker-safe w i (some gone) h = cc
on_worker-safe w i none h = cc

on_quit-safe :
    (w : WorkPool) (i : ℕ) (s : ShutdownPc) (o : Option WorkerPc)
    → get_elem? w.workers i ≡ o
    → w.wait_group ≡ total alive w.workers
    → on_quit w i s o ≢ panics
unfolding on_quit
on_quit-safe w i awaiting (some idle) e f h = ground (arith, total-get_elem? alive w.workers i e)
on_quit-safe w i awaiting _ e f h = cc
on_quit-safe w i _ _ e f h = cc

-- No goroutine of the pool panics, whatever the work and the callers do, but a caller of `PostWork`
-- once `Shutdown` has closed the channel that it sends on.
only_late_post_panics :
    {n c : ℕ} {w : WorkPool} {es : List Event}
    → c < 2 ^ 31
    → n < 2 ^ 31
    → Reach n c w es
    → (a : Action) → step w a ≡ panics
    → ((x : ℕ) × (a ≡ post_work x)) × ((w.shutdown ≡ awaiting) ⊎ (w.shutdown ≡ completed))
unfolding step
only_late_post_panics small few r (post_work x) h = ((x, refl), ground arith)
only_late_post_panics {w = w} small few r queue_step h =
    let v = Reach-Inv small few r in
    absurd (on_queue-safe w w.queue refl (λ e f g. ground (arith, v.stage)) h)
only_late_post_panics {w = w} small few r (worker_step i) h =
    absurd (on_worker-safe w i (get_elem? w.workers i) h)
only_late_post_panics {w = w} small few r (worker_quits i) h =
    let v = Reach-Inv small few r in
    absurd (on_quit-safe w i w.shutdown (get_elem? w.workers i) refl v.waits h)
only_late_post_panics small few r shutdown_step h = ground arith
