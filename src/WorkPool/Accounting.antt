-- ===== src/WorkPool/Accounting.antt =====
-- Where the work is that the pool has accepted.
use awesome_patterns.Base.{
  ℕ, ◌+◌, ◌≡◌, refl, ap, List, [], ◌∷◌, Option, none, some, arith, get_elem?, total, total-set,
  total-replicate, same, count, count-snoc,
}
use awesome_patterns.WorkPool.{
  QueuePc, waiting, received, admitted, pushing, confirming, refusing, answering, stopped, WorkerPc,
  idle, taken, uncounted, working, leaving, gone, ShutdownPc, awaiting, WorkPool, new, Action,
  post_work, queue_step, worker_step, worker_quits, shutdown_step, Event, accepted, ended, moves,
  push_work, on_queue, take_work, on_worker, on_quit, step, Reach, start, later,
}

-- Work that a routine has and has not finished; work in the channel whose caller has no answer yet.
abbrev pub has_work : ℕ → WorkerPc → ℕ
has_work x (taken y) = same x y
has_work x (uncounted y) = same x y
has_work x (working y) = same x y
has_work x _ = 0

abbrev pub unconfirmed : ℕ → QueuePc → ℕ
unconfirmed x (confirming y) = same x y
unconfirmed x _ = 0

-- How often a run has told a caller that the work is queued, and has performed the work.
abbrev pub acceptances : ℕ → List Event → ℕ
acceptances x [] = 0
acceptances x (accepted y ∷ es) = same x y + acceptances x es
acceptances x (_ ∷ es) = acceptances x es

abbrev pub performances : ℕ → List Event → ℕ
performances x [] = 0
performances x (ended y ∷ es) = same x y + performances x es
performances x (_ ∷ es) = performances x es

abbrev Balanced : ℕ → WorkPool → List Event → Type 0
Balanced x w es =
    acceptances x es + unconfirmed x w.queue
    ≡ count x w.work_channel + total (has_work x) w.workers + performances x es

module _ (x : ℕ) (w : WorkPool) (es : List Event) (v : Balanced x w es) where
  on_queue-Balanced :
      (q : QueuePc) {w' : WorkPool} {e : Event}
      → w.queue ≡ q
      → on_queue w q ≡ moves w' e
      → Balanced x w' (e ∷ es)
  unfolding on_queue push_work
  on_queue-Balanced (pushing y) f h = ground (arith, count-snoc x y w.work_channel)
  on_queue-Balanced waiting f h = cc
  on_queue-Balanced (received y) f h = ground arith
  on_queue-Balanced (admitted y) f h = ground arith
  on_queue-Balanced (confirming y) f h = ground arith
  on_queue-Balanced (refusing y) f h = ground arith
  on_queue-Balanced answering f h = cc
  on_queue-Balanced stopped f h = cc

  take_work-Balanced :
      (i : ℕ) (xs : List ℕ) {w' : WorkPool} {e : Event}
      → get_elem? w.workers i ≡ some idle
      → w.work_channel ≡ xs
      → take_work w i xs ≡ moves w' e
      → Balanced x w' (e ∷ es)
  unfolding take_work
  take_work-Balanced i [] f g h = cc
  take_work-Balanced i (y ∷ rest) f g h =
      ground (arith, ap (count x) g, total-set (has_work x) w.workers i (taken y) f)

  on_worker-Balanced :
      (i : ℕ) (o : Option WorkerPc) {w' : WorkPool} {e : Event}
      → get_elem? w.workers i ≡ o
      → on_worker w i o ≡ moves w' e
      → Balanced x w' (e ∷ es)
  unfolding on_worker
  on_worker-Balanced i (some idle) f h = take_work-Balanced i w.work_channel f refl h
  on_worker-Balanced i (some (taken y)) f h =
      ground (arith, total-set (has_work x) w.workers i (uncounted y) f)
  on_worker-Balanced i (some (uncounted y)) f h =
      ground (arith, total-set (has_work x) w.workers i (working y) f)
  on_worker-Balanced i (some (working y)) f h =
      ground (arith, total-set (has_work x) w.workers i (leaving y) f)
  on_worker-Balanced i (some (leaving y)) f h =
      ground (arith, total-set (has_work x) w.workers i idle f)
  on_worker-Balanced i (some gone) f h = cc
  on_worker-Balanced i none f h = cc

  on_quit-Balanced :
      (i : ℕ) (s : ShutdownPc) (o : Option WorkerPc) {w' : WorkPool} {e : Event}
      → get_elem? w.workers i ≡ o
      → on_quit w i s o ≡ moves w' e
      → Balanced x w' (e ∷ es)
  unfolding on_quit
  on_quit-Balanced i awaiting (some idle) f h =
      ground (arith, total-set (has_work x) w.workers i gone f)
  on_quit-Balanced i awaiting _ f h = cc
  on_quit-Balanced i _ _ f h = cc

  step-Balanced :
      (a : Action) {w' : WorkPool} {e : Event} → step w a ≡ moves w' e → Balanced x w' (e ∷ es)
  unfolding step
  step-Balanced (post_work y) h = ground arith
  step-Balanced queue_step h = on_queue-Balanced w.queue refl h
  step-Balanced (worker_step i) h = on_worker-Balanced i (get_elem? w.workers i) refl h
  step-Balanced (worker_quits i) h = on_quit-Balanced i w.shutdown (get_elem? w.workers i) refl h
  step-Balanced shutdown_step h = ground arith

-- Each item of work was accepted just as often as it was performed, is with a routine or is in the
-- channel, but for the one whose caller is about to be told that it is queued.
pub work_accounted :
    {n c : ℕ} {w : WorkPool} {es : List Event}
    → Reach n c w es
    → (x : ℕ)
    → acceptances x es + unconfirmed x w.queue
      ≡ count x w.work_channel + total (has_work x) w.workers + performances x es
unfolding new
work_accounted {n} (start e) x = rw e (omega (arith, total-replicate (has_work x) n idle refl))
work_accounted (later {w = w} {es = es} r a h) x = step-Balanced x w es (work_accounted r x) a h
