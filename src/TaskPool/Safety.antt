-- ===== src/TaskPool/Safety.antt =====
-- The pool does not panic.
use awesome_patterns.Base.{
  ℕ, ◌≡◌, ◌≢◌, refl, List, [], ◌∷◌, Option, none, some, arith, get_elem?, total-get_elem?,
}
use awesome_patterns.TaskPool.{
  Error, WorkerPc, idle, running, counting, gone, RunPc, sending, waiting, returned, Pool, Event,
  panics, on_hand, on_finish, on_count, on_leave, on_close, on_wait, Action, hand, finish,
  count_down, leave, close_tasks, end_wait, step, Reach,
}
use awesome_patterns.TaskPool.Invariant.{busy, Stage, Inv, Reach-Inv}

on_hand-safe :
    (p : Pool) (i : ℕ) (r : RunPc) (o : Option WorkerPc) → Stage r p → on_hand p i r o ≢ panics
unfolding on_hand
on_hand-safe p i (sending (t ∷ ts)) (some idle) s h = ground (arith, s)
on_hand-safe p i (sending (t ∷ ts)) none s h = cc
on_hand-safe p i (sending (t ∷ ts)) (some (running _)) s h = cc
on_hand-safe p i (sending (t ∷ ts)) (some (counting _)) s h = cc
on_hand-safe p i (sending (t ∷ ts)) (some gone) s h = cc
on_hand-safe p i (sending []) o s h = cc
on_hand-safe p i waiting o s h = cc
on_hand-safe p i returned o s h = cc

on_finish-safe : (p : Pool) (i : ℕ) (e : Error) (o : Option WorkerPc) → on_finish p i e o ≢ panics
unfolding on_finish
on_finish-safe p i e (some (running t)) h = cc
on_finish-safe p i e (some idle) h = cc
on_finish-safe p i e (some (counting t)) h = cc
on_finish-safe p i e (some gone) h = cc
on_finish-safe p i e none h = cc

on_count-safe :
    (p : Pool) (n i : ℕ) (o : Option WorkerPc)
    → Inv n p
    → get_elem? p.workers i ≡ o
    → on_count p i o ≢ panics
unfolding on_count
on_count-safe p n i (some (counting t)) v g h =
    ground (arith, v.waits, total-get_elem? busy p.workers i g)
on_count-safe p n i (some idle) v g h = cc
on_count-safe p n i (some (running t)) v g h = cc
on_count-safe p n i (some gone) v g h = cc
on_count-safe p n i none v g h = cc

on_leave-safe : (p : Pool) (i : ℕ) (o : Option WorkerPc) → on_leave p i o ≢ panics
unfolding on_leave
on_leave-safe p i (some idle) h = ground arith
on_leave-safe p i (some (running t)) h = cc
on_leave-safe p i (some (counting t)) h = cc
on_leave-safe p i (some gone) h = cc
on_leave-safe p i none h = cc

on_close-safe : (p : Pool) (r : RunPc) → Stage r p → on_close p r ≢ panics
unfolding on_close
on_close-safe p (sending []) s h = ground (arith, s)
on_close-safe p (sending (t ∷ ts)) s h = cc
on_close-safe p waiting s h = cc
on_close-safe p returned s h = cc

on_wait-safe : (p : Pool) (r : RunPc) → on_wait p r ≢ panics
unfolding on_wait
on_wait-safe p waiting h = ground arith
on_wait-safe p (sending ts) h = cc
on_wait-safe p returned h = cc

-- No goroutine panics: the channel of the tasks is closed once and behind its last send, and the
-- wait group is never counted below 0.
task_pool_never_panics :
    {tasks : List ℕ} {n : ℕ} {p : Pool} {es : List Event}
    → Reach tasks n p es
    → (a : Action) → step p a ≢ panics
unfolding step
task_pool_never_panics {p = p} r (hand i) h =
    on_hand-safe p i p.run (get_elem? p.workers i) (Reach-Inv r).stage h
task_pool_never_panics {p = p} r (finish i e) h = on_finish-safe p i e (get_elem? p.workers i) h
task_pool_never_panics {n = n} {p = p} r (count_down i) h =
    on_count-safe p n i (get_elem? p.workers i) (Reach-Inv r) refl h
task_pool_never_panics {p = p} r (leave i) h = on_leave-safe p i (get_elem? p.workers i) h
task_pool_never_panics {p = p} r close_tasks h = on_close-safe p p.run (Reach-Inv r).stage h
task_pool_never_panics {p = p} r end_wait h = on_wait-safe p p.run h
