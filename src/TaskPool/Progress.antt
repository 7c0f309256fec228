-- ===== src/TaskPool/Progress.antt =====
-- `Run` returns.
use mathlib.Core.Path.{subst}
use awesome_patterns.Base.{
  get_elem?-lt, total-pos, append_assoc, ◌++◌, ◌⊎◌, inl, inr, ◌≤◌, if◌then◌else◌, ◌-◌, ℕ, zero, suc,
  ◌+◌, ◌*◌, ◌<◌, ◌≡◌, ◌≢◌, refl, sym, ap, ◌-◌, ◌≤◌, true, List, [], ◌∷◌, Option, none, some, arith,
  length, get_elem?, total, total-set, total-get_elem?, All, All-append, ◌==◌, if◌then◌else◌,
}
use awesome_patterns.TaskPool.{
  Error, WorkerPc, idle, running, counting, gone, RunPc, sending, waiting, returned, Pool, Event,
  silent, performed, at, moves, on_hand, on_finish, on_count, on_leave, on_close, on_wait, Action,
  hand, finish, count_down, leave, close_tasks, end_wait, step, Reach, later,
}
use awesome_patterns.TaskPool.Invariant.{unsent, busy, has_gone, Stage, Inv, Reach-Inv}

-- What is left to do: each step makes it less.
abbrev pub worker_work : WorkerPc → ℕ
worker_work gone = 0
worker_work idle = 1
worker_work (counting t) = 2
worker_work (running t) = 3

abbrev pub run_work : RunPc → ℕ
run_work (sending ts) = 3 * length ts + 2
run_work waiting = 1
run_work returned = 0

abbrev pub work_left : Pool → ℕ
work_left p = run_work p.run + total worker_work p.workers

module _ (p : Pool) where
  on_hand-lt :
      (i : ℕ) (r : RunPc) (o : Option WorkerPc) {p' : Pool} {e : Event}
      → p.run ≡ r
      → get_elem? p.workers i ≡ o
      → on_hand p i r o ≡ moves p' e
      → work_left p' < work_left p
  unfolding on_hand
  on_hand-lt i (sending (t ∷ ts)) (some idle) f g h =
      ground (arith, ap run_work f, total-set worker_work p.workers i (running t) g)
  on_hand-lt i (sending (t ∷ ts)) none f g h = cc
  on_hand-lt i (sending (t ∷ ts)) (some (running _)) f g h = cc
  on_hand-lt i (sending (t ∷ ts)) (some (counting _)) f g h = cc
  on_hand-lt i (sending (t ∷ ts)) (some gone) f g h = cc
  on_hand-lt i (sending []) o f g h = cc
  on_hand-lt i waiting o f g h = cc
  on_hand-lt i returned o f g h = cc

  on_finish-lt :
      (i : ℕ) (y : Error) (o : Option WorkerPc) {p' : Pool} {e : Event}
      → get_elem? p.workers i ≡ o
      → on_finish p i y o ≡ moves p' e
      → work_left p' < work_left p
  unfolding on_finish
  on_finish-lt i y (some (running t)) g h =
      ground (arith, total-set worker_work p.workers i (counting t) g)
  on_finish-lt i y (some idle) g h = cc
  on_finish-lt i y (some (counting t)) g h = cc
  on_finish-lt i y (some gone) g h = cc
  on_finish-lt i y none g h = cc

  on_count-lt :
      (i : ℕ) (o : Option WorkerPc) {p' : Pool} {e : Event}
      → get_elem? p.workers i ≡ o
      → on_count p i o ≡ moves p' e
      → work_left p' < work_left p
  unfolding on_count
  on_count-lt i (some (counting t)) g h = ground (arith, total-set worker_work p.workers i idle g)
  on_count-lt i (some idle) g h = cc
  on_count-lt i (some (running t)) g h = cc
  on_count-lt i (some gone) g h = cc
  on_count-lt i none g h = cc

  on_leave-lt :
      (i : ℕ) (o : Option WorkerPc) {p' : Pool} {e : Event}
      → get_elem? p.workers i ≡ o
      → on_leave p i o ≡ moves p' e
      → work_left p' < work_left p
  unfolding on_leave
  on_leave-lt i (some idle) g h = ground (arith, total-set worker_work p.workers i gone g)
  on_leave-lt i (some (running t)) g h = cc
  on_leave-lt i (some (counting t)) g h = cc
  on_leave-lt i (some gone) g h = cc
  on_leave-lt i none g h = cc

  on_close-lt :
      (r : RunPc) {p' : Pool} {e : Event}
      → p.run ≡ r
      → on_close p r ≡ moves p' e
      → work_left p' < work_left p
  unfolding on_close
  on_close-lt (sending []) f h = ground (arith, ap run_work f)
  on_close-lt (sending (t ∷ ts)) f h = cc
  on_close-lt waiting f h = cc
  on_close-lt returned f h = cc

  on_wait-lt :
      (r : RunPc) {p' : Pool} {e : Event}
      → p.run ≡ r
      → on_wait p r ≡ moves p' e
      → work_left p' < work_left p
  unfolding on_wait
  on_wait-lt waiting f h = ground (arith, ap run_work f)
  on_wait-lt (sending ts) f h = cc
  on_wait-lt returned f h = cc

  step-lt :
      (a : Action) {p' : Pool} {e : Event} → step p a ≡ moves p' e → work_left p' < work_left p
  unfolding step
  step-lt (hand i) h = on_hand-lt i p.run (get_elem? p.workers i) refl refl h
  step-lt (finish i y) h = on_finish-lt i y (get_elem? p.workers i) refl h
  step-lt (count_down i) h = on_count-lt i (get_elem? p.workers i) refl h
  step-lt (leave i) h = on_leave-lt i (get_elem? p.workers i) refl h
  step-lt close_tasks h = on_close-lt p.run refl h
  step-lt end_wait h = on_wait-lt p.run refl h

-- The function of a task returns what `fs` says.
abbrev pub Obeys : (ℕ → Error) → Event → Type 0
Obeys fs silent = Unit
Obeys fs (performed t e) = e ≡ fs t

-- A step that the pool can make, with tasks that return what `fs` says.
abbrev Enabled : (ℕ → Error) → Pool → Type 0
Enabled fs p = (a : Action) × (p' : Pool) × (e : Event) × (step p a ≡ moves p' e) × Obeys fs e

worker_acts :
    (fs : ℕ → Error) (p : Pool) (i : ℕ) (c : WorkerPc)
    → get_elem? p.workers i ≡ some c
    → 0 < busy c
    → p.wait_group ≢ 0
    → Enabled fs p
unfolding step on_finish on_count
worker_acts fs p i (running t) g b w = (
  finish i (fs t),
  record (at p i (counting t)) { errs = λ x. if t == x then fs t else p.errs x },
  performed t (fs t),
  ap (on_finish p i (fs t)) g,
  refl,
)
worker_acts fs p i (counting t) g b w = (
  count_down i,
  record (at p i idle) { wait_group = p.wait_group - 1 },
  silent,
  ground (arith, g),
  tt,
)
worker_acts fs p i idle g b w = absurd (omega arith)
worker_acts fs p i gone g b w = absurd (omega arith)

-- Where tasks are left to send, the first worker receives or can go on.
first_worker_acts :
    (fs : ℕ → Error) (p : Pool) (n t : ℕ) (ts : List ℕ) (o : Option WorkerPc)
    → Inv n p
    → 0 < n
    → p.run ≡ sending (t ∷ ts)
    → get_elem? p.workers 0 ≡ o
    → Enabled fs p
unfolding step on_hand
first_worker_acts fs p n t ts (some idle) v few f g =
    let s = subst (λ r. Stage r p) f v.stage in
    (hand 0, record (at p 0 (running t)) { run = sending ts }, silent, ground (arith, f, g, s), tt)
first_worker_acts fs p n t ts (some (running y)) v few f g =
    worker_acts fs p 0 (running y) g (omega arith)
      (omega (arith, v.waits, total-get_elem? busy p.workers 0 g))
first_worker_acts fs p n t ts (some (counting y)) v few f g =
    worker_acts fs p 0 (counting y) g (omega arith)
      (omega (arith, v.waits, total-get_elem? busy p.workers 0 g))
first_worker_acts fs p n t ts (some gone) v few f g =
    let s = subst (λ r. Stage r p) f v.stage in
    absurd (omega (arith, s.1, total-get_elem? has_gone p.workers 0 g))
first_worker_acts fs p n t ts none v few f g =
    absurd (get_elem?-lt p.workers 0 (omega (arith, v.size)) g)

waiting_acts :
    (fs : ℕ → Error) (p : Pool) (n k : ℕ)
    → Inv n p
    → p.run ≡ waiting
    → p.wait_group ≡ k
    → Enabled fs p
unfolding step on_wait
waiting_acts fs p n zero v f w =
    (end_wait, record p { run = returned }, silent, ground (arith, f, w), tt)
waiting_acts fs p n (suc k) v f w =
    let (i, c, g, b) =
      total-pos busy p.workers (omega (arith, v.waits, ap (λ r. length (unsent r)) f)) in
    worker_acts fs p i c g b (omega arith)

never_stuck :
    (fs : ℕ → Error) (p : Pool) (n : ℕ) (r : RunPc)
    → Inv n p
    → 0 < n
    → p.run ≡ r
    → (r ≡ returned) ⊎ Enabled fs p
unfolding step on_close
never_stuck fs p n (sending (t ∷ ts)) v few f =
    inr (first_worker_acts fs p n t ts (get_elem? p.workers 0) v few f refl)
never_stuck fs p n (sending []) v few f =
    let s = subst (λ r. Stage r p) f v.stage in
    inr (
      close_tasks,
      record p { run = waiting; tasks_closed = true },
      silent,
      ground (arith, f, s),
      tt,
    )
never_stuck fs p n waiting v few f = inr (waiting_acts fs p n p.wait_group v f refl)
never_stuck fs p n returned v few f = inl refl

-- A run that goes on from a state until `Run` has returned, in which each task that is performed
-- returns what `fs` says.
abbrev pub Returns : (ℕ → Error) → List ℕ → ℕ → List Event → Type 0
Returns fs tasks n es =
    (p' : Pool) × (new : List Event) × Reach tasks n p' (new ++ es)
    × (p'.run ≡ returned)
    × All (Obeys fs) new

goes_on :
    (fs : ℕ → Error) (k : ℕ) {tasks : List ℕ} {n : ℕ} {p : Pool} {es : List Event}
    → 0 < n
    → Reach tasks n p es
    → work_left p ≤ k
    → (p.run ≡ returned) ⊎ Enabled fs p
    → Returns fs tasks n es
goes_on fs k {p = p} few r b (inl e) = (p, [], r, e, tt)
goes_on fs zero {p = p} few r b (inr (a, p', e, h, o)) = absurd (omega (arith, step-lt p a h))
goes_on fs (suc k) {tasks} {n} {p} {es} few r b (inr (a, p', e, h, o)) =
    let r' = later r a h in
    let (q, new, r'', f, os) =
      goes_on fs k few r' (omega (arith, step-lt p a h))
        (never_stuck fs p' n p'.run (Reach-Inv r') few refl) in
    (
      q,
      new ++ e ∷ [],
      subst (Reach tasks n q) (sym (append_assoc new (e ∷ []) es)) r'',
      f,
      All-append (Obeys fs) new (e ∷ []) os (o, tt),
    )

-- With at least one worker `Run` returns: from every state that it reaches, and whatever the
-- functions of the tasks return, there is a run on which each task that is performed returns that
-- and at whose end `Run` has returned; and every step makes the work left less, so that no order of
-- the steps goes on for ever.
pub run_completes :
    (fs : ℕ → Error) {tasks : List ℕ} {n : ℕ} {p : Pool} {es : List Event}
    → 0 < n
    → Reach tasks n p es
    → Returns fs tasks n es
      × ((a : Action) (p' : Pool) (e : Event) → step p a ≡ moves p' e → work_left p' < work_left p)
run_completes fs {n = n} {p = p} few r = (
  goes_on fs (work_left p) few r (omega arith) (never_stuck fs p n p.run (Reach-Inv r) few refl),
  λ a p' e h. step-lt p a h,
)
