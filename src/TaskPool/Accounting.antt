-- ===== src/TaskPool/Accounting.antt =====
-- Every task of the pool is performed once.
use mathlib.Core.Path.{subst}
use awesome_patterns.Base.{
  ℕ, ◌+◌, ◌≡◌, refl, sym, ap, List, [], ◌∷◌, Option, none, some, arith, get_elem?, total, total-set,
  total-replicate, same, count, ◌==◌, if◌then◌else◌,
}
use awesome_patterns.TaskPool.{
  Error, WorkerPc, idle, running, counting, gone, RunPc, sending, waiting, returned, Pool, new_run,
  Event, silent, performed, moves, on_hand, on_finish, on_count, on_leave, on_close, on_wait,
  Action, hand, finish, count_down, leave, close_tasks, end_wait, step, Reach, start, later,
}
use awesome_patterns.TaskPool.Invariant.{unsent, busy, Stage, Reach-Inv}

abbrev pub has_task : ℕ → WorkerPc → ℕ
has_task x (running y) = same x y
has_task x _ = 0

abbrev pub performances : ℕ → List Event → ℕ
performances x [] = 0
performances x (performed y e ∷ es) = same x y + performances x es
performances x (silent ∷ es) = performances x es

-- The error of the latest performance of a task.
abbrev pub last_error : ℕ → List Event → Error
last_error x [] = none
last_error x (performed y e ∷ es) = let rest = last_error x es in if y == x then e else rest
last_error x (silent ∷ es) = last_error x es

-- Where task `x` is, and what its field `Err` holds.
record Tally (tasks : List ℕ) (x : ℕ) (p : Pool) (es : List Event) : Type 0 where
  accounted :
      count x tasks ≡ count x (unsent p.run) + total (has_task x) p.workers + performances x es
  error : p.errs x ≡ last_error x es

module _ (tasks : List ℕ) (x : ℕ) (p : Pool) (es : List Event) (v : Tally tasks x p es) where
  on_hand-Tally :
      (i : ℕ) (r : RunPc) (o : Option WorkerPc) {p' : Pool} {e : Event}
      → p.run ≡ r
      → get_elem? p.workers i ≡ o
      → on_hand p i r o ≡ moves p' e
      → Tally tasks x p' (e ∷ es)
  unfolding on_hand
  on_hand-Tally i (sending (t ∷ ts)) (some idle) f g h =
      ground
        (arith, v, ap (λ r. count x (unsent r)) f, total-set (has_task x) p.workers i (running t) g)
  on_hand-Tally i (sending (t ∷ ts)) none f g h = cc
  on_hand-Tally i (sending (t ∷ ts)) (some (running _)) f g h = cc
  on_hand-Tally i (sending (t ∷ ts)) (some (counting _)) f g h = cc
  on_hand-Tally i (sending (t ∷ ts)) (some gone) f g h = cc
  on_hand-Tally i (sending []) o f g h = cc
  on_hand-Tally i waiting o f g h = cc
  on_hand-Tally i returned o f g h = cc

  on_finish-Tally :
      (i : ℕ) (y : Error) (o : Option WorkerPc) {p' : Pool} {e : Event}
      → get_elem? p.workers i ≡ o
      → on_finish p i y o ≡ moves p' e
      → Tally tasks x p' (e ∷ es)
  unfolding on_finish
  on_finish-Tally i y (some (running t)) g h =
      ground (arith, v, total-set (has_task x) p.workers i (counting t) g)
  on_finish-Tally i y (some idle) g h = cc
  on_finish-Tally i y (some (counting t)) g h = cc
  on_finish-Tally i y (some gone) g h = cc
  on_finish-Tally i y none g h = cc

  on_count-Tally :
      (i : ℕ) (o : Option WorkerPc) {p' : Pool} {e : Event}
      → get_elem? p.workers i ≡ o
      → on_count p i o ≡ moves p' e
      → Tally tasks x p' (e ∷ es)
  unfolding on_count
  on_count-Tally i (some (counting t)) g h =
      ground (arith, v, total-set (has_task x) p.workers i idle g)
  on_count-Tally i (some idle) g h = cc
  on_count-Tally i (some (running t)) g h = cc
  on_count-Tally i (some gone) g h = cc
  on_count-Tally i none g h = cc

  on_leave-Tally :
      (i : ℕ) (o : Option WorkerPc) {p' : Pool} {e : Event}
      → get_elem? p.workers i ≡ o
      → on_leave p i o ≡ moves p' e
      → Tally tasks x p' (e ∷ es)
  unfolding on_leave
  on_leave-Tally i (some idle) g h = ground (arith, v, total-set (has_task x) p.workers i gone g)
  on_leave-Tally i (some (running t)) g h = cc
  on_leave-Tally i (some (counting t)) g h = cc
  on_leave-Tally i (some gone) g h = cc
  on_leave-Tally i none g h = cc

  on_close-Tally :
      (r : RunPc) {p' : Pool} {e : Event}
      → p.run ≡ r
      → on_close p r ≡ moves p' e
      → Tally tasks x p' (e ∷ es)
  unfolding on_close
  on_close-Tally (sending []) f h = ground (arith, v, ap (λ r. count x (unsent r)) f)
  on_close-Tally (sending (t ∷ ts)) f h = cc
  on_close-Tally waiting f h = cc
  on_close-Tally returned f h = cc

  on_wait-Tally :
      (r : RunPc) {p' : Pool} {e : Event}
      → p.run ≡ r
      → on_wait p r ≡ moves p' e
      → Tally tasks x p' (e ∷ es)
  unfolding on_wait
  on_wait-Tally waiting f h = ground (arith, v, ap (λ r. count x (unsent r)) f)
  on_wait-Tally (sending ts) f h = cc
  on_wait-Tally returned f h = cc

  step-Tally :
      (a : Action) {p' : Pool} {e : Event} → step p a ≡ moves p' e → Tally tasks x p' (e ∷ es)
  unfolding step
  step-Tally (hand i) h = on_hand-Tally i p.run (get_elem? p.workers i) refl refl h
  step-Tally (finish i y) h = on_finish-Tally i y (get_elem? p.workers i) refl h
  step-Tally (count_down i) h = on_count-Tally i (get_elem? p.workers i) refl h
  step-Tally (leave i) h = on_leave-Tally i (get_elem? p.workers i) refl h
  step-Tally close_tasks h = on_close-Tally p.run refl h
  step-Tally end_wait h = on_wait-Tally p.run refl h

new_run-Tally : (tasks : List ℕ) (n x : ℕ) → Tally tasks x (new_run tasks n) []
unfolding new_run
new_run-Tally tasks n x = record {
  accounted = omega (arith, total-replicate (has_task x) n idle refl);
  error = refl;
}

Reach-Tally :
    {tasks : List ℕ} {n : ℕ} {p : Pool} {es : List Event} (x : ℕ)
    → Reach tasks n p es
    → Tally tasks x p es
Reach-Tally {tasks} {n} x (start e) =
    subst (λ p. Tally tasks x p []) (sym e) (new_run-Tally tasks n x)
Reach-Tally {tasks} x (later {p = p} {es = es} r a h) =
    step-Tally tasks x p es (Reach-Tally x r) a h

idle_has_no_task : (x : ℕ) (ws : List WorkerPc) → total busy ws ≡ 0 → total (has_task x) ws ≡ 0
idle_has_no_task x [] h = refl
idle_has_no_task x (idle ∷ ws) h = omega (arith, idle_has_no_task x ws (omega arith))
idle_has_no_task x (running t ∷ ws) h = absurd (omega arith)
idle_has_no_task x (counting t ∷ ws) h = absurd (omega arith)
idle_has_no_task x (gone ∷ ws) h = omega (arith, idle_has_no_task x ws (omega arith))

-- When `Run` has returned, every task has been performed just as often as it is in the list, and its
-- field `Err` has the error of its last performance.
pub run_performs_all :
    {tasks : List ℕ} {n : ℕ} {p : Pool} {es : List Event}
    → Reach tasks n p es
    → p.run ≡ returned
    → (x : ℕ) → (performances x es ≡ count x tasks) × (p.errs x ≡ last_error x es)
run_performs_all {p = p} r f x =
    let v = Reach-Inv r in
    let t = Reach-Tally x r in
    let none_waits : p.wait_group ≡ 0 = subst (λ r. Stage r p) f v.stage in
    let all_sent = ap unsent f in
    let ended = idle_has_no_task x p.workers (omega (arith, v.waits, none_waits)) in
    (omega (arith, t.accounted, ended, ap (count x) all_sent), t.error)
