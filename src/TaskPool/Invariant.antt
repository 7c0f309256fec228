-- ===== src/TaskPool/Invariant.antt =====
-- How the workers and `Run` stand to one another in every reachable state.
use mathlib.Core.Path.{subst}
use awesome_patterns.Base.{
  ℕ, ◌+◌, ◌≡◌, refl, sym, ap, ◌∙◌, ◌-◌, ◌≤◌, true, false, List, [], ◌∷◌, Option, none, some, arith,
  length, length-set, length-replicate, get_elem?, total, total-set, total-replicate,
  total-get_elem?, ◌==◌, if◌then◌else◌,
}
use awesome_patterns.TaskPool.{
  Error, WorkerPc, idle, running, counting, gone, RunPc, sending, waiting, returned, Pool, new_run,
  Event, at, moves, on_hand, on_finish, on_count, on_leave, on_close, on_wait, Action, hand, finish,
  count_down, leave, close_tasks, end_wait, step, Reach, start, later,
}

-- The tasks that are not yet sent.
abbrev pub unsent : RunPc → List ℕ
unsent (sending ts) = ts
unsent _ = []

-- A worker that has a task to count, and one that has ended.
abbrev pub busy : WorkerPc → ℕ
busy (running t) = 1
busy (counting t) = 1
busy _ = 0

abbrev pub has_gone : WorkerPc → ℕ
has_gone gone = 1
has_gone _ = 0

abbrev pub Stage : RunPc → Pool → Type 0
Stage (sending ts) p = (p.tasks_closed ≡ false) × (total has_gone p.workers ≡ 0)
Stage waiting p = p.tasks_closed ≡ true
Stage returned p = p.wait_group ≡ 0

pub record Inv (n : ℕ) (p : Pool) : Type 0 where
  pub size : length p.workers ≡ n
  pub waits : p.wait_group ≡ length (unsent p.run) + total busy p.workers
  pub stage : Stage p.run p

module _ (n : ℕ) (p : Pool) (v : Inv n p) where
  Stage-at : {r : RunPc} → p.run ≡ r → Stage r p
  Stage-at f = subst (λ r. Stage r p) f v.stage

  waits_at : {r : RunPc} → p.run ≡ r → p.wait_group ≡ length (unsent r) + total busy p.workers
  waits_at f = v.waits ∙ ap (λ r. length (unsent r) + total busy p.workers) f

  -- A worker goes on while `Run` stays where it is.
  stays :
      (i : ℕ) (c c' : WorkerPc) (k : ℕ) (errs : ℕ → Error) (r : RunPc)
      → p.run ≡ r
      → get_elem? p.workers i ≡ some c
      → k + busy c ≡ p.wait_group + busy c'
      → has_gone c ≡ has_gone c'
      → busy c' ≤ busy c
      → Inv n (record (at p i c') { wait_group = k; errs = errs })
  stays i c c' k errs (sending ts) f g a b d = record {
    size = length-set p.workers i c' ∙ v.size;
    waits = omega (arith, v.waits, total-set busy p.workers i c' g);
    stage =
        subst (λ r. Stage r (record (at p i c') { wait_group = k; errs = errs })) (sym f)
          ((Stage-at f).0, omega (arith, (Stage-at f).1, total-set has_gone p.workers i c' g));
  }
  stays i c c' k errs waiting f g a b d = record {
    size = length-set p.workers i c' ∙ v.size;
    waits = omega (arith, v.waits, total-set busy p.workers i c' g);
    stage =
        subst (λ r. Stage r (record (at p i c') { wait_group = k; errs = errs })) (sym f)
          (Stage-at f);
  }
  stays i c c' k errs returned f g a b d = record {
    size = length-set p.workers i c' ∙ v.size;
    waits = omega (arith, v.waits, total-set busy p.workers i c' g);
    stage =
        subst (λ r. Stage r (record (at p i c') { wait_group = k; errs = errs })) (sym f)
          (omega (arith, Stage-at f, waits_at f, total-get_elem? busy p.workers i g));
  }

  on_hand-Inv :
      (i : ℕ) (r : RunPc) (o : Option WorkerPc) {p' : Pool} {e : Event}
      → p.run ≡ r
      → get_elem? p.workers i ≡ o
      → on_hand p i r o ≡ moves p' e
      → Inv n p'
  unfolding on_hand
  on_hand-Inv i (sending (t ∷ ts)) (some idle) f g h =
      let s = Stage-at f in
      subst (Inv n) {x = record (at p i (running t)) { run = sending ts }} (ground (arith, s))
        (record {
          size = length-set p.workers i (running t) ∙ v.size;
          waits = omega (arith, waits_at f, total-set busy p.workers i (running t) g);
          stage = (s.0, omega (arith, s.1, total-set has_gone p.workers i (running t) g));
        })
  on_hand-Inv i (sending (t ∷ ts)) none f g h = cc
  on_hand-Inv i (sending (t ∷ ts)) (some (running _)) f g h = cc
  on_hand-Inv i (sending (t ∷ ts)) (some (counting _)) f g h = cc
  on_hand-Inv i (sending (t ∷ ts)) (some gone) f g h = cc
  on_hand-Inv i (sending []) o f g h = cc
  on_hand-Inv i waiting o f g h = cc
  on_hand-Inv i returned o f g h = cc

  on_finish-Inv :
      (i : ℕ) (x : Error) (o : Option WorkerPc) {p' : Pool} {e : Event}
      → get_elem? p.workers i ≡ o
      → on_finish p i x o ≡ moves p' e
      → Inv n p'
  unfolding on_finish
  on_finish-Inv i x (some (running t)) g h = subst (Inv n) (cc) (
      stays i (running t) (counting t) p.wait_group (λ y. if t == y then x else p.errs y) p.run refl
        g refl refl (omega arith))
  on_finish-Inv i x (some idle) g h = cc
  on_finish-Inv i x (some (counting t)) g h = cc
  on_finish-Inv i x (some gone) g h = cc
  on_finish-Inv i x none g h = cc

  on_count-Inv :
      (i : ℕ) (o : Option WorkerPc) {p' : Pool} {e : Event}
      → get_elem? p.workers i ≡ o
      → on_count p i o ≡ moves p' e
      → Inv n p'
  unfolding on_count
  on_count-Inv i (some (counting t)) g h =
      let pos = total-get_elem? busy p.workers i g in
      subst (Inv n) {x = record (at p i idle) { wait_group = p.wait_group - 1 }}
        (ground (arith, v.waits, pos))
        (stays i (counting t) idle (p.wait_group - 1) p.errs p.run refl g
          (omega (arith, v.waits, pos)) refl (omega arith))
  on_count-Inv i (some idle) g h = cc
  on_count-Inv i (some (running t)) g h = cc
  on_count-Inv i (some gone) g h = cc
  on_count-Inv i none g h = cc

  on_leave-Inv :
      (i : ℕ) (o : Option WorkerPc) (r : RunPc) {p' : Pool} {e : Event}
      → p.run ≡ r
      → get_elem? p.workers i ≡ o
      → on_leave p i o ≡ moves p' e
      → Inv n p'
  unfolding on_leave
  on_leave-Inv i (some idle) (sending ts) f g h = absurd (ground (arith, Stage-at f))
  on_leave-Inv i (some idle) waiting f g h =
      subst (Inv n) {x = at p i gone} (ground arith) (record {
        size = length-set p.workers i gone ∙ v.size;
        waits = omega (arith, v.waits, total-set busy p.workers i gone g);
        stage = subst (λ r. Stage r (at p i gone)) (sym f) (Stage-at f);
      })
  on_leave-Inv i (some idle) returned f g h =
      subst (Inv n) {x = at p i gone} (ground arith) (record {
        size = length-set p.workers i gone ∙ v.size;
        waits = omega (arith, v.waits, total-set busy p.workers i gone g);
        stage = subst (λ r. Stage r (at p i gone)) (sym f) (Stage-at f);
      })
  on_leave-Inv i (some (running t)) r f g h = cc
  on_leave-Inv i (some (counting t)) r f g h = cc
  on_leave-Inv i (some gone) r f g h = cc
  on_leave-Inv i none r f g h = cc

  on_close-Inv :
      (r : RunPc) {p' : Pool} {e : Event} → p.run ≡ r → on_close p r ≡ moves p' e → Inv n p'
  unfolding on_close
  on_close-Inv (sending []) f h =
      let s = Stage-at f in
      subst (Inv n) {x = record p { run = waiting; tasks_closed = true }} (ground (arith, s))
        (record { size = v.size; waits = waits_at f; stage = refl })
  on_close-Inv (sending (t ∷ ts)) f h = cc
  on_close-Inv waiting f h = cc
  on_close-Inv returned f h = cc

  on_wait-Inv :
      (r : RunPc) {p' : Pool} {e : Event} → p.run ≡ r → on_wait p r ≡ moves p' e → Inv n p'
  unfolding on_wait
  on_wait-Inv waiting f h =
      subst (Inv n) {x = record p { run = returned }} (ground arith)
        (record { size = v.size; waits = waits_at f; stage = ground arith })
  on_wait-Inv (sending ts) f h = cc
  on_wait-Inv returned f h = cc

  step-Inv : (a : Action) {p' : Pool} {e : Event} → step p a ≡ moves p' e → Inv n p'
  unfolding step
  step-Inv (hand i) h = on_hand-Inv i p.run (get_elem? p.workers i) refl refl h
  step-Inv (finish i x) h = on_finish-Inv i x (get_elem? p.workers i) refl h
  step-Inv (count_down i) h = on_count-Inv i (get_elem? p.workers i) refl h
  step-Inv (leave i) h = on_leave-Inv i (get_elem? p.workers i) p.run refl refl h
  step-Inv close_tasks h = on_close-Inv p.run refl h
  step-Inv end_wait h = on_wait-Inv p.run refl h

new_run-Inv : (tasks : List ℕ) (n : ℕ) → Inv n (new_run tasks n)
unfolding new_run
new_run-Inv tasks n = record {
  size = length-replicate n idle;
  waits = omega (arith, total-replicate busy n idle refl);
  stage = (refl, total-replicate has_gone n idle refl);
}

pub Reach-Inv : {tasks : List ℕ} {n : ℕ} {p : Pool} {es : List Event} → Reach tasks n p es → Inv n p
Reach-Inv {tasks} {n} (start e) = subst (Inv n) (sym e) (new_run-Inv tasks n)
Reach-Inv {n = n} (later {p = p} r a h) = step-Inv n p (Reach-Inv r) a h
