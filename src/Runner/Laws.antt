-- ===== src/Runner/Laws.antt =====
-- What `run` calls and returns, and what becomes of its goroutine.
use awesome_patterns.Base.{
  ℕ, suc, ◌≡◌, ◌≢◌, refl, ap, sym, ◌∙◌, Bool, true, false, List, [], ◌∷◌, Option, none, some, arith,
}
use awesome_patterns.Runner.{
  Runner, Error, received_timeout, received_interrupt, run_from, run, Goroutine, running, sending,
  finished, Started, Move, run_ends, completes, times_out, complete, end_run, time_out, step,
}

-- The tasks from `id` on, each with its index.
abbrev pub numbered : ℕ → List ℕ → List (ℕ × ℕ)
numbered id [] = []
numbered id (task ∷ tasks) = (task, id) ∷ numbered (suc id) tasks

-- The calls up to the first signal.
abbrev pub before : List Bool → List (ℕ × ℕ) → List (ℕ × ℕ)
before signals [] = []
before [] (c ∷ cs) = c ∷ cs
before (true ∷ signals) (c ∷ cs) = []
before (false ∷ signals) (c ∷ cs) = c ∷ before signals cs

-- Whether a signal comes before one of the tasks.
abbrev pub interrupted : List Bool → List (ℕ × ℕ) → Option Error
interrupted signals [] = none
interrupted [] (c ∷ cs) = none
interrupted (true ∷ signals) (c ∷ cs) = some received_interrupt
interrupted (false ∷ signals) (c ∷ cs) = interrupted signals cs

before-nil : (cs : List (ℕ × ℕ)) → before [] cs ≡ cs
before-nil [] = refl
before-nil (c ∷ cs) = refl

interrupted-nil : (cs : List (ℕ × ℕ)) → interrupted [] cs ≡ none
interrupted-nil [] = refl
interrupted-nil (c ∷ cs) = refl

run_from-lem :
    (r : Runner) (id : ℕ) (tasks : List ℕ) (signals : List Bool)
    → r.interrupt ≡ false
    → ((run_from r id tasks signals).0 ≡ before signals (numbered id tasks))
      × ((run_from r id tasks signals).1 ≡ interrupted signals (numbered id tasks))
unfolding run_from
run_from-lem r id [] signals h = (refl, refl)
run_from-lem r id (t ∷ ts) [] h =
    let ih = run_from-lem r (suc id) ts [] h in
    (
      ground (arith, ih.0, before-nil (numbered (suc id) ts)),
      ground (arith, ih.1, interrupted-nil (numbered (suc id) ts)),
    )
run_from-lem r id (t ∷ ts) (true ∷ ss) h = (refl, refl)
run_from-lem r id (t ∷ ts) (false ∷ ss) h =
    let ih = run_from-lem r (suc id) ts ss h in (ground (arith, ih.0), ground (arith, ih.1))

-- Without a signal pending, `run` calls the tasks in order, each with its index, up to the first one
-- before which a signal has come; it returns `ErrInterrupt` if there is such a one, and nil if not.
run_lem :
    (r : Runner) (signals : List Bool)
    → r.interrupt ≡ false
    → ((run r signals).0 ≡ before signals (numbered 0 r.tasks))
      × ((run r signals).1 ≡ interrupted signals (numbered 0 r.tasks))
unfolding run
run_lem r signals h = run_from-lem r 0 r.tasks signals h

before-interrupted :
    (signals : List Bool) (cs : List (ℕ × ℕ))
    → interrupted signals cs ≡ none
    → before signals cs ≡ cs
before-interrupted signals [] h = refl
before-interrupted [] (c ∷ cs) h = refl
before-interrupted (true ∷ ss) (c ∷ cs) h = cc
before-interrupted (false ∷ ss) (c ∷ cs) h = ap (◌∷◌ c) (before-interrupted ss cs h)

-- A nil error of `run` means that every task was called, in order and with its index.
pub run_complete :
    (r : Runner) (signals : List Bool)
    → r.interrupt ≡ false
    → (run r signals).1 ≡ none
    → (run r signals).0 ≡ numbered 0 r.tasks
run_complete r signals h e =
    let (calls, result) = run_lem r signals h in
    calls ∙ before-interrupted signals (numbered 0 r.tasks) (sym result ∙ e)

-- `Start` has returned and the goroutine of `run` has not ended.
abbrev pub IsStranded : Started → Type 0
IsStranded s = (s.result ≢ none) × (s.goroutine ≢ finished)

complete-stranded :
    (s : Started) (g : Goroutine) (o : Option (Option Error)) {s' : Started}
    → o ≢ none
    → complete s g o ≢ some s'
unfolding complete
complete-stranded s (sending e) none n h = n refl
complete-stranded s (sending e) (some r) n h = cc
complete-stranded s running o n h = cc
complete-stranded s finished o n h = cc

end_run-IsStranded :
    (s : Started) (g : Goroutine) (e : Option Error) {s' : Started}
    → s.result ≢ none
    → end_run s g e ≡ some s'
    → IsStranded s'
unfolding end_run
end_run-IsStranded s running e n h = (ground arith, ground arith)
end_run-IsStranded s (sending _) e n h = cc
end_run-IsStranded s finished e n h = cc

-- A goroutine that is not done when `Start` returns never ends: from `Start`'s return on no step
-- receives what it sends. `Start` returns so whenever the timeout wins.
pub timed_out-IsStranded :
    (s : Started) {s' : Started}
    → ((s.goroutine ≢ finished) → step s times_out ≡ some s' → IsStranded s')
      × ((m : Move) → IsStranded s → step s m ≡ some s' → IsStranded s')
unfolding step time_out
timed_out-IsStranded s = (
  λ n h. (ground arith, ground arith),
  elim [
    | run_ends e ↦ λ q h. end_run-IsStranded s s.goroutine e q.0 h
    | completes ↦ λ q h. absurd (complete-stranded s s.goroutine s.result q.0 h)
    | times_out ↦ λ q h. (ground arith, ground arith)
  ],
)

-- `Start` returns: while it waits the timeout can come, and it returns no other results than that of
-- the timeout and that of `run`.
pub start_returns :
    (s : Started)
    → s.result ≡ none
    → (step s times_out ≡ some (record s { result = some (some received_timeout) }))
      × ((e : Option Error)
          → s.goroutine ≡ sending e
          → step s completes ≡ some (record { goroutine = finished; result = some e }))
unfolding step time_out complete
start_returns s h = (ground arith, λ e f. ground arith)
