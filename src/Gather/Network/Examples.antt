-- ===== src/Gather/Network/Examples.antt =====
-- Two evaluators with the inputs 0 and 1: the first returns 10, the second times out.
use mathlib.Core.Path.{subst}
use awesome_patterns.Base.{ℕ, ◌+◌, ◌≡◌, ◌<◌, refl, false, List, [], ◌∷◌, Option, none, some, Ends}
use awesome_patterns.Channel.{make, try_receive}
use awesome_patterns.Gather.{Evaluated, result, failed, send}
use awesome_patterns.Gather.Network.{
  stored, gone, returned, State, Outcome, moves, blocked, panics, Action, evaluate_task,
  select_result, time_out, deliver, gather_result, gather_error, end_gather, fresh_task, new, store,
  on_evaluate, on_select, on_select_error, on_timeout, on_deliver, on_gather, on_gather_error,
  on_return, of_task, step, Reach, start, later,
}
use awesome_patterns.Gather.Network.Outcomes.{IsGathered, returned-IsGathered}
use awesome_patterns.Gather.Network.Progress.{work_left}
use awesome_patterns.Gather.Network.Ending.{IsOver, Next, gather-Ends}

abbrev evaluate : ℕ → Evaluated ℕ ℕ
evaluate i = result (10 + i)

abbrev timeout : ℕ → ℕ
timeout i = 20 + i

-- A run of some actions, where each of them can be made.
abbrev execute : Outcome ℕ ℕ → List Action → Option (State ℕ ℕ)
execute (moves s) [] = some s
execute (moves s) (a ∷ acts) = execute (step evaluate timeout s a) acts
execute _ acts = none

abbrev Reached : Option (State ℕ ℕ) → Type 0
Reached (some s) = Reach evaluate timeout 2 s
Reached none = Unit

execute-Reach :
    (o : Outcome ℕ ℕ) (acts : List Action) {s' : State ℕ ℕ}
    → ((s : State ℕ ℕ) → o ≡ moves s → Reach evaluate timeout 2 s)
    → execute o acts ≡ some s'
    → Reach evaluate timeout 2 s'
execute-Reach (moves s) [] r h = subst Reached h (r s refl)
execute-Reach (moves s) (a ∷ acts) r h =
    execute-Reach (step evaluate timeout s a) acts (λ s' f. later (r s refl) a f) h
execute-Reach blocked acts r h = cc
execute-Reach panics acts r h = cc

abbrev whole_run : List Action
whole_run =
    time_out 1
    ∷ select_result 0
    ∷ deliver 1
    ∷ deliver 0
    ∷ gather_error
    ∷ evaluate_task 1
    ∷ gather_result
    ∷ end_gather
    ∷ []

abbrev final : State ℕ ℕ
final = record {
  tasks =
      record { inner = stored; ch = make 1; ech = make 1; outer = gone (result 10) }
      ∷ record {
        inner = stored;
        ch = record { buffer = 11 ∷ []; capacity = 1; closed = false };
        ech = make 1;
        outer = gone (failed 21);
      }
      ∷ [];
  channels = record { gather = make 2; errors = make 2 };
  main = returned;
  out = 10 ∷ [];
  errs = 21 ∷ [];
}

final-Reach : Reach evaluate timeout 2 final
unfolding step new fresh_task store on_evaluate on_select on_select_error on_timeout on_deliver
    on_gather on_gather_error on_return of_task send try_receive
final-Reach =
    execute-Reach (step evaluate timeout (new 2) (evaluate_task 0)) whole_run
      (λ s f. later (start refl) (evaluate_task 0) f) refl

returned-IsGathered_example : IsGathered evaluate timeout 2 final
returned-IsGathered_example = returned-IsGathered evaluate timeout final-Reach refl

gather-Ends_example :
    Ends (Next evaluate timeout) IsOver (new {R = ℕ} {E = ℕ} 2)
    × ((t : State ℕ ℕ)
        → Next evaluate timeout (new 2) t
        → work_left t < work_left (new {R = ℕ} {E = ℕ} 2))
gather-Ends_example =
    let r : Reach evaluate timeout 2 (new 2) = start refl in gather-Ends evaluate timeout r
