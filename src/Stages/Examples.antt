-- ===== src/Stages/Examples.antt =====
-- `run` of the pipeline on the integers 1 and 2.
use mathlib.Core.Path.{subst}
use awesome_patterns.Base.{
  ℕ, ◌*◌, ◌%◌, ◌^◌, ◌≡◌, ◌<◌, refl, List, [], ◌∷◌, ◌++◌, map, Option, none, some, Ends,
}
use awesome_patterns.Stages.{
  ended, generated, stage, drained, State, Action, receive_at, finish_at, consume, end_loop,
  multiply, add, new, offer, has_ended, below, taken, receive, finish, with_chain, on_consume,
  on_end, step, start_of, Reach, start, later,
}
use awesome_patterns.Stages.Order.{Sent, through, run_stages, outputs-Sent, run-multiplies}
use awesome_patterns.Stages.Ending.{IsOver, Next, pipeline-Ends}
use awesome_patterns.Stages.Progress.{work_left}

abbrev integers : List ℕ
integers = 1 ∷ 2 ∷ []

-- A run of some actions, where each of them can be made.
abbrev execute : Option (State ℕ) → List Action → Option (State ℕ)
execute o [] = o
execute (some s) (a ∷ acts) = execute (step s a) acts
execute none (a ∷ acts) = none

abbrev Reached : Option (State ℕ) → Type 0
Reached (some s) = Reach (run_stages 1) integers s
Reached none = Unit

execute-Reach :
    (o : Option (State ℕ)) (acts : List Action)
    → ((s : State ℕ) → o ≡ some s → Reach (run_stages 1) integers s)
    → Reached (execute o acts)
execute-Reach none [] r = tt
execute-Reach (some s) [] r = r s refl
execute-Reach (some s) (a ∷ acts) r = execute-Reach (step s a) acts (λ s' f. later (r s refl) a f)
execute-Reach none (a ∷ acts) r = tt

abbrev pass_one : List Action
pass_one = receive_at 2 ∷ receive_at 1 ∷ receive_at 0 ∷ consume ∷ []

abbrev whole_run : List Action
whole_run =
    pass_one ++ pass_one ++ (finish_at 3 ∷ finish_at 2 ∷ finish_at 1 ∷ finish_at 0 ∷ end_loop ∷ [])

abbrev result : State ℕ
result = record {
  chain = stage (multiply 2) ended (stage (add 1) ended (stage (multiply 2) ended generated));
  out = 4 ∷ 8 ∷ [];
  loop = drained;
}

result_reached : execute (some (start_of (run_stages 1) integers)) whole_run ≡ some result
unfolding step start_of new offer has_ended below taken receive finish with_chain on_consume on_end
    multiply add
result_reached = refl

result-Reach : Reach (run_stages 1) integers result
result-Reach =
    subst Reached result_reached
      (execute-Reach (some (start_of (run_stages 1) integers)) whole_run (λ s f. start (cc)))

outputs-Sent_example : Sent (map (through (run_stages 1)) integers) result drained
outputs-Sent_example = outputs-Sent (run_stages 1) integers result-Reach

run-multiplies_example : (4 ∷ 8 ∷ []) ≡ map (λ i. i * 4 % 2 ^ 64) integers
run-multiplies_example = run-multiplies 1 integers result-Reach refl

pipeline-Ends_example :
    Ends Next IsOver (start_of (run_stages 1) integers)
    × ((t : State ℕ)
        → Next (start_of (run_stages 1) integers) t
        → work_left t < work_left (start_of (run_stages 1) integers))
pipeline-Ends_example = pipeline-Ends (start_of (run_stages 1) integers)
