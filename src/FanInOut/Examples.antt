-- ===== src/FanInOut/Examples.antt =====
-- The numbers 2 and 3 of the program, squared by two goroutines, where the second gets the first.
use mathlib.Core.Path.{subst}
use awesome_patterns.Base.{ℕ, ◌≡◌, ◌≢◌, ◌<◌, refl, true, List, [], ◌∷◌, total, arith, Ends}
use awesome_patterns.FanInOut.{
  emitted, shut, gone, Line, over, State, Outcome, blocked, panics, moves, square, new, on_emit,
  on_gen_end, on_give, on_sq_end, on_output, on_output_end, all_gone, on_wait, on_end, of_line,
  Action, emit, end_gen, give, end_sq, put, end_output, close_out, end_loop, step, Reach, start,
  later,
}
use awesome_patterns.FanInOut.Merged.{merge-squares}
use awesome_patterns.FanInOut.Progress.{work_left}
use awesome_patterns.FanInOut.Ending.{IsOver, Next, merge-Ends}

abbrev nums : List ℕ
nums = 2 ∷ 3 ∷ []

-- A run of some actions, where each of them can be made.
abbrev execute : Outcome → List Action → Outcome
execute o [] = o
execute (moves s) (a ∷ acts) = execute (step s a) acts
execute blocked (a ∷ acts) = blocked
execute panics (a ∷ acts) = panics

abbrev Reached : Outcome → Type 0
Reached (moves s) = Reach 2 nums s
Reached blocked = Unit
Reached panics = Unit

execute-Reach :
    (o : Outcome) (acts : List Action)
    → ((s : State) → o ≡ moves s → Reach 2 nums s)
    → Reached (execute o acts)
execute-Reach (moves s) [] r = r s refl
execute-Reach blocked [] r = tt
execute-Reach panics [] r = tt
execute-Reach (moves s) (a ∷ acts) r = execute-Reach (step s a) acts (λ s' f. later (r s refl) a f)
execute-Reach blocked (a ∷ acts) r = tt
execute-Reach panics (a ∷ acts) r = tt

abbrev whole_run : List Action
whole_run =
    emit 1
    ∷ emit 0
    ∷ give 0
    ∷ give 1
    ∷ put 0
    ∷ put 1
    ∷ end_gen
    ∷ end_sq 1
    ∷ end_sq 0
    ∷ end_output 0
    ∷ end_output 1
    ∷ close_out
    ∷ end_loop
    ∷ []

abbrev line_over : Line
line_over = record { sq = shut; output = gone }

abbrev final : State
final = record {
  gen = emitted;
  lines = line_over ∷ line_over ∷ [];
  closed = true;
  main = over;
  out = 9 ∷ 4 ∷ [];
}

final_reached : execute (moves (new 2 nums)) whole_run ≡ moves final
unfolding step new square on_emit on_gen_end on_give on_sq_end on_output on_output_end all_gone
    on_wait on_end of_line
final_reached = refl

final-Reach : Reach 2 nums final
final-Reach =
    subst Reached final_reached (execute-Reach (moves (new 2 nums)) whole_run (λ s f. start (cc)))

merge-squares_example :
    ((i : ℕ) → step final (put i) ≢ panics)
    × (final.main ≡ over → (w : ℕ → ℕ) → total w final.out ≡ total (λ n. w (square n)) nums)
merge-squares_example = merge-squares final-Reach (omega arith)

merge-Ends_example :
    Ends Next IsOver (new 2 nums)
    × ((t : State) → Next (new 2 nums) t → work_left t < work_left (new 2 nums))
merge-Ends_example = let r : Reach 2 nums (new 2 nums) = start refl in merge-Ends r (omega arith)
