-- ===== src/Patterns/Seesaw/Laws.antt =====
-- The messages of a sequence of pushes.
use awesome_patterns.Base.{◌≡◌, refl, sym, ap, ◌∙◌, List, [], ◌∷◌, ◌++◌, append-nil, append_assoc}
use awesome_patterns.Patterns.Seesaw.{
  SeesawState, left_state, right_state, Message, lift_left_side, lift_right_side, Push,
  make_left_up, make_right_up, push, side, run, expected,
}

-- The side that is up after pushes from a state.
abbrev pub last_side : SeesawState → List Push → SeesawState
last_side s [] = s
last_side s (p ∷ ps) = last_side (side p) ps

push_lem : (p : Push) (s : SeesawState) → push p s ≡ (side p, (push p s).1)
unfolding push lift_left_side lift_right_side
push_lem make_left_up left_state = refl
push_lem make_left_up right_state = refl
push_lem make_right_up left_state = refl
push_lem make_right_up right_state = refl

expected-push :
    (p : Push) (ps : List Push) (s : SeesawState)
    → expected s (p ∷ ps) ≡ (push p s).1 ∷ expected (side p) ps
unfolding push lift_left_side lift_right_side
expected-push make_left_up ps left_state = refl
expected-push make_left_up ps right_state = refl
expected-push make_right_up ps left_state = refl
expected-push make_right_up ps right_state = refl

-- The side that is up is the one of the last push, and the messages say for each push whether its
-- side was up before.
pub run_lem :
    (ps : List Push) (s : SeesawState) (out : List Message)
    → run ps s out ≡ (last_side s ps, out ++ expected s ps)
unfolding run
run_lem [] s out = ap (λ ms. (s, ms)) (sym (append-nil out))
run_lem (p ∷ ps) s out =
    run_lem ps (push p s).0 (out ++ (push p s).1 ∷ [])
    ∙ ap (λ t. (last_side t ps, (out ++ (push p s).1 ∷ []) ++ expected t ps))
        (ap (λ q. q.0) (push_lem p s))
    ∙ ap (λ ms. (last_side (side p) ps, ms))
        (append_assoc out ((push p s).1 ∷ []) (expected (side p) ps)
          ∙ ap (λ ms. out ++ ms) (sym (expected-push p ps s)))
