-- ===== src/Patterns/Seesaw.antt =====
-- behavioral/state/main.go: a seesaw whose state object is the side that is up.
pub mod Laws
use awesome_patterns.Base.{List, [], ◌∷◌, ◌++◌}

pub data SeesawState : Type 0 where
  left_state right_state : SeesawState

-- What is printed: that the side is lifted, or that it was lifted already.
pub data Message : Type 0 where
  lifts already : Message

pub lift_left_side : SeesawState → SeesawState × Message
lift_left_side left_state = (left_state, already)
lift_left_side right_state = (left_state, lifts)

pub lift_right_side : SeesawState → SeesawState × Message
lift_right_side left_state = (right_state, lifts)
lift_right_side right_state = (right_state, already)

pub data Push : Type 0 where
  make_left_up make_right_up : Push

pub push : Push → SeesawState → SeesawState × Message
unfolding lift_left_side lift_right_side
push make_left_up s = lift_left_side s
push make_right_up s = lift_right_side s

-- The side that the push lifts.
abbrev pub side : Push → SeesawState
side make_left_up = left_state
side make_right_up = right_state

pub run : List Push → SeesawState → List Message → SeesawState × List Message
unfolding push
run [] s out = (s, out)
run (p ∷ ps) s out = run ps (push p s).0 (out ++ (push p s).1 ∷ [])

-- The messages that fit the sides that are up one after another.
abbrev pub expected : SeesawState → List Push → List Message
expected s [] = []
expected left_state (make_left_up ∷ ps) = already ∷ expected left_state ps
expected right_state (make_right_up ∷ ps) = already ∷ expected right_state ps
expected _ (make_left_up ∷ ps) = lifts ∷ expected left_state ps
expected _ (make_right_up ∷ ps) = lifts ∷ expected right_state ps
