-- ===== src/Patterns/Bridge/Laws.antt =====
-- No driver is faster than the vehicle.
use awesome_patterns.Base.{ℕ, ◌≤◌, All, arith}
use awesome_patterns.Patterns.Bridge.{
  Line, truck_moves, car_moves, rookie_speed, old_speed, rookie_driver, old_driver,
  VehicleAbstraction, truck, car, max_speed, drive, run,
}

-- The speed of a line, 0 for one that has none.
abbrev pub line_speed : Line → ℕ
line_speed truck_moves = 0
line_speed car_moves = 0
line_speed (rookie_speed s) = s
line_speed (old_speed s) = s

-- Each speed that a run prints is at most the maximal speed of the vehicle.
pub run-le-max_speed : (v : VehicleAbstraction) → All (λ l. line_speed l ≤ max_speed v) (run v)
unfolding run drive max_speed
run-le-max_speed (truck rookie_driver s) = (omega arith, (omega arith, tt))
run-le-max_speed (truck old_driver s) = (omega arith, (omega arith, tt))
run-le-max_speed (car rookie_driver s) = (omega arith, (omega arith, tt))
run-le-max_speed (car old_driver s) = (omega arith, (omega arith, tt))
