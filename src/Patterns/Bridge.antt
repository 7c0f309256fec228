-- ===== src/Patterns/Bridge.antt =====
-- structural/bridge/main.go: vehicles, and the drivers that drive any of them.
pub mod Laws
use awesome_patterns.Base.{ℕ, ◌/◌, List, [], ◌∷◌, ◌++◌}

-- What is printed: that a vehicle begins to move, or the speed at which a driver drives it.
pub data Line : Type 0 where
  truck_moves car_moves : Line
  rookie_speed old_speed : ℕ → Line

pub data DriverImplementor : Type 0 where
  rookie_driver old_driver : DriverImplementor

pub data VehicleAbstraction : Type 0 where
  truck car : (driver : DriverImplementor) (max_speed : ℕ) → VehicleAbstraction

pub max_speed : VehicleAbstraction → ℕ
max_speed (truck d s) = s
max_speed (car d s) = s

-- `Drive` prints half of the maximal speed for a rookie (`>> 1` of a speed that is not negative).
pub drive : DriverImplementor → VehicleAbstraction → Line
unfolding max_speed
drive rookie_driver v = rookie_speed (max_speed v / 2)
drive old_driver v = old_speed (max_speed v)

pub run : VehicleAbstraction → List Line
unfolding drive
run (truck d s) = truck_moves ∷ drive d (truck d s) ∷ []
run (car d s) = car_moves ∷ drive d (car d s) ∷ []

-- The loop of `main` over its vehicles.
pub run_all : List VehicleAbstraction → List Line
unfolding run
run_all [] = []
run_all (v ∷ vs) = run v ++ run_all vs
