-- ===== src/Patterns/Builder.antt =====
-- creational/builder/builder/main.go: a director and the builders that it drives.
pub mod Laws
use awesome_patterns.Base.{ℕ, String}

pub record VehicleProduct : Type 0 where
  pub wheels : ℕ
  pub seats : ℕ
  pub structure : String

-- The interface of the builders; `B` is the builder that a call returns, after its change.
pub record BuildProcess (B : Type 0) : Type 0 where
  pub set_wheels : B → B
  pub set_seats : B → B
  pub set_structure : B → B
  pub get_vehicle : B → VehicleProduct

pub construct : {B : Type 0} → BuildProcess B → B → B
construct p b = p.set_wheels (p.set_structure (p.set_seats b))

-- Both builders keep the vehicle.
abbrev pub car_builder : BuildProcess VehicleProduct
car_builder = record {
  set_wheels = λ v. record v { wheels = 4 };
  set_seats = λ v. record v { seats = 5 };
  set_structure = λ v. record v { structure = "Car" };
  get_vehicle = λ v. v;
}

abbrev pub bike_builder : BuildProcess VehicleProduct
bike_builder = record {
  set_wheels = λ v. record v { wheels = 2 };
  set_seats = λ v. record v { seats = 2 };
  set_structure = λ v. record v { structure = "Bike" };
  get_vehicle = λ v. v;
}
