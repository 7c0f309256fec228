-- ===== src/Patterns/Builder/Laws.antt =====
-- What the director constructs.
use awesome_patterns.Base.{◌≡◌, refl}
use awesome_patterns.Patterns.Builder.{VehicleProduct, construct, car_builder, bike_builder}

-- From any vehicle the director's car has four wheels and five seats, its bike two wheels and two
-- seats: nothing is left of the vehicle before.
pub construct_vehicles :
    (v : VehicleProduct)
    → (car_builder.get_vehicle (construct car_builder v)
        ≡ record { wheels = 4; seats = 5; structure = "Car" })
      × (bike_builder.get_vehicle (construct bike_builder v)
          ≡ record { wheels = 2; seats = 2; structure = "Bike" })
unfolding construct
construct_vehicles v = (refl, refl)
