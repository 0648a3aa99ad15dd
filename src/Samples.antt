-- ===== src/Samples.antt =====
-- A concrete arithmetic and a concrete vehicle, for the tests. The numbers are naturals with a
-- subtraction that stops at 0; the functions of math.h are not looked at by a test.
use s_ldm.Common.{[], ◌∷◌, refl, arith, ℕ, ◌+◌, ◌-◌, ◌*◌, ◌/◌, none, leb, ltb}
use s_ldm.Double.{Double}
use s_ldm.Ldm.{LdmMap}
use s_ldm.PathHistory.{PhData, PhPoints, new_with}
use s_ldm.PathHistory.Ring.{IsRing}
use s_ldm.Vehicle.{VehicleData}

instance abbrev pub nat_double : Double ℕ
nat_double = record {
  of_ℕ = λ n. n;
  add = λ a b. a + b;
  sub = λ a b. a - b;
  mul = λ a b. a * b;
  div = λ a b. a / b;
  le = leb;
  lt = ltb;
  sin = λ x. x;
  cos = λ x. 1;
  asin = λ x. x;
  sqrt = λ x. x;
  fabs = λ x. x;
  pi = 3;
}

-- a vehicle with a station ID, a position and the time of its last update
abbrev pub vehicle : (station_id lat lon timestamp_us : ℕ) → VehicleData ℕ
vehicle station_id lat lon timestamp_us = record {
  station_id = station_id;
  lat = lat;
  lon = lon;
  elevation = 0;
  heading = 0;
  speed_ms = 0;
  gn_timestamp = 0;
  cam_timestamp = 0;
  timestamp_us = timestamp_us;
  on_msg_timestamp_us = 0;
  vehicle_width = none;
  vehicle_length = none;
  station_type = 5;
  source_quadkey = "";
  exterior_lights = none;
}

abbrev pub no_point : PhData ℕ
no_point = record { lat = 0; lon = 0; elev = 0; heading = 0; point_distance = 0 }

-- an array for two points, with no point yet
abbrev pub no_points : PhPoints ℕ
no_points = new_with 20 10 20 10 2 0 (no_point ∷ no_point ∷ [])

pub no_points-IsRing : IsRing no_points
unfolding new_with
no_points-IsRing = record {
  memory = refl;
  next = omega arith;
  oldest = omega arith;
  bounded = omega arith;
}

-- a database with one vehicle
abbrev pub stored : LdmMap ℕ (PhPoints ℕ)
stored = record {
  ldmmap = (0, (7, record { veh_data = vehicle 7 45 9 1000; ph_data = 0 }) ∷ []) ∷ [];
  card = 1;
  central_lat = 0;
  central_lon = 0;
  heap = (0, no_points) ∷ [];
  next = 1;
}
