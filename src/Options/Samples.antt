-- ===== src/Options/Samples.antt =====
-- A concrete reading of numbers, for the tests: naturals, where every text is read as the number 20
-- and as an area with all corners 0.
use s_ldm.Common.{ℕ, refl, true, false, arith}
use s_ldm.OptionString.{options_string_declare}
use s_ldm.Options.{DoubleScan, options_initialize, broker_options_inizialize}
use s_ldm.Options.Parse.Finish.Valid.{IsValid}
use s_ldm.Samples.{nat_double}

instance abbrev pub nat_scan : DoubleScan ℕ
nat_scan = record {
  strtod = λ s. record { found = true; range_error = false; value = 20 };
  scan_area = λ s. record { complete = true; min_lat = 0; min_lon = 0; max_lat = 0; max_lon = 0 };
  lowest = 1000;
}

pub options_initialize-IsValid : IsValid (options_initialize {D = ℕ})
unfolding options_initialize options_string_declare broker_options_inizialize
options_initialize-IsValid = record {
  od_json_port = refl;
  ms_rest_port = refl;
  nodejs_port = refl;
  web_port = refl;
  lat_factor = refl;
  lon_factor = refl;
  radius = refl;
  interval = refl;
  periodicity = refl;
  url = refl;
  topic = refl;
  addr = refl;
  nodejs = refl;
  gn_property = refl;
  clients = refl;
  few_clients = omega arith;
}
