-- ===== src/AmqpClient/Samples.antt =====
-- A message with a CAM without GeoNetworking, and the client that handles it, for the tests.
use s_ldm.AmqpClient.{Cam, CamView, ProtonMessage, other, Header}
use s_ldm.AmqpClient.Message.{Client, Surroundings, Memory}
use s_ldm.Common.{ℕ, ◌-◌, ◌^◌, true, false, none, some, [], ◌∷◌}
use s_ldm.Common.Int.{pos}
use s_ldm.Decoder.Frontend.{decoded_error}
use s_ldm.Decoder.Samples.{counting_asn, fresh, fresh_btp}
use s_ldm.Options.{options_initialize}
use s_ldm.Options.Samples.{nat_scan}
use s_ldm.Samples.{nat_double}

-- a passenger car at the one position that the default options cover, with the numbers of the tests
abbrev pub car : Cam
car = record {
  station_id = 7;
  station_type = 5;
  latitude = pos 10_000_000_000;
  longitude = pos 10_000_000_000;
  altitude_value = pos 0;
  heading_value = 900;
  speed_value = 1000;
  drive_direction = 0;
  vehicle_width = 62;
  vehicle_length = 40;
  generation_delta_time = 1;
  low_frequency_container = some (some 16);
}

instance abbrev pub one_cam : CamView ℕ
one_cam = record { view = λ m. car }

abbrev pub message : ProtonMessage
message = record { body = some (2 ∷ 2 ∷ 0 ∷ []); properties_size = 0; property = λ key. other }

abbrev pub client : Client ℕ
client = record { opts = options_initialize; trigger_enabled = true; logging = false }

abbrev pub env : Surroundings
env = record { on_msg_timestamp_us = 1; timestamp_us = 2; allocated = true }

abbrev pub memory : Memory ℕ ℕ
memory = record {
  gn = fresh;
  btp = fresh_btp;
  decoded = record {
    decoded_msg = none;
    type = decoded_error;
    gn_timestamp = 0;
    pos_long = 0;
    pos_lat = 0;
    dist_a = 0;
    dist_b = 0;
    angle = 0;
  };
}

abbrev pub header : Header
header = record { gn_timestamp = 2 ^ 64 - 1; exterior_lights = none; station_type = 5 }
