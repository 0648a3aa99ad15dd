-- ===== src/Options.antt =====
-- options/options.h and `options_initialize` of options/options.c: the options of the program.
pub mod Free
pub mod Flags
pub mod Table
pub mod Clients
pub mod Parse
pub mod Samples
use Prim.Native.Char.{code}
use Prim.Native.String.{String}
use s_ldm.Common.{ℕ, Bool, true, false, List, [], ◌∷◌}
use s_ldm.Common.Int.{ℤ, pos, negsuc}
use s_ldm.Double.{Double}
use s_ldm.Numeral.{Text}
use s_ldm.OptionString.{OptionsString, options_string_declare}

-- the bytes of an ASCII literal
abbrev pub codes : String → Text
codes String.[] = []
codes (String.◌∷◌ c s) = code c ∷ codes s

-- What the option parser asks of the C library about doubles: `strtod`, the `sscanf` of an area
-- (nothing for less than four values), and -DBL_MAX.
pub record DoubleResult (D : Type 0) : Type 0 where
  pub found : Bool
  pub range_error : Bool
  pub value : D

pub record AreaResult (D : Type 0) : Type 0 where
  pub complete : Bool
  pub min_lat : D
  pub min_lon : D
  pub max_lat : D
  pub max_lon : D

pub record DoubleScan (D : Type 0) : Type 0 where
  pub strtod : Text → DoubleResult D
  pub scan_area : Text → AreaResult D
  pub lowest : D

-- `broker_options_t`
pub record BrokerOptions : Type 0 where
  pub amqp_username : OptionsString
  pub amqp_password : OptionsString
  pub amqp_reconnect : Bool
  pub amqp_allow_sasl : Bool
  pub amqp_allow_insecure : Bool
  pub broker_url : OptionsString
  pub broker_topic : OptionsString
  pub amqp_idle_timeout : ℤ
  pub amqp_reconnect_after_local_timeout_expired : Bool

-- `options_t`; the array `amqp_broker_x` of `num_amqp_x_enabled` elements is a list
pub record Options (D : Type 0) : Type 0 where
  pub init_code : ℕ
  pub min_lat : D
  pub min_lon : D
  pub max_lat : D
  pub max_lon : D
  pub ext_lat_factor : D
  pub ext_lon_factor : D
  pub cross_border_trigger : Bool
  pub ms_rest_addr : OptionsString
  pub ms_rest_port : ℤ
  pub left_indicator_trg_enable : Bool
  pub ext_lights_hijack_enable : Bool
  pub interop_hijack_enable : Bool
  pub ms_rest_periodicity : D
  pub gn_timestamp_property : OptionsString
  pub vehviz_nodejs_addr : OptionsString
  pub vehviz_nodejs_port : ℤ
  pub vehviz_web_interface_port : ℤ
  pub logfile_name : OptionsString
  pub amqp_broker_one : BrokerOptions
  pub num_amqp_x_enabled : ℕ
  pub amqp_broker_x : List BrokerOptions
  pub context_radius : D
  pub vehviz_update_interval_sec : D
  pub indicator_trg_man_enabled : Bool
  pub age_check_enabled : Bool
  pub quadk_filter_enabled : Bool
  pub od_json_interface_enabled : Bool
  pub od_json_interface_port : ℤ

abbrev pub init_code : ℕ
init_code = 0xAE

-- `broker_options_inizialize`
unfoldable pub broker_options_inizialize : BrokerOptions
unfolding options_string_declare
broker_options_inizialize = record {
  amqp_username = options_string_declare;
  amqp_password = options_string_declare;
  amqp_reconnect = false;
  amqp_allow_sasl = false;
  amqp_allow_insecure = false;
  broker_url = options_string_declare;
  broker_topic = options_string_declare;
  amqp_idle_timeout = negsuc 0;
  amqp_reconnect_after_local_timeout_expired = false;
}

module _ {D : Type 0} ⦃dbl : Double D⦄ ⦃scan : DoubleScan D⦄ where
  unfoldable pub options_initialize : Options D
  unfolding options_string_declare broker_options_inizialize
  options_initialize = record {
    init_code = init_code;
    min_lat = scan.lowest;
    min_lon = scan.lowest;
    max_lat = scan.lowest;
    max_lon = scan.lowest;
    ext_lat_factor = dbl.of_ℕ 0;
    ext_lon_factor = dbl.of_ℕ 0;
    cross_border_trigger = false;
    ms_rest_addr = options_string_declare;
    ms_rest_port = pos 8000;
    left_indicator_trg_enable = false;
    ext_lights_hijack_enable = false;
    interop_hijack_enable = false;
    ms_rest_periodicity = dbl.of_ℕ 1;
    gn_timestamp_property = options_string_declare;
    vehviz_nodejs_addr = options_string_declare;
    vehviz_nodejs_port = pos 48110;
    vehviz_web_interface_port = pos 8080;
    logfile_name = options_string_declare;
    amqp_broker_one = broker_options_inizialize;
    num_amqp_x_enabled = 0;
    amqp_broker_x = [];
    context_radius = dbl.of_ℕ 150;
    vehviz_update_interval_sec = dbl.div (dbl.of_ℕ 1) (dbl.of_ℕ 2);
    indicator_trg_man_enabled = true;
    age_check_enabled = true;
    quadk_filter_enabled = true;
    od_json_interface_enabled = false;
    od_json_interface_port = pos 49000;
  }
