-- ===== src/Options/Flags.antt =====
-- The options that `getopt_long` can return to `parse_options`, each with its argument: the cases of
-- the switch in options/options.c.
use s_ldm.Numeral.{Text}

pub data Flag : Type 0 where
  -- `getopt_long` returned 0
  unexpected : Flag
  area ext_lat_factor ext_lon_factor : Text → Flag
  cross_border_trigger : Flag
  broker_url broker_queue amqp_username amqp_password : Text → Flag
  amqp_reconnect amqp_allow_sasl amqp_allow_plain od_json_enable : Flag
  od_json_port ms_rest_address ms_rest_port vehviz_nodejs_address vehviz_nodejs_port : Text → Flag
  vehviz_web_port log_file_name context_radius : Text → Flag
  disable_age_check : Flag
  vehviz_update_interval amqp_main_idle_timeout : Text → Flag
  indicator_trgman_disable disable_quadkey_filter left_indicator_trigger : Flag
  amqp_main_reconn_local_timeout : Flag
  ms_rest_periodicity gn_timestamp_property : Text → Flag
  ext_lights_hijack interop_hijack : Flag
  enable_additionals additionals_url additionals_queue additionals_username : Text → Flag
  additionals_password additionals_reconnect additionals_allow_sasl : Text → Flag
  additionals_allow_plain additionals_idle_timeout additionals_reconn_local_timeout : Text → Flag
  version help unknown : Flag
