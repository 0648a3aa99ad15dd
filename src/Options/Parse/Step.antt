-- ===== src/Options/Parse/Step.antt =====
-- One round of the loop of `parse_options`: the switch over the option.
use s_ldm.Common.{
  ℕ, zero, suc, ◌-◌, ◌^◌, Bool, true, false, not, ◌||◌, List, [], ◌∷◌, ltb, ◌==◌, if◌then◌else◌,
}
use s_ldm.Common.Int.{wrap}
use s_ldm.Double.{Double}
use s_ldm.Numeral.{LongResult, strtol}
use s_ldm.Options.{Options, BrokerOptions, DoubleScan, broker_options_inizialize}
use s_ldm.Options.Clients.{
  fill_broker_url, fill_broker_topic, fill_amqp_username, fill_amqp_password, fill_amqp_reconnect,
  fill_amqp_allow_sasl, fill_amqp_allow_insecure, fill_amqp_idle_timeout,
  fill_amqp_reconnect_after_local_timeout_expired,
}
use s_ldm.Options.Flags.{Flag}
use s_ldm.Options.Parse.{
  Outcome, ok, exits_success, exits_failure, push_or_exit, long_or_exit, bad_port, double_or_exit,
}

abbrev pub max_additional_amqp_clients : ℕ
max_additional_amqp_clients = 10

abbrev pub replicate {ℓ} : {A : Type ℓ} → ℕ → A → List A
replicate zero a = []
replicate (suc n) a = a ∷ replicate n a

module _ {D : Type 0} where
  -- `--amqp-enable-additionals`: the value is cut to an `unsigned int` before it is tested
  unfoldable pub enable_clients : LongResult → Options D → Outcome (Options D)
  unfolding broker_options_inizialize
  enable_clients r o =
      let n = wrap (2 ^ 32) r.value in
      if not r.found
      then exits_success
      else (if r.range_error || ltb n 1 || ltb (max_additional_amqp_clients - 1) n
          then exits_success
          else ok (record o {
            num_amqp_x_enabled = n;
            amqp_broker_x = replicate n broker_options_inizialize;
          }))

  -- the options of the additional clients, which must have been enabled before
  unfoldable pub additional :
      (List BrokerOptions → Bool × List BrokerOptions) → Options D → Outcome (Options D)
  additional fill o =
      if o.num_amqp_x_enabled == 0
      then exits_success
      else (let (filled, bs) = fill o.amqp_broker_x in
          if filled then ok (record o { amqp_broker_x = bs }) else exits_success)

module _ {D : Type 0} ⦃dbl : Double D⦄ where
  abbrev pub hundredths : ℕ → D
  hundredths n = dbl.div (dbl.of_ℕ n) (dbl.of_ℕ 100)

  abbrev pub thousandths : ℕ → D
  thousandths n = dbl.div (dbl.of_ℕ n) (dbl.of_ℕ 1000)

module _ {D : Type 0} ⦃dbl : Double D⦄ ⦃scan : DoubleScan D⦄ where
  -- the cases from the additional clients on; the rest prints the help or an error, and exits
  abbrev pub step_clients : Flag → Options D → Outcome (Options D)
  step_clients (Flag.enable_additionals s) o = enable_clients (strtol s) o
  step_clients (Flag.additionals_url s) o = additional (fill_broker_url s) o
  step_clients (Flag.additionals_queue s) o = additional (fill_broker_topic s) o
  step_clients (Flag.additionals_username s) o = additional (fill_amqp_username s) o
  step_clients (Flag.additionals_password s) o = additional (fill_amqp_password s) o
  step_clients (Flag.additionals_reconnect s) o = additional (fill_amqp_reconnect s) o
  step_clients (Flag.additionals_allow_sasl s) o = additional (fill_amqp_allow_sasl s) o
  step_clients (Flag.additionals_allow_plain s) o = additional (fill_amqp_allow_insecure s) o
  step_clients (Flag.additionals_idle_timeout s) o = additional (fill_amqp_idle_timeout s) o
  step_clients (Flag.additionals_reconn_local_timeout s) o =
      additional (fill_amqp_reconnect_after_local_timeout_expired s) o
  step_clients Flag.version o = ok o
  step_clients _ o = exits_success

  -- the cases from the web server of the visualizer on
  abbrev pub step_services : Flag → Options D → Outcome (Options D)
  step_services (Flag.vehviz_web_port s) o =
      long_or_exit s bad_port λ n. record o { vehviz_web_interface_port = n }
  step_services (Flag.log_file_name s) o =
      push_or_exit o.logfile_name s λ t. record o { logfile_name = t }
  step_services (Flag.context_radius s) o =
      double_or_exit (scan.strtod s) (λ x. dbl.lt x (dbl.of_ℕ 10))
        λ x. record o { context_radius = x }
  step_services Flag.disable_age_check o =
      if o.age_check_enabled then ok (record o { age_check_enabled = false }) else exits_success
  step_services (Flag.vehviz_update_interval s) o =
      double_or_exit (scan.strtod s) (λ x. dbl.lt x (hundredths 5) || dbl.lt (dbl.of_ℕ 1) x)
        λ x. record o { vehviz_update_interval_sec = x }
  step_services (Flag.amqp_main_idle_timeout s) o =
      long_or_exit s (λ n. false)
        λ n. record o { amqp_broker_one = record (o.amqp_broker_one) { amqp_idle_timeout = n } }
  step_services Flag.indicator_trgman_disable o =
      ok (record o { indicator_trg_man_enabled = false })
  step_services Flag.disable_quadkey_filter o = ok (record o { quadk_filter_enabled = false })
  step_services Flag.left_indicator_trigger o = ok (record o { left_indicator_trg_enable = true })
  step_services Flag.amqp_main_reconn_local_timeout o = ok (record o {
    amqp_broker_one = record (o.amqp_broker_one) {
      amqp_reconnect_after_local_timeout_expired = true;
    };
  })
  step_services (Flag.ms_rest_periodicity s) o =
      double_or_exit (scan.strtod s) (λ x. dbl.lt x (thousandths 1) || dbl.lt (dbl.of_ℕ 10) x)
        λ x. record o { ms_rest_periodicity = x }
  step_services (Flag.gn_timestamp_property s) o =
      push_or_exit o.gn_timestamp_property s λ t. record o { gn_timestamp_property = t }
  step_services Flag.ext_lights_hijack o = ok (record o { ext_lights_hijack_enable = true })
  step_services Flag.interop_hijack o = ok (record o { interop_hijack_enable = true })
  step_services f o = step_clients f o

  unfoldable pub step : Flag → Options D → Outcome (Options D)
  step Flag.unexpected o = exits_failure
  step (Flag.area s) o =
      let r = scan.scan_area s in
      if r.complete
      then ok (record o {
        min_lat = r.min_lat;
        min_lon = r.min_lon;
        max_lat = r.max_lat;
        max_lon = r.max_lon;
      })
      else exits_success
  step (Flag.ext_lat_factor s) o =
      double_or_exit (scan.strtod s) (λ x. dbl.lt x (dbl.of_ℕ 0))
        λ x. record o { ext_lat_factor = x }
  step (Flag.ext_lon_factor s) o =
      double_or_exit (scan.strtod s) (λ x. dbl.lt x (dbl.of_ℕ 0))
        λ x. record o { ext_lon_factor = x }
  step Flag.cross_border_trigger o = ok (record o { cross_border_trigger = true })
  step (Flag.broker_url s) o =
      push_or_exit o.amqp_broker_one.broker_url s
        λ t. record o { amqp_broker_one = record (o.amqp_broker_one) { broker_url = t } }
  step (Flag.broker_queue s) o =
      push_or_exit o.amqp_broker_one.broker_topic s
        λ t. record o { amqp_broker_one = record (o.amqp_broker_one) { broker_topic = t } }
  step (Flag.amqp_username s) o =
      push_or_exit o.amqp_broker_one.amqp_username s
        λ t. record o { amqp_broker_one = record (o.amqp_broker_one) { amqp_username = t } }
  step (Flag.amqp_password s) o =
      push_or_exit o.amqp_broker_one.amqp_password s
        λ t. record o { amqp_broker_one = record (o.amqp_broker_one) { amqp_password = t } }
  step Flag.amqp_reconnect o =
      ok (record o { amqp_broker_one = record (o.amqp_broker_one) { amqp_reconnect = true } })
  step Flag.amqp_allow_sasl o =
      ok (record o { amqp_broker_one = record (o.amqp_broker_one) { amqp_allow_sasl = true } })
  step Flag.amqp_allow_plain o =
      ok (record o { amqp_broker_one = record (o.amqp_broker_one) { amqp_allow_insecure = true } })
  step Flag.od_json_enable o = ok (record o { od_json_interface_enabled = true })
  step (Flag.od_json_port s) o =
      long_or_exit s bad_port λ n. record o { od_json_interface_port = n }
  step (Flag.ms_rest_address s) o = push_or_exit o.ms_rest_addr s λ t. record o { ms_rest_addr = t }
  step (Flag.ms_rest_port s) o = long_or_exit s bad_port λ n. record o { ms_rest_port = n }
  step (Flag.vehviz_nodejs_address s) o =
      push_or_exit o.vehviz_nodejs_addr s λ t. record o { vehviz_nodejs_addr = t }
  step (Flag.vehviz_nodejs_port s) o =
      long_or_exit s bad_port λ n. record o { vehviz_nodejs_port = n }
  step f o = step_services f o
