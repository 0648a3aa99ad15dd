-- ===== src/Program/Tests.antt =====
-- The theorem on the additional clients at a command line with one of them.
use s_ldm.Common.{
  if◌then◌else◌, ℕ, ◌≡◌, refl, true, false, none, some, List, [], ◌∷◌, arith, get_elem?,
}
use s_ldm.AmqpClient.Connection.{Connection, running_container}
use s_ldm.Common.Int.{pos, negsuc}
use s_ldm.Numeral.{same_text, strtol, first_segment, skip_commas, split_token}
use s_ldm.OptionString.{options_string_declare, options_string_push}
use s_ldm.Options.{Options, BrokerOptions, options_initialize, broker_options_inizialize, codes}
use s_ldm.Options.Clients.{
  fill_clients, fill_broker_url, fill_broker_topic, fill_amqp_reconnect_after_local_timeout_expired,
}
use s_ldm.Options.Flags.{Flag}
use s_ldm.Options.Parse.{ok}
use s_ldm.Options.Parse.Step.{step, step_clients, enable_clients, additional}
use s_ldm.Options.Parse.Finish.{
  parse_loop, parse_options, is_version, check_clients, set_defaults, default_string, check_area,
}
use s_ldm.Options.Parse.Finish.Ready.{parse_options-IsReady}
use s_ldm.Options.Samples.{nat_scan, options_initialize-IsValid}
use s_ldm.Program.{
  returned, threw, Shared, ended, invalid_stop, idle_timeout_error, is_restarted, additional_client,
}
use s_ldm.Program.Clients.{
  HasStrings, IsConnected, joined, erased, stopped_by, additional_client-IsConnected,
}
use s_ldm.Samples.{nat_double}

-- an area, and one additional client, which is restarted
abbrev line : List Flag
line =
    Flag.area (codes "a")
    ∷ Flag.context_radius (codes "20")
    ∷ Flag.enable_additionals (codes "1")
    ∷ Flag.additionals_url (codes "u")
    ∷ Flag.additionals_queue (codes "t")
    ∷ Flag.additionals_reconn_local_timeout (codes "true")
    ∷ []

abbrev line_lem : (o : Options ℕ) × (parse_options line options_initialize ≡ ok o)
unfolding parse_options parse_loop step step_clients enable_clients additional options_initialize
    options_string_declare options_string_push broker_options_inizialize set_defaults default_string
    check_area check_clients is_version fill_clients fill_broker_url fill_broker_topic
    fill_amqp_reconnect_after_local_timeout_expired skip_commas split_token same_text strtol
    first_segment
line_lem = (_, refl)

abbrev opts : Options ℕ
opts = line_lem.0

abbrev client : BrokerOptions
client = record {
  amqp_username = record { buf = none; len = negsuc 0 };
  amqp_password = record { buf = none; len = negsuc 0 };
  amqp_reconnect = false;
  amqp_allow_sasl = false;
  amqp_allow_insecure = false;
  broker_url = record { buf = some (codes "u"); len = pos 2 };
  broker_topic = record { buf = some (codes "t"); len = pos 2 };
  amqp_idle_timeout = negsuc 0;
  amqp_reconnect_after_local_timeout_expired = true;
}

client_found : get_elem? opts.amqp_broker_x 0 ≡ some client
unfolding line_lem
client_found = refl

client-HasStrings : HasStrings client
client-HasStrings = record {
  url = (refl, omega arith);
  topic = (refl, omega arith);
  username = refl;
  password = refl;
}

abbrev start : Shared
start = record { terminated = false; clients = []; main_cont = running_container; connections = [] }

additional_client-IsConnected_example :
    (conn : Connection) × IsConnected opts client (codes "f") conn
    × (additional_client opts 0 (codes "2") [] (codes "f") (returned ∷ []) start
        ≡ some (ended (joined 0 conn start)))
    × (additional_client opts 0
          (codes "2")
          []
          (codes "f")
          (threw true idle_timeout_error ∷ [])
          start
        ≡ some (
            if is_restarted client idle_timeout_error
            then invalid_stop (joined 0 conn start)
            else stopped_by start.main_cont (erased 0 (joined 0 conn start))))
additional_client-IsConnected_example =
    additional_client-IsConnected opts 0 (codes "2") [] (codes "f") idle_timeout_error [] start
      client
      (parse_options-IsReady line options_initialize opts options_initialize-IsValid line_lem.1)
      client_found client-HasStrings

-- that client is restarted
restarted_lem : is_restarted client idle_timeout_error ≡ true
unfolding is_restarted same_text
restarted_lem = refl
