-- ===== src/Options/Parse/Finish.antt =====
-- `parse_options` as a whole: the loop, the checks of the additional clients, the default strings,
-- and the ranges of the coordinates.
pub mod Valid
pub mod Ready
pub mod Refusals
mod Tests
use s_ldm.Common.{ℕ, Bool, true, false, ◌||◌, not, List, [], ◌∷◌, ◌==◌, if◌then◌else◌}
use s_ldm.Double.{Double}
use s_ldm.Numeral.{Text}
use s_ldm.OptionString.{OptionsString, is_unset, options_string_push}
use s_ldm.Options.{Options, BrokerOptions, DoubleScan, codes, init_code}
use s_ldm.Options.Flags.{Flag}
use s_ldm.Options.Parse.{Outcome, ok, fails, exits_success, exits_failure, ◌>>=◌}
use s_ldm.Options.Parse.Step.{step}

-- the assignment `version_flg = true`
unfoldable pub is_version : Flag → Bool
is_version Flag.version = true
is_version _ = false

-- an additional client needs a URL and a topic
unfoldable pub check_clients : List BrokerOptions → Outcome (Unit {0})
check_clients [] = ok tt
check_clients (b ∷ bs) =
    let rest = check_clients bs in
    if is_unset b.broker_url
    then exits_failure
    else (if is_unset b.broker_topic then exits_failure else rest)

-- the default of a string that has not been set
unfoldable pub default_string : OptionsString → Text → Outcome OptionsString
default_string s text =
    if is_unset s
    then (let (done, s') = options_string_push s text in if done then ok s' else exits_failure)
    else ok s

module _ {D : Type 0} where
  unfoldable pub set_defaults : Options D → Outcome (Options D)
  set_defaults o = do
    url ← default_string o.amqp_broker_one.broker_url (codes "127.0.0.1:5672")
    topic ← default_string o.amqp_broker_one.broker_topic (codes "topic://5gcarmen.examples")
    addr ← default_string o.ms_rest_addr (codes "http://localhost")
    nodejs ← default_string o.vehviz_nodejs_addr (codes "127.0.0.1")
    gn ← default_string o.gn_timestamp_property (codes "gn_ts")
    ok (record o {
      amqp_broker_one = record (o.amqp_broker_one) { broker_url = url; broker_topic = topic };
      ms_rest_addr = addr;
      vehviz_nodejs_addr = nodejs;
      gn_timestamp_property = gn;
    })

module _ {D : Type 0} ⦃dbl : Double D⦄ where
  -- outside of [-bound, bound]
  abbrev pub out_of : ℕ → D → Bool
  out_of bound x = dbl.lt x (dbl.sub (dbl.of_ℕ 0) (dbl.of_ℕ bound)) || dbl.lt (dbl.of_ℕ bound) x

  unfoldable pub check_area : Options D → Outcome (Options D)
  check_area o =
      if out_of 90 o.min_lat
      then exits_success
      else (if out_of 90 o.max_lat
          then exits_success
          else (if out_of 180 o.min_lon
              then exits_success
              else (if out_of 180 o.max_lon then exits_success else ok o)))

  module _ ⦃scan : DoubleScan D⦄ where
    unfoldable pub parse_loop : List Flag → Bool → Options D → Outcome (Bool × Options D)
    parse_loop [] version_flg o = ok (version_flg, o)
    parse_loop (f ∷ fs) version_flg o =
        step f o >>= λ o'. parse_loop fs (is_version f || version_flg) o'

    unfoldable pub parse_options : List Flag → Options D → Outcome (Options D)
    parse_options flags o = if not (o.init_code == init_code) then fails else (do
      (version_flg, o') ← parse_loop flags false o
      if version_flg then exits_success else (do
        checked ← check_clients o'.amqp_broker_x
        full ← set_defaults o'
        check_area full))
