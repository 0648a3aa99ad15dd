-- ===== src/Options/Parse/Finish/Tests.antt =====
-- The theorems on the command line at concrete command lines.
use s_ldm.Common.{ℕ, ◌≡◌, refl, List, [], ◌∷◌}
use s_ldm.OptionString.{options_string_declare, options_string_push}
use s_ldm.Options.{Options, options_initialize, broker_options_inizialize, codes}
use s_ldm.Options.Flags.{Flag}
use s_ldm.Options.Parse.{ok}
use s_ldm.Options.Parse.Step.{step}
use s_ldm.Options.Parse.Finish.{
  parse_loop, parse_options, is_version, check_clients, set_defaults, default_string, check_area,
}
use s_ldm.Options.Parse.Finish.Ready.{IsReady, parse_options-IsReady}
use s_ldm.Options.Samples.{nat_scan, options_initialize-IsValid}
use s_ldm.Samples.{nat_double}

-- an area, a URL, and a context radius
abbrev line : List Flag
line = Flag.area (codes "a") ∷ Flag.broker_url (codes "u:1") ∷ Flag.context_radius (codes "20") ∷ []

-- The command line is accepted.
abbrev line_lem : (o : Options ℕ) × (parse_options line options_initialize ≡ ok o)
unfolding parse_options parse_loop step options_initialize options_string_declare
    options_string_push broker_options_inizialize set_defaults default_string check_area
    check_clients is_version
line_lem = (_, refl)

parse_options-IsReady_example : IsReady line_lem.0
parse_options-IsReady_example =
    parse_options-IsReady line options_initialize line_lem.0 options_initialize-IsValid line_lem.1
