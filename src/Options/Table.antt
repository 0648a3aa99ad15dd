-- ===== src/Options/Table.antt =====
-- The table of the long options in options/options.c, and the labels of the switch of
-- `parse_options`. A short option has the code of its letter.
use Prim.Native.String.{String}
use s_ldm.Common.{
  ℕ, ◌≡◌, refl, Bool, true, false, Option, none, some, List, [], ◌∷◌, ◌==◌, if◌then◌else◌, arith,
  Option-cases, Bool-cases, subst, inl, inr,
}
use s_ldm.Numeral.{Text}
use s_ldm.Options.Flags.{Flag}

-- `struct option`, with whether an argument is required
pub record LongOption : Type 0 where
  pub name : String
  pub has_arg : Bool
  pub val : ℕ

abbrev required_argument : Bool
required_argument = true

abbrev no_argument : Bool
no_argument = false

abbrev option : String → Bool → ℕ → LongOption
option name has_arg val = record { name = name; has_arg = has_arg; val = val }

-- `long_opts`, less its end
unfoldable pub long_opts : List LongOption
long_opts =
    option "help" no_argument 104
    ∷ option "version" no_argument 118
    ∷ option "area" required_argument 65
    ∷ option "ext-area-lat-factor" required_argument 69
    ∷ option "ext-area-lon-factor" required_argument 70
    ∷ option "cross-border-trigger" no_argument 99
    ∷ option "broker-url" required_argument 85
    ∷ option "broker-queue" required_argument 81
    ∷ option "ms-rest-address" required_argument 114
    ∷ option "ms-rest-port" required_argument 115
    ∷ option "vehviz-nodejs-address" required_argument 90
    ∷ option "vehviz-nodejs-port" required_argument 122
    ∷ option "vehviz-web-port" required_argument 119
    ∷ option "log-file-name" required_argument 76
    ∷ option "amqp-main-username" required_argument 117
    ∷ option "amqp-main-password" required_argument 112
    ∷ option "amqp-main-reconnect" no_argument 82
    ∷ option "amqp-main-allow-sasl" no_argument 83
    ∷ option "amqp-main-allow-plain" no_argument 73
    ∷ option "context-radius" required_argument 67
    ∷ option "disable-age-check" no_argument 103
    ∷ option "enable-on-demand-requests" no_argument 79
    ∷ option "set-on-demand-json-port" required_argument 111
    ∷ option "vehviz-update-interval" required_argument 256
    ∷ option "indicator-trgman-disable" no_argument 257
    ∷ option "disable-quadkey-filter" no_argument 258
    ∷ option "amqp-main-idle-timeout" required_argument 259
    ∷ option "amqp-main-reconn-local-timeout-exp" no_argument 260
    ∷ option "enable-left-indicator-trigger" no_argument 261
    ∷ option "ms-rest-periodicity" required_argument 262
    ∷ option "gn-timestamp-property" required_argument 263
    ∷ option "enable-ext-lights-hijack" no_argument 264
    ∷ option "enable-interop-hijack" no_argument 265
    ∷ option "amqp-enable-additionals" required_argument 320
    ∷ option "amqp-additionals-url" required_argument 321
    ∷ option "amqp-additionals-queue" required_argument 322
    ∷ option "amqp-additionals-username" required_argument 323
    ∷ option "amqp-additionals-password" required_argument 324
    ∷ option "amqp-additionals-reconnect" required_argument 325
    ∷ option "amqp-additionals-allow-sasl" required_argument 326
    ∷ option "amqp-additionals-allow-plain" required_argument 327
    ∷ option "amqp-additionals-idle-timeout" required_argument 328
    ∷ option "amqp-additionals-reconn-local-timeout-exp" required_argument 329
    ∷ []

-- the body of a case, which reads `optarg` or does not
pub data Case : Type 0 where
  reads : (Text → Flag) → Case
  plain : Flag → Case

-- the labels of the switch, in its order
unfoldable pub cases : List (ℕ × Case)
cases =
    (0, plain Flag.unexpected)
    ∷ (65, reads Flag.area)
    ∷ (69, reads Flag.ext_lat_factor)
    ∷ (70, reads Flag.ext_lon_factor)
    ∷ (99, plain Flag.cross_border_trigger)
    ∷ (85, reads Flag.broker_url)
    ∷ (81, reads Flag.broker_queue)
    ∷ (117, reads Flag.amqp_username)
    ∷ (112, reads Flag.amqp_password)
    ∷ (82, plain Flag.amqp_reconnect)
    ∷ (83, plain Flag.amqp_allow_sasl)
    ∷ (73, plain Flag.amqp_allow_plain)
    ∷ (79, plain Flag.od_json_enable)
    ∷ (111, reads Flag.od_json_port)
    ∷ (114, reads Flag.ms_rest_address)
    ∷ (115, reads Flag.ms_rest_port)
    ∷ (90, reads Flag.vehviz_nodejs_address)
    ∷ (122, reads Flag.vehviz_nodejs_port)
    ∷ (119, reads Flag.vehviz_web_port)
    ∷ (76, reads Flag.log_file_name)
    ∷ (67, reads Flag.context_radius)
    ∷ (103, plain Flag.disable_age_check)
    ∷ (256, reads Flag.vehviz_update_interval)
    ∷ (259, reads Flag.amqp_main_idle_timeout)
    ∷ (257, plain Flag.indicator_trgman_disable)
    ∷ (258, plain Flag.disable_quadkey_filter)
    ∷ (261, plain Flag.left_indicator_trigger)
    ∷ (260, plain Flag.amqp_main_reconn_local_timeout)
    ∷ (262, reads Flag.ms_rest_periodicity)
    ∷ (263, reads Flag.gn_timestamp_property)
    ∷ (264, plain Flag.ext_lights_hijack)
    ∷ (265, plain Flag.interop_hijack)
    ∷ (320, reads Flag.enable_additionals)
    ∷ (321, reads Flag.additionals_url)
    ∷ (322, reads Flag.additionals_queue)
    ∷ (323, reads Flag.additionals_username)
    ∷ (324, reads Flag.additionals_password)
    ∷ (325, reads Flag.additionals_reconnect)
    ∷ (326, reads Flag.additionals_allow_sasl)
    ∷ (327, reads Flag.additionals_allow_plain)
    ∷ (328, reads Flag.additionals_idle_timeout)
    ∷ (329, reads Flag.additionals_reconn_local_timeout)
    ∷ (118, plain Flag.version)
    ∷ (104, plain Flag.help)
    ∷ []

-- the body of the first case with this label
unfoldable pub find_case : ℕ → List (ℕ × Case) → Option Case
find_case val [] = none
find_case val ((label, c) ∷ cs) =
    let rest = find_case val cs in if val == label then some c else rest

-- what the loop of `parse_options` is given for a value of `getopt_long` and its `optarg`
unfoldable pub flag_of : ℕ → Text → Flag
flag_of val optarg = elim (find_case val cases) [
  | none ↦ Flag.unknown
  | some c ↦ elim c [ reads f ↦ f optarg | plain f ↦ f ]
]

-- the first entry of the table with this value
unfoldable pub find_option : ℕ → List LongOption → Option LongOption
find_option val [] = none
find_option val (o ∷ os) = let rest = find_option val os in if val == o.val then some o else rest

abbrev pub reads_argument : Case → Bool
reads_argument (reads f) = true
reads_argument (plain f) = false

abbrev same_bool : Bool → Bool → Bool
same_bool true b = b
same_bool false true = false
same_bool false false = true

-- whether the table's entry fits the switch
unfoldable fits : List (ℕ × Case) → LongOption → Bool
fits cs o = elim (find_case o.val cs) [
  | none ↦ false
  | some c ↦ same_bool (reads_argument c) o.has_arg
]

unfoldable all_fit : List (ℕ × Case) → List LongOption → Bool
all_fit cs [] = true
all_fit cs (o ∷ os) = let rest = all_fit cs os in if fits cs o then rest else false

abbrev HasCase : List (ℕ × Case) → ℕ → LongOption → Type 0
HasCase cs val o = (c : Case) × (find_case val cs ≡ some c) × (reads_argument c ≡ o.has_arg)

fits-HasCase : (cs : List (ℕ × Case)) (o : LongOption) → fits cs o ≡ true → HasCase cs o.val o
unfolding fits
fits-HasCase cs o h = elim (Option-cases (find_case o.val cs)) [
  | inl e ↦ absurd (ground arith)
  | inr (c, e) ↦ (c, e, ground arith)
]

find_option-HasCase :
    (cs : List (ℕ × Case)) (os : List LongOption) (val : ℕ) (o : LongOption)
    → all_fit cs os ≡ true
    → find_option val os ≡ some o
    → HasCase cs val o
unfolding find_option all_fit
find_option-HasCase cs [] val o fit h = absurd (cc h)
find_option-HasCase cs (p ∷ os) val o fit h = elim (Bool-cases (val == p.val)) [
  | inl e ↦
      let found : p ≡ o = ground arith in
      let at : p.val ≡ val = ground arith in
      subst (λ q. HasCase cs val q) found
        (subst (λ n. HasCase cs n p) at (fits-HasCase cs p (ground arith)))
  | inr e ↦ find_option-HasCase cs os val o (ground arith) (ground arith)
]

all_fit_lem : all_fit cases long_opts ≡ true
unfolding all_fit fits find_case cases long_opts
all_fit_lem = refl

-- Every value of the table has a case in the switch, and the case reads `optarg` exactly where the
-- table requires an argument.
find_option-find_case :
    (val : ℕ) (o : LongOption)
    → find_option val long_opts ≡ some o
    → (c : Case) × (find_case val cases ≡ some c) × (reads_argument c ≡ o.has_arg)
find_option-find_case val o h = find_option-HasCase cases long_opts val o all_fit_lem h
