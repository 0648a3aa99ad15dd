-- ===== src/Options/Clients.antt =====
-- The functions of options/options.h that fill one field of each additional AMQP client from a list
-- separated by commas: AMQPCLIENT_FIELDS_ARRAY_FILL_DECLARE at its three types.
pub mod Laws
use s_ldm.Common.{ℕ, Bool, true, false, ◌&&◌, ◌||◌, List, [], ◌∷◌, ◌==◌, if◌then◌else◌}
use s_ldm.Common.Int.{ℤ}
use s_ldm.Numeral.{Text, same_text, skip_commas, split_token, first_segment, strtol}
use s_ldm.OptionString.{OptionsString, options_string_push}
use s_ldm.Options.{BrokerOptions, codes}

-- The loop over the clients: each takes the next token, and `use` puts it into its field; `use`
-- returns false to give up. The loop fails where the tokens end before the clients.
module _ (assign : Text → BrokerOptions → Bool × BrokerOptions) where
  unfoldable pub fill_clients : Text → List BrokerOptions → Bool × List BrokerOptions
  fill_clients rest [] = (true, [])
  fill_clients rest (b ∷ bs) = elim (skip_commas rest) [
    | [] ↦ (false, b ∷ bs)
    | c ∷ s ↦
        let (token, rest') = split_token (c ∷ s) in
        let (taken, b') = assign token b in
        let (done, bs') = fill_clients rest' bs in
        elim taken [ true ↦ (done, b' ∷ bs') | false ↦ (false, b ∷ bs) ]
  ]

-- A string: a single space stands for the empty string, and a push that fails is only reported.
abbrev pub assign_string :
    (BrokerOptions → OptionsString)
    → (OptionsString → BrokerOptions → BrokerOptions)
    → Text
    → BrokerOptions
    → Bool × BrokerOptions
assign_string get put token b = (
  true,
  put (options_string_push (get b) (if same_text token (codes " ") then [] else token)).1 b,
)

-- A Boolean: true, false or default; anything else gives up.
abbrev pub assign_bool :
    (Bool → BrokerOptions → BrokerOptions) → Text → BrokerOptions → Bool × BrokerOptions
assign_bool put token b =
    if same_text token (codes "true")
    then (true, put true b)
    else (if same_text token (codes "false") || same_text token (codes "default")
        then (true, put false b)
        else (false, b))

-- A long: `strtol` is given `optarg`, not the token; a failure is only reported.
abbrev pub assign_long :
    Text → (ℤ → BrokerOptions → BrokerOptions) → Text → BrokerOptions → Bool × BrokerOptions
assign_long optarg put token b = (true, put (strtol (first_segment optarg)).value b)

-- the nine functions that the macro generates
unfoldable pub fill_amqp_username : Text → List BrokerOptions → Bool × List BrokerOptions
fill_amqp_username optarg =
    fill_clients (assign_string (λ b. b.amqp_username) (λ s b. record b { amqp_username = s }))
      optarg

unfoldable pub fill_amqp_password : Text → List BrokerOptions → Bool × List BrokerOptions
fill_amqp_password optarg =
    fill_clients (assign_string (λ b. b.amqp_password) (λ s b. record b { amqp_password = s }))
      optarg

unfoldable pub fill_broker_url : Text → List BrokerOptions → Bool × List BrokerOptions
fill_broker_url optarg =
    fill_clients (assign_string (λ b. b.broker_url) (λ s b. record b { broker_url = s })) optarg

unfoldable pub fill_broker_topic : Text → List BrokerOptions → Bool × List BrokerOptions
fill_broker_topic optarg =
    fill_clients (assign_string (λ b. b.broker_topic) (λ s b. record b { broker_topic = s })) optarg

unfoldable pub fill_amqp_reconnect : Text → List BrokerOptions → Bool × List BrokerOptions
fill_amqp_reconnect optarg =
    fill_clients (assign_bool (λ v b. record b { amqp_reconnect = v })) optarg

unfoldable pub fill_amqp_allow_sasl : Text → List BrokerOptions → Bool × List BrokerOptions
fill_amqp_allow_sasl optarg =
    fill_clients (assign_bool (λ v b. record b { amqp_allow_sasl = v })) optarg

unfoldable pub fill_amqp_allow_insecure : Text → List BrokerOptions → Bool × List BrokerOptions
fill_amqp_allow_insecure optarg =
    fill_clients (assign_bool (λ v b. record b { amqp_allow_insecure = v })) optarg

unfoldable pub fill_amqp_reconnect_after_local_timeout_expired :
    Text → List BrokerOptions → Bool × List BrokerOptions
fill_amqp_reconnect_after_local_timeout_expired optarg =
    fill_clients (assign_bool (λ v b. record b { amqp_reconnect_after_local_timeout_expired = v }))
      optarg

unfoldable pub fill_amqp_idle_timeout : Text → List BrokerOptions → Bool × List BrokerOptions
fill_amqp_idle_timeout optarg =
    fill_clients (assign_long optarg (λ v b. record b { amqp_idle_timeout = v })) optarg
