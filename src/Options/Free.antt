-- ===== src/Options/Free.antt =====
-- options/options_strings.c and options/options.c: what `options_free` frees, as the list of the texts
-- whose buffers are given to `free`, in order. The structures are passed by value: nothing in them
-- changes.
use s_ldm.Common.{List, [], ◌∷◌, ◌++◌, some, none}
use s_ldm.Numeral.{Text}
use s_ldm.OptionString.{OptionsString}
use s_ldm.Options.{Options, BrokerOptions}

unfoldable pub options_string_free : OptionsString → List Text
options_string_free s = elim s.buf [ none ↦ [] | some text ↦ text ∷ [] ]

unfoldable pub broker_options_free : BrokerOptions → List Text
unfolding options_string_free
broker_options_free b =
    options_string_free b.broker_url
    ++ options_string_free b.broker_topic
    ++ options_string_free b.amqp_username
    ++ options_string_free b.amqp_password

-- the loop over the additional clients
unfoldable pub free_clients : List BrokerOptions → List Text
unfolding broker_options_free
free_clients [] = []
free_clients (b ∷ bs) = broker_options_free b ++ free_clients bs

unfoldable pub options_free : {D : Type 0} → Options D → List Text
unfolding options_string_free broker_options_free free_clients
options_free o =
    broker_options_free o.amqp_broker_one
    ++ free_clients o.amqp_broker_x
    ++ options_string_free o.ms_rest_addr
    ++ options_string_free o.vehviz_nodejs_addr
