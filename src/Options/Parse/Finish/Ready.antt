-- ===== src/Options/Parse/Finish/Ready.antt =====
-- What holds of the options where `parse_options` returns 0.
use s_ldm.Common.{◌≡◌, refl, false, List, [], ◌∷◌, ◌==◌, arith, All, Bool-cases, inl, inr}
use s_ldm.Double.{Double}
use s_ldm.Numeral.{Text}
use s_ldm.OptionString.{OptionsString, is_unset, options_string_push, IsString}
use s_ldm.Options.{Options, BrokerOptions, DoubleScan, init_code}
use s_ldm.Options.Flags.{Flag}
use s_ldm.Options.Parse.{ok, ◌>>=◌}
use s_ldm.Options.Parse.Finish.{
  check_clients, set_defaults, default_string, check_area, parse_options, out_of,
}
use s_ldm.Options.Parse.Finish.Valid.{
  IsValid, Ensures, Ensures-bind, Ensures-map, parse_loop-IsValid,
}

-- an additional client that is set up: it has a URL and a topic
abbrev pub IsReachable : BrokerOptions → Type 0
IsReachable b = (is_unset b.broker_url ≡ false) × (is_unset b.broker_topic ≡ false)

check_clients-All : (bs : List BrokerOptions) → Ensures (λ u. All IsReachable bs) (check_clients bs)
unfolding check_clients
check_clients-All [] = tt
check_clients-All (b ∷ bs) = elim (Bool-cases (is_unset b.broker_url)) [
  | inl e ↦ rw e tt
  | inr e ↦ elim (Bool-cases (is_unset b.broker_topic)) [
    | inl f ↦ rw (e, f) tt
    | inr f ↦
        rw (e, f)
          (Ensures-map (λ u. All IsReachable bs) _ (check_clients bs) (λ u all. ((refl, refl), all))
            (check_clients-All bs))
  ]
]

abbrev pub IsGiven : OptionsString → Type 0
IsGiven s = IsString s × (is_unset s ≡ false)

default_string-IsGiven :
    (s : OptionsString) (text : Text) → IsString s → Ensures IsGiven (default_string s text)
unfolding default_string options_string_push
default_string-IsGiven s text h = ground arith

module _ {D : Type 0} where
  -- the strings that have a default are set
  pub record HasStrings (o : Options D) : Type 0 where
    pub url : IsGiven o.amqp_broker_one.broker_url
    pub topic : IsGiven o.amqp_broker_one.broker_topic
    pub addr : IsGiven o.ms_rest_addr
    pub nodejs : IsGiven o.vehviz_nodejs_addr
    pub gn_property : IsGiven o.gn_timestamp_property

module _ {D : Type 0} ⦃dbl : Double D⦄ where
  -- None of the eight comparisons that refuse a corner of the area holds. A NaN passes them too.
  abbrev pub HasAcceptedArea : Options D → Type 0
  HasAcceptedArea o =
      (out_of 90 o.min_lat ≡ false)
      × (out_of 90 o.max_lat ≡ false)
      × (out_of 180 o.min_lon ≡ false)
      × (out_of 180 o.max_lon ≡ false)

  abbrev pub IsReady : Options D → Type 0
  IsReady o = IsValid o × HasStrings o × HasAcceptedArea o × All IsReachable o.amqp_broker_x

  abbrev IsFilled : Options D → Type 0
  IsFilled o = IsValid o × HasStrings o × All IsReachable o.amqp_broker_x

  set_defaults-IsFilled :
      (o : Options D)
      → IsValid o
      → All IsReachable o.amqp_broker_x
      → Ensures IsFilled (set_defaults o)
  unfolding set_defaults
  set_defaults-IsFilled o v all =
      Ensures-bind IsGiven _ _ _ (default_string-IsGiven o.amqp_broker_one.broker_url _ v.url)
        λ url is_url.
          Ensures-bind IsGiven _ _ _
            (default_string-IsGiven o.amqp_broker_one.broker_topic _ v.topic)
            λ topic is_topic.
              Ensures-bind IsGiven _ _ _ (default_string-IsGiven o.ms_rest_addr _ v.addr)
                λ addr is_addr.
                  Ensures-bind IsGiven _ _ _
                    (default_string-IsGiven o.vehviz_nodejs_addr _ v.nodejs)
                    λ nodejs is_nodejs.
                      Ensures-bind IsGiven _ _ _
                        (default_string-IsGiven o.gn_timestamp_property _ v.gn_property)
                        λ gn is_gn. (
                          record {
                            od_json_port = v.od_json_port;
                            ms_rest_port = v.ms_rest_port;
                            nodejs_port = v.nodejs_port;
                            web_port = v.web_port;
                            lat_factor = v.lat_factor;
                            lon_factor = v.lon_factor;
                            radius = v.radius;
                            interval = v.interval;
                            periodicity = v.periodicity;
                            clients = v.clients;
                            few_clients = v.few_clients;
                            url = is_url.0;
                            topic = is_topic.0;
                            addr = is_addr.0;
                            nodejs = is_nodejs.0;
                            gn_property = is_gn.0;
                          },
                          (record {
                            url = is_url;
                            topic = is_topic;
                            addr = is_addr;
                            nodejs = is_nodejs;
                            gn_property = is_gn;
                          }),
                          all,
                        )

  check_area-HasAcceptedArea {κ} :
      (P : Options D → Type κ) (o : Options D)
      → P o
      → Ensures (λ o'. P o' × HasAcceptedArea o') (check_area o)
  unfolding check_area
  check_area-HasAcceptedArea P o p = elim (Bool-cases (out_of 90 o.min_lat)) [
    | inl e ↦ rw e tt
    | inr e ↦ elim (Bool-cases (out_of 90 o.max_lat)) [
      | inl f ↦ rw (e, f) tt
      | inr f ↦ elim (Bool-cases (out_of 180 o.min_lon)) [
        | inl g ↦ rw (e, f, g) tt
        | inr g ↦ elim (Bool-cases (out_of 180 o.max_lon)) [
          | inl h ↦ rw (e, f, g, h) tt
          | inr h ↦ rw (e, f, g, h) (p, (e, f, g, h))
        ]
      ]
    ]
  ]

  module _ ⦃scan : DoubleScan D⦄ where
    finish-IsReady :
        (o : Options D)
        → IsValid o
        → Ensures IsReady
            (do checked ← check_clients o.amqp_broker_x; full ← set_defaults o; check_area full)
    finish-IsReady o v =
        Ensures-bind (λ u. All IsReachable o.amqp_broker_x) IsReady _ _
          (check_clients-All o.amqp_broker_x)
          λ u all. Ensures-bind IsFilled IsReady _ _ (set_defaults-IsFilled o v all) λ full filled.
            Ensures-map (λ o'. IsFilled o' × HasAcceptedArea o') IsReady _
              (λ o' ((q, strings, all'), world). (q, strings, world, all'))
              (check_area-HasAcceptedArea IsFilled full filled)

    parse_options-Ensures :
        (flags : List Flag) (o : Options D) → IsValid o → Ensures IsReady (parse_options flags o)
    unfolding parse_options
    parse_options-Ensures flags o v = elim (Bool-cases (o.init_code == init_code)) [
      | inr e ↦ rw e tt
      | inl e ↦ rw e (
          Ensures-bind (λ r. IsValid r.1) IsReady _ _ (parse_loop-IsValid flags false o v)
            λ (flag, o') v'. elim (Bool-cases flag) [
              | inl t ↦ rw t tt
              | inr t ↦ rw t (finish-IsReady o' v')
            ])
    ]

    -- Where `parse_options` returns 0 from valid options, the options it leaves are ready: the ports
    -- pass the test of a port, none of the comparisons that refuse a factor, the radius, an interval,
    -- the periodicity or a corner of the area holds (which a NaN passes as well as a number of the
    -- range), the five strings with a default are set, and as many additional clients as were enabled,
    -- at most 9, each have a URL and a topic.
    pub parse_options-IsReady :
        (flags : List Flag) (o o' : Options D)
        → IsValid o
        → parse_options flags o ≡ ok o'
        → IsReady o'
    parse_options-IsReady flags o o' v returned =
        let all = parse_options-Ensures flags o v in (rw returned at all)
