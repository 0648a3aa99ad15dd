-- ===== src/Options/Parse/Finish/Valid.antt =====
-- What every round of the loop of `parse_options` keeps, and the loop as a whole.
use s_ldm.Common.{
  ℕ, zero, suc, ◌^◌, ◌≡◌, ◌≤◌, refl, Bool, false, ◌||◌, List, [], ◌∷◌, arith, length,
}
use s_ldm.Common.Int.{wrap}
use s_ldm.Double.{Double}
use s_ldm.Numeral.{LongResult, strtol}
use s_ldm.OptionString.{IsString, push-IsString}
use s_ldm.Options.{Options, BrokerOptions, DoubleScan, broker_options_inizialize}
use s_ldm.Options.Flags.{Flag}
use s_ldm.Options.Parse.{Outcome, ok, fails, exits_success, exits_failure, ◌>>=◌, bad_port}
use s_ldm.Options.Parse.Step.{step, hundredths, thousandths, enable_clients, additional, replicate}
use s_ldm.Options.Clients.Laws.{length-fill_clients}
use s_ldm.Options.Clients.{
  fill_broker_url, fill_broker_topic, fill_amqp_username, fill_amqp_password, fill_amqp_reconnect,
  fill_amqp_allow_sasl, fill_amqp_allow_insecure, fill_amqp_idle_timeout,
  fill_amqp_reconnect_after_local_timeout_expired,
}
use s_ldm.Options.Parse.Finish.{parse_loop}

module _ {D : Type 0} ⦃dbl : Double D⦄ where
  -- what each option keeps: the ports are ports, no test that refuses a number holds, the strings are
  -- strings, and the array of the additional clients has as many elements as are enabled, below 10
  pub record IsValid (o : Options D) : Type 0 where
    pub od_json_port : bad_port o.od_json_interface_port ≡ false
    pub ms_rest_port : bad_port o.ms_rest_port ≡ false
    pub nodejs_port : bad_port o.vehviz_nodejs_port ≡ false
    pub web_port : bad_port o.vehviz_web_interface_port ≡ false
    pub lat_factor : dbl.lt o.ext_lat_factor (dbl.of_ℕ 0) ≡ false
    pub lon_factor : dbl.lt o.ext_lon_factor (dbl.of_ℕ 0) ≡ false
    pub radius : dbl.lt o.context_radius (dbl.of_ℕ 10) ≡ false
    pub interval :
        (dbl.lt o.vehviz_update_interval_sec (hundredths 5)
          || dbl.lt (dbl.of_ℕ 1) o.vehviz_update_interval_sec)
        ≡ false
    pub periodicity :
        (dbl.lt o.ms_rest_periodicity (thousandths 1) || dbl.lt (dbl.of_ℕ 10) o.ms_rest_periodicity)
        ≡ false
    pub url : IsString o.amqp_broker_one.broker_url
    pub topic : IsString o.amqp_broker_one.broker_topic
    pub addr : IsString o.ms_rest_addr
    pub nodejs : IsString o.vehviz_nodejs_addr
    pub gn_property : IsString o.gn_timestamp_property
    pub clients : length o.amqp_broker_x ≡ o.num_amqp_x_enabled
    pub few_clients : o.num_amqp_x_enabled ≤ 9

length-replicate : {A : Type 0} (n : ℕ) (a : A) → length (replicate n a) ≡ n
length-replicate zero a = refl
length-replicate (suc n) a = omega (arith, length-replicate n a)

abbrev pub Ensures {ℓ κ} : {A : Type ℓ} → (A → Type κ) → Outcome A → Type κ
Ensures P (ok a) = P a
Ensures P fails = Unit
Ensures P exits_success = Unit
Ensures P exits_failure = Unit

pub Ensures-map {ℓ κ ν} :
    {A : Type ℓ} (P : A → Type κ) (Q : A → Type ν) (m : Outcome A)
    → ((a : A) → P a → Q a)
    → Ensures P m
    → Ensures Q m
Ensures-map P Q (ok a) h p = h a p
Ensures-map P Q fails h p = tt
Ensures-map P Q exits_success h p = tt
Ensures-map P Q exits_failure h p = tt

pub Ensures-bind {ℓ κ ν μ} :
    {A : Type ℓ} {B : Type κ} (P : A → Type ν) (Q : B → Type μ) (m : Outcome A) (f : A → Outcome B)
    → Ensures P m
    → ((a : A) → P a → Ensures Q (f a))
    → Ensures Q (m >>= f)
Ensures-bind P Q (ok a) f p h = h a p
Ensures-bind P Q fails f p h = tt
Ensures-bind P Q exits_success f p h = tt
Ensures-bind P Q exits_failure f p h = tt

module _ {D : Type 0} ⦃dbl : Double D⦄ ⦃scan : DoubleScan D⦄ where
  enable_clients-IsValid :
      (r : LongResult) (o : Options D) → IsValid o → Ensures IsValid (enable_clients r o)
  unfolding enable_clients
  enable_clients-IsValid r o v =
      ground (arith, length-replicate (wrap (2 ^ 32) r.value) broker_options_inizialize)

  additional-IsValid :
      (fill : List BrokerOptions → Bool × List BrokerOptions) (o : Options D)
      → length (fill o.amqp_broker_x).1 ≡ length o.amqp_broker_x
      → IsValid o
      → Ensures IsValid (additional fill o)
  unfolding additional
  additional-IsValid fill o same v = ground arith

  step-IsValid : (f : Flag) (o : Options D) → IsValid o → Ensures IsValid (step f o)
  unfolding step
  step-IsValid (Flag.area s) o v = ground arith
  step-IsValid (Flag.od_json_port s) o v = ground arith
  step-IsValid (Flag.ms_rest_port s) o v = ground arith
  step-IsValid (Flag.vehviz_nodejs_port s) o v = ground arith
  step-IsValid (Flag.vehviz_web_port s) o v = ground arith
  step-IsValid (Flag.ext_lat_factor s) o v = ground arith
  step-IsValid (Flag.ext_lon_factor s) o v = ground arith
  step-IsValid (Flag.context_radius s) o v = ground arith
  step-IsValid (Flag.vehviz_update_interval s) o v = ground arith
  step-IsValid (Flag.ms_rest_periodicity s) o v = ground arith
  step-IsValid (Flag.amqp_main_idle_timeout s) o v = ground arith
  step-IsValid (Flag.broker_url s) o v =
      ground (arith, push-IsString o.amqp_broker_one.broker_url s v.url)
  step-IsValid (Flag.broker_queue s) o v =
      ground (arith, push-IsString o.amqp_broker_one.broker_topic s v.topic)
  step-IsValid (Flag.ms_rest_address s) o v = ground (arith, push-IsString o.ms_rest_addr s v.addr)
  step-IsValid (Flag.vehviz_nodejs_address s) o v =
      ground (arith, push-IsString o.vehviz_nodejs_addr s v.nodejs)
  step-IsValid (Flag.gn_timestamp_property s) o v =
      ground (arith, push-IsString o.gn_timestamp_property s v.gn_property)
  step-IsValid (Flag.amqp_username s) o v = ground arith
  step-IsValid (Flag.amqp_password s) o v = ground arith
  step-IsValid (Flag.log_file_name s) o v = ground arith
  step-IsValid (Flag.enable_additionals s) o v = enable_clients-IsValid (strtol s) o v
  step-IsValid (Flag.additionals_url s) o v =
      additional-IsValid (fill_broker_url s) o
        (unfold fill_broker_url in length-fill_clients _ s o.amqp_broker_x) v
  step-IsValid (Flag.additionals_queue s) o v =
      additional-IsValid (fill_broker_topic s) o
        (unfold fill_broker_topic in length-fill_clients _ s o.amqp_broker_x) v
  step-IsValid (Flag.additionals_username s) o v =
      additional-IsValid (fill_amqp_username s) o
        (unfold fill_amqp_username in length-fill_clients _ s o.amqp_broker_x) v
  step-IsValid (Flag.additionals_password s) o v =
      additional-IsValid (fill_amqp_password s) o
        (unfold fill_amqp_password in length-fill_clients _ s o.amqp_broker_x) v
  step-IsValid (Flag.additionals_reconnect s) o v =
      additional-IsValid (fill_amqp_reconnect s) o
        (unfold fill_amqp_reconnect in length-fill_clients _ s o.amqp_broker_x) v
  step-IsValid (Flag.additionals_allow_sasl s) o v =
      additional-IsValid (fill_amqp_allow_sasl s) o
        (unfold fill_amqp_allow_sasl in length-fill_clients _ s o.amqp_broker_x) v
  step-IsValid (Flag.additionals_allow_plain s) o v =
      additional-IsValid (fill_amqp_allow_insecure s) o
        (unfold fill_amqp_allow_insecure in length-fill_clients _ s o.amqp_broker_x) v
  step-IsValid (Flag.additionals_idle_timeout s) o v =
      additional-IsValid (fill_amqp_idle_timeout s) o
        (unfold fill_amqp_idle_timeout in length-fill_clients _ s o.amqp_broker_x) v
  step-IsValid (Flag.additionals_reconn_local_timeout s) o v =
      additional-IsValid (fill_amqp_reconnect_after_local_timeout_expired s) o
        (unfold fill_amqp_reconnect_after_local_timeout_expired in
          length-fill_clients _ s o.amqp_broker_x)
        v
  step-IsValid _ o v = ground arith

  pub parse_loop-IsValid :
      (flags : List Flag) (version_flg : Bool) (o : Options D)
      → IsValid o
      → Ensures (λ r. IsValid r.1) (parse_loop flags version_flg o)
  unfolding parse_loop
  parse_loop-IsValid [] version_flg o v = v
  parse_loop-IsValid (f ∷ fs) version_flg o v =
      Ensures-bind IsValid (λ r. IsValid r.1) (step f o) _ (step-IsValid f o v)
        λ o' v'. parse_loop-IsValid fs _ o' v'
