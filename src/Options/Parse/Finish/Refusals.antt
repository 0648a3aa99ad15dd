-- ===== src/Options/Parse/Finish/Refusals.antt =====
-- The command lines that `parse_options` never accepts.
use s_ldm.Common.{
  ◌≢◌, ◌≡◌, refl, Bool, true, false, ◌||◌, List, [], ◌∷◌, ◌==◌, arith, Bool-cases, inl, inr, sym,
}
use s_ldm.Double.{Double}
use s_ldm.Numeral.{strtol, LongResult}
use s_ldm.Options.{Options, BrokerOptions, DoubleScan, init_code}
use s_ldm.Options.Clients.{
  fill_broker_url, fill_broker_topic, fill_amqp_username, fill_amqp_password, fill_amqp_reconnect,
  fill_amqp_allow_sasl, fill_amqp_allow_insecure, fill_amqp_idle_timeout,
  fill_amqp_reconnect_after_local_timeout_expired,
}
use s_ldm.Options.Flags.{Flag}
use s_ldm.Options.Parse.{Outcome, ok, fails, exits_success, exits_failure, ◌>>=◌}
use s_ldm.Options.Parse.Step.{step, enable_clients, additional}
use s_ldm.Options.Parse.Finish.{
  check_clients, set_defaults, default_string, check_area, parse_loop, parse_options, out_of,
  is_version,
}
use s_ldm.Options.Parse.Finish.Valid.{Ensures, Ensures-bind}

unfoldable pub is_area : Flag → Bool
is_area (Flag.area s) = true
is_area _ = false

-- whether a flag of the list passes the test
abbrev pub any : (Flag → Bool) → List Flag → Bool
any p [] = false
any p (f ∷ fs) = p f || any p fs

abbrev pub Refused {ℓ} : {A : Type ℓ} → Outcome A → Type ℓ
Refused {A = A} m = (a : A) → ¬ (m ≡ ok a)

Refused-bind {ℓ κ ν} :
    {A : Type ℓ} {B : Type κ} (P : A → Type ν) (m : Outcome A) (f : A → Outcome B)
    → Ensures P m
    → ((a : A) → P a → Refused (f a))
    → Refused (m >>= f)
Refused-bind P (ok a) f p h = h a p
Refused-bind P fails f p h = λ b e. absurd (cc e)
Refused-bind P exits_success f p h = λ b e. absurd (cc e)
Refused-bind P exits_failure f p h = λ b e. absurd (cc e)

or_swap : (a b c : Bool) → (b || (a || c)) ≡ ((a || b) || c)
or_swap a b c = ground arith

Ensures-any {ℓ} : {A : Type ℓ} (m : Outcome A) → Ensures (λ a. Unit {0}) m
Ensures-any (ok a) = tt
Ensures-any fails = tt
Ensures-any exits_success = tt
Ensures-any exits_failure = tt

module _ {D : Type 0} ⦃dbl : Double D⦄ ⦃scan : DoubleScan D⦄ where
  abbrev Keeps : Options D → Outcome (Options D) → Type 0
  Keeps o m = Ensures (λ o'. o'.min_lat ≡ o.min_lat) m

  additional-Keeps :
      (fill : List BrokerOptions → Bool × List BrokerOptions) (o : Options D)
      → Keeps o (additional fill o)
  unfolding additional
  additional-Keeps fill o = ground arith

  enable_clients-Keeps : (r : LongResult) (o : Options D) → Keeps o (enable_clients r o)
  unfolding enable_clients
  enable_clients-Keeps r o = ground arith

  step-Keeps : (f : Flag) (o : Options D) → is_area f ≡ false → Keeps o (step f o)
  unfolding step is_area
  step-Keeps (Flag.area s) o e = absurd (cc e)
  step-Keeps (Flag.enable_additionals s) o e = enable_clients-Keeps (strtol s) o
  step-Keeps (Flag.additionals_url s) o e = additional-Keeps (fill_broker_url s) o
  step-Keeps (Flag.additionals_queue s) o e = additional-Keeps (fill_broker_topic s) o
  step-Keeps (Flag.additionals_username s) o e = additional-Keeps (fill_amqp_username s) o
  step-Keeps (Flag.additionals_password s) o e = additional-Keeps (fill_amqp_password s) o
  step-Keeps (Flag.additionals_reconnect s) o e = additional-Keeps (fill_amqp_reconnect s) o
  step-Keeps (Flag.additionals_allow_sasl s) o e = additional-Keeps (fill_amqp_allow_sasl s) o
  step-Keeps (Flag.additionals_allow_plain s) o e = additional-Keeps (fill_amqp_allow_insecure s) o
  step-Keeps (Flag.additionals_idle_timeout s) o e = additional-Keeps (fill_amqp_idle_timeout s) o
  step-Keeps (Flag.additionals_reconn_local_timeout s) o e =
      additional-Keeps (fill_amqp_reconnect_after_local_timeout_expired s) o
  step-Keeps _ o e = ground arith

  parse_loop-Keeps :
      (flags : List Flag) (version_flg : Bool) (o : Options D)
      → any is_area flags ≡ false
      → Ensures (λ r. r.1.min_lat ≡ o.min_lat) (parse_loop flags version_flg o)
  unfolding parse_loop
  parse_loop-Keeps [] version_flg o e = refl
  parse_loop-Keeps (f ∷ fs) version_flg o e =
      Ensures-bind (λ o'. o'.min_lat ≡ o.min_lat) _ (step f o) _ (step-Keeps f o (ground arith))
        λ o' k. rw (sym k) (parse_loop-Keeps fs _ o' (ground arith))

  parse_loop_version :
      (flags : List Flag) (version_flg : Bool) (o : Options D)
      → Ensures (λ r. r.0 ≡ (any is_version flags || version_flg)) (parse_loop flags version_flg o)
  unfolding parse_loop
  parse_loop_version [] version_flg o = refl
  parse_loop_version (f ∷ fs) version_flg o =
      Ensures-bind (λ o'. Unit {0}) _ (step f o) _ (Ensures-any (step f o))
        λ o' u.
          rw (sym (or_swap (is_version f) (any is_version fs) version_flg))
            (parse_loop_version fs (is_version f || version_flg) o')

  next {ℓ} :
      {A : Type ℓ} (o : Options D) (m : Outcome A) (f : A → Outcome (Options D))
      → ((a : A) → Keeps o (f a))
      → Keeps o (m >>= f)
  next o m f h = Ensures-bind (λ a. Unit {0}) _ m _ (Ensures-any m) (λ a u. h a)

  set_defaults-Keeps : (o : Options D) → Keeps o (set_defaults o)
  unfolding set_defaults
  set_defaults-Keeps o = next o (default_string o.amqp_broker_one.broker_url _) _ λ url.
      next o (default_string o.amqp_broker_one.broker_topic _) _ λ topic.
        next o (default_string o.ms_rest_addr _) _ λ addr.
          next o (default_string o.vehviz_nodejs_addr _) _
            λ nodejs. next o (default_string o.gn_timestamp_property _) _ λ gn. refl

  no_area-Refused :
      (flags : List Flag) (o : Options D)
      → any is_area flags ≡ false
      → out_of 90 o.min_lat ≡ true
      → Refused (parse_options flags o)
  unfolding parse_options check_area
  no_area-Refused flags o e out = elim (Bool-cases (o.init_code == init_code)) [
    | inr i ↦ rw i (λ a x. absurd (cc x))
    | inl i ↦ rw i (
        Refused-bind (λ r. r.1.min_lat ≡ o.min_lat) _ _ (parse_loop-Keeps flags false o e)
          λ (flag, o') k. elim (Bool-cases flag) [
            | inl t ↦ rw t (λ a x. absurd (cc x))
            | inr t ↦ rw t (
                Refused-bind (λ u. Unit {0}) _ _ (Ensures-any (check_clients o'.amqp_broker_x))
                  λ u v.
                    Refused-bind (λ full. full.min_lat ≡ o'.min_lat) _ _ (set_defaults-Keeps o')
                      λ full k'. rw (k', k, out) (λ a x. absurd (cc x)))
          ])
  ]

  version-Refused :
      (flags : List Flag) (o : Options D)
      → any is_version flags ≡ true
      → Refused (parse_options flags o)
  unfolding parse_options
  version-Refused flags o e = elim (Bool-cases (o.init_code == init_code)) [
    | inr i ↦ rw i (λ a x. absurd (cc x))
    | inl i ↦ rw i (
        Refused-bind (λ r. r.0 ≡ (any is_version flags || false)) _ _
          (parse_loop_version flags false o) λ r k. rw (k, e) (λ a x. absurd (cc x)))
  ]

  -- Where the minimum latitude is out of range at the start, `parse_options` never returns 0 for a
  -- command line without an area.
  pub parse_options_no_area :
      (flags : List Flag) (o o' : Options D)
      → any is_area flags ≡ false
      → out_of 90 o.min_lat ≡ true
      → parse_options flags o ≢ ok o'
  parse_options_no_area flags o o' e out = no_area-Refused flags o e out o'

  -- With a `--version` on the command line `parse_options` never returns 0, whatever else stands there.
  pub parse_options_version :
      (flags : List Flag) (o o' : Options D)
      → any is_version flags ≡ true
      → parse_options flags o ≢ ok o'
  parse_options_version flags o o' e = version-Refused flags o e o'
