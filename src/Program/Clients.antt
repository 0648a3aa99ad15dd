-- ===== src/Program/Clients.antt =====
-- What the thread of an additional AMQP client connects with.
use s_ldm.Common.{
  ℕ, zero, suc, ◌-◌, ◌≡◌, ◌<◌, refl, ap, sym, subst, ◌∙◌, Bool, true, false, none, some, List, [],
  ◌∷◌, ◌++◌, if◌then◌else◌, leb, get_elem?, length, arith, All, Bool-cases, Option-cases, inl, inr,
}
use s_ldm.Common.Int.{negsuc}
use s_ldm.AmqpClient.Connection.{
  Settings, Connection, new_client, set_indicator_trigger_manager, set_username, set_password,
  set_connection_options, set_idle_timeout, set_client_id, set_filter, on_container_start,
  text_option, is_empty, ContainerPtr, no_container, running_container, destroyed_container,
  after_run, force_container_stop,
}
use s_ldm.Common.Partial.{some_injective, none_ne_some}
use s_ldm.Double.{Double}
use s_ldm.Numeral.{Text}
use s_ldm.OptionString.{OptionsString, options_string_pop, is_unset, IsString}
use s_ldm.Options.{Options, BrokerOptions}
use s_ldm.Options.Parse.Finish.Ready.{IsReachable, IsReady}
use s_ldm.Options.Parse.Step.{max_additional_amqp_clients}
use s_ldm.TriggerManager.{without}
use s_ldm.Program.{
  RunResult, returned, threw, Shared, ClientEnd, ended, invalid_stop, stop_then, connect, set_given,
  broker_client, is_restarted, configure, client_rounds, additional_client,
}

get-few : {A : Type 0} (xs : List A) (i : ℕ) (x : A) → get_elem? xs i ≡ some x → i < length xs
get-few [] i x h = absurd (none_ne_some x h)
get-few (y ∷ xs) zero x h = omega arith
get-few (y ∷ xs) (suc i) x h = omega (arith, get-few xs i x h)

get-All :
    {A : Type 0} (P : A → Type 0) (xs : List A) (i : ℕ) (x : A)
    → get_elem? xs i ≡ some x
    → All P xs
    → P x
get-All P [] i x h ps = absurd (none_ne_some x h)
get-All P (y ∷ xs) zero x h (p, ps) = subst P (some_injective y x h) p
get-All P (y ∷ xs) (suc i) x h (p, ps) = get-All P xs i x h ps

selector_lem :
    (q : Bool) (filter : Text)
    → text_option (if q then filter else []) ≡ (if q then text_option filter else none)
unfolding text_option is_empty
selector_lem true filter = refl
selector_lem false filter = refl

-- the strings of a client were set by `options_string_push`
pub record HasStrings (b : BrokerOptions) : Type 0 where
  pub url : IsString b.broker_url
  pub topic : IsString b.broker_topic
  pub username : IsString b.amqp_username
  pub password : IsString b.amqp_password

-- A string that is set has a text.
options_string_pop-some :
    (s : OptionsString)
    → IsString s
    → is_unset s ≡ false
    → (t : Text) × (options_string_pop s ≡ some t)
unfolding options_string_pop
options_string_pop-some s h e = elim (Option-cases s.buf) [
  | inr (t, f) ↦ (t, f)
  | inl f ↦ let unset : s.len ≡ negsuc 0 = rw f at h in absurd (ground (arith, unset, e))
]

-- A setter leaves the members that it does not write.
set_given-some :
    {A : Type 0} (s : OptionsString) (set : Text → Settings → Settings) (c : Settings)
    (member : Settings → A)
    → ((t : Text) → member (set t c) ≡ member c)
    → IsString s
    → (d : Settings) × (set_given s set c ≡ some d) × (member d ≡ member c)
unfolding set_given
set_given-some s set c member keeps h = elim (Bool-cases (is_unset s)) [
  | inl e ↦ (c, simp (set_given, e), refl)
  | inr e ↦ let (t, f) = options_string_pop-some s h e in (set t c, simp (set_given, e, f), keeps t)
]

-- the shared state after a client has connected
abbrev pub joined : (index : ℕ) → Connection → Shared → Shared
joined index conn s = record s {
  clients = index ∷ without index s.clients;
  connections = s.connections ++ conn ∷ [];
}

-- the shared state after a client has given up, but for the main client
abbrev pub erased : (index : ℕ) → Shared → Shared
erased index s = record s { terminated = true; clients = without index s.clients }

-- how a thread ends that stops the main client
abbrev pub stopped_by : ContainerPtr → Shared → ClientEnd
stopped_by no_container s = ended (record s { main_cont = no_container })
stopped_by running_container s = ended (record s { main_cont = no_container })
stopped_by destroyed_container s = invalid_stop s

stop_then-ended :
    (c : ContainerPtr) (s : Shared)
    → stop_then c s (λ c'. some (ended (record s { main_cont = c' }))) ≡ some (stopped_by c s)
unfolding stop_then force_container_stop
stop_then-ended no_container s = refl
stop_then-ended running_container s = refl
stop_then-ended destroyed_container s = refl

module _ {D : Type 0} where
  -- the settings that a client is given
  pub record IsConfigured (o : Options D) (filter : Text) (c d : Settings) : Type 0 where
    pub same_url : d.conn_url ≡ c.conn_url
    pub same_addr : d.addr ≡ c.addr
    pub filtered : d.quadkey_filter ≡ (if o.quadk_filter_enabled then filter else c.quadkey_filter)

  configure-IsConfigured :
      (o : Options D) (b : BrokerOptions) (client_id filter : Text) (c : Settings)
      → HasStrings b
      → (d : Settings) × (configure o b client_id filter c ≡ some d) × IsConfigured o filter c d
  unfolding configure set_indicator_trigger_manager set_username set_password set_connection_options
      set_idle_timeout set_client_id set_filter
  configure-IsConfigured o b client_id filter c t =
      let kept : Settings → Text × Text × Text = λ u. (u.conn_url, u.addr, u.quadkey_filter) in
      let c' = if o.indicator_trg_man_enabled then set_indicator_trigger_manager c else c in
      let (d, f, same) =
        set_given-some b.amqp_username set_username c' kept (λ u. refl) t.username in
      let (e, g, same') =
        set_given-some b.amqp_password set_password d kept (λ u. refl) t.password in
      let first : kept c' ≡ kept c = elim (Bool-cases o.indicator_trg_man_enabled) [
        | inl h ↦ rw h refl
        | inr h ↦ rw h refl
      ] in
      let all : kept e ≡ kept c = same' ∙ same ∙ first in
      let url : e.conn_url ≡ c.conn_url = ap (λ u. u.0) all in
      let addr : e.addr ≡ c.addr = ap (λ u. u.1) all in
      let unfiltered : e.quadkey_filter ≡ c.quadkey_filter = ap (λ u. u.2) all in
      let base = set_client_id client_id (
        set_idle_timeout b.amqp_idle_timeout
          (set_connection_options b.amqp_allow_sasl b.amqp_allow_insecure b.amqp_reconnect e)) in
      elim (Bool-cases o.quadk_filter_enabled) [
        | inl q ↦ (
          set_filter filter base,
          simp (configure, f, g, q),
          record { same_url = url; same_addr = addr; filtered = rw q refl },
        )
        | inr q ↦ (
          base,
          simp (configure, f, g, q),
          record { same_url = url; same_addr = addr; filtered = rw q unfiltered },
        )
      ]

  module _ (o : Options D) (b : BrokerOptions) (index : ℕ) (client_id filter : Text) where
    client_rounds-returned :
        (rs : List RunResult) (c d : Settings) (s : Shared)
        → configure o b client_id filter c ≡ some d
        → client_rounds o b index client_id filter (returned ∷ rs) c no_container s
          ≡ some (ended (joined index (on_container_start d) s))
    unfolding client_rounds connect
    client_rounds-returned rs c d s h = rw h refl

    client_rounds-threw :
        (what : Text) (rs : List RunResult) (c d : Settings) (s : Shared)
        → configure o b client_id filter c ≡ some d
        → let t = joined index (on_container_start d) s in
          client_rounds o b index client_id filter (threw true what ∷ rs) c no_container s
          ≡ some (
              if is_restarted b what
              then invalid_stop t
              else stopped_by s.main_cont (erased index t))
    unfolding client_rounds connect stop_then after_run force_container_stop
    client_rounds-threw what rs c d s h =
        let t = joined index (on_container_start d) s in
        elim (Bool-cases (is_restarted b what)) [
          | inl e ↦ rw (h, e) refl
          | inr e ↦ rw (h, e) (stop_then-ended s.main_cont (erased index t))
        ]

  -- A connection to the broker of an additional client, for the messages of the filter.
  pub record IsConnected (o : Options D) (b : BrokerOptions) (filter : Text) (conn : Connection)
      : Type 0 where
    pub url : options_string_pop b.broker_url ≡ some conn.url
    pub topic : options_string_pop b.broker_topic ≡ some conn.receiver_addr
    pub selector : conn.selector ≡ (if o.quadk_filter_enabled then text_option filter else none)

module _ {D : Type 0} ⦃dbl : Double D⦄ where
  -- After the command line was accepted, the thread of each additional client connects to the broker
  -- and the topic of that client, with the quadkey filter where it is enabled; it is not refused as
  -- one client too many. Where its run returns, the thread ends with that one connection. Where its
  -- run throws after it has connected, and the client is set to be restarted after this exception,
  -- the thread does not connect again: it calls `stop` on the container that was destroyed with the
  -- exception. Where it is not restarted, the client is removed, the program is terminated, and the
  -- main client is stopped, which is such a call too where the container of the main client was
  -- destroyed.
  pub additional_client-IsConnected :
      (o : Options D) (index : ℕ) (client_id logfile_name filter what : Text) (rs : List RunResult)
      (s : Shared) (b : BrokerOptions)
      → IsReady o
      → get_elem? o.amqp_broker_x index ≡ some b
      → HasStrings b
      → (conn : Connection) × IsConnected o b filter conn
        × (additional_client o index client_id logfile_name filter (returned ∷ rs) s
            ≡ some (ended (joined index conn s)))
        × (additional_client o index client_id logfile_name filter (threw true what ∷ rs) s
            ≡ some (
                if is_restarted b what
                then invalid_stop (joined index conn s)
                else stopped_by s.main_cont (erased index (joined index conn s))))
  unfolding additional_client broker_client on_container_start new_client
  additional_client-IsConnected o index client_id logfile_name filter what rs s b
        (valid, strings, world, reachable) found t =
      let (set_url, set_topic) = get-All IsReachable o.amqp_broker_x index b found reachable in
      let (url, has_url) = options_string_pop-some b.broker_url t.url set_url in
      let (topic, has_topic) = options_string_pop-some b.broker_topic t.topic set_topic in
      let few : leb (max_additional_amqp_clients - 1) index ≡ false =
        ground (arith, get-few o.amqp_broker_x index b found, valid.clients, valid.few_clients) in
      let c = new_client url topic logfile_name in
      let (d, f, configured) = configure-IsConfigured o b client_id filter c t in
      (
        on_container_start d,
        record {
          url = has_url ∙ ap some (sym configured.same_url);
          topic = has_topic ∙ ap some (sym configured.same_addr);
          selector =
              ap text_option configured.filtered ∙ selector_lem o.quadk_filter_enabled filter;
        },
        rw (few, found, has_url, has_topic)
            (client_rounds-returned o b index client_id filter rs c d s f),
        rw (few, found, has_url, has_topic)
            (client_rounds-threw o b index client_id filter what rs c d s f),
      )
