-- ===== src/Program.antt =====
-- src/main.cpp: the threads of the AMQP clients, and what `main` prepares for them.
mod Tests
pub mod Clients
pub mod Threads
use s_ldm.Common.{
  ℕ, ◌+◌, ◌-◌, Bool, true, false, ◌&&◌, Option, none, some, List, [], ◌∷◌, ◌++◌, if◌then◌else◌, leb,
  get_elem?,
}
use s_ldm.Common.Int.{pos}
use s_ldm.AmqpClient.Connection.{
  Settings, Connection, new_client, set_indicator_trigger_manager, set_username, set_password,
  set_connection_options, set_idle_timeout, set_client_id, set_filter, on_container_start,
  ContainerPtr, no_container, after_run, force_container_stop,
}
use s_ldm.Decoder.Bytes.{◌>>=◌}
use s_ldm.Double.{Double}
use s_ldm.Numeral.{Text, same_text, to_string}
use s_ldm.OptionString.{OptionsString, options_string_pop, is_unset}
use s_ldm.Options.{Options, BrokerOptions, codes}
use s_ldm.Options.Parse.Step.{max_additional_amqp_clients}
use s_ldm.QuadKey.Filter.{Area, Decimal, FilterResult, get_quadkey_filter}
use s_ldm.QuadKey.Tile.{Projection, new_quadkey, set_level_of_detail}
use s_ldm.TriggerManager.{without}

-- how `proton::container(client).run()` ends: it returns, or throws, after `on_container_start` or
-- before it
pub data RunResult : Type 0 where
  returned : RunResult
  threw : (started : Bool) → (what : Text) → RunResult

-- whether the client was connected in the run
abbrev pub is_started : RunResult → Bool
is_started returned = true
is_started (threw started what) = started

-- What the threads share: `terminatorFlag`, the keys of `amqpclimap`, the `m_cont` of the main
-- client, and the connections that were made.
pub record Shared : Type 0 where
  pub terminated : Bool
  pub clients : List ℕ
  pub main_cont : ContainerPtr
  pub connections : List Connection

-- How the code of a client ends: it is left, or it calls `stop` on a container that was destroyed,
-- after which nothing is known.
pub data ClientEnd : Type 0 where
  ended : (left : Shared) → ClientEnd
  invalid_stop : (reached : Shared) → ClientEnd

-- `force_container_stop`, and what comes after it
unfoldable pub stop_then :
    ContainerPtr → Shared → (ContainerPtr → Option ClientEnd) → Option ClientEnd
unfolding force_container_stop
stop_then c s next = elim (force_container_stop c) [
  | none ↦ some (invalid_stop s)
  | some c' ↦ next c'
]

-- the connection of a run
unfoldable pub connect : (started : Bool) → Settings → Shared → Shared
connect started d s =
    if started then record s { connections = s.connections ++ on_container_start d ∷ [] } else s

abbrev pub idle_timeout_error : Text
idle_timeout_error = codes "amqp:resource-limit-exceeded: local-idle-timeout expired"

-- a setter that is called where its option is set
unfoldable pub set_given : OptionsString → (Text → Settings → Settings) → Settings → Option Settings
set_given s set c =
    let given = options_string_pop s >>= λ t. some (set t c) in if is_unset s then some c else given

-- the constructor; a null pointer in place of a text is an exception
unfoldable pub broker_client : BrokerOptions → (logfile_name : Text) → Option Settings
broker_client b logfile_name = options_string_pop b.broker_url >>= λ url.
    options_string_pop b.broker_topic >>= λ topic. some (new_client url topic logfile_name)

-- whether the client is restarted after an exception
unfoldable pub is_restarted : BrokerOptions → (what : Text) → Bool
is_restarted b what =
    b.amqp_reconnect_after_local_timeout_expired && same_text what idle_timeout_error

module _ {D : Type 0} where
  -- the setters at the start of the `try` block
  unfoldable pub configure :
      Options D → BrokerOptions → (client_id filter : Text) → Settings → Option Settings
  unfolding set_given set_indicator_trigger_manager set_username set_password set_connection_options
      set_idle_timeout set_client_id set_filter
  configure o b client_id filter c =
      set_given b.amqp_username set_username
        (if o.indicator_trg_man_enabled then set_indicator_trigger_manager c else c)
      >>= λ d. set_given b.amqp_password set_password d >>= λ e.
          let f = set_client_id client_id (
            set_idle_timeout b.amqp_idle_timeout (
              set_connection_options b.amqp_allow_sasl b.amqp_allow_insecure b.amqp_reconnect e)) in
          some (if o.quadk_filter_enabled then set_filter filter f else f)

  -- The `do` loop of `AMQPclient_t`, over the ends of its runs, with the client's own `m_cont`;
  -- `none` where a last run has not ended.
  unfoldable pub client_rounds :
      Options D
      → BrokerOptions
      → (index : ℕ) (client_id filter : Text) → List RunResult
      → Settings
      → ContainerPtr
      → Shared
      → Option ClientEnd
  unfolding configure is_restarted after_run connect stop_then
  client_rounds o b index client_id filter [] c own s = none
  client_rounds o b index client_id filter (r ∷ rs) c own s =
      configure o b client_id filter c >>= λ d.
      let listed = record s { clients = index ∷ without index s.clients } in
      let s' = connect (is_started r) d listed in
      let again : ContainerPtr → Option ClientEnd =
        λ own'. client_rounds o b index client_id filter rs d own' s' in
      let erased = record s' { terminated = true; clients = without index s'.clients } in
      elim r [
        | returned ↦ some (ended s')
        | threw started what ↦
            if is_restarted b what
            then stop_then (after_run started own) s' again
            else stop_then s'.main_cont erased λ c'. some (ended (record erased { main_cont = c' }))
      ]

  -- `AMQPclient_t`; a new client has no container
  unfoldable pub additional_client :
      Options D
      → (index : ℕ) (client_id logfile_name filter : Text) → List RunResult
      → Shared
      → Option ClientEnd
  unfolding broker_client client_rounds
  additional_client o index client_id logfile_name filter rs s =
      let started = get_elem? o.amqp_broker_x index >>= λ b. broker_client b logfile_name >>= λ c.
      client_rounds o b index client_id filter rs c no_container s in
      if leb (max_additional_amqp_clients - 1) index
      then some (ended (record s { terminated = true }))
      else started

  -- the `do` loop of `main`, for the main client
  unfoldable pub main_rounds :
      Options D → (filter : Text) → List RunResult → Settings → Shared → Option ClientEnd
  unfolding configure is_restarted after_run connect stop_then
  main_rounds o filter [] c s = none
  main_rounds o filter (r ∷ rs) c s = configure o o.amqp_broker_one (codes "1") filter c >>= λ d.
      let left = record s { main_cont = after_run (is_started r) s.main_cont } in
      let s' = connect (is_started r) d left in
      let again : ContainerPtr → Option ClientEnd =
        λ c'. main_rounds o filter rs d (record s' { main_cont = c' }) in
      elim r [
        | returned ↦ some (ended s')
        | threw started what ↦
            if is_restarted o.amqp_broker_one what
            then stop_then s'.main_cont s' again
            else some (ended (record s' { terminated = true }))
      ]

-- the log file of the additional client with an index
unfoldable pub client_logfile : (logfile_name : Text) → ℕ → Text
client_logfile logfile_name i =
    if same_text logfile_name (codes "stdout")
    then codes "stdout"
    else logfile_name ++ to_string (i + 2)

module _ {D : Type 0} ⦃dbl : Double D⦄ where
  -- the internal and the external area together
  unfoldable pub full_area : Options D → Area D
  full_area o = record {
    min_latitude = dbl.sub o.min_lat o.ext_lat_factor;
    max_latitude = dbl.add o.max_lat o.ext_lat_factor;
    min_longitude = dbl.sub o.min_lon o.ext_lon_factor;
    max_longitude = dbl.add o.max_lon o.ext_lon_factor;
  }

  -- the filter of all clients, at the level of detail 16
  unfoldable pub filter_of :
      ⦃proj : Projection D⦄ ⦃dec : Decimal D⦄
      → (fuel : ℕ) (writable : Bool) → (cache_file : Option (List Text)) → Options D
      → Option FilterResult
  unfolding full_area
  filter_of fuel writable cache_file o =
      get_quadkey_filter fuel (set_level_of_detail (pos 16) new_quadkey) writable cache_file
        (full_area o)
