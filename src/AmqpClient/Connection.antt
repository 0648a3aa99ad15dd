-- ===== src/AmqpClient/Connection.antt =====
-- include/AMQPclient.h and src/AMQPclient.cpp: the settings of a client, and what it connects with in
-- `on_container_start`.
use s_ldm.Common.{
  ℕ, zero, suc, Bool, true, false, ◌||◌, not, Option, none, some, [], ◌∷◌, if◌then◌else◌,
}
use s_ldm.Common.Int.{ℤ, pos, negsuc}
use s_ldm.Numeral.{Text}
use s_ldm.Options.{codes}

-- the members that a setter or the constructor writes
pub record Settings : Type 0 where
  pub conn_url : Text
  pub addr : Text
  pub print_msg : Bool
  pub trigger_enabled : Bool
  pub logfile_name : Text
  pub username : Text
  pub password : Text
  pub reconnect : Bool
  pub allow_sasl : Bool
  pub allow_insecure : Bool
  pub idle_timeout_ms : ℤ
  pub client_id : Text
  pub quadkey_filter : Text

unfoldable pub new_client : (conn_url addr logfile_name : Text) → Settings
new_client conn_url addr logfile_name = record {
  conn_url = conn_url;
  addr = addr;
  print_msg = false;
  trigger_enabled = false;
  logfile_name = logfile_name;
  username = [];
  password = [];
  reconnect = false;
  allow_sasl = false;
  allow_insecure = false;
  idle_timeout_ms = negsuc 0;
  client_id = codes "unset";
  quadkey_filter = [];
}

unfoldable pub set_indicator_trigger_manager : Settings → Settings
set_indicator_trigger_manager s = record s { trigger_enabled = true }

unfoldable pub set_username : Text → Settings → Settings
set_username username s = record s { username = username }

unfoldable pub set_password : Text → Settings → Settings
set_password password s = record s { password = password }

unfoldable pub set_connection_options :
    (allow_sasl allow_insecure reconnect : Bool) → Settings → Settings
set_connection_options allow_sasl allow_insecure reconnect s = record s {
  allow_sasl = allow_sasl;
  allow_insecure = allow_insecure;
  reconnect = reconnect;
}

unfoldable pub set_credentials :
    (username password : Text) (allow_sasl allow_insecure reconnect : Bool) → Settings → Settings
set_credentials username password allow_sasl allow_insecure reconnect s = record s {
  username = username;
  password = password;
  allow_sasl = allow_sasl;
  allow_insecure = allow_insecure;
  reconnect = reconnect;
}

unfoldable pub set_idle_timeout : ℤ → Settings → Settings
set_idle_timeout idle_timeout_ms s = record s { idle_timeout_ms = idle_timeout_ms }

unfoldable pub set_client_id : Text → Settings → Settings
set_client_id id s = record s { client_id = id }

unfoldable pub set_filter : Text → Settings → Settings
set_filter filter s = record s { quadkey_filter = filter }

unfoldable pub set_print_msg : Bool → Settings → Settings
set_print_msg print_msg s = record s { print_msg = print_msg }

-- `proton::duration`
pub data Duration : Type 0 where
  forever : Duration
  milliseconds : ℕ → Duration

-- `proton::connection_options`; `none` is an option that is not set
pub record ConnectionOptions : Type 0 where
  pub user : Option Text
  pub password : Option Text
  pub reconnect : Bool
  pub sasl_enabled : Bool
  pub sasl_allow_insecure_mechs : Bool
  pub idle_timeout : Option Duration

unfoldable pub is_empty : Text → Bool
is_empty [] = true
is_empty (c ∷ s) = false

unfoldable pub text_option : Text → Option Text
unfolding is_empty
text_option s = if is_empty s then none else some s

unfoldable pub timeout_option : ℤ → Option Duration
timeout_option (pos zero) = some forever
timeout_option (pos (suc n)) = some (milliseconds (suc n))
timeout_option (negsuc n) = none

-- `co` and `co_set`
unfoldable pub connection_options : Settings → ConnectionOptions
unfolding text_option timeout_option
connection_options s = record {
  user = text_option s.username;
  password = text_option s.password;
  reconnect = s.reconnect;
  sasl_enabled = s.allow_sasl;
  sasl_allow_insecure_mechs = s.allow_insecure;
  idle_timeout = timeout_option s.idle_timeout_ms;
}

unfoldable pub is_set : Settings → Bool
unfolding is_empty
is_set s =
    not (is_empty s.username)
    || not (is_empty s.password)
    || s.reconnect
    || s.allow_sasl
    || s.allow_insecure
    || (elim s.idle_timeout_ms [ pos n ↦ true | negsuc n ↦ false ])

-- what `connect` and `open_receiver` are called with
pub record Connection : Type 0 where
  pub url : Text
  pub options : Option ConnectionOptions
  pub receiver_addr : Text
  pub selector : Option Text

unfoldable pub on_container_start : Settings → Connection
unfolding is_set connection_options text_option
on_container_start s = record {
  url = s.conn_url;
  options = if is_set s then some (connection_options s) else none;
  receiver_addr = s.addr;
  selector = text_option s.quadkey_filter;
}

-- `m_cont`: null, the container that runs, or one that was destroyed and is still pointed to
pub data ContainerPtr : Type 0 where
  no_container running_container destroyed_container : ContainerPtr

-- `on_container_start` stores the container, which the caller destroys when `run` is left.
unfoldable pub after_run : (started : Bool) → ContainerPtr → ContainerPtr
after_run started c = if started then destroyed_container else c

-- `none` is a call of `stop` on a destroyed container
unfoldable pub force_container_stop : ContainerPtr → Option ContainerPtr
force_container_stop no_container = some no_container
force_container_stop running_container = some no_container
force_container_stop destroyed_container = none
