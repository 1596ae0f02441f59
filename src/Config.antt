-- ===== src/Config.antt =====
-- config.rs: the settings, and `do_from_env`. The file is what the builder makes of its path; times
-- are numbers of nanoseconds.
pub mod Laws
mod Tests
use faf_rust_replayserver.Base.{
  Bytes, ℕ, ◌+◌, ◌*◌, ◌/◌, ◌%◌, ◌^◌, Bool, true, false, ◌||◌, ◌&&◌, Option, none, some, ltb, ◌==◌,
  if◌then◌else◌,
}
use faf_rust_replayserver.Util.F64.{nearest}
use faf_rust_replayserver.Util.Text.{text}

-- An `f64`: a finite one is a whole number divided by a power of 2, with its sign.
pub data Float : Type 0 where
  not_a_number infinity minus_infinity : Float
  finite minus_finite : ℕ → ℕ → Float

pub data ConfigError : Type 0 where
  message not_found : Bytes → ConfigError
  -- of the library: an unreadable file, or a field that does not fit
  from_library : ConfigError

-- A result, or a panic.
pub data Loaded {ℓ} (A : Type ℓ) : Type ℓ where
  loaded : A → Loaded A
  refused : ConfigError → Loaded A
  panicked : Loaded A

infixl 5 ◌>>=◌
abbrev pub ◌>>=◌ {ℓ κ} : {A : Type ℓ} {B : Type κ} → Loaded A → (A → Loaded B) → Loaded B
loaded a >>= f = f a
refused e >>= f = refused e
panicked >>= f = panicked

-- `Duration::from_secs_f64` of a positive number: the seconds are a `u64`.
unfoldable pub from_secs : ℕ → ℕ → Loaded ℕ
from_secs n k =
    let nanos = nearest (n * 1_000_000_000) (2 ^ k) in
    if ltb nanos (2 ^ 64 * 1_000_000_000) then loaded nanos else panicked

-- `float_to_duration`. A comparison with a number that is none is false, and such a number is no time.
unfoldable pub float_to_duration : Float → Loaded ℕ
float_to_duration not_a_number = panicked
float_to_duration infinity = panicked
float_to_duration minus_infinity = refused from_library
float_to_duration (minus_finite n k) = refused from_library
float_to_duration (finite n k) = if n == 0 then refused from_library else from_secs n k

-- The settings, with the times of the file or of the program.
pub record ServerSettings (D : Type 0) : Type 0 where
  pub port : Option ℕ
  pub websocket_port : Option ℕ
  pub prometheus_port : ℕ
  pub worker_threads : ℕ
  pub connection_accept_timeout_s : D

pub record DatabaseSettings : Type 0 where
  pub pool_size : ℕ
  pub host : Bytes
  pub port : ℕ
  pub user : Bytes
  pub password : Bytes
  pub name : Bytes

pub record StorageSettings : Type 0 where
  pub vault_path : Bytes
  pub compression_level : ℕ

pub record ReplaySettings (D : Type 0) : Type 0 where
  pub forced_timeout_s : D
  pub time_with_zero_writers_to_end_replay_s : D
  pub delay_s : D
  pub update_interval_s : D
  pub merge_quorum_size : ℕ
  pub stream_comparison_distance_b : ℕ

pub record InnerSettings (D : Type 0) : Type 0 where
  pub server : ServerSettings D
  pub database : DatabaseSettings
  pub storage : StorageSettings
  pub replay : ReplaySettings D

unfoldable pub server_settings : ServerSettings Float → Loaded (ServerSettings ℕ)
server_settings s = do
  accept ← float_to_duration s.connection_accept_timeout_s
  loaded (record {
    port = s.port;
    websocket_port = s.websocket_port;
    prometheus_port = s.prometheus_port;
    worker_threads = s.worker_threads;
    connection_accept_timeout_s = accept;
  })

unfoldable pub replay_settings : ReplaySettings Float → Loaded (ReplaySettings ℕ)
replay_settings s = do
  forced ← float_to_duration s.forced_timeout_s
  zero_writers ← float_to_duration s.time_with_zero_writers_to_end_replay_s
  delay ← float_to_duration s.delay_s
  interval ← float_to_duration s.update_interval_s
  loaded (record {
    forced_timeout_s = forced;
    time_with_zero_writers_to_end_replay_s = zero_writers;
    delay_s = delay;
    update_interval_s = interval;
    merge_quorum_size = s.merge_quorum_size;
    stream_comparison_distance_b = s.stream_comparison_distance_b;
  })

-- `try_deserialize`, the fields in their order.
unfoldable pub try_deserialize : InnerSettings Float → Loaded (InnerSettings ℕ)
try_deserialize c = do
  server ← server_settings c.server
  replay ← replay_settings c.replay
  loaded (record { server = server; database = c.database; storage = c.storage; replay = replay })

abbrev pub is_none : Option ℕ → Bool
is_none none = true
is_none (some p) = false

-- `set_override` and `add_source`: the password does not come from the file.
unfoldable pub override_password : Bytes → InnerSettings Float → InnerSettings Float
override_password password c = record c { database = record c.database { password = password } }

abbrev pub provided : Option Bytes → ConfigError → Loaded Bytes
provided (some v) e = loaded v
provided none e = refused e

abbrev pub built : Option (InnerSettings Float) → Loaded (InnerSettings Float)
built (some c) = loaded c
built none = refused from_library

unfoldable pub check_ports : InnerSettings ℕ → Loaded (InnerSettings ℕ)
check_ports ret =
    if is_none ret.server.port && is_none ret.server.websocket_port
    then refused
        (message (text "At least one of port, websocket_port must be set in server configuration."))
    else loaded ret

unfoldable pub do_from_env :
    (Bytes → Option (InnerSettings Float)) → Option Bytes → Option Bytes → Loaded (InnerSettings ℕ)
do_from_env file conf_var db_pass_var = do
  config_file ←
      provided conf_var
        (message (text "RS_CONFIG_FILE env var not set, place the path to the config file there."))
  db_password ← provided db_pass_var (not_found (text "Database password was not provided"))
  c ← built (file config_file)
  ret ← try_deserialize (override_password db_password c)
  check_ports ret
