-- ===== src/Config/Tests.antt =====
-- Witness for the settings.
use faf_rust_replayserver.Base.{Bytes, ◌≡◌, refl, [], some, none, Option}
use faf_rust_replayserver.Util.F64.{nearest}
use faf_rust_replayserver.Util.Text.{text}
use faf_rust_replayserver.Config.{
  Float, finite, loaded, InnerSettings, do_from_env, try_deserialize, server_settings,
  replay_settings, float_to_duration, from_secs, override_password, check_ports,
}
use faf_rust_replayserver.Config.Laws.{Loads, do_from_env-Loads}

-- The settings of a file, or those of the program, with a time of 1 and the others of 0.5 seconds.
abbrev settings : {D : Type 0} → Bytes → D → D → InnerSettings D
settings password second half = record {
  server = record {
    port = some 15000;
    websocket_port = none;
    prometheus_port = 8001;
    worker_threads = 8;
    connection_accept_timeout_s = second;
  };
  database = record {
    pool_size = 8;
    host = text "localhost";
    port = 3306;
    user = text "root";
    password = password;
    name = text "faf";
  };
  storage = record { vault_path = text "/tmp/foo"; compression_level = 10 };
  replay = record {
    forced_timeout_s = half;
    time_with_zero_writers_to_end_replay_s = half;
    delay_s = half;
    update_interval_s = half;
    merge_quorum_size = 2;
    stream_comparison_distance_b = 4096;
  };
}

abbrev file : Bytes → Option (InnerSettings Float)
file path = some (settings [] (finite 1 0) (finite 1 1))

loads :
    do_from_env file (some (text "config.toml")) (some (text "banana"))
    ≡ loaded (settings (text "banana") 1_000_000_000 500_000_000)
unfolding do_from_env try_deserialize server_settings replay_settings float_to_duration from_secs
    nearest override_password check_ports
loads = refl

do_from_env-Loads_example :
    Loads file
      (some (text "config.toml"))
      (some (text "banana"))
      (settings (text "banana") 1_000_000_000 500_000_000)
do_from_env-Loads_example =
    do_from_env-Loads file (some (text "config.toml")) (some (text "banana"))
      (settings (text "banana") 1_000_000_000 500_000_000) loads
