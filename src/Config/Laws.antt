-- ===== src/Config/Laws.antt =====
-- What holds of settings that were loaded.
use mathlib.Core.Path.{subst}
use faf_rust_replayserver.Base.{
  Bytes, ℕ, ◌*◌, ◌^◌, ◌<◌, ◌≡◌, ◌≢◌, refl, sym, inl, inr, false, ◌&&◌, [], Option, none, some,
  arith, ltb, ◌==◌, Bool-cases,
}
use faf_rust_replayserver.Util.F64.{nearest}
use faf_rust_replayserver.Server.Accept.{collect_server_connections}
use faf_rust_replayserver.Config.{
  Float, finite, ConfigError, Loaded, loaded, refused, panicked, ◌>>=◌, from_secs,
  float_to_duration, ServerSettings, ReplaySettings, InnerSettings, server_settings,
  replay_settings, try_deserialize, is_none, override_password, provided, built, check_ports,
  do_from_env,
}

>>=-eq-loaded {ℓ κ} :
    {A : Type ℓ} {B : Type κ} (m : Loaded A) (f : A → Loaded B) {b : B}
    → (m >>= f) ≡ loaded b
    → (a : A) × (m ≡ loaded a) × (f a ≡ loaded b)
>>=-eq-loaded (loaded a) f h = (a, refl, h)
>>=-eq-loaded (refused e) f h = cc
>>=-eq-loaded panicked f h = cc

-- A time of the file that is a positive number, and the time of the program.
abbrev pub Times : Float → ℕ → Type 0
Times d t =
    (n : ℕ) × (k : ℕ) × (d ≡ finite n k)
    × (0 < n)
    × (t ≡ nearest (n * 1_000_000_000) (2 ^ k))
    × (t < 2 ^ 64 * 1_000_000_000)

float_to_duration-Times : (d : Float) (t : ℕ) → float_to_duration d ≡ loaded t → Times d t
unfolding float_to_duration from_secs
float_to_duration-Times (finite n k) t h = elim (Bool-cases (n == 0)) [
  | inl zero_time ↦ absurd (cc (h, zero_time))
  | inr positive ↦
      let nanos = nearest (n * 1_000_000_000) (2 ^ k) in
      elim (Bool-cases (ltb nanos (2 ^ 64 * 1_000_000_000))) [
        | inl fits ↦
            let same : nanos ≡ t = cc (h, positive, fits) in
            (n, k, refl, ground arith, sym same, ground (arith, same))
        | inr overflow ↦ absurd (cc (h, positive, overflow))
      ]
]
float_to_duration-Times Float.not_a_number t h = cc
float_to_duration-Times Float.infinity t h = cc
float_to_duration-Times Float.minus_infinity t h = cc
float_to_duration-Times (Float.minus_finite n k) t h = cc

-- The settings of the program against those of the file.
abbrev pub Serves : ServerSettings Float → ServerSettings ℕ → Type 0
Serves c s =
    (s.port ≡ c.port)
    × (s.websocket_port ≡ c.websocket_port)
    × (s.prometheus_port ≡ c.prometheus_port)
    × (s.worker_threads ≡ c.worker_threads)
    × Times c.connection_accept_timeout_s s.connection_accept_timeout_s

abbrev pub Plays : ReplaySettings Float → ReplaySettings ℕ → Type 0
Plays c s =
    Times c.forced_timeout_s s.forced_timeout_s
    × Times c.time_with_zero_writers_to_end_replay_s s.time_with_zero_writers_to_end_replay_s
    × Times c.delay_s s.delay_s
    × Times c.update_interval_s s.update_interval_s
    × (s.merge_quorum_size ≡ c.merge_quorum_size)
    × (s.stream_comparison_distance_b ≡ c.stream_comparison_distance_b)

server_settings-Serves :
    (c : ServerSettings Float) (s : ServerSettings ℕ) → server_settings c ≡ loaded s → Serves c s
unfolding server_settings
server_settings-Serves c s h =
    let (accept, e, f) = >>=-eq-loaded (float_to_duration c.connection_accept_timeout_s) _ h in
    let accepts = float_to_duration-Times c.connection_accept_timeout_s accept e in
    let s' : ServerSettings ℕ = record {
      port = c.port;
      websocket_port = c.websocket_port;
      prometheus_port = c.prometheus_port;
      worker_threads = c.worker_threads;
      connection_accept_timeout_s = accept;
    } in
    let same : s' ≡ s = cc f in subst (Serves c) same (refl, refl, refl, refl, accepts)

replay_settings-Plays :
    (c : ReplaySettings Float) (s : ReplaySettings ℕ) → replay_settings c ≡ loaded s → Plays c s
unfolding replay_settings
replay_settings-Plays c s h =
    let (forced, e₁, h₁) = >>=-eq-loaded (float_to_duration c.forced_timeout_s) _ h in
    let (zero_writers, e₂, h₂) =
      >>=-eq-loaded (float_to_duration c.time_with_zero_writers_to_end_replay_s) _ h₁ in
    let (delay, e₃, h₃) = >>=-eq-loaded (float_to_duration c.delay_s) _ h₂ in
    let (interval, e₄, h₄) = >>=-eq-loaded (float_to_duration c.update_interval_s) _ h₃ in
    let s' : ReplaySettings ℕ = record {
      forced_timeout_s = forced;
      time_with_zero_writers_to_end_replay_s = zero_writers;
      delay_s = delay;
      update_interval_s = interval;
      merge_quorum_size = c.merge_quorum_size;
      stream_comparison_distance_b = c.stream_comparison_distance_b;
    } in
    let same : s' ≡ s = cc h₄ in
    subst (Plays c) same (
      float_to_duration-Times c.forced_timeout_s forced e₁,
      float_to_duration-Times c.time_with_zero_writers_to_end_replay_s zero_writers e₂,
      float_to_duration-Times c.delay_s delay e₃,
      float_to_duration-Times c.update_interval_s interval e₄,
      refl,
      refl,
    )

abbrev pub Settles : InnerSettings Float → InnerSettings ℕ → Type 0
Settles c s =
    Serves c.server s.server
    × Plays c.replay s.replay
    × (s.database ≡ c.database)
    × (s.storage ≡ c.storage)

try_deserialize-Settles :
    (c : InnerSettings Float) (s : InnerSettings ℕ) → try_deserialize c ≡ loaded s → Settles c s
unfolding try_deserialize
try_deserialize-Settles c s h =
    let (server, e, h₁) = >>=-eq-loaded (server_settings c.server) _ h in
    let (replay, f, h₂) = >>=-eq-loaded (replay_settings c.replay) _ h₁ in
    let s' : InnerSettings ℕ = record {
      server = server;
      database = c.database;
      storage = c.storage;
      replay = replay;
    } in
    let same : s' ≡ s = cc h₂ in
    subst (Settles c) same (
      server_settings-Serves c.server server e,
      replay_settings-Plays c.replay replay f,
      refl,
      refl,
    )

-- There is a port to listen on.
check_ports-same :
    (ret s : InnerSettings ℕ)
    → check_ports ret ≡ loaded s
    → (ret ≡ s) × ((is_none ret.server.port && is_none ret.server.websocket_port) ≡ false)
unfolding check_ports
check_ports-same ret s h =
    elim (Bool-cases (is_none ret.server.port && is_none ret.server.websocket_port)) [
      | inl no_port ↦ absurd (cc (h, no_port))
      | inr a_port ↦ (cc (h, a_port), a_port)
    ]

listens :
    (tcp websocket : ℕ → ℕ) (p q : Option ℕ)
    → (is_none p && is_none q) ≡ false
    → (collect_server_connections tcp websocket p q).0 ≢ []
unfolding collect_server_connections
listens tcp websocket none none e h = cc
listens tcp websocket none (some q) e h = cc
listens tcp websocket (some p) none e h = cc
listens tcp websocket (some p) (some q) e h = cc

-- Settings come from the file of `RS_CONFIG_FILE`, with the password of `RS_DB_PASSWORD`, and there
-- is a stream of connections to listen to.
abbrev pub Loads :
    (Bytes → Option (InnerSettings Float)) → Option Bytes → Option Bytes → InnerSettings ℕ → Type 0
Loads file conf_var db_pass_var s =
    (path : Bytes) × (password : Bytes) × (c : InnerSettings Float) × (conf_var ≡ some path)
    × (db_pass_var ≡ some password)
    × (file path ≡ some c)
    × Settles (override_password password c) s
    × ((tcp websocket : ℕ → ℕ)
        → (collect_server_connections tcp websocket s.server.port s.server.websocket_port).0 ≢ [])

provided-some :
    (o : Option Bytes) (e : ConfigError) (v : Bytes) → provided o e ≡ loaded v → o ≡ some v
provided-some (some w) e v h = cc h
provided-some none e v h = cc

built-some :
    (o : Option (InnerSettings Float)) (c : InnerSettings Float) → built o ≡ loaded c → o ≡ some c
built-some (some d) c h = cc h
built-some none c h = cc

-- Whatever the environment and the file are, settings that `do_from_env` loads are those of the
-- file that the environment names, with the password of the environment; every time in them is a
-- positive finite number of the file, rounded to nanoseconds, and fits a `Duration`; and the
-- server has at least one stream of connections to listen to.
pub do_from_env-Loads :
    (file : Bytes → Option (InnerSettings Float)) (conf_var db_pass_var : Option Bytes)
    (s : InnerSettings ℕ)
    → do_from_env file conf_var db_pass_var ≡ loaded s
    → Loads file conf_var db_pass_var s
unfolding do_from_env
do_from_env-Loads file conf_var db_pass_var s h =
    let (path, e₁, h₁) = >>=-eq-loaded (provided conf_var _) _ h in
    let (password, e₂, h₂) = >>=-eq-loaded (provided db_pass_var _) _ h₁ in
    let (c, e₃, h₃) = >>=-eq-loaded (built (file path)) _ h₂ in
    let (ret, e₄, h₄) = >>=-eq-loaded (try_deserialize (override_password password c)) _ h₃ in
    let (same, a_port) = check_ports-same ret s h₄ in
    (
      path,
      password,
      c,
      provided-some conf_var _ path e₁,
      provided-some db_pass_var _ password e₂,
      built-some (file path) c e₃,
      subst (Settles (override_password password c)) same
          (try_deserialize-Settles (override_password password c) ret e₄),
      λ tcp websocket. listens tcp websocket s.server.port s.server.websocket_port (
          subst (λ r. (is_none r.server.port && is_none r.server.websocket_port) ≡ false) same
            a_port),
    )
