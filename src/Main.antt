-- ===== src/Main.antt =====
-- `main` (src/main.cpp): the configuration file, the arguments and the replay mode. The configuration that
-- C++ makes by default is a parameter, since its type is not in the repository.
pub mod Completion
pub mod Normal
pub mod Tests
use challenge_8a2ffd.Common.{
  ℕ, zero, suc, Bool, true, false, ◌&&◌, ◌||◌, String, Option, none, some, List, [], ◌∷◌,
  if◌then◌else◌,
}
use challenge_8a2ffd.Common.Double.{Double}
use challenge_8a2ffd.Common.Int.{ℤ, pos}
use challenge_8a2ffd.Common.Json.{◌>>=◌}
use challenge_8a2ffd.Sharding.Hash.{Bytes}
use challenge_8a2ffd.Texts.{bytes, same_bytes}
use challenge_8a2ffd.Adapters.Document.{
  Document, Parser, string_value, double_value, int_value, bool_value,
}
use challenge_8a2ffd.Replay.{
  ReplayConfig, ReplayEvent, ReplayEngine, constructed, load_events_from_file,
}
use challenge_8a2ffd.Replay.Playing.{RiskEngineCalls, start_replay}
use challenge_8a2ffd.Replay.Progress.{process_next_event, go_on}

pub record RiskEngineConfig (D : Type 0) : Type 0 where
  pub latency_target_us : ℤ
  pub p99_target : ℤ
  pub sharding_strategy : Bytes
  pub circuit_breaker_enabled : Bool
  pub circuit_breaker_threshold_multiplier : D
  pub circuit_breaker_reset_timeout_ms : ℤ
  pub kill_switch_enabled : Bool
  pub kill_switch_threshold_deviation : D
  pub kill_switch_window_ms : ℤ

-- The parsed file, and the value of each of its members as a JSON text of its own.
pub record ConfigText (D : Type 0) : Type 0 where
  pub root : Document D
  pub member : String → Document D

-- A group of settings that is read where it is there.
abbrev pub if_present {ℓ} : {A : Type ℓ} → Bool → Option A → A → Option A
if_present false read config = some config
if_present true read config = read

module _ {D : Type 0} ⦃d : Double D⦄ where
  unfoldable pub read_circuit_breaker :
      Document D → RiskEngineConfig D → Option (RiskEngineConfig D)
  read_circuit_breaker json config = do
    enabled ← bool_value json "enabled" true
    multiplier ← double_value json "thresholdMultiplier" (d.lit 15 10)
    timeout ← int_value json "resetTimeoutMs" (pos 5000)
    some (record config {
      circuit_breaker_enabled = enabled;
      circuit_breaker_threshold_multiplier = multiplier;
      circuit_breaker_reset_timeout_ms = timeout;
    })

  unfoldable pub read_kill_switch : Document D → RiskEngineConfig D → Option (RiskEngineConfig D)
  read_kill_switch json config = do
    enabled ← bool_value json "enabled" true
    deviation ← double_value json "thresholdDeviation" (d.lit 3 1)
    window ← int_value json "anomalyDetectionWindowMs" (pos 60000)
    some (record config {
      kill_switch_enabled = enabled;
      kill_switch_threshold_deviation = deviation;
      kill_switch_window_ms = window;
    })

  unfoldable pub read_config : ConfigText D → RiskEngineConfig D → Option (RiskEngineConfig D)
  read_config text config = do
    latency ← int_value text.root "latencyTargetUs" (pos 500)
    p99 ← int_value text.root "p99Target" (pos 500)
    strategy ← string_value text.root "shardingStrategy" (bytes "byInstrument")
    with_breaker ←
        if_present (text.root.is_object && text.root.contains "circuitBreaker")
          (read_circuit_breaker (text.member "circuitBreaker") (record config {
            latency_target_us = latency;
            p99_target = p99;
            sharding_strategy = strategy;
          }))
          (record config {
            latency_target_us = latency;
            p99_target = p99;
            sharding_strategy = strategy;
          })
    if_present (text.root.is_object && text.root.contains "killSwitch")
        (read_kill_switch (text.member "killSwitch") with_breaker) with_breaker

  -- The default where nothing can be read.
  abbrev pub config_or_default :
      RiskEngineConfig D → Option (RiskEngineConfig D) → RiskEngineConfig D
  config_or_default default none = default
  config_or_default default (some config) = config

  -- The file is `none` if it cannot be opened.
  unfoldable pub load_config :
      (Bytes → Option (ConfigText D)) → RiskEngineConfig D → Option Bytes → RiskEngineConfig D
  load_config parse default file =
      config_or_default default (do content ← file; text ← parse content; read_config text default)

-- What the arguments ask for.
pub record Arguments : Type 0 where
  pub config_path : Bytes
  pub replay_file : Bytes
  pub replay_mode : Bool

abbrev pub default_arguments : Arguments
default_arguments = record {
  config_path = bytes "config/risk_config.json";
  replay_file = [];
  replay_mode = false;
}

-- The options.
pub data Argument : Type 0 where
  replay_option config_option help_option no_option : Argument

abbrev pub option_of : Bytes → Argument
option_of arg =
    if same_bytes arg (bytes "--replay")
    then replay_option
    else if same_bytes arg (bytes "--config")
    then config_option
    else if same_bytes arg (bytes "--help")
    then help_option
    else no_option

-- `none` is the exit after the usage. The last argument has no value after it.
unfoldable pub parse_arguments : List Bytes → Arguments → Option Arguments
parse_arguments [] a = some a
parse_arguments (arg ∷ []) a = elim (option_of arg) [
  | replay_option ↦ some a
  | config_option ↦ some a
  | help_option ↦ none
  | no_option ↦ some a
]
parse_arguments (arg ∷ value ∷ rest) a = elim (option_of arg) [
  | replay_option ↦ parse_arguments rest (record a { replay_file = value; replay_mode = true })
  | config_option ↦ parse_arguments rest (record a { config_path = value })
  | help_option ↦ none
  | no_option ↦ parse_arguments (value ∷ rest) a
]

abbrev pub replay_config : Bytes → ReplayConfig
replay_config file = record {
  replay_file_path = file;
  deterministic_mode = true;
  skip_malformed_events = false;
  record_every_event = true;
  report_path = bytes "logs/replay_report.json";
}

-- How the replay mode ends; `stuck` is a wait for a time that the clock does not reach.
pub data ReplayOutcome (K D : Type 0) : Type 0 where
  not_loaded not_started stuck : ReplayOutcome K D
  played : ReplayEngine K D → ReplayOutcome K D

module _ {K D : Type 0} ⦃d : Double D⦄ ⦃calls : RiskEngineCalls K D⦄ (parse : Parser D)
    (opens : Bytes → Bool) (truncate : D → ℤ) (clock : ℤ → List ℤ) where
  -- `running turns` is `g_running` where so many turns are left.
  unfoldable pub replay_loop : (ℕ → Bool) → ℕ → ReplayEngine K D → Option (ReplayEngine K D)
  replay_loop running zero engine = some engine
  replay_loop running (suc turns) engine =
      if engine.is_replaying
      then (go_on (process_next_event parse opens truncate clock engine) >>= λ engine'.
          if running turns then replay_loop running turns engine' else some engine')
      else some engine

  abbrev pub loop_outcome : Option (ReplayEngine K D) → ReplayOutcome K D
  loop_outcome none = stuck
  loop_outcome (some engine) = played engine

  abbrev pub after_start : (ℕ → Bool) → ℕ → ReplayEngine K D × Bool → ReplayOutcome K D
  after_start running turns (engine, false) = not_started
  after_start running turns (engine, true) = loop_outcome (replay_loop running turns engine)

  abbrev pub after_load :
      (List ReplayEvent → List ReplayEvent)
      → ℤ
      → (ℕ → Bool)
      → ℕ
      → ReplayEngine K D × Bool
      → ReplayOutcome K D
  after_load sort now running turns (engine, false) = not_loaded
  after_load sort now running turns (engine, true) =
      after_start running turns (start_replay sort now engine)

  -- `runReplayMode`, over so many turns of its loop. `start` is what the engine's member holds before
  -- the replay sets it.
  unfoldable pub run_replay_mode :
      (List ReplayEvent → List ReplayEvent)
      → ℤ
      → ℤ
      → (ℕ → Bool)
      → ℕ
      → K
      → Bytes
      → Option Bytes
      → ReplayOutcome K D
  run_replay_mode sort start now running turns risk_engine path file =
      after_load sort now running turns
        (load_events_from_file file (constructed (replay_config path) (some risk_engine) start))
