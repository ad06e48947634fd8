-- ===== src/Main/Normal.antt =====
-- `runNormalMode` and the end of `main` (src/main.cpp). The functions of the risk engine that it calls
-- are in no file of the repository; they are parameters, `none` where they throw. Times are readings of
-- the steady clock in nanoseconds.
pub mod Reports
use challenge_8a2ffd.Common.{
  ℕ, suc, ◌-◌, ◌/◌, Bool, true, false, Option, none, some, List, [], ◌∷◌, leb, if◌then◌else◌,
}
use challenge_8a2ffd.Common.Int.{ℤ, pos}
use challenge_8a2ffd.Common.Json.{◌>>=◌}
use challenge_8a2ffd.Sharding.Hash.{Bytes}
use challenge_8a2ffd.Main.{RiskEngineConfig, Arguments, default_arguments, parse_arguments}

-- What the kill switch and the circuit breaker are made of.
pub record KillSwitchSettings (D : Type 0) : Type 0 where
  pub enabled : Bool
  pub threshold_deviation : D
  pub anomaly_detection_window_ms : ℤ
  pub auto_reset_timeout_ms : ℤ

pub record CircuitBreakerSettings (D : Type 0) : Type 0 where
  pub enabled : Bool
  pub threshold_multiplier : D
  pub reset_timeout_ms : ℤ

module _ {D : Type 0} where
  abbrev pub kill_switch_settings : RiskEngineConfig D → KillSwitchSettings D
  kill_switch_settings config = record {
    enabled = config.kill_switch_enabled;
    threshold_deviation = config.kill_switch_threshold_deviation;
    anomaly_detection_window_ms = config.kill_switch_window_ms;
    auto_reset_timeout_ms = pos 300000;
  }

  abbrev pub circuit_breaker_settings : RiskEngineConfig D → CircuitBreakerSettings D
  circuit_breaker_settings config = record {
    enabled = config.circuit_breaker_enabled;
    threshold_multiplier = config.circuit_breaker_threshold_multiplier;
    reset_timeout_ms = config.circuit_breaker_reset_timeout_ms;
  }

-- The risk engine's functions.
pub record NormalCalls (K S D : Type 0) : Type 0 where
  pub create : RiskEngineConfig D → Option K
  pub initialize : K → Option (K × Bool)
  pub set_kill_switch : KillSwitchSettings D → K → K
  pub set_circuit_breaker : CircuitBreakerSettings D → K → K
  pub process_events : K → Option (K × Bool)
  pub get_statistics : K → Option (K × S)

-- A line of statistics, with the reading that `lastReport` is set to.
pub record Report (S : Type 0) : Type 0 where
  pub time : ℕ
  pub event_count : ℕ
  pub statistics : S

-- The loop's variables, and the reports, the latest one first. The count is an `int` in the source,
-- here exact.
pub record NormalLoop (K S : Type 0) : Type 0 where
  pub engine : K
  pub event_count : ℕ
  pub last_report : ℕ
  pub reports : List (Report S)

-- How the normal mode ends.
pub data NormalOutcome (K S : Type 0) : Type 0 where
  thrown not_initialized : NormalOutcome K S
  finished : NormalLoop K S → NormalOutcome K S

module _ {K S : Type 0} where
  abbrev pub count_event : NormalLoop K S → K × Bool → NormalLoop K S
  count_event l (k, false) = record l { engine = k }
  count_event l (k, true) = record l { engine = k; event_count = suc l.event_count }

  abbrev pub add_report : ℕ → NormalLoop K S → K × S → NormalLoop K S
  add_report now l (k, statistics) = record l {
    engine = k;
    last_report = now;
    reports =
        record { time = now; event_count = l.event_count; statistics = statistics } ∷ l.reports;
  }

  -- Whole seconds since the last report; the difference does not fall below 0 here, where the test
  -- has the same outcome.
  abbrev pub is_due : ℕ → NormalLoop K S → Bool
  is_due now l = leb 10 ((now - l.last_report) / 1000000000)

  abbrev pub finished_or_thrown : Option (NormalLoop K S) → NormalOutcome K S
  finished_or_thrown none = thrown
  finished_or_thrown (some l) = finished l

module _ {K S D : Type 0} (calls : NormalCalls K S D) where
  abbrev pub report_if_due : ℕ → NormalLoop K S → Option (NormalLoop K S)
  report_if_due now l =
      if is_due now l
      then (calls.get_statistics l.engine >>= λ result. some (add_report now l result))
      else some l

  -- One turn of the loop, which reads the clock first.
  unfoldable pub normal_turn : ℕ → NormalLoop K S → Option (NormalLoop K S)
  normal_turn now l =
      calls.process_events l.engine >>= λ result. report_if_due now (count_event l result)

  -- The turns until a signal comes, each with its reading.
  unfoldable pub normal_loop : List ℕ → NormalLoop K S → Option (NormalLoop K S)
  normal_loop [] l = some l
  normal_loop (now ∷ readings) l = normal_turn now l >>= normal_loop readings

  abbrev pub after_initialize :
      RiskEngineConfig D → ℕ → List ℕ → Option (K × Bool) → NormalOutcome K S
  after_initialize config start readings none = thrown
  after_initialize config start readings (some (k, false)) = not_initialized
  after_initialize config start readings (some (k, true)) = finished_or_thrown (
      normal_loop readings (record {
        engine =
            calls.set_circuit_breaker (circuit_breaker_settings config)
              (calls.set_kill_switch (kill_switch_settings config) k);
        event_count = 0;
        last_report = start;
        reports = [];
      }))

  -- The configuration is the one that `loadConfig` returns.
  unfoldable pub run_normal_mode : RiskEngineConfig D → ℕ → List ℕ → NormalOutcome K S
  run_normal_mode config start readings =
      after_initialize config start readings (calls.create config >>= calls.initialize)

-- Whether a mode ends with an exception is given by the two functions.
abbrev pub exit_code : Bool → ℕ
exit_code throws = if throws then 1 else 0

abbrev pub run_arguments : (Bytes → Bool) → (Bytes → Bool) → Option Arguments → ℕ
run_arguments replay_throws normal_throws none = 0
run_arguments replay_throws normal_throws (some a) =
    exit_code (if a.replay_mode then replay_throws a.replay_file else normal_throws a.config_path)

-- `main`, on the arguments after the program's name.
unfoldable pub main : (Bytes → Bool) → (Bytes → Bool) → List Bytes → ℕ
main replay_throws normal_throws args =
    run_arguments replay_throws normal_throws (parse_arguments args default_arguments)
