-- ===== src/Main/Tests.antt =====
-- The replay mode and the arguments on concrete values. The risk engine is the number of its calls.
use challenge_8a2ffd.Common.{
  ℕ, suc, ◌≡◌, refl, true, Option, none, some, List, [], ◌∷◌, arith, length,
}
use challenge_8a2ffd.Common.Fixed.{Fixed, fixed_double}
use challenge_8a2ffd.Common.Int.{ℤ, pos}
use challenge_8a2ffd.Sharding.Hash.{Bytes}
use challenge_8a2ffd.Texts.{bytes}
use challenge_8a2ffd.Adapters.Document.{Document}
use challenge_8a2ffd.Replay.{ReplayEngine}
use challenge_8a2ffd.Replay.Playing.{RiskEngineCalls}
use challenge_8a2ffd.Replay.RoundTrip.{Recorded, write_file, numbered}
use challenge_8a2ffd.Replay.Completion.{IsPatient, IsComplete}
use challenge_8a2ffd.Replay.Order.{IsAscending}
use challenge_8a2ffd.Replay.Sorting.{sort_events, sort_events-IsSort}
use challenge_8a2ffd.Main.{
  Arguments, RiskEngineConfig, default_arguments, parse_arguments, played, run_replay_mode,
}
use challenge_8a2ffd.Main.Normal.{
  NormalCalls, NormalLoop, finished, normal_turn, normal_loop, run_normal_mode, main,
}
use challenge_8a2ffd.Main.Normal.Reports.{IsReported, run_normal_mode-IsReported}
use challenge_8a2ffd.Main.Completion.{run_replay_mode-completes}

instance main_calls : RiskEngineCalls ℕ Fixed
main_calls = record {
  evaluate_order_risk = λ k order instrument quantity price trader strategy. (suc k, true);
  update_market_data = λ k instrument bid ask bid_size ask_size. (suc k, true);
  check_trader_limit = λ k trader exposure limit. (suc k, true);
}

abbrev no_json : Bytes → Option (Document Fixed)
no_json text = none

abbrev on_time : ℤ → List ℤ
on_time target = target ∷ []

on_time-IsPatient : IsPatient on_time
on_time-IsPatient target = ground arith

abbrev one_event : Recorded
one_event = record { timestamp = 7; event_type = bytes "RISK"; payload = bytes "{}" }

run_replay_mode-completes_example :
    (engine : ReplayEngine ℕ Fixed) × (run_replay_mode no_json
        (λ path. true)
        (λ x. x)
        on_time
        sort_events
        (pos 0)
        (pos 100)
        (λ turns. true)
        (length (sort_events (numbered 1 (one_event ∷ []))))
        0
        (bytes "events")
        (some (write_file (one_event ∷ [])))
      ≡ played engine)
    × IsComplete no_json [] (sort_events (numbered 1 (one_event ∷ []))) (some 0) engine
    × IsAscending engine.events
run_replay_mode-completes_example =
    run_replay_mode-completes no_json (λ path. true) (λ x. x) on_time sort_events (pos 0) (pos 100)
      (λ turns. true) 0 (bytes "events") one_event [] sort_events-IsSort on_time-IsPatient
      (λ turns. refl)
      (
        record {
          timed = omega arith;
          type_fields = (omega arith, (omega arith, (omega arith, (omega arith, tt))));
          type_lines = (omega arith, (omega arith, (omega arith, (omega arith, tt))));
          payload_lines = (omega arith, (omega arith, tt));
          has_payload = omega arith;
        },
        tt,
      )

-- An option without its value is passed over.
replay_without_file :
    parse_arguments (bytes "--replay" ∷ []) default_arguments ≡ some default_arguments
unfolding parse_arguments
replay_without_file = refl

abbrev both_given : Arguments
both_given = record {
  config_path = bytes "c.json";
  replay_file = bytes "r.log";
  replay_mode = true;
}

both_options :
    parse_arguments
      (bytes "--config" ∷ bytes "c.json" ∷ bytes "-v" ∷ bytes "--replay" ∷ bytes "r.log" ∷ [])
      default_arguments
    ≡ some both_given
unfolding parse_arguments
both_options = refl

-- An engine that counts its calls and has an event at each.
abbrev busy : NormalCalls ℕ ℕ Fixed
busy = record {
  create = λ config. some 0;
  initialize = λ k. some (k, true);
  set_kill_switch = λ settings k. k;
  set_circuit_breaker = λ settings k. k;
  process_events = λ k. some (suc k, true);
  get_statistics = λ k. some (k, k);
}

abbrev some_config : RiskEngineConfig Fixed
some_config = record {
  latency_target_us = pos 500;
  p99_target = pos 500;
  sharding_strategy = bytes "byInstrument";
  circuit_breaker_enabled = true;
  circuit_breaker_threshold_multiplier = fixed_double.lit 15 10;
  circuit_breaker_reset_timeout_ms = pos 5000;
  kill_switch_enabled = true;
  kill_switch_threshold_deviation = fixed_double.lit 3 1;
  kill_switch_window_ms = pos 60000;
}

abbrev four_readings : List ℕ
four_readings = 5000000000 ∷ 11000000000 ∷ 12000000000 ∷ 21500000000 ∷ []

-- The second and the last turn report.
run_normal_mode-IsReported_example :
    (l : NormalLoop ℕ ℕ) × (run_normal_mode busy some_config 1000000000 four_readings ≡ finished l)
    × IsReported 1000000000 4 21500000000 l
run_normal_mode-IsReported_example =
    run_normal_mode-IsReported busy some_config 1000000000 four_readings 0 0 refl refl
      (record { processes = λ k. tt; reports = λ k. tt })

two_reports :
    run_normal_mode busy some_config 1000000000 four_readings
    ≡ finished (record {
      engine = 4;
      event_count = 4;
      last_report = 21500000000;
      reports =
          record { time = 21500000000; event_count = 4; statistics = 4 }
          ∷ record { time = 11000000000; event_count = 2; statistics = 2 }
          ∷ [];
    })
unfolding run_normal_mode normal_loop normal_turn
two_reports = refl

-- The usage is no failure, and neither mode runs.
help_exits : main (λ file. true) (λ path. true) (bytes "--help" ∷ []) ≡ 0
unfolding main parse_arguments
help_exits = refl
