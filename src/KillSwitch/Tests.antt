-- ===== src/KillSwitch/Tests.antt =====
-- The switch on concrete samples, in fixed-point arithmetic with a root that is never needed.
use challenge_8a2ffd.Common.{◌+◌, ◌*◌, ◌≤◌, ◌≡◌, refl, true, false, not, ◌&&◌, List, [], ◌∷◌, All}
use challenge_8a2ffd.Common.Int.{pos, ◌+ℤ◌, ◌-ℤ◌, ◌*ℤ◌, ◌/ℤ◌}
use challenge_8a2ffd.Common.Fixed.{Fixed, fixed_double}
use challenge_8a2ffd.KillSwitch.{
  KillSwitch, KillSwitchConfig, switch_half_open, should_block_orders, auto_reset_if_allowed, reset,
  initial_switch, record_latency_sample, record_error_rate, evaluate_anomaly_score, judge,
  trigger_kill_switch, keep_recent, push_rate, score_of,
}
use challenge_8a2ffd.KillSwitch.Machine.{
  records_latency_sample, records_error_rate, call, calls, judged, sampled, calls_half_open,
  record_latency_sample_lem,
}
use challenge_8a2ffd.KillSwitch.Timeout.{
  AnyCall, one_call, resets, history, is_over, auto_reset-last_reset,
}

abbrev half : Fixed → Fixed
half x = x /ℤ 2

-- A window of a second, a threshold of 0.2 and a timeout of 10 milliseconds.
abbrev config : KillSwitchConfig Fixed
config = record {
  anomaly_detection_window_ms = 1000;
  threshold_deviation = pos 200000;
  auto_reset_timeout_ms = 10;
}

abbrev started : KillSwitch Fixed
started = initial_switch config 0

record_latency_sample_lem_example :
    ((record_latency_sample half started (pos 5) 7).state
      ≡ judged (record_latency_sample half started (pos 5) 7) started.state)
    × ((record_latency_sample half started (pos 5) 7).anomaly_score
        ≡ score_of half (sampled half started (pos 5) 7))
    × All
        (λ x. 7 ≤ x.timestamp + started.config.anomaly_detection_window_ms * 1000000)
        (record_latency_sample half started (pos 5) 7).latency_history
record_latency_sample_lem_example = record_latency_sample_lem half started (pos 5) 7

-- An error rate, and the sample that opens the switch, after a manual reset.
abbrev thrown_late : List (AnyCall Fixed)
thrown_late =
    resets 5000000
    ∷ one_call (records_error_rate (pos 1000000))
    ∷ one_call (records_latency_sample (pos 5) 20000000)
    ∷ []

auto_reset-last_reset_example :
    let s = history half started thrown_late in
    should_block_orders (auto_reset_if_allowed s 20000000)
    ≡ should_block_orders s && not (is_over config 5000000 20000000)
auto_reset-last_reset_example = auto_reset-last_reset half config 0 thrown_late 20000000

thrown_late_blocks : should_block_orders (history half started thrown_late) ≡ true
unfolding call reset should_block_orders record_latency_sample record_error_rate
    evaluate_anomaly_score judge trigger_kill_switch keep_recent push_rate score_of initial_switch
    ◌+ℤ◌ ◌-ℤ◌ ◌*ℤ◌ ◌/ℤ◌
thrown_late_blocks = refl

abbrev waiting : KillSwitch Fixed
waiting = record started { state = switch_half_open }

calls_half_open_example :
    ((calls half waiting
        (records_error_rate (pos 1000000) ∷ records_latency_sample (pos 900) 9 ∷ [])).state
      ≡ switch_half_open)
    × (should_block_orders (
          calls half waiting
            (records_error_rate (pos 1000000) ∷ records_latency_sample (pos 900) 9 ∷ []))
        ≡ false)
unfolding initial_switch
calls_half_open_example =
    calls_half_open half waiting
      (records_error_rate (pos 1000000) ∷ records_latency_sample (pos 900) 9 ∷ []) refl
