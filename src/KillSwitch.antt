-- ===== src/KillSwitch.antt =====
-- `KillSwitch` (src/application/KillSwitch.cpp): the histories of latencies, errors and rejections,
-- the score, and the state that it drives. The members are those that the file uses; their header
-- is not in the repository. Times are nanoseconds of the steady clock, which never goes back.
pub mod Machine
pub mod Histories
pub mod Timeout
pub mod Tests
use challenge_8a2ffd.Common.{
  ℕ, ◌+◌, ◌-◌, ◌*◌, ◌/◌, ◌≡◌, Bool, true, false, not, ◌&&◌, List, [], ◌∷◌, ◌++◌, length, ltb, leb,
  ◌==◌, if◌then◌else◌,
}
use challenge_8a2ffd.Common.Int.{ℤ}
use challenge_8a2ffd.Common.Double.{Double}

pub data KillSwitchState : Type 0 where
  switch_closed switch_open switch_half_open : KillSwitchState

abbrev pub is_closed : KillSwitchState → Bool
is_closed switch_closed = true
is_closed switch_open = false
is_closed switch_half_open = false

abbrev pub is_open : KillSwitchState → Bool
is_open switch_closed = false
is_open switch_open = true
is_open switch_half_open = false

-- The events for the audit.
pub data AuditEvent : Type 0 where
  kill_switch_triggered kill_switch_reset kill_switch_half_open : AuditEvent

pub record KillSwitchConfig (D : Type 0) : Type 0 where
  pub anomaly_detection_window_ms : ℕ
  pub threshold_deviation : D
  pub auto_reset_timeout_ms : ℕ

pub record LatencySample : Type 0 where
  pub timestamp : ℕ
  pub latency_micros : ℤ

pub record KillSwitch (D : Type 0) : Type 0 where
  pub config : KillSwitchConfig D
  pub state : KillSwitchState
  pub anomaly_score : D
  pub last_reset_time : ℕ
  pub latency_history : List LatencySample
  pub error_rate_history : List D
  pub rejection_rate_history : List D
  pub audit : List AuditEvent

-- The samples that are not older than the window.
unfoldable pub keep_recent : List LatencySample → ℕ → ℕ → List LatencySample
keep_recent [] window now = []
keep_recent (s ∷ l) window now =
    let rest = keep_recent l window now in if ltb (s.timestamp + window) now then rest else s ∷ rest

-- `erase(begin())`.
abbrev pub erase_first : {D : Type 0} → List D → List D
erase_first [] = []
erase_first (x ∷ l) = l

module _ {D : Type 0} ⦃d : Double D⦄ where
  -- The constructor.
  unfoldable pub initial_switch : KillSwitchConfig D → ℕ → KillSwitch D
  initial_switch config now = record {
    config = config;
    state = switch_closed;
    anomaly_score = d.of_ℕ 0;
    last_reset_time = now;
    latency_history = [];
    error_rate_history = [];
    rejection_rate_history = [];
    audit = [];
  }

  -- `std::accumulate(begin, end, sum)`.
  abbrev pub accumulate : List D → D → D
  accumulate [] sum = sum
  accumulate (x ∷ l) sum = accumulate l (d.add sum x)

  abbrev pub mean_of : List D → D
  mean_of l = d.div (accumulate l (d.of_ℕ 0)) (d.of_ℕ (length l))

  -- The latencies as doubles.
  abbrev pub latencies : List LatencySample → List D
  latencies [] = []
  latencies (s ∷ l) = d.of_ℤ s.latency_micros ∷ latencies l

  -- `sqSum`, from a sum on.
  abbrev pub square_sum : List D → D → D → D
  square_sum [] mean sum = sum
  square_sum (x ∷ l) mean sum = square_sum l mean (d.add sum (d.mul (d.sub x mean) (d.sub x mean)))

  -- `std::min(a, b)`.
  abbrev pub double_min : D → D → D
  double_min a b = if d.lt b a then b else a

  -- The score of a history of rates with its weight.
  abbrev pub rate_score : List D → ℕ → D
  rate_score [] factor = d.of_ℕ 0
  rate_score (x ∷ l) factor = double_min (d.mul (mean_of (x ∷ l)) (d.of_ℕ factor)) (d.of_ℕ 1)

  abbrev pub emit_audit_event : KillSwitch D → AuditEvent → KillSwitch D
  emit_audit_event s event = record s { audit = s.audit ++ (event ∷ []) }

  unfoldable pub trigger_kill_switch : KillSwitch D → KillSwitch D
  trigger_kill_switch s = emit_audit_event (record s { state = switch_open }) kill_switch_triggered

  unfoldable pub reset : KillSwitch D → ℕ → KillSwitch D
  reset s now =
      emit_audit_event
        (record s {
          state = switch_closed;
          anomaly_score = d.of_ℕ 0;
          latency_history = [];
          error_rate_history = [];
          rejection_rate_history = [];
          last_reset_time = now;
        })
        kill_switch_reset

  unfoldable pub should_block_orders : KillSwitch D → Bool
  should_block_orders s = is_open s.state

  -- The time since the last reset in whole milliseconds.
  unfoldable pub auto_reset_if_allowed : KillSwitch D → ℕ → KillSwitch D
  auto_reset_if_allowed s now =
      if not (is_open s.state)
      then s
      else if leb s.config.auto_reset_timeout_ms ((now - s.last_reset_time) / 1000000)
      then emit_audit_event (record s { state = switch_half_open }) kill_switch_half_open
      else s

  -- The history with one rate more, of which the last hundred are kept.
  unfoldable pub push_rate : List D → D → List D
  push_rate l rate =
      let pushed = l ++ (rate ∷ []) in
      if ltb 100 (length pushed) then erase_first pushed else pushed

  -- The end of `evaluateAnomalyScore`, with the score stored.
  unfoldable pub judge : KillSwitch D → KillSwitch D
  judge s =
      if d.lt s.config.threshold_deviation s.anomaly_score && is_closed s.state
      then trigger_kill_switch s
      else s

  -- `sqrt` is `std::sqrt`.
  module _ (sqrt : D → D) where
    abbrev pub latency_score : List D → D
    latency_score l =
        let mean = mean_of l in
        let std_dev = sqrt (d.div (square_sum l mean (d.of_ℕ 0)) (d.of_ℕ (length l))) in
        if d.lt (d.of_ℕ 0) std_dev then d.div std_dev (d.add mean (d.of_ℕ 1)) else d.of_ℕ 0

    -- The new `anomalyScore_`.
    unfoldable pub score_of : KillSwitch D → D
    score_of s =
        d.add
          (d.add (d.mul (latency_score (latencies s.latency_history)) (d.lit 5 10))
            (d.mul (rate_score s.error_rate_history 10) (d.lit 3 10)))
          (d.mul (rate_score s.rejection_rate_history 5) (d.lit 2 10))

    unfoldable pub evaluate_anomaly_score : KillSwitch D → KillSwitch D
    evaluate_anomaly_score s =
        if length s.latency_history == 0 then s else judge (record s { anomaly_score = score_of s })

    unfoldable pub record_latency_sample : KillSwitch D → ℤ → ℕ → KillSwitch D
    record_latency_sample s latency_micros now = evaluate_anomaly_score (record s {
      latency_history =
          keep_recent
            (s.latency_history
              ++ ((record { timestamp = now; latency_micros = latency_micros }) ∷ []))
            (s.config.anomaly_detection_window_ms * 1000000) now;
    })

    unfoldable pub record_error_rate : KillSwitch D → D → KillSwitch D
    record_error_rate s error_rate =
        evaluate_anomaly_score
          (record s { error_rate_history = push_rate s.error_rate_history error_rate })

    unfoldable pub record_rejection_rate : KillSwitch D → D → KillSwitch D
    record_rejection_rate s rejection_rate =
        evaluate_anomaly_score
          (record s { rejection_rate_history = push_rate s.rejection_rate_history rejection_rate })
