-- ===== src/KillSwitch/Machine.antt =====
-- How the calls move the switch.
use challenge_8a2ffd.Common.{
  ℕ, ◌+◌, ◌*◌, ◌≤◌, ◌<◌, ◌≡◌, refl, ◌∙◌, ◌⊎◌, inl, inr, false, ◌&&◌, List, [], ◌∷◌, ◌++◌, arith,
  length, ltb, ◌==◌, if◌then◌else◌, Bool-cases, All,
}
use challenge_8a2ffd.Common.Int.{ℤ}
use challenge_8a2ffd.Common.Double.{Double}
use challenge_8a2ffd.KillSwitch.{
  KillSwitchState, switch_closed, switch_open, switch_half_open, is_closed, KillSwitch,
  LatencySample, keep_recent, trigger_kill_switch, should_block_orders, auto_reset_if_allowed,
  judge, score_of, evaluate_anomaly_score, record_latency_sample, record_error_rate,
  record_rejection_rate,
}

State-cases :
    (k : KillSwitchState) → (k ≡ switch_closed) ⊎ ((k ≡ switch_open) ⊎ (k ≡ switch_half_open))
State-cases switch_closed = inl refl
State-cases switch_open = inr (inl refl)
State-cases switch_half_open = inr (inr refl)

-- The calls but for the manual reset.
pub data Call (D : Type 0) : Type 0 where
  records_latency_sample : ℤ → ℕ → Call D
  records_error_rate : D → Call D
  records_rejection_rate : D → Call D
  resets_if_allowed : ℕ → Call D

keep_recent_last :
    (l : List LatencySample) (s : LatencySample) (window : ℕ)
    → 0 < length (keep_recent (l ++ (s ∷ [])) window s.timestamp)
unfolding keep_recent
keep_recent_last [] s window = ground arith
keep_recent_last (s' ∷ l) s window = let rest = keep_recent_last l s window in ground arith

keep_recent-All :
    (l : List LatencySample) (window now : ℕ)
    → All (λ s. now ≤ s.timestamp + window) (keep_recent l window now)
unfolding keep_recent
keep_recent-All [] window now = tt
keep_recent-All (s ∷ l) window now =
    let rest = keep_recent-All l window now in
    elim (Bool-cases (ltb (s.timestamp + window) now)) [
      | inl e ↦ rw e rest
      | inr e ↦ rw e (ground arith, rest)
    ]

-- The state after a judgement of a score.
abbrev pub judged : {D : Type 0} ⦃d : Double D⦄ → KillSwitch D → KillSwitchState → KillSwitchState
judged ⦃d⦄ s state =
    if d.lt s.config.threshold_deviation s.anomaly_score && is_closed state
    then switch_open
    else state

-- What a judgement leaves as it is.
abbrev Keeps : {D : Type 0} → KillSwitch D → KillSwitch D → Type 0
Keeps s s' =
    (s'.config ≡ s.config)
    × (s'.last_reset_time ≡ s.last_reset_time)
    × (s'.anomaly_score ≡ s.anomaly_score)
    × (s'.latency_history ≡ s.latency_history)

module _ {D : Type 0} ⦃d : Double D⦄ where
  judge_lem : (s : KillSwitch D) → ((judge s).state ≡ judged (judge s) s.state) × Keeps s (judge s)
  unfolding judge trigger_kill_switch
  judge_lem s =
      elim (Bool-cases (d.lt s.config.threshold_deviation s.anomaly_score && is_closed s.state)) [
        | inl e ↦ rw e (rw e refl, (refl, refl, refl, refl))
        | inr e ↦ rw e (rw e refl, (refl, refl, refl, refl))
      ]

  judge_not_closed : (s : KillSwitch D) → is_closed s.state ≡ false → judge s ≡ s
  unfolding judge
  judge_not_closed s h =
      let no : (d.lt s.config.threshold_deviation s.anomaly_score && is_closed s.state) ≡ false =
        elim (Bool-cases (d.lt s.config.threshold_deviation s.anomaly_score)) [
          | inl e ↦ rw (e, h) refl
          | inr e ↦ rw e refl
        ] in
      rw no refl

module _ {D : Type 0} ⦃d : Double D⦄ (sqrt : D → D) where
  unfoldable pub call : KillSwitch D → Call D → KillSwitch D
  unfolding record_latency_sample record_error_rate record_rejection_rate auto_reset_if_allowed
  call s (records_latency_sample latency now) = record_latency_sample sqrt s latency now
  call s (records_error_rate rate) = record_error_rate sqrt s rate
  call s (records_rejection_rate rate) = record_rejection_rate sqrt s rate
  call s (resets_if_allowed now) = auto_reset_if_allowed s now

  unfoldable pub calls : KillSwitch D → List (Call D) → KillSwitch D
  calls s [] = s
  calls s (c ∷ l) = calls (call s c) l

  evaluate_not_closed :
      (s : KillSwitch D)
      → is_closed s.state ≡ false
      → (evaluate_anomaly_score sqrt s).state ≡ s.state
  unfolding evaluate_anomaly_score
  evaluate_not_closed s h = elim (Bool-cases (length s.latency_history == 0)) [
    | inl e ↦ rw e refl
    | inr e ↦ rw (e, judge_not_closed (record s { anomaly_score = score_of sqrt s }) h) refl
  ]

  call_half_open :
      (s : KillSwitch D) (c : Call D)
      → s.state ≡ switch_half_open
      → (call s c).state ≡ switch_half_open
  unfolding call record_latency_sample record_error_rate record_rejection_rate auto_reset_if_allowed
  call_half_open s (records_latency_sample latency now) e = evaluate_not_closed _ (rw e refl) ∙ e
  call_half_open s (records_error_rate rate) e = evaluate_not_closed _ (rw e refl) ∙ e
  call_half_open s (records_rejection_rate rate) e = evaluate_not_closed _ (rw e refl) ∙ e
  call_half_open s (resets_if_allowed now) e = rw e refl

  -- A half open switch stays half open over any sequence of calls but for the manual reset: it is
  -- never thrown again, whatever is recorded, and blocks no order.
  pub calls_half_open :
      (s : KillSwitch D) (l : List (Call D))
      → s.state ≡ switch_half_open
      → ((calls s l).state ≡ switch_half_open) × (should_block_orders (calls s l) ≡ false)
  unfolding calls should_block_orders
  calls_half_open s [] e = (e, rw e refl)
  calls_half_open s (c ∷ l) e = calls_half_open (call s c) l (call_half_open s c e)

  evaluate_nonempty :
      (s : KillSwitch D)
      → 0 < length s.latency_history
      → evaluate_anomaly_score sqrt s ≡ judge (record s { anomaly_score = score_of sqrt s })
  unfolding evaluate_anomaly_score
  evaluate_nonempty s h =
      let some_sample : (length s.latency_history == 0) ≡ false = ground arith in
      rw some_sample refl

  -- The switch with a new sample in its window.
  abbrev pub sampled : KillSwitch D → ℤ → ℕ → KillSwitch D
  sampled s latency now = record s {
    latency_history =
        keep_recent
          (s.latency_history ++ ((record { timestamp = now; latency_micros = latency }) ∷ []))
          (s.config.anomaly_detection_window_ms * 1000000) now;
  }

  record_latency_sample_judges :
      (s : KillSwitch D) (latency : ℤ) (now : ℕ)
      → record_latency_sample sqrt s latency now
        ≡ judge (record (sampled s latency now) {
          anomaly_score = score_of sqrt (sampled s latency now);
        })
  unfolding record_latency_sample
  record_latency_sample_judges s latency now =
      evaluate_nonempty (sampled s latency now) (
        keep_recent_last s.latency_history (record { timestamp = now; latency_micros = latency }) _)

  -- A sample of latency drops all that are older than the window, stores the score of the histories
  -- with the sample, and opens the switch exactly if the switch is closed and the new score exceeds
  -- the threshold.
  pub record_latency_sample_lem :
      (s : KillSwitch D) (latency : ℤ) (now : ℕ)
      → ((record_latency_sample sqrt s latency now).state
          ≡ judged (record_latency_sample sqrt s latency now) s.state)
        × ((record_latency_sample sqrt s latency now).anomaly_score
            ≡ score_of sqrt (sampled s latency now))
        × All
            (λ x. now ≤ x.timestamp + s.config.anomaly_detection_window_ms * 1000000)
            (record_latency_sample sqrt s latency now).latency_history
  record_latency_sample_lem s latency now =
      let (state, keeps) = judge_lem (record (sampled s latency now) {
        anomaly_score = score_of sqrt (sampled s latency now);
      }) in
      rw (record_latency_sample_judges s latency now) (
        state,
        keeps.2,
        rw keeps.3 (
            keep_recent-All
              (s.latency_history ++ ((record { timestamp = now; latency_micros = latency }) ∷ []))
              (s.config.anomaly_detection_window_ms * 1000000) now),
      )
