-- ===== src/KillSwitch/Histories.antt =====
-- The bounds of the histories.
use challenge_8a2ffd.Common.{
  ℕ, ◌-◌, ◌/◌, ◌≤◌, ◌≡◌, refl, inl, inr, not, ◌&&◌, List, [], ◌∷◌, ◌++◌, arith, length,
  length-append, ltb, leb, ◌==◌, if-intro, Bool-cases,
}
use challenge_8a2ffd.Common.Double.{Double}
use challenge_8a2ffd.KillSwitch.{
  KillSwitch, KillSwitchConfig, is_closed, is_open, push_rate, erase_first, initial_switch,
  trigger_kill_switch, reset, auto_reset_if_allowed, judge, score_of, evaluate_anomaly_score,
  record_latency_sample, record_error_rate, record_rejection_rate,
}
use challenge_8a2ffd.KillSwitch.Machine.{
  Call, records_latency_sample, records_error_rate, records_rejection_rate, resets_if_allowed, call,
}

length-erase_first : {D : Type 0} (l : List D) → length (erase_first l) ≡ length l - 1
length-erase_first [] = refl
length-erase_first (x ∷ l) = omega arith

length-push_rate :
    {D : Type 0} ⦃d : Double D⦄ (l : List D) (rate : D)
    → length l ≤ 100
    → length (push_rate l rate) ≤ 100
unfolding push_rate
length-push_rate l rate h =
    let pushed = length-append l (rate ∷ []) in
    elim (Bool-cases (ltb 100 (length (l ++ (rate ∷ []))))) [
      | inl e ↦ rw e (omega (arith, length-erase_first (l ++ (rate ∷ []))))
      | inr e ↦ rw e (ground arith)
    ]

-- The states that calls reach.
pub data Reaches {D : Type 0} ⦃d : Double D⦄ (sqrt : D → D) : KillSwitch D → Type 0 where
  initially : (config : KillSwitchConfig D) (now : ℕ) → Reaches sqrt (initial_switch config now)
  by_call : {s : KillSwitch D} → Reaches sqrt s → (c : Call D) → Reaches sqrt (call sqrt s c)
  by_reset : {s : KillSwitch D} → Reaches sqrt s → (now : ℕ) → Reaches sqrt (reset s now)

abbrev pub IsBounded : {D : Type 0} → KillSwitch D → Type 0
IsBounded s = (length s.error_rate_history ≤ 100) × (length s.rejection_rate_history ≤ 100)

module _ {D : Type 0} ⦃d : Double D⦄ (sqrt : D → D) where
  evaluate-IsBounded : (s : KillSwitch D) → IsBounded s → IsBounded (evaluate_anomaly_score sqrt s)
  unfolding evaluate_anomaly_score judge trigger_kill_switch
  evaluate-IsBounded s h = if-intro IsBounded (length s.latency_history == 0) h (
      if-intro IsBounded (d.lt s.config.threshold_deviation (score_of sqrt s) && is_closed s.state)
        h h)

  call-IsBounded : (s : KillSwitch D) (c : Call D) → IsBounded s → IsBounded (call sqrt s c)
  unfolding call record_latency_sample record_error_rate record_rejection_rate auto_reset_if_allowed
  call-IsBounded s (records_latency_sample latency now) h = evaluate-IsBounded _ h
  call-IsBounded s (records_error_rate rate) (h, h') =
      evaluate-IsBounded _ (length-push_rate _ rate h, h')
  call-IsBounded s (records_rejection_rate rate) (h, h') =
      evaluate-IsBounded _ (h, length-push_rate _ rate h')
  call-IsBounded s (resets_if_allowed now) h = if-intro IsBounded (not (is_open s.state)) h (
      if-intro IsBounded (leb s.config.auto_reset_timeout_ms ((now - s.last_reset_time) / 1000000))
        h h)

  -- Whatever calls are made, the histories of error and rejection rates hold a hundred rates at
  -- most.
  pub Reaches-IsBounded : (s : KillSwitch D) → Reaches sqrt s → IsBounded s
  unfolding initial_switch reset
  Reaches-IsBounded _ (initially config now) = (omega arith, omega arith)
  Reaches-IsBounded _ (by_call {s} r c) = call-IsBounded s c (Reaches-IsBounded s r)
  Reaches-IsBounded _ (by_reset {s} r now) = (omega arith, omega arith)
