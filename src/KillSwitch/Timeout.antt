-- ===== src/KillSwitch/Timeout.antt =====
-- From when the timeout of an open switch counts (src/application/KillSwitch.cpp).
use challenge_8a2ffd.Common.{
  ℕ, ◌-◌, ◌/◌, ◌≡◌, refl, ◌∙◌, inl, inr, Bool, not, ◌&&◌, List, [], ◌∷◌, length, leb, ◌==◌,
  if-intro, Bool-cases,
}
use challenge_8a2ffd.Common.Double.{Double}
use challenge_8a2ffd.KillSwitch.{
  KillSwitch, KillSwitchConfig, is_closed, is_open, initial_switch, trigger_kill_switch, reset,
  should_block_orders, auto_reset_if_allowed, judge, score_of, evaluate_anomaly_score,
  record_latency_sample, record_error_rate, record_rejection_rate,
}
use challenge_8a2ffd.KillSwitch.Machine.{
  Call, records_latency_sample, records_error_rate, records_rejection_rate, resets_if_allowed, call,
}

-- A call, the manual reset with its time included.
pub data AnyCall (D : Type 0) : Type 0 where
  one_call : Call D → AnyCall D
  resets : ℕ → AnyCall D

-- The time of the last manual reset in a history that starts at a time.
abbrev pub last_reset : {D : Type 0} → ℕ → List (AnyCall D) → ℕ
last_reset start [] = start
last_reset start (one_call c ∷ l) = last_reset start l
last_reset start (resets now ∷ l) = last_reset now l

-- The timeout is over.
abbrev pub is_over : {D : Type 0} → KillSwitchConfig D → ℕ → ℕ → Bool
is_over config since now = leb config.auto_reset_timeout_ms ((now - since) / 1000000)

module _ {D : Type 0} ⦃d : Double D⦄ (sqrt : D → D) where
  -- A history of calls.
  abbrev pub history : KillSwitch D → List (AnyCall D) → KillSwitch D
  history s [] = s
  history s (one_call c ∷ l) = history (call sqrt s c) l
  history s (resets now ∷ l) = history (reset s now) l

  -- The configuration, and the time from which the timeout counts.
  abbrev CountsFrom : KillSwitchConfig D → ℕ → KillSwitch D → Type 0
  CountsFrom config since s = (s.config ≡ config) × (s.last_reset_time ≡ since)

  module _ (config : KillSwitchConfig D) (since : ℕ) where
    evaluate-CountsFrom :
        (s : KillSwitch D)
        → CountsFrom config since s
        → CountsFrom config since (evaluate_anomaly_score sqrt s)
    unfolding evaluate_anomaly_score judge trigger_kill_switch
    evaluate-CountsFrom s h = if-intro (CountsFrom config since) (length s.latency_history == 0) h (
        if-intro (CountsFrom config since)
          (d.lt s.config.threshold_deviation (score_of sqrt s) && is_closed s.state) h h)

    call-CountsFrom :
        (s : KillSwitch D) (c : Call D)
        → CountsFrom config since s
        → CountsFrom config since (call sqrt s c)
    unfolding call record_latency_sample record_error_rate record_rejection_rate
        auto_reset_if_allowed
    call-CountsFrom s (records_latency_sample latency now) h = evaluate-CountsFrom _ h
    call-CountsFrom s (records_error_rate rate) h = evaluate-CountsFrom _ h
    call-CountsFrom s (records_rejection_rate rate) h = evaluate-CountsFrom _ h
    call-CountsFrom s (resets_if_allowed now) h =
        if-intro (CountsFrom config since) (not (is_open s.state)) h
          (if-intro (CountsFrom config since) (is_over s.config s.last_reset_time now) h h)

  history-CountsFrom :
      (config : KillSwitchConfig D) (since : ℕ) (s : KillSwitch D) (l : List (AnyCall D))
      → CountsFrom config since s
      → CountsFrom config (last_reset since l) (history s l)
  unfolding reset
  history-CountsFrom config since s [] h = h
  history-CountsFrom config since s (one_call c ∷ l) h =
      history-CountsFrom config since (call sqrt s c) l (call-CountsFrom config since s c h)
  history-CountsFrom config since s (resets now ∷ l) (h, _) =
      history-CountsFrom config now (reset s now) l (h, refl)

  auto_reset-blocks :
      (s : KillSwitch D) (now : ℕ)
      → should_block_orders (auto_reset_if_allowed s now)
        ≡ should_block_orders s && not (is_over s.config s.last_reset_time now)
  unfolding should_block_orders auto_reset_if_allowed
  auto_reset-blocks s now = elim (Bool-cases (is_open s.state)) [
    | inr e ↦ rw e (rw e refl)
    | inl e ↦ elim (Bool-cases (is_over s.config s.last_reset_time now)) [
      | inl t ↦ rw (e, t) refl
      | inr t ↦ rw (e, t) (rw e refl)
    ]
  ]

  -- After any history of calls on a new switch, a check of the timeout leaves orders blocked exactly
  -- if they were and the time since the last manual reset, or since the construction, is below the
  -- timeout: when the switch was thrown makes no difference.
  pub auto_reset-last_reset :
      (config : KillSwitchConfig D) (start : ℕ) (l : List (AnyCall D)) (now : ℕ)
      → let s = history (initial_switch config start) l in
        should_block_orders (auto_reset_if_allowed s now)
        ≡ should_block_orders s && not (is_over config (last_reset start l) now)
  unfolding initial_switch
  auto_reset-last_reset config start l now =
      let s = history (initial_switch config start) l in
      let (same, since) =
        history-CountsFrom config start (initial_switch config start) l (refl, refl) in
      auto_reset-blocks s now ∙ rw (same, since) refl
