-- ===== src/RiskEngine/Runs.antt =====
-- Sequences of calls of `evaluateOrder`: the counters, the kill switch and the breakers over time.
use challenge_8a2ffd.Common.{
  ℕ, ◌+◌, ◌%◌, ◌^◌, ◌<◌, ◌≡◌, ◌∙◌, ◌≢◌, inl, inr, true, false, List, [], ◌∷◌, arith, ◌==◌,
  if◌then◌else◌, Bool-cases, Option-cases,
}
use challenge_8a2ffd.Common.Double.{Double}
use challenge_8a2ffd.RiskEngine.Types.{
  RiskEvaluationResult, reject, Order, is_valid, is_reject, opened, closed,
  rejection_reason_kill_switch,
}
use challenge_8a2ffd.RiskEngine.State.{RiskLimits, VarModel, RiskEngine, Readings, max_instruments}
use challenge_8a2ffd.RiskEngine.Breaker.{breached_breaker}
use challenge_8a2ffd.RiskEngine.Breaker.Transitions.{Moves, here, Moves-trans, Moves-ne-closed}
use challenge_8a2ffd.RiskEngine.Evaluate.{evaluate_order, record_latency}
use challenge_8a2ffd.RiskEngine.Evaluate.Decision.{
  Verdict, invalid, killed, broken, over_limit, over_var, accepted, evaluate_order-Verdict,
}
use challenge_8a2ffd.RiskEngine.Evaluate.Breakers.{
  evaluate_order-Moves, evaluate_order_breakers, exceeds_limit,
}
use challenge_8a2ffd.RiskEngine.Evaluate.Counters.{IsWord, evaluate_order-Counts}
use challenge_8a2ffd.RiskEngine.Evaluate.KillSwitch.{evaluate_order-Switches}

-- One call, with the limits as they stand at it.
pub record Call (D : Type 0) : Type 0 where
  pub limits : RiskLimits D
  pub order : Order
  pub readings : Readings

module _ {D V : Type 0} ⦃d : Double D⦄ (var : VarModel D V) where
  abbrev pub evaluate : RiskEngine D V → Call D → RiskEngine D V × RiskEvaluationResult D
  evaluate s c = evaluate_order c.limits var s c.order c.readings

  abbrev pub run : RiskEngine D V → List (Call D) → RiskEngine D V
  run s [] = s
  run s (c ∷ cs) = run (evaluate s c).0 cs

  pub run-Moves :
      (s : RiskEngine D V) (cs : List (Call D)) (j : ℕ)
      → Moves (s.circuit_breakers j) ((run s cs).circuit_breakers j)
  run-Moves s [] j = here
  run-Moves s (c ∷ cs) j =
      Moves-trans (evaluate_order-Moves c.limits var s c.order c.readings j)
        (run-Moves (evaluate s c).0 cs j)

  -- No sequence of orders closes a breaker again: only a reset by hand does.
  pub run_never_closes :
      (s : RiskEngine D V) (cs : List (Call D)) (j : ℕ)
      → (s.circuit_breakers j).state ≢ closed
      → ((run s cs).circuit_breakers j).state ≢ closed
  run_never_closes s cs j h = Moves-ne-closed (run-Moves s cs j) h

  abbrev pub count_valid : List (Call D) → ℕ
  count_valid [] = 0
  count_valid (c ∷ cs) = (if is_valid c.order then 1 else 0) + count_valid cs

  invalid_uncounted :
      (s : RiskEngine D V) (c : Call D)
      → is_valid c.order ≡ false
      → ((evaluate s c).0.processed_orders ≡ s.processed_orders)
        × ((evaluate s c).0.rejected_orders ≡ s.rejected_orders)
        × ((evaluate s c).0.events ≡ s.events)
  unfolding evaluate_order record_latency
  invalid_uncounted s c e = ground arith

  evaluate_total :
      (s : RiskEngine D V) (c : Call D)
      → IsWord s
      → IsWord (evaluate s c).0
        × (((evaluate s c).0.processed_orders + (evaluate s c).0.rejected_orders) % 2 ^ 64
            ≡ (s.processed_orders + s.rejected_orders + (if is_valid c.order then 1 else 0))
              % 2 ^ 64)
  evaluate_total s c w = elim (Bool-cases (is_valid c.order)) [
    | inl e ↦ ground (arith, evaluate_order-Counts c.limits var s c.order c.readings e w)
    | inr e ↦ ground (arith, invalid_uncounted s c e)
  ]

  -- Over any sequence of orders, processed and rejected ones together grow by the number of valid
  -- orders, modulo 2 ^ 64: invalid ones are counted nowhere.
  pub run_total :
      (s : RiskEngine D V) (cs : List (Call D))
      → IsWord s
      → ((run s cs).processed_orders + (run s cs).rejected_orders) % 2 ^ 64
        ≡ (s.processed_orders + s.rejected_orders + count_valid cs) % 2 ^ 64
  run_total s [] w = omega arith
  run_total s (c ∷ cs) w =
      let (w', first) = evaluate_total s c w in omega (arith, run_total (evaluate s c).0 cs w')

  killed_reason :
      (limits : RiskLimits D) (s : RiskEngine D V) (o : Order) (r : Readings)
      (result : RiskEvaluationResult D)
      → is_valid o ≡ true
      → s.kill_switch_active ≡ true
      → Verdict limits var s o r result
      → (result.decision ≡ reject) × (result.rejection_reason ≡ rejection_reason_kill_switch)
  killed_reason limits s o r result h a (invalid e p q) = cc
  killed_reason limits s o r result h a (killed e f p q) = (p, q)
  killed_reason limits s o r result h a (broken e f b p q) = cc
  killed_reason limits s o r result h a (over_limit e f b l p q) = cc
  killed_reason limits s o r result h a (over_var e f b l v p q) = cc
  killed_reason limits s o r result h a (accepted m p q) = let running = m.running in cc

  active_rejects :
      (limits : RiskLimits D) (s : RiskEngine D V) (o : Order) (r : Readings)
      (result : RiskEvaluationResult D)
      → s.kill_switch_active ≡ true
      → Verdict limits var s o r result
      → is_reject result.decision ≡ true
  active_rejects limits s o r result a (invalid e p q) = rw p
  active_rejects limits s o r result a (killed e f p q) = rw p
  active_rejects limits s o r result a (broken e f b p q) = rw p
  active_rejects limits s o r result a (over_limit e f b l p q) = rw p
  active_rejects limits s o r result a (over_var e f b l v p q) = rw p
  active_rejects limits s o r result a (accepted m p q) = let running = m.running in cc

  evaluate_active :
      (s : RiskEngine D V) (c : Call D)
      → s.kill_switch_active ≡ true
      → (evaluate s c).0.kill_switch_active ≡ true
  evaluate_active s c a =
      let verdict = evaluate_order-Verdict c.limits var s c.order c.readings in
      let rejected = active_rejects c.limits s c.order c.readings (evaluate s c).1 a verdict in
      evaluate_order-Switches c.limits var s c.order c.readings ∙ simp rejected a

  run_active :
      (s : RiskEngine D V) (cs : List (Call D))
      → s.kill_switch_active ≡ true
      → (run s cs).kill_switch_active ≡ true
  run_active s [] a = a
  run_active s (c ∷ cs) a = run_active (evaluate s c).0 cs (evaluate_active s c a)

  -- Once thrown, the kill switch stays so over any sequence of orders, and rejects every valid order
  -- for its own reason.
  pub kill_switch_stays :
      (s : RiskEngine D V) (cs : List (Call D)) (c : Call D)
      → s.kill_switch_active ≡ true
      → is_valid c.order ≡ true
      → let t = run s cs in
        (t.kill_switch_active ≡ true)
        × ((evaluate t c).1.decision ≡ reject)
        × ((evaluate t c).1.rejection_reason ≡ rejection_reason_kill_switch)
  kill_switch_stays s cs c a h =
      let t = run s cs in
      let active = run_active s cs a in
      let (decision, reason) =
        killed_reason c.limits t c.order c.readings (evaluate t c).1 h active
          (evaluate_order-Verdict c.limits var t c.order c.readings) in
      (active, decision, reason)

  -- A valid order in instrument `i` that exceeds its limit.
  pub record IsBreach (i : ℕ) (c : Call D) : Type 0 where
    pub valid : is_valid c.order ≡ true
    pub instrument : c.order.instrument_id ≡ i
    pub exceeds : exceeds_limit c.limits c.order ≡ true

  exceeds_rejects :
      (s : RiskEngine D V) (c : Call D) (result : RiskEvaluationResult D)
      → exceeds_limit c.limits c.order ≡ true
      → Verdict c.limits var s c.order c.readings result
      → is_reject result.decision ≡ true
  exceeds_rejects s c result x (invalid e p q) = rw p
  exceeds_rejects s c result x (killed e f p q) = rw p
  exceeds_rejects s c result x (broken e f b p q) = rw p
  exceeds_rejects s c result x (over_limit e f b l p q) = rw p
  exceeds_rejects s c result x (over_var e f b l v p q) = rw p
  exceeds_rejects s c result x (accepted m p q) =
      let o = c.order in
      elim (Option-cases (c.limits.get_limit o.trader_id o.strategy_id o.instrument_id)) [
        | inl e ↦ ground arith
        | inr (limit, e) ↦ ground (arith, m.limit limit e)
      ]

  -- One breach of a closed breaker while the kill switch is off.
  breach_step :
      (s : RiskEngine D V) (c : Call D) (i n : ℕ)
      → IsBreach i c
      → i < max_instruments
      → s.kill_switch_active ≡ false
      → (s.circuit_breakers i).state ≡ closed
      → (s.circuit_breakers i).breach_count ≡ n
      → n < 3
      → let t = (evaluate s c).0 in
        (t.kill_switch_active ≡ false)
        × ((t.circuit_breakers i).state ≡ (if n == 2 then opened else closed))
        × ((t.circuit_breakers i).breach_count ≡ n + 1)
  unfolding breached_breaker
  breach_step s c i n b h a st k l =
      let verdict = evaluate_order-Verdict c.limits var s c.order c.readings in
      let rejected = exceeds_rejects s c (evaluate s c).1 b.exceeds verdict in
      let active : (evaluate s c).0.kill_switch_active ≡ false =
        evaluate_order-Switches c.limits var s c.order c.readings ∙ simp rejected a in
      let breaker = evaluate_order_breakers c.limits var s c.order c.readings i in
      (active, ground (arith, breaker), ground (arith, breaker))

  -- While the kill switch is off, three valid orders in an instrument that exceed their limits open
  -- its breaker, if it was closed and had counted nothing; after two it is still closed.
  pub three_breaches_open :
      (s : RiskEngine D V) (a b c : Call D) (i : ℕ)
      → IsBreach i a
      → IsBreach i b
      → IsBreach i c
      → i < max_instruments
      → s.kill_switch_active ≡ false
      → (s.circuit_breakers i).state ≡ closed
      → (s.circuit_breakers i).breach_count ≡ 0
      → let two = run s (a ∷ b ∷ []) in
        let three = run s (a ∷ b ∷ c ∷ []) in
        ((two.circuit_breakers i).state ≡ closed)
        × ((three.circuit_breakers i).state ≡ opened)
        × ((three.circuit_breakers i).breach_count ≡ 3)
  three_breaches_open s a b c i ha hb hc h off st none_yet =
      let (off₁, st₁, n₁) = breach_step s a i 0 ha h off st none_yet (omega arith) in
      let one = (evaluate s a).0 in
      let (off₂, st₂, n₂) = breach_step one b i 1 hb h off₁ st₁ n₁ (omega arith) in
      let two = (evaluate one b).0 in
      let (off₃, st₃, n₃) = breach_step two c i 2 hc h off₂ st₂ n₂ (omega arith) in (st₂, st₃, n₃)
