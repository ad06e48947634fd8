-- ===== src/RiskEngine/Tests.antt =====
-- Runs of the risk engine on concrete orders, in fixed-point arithmetic.
use challenge_8a2ffd.Common.{ℕ, ◌+◌, ◌*◌, ◌≡◌, refl, Bool, true, false, some, [], ◌∷◌, arith}
use challenge_8a2ffd.Common.Int.{pos, ◌+ℤ◌, ◌*ℤ◌, ◌/ℤ◌}
use challenge_8a2ffd.Common.Fixed.{Fixed, fixed_double}
use challenge_8a2ffd.MarketData.Book.{buy, empty_book}
use challenge_8a2ffd.MarketData.Cache.{empty_cache, get_order_book}
use challenge_8a2ffd.RiskEngine.Types.{
  Order, reject, is_valid, is_reject, notional, notional_double, opened, closed,
  rejection_reason_kill_switch,
}
use challenge_8a2ffd.RiskEngine.State.{
  RiskEngine, RiskLimits, VarModel, Readings, fresh_breaker, initial_engine, construct, set_breaker,
  reset_circuit_breaker,
}
use challenge_8a2ffd.RiskEngine.Breaker.{check_circuit_breaker, breached_breaker}
use challenge_8a2ffd.RiskEngine.Checks.{
  evaluate_risk_limits, evaluate_var, breaches_var, new_exposure,
}
use challenge_8a2ffd.RiskEngine.Evaluate.{
  evaluate_order, after_breaker, after_limits, finish_rejection, finish_acceptance,
  reject_by_kill_switch,
}
use challenge_8a2ffd.RiskEngine.Evaluate.Decision.{Verdict, evaluate_order-Verdict}
use challenge_8a2ffd.RiskEngine.Evaluate.Breakers.{evaluate_order_breakers}
use challenge_8a2ffd.RiskEngine.Evaluate.Counters.{Counts, evaluate_order-Counts}
use challenge_8a2ffd.RiskEngine.Evaluate.KillSwitch.{Switches, evaluate_order-Switches}
use challenge_8a2ffd.RiskEngine.Reachable.{
  start, then_calls, evaluates, resets_breaker, IsEngine, construct-IsEngine,
}
use challenge_8a2ffd.RiskEngine.Unreset.{unreset_admits}
use challenge_8a2ffd.RiskEngine.Runs.{
  Call, evaluate, run, kill_switch_stays, IsBreach, three_breaches_open,
}

abbrev Engine : Type 0
Engine = RiskEngine Fixed (Unit {0})

-- A limit of 100 for every instrument, and nothing held yet.
abbrev limits_of_100 : RiskLimits Fixed
limits_of_100 = record {
  get_limit = λ _ _ _. some (pos 100_000_000);
  get_current_exposure = λ _ _ _. pos 0;
}

-- The value at risk counts a tenth of an order, and may reach 9.
abbrev tenth : VarModel Fixed (Unit {0})
tenth = record {
  calculate_var = λ _ _. pos 0;
  estimate_potential_loss = λ _ _ x. x /ℤ 10;
  get_var_limit = λ _. pos 9_000_000;
  update_volatility = λ v _ _. v;
}

-- `units` units at a price of 1000000.
abbrev order_of : ℕ → Order
order_of units = record {
  order_id = 1;
  instrument_id = 5;
  trader_id = 1;
  strategy_id = 1;
  side = buy;
  price = pos 1_000_000_000_000;
  quantity = pos units;
  timestamp = 0;
}

abbrev readings_at : ℕ → Readings
readings_at ms = record {
  start_ns = ms * 1_000_000;
  end_ns = ms * 1_000_000 + 250;
  breaker_ms = ms;
  breach_ms = ms;
  anomaly_ms = ms;
  stamp_us = ms * 1000;
}

abbrev fresh : Engine
fresh = initial_engine empty_cache tt 0 1_000_000

abbrev killed_engine : Engine
killed_engine = record fresh { kill_switch_active = true }

-- The breaker of instrument 5 is open, and was reset at time 995000.
abbrev tripped : Engine
tripped =
    set_breaker fresh 5
      (record fresh_breaker { state = opened; breach_count = 3; last_reset_timestamp = 995_000 })

abbrev call_of : ℕ → Call Fixed
call_of units = record {
  limits = limits_of_100;
  order = order_of units;
  readings = readings_at 1_000_100;
}

abbrev invalid_call : Call Fixed
invalid_call = record {
  limits = limits_of_100;
  order = order_of 0;
  readings = readings_at 1_000_100;
}

-- What the tests of `evaluate_order` unfold.
decision_of : Engine → ℕ → ℕ → Bool
unfolding evaluate_order after_breaker after_limits finish_rejection finish_acceptance
    reject_by_kill_switch check_circuit_breaker evaluate_risk_limits evaluate_var breaches_var
    new_exposure notional_double notional is_valid get_order_book empty_cache empty_book ◌+ℤ◌ ◌*ℤ◌
    ◌/ℤ◌
decision_of s units ms =
    is_reject (evaluate_order limits_of_100 tenth s (order_of units) (readings_at ms)).1.decision

decisions :
    (decision_of fresh 80 1_000_000 ≡ false)
    × (decision_of fresh 95 1_000_000 ≡ true)
    × (decision_of fresh 101 1_000_000 ≡ true)
    × (decision_of fresh 0 1_000_000 ≡ true)
    × (decision_of killed_engine 80 1_000_000 ≡ true)
    × (decision_of tripped 80 1_000_000 ≡ true)
    × (decision_of tripped 80 1_000_001 ≡ false)
unfolding decision_of
decisions = (refl, refl, refl, refl, refl, refl, refl)

evaluate_order-Verdict_example :
    Verdict limits_of_100 tenth fresh
      (order_of 101)
      (readings_at 1_000_100)
      (evaluate_order limits_of_100 tenth fresh (order_of 101) (readings_at 1_000_100)).1
evaluate_order-Verdict_example =
    evaluate_order-Verdict limits_of_100 tenth fresh (order_of 101) (readings_at 1_000_100)

evaluate_order_breakers_example :
    (evaluate_order limits_of_100 tenth fresh
        (order_of 101)
        (readings_at 1_000_100)).0.circuit_breakers
      5
    ≡ breached_breaker fresh_breaker 1_000_100
unfolding is_valid new_exposure notional_double notional ◌+ℤ◌ ◌*ℤ◌ ◌/ℤ◌
evaluate_order_breakers_example =
    evaluate_order_breakers limits_of_100 tenth fresh (order_of 101) (readings_at 1_000_100) 5

evaluate_order-Counts_example :
    Counts fresh (evaluate_order limits_of_100 tenth fresh (order_of 80) (readings_at 1_000_100))
unfolding is_valid
evaluate_order-Counts_example =
    evaluate_order-Counts limits_of_100 tenth fresh (order_of 80) (readings_at 1_000_100) refl
      (omega arith)

evaluate_order-Switches_example :
    Switches fresh
      (readings_at 1_060_001)
      (evaluate_order limits_of_100 tenth fresh (order_of 80) (readings_at 1_060_001))
evaluate_order-Switches_example =
    evaluate_order-Switches limits_of_100 tenth fresh (order_of 80) (readings_at 1_060_001)

construct-IsEngine_example : IsEngine {D = Fixed} tenth (
    reset_circuit_breaker
      (evaluate_order limits_of_100 tenth fresh (order_of 101) (readings_at 1_000_100)).0
      5
      1_000_200)
unfolding construct
construct-IsEngine_example =
    construct-IsEngine tenth (some empty_cache) (some limits_of_100) (some tt) 0 1_000_000 fresh _
      refl
      (then_calls
        (then_calls start (evaluates limits_of_100 (order_of 101) (readings_at 1_000_100)))
        (resets_breaker 5 1_000_200))

-- After a breach, and with the breaker of another instrument reset by hand.
unreset_admits_example :
    is_reject
      (check_circuit_breaker
        (reset_circuit_breaker
          (evaluate_order limits_of_100 tenth fresh (order_of 101) (readings_at 1_000_100)).0
          7
          1_000_150)
        5
        1_000_200).1.decision
    ≡ false
unfolding construct
unreset_admits_example =
    unreset_admits tenth (some empty_cache) (some limits_of_100) (some tt) 0 1_000_000 fresh _ 5
      1_000_200 refl
      (then_calls
        (then_calls start (evaluates limits_of_100 (order_of 101) (readings_at 1_000_100)))
        (resets_breaker 7 1_000_150))
      ((tt, tt), omega arith) (omega arith) (omega arith) (omega arith)

kill_switch_stays_example :
    let s = run tenth killed_engine (call_of 80 ∷ invalid_call ∷ []) in
    (s.kill_switch_active ≡ true)
    × ((evaluate tenth s (call_of 80)).1.decision ≡ reject)
    × ((evaluate tenth s (call_of 80)).1.rejection_reason ≡ rejection_reason_kill_switch)
unfolding is_valid
kill_switch_stays_example =
    kill_switch_stays tenth killed_engine (call_of 80 ∷ invalid_call ∷ []) (call_of 80) refl refl

call_of_101-IsBreach : IsBreach tenth 5 (call_of 101)
unfolding is_valid new_exposure notional_double notional ◌+ℤ◌ ◌*ℤ◌ ◌/ℤ◌
call_of_101-IsBreach = record { valid = refl; instrument = refl; exceeds = refl }

three_breaches_open_example :
    let two = run tenth fresh (call_of 101 ∷ call_of 101 ∷ []) in
    let three = run tenth fresh (call_of 101 ∷ call_of 101 ∷ call_of 101 ∷ []) in
    ((two.circuit_breakers 5).state ≡ closed)
    × ((three.circuit_breakers 5).state ≡ opened)
    × ((three.circuit_breakers 5).breach_count ≡ 3)
three_breaches_open_example =
    three_breaches_open tenth fresh (call_of 101) (call_of 101) (call_of 101) 5 call_of_101-IsBreach
      call_of_101-IsBreach call_of_101-IsBreach (omega arith) refl refl refl
