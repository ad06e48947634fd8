-- ===== src/Replay/Playing.antt =====
-- Starting a replay, executing the events one by one, and the end of it
-- (src/application/ReplayEngine.cpp). The risk engine, the JSON library, the order that `std::sort`
-- gives to equal timestamps and the clock's readings are parameters.
use challenge_8a2ffd.Common.{
  ℕ, suc, Bool, true, false, not, ◌&&◌, Option, none, some, List, [], ◌∷◌, ◌++◌, map, length,
  if◌then◌else◌,
}
use challenge_8a2ffd.Common.Double.{Double}
use challenge_8a2ffd.Common.Int.{ℤ, pos, ltb_ℤ}
use challenge_8a2ffd.Common.Json.{◌>>=◌}
use challenge_8a2ffd.Sharding.Hash.{Bytes}
use challenge_8a2ffd.Texts.{bytes, same_bytes}
use challenge_8a2ffd.Adapters.Document.{Parser, string_value, double_value, int_value}
use challenge_8a2ffd.Replay.{
  ReplayEvent, ReplayEngine, ReplayReport, ReportedEvent, AuditEvent, replay_started,
  replay_completed,
}

-- What the replay asks of the risk engine: the engine after the call, and whether it returned.
pub record RiskEngineCalls (K D : Type 0) : Type 0 where
  pub evaluate_order_risk : K → Bytes → Bytes → D → D → Bytes → Bytes → K × Bool
  pub update_market_data : K → Bytes → D → D → ℤ → ℤ → K × Bool
  pub check_trader_limit : K → Bytes → D → D → K × Bool

abbrev pub success_text : Bytes
success_text = bytes "SUCCESS"

abbrev pub failure_text : Bytes
failure_text = bytes "FAILURE"

abbrev pub emit_audit_event : {K D : Type 0} → AuditEvent → ReplayEngine K D → ReplayEngine K D
emit_audit_event audit engine = record engine { audit = engine.audit ++ (audit ∷ []) }

module _ {K D : Type 0} where
  -- With the events that there are.
  abbrev pub start_with :
      (List ReplayEvent → List ReplayEvent)
      → ℤ
      → List ReplayEvent
      → ReplayEngine K D
      → ReplayEngine K D × Bool
  start_with sort now [] engine = (engine, false)
  start_with sort now (e ∷ events) engine = (
    emit_audit_event replay_started (record engine {
      events = if engine.config.deterministic_mode then sort (e ∷ events) else e ∷ events;
      is_replaying = true;
      current_event_index = 0;
      start_replay_timestamp = now;
    }),
    true,
  )

  unfoldable pub start_replay :
      (List ReplayEvent → List ReplayEvent) → ℤ → ReplayEngine K D → ReplayEngine K D × Bool
  start_replay sort now engine = start_with sort now engine.events engine

abbrev pub is_success : ReplayEvent → Bool
is_success e = e.replayed && same_bytes e.replay_result success_text

abbrev pub is_failure : ReplayEvent → Bool
is_failure e = e.replayed && not (same_bytes e.replay_result success_text)

-- How many events pass a test.
abbrev pub count_if : (ReplayEvent → Bool) → List ReplayEvent → ℕ
count_if test [] = 0
count_if test (e ∷ events) = if test e then suc (count_if test events) else count_if test events

-- A row of the report.
abbrev pub reported : ReplayEvent → ReportedEvent
reported e = record {
  line_number = e.line_number;
  timestamp = e.timestamp;
  event_type = e.event_type;
  replayed = e.replayed;
  result = e.replay_result;
}

abbrev pub report_path_or_default : Bytes → Bytes
report_path_or_default [] = bytes "logs/replay_report.json"
report_path_or_default (b ∷ path) = b ∷ path

module _ {K D : Type 0} where
  -- The file is written where it can be opened, which `opens` says.
  unfoldable pub generate_replay_report : (Bytes → Bool) → ReplayEngine K D → ReplayEngine K D
  generate_replay_report opens engine =
      let path = report_path_or_default engine.config.report_path in
      let report : ReplayReport D = record {
        total_events = length engine.events;
        replayed_events = count_if (λ e. e.replayed) engine.events;
        deterministic_mode = engine.config.deterministic_mode;
        playback_speed = engine.playback_speed;
        events = map reported engine.events;
      } in
      if opens path
      then record engine { reports = engine.reports ++ ((path, report) ∷ []) }
      else engine

  unfoldable pub finish_replay : (Bytes → Bool) → ReplayEngine K D → ReplayEngine K D
  finish_replay opens engine = generate_replay_report opens (
      emit_audit_event
        (replay_completed (length engine.events) (count_if is_success engine.events)
          (count_if is_failure engine.events))
        (record engine { is_replaying = false }))

-- The loop that sleeps until the clock reaches the target, over the clock's readings.
abbrev pub reaches_target : ℤ → List ℤ → Bool
reaches_target target [] = false
reaches_target target (now ∷ readings) =
    if ltb_ℤ now target then reaches_target target readings else true

module _ {K D : Type 0} ⦃d : Double D⦄ ⦃calls : RiskEngineCalls K D⦄ (parse : Parser D) where
  -- The engine, and whether the event succeeded: an exception is a failure.
  abbrev pub returned : Option K → Option (K × Bool) → Option K × Bool
  returned engine none = (engine, false)
  returned engine (some (engine', true)) = (some engine', true)
  returned engine (some (engine', false)) = (some engine', false)

  unfoldable pub replay_order_submission : Bytes → Option K → Option K × Bool
  replay_order_submission payload none = (none, false)
  replay_order_submission payload (some engine) = returned (some engine) (do
    json ← parse payload
    order ← string_value json "orderId" []
    instrument ← string_value json "instrumentId" []
    quantity ← double_value json "quantity" (d.lit 0 1)
    price ← double_value json "price" (d.lit 0 1)
    trader ← string_value json "traderId" []
    strategy ← string_value json "strategyId" []
    some (calls.evaluate_order_risk engine order instrument quantity price trader strategy))

  abbrev pub if_engine : Option K → (K → K × Bool) → Option K × Bool
  if_engine none call = (none, true)
  if_engine (some engine) call = returned (some engine) (some (call engine))

  abbrev pub or_failed : Option K → Option (Option K × Bool) → Option K × Bool
  or_failed engine none = (engine, false)
  or_failed engine (some outcome) = outcome

  unfoldable pub replay_market_data_update : Bytes → Option K → Option K × Bool
  replay_market_data_update payload engine = or_failed engine (do
    json ← parse payload
    instrument ← string_value json "instrumentId" []
    bid ← double_value json "bidPrice" (d.lit 0 1)
    ask ← double_value json "askPrice" (d.lit 0 1)
    bid_size ← int_value json "bidSize" (pos 0)
    ask_size ← int_value json "askSize" (pos 0)
    some (if_engine engine λ k. calls.update_market_data k instrument bid ask bid_size ask_size))

  unfoldable pub replay_risk_check : Bytes → Option K → Option K × Bool
  replay_risk_check payload engine = or_failed engine (do
    json ← parse payload
    trader ← string_value json "traderId" []
    exposure ← double_value json "exposure" (d.lit 0 1)
    limit ← double_value json "limit" (d.lit 0 1)
    some (if_engine engine λ k. calls.check_trader_limit k trader exposure limit))

  unfoldable pub replay_circuit_breaker : Bytes → Option K → Option K × Bool
  replay_circuit_breaker payload engine = or_failed engine (do
    json ← parse payload
    instrument ← string_value json "instrumentId" []
    state ← string_value json "state" []
    some (engine, true))

  unfoldable pub execute_event : ReplayEvent → Option K → Option K × Bool
  execute_event e engine =
      if same_bytes e.event_type (bytes "ORDER_SUBMITTED")
      then replay_order_submission e.payload engine
      else if same_bytes e.event_type (bytes "MARKET_DATA")
      then replay_market_data_update e.payload engine
      else if same_bytes e.event_type (bytes "RISK_CHECK")
      then replay_risk_check e.payload engine
      else if same_bytes e.event_type (bytes "CIRCUIT_BREAKER")
      then replay_circuit_breaker e.payload engine
      else (engine, false)
