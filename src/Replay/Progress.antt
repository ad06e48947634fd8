-- ===== src/Replay/Progress.antt =====
-- `processNextEvent`, and a replay that goes on to its end
-- (src/application/ReplayEngine.cpp, src/main.cpp).
use challenge_8a2ffd.Common.{
  ℕ, zero, suc, ◌+◌, Bool, true, false, not, ◌&&◌, ◌||◌, Option, none, some, List, [], ◌∷◌, length,
  get_elem?, set, leb, if◌then◌else◌,
}
use challenge_8a2ffd.Common.Double.{Double}
use challenge_8a2ffd.Common.Int.{ℤ, pos, ◌+ℤ◌, ◌-ℤ◌}
use challenge_8a2ffd.Common.Json.{◌>>=◌}
use challenge_8a2ffd.Sharding.Hash.{Bytes}
use challenge_8a2ffd.Adapters.Document.{Parser}
use challenge_8a2ffd.Replay.{ReplayEvent, ReplayEngine, replay_event}
use challenge_8a2ffd.Replay.Playing.{
  RiskEngineCalls, success_text, failure_text, emit_audit_event, finish_replay, reaches_target,
  execute_event,
}

abbrev pub marked : ReplayEvent → Bool → ReplayEvent
marked e success = record e {
  replayed = true;
  replay_result = if success then success_text else failure_text;
}

-- The timestamp of the first event.
abbrev pub first_timestamp : List ReplayEvent → ℤ
first_timestamp [] = pos 0
first_timestamp (e ∷ events) = e.timestamp

module _ {K D : Type 0} where
  abbrev pub recorded : ReplayEvent → ReplayEngine K D → ReplayEngine K D
  recorded e engine =
      if engine.config.record_every_event
      then emit_audit_event (replay_event e.event_type e.line_number e.replay_result) engine
      else engine

  abbrev pub go_on : Option (ReplayEngine K D × Bool) → Option (ReplayEngine K D)
  go_on none = none
  go_on (some (engine, success)) = some engine

module _ {K D : Type 0} ⦃d : Double D⦄ where
  unfoldable pub target_time : (D → ℤ) → ReplayEvent → ReplayEngine K D → ℤ
  target_time truncate e engine =
      engine.start_replay_timestamp
      +ℤ truncate
          (d.div (d.of_ℤ (e.timestamp -ℤ first_timestamp engine.events)) engine.playback_speed)

module _ {K D : Type 0} (opens : Bytes → Bool) where
  abbrev pub finish_if_last : ReplayEngine K D → ReplayEngine K D
  finish_if_last engine =
      if leb (length engine.events) engine.current_event_index
      then finish_replay opens engine
      else engine

module _ {K D : Type 0} ⦃d : Double D⦄ ⦃calls : RiskEngineCalls K D⦄ (parse : Parser D)
    (opens : Bytes → Bool) where
  -- What follows the wait.
  unfoldable pub execute_next : ReplayEvent → ReplayEngine K D → ReplayEngine K D × Bool
  execute_next e engine =
      let (risk_engine, success) = execute_event parse e engine.risk_engine in
      let executed = record engine {
        risk_engine = risk_engine;
        events = set engine.events engine.current_event_index (marked e success);
      } in
      let counted = recorded (marked e success) executed in
      (
        finish_if_last opens
            (record counted { current_event_index = engine.current_event_index + 1 }),
        success,
      )

module _ {K D : Type 0} ⦃d : Double D⦄ ⦃calls : RiskEngineCalls K D⦄ (parse : Parser D)
    (opens : Bytes → Bool) (truncate : D → ℤ) where
  abbrev pub execute_found :
      (ℤ → List ℤ) → Option ReplayEvent → ReplayEngine K D → Option (ReplayEngine K D × Bool)
  execute_found clock none engine = some (engine, false)
  execute_found clock (some e) engine =
      if engine.config.deterministic_mode
        && not
            (reaches_target (target_time truncate e engine) (clock (target_time truncate e engine)))
      then none
      else some (execute_next parse opens e engine)

  -- `clock` gives the readings of the loop that waits for a time; `none` is a wait without end.
  unfoldable pub process_next_event :
      (ℤ → List ℤ) → ReplayEngine K D → Option (ReplayEngine K D × Bool)
  process_next_event clock engine =
      if not engine.is_replaying || leb (length engine.events) engine.current_event_index
      then some (engine, false)
      else execute_found clock (get_elem? engine.events engine.current_event_index) engine

  -- `while (isReplaying()) processNextEvent();` for so many turns.
  unfoldable pub play : (ℤ → List ℤ) → ℕ → ReplayEngine K D → Option (ReplayEngine K D)
  play clock zero engine = some engine
  play clock (suc turns) engine =
      if engine.is_replaying
      then (go_on (process_next_event clock engine) >>= λ engine'. play clock turns engine')
      else some engine
