-- ===== src/Replay/Completion.antt =====
-- A replay that is started executes every event once, in order, and ends
-- (src/application/ReplayEngine.cpp).
use mathlib.Core.List.{append_assoc}
use challenge_8a2ffd.Common.{
  suc, ◌+◌, ◌≡◌, ◌≢◌, refl, sym, ap, ◌∙◌, Bool, true, false, ◌&&◌, Option, some, List, [], ◌∷◌,
  ◌++◌, arith, length, length-append, get_elem?, set, get_elem?-append, set-append, leb,
  if◌then◌else◌, if-intro, if-cases,
}
use challenge_8a2ffd.Common.Double.{Double}
use challenge_8a2ffd.Common.Int.{ℤ}
use challenge_8a2ffd.Sharding.Hash.{Bytes}
use challenge_8a2ffd.Adapters.Document.{Parser}
use challenge_8a2ffd.Replay.{ReplayEvent, ReplayEngine, replay_event}
use challenge_8a2ffd.Replay.Playing.{
  RiskEngineCalls, emit_audit_event, finish_replay, generate_replay_report, reaches_target,
  execute_event, report_path_or_default,
}
use challenge_8a2ffd.Replay.Progress.{
  marked, target_time, finish_if_last, execute_next, process_next_event, play,
}

and-false : (b : Bool) → (b && false) ≡ false
and-false true = refl
and-false false = refl

-- The clock reaches every time.
abbrev pub IsPatient : (ℤ → List ℤ) → Type 0
IsPatient clock = (target : ℤ) → reaches_target target (clock target) ≡ true

module _ {K D : Type 0} (opens : Bytes → Bool) where
  -- The end of a replay changes none of these,
  record IsFinished (engine engine' : ReplayEngine K D) : Type 0 where
    same_events : engine'.events ≡ engine.events
    same_risk_engine : engine'.risk_engine ≡ engine.risk_engine
    same_index : engine'.current_event_index ≡ engine.current_event_index
    stopped : engine'.is_replaying ≡ (
        if leb (length engine.events) engine.current_event_index
        then false
        else engine.is_replaying)

  finish_if_last-IsFinished :
      (engine : ReplayEngine K D) → IsFinished engine (finish_if_last opens engine)
  unfolding finish_replay generate_replay_report
  finish_if_last-IsFinished engine =
      if-cases (IsFinished engine) (leb (length engine.events) engine.current_event_index)
        (λ t.
          if-intro (IsFinished engine) (opens (report_path_or_default engine.config.report_path))
            (record {
              same_events = refl;
              same_risk_engine = refl;
              same_index = refl;
              stopped = rw t refl;
            })
            (record {
              same_events = refl;
              same_risk_engine = refl;
              same_index = refl;
              stopped = rw t refl;
            }))
        λ t. record {
          same_events = refl;
          same_risk_engine = refl;
          same_index = refl;
          stopped = rw t refl;
        }

module _ {K D : Type 0} ⦃d : Double D⦄ ⦃calls : RiskEngineCalls K D⦄ (parse : Parser D) where
  -- The events with the marks of their execution, one after the other, and the risk engine after
  -- all of them.
  abbrev pub execute_all : List ReplayEvent → Option K → List ReplayEvent × Option K
  execute_all [] risk_engine = ([], risk_engine)
  execute_all (e ∷ events) risk_engine =
      let (risk_engine', success) = execute_event parse e risk_engine in
      let (events', last) = execute_all events risk_engine' in (marked e success ∷ events', last)

  -- What an execution changes, before the end of the replay is looked at.
  record IsExecuted (e : ReplayEvent) (engine engine' : ReplayEngine K D) : Type 0 where
    events_set :
        engine'.events
        ≡ set engine.events engine.current_event_index
            (marked e (execute_event parse e engine.risk_engine).1)
    risk_engine_after : engine'.risk_engine ≡ (execute_event parse e engine.risk_engine).0
    next_index : engine'.current_event_index ≡ suc engine.current_event_index
    goes_on : engine'.is_replaying ≡ (
        if leb (length engine'.events) engine'.current_event_index
        then false
        else engine.is_replaying)

  IsExecuted-intro :
      (opens : Bytes → Bool) (e : ReplayEvent) (engine x : ReplayEngine K D)
      → x.events
        ≡ set engine.events engine.current_event_index
            (marked e (execute_event parse e engine.risk_engine).1)
      → x.risk_engine ≡ (execute_event parse e engine.risk_engine).0
      → x.is_replaying ≡ engine.is_replaying
      → IsExecuted e engine
          (finish_if_last opens (record x { current_event_index = engine.current_event_index + 1 }))
  IsExecuted-intro opens e engine x h k l =
      let x' : ReplayEngine K D = record x {
        current_event_index = engine.current_event_index + 1;
      } in
      let done = finish_if_last-IsFinished opens x' in
      record {
        events_set = done.same_events ∙ h;
        risk_engine_after = done.same_risk_engine ∙ k;
        next_index = done.same_index ∙ omega arith;
        goes_on =
            done.stopped
            ∙ ap (λ b. if leb (length x.events) (engine.current_event_index + 1) then false else b)
                l
            ∙ sym (
                ap
                  (λ l.
                    if leb (length l) (finish_if_last opens x').current_event_index
                    then false
                    else engine.is_replaying)
                  done.same_events
                ∙ ap (λ n. if leb (length x.events) n then false else engine.is_replaying)
                    done.same_index);
      }

  execute_next-IsExecuted :
      (opens : Bytes → Bool) (e : ReplayEvent) (engine : ReplayEngine K D)
      → IsExecuted e engine (execute_next parse opens e engine).0
  unfolding execute_next
  execute_next-IsExecuted opens e engine =
      let (risk_engine, success) = execute_event parse e engine.risk_engine in
      let executed : ReplayEngine K D = record engine {
        risk_engine = risk_engine;
        events = set engine.events engine.current_event_index (marked e success);
      } in
      if-intro
        (λ x. IsExecuted e engine (
          finish_if_last opens (record x { current_event_index = engine.current_event_index + 1 })))
        engine.config.record_every_event
        (IsExecuted-intro opens e engine
          (emit_audit_event
            (replay_event e.event_type e.line_number (marked e success).replay_result) executed)
          refl refl refl)
        (IsExecuted-intro opens e engine executed refl refl refl)

  -- All events are marked, the risk engine has seen each once, and the replay is over.
  pub record IsComplete (front rest : List ReplayEvent) (risk_engine : Option K)
      (engine : ReplayEngine K D) : Type 0 where
    pub stopped : engine.is_replaying ≡ false
    pub processed : engine.current_event_index ≡ length engine.events
    pub executed : engine.events ≡ front ++ (execute_all rest risk_engine).0
    pub risk_engine_after : engine.risk_engine ≡ (execute_all rest risk_engine).1

  IsComplete-cons :
      (front rest : List ReplayEvent) (e : ReplayEvent) (before after : Option K)
      (last : ReplayEngine K D)
      → after ≡ (execute_event parse e before).0
      → IsComplete (front ++ (marked e (execute_event parse e before).1 ∷ [])) rest after last
      → IsComplete front (e ∷ rest) before last
  IsComplete-cons front rest e before after last same complete =
      let x : ReplayEvent = marked e (execute_event parse e before).1 in
      record {
        stopped = complete.stopped;
        processed = complete.processed;
        executed =
            complete.executed
            ∙ append_assoc front (x ∷ []) (execute_all rest after).0
            ∙ ap (λ k. front ++ (x ∷ (execute_all rest k).0)) same;
        risk_engine_after = complete.risk_engine_after ∙ ap (λ k. (execute_all rest k).1) same;
      }

  module _ (opens : Bytes → Bool) (truncate : D → ℤ) (clock : ℤ → List ℤ) where
    after_mark :
        (engine : ReplayEngine K D) (front rest : List ReplayEvent) (e : ReplayEvent)
        → engine.events ≡ front ++ (e ∷ rest)
        → engine.current_event_index ≡ length front
        → (execute_next parse opens e engine).0.events
          ≡ front ++ (marked e (execute_event parse e engine.risk_engine).1 ∷ rest)
    after_mark engine front rest e h k =
        let x : ReplayEvent = marked e (execute_event parse e engine.risk_engine).1 in
        (execute_next-IsExecuted opens e engine).events_set
        ∙ ap (λ i. set engine.events i x) k
        ∙ ap (λ l. set l (length front) x) h
        ∙ set-append front rest e x

    process_next_event-executes :
        (engine : ReplayEngine K D) (front rest : List ReplayEvent) (e : ReplayEvent)
        → IsPatient clock
        → engine.is_replaying ≡ true
        → engine.events ≡ front ++ (e ∷ rest)
        → engine.current_event_index ≡ length front
        → process_next_event parse opens truncate clock engine
          ≡ some (execute_next parse opens e engine)
    unfolding process_next_event
    process_next_event-executes engine front rest e patient r h k =
        let size : length engine.events ≡ length front + suc (length rest) =
          ap length h ∙ length-append front (e ∷ rest) in
        let inside : leb (length engine.events) engine.current_event_index ≡ false = ground arith in
        let found : get_elem? engine.events engine.current_event_index ≡ some e =
          ap (get_elem? engine.events) k
          ∙ ap (λ l. get_elem? l (length front)) h
          ∙ get_elem?-append front rest e in
        simp (r, inside, found)
          (simp (patient (target_time truncate e engine))
            (simp (and-false engine.config.deterministic_mode) refl))

    pub play-IsComplete :
        (rest front : List ReplayEvent) (engine : ReplayEngine K D)
        → IsPatient clock
        → engine.is_replaying ≡ true
        → engine.events ≡ front ++ rest
        → engine.current_event_index ≡ length front
        → rest ≢ []
        → (engine' : ReplayEngine K D) × (play parse opens truncate clock (length rest) engine
            ≡ some engine')
          × IsComplete front rest engine.risk_engine engine'
    unfolding play
    play-IsComplete [] front engine patient r h k n = absurd (n refl)
    play-IsComplete (e ∷ []) front engine patient r h k n =
        let next = process_next_event-executes engine front [] e patient r h k in
        let engine' : ReplayEngine K D = (execute_next parse opens e engine).0 in
        let done = execute_next-IsExecuted opens e engine in
        let events = after_mark engine front [] e h k in
        let size : length engine'.events ≡ length front + 1 =
          ap length events ∙ length-append front _ in
        let last : leb (length engine'.events) engine'.current_event_index ≡ true =
          ground (arith, done.next_index) in
        (
          engine',
          simp (r, next) refl,
          record {
            stopped = done.goes_on ∙ rw last refl;
            processed = omega (arith, done.next_index);
            executed = events;
            risk_engine_after = done.risk_engine_after;
          },
        )
    play-IsComplete (e ∷ e' ∷ rest) front engine patient r h k n =
        let next = process_next_event-executes engine front (e' ∷ rest) e patient r h k in
        let x : ReplayEvent = marked e (execute_event parse e engine.risk_engine).1 in
        let engine' : ReplayEngine K D = (execute_next parse opens e engine).0 in
        let done = execute_next-IsExecuted opens e engine in
        let events = after_mark engine front (e' ∷ rest) e h k in
        let size : length engine'.events ≡ length front + suc (suc (length rest)) =
          ap length events ∙ length-append front (x ∷ e' ∷ rest) in
        let more : leb (length engine'.events) engine'.current_event_index ≡ false =
          ground (arith, done.next_index) in
        let (last, played, complete) =
          play-IsComplete (e' ∷ rest) (front ++ (x ∷ [])) engine' patient (done.goes_on ∙ rw more r)
            (events ∙ sym (append_assoc front (x ∷ []) (e' ∷ rest)))
            (omega (arith, done.next_index, length-append front (x ∷ []))) (λ c. absurd cc) in
        (
          last,
          simp (r, next) played,
          IsComplete-cons front (e' ∷ rest) e engine.risk_engine engine'.risk_engine last
              done.risk_engine_after complete,
        )
