-- ===== src/Main/Completion.antt =====
-- The replay mode replays a recorded file to its end (src/main.cpp,
-- src/application/ReplayEngine.cpp).
use challenge_8a2ffd.Common.{
  ℕ, zero, suc, ◌≡◌, refl, ap, ◌∙◌, Bool, true, Option, none, some, List, [], ◌∷◌, length,
  if◌then◌else◌, All,
}
use challenge_8a2ffd.Common.Double.{Double}
use challenge_8a2ffd.Common.Int.{ℤ}
use challenge_8a2ffd.Common.Json.{◌>>=◌}
use challenge_8a2ffd.Sharding.Hash.{Bytes}
use challenge_8a2ffd.Adapters.Document.{Parser}
use challenge_8a2ffd.Replay.{ReplayEvent, ReplayEngine, constructed}
use challenge_8a2ffd.Replay.RoundTrip.{
  Recorded, IsWritable, write_file, numbered, load_events_from_file-write_file,
}
use challenge_8a2ffd.Replay.Playing.{RiskEngineCalls, start_replay}
use challenge_8a2ffd.Replay.Progress.{process_next_event, go_on, play}
use challenge_8a2ffd.Replay.Completion.{IsPatient, IsComplete}
use challenge_8a2ffd.Replay.Order.{IsAscending, IsSort, start_replay-completes}
use challenge_8a2ffd.Main.{
  played, replay_config, replay_loop, loop_outcome, after_load, run_replay_mode,
}

module _ {K D : Type 0} ⦃d : Double D⦄ ⦃calls : RiskEngineCalls K D⦄ (parse : Parser D)
    (opens : Bytes → Bool) (truncate : D → ℤ) (clock : ℤ → List ℤ) where
  -- Without a signal the loop goes on as long as the replay does.
  replay_loop-play :
      (running : ℕ → Bool)
      → ((turns : ℕ) → running turns ≡ true)
      → (turns : ℕ) (engine : ReplayEngine K D)
      → replay_loop parse opens truncate clock running turns engine
        ≡ play parse opens truncate clock turns engine
  unfolding replay_loop play
  replay_loop-play running on zero engine = refl
  replay_loop-play running on (suc turns) engine =
      ap (λ o. if engine.is_replaying then o else some engine)
        (later (λ engine'. replay_loop-play running on turns engine')
          (go_on (process_next_event parse opens truncate clock engine)))
    where
      later :
          ((engine' : ReplayEngine K D)
            → replay_loop parse opens truncate clock running turns engine'
              ≡ play parse opens truncate clock turns engine')
          → (o : Option (ReplayEngine K D))
          → (o >>= λ engine'.
              if running turns
              then replay_loop parse opens truncate clock running turns engine'
              else some engine')
            ≡ (o >>= λ engine'. play parse opens truncate clock turns engine')
      later same none = refl
      later same (some engine') = rw (on turns) (same engine')

  -- The replay mode, given the file of recorded events and no signal, ends with each event executed
  -- once, in the order of the timestamps, if the clock reaches every time that is waited for: the
  -- risk engine is as after exactly these calls. The file has an event for each line, and at least
  -- one; timestamps are below 2 ^ 63, types hold no '|' and no line break, payloads hold no line
  -- break and are not empty.
  pub run_replay_mode-completes :
      (sort : List ReplayEvent → List ReplayEvent) (start now : ℤ) (running : ℕ → Bool)
      (risk_engine : K) (path : Bytes) (e : Recorded) (es : List Recorded)
      → IsSort sort
      → IsPatient clock
      → ((turns : ℕ) → running turns ≡ true)
      → All IsWritable (e ∷ es)
      → (engine : ReplayEngine K D) × (run_replay_mode parse opens truncate clock sort start now
            running
            (length (sort (numbered 1 (e ∷ es))))
            risk_engine
            path
            (some (write_file (e ∷ es)))
          ≡ played engine)
        × IsComplete parse [] (sort (numbered 1 (e ∷ es))) (some risk_engine) engine
        × IsAscending engine.events
  unfolding run_replay_mode start_replay constructed
  run_replay_mode-completes sort start now running risk_engine path e es s patient on writable =
      let new : ReplayEngine K D = constructed (replay_config path) (some risk_engine) start in
      let turns : ℕ = length (sort (numbered 1 (e ∷ es))) in
      let loaded : ReplayEngine K D = record new { events = numbered 1 (e ∷ es) } in
      let (engine, done, complete, ascending) =
        start_replay-completes parse opens truncate clock sort now loaded s patient (λ c. absurd cc)
          refl in
      (
        engine,
        ap (after_load parse opens truncate clock sort now running turns)
              (load_events_from_file-write_file new (e ∷ es) writable)
            ∙ ap (loop_outcome parse opens truncate clock)
                (replay_loop-play running on turns (start_replay sort now loaded).0 ∙ done),
        complete,
        ascending,
      )
