-- ===== src/Replay/Order.antt =====
-- In the deterministic mode the events are executed in the order of their timestamps
-- (src/application/ReplayEngine.cpp). `std::sort` does not say how it orders equal timestamps: any
-- function with its properties stands for it.
use mathlib.Core.List.{Perm}
use mathlib.Core.List.Perm
use mathlib.Core.Path.{subst}
use challenge_8a2ffd.Common.{
  suc, ◌+◌, ◌≡◌, ◌≢◌, refl, sym, ap, ◌∙◌, Bool, true, false, Option, some, List, [], ◌∷◌, arith,
  length, All,
}
use challenge_8a2ffd.Common.Double.{Double}
use challenge_8a2ffd.Common.Int.{ℤ, ◌≤ℤ◌}
use challenge_8a2ffd.Sharding.Hash.{Bytes}
use challenge_8a2ffd.Adapters.Document.{Parser}
use challenge_8a2ffd.Replay.{ReplayEvent, ReplayEngine}
use challenge_8a2ffd.Replay.Playing.{
  RiskEngineCalls, start_with, start_replay, execute_event, count_if, is_success, is_failure,
}
use challenge_8a2ffd.Replay.Progress.{marked, play}
use challenge_8a2ffd.Replay.Completion.{execute_all, IsPatient, IsComplete, play-IsComplete}

abbrev pub IsAscending : List ReplayEvent → Type 0
IsAscending [] = Unit
IsAscending (e ∷ events) = All (λ f. e.timestamp ≤ℤ f.timestamp) events × IsAscending events

pub record IsSort (sort : List ReplayEvent → List ReplayEvent) : Type 0 where
  pub perm : (events : List ReplayEvent) → Perm (sort events) events
  pub ascending : (events : List ReplayEvent) → IsAscending (sort events)

marked-counted :
    (e : ReplayEvent) (b : Bool) (events : List ReplayEvent)
    → count_if is_success (marked e b ∷ events) + count_if is_failure (marked e b ∷ events)
      ≡ suc (count_if is_success events + count_if is_failure events)
marked-counted e true events = omega arith
marked-counted e false events = omega arith

module _ {K D : Type 0} ⦃d : Double D⦄ ⦃calls : RiskEngineCalls K D⦄ (parse : Parser D) where
  -- Marks do not move events.
  execute_all-above :
      (bound : ℤ) (events : List ReplayEvent) (k : Option K)
      → All (λ f. bound ≤ℤ f.timestamp) events
      → All (λ f. bound ≤ℤ f.timestamp) (execute_all parse events k).0
  execute_all-above bound [] k h = tt
  execute_all-above bound (e ∷ events) k (h, hs) =
      (h, execute_all-above bound events (execute_event parse e k).0 hs)

  execute_all-IsAscending :
      (events : List ReplayEvent) (k : Option K)
      → IsAscending events
      → IsAscending (execute_all parse events k).0
  execute_all-IsAscending [] k h = tt
  execute_all-IsAscending (e ∷ events) k (h, hs) = (
    execute_all-above e.timestamp events (execute_event parse e k).0 h,
    execute_all-IsAscending events (execute_event parse e k).0 hs,
  )

  module _ (opens : Bytes → Bool) (truncate : D → ℤ) (clock : ℤ → List ℤ) where
    -- A replay that is started in the deterministic mode ends after as many turns as there are
    -- events, if the clock reaches every time that is waited for: each event was executed once, in
    -- the order of the timestamps, and the risk engine is as after exactly these calls.
    pub start_replay-completes :
        (sort : List ReplayEvent → List ReplayEvent) (now : ℤ) (engine : ReplayEngine K D)
        → IsSort sort
        → IsPatient clock
        → engine.events ≢ []
        → engine.config.deterministic_mode ≡ true
        → (engine' : ReplayEngine K D) × (play parse opens truncate clock
              (length (sort engine.events))
              (start_replay sort now engine).0
            ≡ some engine')
          × IsComplete parse [] (sort engine.events) engine.risk_engine engine'
          × IsAscending engine'.events
    unfolding start_replay
    start_replay-completes sort now engine s p n det = started engine.events n refl
      where
        started :
            (events : List ReplayEvent)
            → events ≢ []
            → engine.events ≡ events
            → (engine' : ReplayEngine K D) × (play parse opens truncate clock
                  (length (sort engine.events))
                  (start_with sort now events engine).0
                ≡ some engine')
              × IsComplete parse [] (sort engine.events) engine.risk_engine engine'
              × IsAscending engine'.events
        started [] m h = absurd (m refl)
        started (e ∷ events) m h =
            let sorted : (start_with sort now (e ∷ events) engine).0.events ≡ sort engine.events =
              rw det (ap sort (sym h)) in
            let (engine', played, complete) =
              play-IsComplete parse opens truncate clock (sort engine.events) []
                (start_with sort now (e ∷ events) engine).0 p refl sorted refl
                (λ empty. n (
                  sym (
                    Perm.nil-eq
                      (subst (λ l. Perm l engine.events) empty (s.perm engine.events))))) in
            (
              engine',
              played,
              complete,
              subst IsAscending (sym complete.executed) (
                  execute_all-IsAscending (sort engine.events) engine.risk_engine
                    (s.ascending engine.events)),
            )

  -- Of executed events each is counted once, as a success or as a failure.
  pub execute_all-counts :
      (events : List ReplayEvent) (k : Option K)
      → count_if is_success (execute_all parse events k).0
          + count_if is_failure (execute_all parse events k).0
        ≡ length events
  execute_all-counts [] k = omega arith
  execute_all-counts (e ∷ events) k =
      marked-counted e (execute_event parse e k).1
        (execute_all parse events (execute_event parse e k).0).0
      ∙ ap suc (execute_all-counts events (execute_event parse e k).0)
