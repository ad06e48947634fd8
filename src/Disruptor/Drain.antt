-- ===== src/Disruptor/Drain.antt =====
-- What one round of a consumer does: which events the handler gets, and how it ends.
use challenge_8a2ffd.Common.{
  ℕ, zero, suc, ◌+◌, ◌-◌, ◌^◌, ◌≤◌, ◌<◌, ◌≡◌, refl, ap, ◌∙◌, ◌⊎◌, inl, inr, false, List, [], ◌∷◌,
  arith, ltb, ltb_iff, Bool-cases, if-intro,
}
use challenge_8a2ffd.Disruptor.Config.{DisruptorConfig}
use challenge_8a2ffd.Disruptor.Consumer.{
  Barrier, Outcome, returned, threw, threw_other, Drained, drained, terminated, Totals, drain,
  batch_size, count_round, consume, record_consumer_metrics,
}

-- The library counts by one, and what is published at a number stays.
abbrev pub IsSequence : {B E : Type 0} → Barrier B E → Type 0
IsSequence {B} b =
    ((s : B) → b.get_current (b.increment s) ≡ suc (b.get_current s))
    × ((s : B) (n : ℕ) → b.get (b.increment s) n ≡ b.get s n)

-- The `k` events from number `n` on.
abbrev pub events : {B E : Type 0} → Barrier B E → B → ℕ → ℕ → List E
events b s n zero = []
events b s n (suc k) = b.get s n ∷ events b s (suc n) k

-- The handler gets the events one by one; a `std::exception` stops nothing.
pub data Handles {E W : Type 0} (handler : W → E → Outcome W) : W → List E → W → Type 0 where
  handles_none : {w : W} → Handles handler w [] w
  handles_event :
      {w w' w'' : W} {e : E} {l : List E}
      → (handler w e ≡ returned w') ⊎ (handler w e ≡ threw w')
      → Handles handler w' l w''
      → Handles handler w (e ∷ l) w''

-- All events up to `available` were handled, or those before the one whose handler threw something
-- that is no `std::exception`.
pub data Ends {B E W : Type 0} (b : Barrier B E) (handler : W → E → Outcome W) (s : B) (w : W)
    (available : ℕ) : Drained B W → Type 0 where
  ends_drained :
      (s' : B) (w' : W)
      → b.get_current s' ≡ available
      → Handles handler w (events b s (b.get_current s) (available - b.get_current s)) w'
      → Ends b handler s w available (drained s' w')
  ends_terminated :
      (s' : B) (w' w'' : W) (e : E)
      → b.get_current s ≤ b.get_current s'
      → b.get_current s' < available
      → Handles handler w (events b s (b.get_current s) (b.get_current s' - b.get_current s)) w'
      → e ≡ b.get s (b.get_current s')
      → handler w' e ≡ threw_other w''
      → Ends b handler s w available (terminated s' w'')

Outcome-cases :
    {W : Type 0} (o : Outcome W)
    → ((w : W) × (o ≡ returned w)) ⊎ (((w : W) × (o ≡ threw w)) ⊎ ((w : W) × (o ≡ threw_other w)))
Outcome-cases (returned w) = inl (w, refl)
Outcome-cases (threw w) = inr (inl (w, refl))
Outcome-cases (threw_other w) = inr (inr (w, refl))

module _ {B E : Type 0} (b : Barrier B E) (sequence : IsSequence b) where
  events-increment : (s : B) (n k : ℕ) → events b (b.increment s) n k ≡ events b s n k
  events-increment s n zero = refl
  events-increment s n (suc k) =
      rw (sequence.1 s n) (ap (λ l. b.get s n ∷ l) (events-increment s (suc n) k))

  events-next :
      (s : B) (m n : ℕ)
      → m ≡ suc n
      → events b s (b.get_current s) m
        ≡ b.get s (b.get_current s) ∷ events b (b.increment s) (b.get_current (b.increment s)) n
  events-next s m n e =
      rw e (rw (sequence.0 s) (rw (events-increment s (suc (b.get_current s)) n) refl))

  module _ {W : Type 0} (handler : W → E → Outcome W) where
    -- The event at hand was handled, and the rest ends as it does.
    Ends-step :
        (s : B) (w w' : W) (available : ℕ) {d : Drained B W}
        → b.get_current s < available
        → (handler w (b.get s (b.get_current s)) ≡ returned w')
          ⊎ (handler w (b.get s (b.get_current s)) ≡ threw w')
        → Ends b handler (b.increment s) w' available d
        → Ends b handler s w available d
    Ends-step s w w' available less done (ends_drained s' v e h) = ends_drained s' v e (
        rw
          (events-next s (available - b.get_current s) (available - b.get_current (b.increment s))
            (omega (arith, sequence.0 s)))
          (handles_event done h))
    Ends-step s w w' available less done (ends_terminated s' v v' ev le lt h same t) =
        ends_terminated s' v v' ev (omega (arith, sequence.0 s)) lt
          (rw
            (events-next s (b.get_current s' - b.get_current s)
              (b.get_current s' - b.get_current (b.increment s)) (omega (arith, sequence.0 s)))
            (handles_event done h))
          (same ∙ sequence.1 s (b.get_current s')) t

    Ends-stopped :
        (s : B) (w w' : W) (available : ℕ)
        → b.get_current s < available
        → handler w (b.get s (b.get_current s)) ≡ threw_other w'
        → Ends b handler s w available (terminated s w')
    Ends-stopped s w w' available less t =
        let nothing : b.get_current s - b.get_current s ≡ 0 = omega arith in
        ends_terminated s w w' _ (omega arith) less (rw nothing handles_none) refl t

    Ends-here :
        (s : B) (w : W) (available : ℕ)
        → b.get_current s ≡ available
        → Ends b handler s w available (drained s w)
    Ends-here s w available e =
        let none_left : available - b.get_current s ≡ 0 = omega arith in
        ends_drained s w e (rw none_left handles_none)

    -- With fuel for each event that is left, the loop ends, and it ends as described.
    drain-Ends :
        (fuel : ℕ) (s : B) (w : W) (available : ℕ)
        → b.get_current s ≤ available
        → available ≤ b.get_current s + fuel
        → Ends b handler s w available (drain b handler fuel s w available)
    unfolding drain
    drain-Ends zero s w available le enough =
        let stop : ltb (b.get_current s) available ≡ false = ground arith in
        rw stop (Ends-here s w available (omega arith))
    drain-Ends (suc fuel) s w available le enough =
        elim (Bool-cases (ltb (b.get_current s) available)) [
          | inr h ↦ rw h (Ends-here s w available (ground arith))
          | inl h ↦
              let less = (ltb_iff _ _).0 h in
              let rest = λ (w' : W).
                drain-Ends fuel (b.increment s) w' available (omega (arith, sequence.0 s))
                  (omega (arith, sequence.0 s)) in
              rw h (elim (Outcome-cases (handler w (b.get s (b.get_current s)))) [
                | inl (w', e) ↦ rw e (Ends-step s w w' available less (inl e) (rest w'))
                | inr (inl (w', e)) ↦ rw e (Ends-step s w w' available less (inr e) (rest w'))
                | inr (inr (w', e)) ↦ rw e (Ends-stopped s w w' available less e)
              ])
        ]

    batch_size-drained :
        (s : B) (available : ℕ)
        → b.get_current s ≡ available
        → available < 2 ^ 64
        → batch_size b s available ≡ 0
    unfolding batch_size
    batch_size-drained s available e h = omega arith

    module _ {L : Type 0} where
      count_round-Ends :
          (c : DisruptorConfig L) (s : B) (w : W) (t : Totals) (available : ℕ) {d : Drained B W}
          → Ends b handler s w available d
          → Ends b handler s w available (count_round b c t available d).0
      unfolding count_round
      count_round-Ends c s w t available (ends_drained s' w' e h) = ends_drained s' w' e h
      count_round-Ends c s w t available (ends_terminated s' w' w'' ev le lt h e t') =
          ends_terminated s' w' w'' ev le lt h e t'

      count_round-totals :
          (c : DisruptorConfig L) (s : B) (w : W) (t : Totals) (available : ℕ) {d : Drained B W}
          → Ends b handler s w available d
          → t.total_events < 2 ^ 64
          → available < 2 ^ 64
          → (count_round b c t available d).1.total_events ≡ t.total_events
      unfolding count_round record_consumer_metrics
      count_round-totals c s w t available (ends_drained s' w' e done) h h' =
          rw (batch_size-drained s' available e h') (
            if-intro (λ (t' : Totals). t'.total_events ≡ t.total_events) c.enable_metrics
              (omega arith) refl)
      count_round-totals c s w t available (ends_terminated s' w' w'' ev le lt done e t') h h' =
          refl

      -- A round of a consumer ends; the handler gets each event from the current number up to the
      -- published one once and in order, whatever `std::exception` it throws on the way, and only an
      -- exception of another type ends the round before.
      pub consume-Ends :
          (c : DisruptorConfig L) (s s' : B) (w : W) (t : Totals) (available : ℕ)
          → b.wait_for s (b.get_cursor s) ≡ (s', available)
          → b.get_current s' ≤ available
          → Ends b handler s' w available (consume b handler c s w t).0
      unfolding consume
      consume-Ends c s s' w t available e h = rw e (
          count_round-Ends c s' w t available
            (drain-Ends (available - b.get_current s') s' w available h (omega arith)))

      -- No round of a consumer adds anything to the total of events, however many it handled, since
      -- the size of the batch is taken after the loop.
      pub consume_totals :
          (c : DisruptorConfig L) (s s' : B) (w : W) (t : Totals) (available : ℕ)
          → b.wait_for s (b.get_cursor s) ≡ (s', available)
          → b.get_current s' ≤ available
          → available < 2 ^ 64
          → t.total_events < 2 ^ 64
          → (consume b handler c s w t).1.total_events ≡ t.total_events
      unfolding consume
      consume_totals c s s' w t available e h small small' = rw e (
          count_round-totals c s' w t available
            (drain-Ends (available - b.get_current s') s' w available h (omega arith)) small' small)
