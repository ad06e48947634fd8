-- ===== src/Adapters/Ring.antt =====
-- What the adapters ask of the Disruptor's ring buffer, and how they publish an event
-- (src/adapters).
use challenge_8a2ffd.Common.{ℕ, Option, none, some}

-- `next`, the write to the slot that `get` returns (`none` if it throws), and `publish`.
pub record RingBuffer (R E : Type 0) : Type 0 where
  pub next : R → ℕ × R
  pub write : R → ℕ → (E → E) → Option R
  pub publish : R → ℕ → R

module _ {R E : Type 0} ⦃ring : RingBuffer R E⦄ where
  -- Without a ring buffer nothing happens.
  abbrev pub publish_event : Option R → (E → E) → Option R
  publish_event none event = none
  publish_event (some r) event =
      let (sequence, claimed) = ring.next r in
      elim (ring.write claimed sequence event) [
        | none ↦ some claimed
        | some written ↦ some (ring.publish written sequence)
      ]
