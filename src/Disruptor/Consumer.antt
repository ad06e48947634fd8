-- ===== src/Disruptor/Consumer.antt =====
-- `StartConsumers`, `ConfigureThreadAffinity` and `RecordConsumerMetrics`
-- (src/infrastructure/DisruptorConfig.cpp). The ring buffer and the barrier are the Disruptor
-- library's, the handler is the caller's; both are parameters.
use challenge_8a2ffd.Common.{
  ℕ, zero, suc, ◌+◌, ◌-◌, ◌*◌, ◌%◌, ◌^◌, Bool, Option, none, some, List, [], ◌∷◌, ltb, ◌==◌,
  if◌then◌else◌,
}
use challenge_8a2ffd.Disruptor.Config.{DisruptorConfig}

-- The library's barrier with its ring buffer, `B` in all, and events `E`.
pub record Barrier (B E : Type 0) : Type 0 where
  pub get_cursor : B → ℕ
  pub wait_for : B → ℕ → B × ℕ
  pub get_current : B → ℕ
  pub increment : B → B
  pub get : B → ℕ → E

-- What a call of the handler ends in: it returns, throws a `std::exception`, or throws something
-- else.
pub data Outcome (W : Type 0) : Type 0 where
  returned threw threw_other : W → Outcome W

-- Where the inner loop ends: with all events handled, or in `std::terminate`.
pub data Drained (B W : Type 0) : Type 0 where
  drained : B → W → Drained B W
  terminated : B → W → Drained B W
  out_of_fuel : Drained B W

pub record Totals : Type 0 where
  pub total_events : ℕ
  pub total_batches : ℕ

-- The core of a consumer; `none` is the division by a zero `hardware_concurrency()`.
unfoldable pub affinity_core : ℕ → ℕ → Option ℕ
affinity_core hardware_concurrency consumer_id =
    if hardware_concurrency == 0
    then none
    else some (consumer_id * 2 % 2 ^ 64 % hardware_concurrency)

-- The totals, and whether the call logs them.
unfoldable pub record_consumer_metrics : Totals → ℕ → Totals × Bool
record_consumer_metrics t batch_size =
    let batches = (t.total_batches + 1) % 2 ^ 64 in
    (
      record { total_events = (t.total_events + batch_size) % 2 ^ 64; total_batches = batches },
      batches % 10000 == 0,
    )

module _ {B E : Type 0} (b : Barrier B E) where
  -- `available - sequence->GetCurrent()`, as a `size_t`.
  unfoldable pub batch_size : B → ℕ → ℕ
  batch_size s available = (available + 2 ^ 64 - b.get_current s % 2 ^ 64) % 2 ^ 64

  -- What a round ends with, the metrics recorded if it ends at all.
  unfoldable pub count_round :
      {L W : Type 0} → DisruptorConfig L → Totals → ℕ → Drained B W → Drained B W × Totals
  unfolding batch_size
  count_round c t available (drained s w) = (
    drained s w,
    if c.enable_metrics then (record_consumer_metrics t (batch_size s available)).0 else t,
  )
  count_round c t available (terminated s w) = (terminated s w, t)
  count_round c t available out_of_fuel = (out_of_fuel, t)

module _ {B E W : Type 0} (b : Barrier B E) (handler : W → E → Outcome W) where
  -- `while (sequence->GetCurrent() < available)`.
  unfoldable pub drain : ℕ → B → W → ℕ → Drained B W
  drain zero s w available = if ltb (b.get_current s) available then out_of_fuel else drained s w
  drain (suc fuel) s w available =
      if ltb (b.get_current s) available
      then elim (handler w (b.get s (b.get_current s))) [
        | returned w ↦ drain fuel (b.increment s) w available
        | threw w ↦ drain fuel (b.increment s) w available
        | threw_other w ↦ terminated s w
      ]
      else drained s w

  -- One round of `while (true)`.
  unfoldable pub consume : {L : Type 0} → DisruptorConfig L → B → W → Totals → Drained B W × Totals
  consume c s w t =
      let (s, available) = b.wait_for s (b.get_cursor s) in
      count_round b c t available (drain (available - b.get_current s) s w available)

pub record ConsumerThread : Type 0 where
  pub consumer_id : ℕ
  -- The core it is bound to, if it is.
  pub core : Option (Option ℕ)

-- The thread that the loop starts for `i`.
unfoldable pub consumer_thread : {L : Type 0} → DisruptorConfig L → ℕ → ℕ → ConsumerThread
consumer_thread c hardware_concurrency i = record {
  consumer_id = i;
  core = if c.enable_thread_affinity then some (affinity_core hardware_concurrency i) else none;
}

unfoldable pub start_consumers_from :
    {L : Type 0} → DisruptorConfig L → ℕ → ℕ → ℕ → List ConsumerThread
start_consumers_from c hardware_concurrency i zero = []
start_consumers_from c hardware_concurrency i (suc n) =
    consumer_thread c hardware_concurrency i ∷ start_consumers_from c hardware_concurrency (suc i) n

unfoldable pub start_consumers : {L : Type 0} → DisruptorConfig L → ℕ → List ConsumerThread
start_consumers c hardware_concurrency =
    start_consumers_from c hardware_concurrency 0 c.consumer_count
