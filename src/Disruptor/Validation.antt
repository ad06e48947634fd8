-- ===== src/Disruptor/Validation.antt =====
-- Which configurations the builder calls and `FromJson` reach, and what `Validate` says of them.
use challenge_8a2ffd.Common.{ℕ, ◌≤◌, ◌<◌, ◌≡◌, refl, Bool, true, arith, String, if-intro}
use text.Mathlib.Text.{◌==◌ as same_text}
use challenge_8a2ffd.Common.Bits.{IsPowerOfTwo}
use challenge_8a2ffd.Common.Json.{Json, IsReadable, Gives, Gives-optional, Gives-optional_then}
use challenge_8a2ffd.Disruptor.Config.{
  DisruptorConfig, WaitStrategyType, blocking, spin_wait, spin_yield, sleeping_wait, phased_backoff,
  ProducerType, default_config, with_ring_buffer_size, with_wait_strategy, with_thread_affinity,
  with_consumer_count, with_producer_type, with_metrics, with_spin_threshold, with_log_level,
  named_strategy, named_producer, validate, from_json, adjusted_count, min_ring_buffer_size,
  max_ring_buffer_size,
}
use challenge_8a2ffd.Disruptor.RingSize.{adjusted_size-IsRingSize}

-- One call of a builder.
pub data Sets {L : Type 0} (c : DisruptorConfig L) : DisruptorConfig L → Type 0 where
  sets_ring_buffer_size : (size : ℕ) → Sets c (with_ring_buffer_size c size)
  sets_wait_strategy : (strategy : WaitStrategyType) → Sets c (with_wait_strategy c strategy)
  sets_thread_affinity : (enable : Bool) → Sets c (with_thread_affinity c enable)
  sets_consumer_count : (count : ℕ) → Sets c (with_consumer_count c count)
  sets_producer_type : (type : ProducerType) → Sets c (with_producer_type c type)
  sets_metrics : (enable : Bool) → Sets c (with_metrics c enable)
  sets_spin_threshold : (microseconds : ℕ) → Sets c (with_spin_threshold c microseconds)
  sets_log_level : (level : L) → Sets c (with_log_level c level)

-- Any sequence of builder calls, `FromJson` among the places to start.
pub data Built {L : Type 0} (hardware_concurrency : ℕ) (info : L) : DisruptorConfig L → Type 0 where
  constructed : Built hardware_concurrency info (default_config hardware_concurrency info)
  set_by :
      {c c' : DisruptorConfig L}
      → Built hardware_concurrency info c
      → Sets c c'
      → Built hardware_concurrency info c'

-- What every configuration keeps.
abbrev pub IsSound : {L : Type 0} → DisruptorConfig L → Type 0
IsSound c =
    IsPowerOfTwo c.ring_buffer_size
    × (min_ring_buffer_size ≤ c.ring_buffer_size)
    × (c.ring_buffer_size ≤ max_ring_buffer_size)
    × (0 < c.consumer_count)

adjusted_count_positive : (count : ℕ) → 0 < adjusted_count count
unfolding adjusted_count
adjusted_count_positive count = ground arith

-- What the program reads from the JSON object is there at the type asked for, or not at all.
abbrev pub IsTyped : {D : Type 0} → Json D → Type 0
IsTyped j =
    IsReadable (j.contains "ringBufferSize") (j.get_uint64 "ringBufferSize")
    × IsReadable (j.contains "waitStrategy") (j.get_string "waitStrategy")
    × IsReadable (j.contains "threadAffinity") (j.get_bool "threadAffinity")
    × IsReadable (j.contains "consumerCount") (j.get_uint64 "consumerCount")
    × IsReadable (j.contains "producerType") (j.get_string "producerType")
    × IsReadable (j.contains "metrics") (j.get_bool "metrics")
    × IsReadable (j.contains "spinThresholdUs") (j.get_uint64 "spinThresholdUs")

module _ {L : Type 0} where
  Sets-IsSound : (c c' : DisruptorConfig L) → Sets c c' → IsSound c → IsSound c'
  unfolding with_ring_buffer_size with_wait_strategy with_thread_affinity with_consumer_count
      with_producer_type with_metrics with_spin_threshold with_log_level
  Sets-IsSound c _ (sets_ring_buffer_size size) (p, l, u, n) =
      let (p', l', u', _) = adjusted_size-IsRingSize size in (p', l', u', n)
  Sets-IsSound c _ (sets_wait_strategy strategy) h = h
  Sets-IsSound c _ (sets_thread_affinity enable) h = h
  Sets-IsSound c _ (sets_consumer_count count) (p, l, u, n) =
      (p, l, u, adjusted_count_positive count)
  Sets-IsSound c _ (sets_producer_type type) h = h
  Sets-IsSound c _ (sets_metrics enable) h = h
  Sets-IsSound c _ (sets_spin_threshold microseconds) h = h
  Sets-IsSound c _ (sets_log_level level) h = h

  Built-IsSound : {n : ℕ} {info : L} {c : DisruptorConfig L} → Built n info c → 0 < n → IsSound c
  unfolding default_config
  Built-IsSound constructed h = ((20, refl), omega arith, omega arith, h)
  Built-IsSound (set_by {c} {c'} b s) h = Sets-IsSound c c' s (Built-IsSound b h)

  validate-of_IsSound : (c : DisruptorConfig L) → IsSound c → validate c ≡ true
  unfolding validate
  validate-of_IsSound c (_, l, u, n) = ground arith

  -- On a machine that reports its processors, no sequence of builder calls makes a configuration
  -- that `Validate` refuses, and the ring buffer's size stays a power of two between the bounds.
  pub validate-of_Built :
      {n : ℕ} {info : L} {c : DisruptorConfig L}
      → Built n info c
      → 0 < n
      → (validate c ≡ true) × IsSound c
  validate-of_Built {c = c} b h =
      let sound = Built-IsSound b h in (validate-of_IsSound c sound, sound)

  named_strategy-Built :
      {n : ℕ} {info : L} (c : DisruptorConfig L) (name : String)
      → Built n info c
      → Built n info (named_strategy c name)
  unfolding named_strategy
  named_strategy-Built {n} {info} c name b =
      let to : (w : WaitStrategyType) → Built n info (with_wait_strategy c w) =
        λ w. set_by b (sets_wait_strategy w) in
      let P = Built n info in
      if-intro P (same_text name "blocking") (to blocking) (
        if-intro P (same_text name "spin") (to spin_wait) (
          if-intro P (same_text name "yield") (to spin_yield) (
            if-intro P (same_text name "sleep") (to sleeping_wait)
              (if-intro P (same_text name "phased") (to phased_backoff) b))))

  named_producer-Built :
      {n : ℕ} {info : L} (c : DisruptorConfig L) (name : String)
      → Built n info c
      → Built n info (named_producer c name)
  unfolding named_producer
  named_producer-Built c name b = set_by b (sets_producer_type _)

  from_json-Built :
      {D : Type 0} (j : Json D) (n : ℕ) (info : L)
      → IsTyped j
      → Gives (Built n info) (from_json j n info)
  unfolding from_json
  from_json-Built j n info (h1, h2, h3, h4, h5, h6, h7) =
      let P = Built n info in
      Gives-optional_then P h1 constructed (λ c a b. set_by b (sets_ring_buffer_size a))
        λ c b. Gives-optional_then P h2 b named_strategy-Built λ c b.
          Gives-optional_then P h3 b (λ c a b. set_by b (sets_thread_affinity a))
            λ c b.
              Gives-optional_then P h4 b (λ c a b. set_by b (sets_consumer_count a))
                λ c b. Gives-optional_then P h5 b named_producer-Built λ c b.
                  Gives-optional_then P h6 b (λ c a b. set_by b (sets_metrics a))
                    λ c b. Gives-optional P h7 b (λ c a b. set_by b (sets_spin_threshold a))

  -- When the keys of the JSON object have the types that are read and the machine reports its
  -- processors, `FromJson` throws nothing, and what it returns is valid, with a ring buffer whose
  -- size is a power of two between the bounds.
  pub from_json-validate :
      {D : Type 0} (j : Json D) (n : ℕ) (info : L)
      → IsTyped j
      → 0 < n
      → Gives (λ c. (validate c ≡ true) × IsSound c) (from_json j n info)
  from_json-validate j n info typed h =
      let (c, e, b) = from_json-Built j n info typed in (c, e, validate-of_Built b h)
