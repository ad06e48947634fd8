-- ===== src/Disruptor/Config.antt =====
-- `DisruptorConfig` (src/infrastructure/DisruptorConfig.cpp). The members are those of the
-- constructor's list; their header is not in the repository. `L` is the type of spdlog's levels.
use Prim.Native.Nat.{bit_and}
use challenge_8a2ffd.Common.{
  ℕ, zero, suc, ◌-◌, ◌/◌, ◌%◌, ◌^◌, Bool, true, not, ◌&&◌, ◌||◌, Option, String, ltb, ◌==◌,
  if◌then◌else◌,
}
use text.Mathlib.Text.{◌==◌ as same_text}
use challenge_8a2ffd.Common.Json.{Json, optional, ◌>>=◌}

abbrev pub default_ring_buffer_size : ℕ
default_ring_buffer_size = 2 ^ 20

abbrev pub min_ring_buffer_size : ℕ
min_ring_buffer_size = 2 ^ 10

abbrev pub max_ring_buffer_size : ℕ
max_ring_buffer_size = 2 ^ 26

pub data WaitStrategyType : Type 0 where
  blocking spin_wait spin_yield sleeping_wait phased_backoff : WaitStrategyType

pub data ProducerType : Type 0 where
  single multi : ProducerType

pub record DisruptorConfig (L : Type 0) : Type 0 where
  pub ring_buffer_size : ℕ
  pub wait_strategy_type : WaitStrategyType
  pub enable_thread_affinity : Bool
  pub consumer_count : ℕ
  pub producer_type : ProducerType
  pub enable_metrics : Bool
  pub spin_threshold_us : ℕ
  pub log_level : L

-- The digits of a binary number of up to `fuel` digits.
unfoldable pub bit_length : ℕ → ℕ → ℕ
bit_length zero n = 0
bit_length (suc fuel) zero = 0
bit_length (suc fuel) (suc n) = suc (bit_length fuel (suc n / 2))

-- `__builtin_clzll`, for a positive argument.
abbrev pub clzll : ℕ → ℕ
clzll n = 64 - bit_length 64 n

-- The size that `WithRingBufferSize` stores.
unfoldable pub adjusted_size : ℕ → ℕ
adjusted_size size =
    if ltb size min_ring_buffer_size
    then min_ring_buffer_size
    else if ltb max_ring_buffer_size size
    then max_ring_buffer_size
    else if not (bit_and size (size - 1) == 0)
    then 2 ^ (64 - clzll size) % 2 ^ 64
    else size

unfoldable pub adjusted_count : ℕ → ℕ
adjusted_count count = if count == 0 then 1 else count

module _ {L : Type 0} where
  -- The constructor, with `std::thread::hardware_concurrency()` and `spdlog::level::info`.
  unfoldable pub default_config : ℕ → L → DisruptorConfig L
  default_config hardware_concurrency info = record {
    ring_buffer_size = default_ring_buffer_size;
    wait_strategy_type = blocking;
    enable_thread_affinity = true;
    consumer_count = hardware_concurrency;
    producer_type = multi;
    enable_metrics = true;
    spin_threshold_us = 0;
    log_level = info;
  }

  unfoldable pub with_ring_buffer_size : DisruptorConfig L → ℕ → DisruptorConfig L
  with_ring_buffer_size c size = record c { ring_buffer_size = adjusted_size size }

  unfoldable pub with_wait_strategy : DisruptorConfig L → WaitStrategyType → DisruptorConfig L
  with_wait_strategy c strategy = record c { wait_strategy_type = strategy }

  unfoldable pub with_thread_affinity : DisruptorConfig L → Bool → DisruptorConfig L
  with_thread_affinity c enable = record c { enable_thread_affinity = enable }

  unfoldable pub with_consumer_count : DisruptorConfig L → ℕ → DisruptorConfig L
  with_consumer_count c count = record c { consumer_count = adjusted_count count }

  unfoldable pub with_producer_type : DisruptorConfig L → ProducerType → DisruptorConfig L
  with_producer_type c type = record c { producer_type = type }

  unfoldable pub with_metrics : DisruptorConfig L → Bool → DisruptorConfig L
  with_metrics c enable = record c { enable_metrics = enable }

  unfoldable pub with_spin_threshold : DisruptorConfig L → ℕ → DisruptorConfig L
  with_spin_threshold c microseconds = record c { spin_threshold_us = microseconds }

  unfoldable pub with_log_level : DisruptorConfig L → L → DisruptorConfig L
  with_log_level c level = record c { log_level = level }

  -- The warning about a phased backoff without a threshold changes no result.
  unfoldable pub validate : DisruptorConfig L → Bool
  validate c =
      not
        (ltb c.ring_buffer_size min_ring_buffer_size || ltb max_ring_buffer_size c.ring_buffer_size)
      && not (c.consumer_count == 0)

  -- An unknown name leaves the strategy as it is.
  unfoldable pub named_strategy : DisruptorConfig L → String → DisruptorConfig L
  unfolding with_wait_strategy
  named_strategy c name =
      if same_text name "blocking"
      then with_wait_strategy c blocking
      else if same_text name "spin"
      then with_wait_strategy c spin_wait
      else if same_text name "yield"
      then with_wait_strategy c spin_yield
      else if same_text name "sleep"
      then with_wait_strategy c sleeping_wait
      else if same_text name "phased"
      then with_wait_strategy c phased_backoff
      else c

  unfoldable pub named_producer : DisruptorConfig L → String → DisruptorConfig L
  unfolding with_producer_type
  named_producer c name = with_producer_type c (if same_text name "single" then single else multi)

  -- `none` is an exception of the JSON library.
  unfoldable pub from_json : {D : Type 0} → Json D → ℕ → L → Option (DisruptorConfig L)
  from_json j hardware_concurrency info = do
    let c = default_config hardware_concurrency info
    c ←
        optional (j.contains "ringBufferSize") (j.get_uint64 "ringBufferSize") with_ring_buffer_size
          c
    c ← optional (j.contains "waitStrategy") (j.get_string "waitStrategy") named_strategy c
    c ← optional (j.contains "threadAffinity") (j.get_bool "threadAffinity") with_thread_affinity c
    c ← optional (j.contains "consumerCount") (j.get_uint64 "consumerCount") with_consumer_count c
    c ← optional (j.contains "producerType") (j.get_string "producerType") named_producer c
    c ← optional (j.contains "metrics") (j.get_bool "metrics") with_metrics c
    optional (j.contains "spinThresholdUs") (j.get_uint64 "spinThresholdUs") with_spin_threshold c

-- The ring buffer of the Disruptor library is a parameter, with the two values of its producer type.
unfoldable pub build_ring_buffer : {L P R : Type 0} → (ℕ → P → R) → P → P → DisruptorConfig L → R
build_ring_buffer ring_buffer single_producer multi_producer c =
    ring_buffer c.ring_buffer_size
      (elim c.producer_type [ single ↦ single_producer | multi ↦ multi_producer ])

-- The classes of the Disruptor library that `BuildWaitStrategy` makes an object of.
pub record WaitStrategies (W : Type 0) : Type 0 where
  pub blocking_wait : W
  pub spin_wait_wait : W
  pub yielding_wait : W
  pub sleeping : W
  -- The threshold in microseconds, the yield and the sleep times.
  pub phased_backoff_wait : ℕ → ℕ → ℕ → W

unfoldable pub build_wait_strategy : {L W : Type 0} → WaitStrategies W → DisruptorConfig L → W
build_wait_strategy w c = elim c.wait_strategy_type [
  | blocking ↦ w.blocking_wait
  | spin_wait ↦ w.spin_wait_wait
  | spin_yield ↦ w.yielding_wait
  | sleeping_wait ↦ w.sleeping
  | phased_backoff ↦ w.phased_backoff_wait c.spin_threshold_us 100 1000
]

pub record MetricSnapshot : Type 0 where
  pub ring_buffer_size : ℕ
  pub consumer_count : ℕ
  pub wait_strategy_type : WaitStrategyType
  pub thread_affinity_enabled : Bool
  pub producer_type : ProducerType

unfoldable pub get_metrics : {L : Type 0} → DisruptorConfig L → MetricSnapshot
get_metrics c = record {
  ring_buffer_size = c.ring_buffer_size;
  consumer_count = c.consumer_count;
  wait_strategy_type = c.wait_strategy_type;
  thread_affinity_enabled = c.enable_thread_affinity;
  producer_type = c.producer_type;
}
