-- ===== src/Disruptor/Tests.antt =====
-- The configuration and a consumer on concrete values.
use text.Mathlib.Text.{◌==◌ as same_text}
use challenge_8a2ffd.Common.{ℕ, suc, ◌+◌, ◌≡◌, refl, true, some, none, arith, if◌then◌else◌, ◌==◌}
use challenge_8a2ffd.Common.Json.{Json}
use challenge_8a2ffd.Disruptor.Config.{DisruptorConfig, default_config, adjusted_size, bit_length}
use challenge_8a2ffd.Disruptor.RingSize.{IsRingSize, adjusted_size-IsRingSize}
use challenge_8a2ffd.Disruptor.Validation.{IsTyped}
use challenge_8a2ffd.Disruptor.Consumer.{Barrier, Outcome, returned, threw, consume, drained, drain}
use challenge_8a2ffd.Disruptor.Drain.{Ends, consume-Ends}

adjusted_size-IsRingSize_example : IsRingSize 1500 (adjusted_size 1500)
adjusted_size-IsRingSize_example = adjusted_size-IsRingSize 1500

rounds_1500 : adjusted_size 1500 ≡ 2048
unfolding adjusted_size bit_length
rounds_1500 = refl

abbrev default_of_8 : DisruptorConfig (Unit {0})
default_of_8 = default_config 8 tt

-- {"ringBufferSize": 1500, "waitStrategy": "spin"}
abbrev settings : Json (Unit {0})
settings = record {
  contains = λ key. if same_text key "ringBufferSize" then true else same_text key "waitStrategy";
  get_uint64 = λ key. if same_text key "ringBufferSize" then some 1500 else none;
  get_string = λ key. if same_text key "waitStrategy" then some "spin" else none;
  get_bool = λ key. none;
  get_double = λ key. none;
}

settings-IsTyped : IsTyped settings
settings-IsTyped = (
  λ e. (1500, refl),
  λ e. ("spin", refl),
  λ e. absurd cc,
  λ e. absurd cc,
  λ e. absurd cc,
  λ e. absurd cc,
  λ e. absurd cc,
)

-- A barrier whose state is the current number; the event at a number is the number, and five are
-- published.
abbrev counting : Barrier ℕ ℕ
counting = record {
  get_cursor = λ s. 5;
  wait_for = λ s n. (s, n);
  get_current = λ s. s;
  increment = λ s. suc s;
  get = λ s n. n;
}

-- It adds up the events, and throws after the third.
abbrev adding : ℕ → ℕ → Outcome ℕ
adding w e = if e == 3 then threw (w + e) else returned (w + e)

consume-Ends_example :
    Ends counting adding 2 0 5
      (consume counting adding default_of_8 2 0 (record { total_events = 7; total_batches = 0 })).0
consume-Ends_example =
    consume-Ends counting (λ s. refl, λ s n. refl) adding default_of_8 2 2 0
      (record { total_events = 7; total_batches = 0 }) 5 refl (omega arith)

handles_three : drain counting adding 3 2 0 5 ≡ drained 5 9
unfolding drain
handles_three = refl
