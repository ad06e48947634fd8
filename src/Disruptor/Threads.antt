-- ===== src/Disruptor/Threads.antt =====
-- Which threads are started, and on which cores.
use native.Mathlib.Nat.{mod-eq_of_lt, add-mod_right}
use challenge_8a2ffd.Common.{
  ℕ, zero, suc, ◌+◌, ◌*◌, ◌%◌, ◌^◌, ◌<◌, ◌≡◌, refl, ap, ◌∙◌, true, false, some, arith, length,
  get_elem?, ◌==◌,
}
use challenge_8a2ffd.Disruptor.Config.{DisruptorConfig}
use challenge_8a2ffd.Disruptor.Consumer.{
  consumer_thread, start_consumers, start_consumers_from, affinity_core,
}

affinity_core-low : (h i : ℕ) → i < h → h < 2 ^ 62 → affinity_core (2 * h) i ≡ some (2 * i)
unfolding affinity_core
affinity_core-low h i less small =
    let some_core : (2 * h == 0) ≡ false = ground arith in
    let word : i * 2 % 2 ^ 64 ≡ 2 * i = omega arith in
    rw some_core (rw word (ap some (mod-eq_of_lt (omega arith))))

affinity_core-high : (h i : ℕ) → i < h → h < 2 ^ 62 → affinity_core (2 * h) (i + h) ≡ some (2 * i)
unfolding affinity_core
affinity_core-high h i less small =
    let some_core : (2 * h == 0) ≡ false = ground arith in
    let word : (i + h) * 2 % 2 ^ 64 ≡ 2 * i + 2 * h = omega arith in
    rw some_core (rw word (ap some (add-mod_right (2 * i) (2 * h) ∙ mod-eq_of_lt (omega arith))))

module _ {L : Type 0} (c : DisruptorConfig L) (n : ℕ) where
  get_elem?-start_consumers_from :
      (k count i : ℕ)
      → i < count
      → get_elem? (start_consumers_from c n k count) i ≡ some (consumer_thread c n (k + i))
  unfolding start_consumers_from
  get_elem?-start_consumers_from k zero i h = absurd (omega arith)
  get_elem?-start_consumers_from k (suc count) zero h =
      let same : k ≡ k + 0 = omega arith in ap (λ m. some (consumer_thread c n m)) same
  get_elem?-start_consumers_from k (suc count) (suc i) h =
      let same : suc k + i ≡ k + suc i = omega arith in
      get_elem?-start_consumers_from (suc k) count i (omega arith)
      ∙ ap (λ m. some (consumer_thread c n m)) same

  length-start_consumers_from : (k count : ℕ) → length (start_consumers_from c n k count) ≡ count
  unfolding start_consumers_from
  length-start_consumers_from k zero = refl
  length-start_consumers_from k (suc count) = ap suc (length-start_consumers_from (suc k) count)

  get_elem?-start_consumers :
      (i : ℕ)
      → i < c.consumer_count
      → get_elem? (start_consumers c n) i ≡ some (consumer_thread c n i)
  unfolding start_consumers
  get_elem?-start_consumers i h =
      let same : 0 + i ≡ i = omega arith in
      get_elem?-start_consumers_from 0 c.consumer_count i h
      ∙ ap (λ m. some (consumer_thread c n m)) same

-- With thread affinity on, one thread is started for each of `2 * h` consumers on a machine of as
-- many cores, and two threads that are `h` numbers apart are bound to the same core, an even one:
-- the consumers share half of the cores.
pub start_consumers_shared :
    {L : Type 0} (c : DisruptorConfig L) (h i : ℕ)
    → c.enable_thread_affinity ≡ true
    → c.consumer_count ≡ 2 * h
    → h < 2 ^ 62
    → i < h
    → (length (start_consumers c (2 * h)) ≡ 2 * h)
      × (get_elem? (start_consumers c (2 * h)) i
          ≡ some (record { consumer_id = i; core = some (some (2 * i)) }))
      × (get_elem? (start_consumers c (2 * h)) (i + h)
          ≡ some (record { consumer_id = i + h; core = some (some (2 * i)) }))
unfolding consumer_thread start_consumers
start_consumers_shared c h i on count small less = (
  length-start_consumers_from c (2 * h) 0 c.consumer_count ∙ count,
  get_elem?-start_consumers c (2 * h) i (omega arith)
      ∙ simp on (rw (affinity_core-low h i less small) refl),
  get_elem?-start_consumers c (2 * h) (i + h) (omega arith)
      ∙ simp on (rw (affinity_core-high h i less small) refl),
)
