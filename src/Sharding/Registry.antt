-- ===== src/Sharding/Registry.antt =====
-- Which shards are active, and what the metrics count.
use challenge_8a2ffd.Common.{
  ℕ, ◌+◌, ◌%◌, ◌^◌, ◌<◌, ◌≡◌, refl, ap, sym, ◌∙◌, inl, inr, Bool, true, false, not, ◌&&◌, ◌||◌,
  Option, none, some, List, [], ◌∷◌, arith, length, ltb, ◌==◌, ==_iff, if-intro, Bool-cases,
  Option-cases, All,
}
use challenge_8a2ffd.Common.Maps.{Entries, find}
use challenge_8a2ffd.Common.Maps.Order.{IsSorted, insert-IsSorted, find-insert, All-map}
use challenge_8a2ffd.Sharding.Strategy.{
  ShardMetadata, ShardingStrategy, with_shard_count, with_strategy, with_rebalance,
  with_rebalance_threshold, with_virtual_nodes, with_instrument_class, initialize_hash_ring,
  default_strategy,
}
use challenge_8a2ffd.Sharding.Shards.{
  active_keys, get_active_shards, register_shard, unregister_shard, Load, no_load, add_load,
  sum_load, get_metrics,
}
use challenge_8a2ffd.Sharding.Placement.{
  Sets, sets_shard_count, sets_strategy, sets_rebalance, sets_rebalance_threshold,
  sets_virtual_nodes, sets_instrument_class, registers, unregisters, Built, constructed, set_by,
}
use challenge_8a2ffd.Common.Double.{Double}

-- A shard is active when its entry says so.
abbrev active_entry : {E : Type 0} → Option (ShardMetadata E) → Bool
active_entry none = false
active_entry (some metadata) = metadata.is_active

abbrev pub is_active_shard : {D E : Type 0} → ShardingStrategy D E → ℕ → Bool
is_active_shard s n = active_entry (find s.shard_metadata n)

-- Whether a number is in the list.
abbrev pub contains : List ℕ → ℕ → Bool
contains [] n = false
contains (k ∷ l) n = (k == n) || contains l n

module _ {D E : Type 0} where
  -- `RegisterShard` makes a shard active if it is one of the shards there are, whatever the
  -- metadata says, and changes no other shard.
  pub is_active_shard-register_shard :
      (s : ShardingStrategy D E) (shard_id : ℕ) (metadata : ShardMetadata E) (now n : ℕ)
      → is_active_shard (register_shard s shard_id metadata now) n
        ≡ ((ltb shard_id s.shard_count && (shard_id == n)) || is_active_shard s n)
  unfolding register_shard
  is_active_shard-register_shard s shard_id metadata now n =
      elim (Bool-cases (ltb shard_id s.shard_count)) [
        | inr e ↦ rw e refl
        | inl e ↦ rw e (
            rw
              (find-insert s.shard_metadata shard_id
                (record metadata { is_active = true; registered_at = now }) n)
              (elim (Bool-cases (shard_id == n)) [ inl t ↦ rw t refl | inr t ↦ rw t refl ]))
      ]

  -- `UnregisterShard` makes a shard inactive, registered before or not, and changes no other shard.
  pub is_active_shard-unregister_shard :
      (s : ShardingStrategy D E) (shard_id now n : ℕ)
      → is_active_shard (unregister_shard s shard_id now) n
        ≡ (not (shard_id == n) && is_active_shard s n)
  unfolding unregister_shard
  is_active_shard-unregister_shard s shard_id now n =
      elim (Option-cases (find s.shard_metadata shard_id)) [
        | inl e ↦
            simp (unregister_shard, e)
              (elim (Bool-cases (shard_id == n)) [
                | inr t ↦ rw t refl
                | inl t ↦
                    let same : shard_id ≡ n = (==_iff shard_id n).0 t in
                    let missing : find s.shard_metadata n ≡ none =
                      ap (find s.shard_metadata) (sym same) ∙ e in
                    rw (t, missing) refl
              ])
        | inr (metadata, e) ↦
            simp (unregister_shard, e)
              (rw
                (find-insert s.shard_metadata shard_id
                  (record metadata { is_active = false; unregistered_at = now }) n)
                (elim (Bool-cases (shard_id == n)) [ inl t ↦ rw t refl | inr t ↦ rw t refl ]))
      ]

module _ {E : Type 0} where
  add_load_active :
      (l : Load) (metadata : ShardMetadata E)
      → metadata.is_active ≡ true
      → (add_load l metadata).active_count ≡ (l.active_count + 1) % 2 ^ 64
  unfolding add_load
  add_load_active l metadata t = simp t refl

  add_load_inactive :
      (l : Load) (metadata : ShardMetadata E) → metadata.is_active ≡ false → add_load l metadata ≡ l
  unfolding add_load
  add_load_inactive l metadata t = simp t refl

  active_count-sum_load :
      (m : Entries (ShardMetadata E)) (l : Load)
      → l.active_count < 2 ^ 64
      → (sum_load l m).active_count ≡ (l.active_count + length (active_keys m)) % 2 ^ 64
  unfolding sum_load active_keys
  active_count-sum_load [] l h = omega arith
  active_count-sum_load (e ∷ m) l h = elim (Bool-cases e.1.is_active) [
    | inl t ↦
        let one = add_load_active l e.1 t in
        let rest = active_count-sum_load m (add_load l e.1) (omega arith) in simp t (omega arith)
    | inr t ↦ simp (t, add_load_inactive l e.1 t) (active_count-sum_load m l h)
  ]

  contains-active_keys_below :
      (m : Entries (ShardMetadata E)) (n : ℕ)
      → All (λ e. n < e.0) m
      → contains (active_keys m) n ≡ false
  unfolding active_keys
  contains-active_keys_below [] n h = refl
  contains-active_keys_below (e ∷ m) n (less, h) =
      let rest = contains-active_keys_below m n h in
      elim (Bool-cases e.1.is_active) [ inl t ↦ rw t (ground arith) | inr t ↦ rw t rest ]

  contains-active_keys :
      (m : Entries (ShardMetadata E)) (n : ℕ)
      → IsSorted m
      → contains (active_keys m) n ≡ active_entry (find m n)
  unfolding active_keys find
  contains-active_keys [] n s = refl
  contains-active_keys (e ∷ m) n (all, s) =
      let rest = contains-active_keys m n s in
      elim (Bool-cases (e.0 == n)) [
        | inl same ↦
            let eq : e.0 ≡ n = (==_iff e.0 n).0 same in
            let below =
              contains-active_keys_below m n
                (All-map {P = λ e'. e.0 < e'.0} {Q = λ e'. n < e'.0} m (λ e' l. omega arith) all) in
            elim (Bool-cases e.1.is_active) [
              | inl t ↦ rw (same, t) (rw same refl)
              | inr t ↦ rw (same, t) below
            ]
        | inr other ↦ elim (Bool-cases e.1.is_active) [
          | inl t ↦ rw (other, t) (rw other rest)
          | inr t ↦ rw (other, t) rest
        ]
      ]

module _ {D E : Type 0} ⦃d : Double D⦄ where
  Sets-IsSorted :
      (s s' : ShardingStrategy D E)
      → Sets s s'
      → IsSorted s.shard_metadata
      → IsSorted s'.shard_metadata
  unfolding with_shard_count with_strategy with_rebalance with_rebalance_threshold
      with_virtual_nodes with_instrument_class initialize_hash_ring register_shard unregister_shard
  Sets-IsSorted s _ (sets_shard_count count) h = h
  Sets-IsSorted s _ (sets_strategy type) h = h
  Sets-IsSorted s _ (sets_rebalance enable) h = h
  Sets-IsSorted s _ (sets_rebalance_threshold threshold) h = h
  Sets-IsSorted s _ (sets_virtual_nodes vnodes) h = h
  Sets-IsSorted s _ (sets_instrument_class use_class) h = h
  Sets-IsSorted s _ (registers shard_id metadata now) h =
      if-intro (λ (s' : ShardingStrategy D E). IsSorted s'.shard_metadata)
        (not (ltb shard_id s.shard_count)) h (insert-IsSorted s.shard_metadata shard_id _ h)
  Sets-IsSorted s _ (unregisters shard_id now) h =
      elim (Option-cases (find s.shard_metadata shard_id)) [
        | inl e ↦ simp (unregister_shard, e) h
        | inr (metadata, e) ↦
            simp (unregister_shard, e) (insert-IsSorted s.shard_metadata shard_id _ h)
      ]

  Built-IsSorted : (s : ShardingStrategy D E) → Built s → IsSorted s.shard_metadata
  unfolding default_strategy initialize_hash_ring
  Built-IsSorted _ constructed = tt
  Built-IsSorted _ (set_by {s} {s'} b c) = Sets-IsSorted s s' c (Built-IsSorted s b)

  -- In every strategy that is reached `GetActiveShards` lists the active shards and no others, and
  -- the metrics count as many, modulo 2^64.
  pub get_active_shards_lem :
      (s : ShardingStrategy D E) (n : ℕ)
      → Built s
      → (contains (get_active_shards s) n ≡ is_active_shard s n)
        × ((get_metrics s).active_shards ≡ length (get_active_shards s) % 2 ^ 64)
  unfolding get_active_shards get_metrics
  get_active_shards_lem s n b =
      let from_zero : 0 + length (active_keys s.shard_metadata)
          ≡ length (active_keys s.shard_metadata) =
        omega arith in
      (
        contains-active_keys s.shard_metadata n (Built-IsSorted s b),
        active_count-sum_load s.shard_metadata no_load (omega arith)
            ∙ ap (λ k. k % 2 ^ 64) from_zero,
      )
