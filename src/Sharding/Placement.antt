-- ===== src/Sharding/Placement.antt =====
-- The strategies that builder calls and registrations reach, and the shards they choose.
use native.Mathlib.Nat.{mod-lt}
use challenge_8a2ffd.Common.{
  ℕ, ◌+◌, ◌-◌, ◌≤◌, ◌<◌, ◌≡◌, ◌≢◌, refl, ap, ◌∙◌, ◌⊎◌, inl, inr, Bool, true, false, not, ◌&&◌,
  length, leb, none, some, [], ◌∷◌, arith, ltb, if-intro, Bool-cases, if◌then◌else◌, Option-cases,
}
use challenge_8a2ffd.Common.Double.{Double}
use challenge_8a2ffd.Common.Maps.{lower_bound, first, find}
use challenge_8a2ffd.Sharding.Hash.{Bytes, compute_murmur_hash}
use challenge_8a2ffd.Sharding.Strategy.{
  ShardingType, modulo, consistent_hash, instrument_class, composite, ShardMetadata,
  ShardingStrategy, ring_for, shard_at, initialize_hash_ring, default_strategy, clamped_count,
  with_shard_count, with_strategy, with_rebalance, with_rebalance_threshold, with_virtual_nodes,
  with_instrument_class, get_shard_consistent_hash, get_shard_modulo, get_shard_by_instrument_class,
  get_shard_composite, get_shard_for_instrument, get_shard_for_order, out_of_range, validate,
}
use challenge_8a2ffd.Sharding.Shards.{register_shard, unregister_shard}
use challenge_8a2ffd.Sharding.Ring.{shard_at_total}

-- One call on a strategy.
pub data Sets {D E : Type 0} ⦃d : Double D⦄ (s : ShardingStrategy D E)
    : ShardingStrategy D E → Type 0 where
  sets_shard_count : (count : ℕ) → Sets s (with_shard_count s count)
  sets_strategy : (type : ShardingType) → Sets s (with_strategy s type)
  sets_rebalance : (enable : Bool) → Sets s (with_rebalance s enable)
  sets_rebalance_threshold : (threshold : D) → Sets s (with_rebalance_threshold s threshold)
  sets_virtual_nodes : (vnodes : ℕ) → Sets s (with_virtual_nodes s vnodes)
  sets_instrument_class : (use_class : Bool) → Sets s (with_instrument_class s use_class)
  registers :
      (shard_id : ℕ) (metadata : ShardMetadata E) (now : ℕ)
      → Sets s (register_shard s shard_id metadata now)
  unregisters : (shard_id now : ℕ) → Sets s (unregister_shard s shard_id now)

-- Any sequence of calls on a constructed strategy.
pub data Built {D E : Type 0} ⦃d : Double D⦄ : ShardingStrategy D E → Type 0 where
  constructed : Built default_strategy
  set_by : {s s' : ShardingStrategy D E} → Built s → Sets s s' → Built s'

-- What every strategy keeps: a count between the bounds, the ring its members ask for, and a
-- threshold in range.
abbrev pub IsSound : {D E : Type 0} ⦃d : Double D⦄ → ShardingStrategy D E → Type 0
IsSound s =
    (1 ≤ s.shard_count)
    × (s.shard_count ≤ 256)
    × (s.hash_ring ≡ ring_for s.strategy_type s.virtual_nodes s.shard_count)
    × (out_of_range s.rebalance_threshold ≡ false)

ShardingType-cases :
    (type : ShardingType)
    → (type ≡ modulo)
      ⊎ ((type ≡ consistent_hash) ⊎ ((type ≡ instrument_class) ⊎ (type ≡ composite)))
ShardingType-cases modulo = inl refl
ShardingType-cases consistent_hash = inr (inl refl)
ShardingType-cases instrument_class = inr (inr (inl refl))
ShardingType-cases composite = inr (inr (inr refl))

clamped_count-bounds : (count : ℕ) → (1 ≤ clamped_count count) × (clamped_count count ≤ 256)
clamped_count-bounds count = ground arith

if-in_range :
    {D : Type 0} ⦃d : Double D⦄
    → out_of_range (d.lit 2 10) ≡ false
    → (threshold : D)
    → out_of_range (if out_of_range threshold then d.lit 2 10 else threshold) ≡ false
if-in_range ⦃d⦄ fifth threshold = elim (Bool-cases (out_of_range threshold)) [
  | inl e ↦ rw e fifth
  | inr e ↦ rw (e, e) refl
]

order-instrument :
    {D E : Type 0} (s : ShardingStrategy D E) (instrument_id trader_id strategy_id : Bytes)
    → s.strategy_type ≢ composite
    → get_shard_for_order s instrument_id trader_id strategy_id
      ≡ get_shard_for_instrument s instrument_id
unfolding get_shard_for_order
order-instrument s instrument_id trader_id strategy_id ne =
    elim (ShardingType-cases s.strategy_type) [
      | inl e ↦ simp (get_shard_for_order, e) refl
      | inr (inl e) ↦ simp (get_shard_for_order, e) refl
      | inr (inr (inl e)) ↦ simp (get_shard_for_order, e) refl
      | inr (inr (inr e)) ↦ absurd (ne e)
    ]

module _ {D E : Type 0} ⦃d : Double D⦄ (fifth : out_of_range (d.lit 2 10) ≡ false) where
  initialize-IsSound :
      (s : ShardingStrategy D E)
      → 1 ≤ s.shard_count
      → s.shard_count ≤ 256
      → out_of_range s.rebalance_threshold ≡ false
      → IsSound (initialize_hash_ring s)
  unfolding initialize_hash_ring
  initialize-IsSound s l u t = (l, u, refl, t)

  register-IsSound :
      (s : ShardingStrategy D E) (shard_id : ℕ) (metadata : ShardMetadata E) (now : ℕ)
      → IsSound s
      → IsSound (register_shard s shard_id metadata now)
  unfolding register_shard
  register-IsSound s shard_id metadata now h = if-intro IsSound _ h h

  unregister-IsSound :
      (s : ShardingStrategy D E) (shard_id now : ℕ)
      → IsSound s
      → IsSound (unregister_shard s shard_id now)
  unfolding unregister_shard out_of_range
  unregister-IsSound s shard_id now h = elim (Option-cases (find s.shard_metadata shard_id)) [
    | inl e ↦ rw (unregister_shard, e) h
    | inr (a, e) ↦ rw (unregister_shard, e) h
  ]

  Sets-IsSound : (s s' : ShardingStrategy D E) → Sets s s' → IsSound s → IsSound s'
  unfolding with_shard_count with_strategy with_rebalance with_rebalance_threshold
      with_virtual_nodes with_instrument_class
  Sets-IsSound s _ (sets_shard_count count) (l, u, r, t) =
      let (l', u') = clamped_count-bounds count in
      initialize-IsSound (record s { shard_count = clamped_count count }) l' u' t
  Sets-IsSound s _ (sets_strategy type) (l, u, r, t) =
      initialize-IsSound (record s { strategy_type = type }) l u t
  Sets-IsSound s _ (sets_rebalance enable) h = h
  Sets-IsSound s _ (sets_rebalance_threshold threshold) (l, u, r, t) =
      (l, u, r, if-in_range fifth threshold)
  Sets-IsSound s _ (sets_virtual_nodes vnodes) (l, u, r, t) =
      initialize-IsSound (record s { virtual_nodes = vnodes }) l u t
  Sets-IsSound s _ (sets_instrument_class use_class) h = h
  Sets-IsSound s _ (registers shard_id metadata now) h = register-IsSound s shard_id metadata now h
  Sets-IsSound s _ (unregisters shard_id now) h = unregister-IsSound s shard_id now h

  Built-IsSound : (s : ShardingStrategy D E) → Built s → IsSound s
  unfolding default_strategy
  Built-IsSound _ constructed = initialize-IsSound _ (omega arith) (omega arith) fifth
  Built-IsSound _ (set_by {s} {s'} b c) = Sets-IsSound s s' c (Built-IsSound s b)

  -- When 0.2 lies between 0 and 1, `Validate` accepts every strategy that builder calls and
  -- registrations reach, whatever they ask for.
  pub Built-validate : (s : ShardingStrategy D E) → Built s → validate s ≡ true
  unfolding validate
  Built-validate s b = let (l, u, r, t) = Built-IsSound s b in rw t (ground arith)

  get_shard_modulo-lt :
      (s : ShardingStrategy D E) (key : Bytes)
      → 1 ≤ s.shard_count
      → get_shard_modulo s key < s.shard_count
  unfolding get_shard_modulo
  get_shard_modulo-lt s key l = mod-lt (compute_murmur_hash key) l

  get_shard_by_instrument_class-lt :
      (s : ShardingStrategy D E) (key : Bytes)
      → 1 ≤ s.shard_count
      → get_shard_by_instrument_class s key < s.shard_count
  unfolding get_shard_by_instrument_class
  get_shard_by_instrument_class-lt s [] l = get_shard_modulo-lt s [] l
  get_shard_by_instrument_class-lt s (prefix ∷ bytes) l =
      let P = λ (n : ℕ). n < s.shard_count in
      let m = get_shard_modulo-lt s (prefix ∷ bytes) l in
      if-intro P (not s.use_instrument_class) m (
        if-intro P (ltb (length (prefix ∷ bytes)) 2) m (
          if-intro P (leb 65 prefix && leb prefix 90) (mod-lt (prefix - 65) l)
            (if-intro P (leb 48 prefix && leb prefix 57) (mod-lt (10 + (prefix - 48)) l) m)))

  -- Every strategy that is reached gives each instrument a shard, one that is less than the number
  -- of shards, unless it hashes consistently without virtual nodes.
  pub get_shard_for_instrument_total :
      (s : ShardingStrategy D E) (instrument_id : Bytes)
      → Built s
      → (s.strategy_type ≢ consistent_hash) ⊎ (0 < s.virtual_nodes)
      → (shard : ℕ) × (get_shard_for_instrument s instrument_id ≡ some shard)
        × (shard < s.shard_count)
  unfolding get_shard_for_instrument get_shard_composite get_shard_consistent_hash
  get_shard_for_instrument_total s instrument_id b h =
      let (l, u, r, t) = Built-IsSound s b in
      elim (ShardingType-cases s.strategy_type) [
        | inl e ↦ (
          get_shard_modulo s instrument_id,
          simp (get_shard_for_instrument, e) refl,
          get_shard_modulo-lt s instrument_id l,
        )
        | inr (inl e) ↦
            let nodes : 0 < s.virtual_nodes = elim h [ inl ne ↦ absurd (ne e) | inr p ↦ p ] in
            let (shard, found, less) =
              shard_at_total s.virtual_nodes s.shard_count (compute_murmur_hash instrument_id) nodes
                l in
            (
              shard,
              simp (get_shard_for_instrument, e)
                  (simp r (rw (ap (λ type. ring_for type s.virtual_nodes s.shard_count) e) found)),
              less,
            )
        | inr (inr (inl e)) ↦ (
          get_shard_by_instrument_class s instrument_id,
          simp (get_shard_for_instrument, e) refl,
          get_shard_by_instrument_class-lt s instrument_id l,
        )
        | inr (inr (inr e)) ↦ (
          get_shard_modulo s instrument_id,
          simp (get_shard_for_instrument, e) refl,
          get_shard_modulo-lt s instrument_id l,
        )
      ]

  -- No strategy that is reached and shards by the composite key has a shard for an order, whatever
  -- its key: the code looks it up on a ring that is empty.
  pub composite_order_undefined :
      (s : ShardingStrategy D E) (instrument_id trader_id strategy_id : Bytes)
      → Built s
      → s.strategy_type ≡ composite
      → get_shard_for_order s instrument_id trader_id strategy_id ≡ none
  unfolding get_shard_for_order get_shard_consistent_hash shard_at lower_bound first
  composite_order_undefined s instrument_id trader_id strategy_id b e =
      let (l, u, r, t) = Built-IsSound s b in
      let empty : s.hash_ring ≡ [] =
        r ∙ ap (λ type. ring_for type s.virtual_nodes s.shard_count) e in
      simp (get_shard_for_order, e) (simp empty refl)

  -- Unless it shards by the composite key, a strategy that is reached sends all orders of an
  -- instrument to one shard, that of the instrument, which is less than the number of shards when
  -- it does not hash consistently without virtual nodes.
  pub get_shard_for_order_total :
      (s : ShardingStrategy D E) (instrument_id trader_id strategy_id : Bytes)
      → Built s
      → s.strategy_type ≢ composite
      → (s.strategy_type ≢ consistent_hash) ⊎ (0 < s.virtual_nodes)
      → (shard : ℕ) × (get_shard_for_order s instrument_id trader_id strategy_id ≡ some shard)
        × (get_shard_for_instrument s instrument_id ≡ some shard)
        × (shard < s.shard_count)
  get_shard_for_order_total s instrument_id trader_id strategy_id b ne h =
      let (shard, e, less) = get_shard_for_instrument_total s instrument_id b h in
      (shard, order-instrument s instrument_id trader_id strategy_id ne ∙ e, e, less)
