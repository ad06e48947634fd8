-- ===== src/Sharding/Ring.antt =====
-- Lookups on the hash ring, and what a new virtual node changes.
use challenge_8a2ffd.Common.{
  ℕ, zero, suc, ◌<◌, ◌≡◌, refl, sym, ◌∙◌, ◌⊎◌, inl, inr, none, some, [], ◌∷◌, arith, Option-cases,
}
use challenge_8a2ffd.Common.Maps.{Entries, insert_or_assign, lower_bound, first}
use challenge_8a2ffd.Common.Maps.Order.{insert-cases}
use challenge_8a2ffd.Sharding.Hash.{compute_murmur_hash, vnode_key}
use challenge_8a2ffd.Sharding.Strategy.{add_vnodes, add_shards, shard_at}

lower_bound-insert_none :
    (h v k : ℕ)
    → (lower_bound (insert_or_assign [] h v) k ≡ none)
      ⊎ (lower_bound (insert_or_assign [] h v) k ≡ some (h, v))
unfolding lower_bound insert_or_assign
lower_bound-insert_none h v k = ground arith

first-insert_none : (h v : ℕ) → first (insert_or_assign [] h v) ≡ some (h, v)
unfolding first insert_or_assign
first-insert_none h v = refl

lower_bound-insert :
    (m : Entries ℕ) (h v k : ℕ)
    → (lower_bound (insert_or_assign m h v) k ≡ lower_bound m k)
      ⊎ (lower_bound (insert_or_assign m h v) k ≡ some (h, v))
unfolding lower_bound
lower_bound-insert [] h v k = lower_bound-insert_none h v k
lower_bound-insert (e ∷ m) h v k = elim (insert-cases e m h v) [
  | inl (less, t) ↦ rw t (ground arith)
  | inr (inl (same, t)) ↦ rw t (ground arith)
  | inr (inr (less, t)) ↦ let rest = lower_bound-insert m h v k in rw t (ground arith)
]

first-insert :
    (m : Entries ℕ) (h v : ℕ)
    → (first (insert_or_assign m h v) ≡ some (h, v))
      ⊎ ((e : ℕ × ℕ) × (first m ≡ some e) × (first (insert_or_assign m h v) ≡ some e))
unfolding first
first-insert [] h v = inl (first-insert_none h v)
first-insert (e ∷ m) h v = elim (insert-cases e m h v) [
  | inl (less, t) ↦ rw t (inl refl)
  | inr (inl (same, t)) ↦ rw t (inl refl)
  | inr (inr (less, t)) ↦ rw t (inr (e, refl, refl))
]

shard_at-insert :
    (m : Entries ℕ) (h v k : ℕ)
    → (shard_at (insert_or_assign m h v) k ≡ shard_at m k)
      ⊎ (shard_at (insert_or_assign m h v) k ≡ some v)
unfolding shard_at
shard_at-insert m h v k = elim (lower_bound-insert m h v k) [
  | inr t ↦ rw t (inr refl)
  | inl t ↦ elim (first-insert m h v) [
    | inl t' ↦ rw (t, t') (ground arith)
    | inr (e, t', t'') ↦ rw (t, t', t'') (inl refl)
  ]
]

-- Virtual nodes of a shard take keys to it, and leave all others where they are.
shard_at-add_vnodes :
    (m : Entries ℕ) (shard vnode n k : ℕ)
    → (shard_at (add_vnodes m shard vnode n) k ≡ shard_at m k)
      ⊎ (shard_at (add_vnodes m shard vnode n) k ≡ some shard)
unfolding add_vnodes
shard_at-add_vnodes m shard vnode zero k = inl refl
shard_at-add_vnodes m shard vnode (suc n) k =
    let h = compute_murmur_hash (vnode_key shard vnode) in
    elim (shard_at-add_vnodes (insert_or_assign m h shard) shard (suc vnode) n k) [
      | inr t ↦ inr t
      | inl t ↦ elim (shard_at-insert m h shard k) [ inl t' ↦ inl (t ∙ t') | inr t' ↦ inr (t ∙ t') ]
    ]

-- Consistent hashing: with one shard more, a key stays where it was or goes to the new shard.
pub add_shards_moves_to_new :
    (virtual_nodes shard_count hash : ℕ)
    → (shard_at (add_shards virtual_nodes (suc shard_count)) hash
        ≡ shard_at (add_shards virtual_nodes shard_count) hash)
      ⊎ (shard_at (add_shards virtual_nodes (suc shard_count)) hash ≡ some shard_count)
unfolding add_shards
add_shards_moves_to_new virtual_nodes shard_count hash =
    shard_at-add_vnodes (add_shards virtual_nodes shard_count) shard_count 0 virtual_nodes hash

-- A shard that is found is one of those that were put on the ring.
pub shard_at-lt :
    (virtual_nodes shard_count hash shard : ℕ)
    → shard_at (add_shards virtual_nodes shard_count) hash ≡ some shard
    → shard < shard_count
unfolding add_shards shard_at lower_bound first
shard_at-lt virtual_nodes zero hash shard e = absurd cc
shard_at-lt virtual_nodes (suc shard_count) hash shard e =
    elim (add_shards_moves_to_new virtual_nodes shard_count hash) [
      | inl t ↦
          let less = shard_at-lt virtual_nodes shard_count hash shard (sym t ∙ e) in omega arith
      | inr t ↦ ground arith
    ]

shard_at-some :
    (m : Entries ℕ) (e : ℕ × ℕ) (k : ℕ)
    → first m ≡ some e
    → (shard : ℕ) × (shard_at m k ≡ some shard)
unfolding shard_at
shard_at-some m e k h = elim (Option-cases (lower_bound m k)) [
  | inl t ↦ rw (t, h) (e.1, refl)
  | inr (e', t) ↦ rw t (e'.1, refl)
]

first-insert_some :
    (m : Entries ℕ) (h v : ℕ) → (e : ℕ × ℕ) × (first (insert_or_assign m h v) ≡ some e)
first-insert_some m h v = elim (first-insert m h v) [
  | inl t ↦ ((h, v), t)
  | inr (e, t, t') ↦ (e, t')
]

first-add_vnodes :
    (m : Entries ℕ) (e : ℕ × ℕ) (shard vnode n : ℕ)
    → first m ≡ some e
    → (e' : ℕ × ℕ) × (first (add_vnodes m shard vnode n) ≡ some e')
unfolding add_vnodes
first-add_vnodes m e shard vnode zero h = (e, h)
first-add_vnodes m e shard vnode (suc n) h =
    let hash = compute_murmur_hash (vnode_key shard vnode) in
    let (e', h') = first-insert_some m hash shard in
    first-add_vnodes (insert_or_assign m hash shard) e' shard (suc vnode) n h'

pub first-add_shards :
    (virtual_nodes shard_count : ℕ)
    → 0 < virtual_nodes
    → 0 < shard_count
    → (e : ℕ × ℕ) × (first (add_shards virtual_nodes shard_count) ≡ some e)
unfolding add_shards add_vnodes
first-add_shards (suc n) (suc shard_count) h h' =
    let hash = compute_murmur_hash (vnode_key shard_count 0) in
    let m = add_shards (suc n) shard_count in
    let (e, t) = first-insert_some m hash shard_count in
    first-add_vnodes (insert_or_assign m hash shard_count) e shard_count 1 n t
first-add_shards zero n h h' = absurd (omega arith)
first-add_shards (suc n) zero h h' = absurd (omega arith)

-- With a shard and a virtual node, each key has a shard, one of those on the ring.
pub shard_at_total :
    (virtual_nodes shard_count hash : ℕ)
    → 0 < virtual_nodes
    → 0 < shard_count
    → (shard : ℕ) × (shard_at (add_shards virtual_nodes shard_count) hash ≡ some shard)
      × (shard < shard_count)
shard_at_total virtual_nodes shard_count hash h h' =
    let (e, t) = first-add_shards virtual_nodes shard_count h h' in
    let (shard, t') = shard_at-some _ e hash t in
    (shard, t', shard_at-lt virtual_nodes shard_count hash shard t')
