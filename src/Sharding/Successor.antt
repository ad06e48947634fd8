-- ===== src/Sharding/Successor.antt =====
-- The ring is in order, and a key's shard is that of its successor on the ring.
use mathlib.Core.Path.{subst}
use challenge_8a2ffd.Common.{
  ℕ, zero, suc, ◌≤◌, ◌<◌, ◌≡◌, refl, ◌⊎◌, inl, inr, none, some, [], ◌∷◌, arith, ltb, ltb_iff,
  Bool-cases, Option-cases, All,
}
use challenge_8a2ffd.Common.Maps.{Entries, insert_or_assign, lower_bound, first}
use challenge_8a2ffd.Sharding.Hash.{compute_murmur_hash, vnode_key}
use challenge_8a2ffd.Sharding.Strategy.{add_vnodes, add_shards, shard_at}
use challenge_8a2ffd.Common.Maps.Order.{IsSorted, All-map, insert-IsSorted}
use challenge_8a2ffd.Sharding.Ring.{first-add_shards}

pub data IsEntry (e : ℕ × ℕ) : Entries ℕ → Type 0 where
  at_head : {m : Entries ℕ} → IsEntry e (e ∷ m)
  in_tail : {e' : ℕ × ℕ} {m : Entries ℕ} → IsEntry e m → IsEntry e (e' ∷ m)

-- The entry with the least hash that is not below the key's, or with the least of all if all are
-- below it.
abbrev pub IsSuccessor : Entries ℕ → ℕ → ℕ × ℕ → Type 0
IsSuccessor m hash e =
    IsEntry e m
    × ((hash ≤ e.0 × All (λ e'. (e'.0 < hash) ⊎ (e.0 ≤ e'.0)) m)
        ⊎ (All (λ e'. e'.0 < hash) m × All (λ e'. e.0 ≤ e'.0) m))

add_vnodes-IsSorted :
    (m : Entries ℕ) (shard vnode n : ℕ) → IsSorted m → IsSorted (add_vnodes m shard vnode n)
unfolding add_vnodes
add_vnodes-IsSorted m shard vnode zero s = s
add_vnodes-IsSorted m shard vnode (suc n) s =
    let hash = compute_murmur_hash (vnode_key shard vnode) in
    add_vnodes-IsSorted (insert_or_assign m hash shard) shard (suc vnode) n
      (insert-IsSorted m hash shard s)

add_shards-IsSorted :
    (virtual_nodes shard_count : ℕ) → IsSorted (add_shards virtual_nodes shard_count)
unfolding add_shards
add_shards-IsSorted virtual_nodes zero = tt
add_shards-IsSorted virtual_nodes (suc n) =
    add_vnodes-IsSorted (add_shards virtual_nodes n) n 0 virtual_nodes
      (add_shards-IsSorted virtual_nodes n)

lower_bound-IsSuccessor :
    (m : Entries ℕ) (hash : ℕ) (e : ℕ × ℕ)
    → IsSorted m
    → lower_bound m hash ≡ some e
    → IsEntry e m × (hash ≤ e.0) × All (λ e'. (e'.0 < hash) ⊎ (e.0 ≤ e'.0)) m
unfolding lower_bound
lower_bound-IsSuccessor [] hash e s h = absurd cc
lower_bound-IsSuccessor (e' ∷ m) hash e (all, s) h = elim (Bool-cases (ltb e'.0 hash)) [
  | inl t ↦
      let (entry, le, rest) = lower_bound-IsSuccessor m hash e s (ground arith) in
      (in_tail entry, le, (inl ((ltb_iff _ _).0 t), rest))
  | inr t ↦
      let same : e' ≡ e = ground arith in
      subst
        (λ e.
          IsEntry e (e' ∷ m) × (hash ≤ e.0) × All (λ e''. (e''.0 < hash) ⊎ (e.0 ≤ e''.0)) (e' ∷ m))
        same
        (
          at_head,
          ground arith,
          (
            inr (omega arith),
            All-map {P = λ e''. e'.0 < e''.0} {Q = λ e''. (e''.0 < hash) ⊎ (e'.0 ≤ e''.0)} m
                (λ e'' l. inr (omega arith)) all,
          ),
        )
]

lower_bound-none :
    (m : Entries ℕ) (hash : ℕ) → lower_bound m hash ≡ none → All (λ e'. e'.0 < hash) m
unfolding lower_bound
lower_bound-none [] hash h = tt
lower_bound-none (e ∷ m) hash h = elim (Bool-cases (ltb e.0 hash)) [
  | inl t ↦ ((ltb_iff _ _).0 t, lower_bound-none m hash (ground arith))
  | inr t ↦ absurd (ground arith)
]

first-IsLeast :
    (m : Entries ℕ) (e : ℕ × ℕ)
    → IsSorted m
    → first m ≡ some e
    → IsEntry e m × All (λ e'. e.0 ≤ e'.0) m
unfolding first
first-IsLeast [] e s h = absurd cc
first-IsLeast (e' ∷ m) e (all, s) h =
    let same : e' ≡ e = ground arith in
    subst (λ e. IsEntry e (e' ∷ m) × All (λ e''. e.0 ≤ e''.0) (e' ∷ m)) same
      (
        at_head,
        (
          omega arith,
          All-map {P = λ e''. e'.0 < e''.0} {Q = λ e''. e'.0 ≤ e''.0} m (λ e'' l. omega arith) all,
        ),
      )

-- With a shard and a virtual node, each key's shard is that of its successor on the ring: the
-- virtual node with the least hash not below the key's, or with the least hash of all if there is
-- none.
pub shard_at-IsSuccessor :
    (virtual_nodes shard_count hash : ℕ)
    → 0 < virtual_nodes
    → 0 < shard_count
    → (e : ℕ × ℕ) × (shard_at (add_shards virtual_nodes shard_count) hash ≡ some e.1)
      × IsSuccessor (add_shards virtual_nodes shard_count) hash e
unfolding shard_at
shard_at-IsSuccessor virtual_nodes shard_count hash h h' =
    let m = add_shards virtual_nodes shard_count in
    let sorted = add_shards-IsSorted virtual_nodes shard_count in
    elim (Option-cases (lower_bound m hash)) [
      | inr (e, t) ↦
          let (entry, le, least) = lower_bound-IsSuccessor m hash e sorted t in
          (e, rw t refl, (entry, inl (le, least)))
      | inl t ↦
          let (e, t') = first-add_shards virtual_nodes shard_count h h' in
          let (entry, least) = first-IsLeast m e sorted t' in
          (e, rw (t, t') refl, (entry, inr (lower_bound-none m hash t, least)))
    ]
