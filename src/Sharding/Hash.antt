-- ===== src/Sharding/Hash.antt =====
-- `ComputeMurmurHash` and the decimal numbers of the ring's keys
-- (src/infrastructure/ShardingStrategy.cpp). A `std::string` is the list of its bytes, and a block
-- of eight is read as on the little-endian machines the program is built for.
use Prim.Native.Nat.{bit_xor}
use challenge_8a2ffd.Common.{
  ℕ, zero, suc, ◌+◌, ◌*◌, ◌/◌, ◌%◌, ◌^◌, List, [], ◌∷◌, ◌++◌, length, ltb, if◌then◌else◌, u64,
}

abbrev pub Bytes : Type 0
Bytes = List ℕ

-- 0xc6a4a7935bd1e995.
abbrev pub murmur_m : ℕ
murmur_m = 14313749767032793493

-- The number that a block of bytes is.
unfoldable pub little_endian : Bytes → ℕ
little_endian [] = 0
little_endian (byte ∷ bytes) = byte + 256 * little_endian bytes

-- `x ^= x >> 47`.
unfoldable pub xor_shift : ℕ → ℕ
xor_shift x = bit_xor x (x / 2 ^ 47)

-- The body of the loop over blocks.
unfoldable pub mix_block : ℕ → ℕ → ℕ
mix_block h k =
    let k = u64 (xor_shift (u64 (k * murmur_m)) * murmur_m) in u64 (bit_xor h k * murmur_m)

-- The switch on the bytes that are left, the last one first; `shift` is the first one's.
unfoldable pub xor_tail : ℕ → ℕ → Bytes → ℕ
xor_tail h shift [] = h
xor_tail h shift (byte ∷ bytes) = bit_xor (xor_tail h (shift + 8) bytes) (byte * 2 ^ shift)

unfoldable pub mix_tail : ℕ → Bytes → ℕ
mix_tail h [] = h
mix_tail h (byte ∷ bytes) = u64 (xor_tail h 0 (byte ∷ bytes) * murmur_m)

-- All blocks of eight, then what is left.
unfoldable pub mix_bytes : ℕ → Bytes → ℕ
mix_bytes h (b0 ∷ b1 ∷ b2 ∷ b3 ∷ b4 ∷ b5 ∷ b6 ∷ b7 ∷ bytes) =
    mix_bytes (mix_block h (little_endian (b0 ∷ b1 ∷ b2 ∷ b3 ∷ b4 ∷ b5 ∷ b6 ∷ b7 ∷ []))) bytes
mix_bytes h bytes = mix_tail h bytes

unfoldable pub compute_murmur_hash : Bytes → ℕ
compute_murmur_hash key =
    xor_shift (u64 (xor_shift (mix_bytes (u64 (length key * murmur_m)) key) * murmur_m))

-- `std::to_string`: up to `fuel` decimal digits.
unfoldable pub decimal : ℕ → ℕ → Bytes
decimal zero n = []
decimal (suc fuel) n =
    let rest = decimal fuel (n / 10) in
    if ltb n 10 then (48 + n) ∷ [] else rest ++ ((48 + n % 10) ∷ [])

-- A number of 64 bits has 20 digits at most.
unfoldable pub to_string : ℕ → Bytes
to_string n = decimal 20 n

-- "shard_"
abbrev pub shard_prefix : Bytes
shard_prefix = 115 ∷ 104 ∷ 97 ∷ 114 ∷ 100 ∷ 95 ∷ []

-- "_vnode_"
abbrev pub vnode_infix : Bytes
vnode_infix = 95 ∷ 118 ∷ 110 ∷ 111 ∷ 100 ∷ 101 ∷ 95 ∷ []

-- The key of a virtual node.
unfoldable pub vnode_key : ℕ → ℕ → Bytes
vnode_key shard vnode = shard_prefix ++ to_string shard ++ vnode_infix ++ to_string vnode
