-- ===== src/Common/Words.antt =====
-- `uint64_t`: wrap-around sums and differences, and the counters that only grow by one.
use Prim.Native.Nat.{ℕ, ◌+◌, ◌-◌, ◌%◌, ◌^◌}

abbrev pub u64 : ℕ → ℕ
u64 n = n % 2 ^ 64

-- a - b on `uint64_t`, for operands below 2 ^ 64.
abbrev pub sub64 : ℕ → ℕ → ℕ
sub64 a b = (a + 2 ^ 64 - b) % 2 ^ 64

-- `fetch_add(1)` on a `std::atomic<uint64_t>`.
abbrev pub inc64 : ℕ → ℕ
inc64 n = (n + 1) % 2 ^ 64

abbrev pub int64_max : ℕ
int64_max = 2 ^ 63 - 1
