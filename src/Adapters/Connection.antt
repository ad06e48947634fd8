-- ===== src/Adapters/Connection.antt =====
-- What `connect` asks of the operating system, in its order (src/adapters).
use challenge_8a2ffd.Common.{ℕ, ◌-◌, ◌%◌, ◌^◌, Bool, true, false, if◌then◌else◌}
use challenge_8a2ffd.Common.Int.{ℤ, pos, negsuc}
use challenge_8a2ffd.Sharding.Hash.{Bytes}

-- The answers to `socket`, `gethostbyname` and `connect`.
pub record Network : Type 0 where
  pub opened : ℤ
  pub resolves : Bytes → Bool
  pub connects : Bytes → ℕ → Bool

-- A file descriptor that is not negative.
abbrev pub is_open : ℤ → Bool
is_open (pos n) = true
is_open (negsuc n) = false

-- `htons` takes 16 bits of the port.
abbrev pub port_bits : ℤ → ℕ
port_bits (pos n) = n % 2 ^ 16
port_bits (negsuc n) = 2 ^ 16 - 1 - n % 2 ^ 16

abbrev pub closed : ℤ
closed = negsuc 0

-- The socket after `connect`.
unfoldable pub dial : Network → Bytes × ℤ → ℤ
dial network (host, port) =
    if is_open network.opened
    then (if network.resolves host
        then (if network.connects host (port_bits port) then network.opened else closed)
        else closed)
    else network.opened

-- The network lets the host be reached.
abbrev pub reaches : Network → Bytes × ℤ → Bool
reaches network address = is_open (dial network address)
