-- ===== src/Texts.antt =====
-- `std::string` as the list of its bytes where the program searches, cuts or reads it
-- (src/adapters, src/application/ReplayEngine.cpp).
pub mod Numbers
pub mod Keyed
use Prim.Native.Char.{code}
use challenge_8a2ffd.Common.{
  ℕ, String, ◌≡◌, refl, ◌↔◌, Bool, true, false, ◌&&◌, [], ◌∷◌, ◌==◌, arith,
}
use challenge_8a2ffd.Sharding.Hash.{Bytes}

-- The bytes of a literal.
abbrev pub bytes : String → Bytes
bytes String.[] = []
bytes (String.◌∷◌ c s) = code c ∷ bytes s

abbrev pub same_bytes : Bytes → Bytes → Bool
same_bytes [] [] = true
same_bytes [] (b ∷ t) = false
same_bytes (a ∷ s) [] = false
same_bytes (a ∷ s) (b ∷ t) = a == b && same_bytes s t

pub same_bytes-eq : (s t : Bytes) → same_bytes s t ≡ true → s ≡ t
same_bytes-eq [] [] h = refl
same_bytes-eq [] (b ∷ t) h = absurd cc
same_bytes-eq (a ∷ s) [] h = absurd cc
same_bytes-eq (a ∷ s) (b ∷ t) h = ground (arith, same_bytes-eq s t)

pub same_bytes_self : (s : Bytes) → same_bytes s s ≡ true
same_bytes_self [] = refl
same_bytes_self (a ∷ s) = ground (arith, same_bytes_self s)
