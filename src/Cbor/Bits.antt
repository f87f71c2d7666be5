-- ===== src/Cbor/Bits.antt =====
-- The masks of the canonical readers as arithmetic; each is a table checked by evaluation.
use Prim.Native.Nat.{bit_and, bit_or}
use communication_platform.Base.{
  ℕ, zero, suc, ◌+◌, ◌%◌, ◌<◌, ◌≡◌, refl, Bool, true, ◌&&◌, arith, ◌==◌, ==_iff,
}

-- Whether a test holds of every number under a bound, and what a table that says so gives.
table : (ℕ → Bool) → ℕ → Bool
table test zero = true
table test (suc bound) = let rest = table test bound in test bound && rest

read_table :
    (test : ℕ → Bool) (bound : ℕ) → table test bound ≡ true → (i : ℕ) → i < bound → test i ≡ true
unfolding table
read_table test zero whole i below = absurd (omega arith)
read_table test (suc bound) whole i below = ground (arith, read_table test bound (ground arith) i)

pub low_five : (b : ℕ) → b < 256 → bit_and b 0x1f ≡ b % 32
unfolding table
low_five b h = (==_iff _ _).0 (read_table (λ x. bit_and x 0x1f == x % 32) 256 refl b h)

pub tag_map : (n : ℕ) → n < 24 → bit_or 160 n ≡ 160 + n
unfolding table
tag_map n h = (==_iff _ _).0 (read_table (λ x. bit_or 160 x == 160 + x) 24 refl n h)

pub tag_array : (n : ℕ) → n < 24 → bit_or 128 n ≡ 128 + n
unfolding table
tag_array n h = (==_iff _ _).0 (read_table (λ x. bit_or 128 x == 128 + x) 24 refl n h)

pub tag_bytes : (n : ℕ) → n < 24 → bit_or 64 n ≡ 64 + n
unfolding table
tag_bytes n h = (==_iff _ _).0 (read_table (λ x. bit_or 64 x == 64 + x) 24 refl n h)

pub tag_text : (n : ℕ) → n < 24 → bit_or 96 n ≡ 96 + n
unfolding table
tag_text n h = (==_iff _ _).0 (read_table (λ x. bit_or 96 x == 96 + x) 24 refl n h)
