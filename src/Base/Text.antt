-- ===== src/Base/Text.antt =====
-- Text as its UTF-8 bytes: what `std::str::from_utf8` accepts, and `chars().count()`.
use Prim.Native.Nat.{ℕ, zero, suc}
use mathlib.Core.Path.{◌≡◌}
use mathlib.Core.Bool.{Bool, true, false, ◌&&◌}
use mathlib.Core.Option.{Option, none, some}
use mathlib.Core.List.{[], ◌∷◌}
use communication_platform.Base.Tests.{ltb, leb, ◌==◌, if◌then◌else◌}
use communication_platform.Base.Bytes.{Bytes, IsBytes}

abbrev pub in_range : ℕ → ℕ → ℕ → Bool
in_range lo hi b = leb lo b && leb b hi

-- How many continuation bytes are due, and the range of the next one.
pub record Due : Type 0 where
  pub more : ℕ
  pub low : ℕ
  pub high : ℕ

due : ℕ → ℕ → ℕ → Option Due
due more low high = some (record { more = more; low = low; high = high })

-- The first byte of a scalar (Unicode 15, table 3-7).
lead : ℕ → Option Due
unfolding due
lead b =
    if ltb b 0x80
    then due 0 0x80 0xbf
    else if in_range 0xc2 0xdf b
    then due 1 0x80 0xbf
    else if b == 0xe0
    then due 2 0xa0 0xbf
    else if b == 0xed
    then due 2 0x80 0x9f
    else if in_range 0xe1 0xef b
    then due 2 0x80 0xbf
    else if b == 0xf0
    then due 3 0x90 0xbf
    else if b == 0xf4
    then due 3 0x80 0x8f
    else if in_range 0xf1 0xf3 b
    then due 3 0x80 0xbf
    else none

next : Due → ℕ → Option Due
unfolding lead due
next d b = elim d.more [
  | zero ↦ lead b
  | suc n ↦ if in_range d.low d.high b then due n 0x80 0xbf else none
]

scan : Due → Bytes → Bool
scan d [] = d.more == 0
scan d (b ∷ bs) = elim (next d b) [ none ↦ false | some d' ↦ scan d' bs ]

unfoldable pub is_utf8 : Bytes → Bool
unfolding scan next
is_utf8 bs = scan (record { more = 0; low = 0x80; high = 0xbf }) bs

-- Each scalar has one byte that is no continuation byte.
unfoldable pub char_count : Bytes → ℕ
char_count [] = 0
char_count (b ∷ bs) = let rest = char_count bs in if in_range 0x80 0xbf b then rest else suc rest

-- A value of `String`.
pub record IsText (bs : Bytes) : Type 0 where
  pub bytes : IsBytes bs
  pub valid : is_utf8 bs ≡ true
