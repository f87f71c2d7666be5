-- ===== src/Base/Bytes.antt =====
-- Byte strings: big-endian integers (`to_be_bytes`, `from_be_bytes`), comparison, zero tests.
use Prim.Native.Nat.{ℕ, zero, suc, ◌+◌, ◌*◌, ◌/◌, ◌%◌, ◌^◌, ◌≤◌, ◌<◌}
use mathlib.Core.Path.{◌≡◌, refl, sym, ◌∙◌}
use mathlib.Core.Logic.{◌↔◌}
use mathlib.Core.Bool.{Bool, true, false, ◌&&◌}
use mathlib.Core.List.{List, [], ◌∷◌, ◌++◌}
use native.Mathlib.Nat.{pow-suc, mul-le-mul_right}
use native.Mathlib.Omega.{arith}
use communication_platform.Base.Tests.{ltb, ◌==◌, if◌then◌else◌}
use communication_platform.Base.Lists.{length, length-append, All, All-append}

abbrev pub Bytes : Type 0
Bytes = List ℕ

abbrev pub IsByte : ℕ → Type 0
IsByte b = b < 256

abbrev pub IsBytes : Bytes → Type 0
IsBytes = All IsByte

-- The test that all are bytes.
unfoldable pub all_bytes : Bytes → Bool
all_bytes [] = true
all_bytes (x ∷ xs) = ltb x 256 && all_bytes xs

pub all_bytes_sound : (xs : Bytes) → all_bytes xs ≡ true → IsBytes xs
unfolding all_bytes
all_bytes_sound [] h = tt
all_bytes_sound (x ∷ xs) h = (ground arith, all_bytes_sound xs (ground arith))

-- A value of `[u8; n]`.
pub record IsArray (n : ℕ) (xs : Bytes) : Type 0 where
  pub size : length xs ≡ n
  pub bytes : IsBytes xs

-- `value.to_be_bytes()` of a width-byte integer.
unfoldable pub to_be_bytes : ℕ → ℕ → Bytes
to_be_bytes zero v = []
to_be_bytes (suc k) v = to_be_bytes k (v / 256) ++ (v % 256 ∷ [])

be_loop : ℕ → Bytes → ℕ
be_loop acc [] = acc
be_loop acc (b ∷ bs) = be_loop (acc * 256 + b) bs

unfoldable pub from_be_bytes : Bytes → ℕ
unfolding be_loop
from_be_bytes bs = be_loop 0 bs

pub length-to_be_bytes : (k v : ℕ) → length (to_be_bytes k v) ≡ k
unfolding to_be_bytes
length-to_be_bytes zero v = refl
length-to_be_bytes (suc k) v =
    omega (
      arith,
      length-append (to_be_bytes k (v / 256)) (v % 256 ∷ []),
      length-to_be_bytes k (v / 256),
    )

pub to_be_bytes-IsBytes : (k v : ℕ) → IsBytes (to_be_bytes k v)
unfolding to_be_bytes
to_be_bytes-IsBytes zero v = tt
to_be_bytes-IsBytes (suc k) v =
    All-append IsByte _ _ (to_be_bytes-IsBytes k (v / 256)) (omega arith, tt)

be_loop-snoc : (bs : Bytes) (acc b : ℕ) → be_loop acc (bs ++ (b ∷ [])) ≡ be_loop acc bs * 256 + b
unfolding be_loop
be_loop-snoc [] acc b = refl
be_loop-snoc (x ∷ bs) acc b = be_loop-snoc bs (acc * 256 + x) b

-- Reading back a value that fits.
pub from_be_bytes-to_be_bytes : (k v : ℕ) → v < 256 ^ k → from_be_bytes (to_be_bytes k v) ≡ v
unfolding from_be_bytes to_be_bytes
from_be_bytes-to_be_bytes zero v h = omega arith
from_be_bytes-to_be_bytes (suc k) v h = omega (
  arith,
  be_loop-snoc (to_be_bytes k (v / 256)) 0 (v % 256),
  from_be_bytes-to_be_bytes k (v / 256) (omega (arith, pow-suc 256 k)),
)

be_loop-injective :
    (xs ys : Bytes) (a b : ℕ)
    → length xs ≡ length ys
    → IsBytes xs
    → IsBytes ys
    → be_loop a xs ≡ be_loop b ys
    → (a ≡ b) × (xs ≡ ys)
unfolding be_loop
be_loop-injective [] [] a b l hx hy e = (e, refl)
be_loop-injective [] (y ∷ ys) a b l hx hy e = absurd (omega arith)
be_loop-injective (x ∷ xs) [] a b l hx hy e = absurd (omega arith)
be_loop-injective (x ∷ xs) (y ∷ ys) a b l (hx, hxs) (hy, hys) e =
    ground (arith, be_loop-injective xs ys (a * 256 + x) (b * 256 + y) (omega arith) hxs hys e)

digit_bound : (x a p : ℕ) → x < 256 → suc (a * 256 + x) * p ≤ suc a * (p * 256)
digit_bound x a p h =
    let fits : suc (a * 256 + x) ≤ suc a * 256 = omega arith in
    omega (arith, mul-le-mul_right p fits)

be_loop-lt : (xs : Bytes) (k a : ℕ) → length xs ≡ k → IsBytes xs → be_loop a xs < suc a * 256 ^ k
unfolding be_loop
be_loop-lt [] zero a l h = omega arith
be_loop-lt [] (suc k) a l h = absurd (omega arith)
be_loop-lt (x ∷ xs) zero a l h = absurd (omega arith)
be_loop-lt (x ∷ xs) (suc k) a l (hx, hxs) =
    rw pow-suc
      (omega (arith, be_loop-lt xs k (a * 256 + x) (omega arith) hxs, digit_bound x a (256 ^ k) hx))

pub from_be_bytes-lt : (k : ℕ) (xs : Bytes) → IsArray k xs → from_be_bytes xs < 256 ^ k
unfolding from_be_bytes
from_be_bytes-lt k xs h = omega (arith, be_loop-lt xs k 0 h.size h.bytes)

-- Writing again a value that was read.
pub to_be_bytes-from_be_bytes :
    (k : ℕ) (xs : Bytes) → IsArray k xs → to_be_bytes k (from_be_bytes xs) ≡ xs
to_be_bytes-from_be_bytes k xs h =
    (be_loop-injective (to_be_bytes k (from_be_bytes xs)) xs 0 0
      (length-to_be_bytes k _ ∙ sym h.size) (to_be_bytes-IsBytes k _) h.bytes
      (unfold from_be_bytes in from_be_bytes-to_be_bytes k _ (from_be_bytes-lt k xs h))).1

-- `left == right` on slices.
unfoldable pub bytes_eq : Bytes → Bytes → Bool
bytes_eq [] [] = true
bytes_eq [] (y ∷ ys) = false
bytes_eq (x ∷ xs) [] = false
bytes_eq (x ∷ xs) (y ∷ ys) = (x == y) && bytes_eq xs ys

pub bytes_eq_iff : (xs ys : Bytes) → (bytes_eq xs ys ≡ true) ↔ (xs ≡ ys)
unfolding bytes_eq
bytes_eq_iff [] [] = (λ _. refl, λ _. refl)
bytes_eq_iff [] (y ∷ ys) = (λ e. cc, λ e. cc)
bytes_eq_iff (x ∷ xs) [] = (λ e. cc, λ e. cc)
bytes_eq_iff (x ∷ xs) (y ∷ ys) = ground (arith, bytes_eq_iff xs ys)

-- `left < right` on slices: lexicographic.
unfoldable pub bytes_lt : Bytes → Bytes → Bool
bytes_lt xs [] = false
bytes_lt [] (y ∷ ys) = true
bytes_lt (x ∷ xs) (y ∷ ys) = if ltb x y then true else (x == y) && bytes_lt xs ys

-- `value.iter().all(|byte| *byte == 0)`.
unfoldable pub is_zero : Bytes → Bool
is_zero [] = true
is_zero (b ∷ bs) = (b == 0) && is_zero bs
