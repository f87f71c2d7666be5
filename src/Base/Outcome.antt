-- ===== src/Base/Outcome.antt =====
-- frontend/native/crypto_core/src/error.rs: the stable error codes and the result type.
use Prim.Native.Nat.{ℕ}
use mathlib.Core.Path.{◌≡◌, refl}
use mathlib.Core.Bool.{Bool, true, false}
use mathlib.Core.Option.{Option, none, some}

pub data CryptoError : Type 0 where
  no_error invalid_argument input_too_large output_too_small malformed_input : CryptoError
  invalid_handle wrong_handle_type authentication_failed unsupported_version : CryptoError
  unsupported_operation resource_exhausted entropy_unavailable state_violation : CryptoError
  internal_failure panic_contained : CryptoError

unfoldable pub code : CryptoError → ℕ
code no_error = 0
code invalid_argument = 1
code input_too_large = 2
code output_too_small = 3
code malformed_input = 4
code invalid_handle = 5
code wrong_handle_type = 6
code authentication_failed = 7
code unsupported_version = 8
code unsupported_operation = 9
code resource_exhausted = 10
code entropy_unavailable = 11
code state_violation = 12
code internal_failure = 13
code panic_contained = 14

-- `CryptoResult<T>`.
pub data Result {ℓ} (T : Type ℓ) : Type ℓ where
  ok : T → Result T
  err : CryptoError → Result T

-- The operator `?`: an error ends the function.
infixl 5 ◌>>=◌ ◌>>◌
abbrev pub ◌>>=◌ {ℓ κ} : {T : Type ℓ} {U : Type κ} → Result T → (T → Result U) → Result U
(err failure) >>= next = err failure
(ok value) >>= next = next value

-- A step whose value is `()`.
abbrev pub ◌>>◌ {κ} : {U : Type κ} → Result (Unit {0}) → Result U → Result U
step >> rest = step >>= (λ _. rest)

-- `if b { return Err(e) }`.
abbrev pub refuse : Bool → CryptoError → Result (Unit {0})
refuse true e = err e
refuse false e = ok tt

-- `option.ok_or(e)`.
abbrev pub ok_or {ℓ} : {A : Type ℓ} → Option A → CryptoError → Result A
ok_or none e = err e
ok_or (some a) e = ok a

-- A chain that succeeds has a first step that does.
pub >>=-eq-ok {ℓ κ} :
    {T : Type ℓ} {U : Type κ} (step : Result T) (next : T → Result U) {result : U}
    → (step >>= next) ≡ ok result
    → (value : T) × (step ≡ ok value) × (next value ≡ ok result)
>>=-eq-ok (err failure) next reached = cc
>>=-eq-ok (ok value) next reached = (value, refl, reached)

pub refuse-eq-ok : (b : Bool) (e : CryptoError) {u : Unit {0}} → refuse b e ≡ ok u → b ≡ false
refuse-eq-ok true e h = cc
refuse-eq-ok false e h = refl

pub ok_or-eq-ok {ℓ} :
    {A : Type ℓ} (o : Option A) (e : CryptoError) {a : A} → ok_or o e ≡ ok a → o ≡ some a
ok_or-eq-ok none e h = cc
ok_or-eq-ok (some a) e h = cc
