-- ===== src/Prekey/Operations.antt =====
-- prekey_state.rs: operations with `&mut DeviceState` and a random source. Such an operation takes
-- and returns both, also when it fails; a `do` block ends at the first error, with what was changed.
use communication_platform.Base.{
  Bool, true, false, none, some, not, if◌then◌else◌, Result, CryptoError, ok, err, state_violation,
}
use communication_platform.Base.Bytes.{Bytes, bytes_eq}
use communication_platform.Prekey.{DeviceState}

pub record World (E : Type 0) : Type 0 where
  pub device : DeviceState
  pub entropy : E

abbrev pub Operation : Type 0 → Type 0 → Type 0
Operation E A = World E → Result A × World E

-- What follows a step: `?` returns its error.
abbrev pub after : {E A B : Type 0} → Result A × World E → (A → Operation E B) → Result B × World E
after (err e, w) next = (err e, w)
after (ok a, w) next = next a w

infixl 5 ◌>>=◌ ◌>>◌
abbrev pub ◌>>=◌ : {E A B : Type 0} → Operation E A → (A → Operation E B) → Operation E B
◌>>=◌ m next w = after (m w) next

abbrev pub ◌>>◌ : {E B : Type 0} → Operation E (Unit {0}) → Operation E B → Operation E B
m >> next = m >>= λ _. next

abbrev pub return : {E A : Type 0} → A → Operation E A
return a w = (ok a, w)

abbrev pub stop : {E A : Type 0} → CryptoError → Operation E A
stop e w = (err e, w)

-- `e?` for a result that changes nothing.
abbrev pub attempt : {E A : Type 0} → Result A → Operation E A
attempt result w = (result, w)

-- `if b { return Err(e) }`
abbrev pub fail_if : {E : Type 0} → Bool → CryptoError → Operation E (Unit {0})
fail_if true e w = (err e, w)
fail_if false e w = (ok tt, w)

-- A change of the state.
abbrev pub modify : {E : Type 0} → (DeviceState → DeviceState) → Operation E (Unit {0})
modify change w = (ok tt, record w { device = change w.device })

-- A call of the random source.
abbrev pub sample : {E A : Type 0} → (E → Result A × E) → Operation E A
sample draw w = let (result, entropy) = draw w.entropy in (result, record w { entropy = entropy })

-- `commit_pending_upload`; a failed commit returns before the state is changed.
unfoldable pub commit_pending_upload : Bytes → DeviceState → Result (Unit {0}) × DeviceState
commit_pending_upload batch_id s = elim s.pending [
  | none ↦ (err state_violation, s)
  | some pending ↦
      if not (bytes_eq pending.batch_id batch_id)
      then (err state_violation, s)
      else (ok tt, record s { pending = none })
]
