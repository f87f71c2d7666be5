-- ===== src/Prekey/Checks.antt =====
-- prekey_state.rs: the validation of a decoded state, and the key under which it is authenticated.
use communication_platform.Base.{
  ℕ, ◌+◌, Bool, false, not, ◌||◌, List, [], ◌∷◌, length, replicate, ltb, leb, ◌==◌, if◌then◌else◌,
  Result, ok, err, ok_or, refuse, malformed_input, authentication_failed, internal_failure, ◌>>=◌,
  ◌>>◌,
}
use communication_platform.Base.Bytes.{Bytes, bytes_eq}
use communication_platform.Provider.{KeyProvider}
use communication_platform.Protocol.Framing.{slice}
use communication_platform.Protocol.Hashing.{hkdf_sha256}
use communication_platform.DeviceSignatures.{
  device_signing_public, encode_signed_prekey, encode_pq_signed_prekey, SignedPrekey,
}
use communication_platform.Prekey.{
  SignedKey, RetiredSignedPair, OneTimeKey, DeviceState, ik_public, key_id_max, state_auth_domain,
  mlkem768_public_bytes,
}

unfoldable pub valid_key_id : ℕ → Result ℕ
valid_key_id id = if ltb key_id_max id then err malformed_input else ok id

-- `keys.windows(2).any(|pair| pair[0] >= pair[1])` on a list of identifiers.
unfoldable pub any_not_ascending : List ℕ → Bool
any_not_ascending [] = false
any_not_ascending (a ∷ []) = false
any_not_ascending (a ∷ (b ∷ ids)) = leb b a || any_not_ascending (b ∷ ids)

unfoldable pub ids : List OneTimeKey → List ℕ
ids [] = []
ids (key ∷ keys) = key.id ∷ ids keys

-- `validate_sorted_classical` and `validate_sorted_pq`.
unfoldable pub validate_sorted : List OneTimeKey → Result (Unit {0})
validate_sorted keys = refuse (any_not_ascending (ids keys)) malformed_input

unfoldable pub any_retired_not_ascending : List RetiredSignedPair → Bool
any_retired_not_ascending [] = false
any_retired_not_ascending (a ∷ []) = false
any_retired_not_ascending (a ∷ (b ∷ pairs)) =
    (leb b.classical.id a.classical.id || leb b.pq.id a.pq.id)
    || any_retired_not_ascending (b ∷ pairs)

-- What is signed for a key of the account.
abbrev pub signed_prekey : Bytes → ℕ → Bytes → SignedPrekey
signed_prekey user_id id public = record {
  user_id = user_id;
  prekey = record { id = id; public = public };
}

unfoldable pub validate_pq_public_in_secret : Bytes → Bytes → Result (Unit {0})
validate_pq_public_in_secret secret public = do
  embedded_public ← ok_or (slice secret 1152 (1152 + mlkem768_public_bytes)) malformed_input
  if bytes_eq embedded_public public then ok tt else err authentication_failed

module _ {E : Type 0} (p : KeyProvider E) where
  unfoldable pub device_auth_key : Bytes → Result Bytes
  device_auth_key identity_secret = do
    value ← hkdf_sha256 p (replicate 32 0) identity_secret state_auth_domain 32
    if length value == 32 then ok value else err internal_failure

  -- `provider.x25519_public(secret)? != public` is `AuthenticationFailed`.
  unfoldable pub check_x25519 : Bytes → Bytes → Result (Unit {0})
  check_x25519 secret public = do
    computed ← p.x25519_public secret
    refuse (not (bytes_eq computed public)) authentication_failed

  -- The same of `SigningKey::from_bytes(secret).verifying_key()`.
  unfoldable pub check_verifying_key : Bytes → Bytes → Result (Unit {0})
  check_verifying_key secret public =
      refuse (not (bytes_eq (p.verifying_key secret) public)) authentication_failed

  unfoldable pub validate_classical_signed : Bytes → Bytes → SignedKey → Result (Unit {0})
  validate_classical_signed ik user_id key = do
    check_x25519 key.secret key.public
    signed ← encode_signed_prekey (signed_prekey user_id key.id key.public)
    p.signatures.ed25519_verify (device_signing_public ik) signed key.signature

  unfoldable pub validate_pq_signed : Bytes → Bytes → SignedKey → Result (Unit {0})
  validate_pq_signed ik user_id key = do
    validate_pq_public_in_secret key.secret key.public
    signed ← encode_pq_signed_prekey (signed_prekey user_id key.id key.public)
    p.signatures.ed25519_verify (device_signing_public ik) signed key.signature

  unfoldable pub validate_retired : Bytes → Bytes → List RetiredSignedPair → Result (Unit {0})
  validate_retired ik user_id [] = ok tt
  validate_retired ik user_id (pair ∷ pairs) = do
    validate_classical_signed ik user_id pair.classical
    validate_pq_signed ik user_id pair.pq
    validate_retired ik user_id pairs

  unfoldable pub validate_classical_keys : List OneTimeKey → Result (Unit {0})
  validate_classical_keys [] = ok tt
  validate_classical_keys (key ∷ keys) = do
    check_x25519 key.secret key.public
    validate_classical_keys keys

  unfoldable pub validate_pq_keys : List OneTimeKey → Result (Unit {0})
  validate_pq_keys [] = ok tt
  validate_pq_keys (key ∷ keys) = do
    validate_pq_public_in_secret key.secret key.public
    validate_pq_keys keys

  unfoldable pub validate_device_material : DeviceState → Result (Unit {0})
  validate_device_material s = do
    validate_classical_signed (ik_public s) s.user_id s.current_classical
    validate_pq_signed (ik_public s) s.user_id s.current_pq
    refuse (any_retired_not_ascending s.retired) malformed_input
    validate_retired (ik_public s) s.user_id s.retired
    validate_classical_keys s.classical_one_time
    validate_pq_keys s.pq_one_time
