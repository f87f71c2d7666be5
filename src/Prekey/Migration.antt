-- ===== src/Prekey/Migration.antt =====
-- prekey_state.rs: the first version of the stored form, which is read for migration, and the choice
-- between the two versions.
use communication_platform.Base.{
  ℕ, ◌-◌, not, ◌||◌, none, some, List, [], ◌∷◌, ◌++◌, replicate, ltb, ◌==◌, if◌then◌else◌, Result,
  ok, err, refuse, malformed_input, authentication_failed, unsupported_version,
  ◌>>=◌ as bind_result, ◌>>◌ as check,
}
use communication_platform.Base.Bytes.{Bytes, bytes_eq, is_zero}
use communication_platform.Provider.{KeyProvider}
use communication_platform.Protocol.Framing.{
  Parser, pure, ◌>>=◌, ◌>>◌, reject, lift, run, u16, u32, array, slice, is_finished,
}
use communication_platform.Protocol.Repeat.{repeat}
use communication_platform.DeviceSignatures.{
  encode_signed_prekey, encode_pq_signed_prekey, from_halves, device_signing_public,
}
use communication_platform.Prekey.{
  OneTimeKey, DeviceState, device_v1_magic, device_v2_magic, initial_next_id, mlkem768_public_bytes,
  mlkem768_secret_bytes,
}
use communication_platform.Prekey.Checks.{
  ids, validate_sorted, check_x25519, check_verifying_key, validate_device_material, signed_prekey,
}
use communication_platform.Prekey.CodecReader.{read_key_id, read_magic, decode_v2}

-- An identifier and a public key.
pub record PublicKey : Type 0 where
  pub id : ℕ
  pub public : Bytes

unfoldable pub read_public : ℕ → Parser PublicKey
read_public public_bytes = do
  id ← read_key_id
  public ← array public_bytes
  pure (record { id = id; public = public })

-- The secrets of the public keys, in their order.
unfoldable pub read_secrets : ℕ → List PublicKey → Parser (List OneTimeKey)
read_secrets secret_bytes [] = pure []
read_secrets secret_bytes (key ∷ keys) = do
  secret ← array secret_bytes
  rest ← read_secrets secret_bytes keys
  pure (record { id = key.id; public = key.public; secret = secret } ∷ rest)

-- What is read: the state that it becomes, without next identifiers, and the fingerprint.
pub record Legacy : Type 0 where
  pub device : DeviceState
  pub fingerprint : Bytes

unfoldable pub read_legacy : ℕ → Parser Legacy
read_legacy migrated_created_day = do
  user_id ← array 16
  registration_id ← u32
  spk_id ← read_key_id
  pq_spk_id ← read_key_id
  classical_count ← u16
  pq_count ← u16
  reject
      (classical_count == 0
        || ltb 8 classical_count
        || pq_count == 0
        || ltb 4 pq_count
        || is_zero user_id)
      malformed_input
  device_signing_public ← array 32
  identity_public ← array 32
  spk_public ← array 32
  spk_signature ← array 64
  pq_spk_public ← array mlkem768_public_bytes
  pq_spk_signature ← array 64
  fingerprint ← array 32
  classical_public ← repeat classical_count (read_public 32)
  pq_public ← repeat pq_count (read_public mlkem768_public_bytes)
  device_signing_secret ← array 32
  identity_secret ← array 32
  spk_secret ← array 32
  pq_spk_secret ← array mlkem768_secret_bytes
  classical_one_time ← read_secrets 32 classical_public
  pq_one_time ← read_secrets mlkem768_secret_bytes pq_public
  pure (record {
    fingerprint = fingerprint;
    device = record {
      user_id = user_id;
      registration_id = registration_id;
      bundle_version = 1;
      next_classical_one_time_id = 0;
      next_pq_one_time_id = 0;
      device_signing_public = device_signing_public;
      identity_public = identity_public;
      device_signing_secret = device_signing_secret;
      identity_secret = identity_secret;
      current_classical = record {
        id = spk_id;
        created_day = migrated_created_day;
        public = spk_public;
        signature = spk_signature;
        secret = spk_secret;
      };
      current_pq = record {
        id = pq_spk_id;
        created_day = migrated_created_day;
        public = pq_spk_public;
        signature = pq_spk_signature;
        secret = pq_spk_secret;
      };
      cross_signature = replicate 64 0;
      retired = [];
      classical_one_time = classical_one_time;
      pq_one_time = pq_one_time;
      pending = none;
    };
  })

-- `!reader.is_finished()`, which here is `AuthenticationFailed`.
unfoldable pub authentic_end : Parser (Unit {0})
authentic_end r = if is_finished r then ok (tt, r) else err authentication_failed

module _ {E : Type 0} (p : KeyProvider E) where
  -- The end of the decoder: the next identifiers, and the validation.
  unfoldable pub migrated : DeviceState → Result DeviceState
  migrated s = bind_result (initial_next_id (ids s.classical_one_time)) λ next_classical.
      bind_result (initial_next_id (ids s.pq_one_time)) λ next_pq.
        let state : DeviceState = record s {
          next_classical_one_time_id = next_classical;
          next_pq_one_time_id = next_pq;
        } in
        check (validate_device_material p state) (ok state)

  -- What follows the reading of a first version.
  unfoldable pub judge_v1 : Legacy → Result DeviceState
  judge_v1 legacy =
      let s = legacy.device in
      check (check_verifying_key p s.device_signing_secret s.device_signing_public) (
        check (check_x25519 p s.identity_secret s.identity_public) (
          check (check_x25519 p s.current_classical.secret s.current_classical.public) (
            bind_result (p.signatures.sha256 (s.device_signing_public ++ s.identity_public))
              λ computed.
                check (refuse (not (bytes_eq computed legacy.fingerprint)) authentication_failed) (
                  check (validate_sorted s.classical_one_time) (
                    check (validate_sorted s.pq_one_time) (
                      bind_result
                        (encode_signed_prekey (
                          signed_prekey s.user_id s.current_classical.id
                            s.current_classical.public))
                        λ signed.
                          check
                            (p.signatures.ed25519_verify s.device_signing_public signed
                              s.current_classical.signature)
                            (bind_result
                              (encode_pq_signed_prekey
                                (signed_prekey s.user_id s.current_pq.id s.current_pq.public))
                              λ pq_signed.
                                check
                                  (p.signatures.ed25519_verify
                                    (device_signing_public
                                      (from_halves s.device_signing_public s.identity_public))
                                    pq_signed s.current_pq.signature)
                                  (migrated s))))))))

  -- A legacy pair is stamped as due for rotation; `saturating_sub(7)` stops at 0.
  unfoldable pub decode_v1 : Bytes → ℕ → Result DeviceState
  decode_v1 input migration_day =
      run
        ((read_magic device_v1_magic >> read_legacy (migration_day - 7)) >>= λ legacy.
          authentic_end >> lift (judge_v1 legacy))
        input

  unfoldable pub decode_device_state : Bytes → ℕ → Result DeviceState
  decode_device_state input migration_day = elim (slice input 0 8) [
    | none ↦ err unsupported_version
    | some magic ↦
        if bytes_eq magic device_v1_magic
        then decode_v1 input migration_day
        else if bytes_eq magic device_v2_magic
        then decode_v2 p input
        else err unsupported_version
  ]
