-- ===== src/Prekey/CodecReader.antt =====
-- prekey_state.rs: the stored form as it is read, in its second version and in the first, which is
-- accepted for migration.
use communication_platform.Base.{
  ℕ, ◌+◌, ◌-◌, Bool, true, false, not, ◌&&◌, ◌||◌, Option, none, some, List, [], ◌∷◌, length, take,
  drop, leb, ltb, ◌==◌, if◌then◌else◌, Result, ok, err, refuse, malformed_input,
  authentication_failed, resource_exhausted, unsupported_version, ◌>>=◌ as bind_result,
  ◌>>◌ as check,
}
use communication_platform.Base.Bytes.{Bytes, bytes_eq, is_zero}
use communication_platform.Provider.{KeyProvider}
use communication_platform.Protocol.Framing.{
  Parser, pure, ◌>>=◌, ◌>>◌, reject, lift, finish, run, u8, u16, u32, array, boolean, framed,
  take as read,
}
use communication_platform.Protocol.Hashing.{hmac_sha256}
use communication_platform.Protocol.Repeat.{repeat}
use communication_platform.DeviceSignatures.{device_signing_public}
use communication_platform.Prekey.{
  SignedKey, RetiredSignedPair, OneTimeKey, PendingUpload, DeviceState, device_v2_magic,
  state_auth_tag_bytes, max_retired_signed_pairs, max_classical_one_time, max_pq_one_time,
  key_id_max, u32_max, upload_replenish, upload_rotation, mlkem768_public_bytes,
  mlkem768_secret_bytes,
}
use communication_platform.Prekey.Checks.{
  valid_key_id, validate_sorted, device_auth_key, check_x25519, check_verifying_key,
  validate_device_material,
}

-- `valid_key_id(reader.u32()?)?`
unfoldable pub read_key_id : Parser ℕ
read_key_id = do id ← u32; lift (valid_key_id id)

-- `decode_classical_signed` and `decode_pq_signed`, by the sizes of the two keys.
unfoldable pub decode_signed : ℕ → ℕ → Parser SignedKey
decode_signed public_bytes secret_bytes = do
  id ← read_key_id
  created_day ← u32
  public ← array public_bytes
  signature ← array 64
  secret ← array secret_bytes
  pure (record {
    id = id;
    created_day = created_day;
    public = public;
    signature = signature;
    secret = secret;
  })

unfoldable pub decode_classical_signed : Parser SignedKey
decode_classical_signed = decode_signed 32 32

unfoldable pub decode_pq_signed : Parser SignedKey
decode_pq_signed = decode_signed mlkem768_public_bytes mlkem768_secret_bytes

unfoldable pub decode_retired : Parser RetiredSignedPair
decode_retired = do
  retain_through_day ← u32
  classical ← decode_classical_signed
  pq ← decode_pq_signed
  pure (record { retain_through_day = retain_through_day; classical = classical; pq = pq })

unfoldable pub decode_one_time : ℕ → ℕ → Parser OneTimeKey
decode_one_time public_bytes secret_bytes = do
  id ← read_key_id
  public ← array public_bytes
  secret ← array secret_bytes
  pure (record { id = id; public = public; secret = secret })

-- A count within its limit, and as many values.
unfoldable pub counted {ℓ} : {A : Type ℓ} → Parser ℕ → ℕ → Parser A → Parser (List A)
counted read_count limit value = do
  count ← read_count
  reject (ltb limit count) resource_exhausted
  repeat count value

unfoldable pub decode_upload : Parser PendingUpload
decode_upload = do
  kind ← u8
  reject (not (kind == upload_replenish || kind == upload_rotation)) malformed_input
  batch_id ← array 16
  exact_projection ← framed
  pure (record { batch_id = batch_id; kind = kind; exact_projection = exact_projection })

unfoldable pub decode_pending : Bool → Parser (Option PendingUpload)
decode_pending true = do pending ← decode_upload; pure (some pending)
decode_pending false = pure none

-- The fields after the magic.
unfoldable pub read_state : Parser DeviceState
read_state = do
  user_id ← array 16
  registration_id ← u32
  bundle_version ← u32
  next_classical_one_time_id ← u32
  next_pq_one_time_id ← u32
  device_signing_public ← array 32
  identity_public ← array 32
  device_signing_secret ← array 32
  identity_secret ← array 32
  current_classical ← decode_classical_signed
  current_pq ← decode_pq_signed
  cross_signature ← array 64
  retired ← counted u8 max_retired_signed_pairs decode_retired
  classical_one_time ← counted u16 max_classical_one_time (decode_one_time 32 32)
  pq_one_time ←
      counted u16 max_pq_one_time (decode_one_time mlkem768_public_bytes mlkem768_secret_bytes)
  pending ← boolean >>= decode_pending
  pure (record {
    user_id = user_id;
    registration_id = registration_id;
    bundle_version = bundle_version;
    next_classical_one_time_id = next_classical_one_time_id;
    next_pq_one_time_id = next_pq_one_time_id;
    device_signing_public = device_signing_public;
    identity_public = identity_public;
    device_signing_secret = device_signing_secret;
    identity_secret = identity_secret;
    current_classical = current_classical;
    current_pq = current_pq;
    cross_signature = cross_signature;
    retired = retired;
    classical_one_time = classical_one_time;
    pq_one_time = pq_one_time;
    pending = pending;
  })

-- `reader.take(8)? != magic` is `UnsupportedVersion`.
unfoldable pub read_magic : Bytes → Parser (Unit {0})
read_magic magic = do value ← read 8; reject (not (bytes_eq value magic)) unsupported_version

-- `keys.iter().any(|key| next <= key.id)`
unfoldable pub any_reached : ℕ → List OneTimeKey → Bool
any_reached next [] = false
any_reached next (key ∷ keys) = leb next key.id || any_reached next keys

unfoldable pub bad_next_id : ℕ → Bool
bad_next_id next = not (next == u32_max) && ltb key_id_max next

-- The tests that go with `!reader.is_finished()`.
unfoldable pub misplaced : DeviceState → Bool
misplaced s =
    s.bundle_version == 0
    || is_zero s.user_id
    || bad_next_id s.next_classical_one_time_id
    || bad_next_id s.next_pq_one_time_id
    || any_reached s.next_classical_one_time_id s.classical_one_time
    || any_reached s.next_pq_one_time_id s.pq_one_time

module _ {E : Type 0} (p : KeyProvider E) where
  -- What follows the reading of a second version.
  unfoldable pub judge_v2 : Bytes → Bytes → DeviceState → Result DeviceState
  judge_v2 encoded supplied_tag s = check (refuse (misplaced s) malformed_input) (
      bind_result (device_auth_key p s.identity_secret) λ auth_key.
        bind_result (hmac_sha256 p auth_key encoded) λ expected_tag.
          check (refuse (not (bytes_eq expected_tag supplied_tag)) authentication_failed) (
            check (check_verifying_key p s.device_signing_secret s.device_signing_public) (
              check (check_x25519 p s.identity_secret s.identity_public) (
                check (check_x25519 p s.current_classical.secret s.current_classical.public) (
                  check (validate_sorted s.classical_one_time) (
                    check (validate_sorted s.pq_one_time)
                      (check (validate_device_material p s) (ok s))))))))

  unfoldable pub decode_v2 : Bytes → Result DeviceState
  decode_v2 input =
      if ltb (length input) (state_auth_tag_bytes + 8)
      then err malformed_input
      else let authenticated_len = length input - state_auth_tag_bytes in
        let encoded = take authenticated_len input in
        let supplied_tag = drop authenticated_len input in
        run
          ((read_magic device_v2_magic >> read_state) >>= λ s.
            finish >> lift (judge_v2 encoded supplied_tag s))
          encoded
