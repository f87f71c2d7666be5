-- ===== src/Prekey/Codec.antt =====
-- prekey_state.rs: the stored form of a device's prekeys, as it is written.
use communication_platform.Base.{
  ℕ, none, some, Option, [], ◌∷◌, ◌++◌, length, ltb, Result, ok, refuse, resource_exhausted,
  input_too_large, ◌>>=◌ as bind_result,
}
use communication_platform.Base.Bytes.{Bytes}
use communication_platform.Provider.{KeyProvider}
use communication_platform.Protocol.Framing.{max_input_bytes}
use communication_platform.Protocol.Hashing.{hmac_sha256}
use communication_platform.Protocol.Repeat.{write_each}
use communication_platform.Protocol.Writing.{
  Writer, ◌>>◌, extend, push_u16, push_u32, push_frame, reserve, try_from, with_value, written_by,
}
use communication_platform.Prekey.{
  SignedKey, RetiredSignedPair, OneTimeKey, PendingUpload, DeviceState, device_v2_magic,
}
use communication_platform.Prekey.Checks.{device_auth_key}

-- `encode_classical_signed` and `encode_pq_signed`.
unfoldable pub encode_signed : SignedKey → Writer
encode_signed key = do
  push_u32 key.id
  push_u32 key.created_day
  extend key.public
  extend key.signature
  extend key.secret

unfoldable pub encode_retired : RetiredSignedPair → Writer
encode_retired pair = do
  push_u32 pair.retain_through_day
  encode_signed pair.classical
  encode_signed pair.pq

unfoldable pub encode_one_time : OneTimeKey → Writer
encode_one_time key = do push_u32 key.id; extend key.public; extend key.secret

unfoldable pub encode_pending : Option PendingUpload → Writer
encode_pending none = extend (0 ∷ [])
encode_pending (some pending) = do
  extend (1 ∷ [])
  extend (pending.kind ∷ [])
  extend pending.batch_id
  push_frame pending.exact_projection

unfoldable pub push : ℕ → Writer
push byte = extend (byte ∷ [])

-- The retired pairs, the one-time keys and the pending upload.
unfoldable pub write_stores : DeviceState → Writer
write_stores s = do
  with_value (try_from 1 (length s.retired) resource_exhausted) push
  write_each encode_retired s.retired
  with_value (try_from 2 (length s.classical_one_time) resource_exhausted) push_u16
  write_each encode_one_time s.classical_one_time
  with_value (try_from 2 (length s.pq_one_time) resource_exhausted) push_u16
  write_each encode_one_time s.pq_one_time
  encode_pending s.pending

unfoldable pub write_fields : DeviceState → Writer
write_fields s = do
  extend device_v2_magic
  extend s.user_id
  push_u32 s.registration_id
  push_u32 s.bundle_version
  push_u32 s.next_classical_one_time_id
  push_u32 s.next_pq_one_time_id
  extend s.device_signing_public
  extend s.identity_public
  extend s.device_signing_secret
  extend s.identity_secret
  encode_signed s.current_classical
  encode_signed s.current_pq
  extend s.cross_signature
  write_stores s

-- The state up to its authentication tag.
unfoldable pub write_state : DeviceState → Writer
write_state s = do reserve 512; write_fields s

module _ {E : Type 0} (p : KeyProvider E) where
  unfoldable pub encode_device_state : DeviceState → Result Bytes
  encode_device_state s = bind_result (written_by (write_state s)) λ output.
      bind_result (device_auth_key p s.identity_secret) λ auth_key.
        bind_result (hmac_sha256 p auth_key output) λ tag.
          bind_result (refuse (ltb max_input_bytes (length (output ++ tag))) input_too_large)
            λ _. ok (output ++ tag)
