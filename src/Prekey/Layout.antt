-- ===== src/Prekey/Layout.antt =====
-- prekey_state.rs: the stored form as a layout of bytes, and that it is what is written.
use communication_platform.Base.{
  ℕ, ◌^◌, ◌<◌, ◌≡◌, Option, none, some, [], ◌∷◌, ◌++◌, length, arith, ok,
}
use communication_platform.Base.Bytes.{Bytes, to_be_bytes}
use communication_platform.Protocol.Reads.{frame}
use communication_platform.Protocol.Repeat.{bytes_of_all, write_each-Writes}
use communication_platform.Protocol.Writing.{
  Writes, ◌>>◌, reserve, written_by, written_by-Writes, extend-Writes, then-Writes, push_u16,
  push_u16-Writes, push_u32-Writes, push_frame-Writes, with_value-Writes,
}
use communication_platform.Prekey.{
  SignedKey, RetiredSignedPair, OneTimeKey, PendingUpload, DeviceState, device_v2_magic,
}
use communication_platform.Prekey.Codec.{
  encode_signed, encode_retired, encode_one_time, encode_pending, push, write_stores, write_fields,
  write_state,
}

abbrev pub signed_bytes : SignedKey → Bytes
signed_bytes key =
    to_be_bytes 4 key.id
    ++ (to_be_bytes 4 key.created_day ++ (key.public ++ (key.signature ++ key.secret)))

abbrev pub retired_bytes : RetiredSignedPair → Bytes
retired_bytes pair =
    to_be_bytes 4 pair.retain_through_day ++ (signed_bytes pair.classical ++ signed_bytes pair.pq)

abbrev pub one_time_bytes : OneTimeKey → Bytes
one_time_bytes key = to_be_bytes 4 key.id ++ (key.public ++ key.secret)

abbrev pub pending_bytes : Option PendingUpload → Bytes
pending_bytes none = 0 ∷ []
pending_bytes (some pending) =
    (1 ∷ []) ++ ((pending.kind ∷ []) ++ (pending.batch_id ++ frame pending.exact_projection))

abbrev pub stores_bytes : DeviceState → Bytes
stores_bytes s =
    (length s.retired ∷ [])
    ++ (bytes_of_all retired_bytes s.retired
        ++ (to_be_bytes 2 (length s.classical_one_time)
            ++ (bytes_of_all one_time_bytes s.classical_one_time
                ++ (to_be_bytes 2 (length s.pq_one_time)
                    ++ (bytes_of_all one_time_bytes s.pq_one_time ++ pending_bytes s.pending)))))

abbrev pub fields_bytes : DeviceState → Bytes
fields_bytes s =
    s.user_id
    ++ (to_be_bytes 4 s.registration_id
        ++ (to_be_bytes 4 s.bundle_version
            ++ (to_be_bytes 4 s.next_classical_one_time_id
                ++ (to_be_bytes 4 s.next_pq_one_time_id
                    ++ (s.device_signing_public
                        ++ (s.identity_public
                            ++ (s.device_signing_secret
                                ++ (s.identity_secret
                                    ++ (signed_bytes s.current_classical
                                        ++ (signed_bytes s.current_pq
                                            ++ (s.cross_signature ++ stores_bytes s)))))))))))

abbrev pub state_bytes : DeviceState → Bytes
state_bytes s = device_v2_magic ++ fields_bytes s

encode_signed-Writes : (key : SignedKey) → Writes (encode_signed key) (signed_bytes key)
unfolding encode_signed
encode_signed-Writes key = then-Writes (push_u32-Writes _) (
    then-Writes (push_u32-Writes _)
      (then-Writes (extend-Writes _) (then-Writes (extend-Writes _) (extend-Writes _))))

encode_retired-Writes :
    (pair : RetiredSignedPair) → Writes (encode_retired pair) (retired_bytes pair)
unfolding encode_retired
encode_retired-Writes pair =
    then-Writes (push_u32-Writes _)
      (then-Writes (encode_signed-Writes pair.classical) (encode_signed-Writes pair.pq))

encode_one_time-Writes : (key : OneTimeKey) → Writes (encode_one_time key) (one_time_bytes key)
unfolding encode_one_time
encode_one_time-Writes key =
    then-Writes (push_u32-Writes _) (then-Writes (extend-Writes _) (extend-Writes _))

-- The projection of a pending batch fits a frame.
abbrev pub IsFramed : Option PendingUpload → Type 0
IsFramed none = Unit {0}
IsFramed (some pending) = length pending.exact_projection < 256 ^ 4

encode_pending-Writes :
    (o : Option PendingUpload) → IsFramed o → Writes (encode_pending o) (pending_bytes o)
unfolding encode_pending
encode_pending-Writes none h = extend-Writes _
encode_pending-Writes (some pending) h = then-Writes (extend-Writes _) (
    then-Writes (extend-Writes _)
      (then-Writes (extend-Writes _) (push_frame-Writes pending.exact_projection h)))

push-Writes : (b : ℕ) → Writes (push b) (b ∷ [])
unfolding push
push-Writes b = extend-Writes _

module _ (s : DeviceState) (hr : length s.retired < 256)
    (hc : length s.classical_one_time < 256 ^ 2) (hq : length s.pq_one_time < 256 ^ 2)
    (hp : IsFramed s.pending) where
  write_stores-Writes : Writes (write_stores s) (stores_bytes s)
  unfolding write_stores
  write_stores-Writes = then-Writes (with_value-Writes push (ground arith) (push-Writes _)) (
      then-Writes (write_each-Writes retired_bytes encode_retired encode_retired-Writes s.retired) (
        then-Writes (with_value-Writes push_u16 (ground arith) (push_u16-Writes _)) (
          then-Writes
            (write_each-Writes one_time_bytes encode_one_time encode_one_time-Writes
              s.classical_one_time)
            (then-Writes (with_value-Writes push_u16 (ground arith) (push_u16-Writes _)) (
              then-Writes
                (write_each-Writes one_time_bytes encode_one_time encode_one_time-Writes
                  s.pq_one_time)
                (encode_pending-Writes s.pending hp))))))

  write_fields-Writes : Writes (write_fields s) (state_bytes s)
  unfolding write_fields
  write_fields-Writes = then-Writes (extend-Writes _) (
      then-Writes (extend-Writes _) (
        then-Writes (push_u32-Writes _) (
          then-Writes (push_u32-Writes _) (
            then-Writes (push_u32-Writes _) (
              then-Writes (push_u32-Writes _) (
                then-Writes (extend-Writes _) (
                  then-Writes (extend-Writes _) (
                    then-Writes (extend-Writes _) (
                      then-Writes (extend-Writes _) (
                        then-Writes (encode_signed-Writes s.current_classical) (
                          then-Writes (encode_signed-Writes s.current_pq)
                            (then-Writes (extend-Writes _) write_stores-Writes))))))))))))

  -- A state of few keys is written as its layout.
  pub write_state-layout : written_by (write_state s) ≡ ok (state_bytes s)
  unfolding write_state reserve ◌>>◌
  write_state-layout = written_by-Writes write_fields-Writes
