-- ===== src/Prekey/Typed.antt =====
-- prekey_state.rs: well-formed states, and the size of the stored form. A well-formed state has byte
-- strings of the sizes of their arrays and integers of their widths, and besides what the decoder asks
-- of it: an account that is not all zeros, identifiers of keys up to 2^31 - 1, and a pending batch of a
-- known kind; its projection has at most the size of the largest one.
use communication_platform.Base.{
  ℕ, ◌+◌, ◌*◌, ◌^◌, ◌≤◌, ◌<◌, ◌≡◌, ◌⊎◌, false, Option, none, some, List, [], ◌∷◌, ◌++◌, length,
  length-append, All, arith,
}
use communication_platform.Base.Bytes.{Bytes, to_be_bytes, length-to_be_bytes, is_zero}
use communication_platform.Protocol.Framing.{max_input_bytes}
use communication_platform.Protocol.Reads.{frame}
use communication_platform.Protocol.Repeat.{bytes_of_all}
use communication_platform.Prekey.{
  SignedKey, RetiredSignedPair, OneTimeKey, PendingUpload, DeviceState, key_id_max,
  upload_replenish, upload_rotation, max_retired_signed_pairs, max_classical_one_time,
  max_pq_one_time,
}
use communication_platform.Prekey.Layout.{
  signed_bytes, retired_bytes, one_time_bytes, pending_bytes, stores_bytes, fields_bytes,
  state_bytes, IsFramed,
}

pub record IsSignedKey (public_bytes secret_bytes : ℕ) (key : SignedKey) : Type 0 where
  pub id_fits : key.id ≤ key_id_max
  pub day_fits : key.created_day < 256 ^ 4
  pub public_size : length key.public ≡ public_bytes
  pub signature_size : length key.signature ≡ 64
  pub secret_size : length key.secret ≡ secret_bytes

pub record IsRetiredPair (pair : RetiredSignedPair) : Type 0 where
  pub day_fits : pair.retain_through_day < 256 ^ 4
  pub classical_typed : IsSignedKey 32 32 pair.classical
  pub pq_typed : IsSignedKey 1184 2400 pair.pq

pub record IsOneTimeKey (public_bytes secret_bytes : ℕ) (key : OneTimeKey) : Type 0 where
  pub id_fits : key.id ≤ key_id_max
  pub public_size : length key.public ≡ public_bytes
  pub secret_size : length key.secret ≡ secret_bytes

-- The size of a replenishment of 200 X25519 keys and 100 ML-KEM keys, the largest projection.
abbrev pub max_projection_bytes : ℕ
max_projection_bytes = 126033

pub record IsUpload (pending : PendingUpload) : Type 0 where
  pub kind_known : (pending.kind ≡ upload_replenish) ⊎ (pending.kind ≡ upload_rotation)
  pub batch_id_size : length pending.batch_id ≡ 16
  pub projection_fits : length pending.exact_projection ≤ max_projection_bytes

abbrev pub IsPending : Option PendingUpload → Type 0
IsPending none = Unit {0}
IsPending (some pending) = IsUpload pending

pub record IsTyped (s : DeviceState) : Type 0 where
  pub user_id_size : length s.user_id ≡ 16
  pub user_id_nonzero : is_zero s.user_id ≡ false
  pub registration_fits : s.registration_id < 256 ^ 4
  pub signing_public_size : length s.device_signing_public ≡ 32
  pub identity_public_size : length s.identity_public ≡ 32
  pub signing_secret_size : length s.device_signing_secret ≡ 32
  pub identity_secret_size : length s.identity_secret ≡ 32
  pub classical_typed : IsSignedKey 32 32 s.current_classical
  pub pq_typed : IsSignedKey 1184 2400 s.current_pq
  pub cross_signature_size : length s.cross_signature ≡ 64
  pub retired_typed : All IsRetiredPair s.retired
  pub classical_keys_typed : All (IsOneTimeKey 32 32) s.classical_one_time
  pub pq_keys_typed : All (IsOneTimeKey 1184 2400) s.pq_one_time
  pub pending_typed : IsPending s.pending

length-signed_bytes :
    (a b : ℕ) (key : SignedKey) → IsSignedKey a b key → length (signed_bytes key) ≡ 72 + (a + b)
length-signed_bytes a b key t = omega (
  arith,
  t.public_size,
  t.signature_size,
  t.secret_size,
  length-to_be_bytes 4 key.id,
  length-to_be_bytes 4 key.created_day,
  length-append (to_be_bytes 4 key.id)
      (to_be_bytes 4 key.created_day ++ (key.public ++ (key.signature ++ key.secret))),
  length-append (to_be_bytes 4 key.created_day) (key.public ++ (key.signature ++ key.secret)),
  length-append key.public (key.signature ++ key.secret),
  length-append key.signature key.secret,
)

length-retired_bytes :
    (pair : RetiredSignedPair) → IsRetiredPair pair → length (retired_bytes pair) ≡ 3796
length-retired_bytes pair t = omega (
  arith,
  length-signed_bytes 32 32 pair.classical t.classical_typed,
  length-signed_bytes 1184 2400 pair.pq t.pq_typed,
  length-to_be_bytes 4 pair.retain_through_day,
  length-append (to_be_bytes 4 pair.retain_through_day)
      (signed_bytes pair.classical ++ signed_bytes pair.pq),
  length-append (signed_bytes pair.classical) (signed_bytes pair.pq),
)

length-one_time_bytes :
    (a b : ℕ) (key : OneTimeKey) → IsOneTimeKey a b key → length (one_time_bytes key) ≡ 4 + (a + b)
length-one_time_bytes a b key t = omega (
  arith,
  t.public_size,
  t.secret_size,
  length-to_be_bytes 4 key.id,
  length-append (to_be_bytes 4 key.id) (key.public ++ key.secret),
  length-append key.public key.secret,
)

pub length-bytes_of_all :
    {A : Type 0} (layout : A → Bytes) (P : A → Type 0) (size : ℕ)
    → ((value : A) → P value → length (layout value) ≡ size)
    → (values : List A) → All P values
    → length (bytes_of_all layout values) ≡ length values * size
length-bytes_of_all layout P size each [] h = omega arith
length-bytes_of_all layout P size each (value ∷ values) h = ground (
  arith,
  length-append (layout value) (bytes_of_all layout values),
  each value h.0,
  length-bytes_of_all layout P size each values h.1,
)

length-pending_bytes :
    (o : Option PendingUpload) → IsPending o → length (pending_bytes o) ≤ max_projection_bytes + 22
length-pending_bytes none t = omega arith
length-pending_bytes (some pending) t = omega (
  arith,
  t.batch_id_size,
  t.projection_fits,
  length-append pending.batch_id (frame pending.exact_projection),
  length-append (to_be_bytes 4 (length pending.exact_projection)) pending.exact_projection,
  length-to_be_bytes 4 (length pending.exact_projection),
)

pub IsPending-IsFramed : (o : Option PendingUpload) → IsPending o → IsFramed o
IsPending-IsFramed none t = tt
IsPending-IsFramed (some pending) t = omega (arith, t.projection_fits)

length-stores_bytes :
    (s : DeviceState)
    → IsTyped s
    → length s.retired ≤ max_retired_signed_pairs
    → length s.classical_one_time ≤ max_classical_one_time
    → length s.pq_one_time ≤ max_pq_one_time
    → length (stores_bytes s) ≤ 1025768
length-stores_bytes s t hr hc hq = omega (
  arith,
  length-bytes_of_all retired_bytes IsRetiredPair 3796 length-retired_bytes s.retired
      t.retired_typed,
  length-bytes_of_all one_time_bytes (IsOneTimeKey 32 32) 68 (length-one_time_bytes 32 32)
      s.classical_one_time t.classical_keys_typed,
  length-bytes_of_all one_time_bytes (IsOneTimeKey 1184 2400) 3588 (length-one_time_bytes 1184 2400)
      s.pq_one_time t.pq_keys_typed,
  length-pending_bytes s.pending t.pending_typed,
  length-to_be_bytes 2 (length s.classical_one_time),
  length-to_be_bytes 2 (length s.pq_one_time),
  length-append (bytes_of_all retired_bytes s.retired) (
      to_be_bytes 2 (length s.classical_one_time)
      ++ (bytes_of_all one_time_bytes s.classical_one_time
          ++ (to_be_bytes 2 (length s.pq_one_time)
              ++ (bytes_of_all one_time_bytes s.pq_one_time ++ pending_bytes s.pending)))),
  length-append (to_be_bytes 2 (length s.classical_one_time)) (
      bytes_of_all one_time_bytes s.classical_one_time
      ++ (to_be_bytes 2 (length s.pq_one_time)
          ++ (bytes_of_all one_time_bytes s.pq_one_time ++ pending_bytes s.pending))),
  length-append (bytes_of_all one_time_bytes s.classical_one_time) (
      to_be_bytes 2 (length s.pq_one_time)
      ++ (bytes_of_all one_time_bytes s.pq_one_time ++ pending_bytes s.pending)),
  length-append (to_be_bytes 2 (length s.pq_one_time))
      (bytes_of_all one_time_bytes s.pq_one_time ++ pending_bytes s.pending),
  length-append (bytes_of_all one_time_bytes s.pq_one_time) (pending_bytes s.pending),
)

-- A chain of two is as long as its parts: for sums over a layout.
pub length-then :
    (xs ys : Bytes) {a b : ℕ} → length xs ≡ a → length ys ≤ b → length (xs ++ ys) ≤ a + b
length-then xs ys h k = omega (arith, length-append xs ys)

-- The stored form, with its tag of 32 bytes, is within the bound on inputs.
pub length-state_bytes :
    (s : DeviceState)
    → IsTyped s
    → length s.retired ≤ max_retired_signed_pairs
    → length s.classical_one_time ≤ max_classical_one_time
    → length s.pq_one_time ≤ max_pq_one_time
    → length (state_bytes s) + 32 ≤ max_input_bytes
length-state_bytes s t hr hc hq =
    let total : length (fields_bytes s) ≤ 1029784 = length-then s.user_id _ t.user_id_size (
      length-then (to_be_bytes 4 s.registration_id) _ (length-to_be_bytes 4 _) (
        length-then (to_be_bytes 4 s.bundle_version) _ (length-to_be_bytes 4 _) (
          length-then (to_be_bytes 4 s.next_classical_one_time_id) _ (length-to_be_bytes 4 _) (
            length-then (to_be_bytes 4 s.next_pq_one_time_id) _ (length-to_be_bytes 4 _) (
              length-then s.device_signing_public _ t.signing_public_size (
                length-then s.identity_public _ t.identity_public_size (
                  length-then s.device_signing_secret _ t.signing_secret_size (
                    length-then s.identity_secret _ t.identity_secret_size (
                      length-then (signed_bytes s.current_classical) _
                        (length-signed_bytes 32 32 s.current_classical t.classical_typed)
                        (length-then (signed_bytes s.current_pq) _
                          (length-signed_bytes 1184 2400 s.current_pq t.pq_typed)
                          (length-then s.cross_signature _ t.cross_signature_size
                            (length-stores_bytes s t hr hc hq)))))))))))) in
    omega arith
