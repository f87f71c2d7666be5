-- ===== src/Prekey/RoundTrip.antt =====
-- prekey_state.rs: the fields of a stored state are read back as they were.
use communication_platform.Base.{
  ℕ, ◌^◌, ◌≤◌, ◌<◌, ◌≡◌, subst, append_assoc, true, false, Option, none, some, List, ◌++◌, length,
  All, arith,
}
use communication_platform.Base.Bytes.{Bytes, to_be_bytes, bytes_eq_iff}
use communication_platform.Protocol.Framing.{Parser, ◌>>=◌, boolean}
use communication_platform.Protocol.Reads.{
  Reads, pure-Reads, bind-Reads, last-Reads, reject-Reads, pass-Reads, lift-Reads, take-Reads,
  array-Reads, u8-Reads, u16-Reads, u32-Reads, framed-Reads, boolean-Reads,
}
use communication_platform.Protocol.Repeat.{bytes_of_all, repeat-Reads}
use communication_platform.Prekey.{
  SignedKey, RetiredSignedPair, OneTimeKey, PendingUpload, DeviceState, key_id_max,
  max_retired_signed_pairs, max_classical_one_time, max_pq_one_time,
}
use communication_platform.Prekey.Checks.{valid_key_id}
use communication_platform.Prekey.CodecReader.{
  read_key_id, decode_signed, decode_classical_signed, decode_pq_signed, decode_retired,
  decode_one_time, counted, decode_upload, decode_pending, read_state, read_magic,
}
use communication_platform.Prekey.Layout.{
  signed_bytes, retired_bytes, one_time_bytes, pending_bytes, fields_bytes,
}
use communication_platform.Prekey.Typed.{
  IsSignedKey, IsRetiredPair, IsOneTimeKey, IsPending, IsTyped,
}

read_key_id-Reads : (id : ℕ) → id ≤ key_id_max → Reads read_key_id (to_be_bytes 4 id) id
unfolding read_key_id valid_key_id
read_key_id-Reads id h = last-Reads _ (u32-Reads id (omega arith)) (lift-Reads (ground arith))

decode_signed-Reads :
    (a b : ℕ) (key : SignedKey)
    → IsSignedKey a b key
    → Reads (decode_signed a b) (signed_bytes key) key
unfolding decode_signed
decode_signed-Reads a b key t = bind-Reads _ (read_key_id-Reads key.id t.id_fits) (
    bind-Reads _ (u32-Reads key.created_day t.day_fits) (
      bind-Reads _ (array-Reads key.public t.public_size) (
        bind-Reads _ (array-Reads key.signature t.signature_size)
          (last-Reads _ (array-Reads key.secret t.secret_size) (pure-Reads key)))))

decode_retired-Reads :
    (pair : RetiredSignedPair) → IsRetiredPair pair → Reads decode_retired (retired_bytes pair) pair
unfolding decode_retired decode_classical_signed decode_pq_signed
decode_retired-Reads pair t = bind-Reads _ (u32-Reads pair.retain_through_day t.day_fits) (
    bind-Reads _ (decode_signed-Reads 32 32 pair.classical t.classical_typed)
      (last-Reads _ (decode_signed-Reads 1184 2400 pair.pq t.pq_typed) (pure-Reads pair)))

decode_one_time-Reads :
    (a b : ℕ) (key : OneTimeKey)
    → IsOneTimeKey a b key
    → Reads (decode_one_time a b) (one_time_bytes key) key
unfolding decode_one_time
decode_one_time-Reads a b key t = bind-Reads _ (read_key_id-Reads key.id t.id_fits) (
    bind-Reads _ (array-Reads key.public t.public_size)
      (last-Reads _ (array-Reads key.secret t.secret_size) (pure-Reads key)))

counted-Reads :
    {A : Type 0} (layout : A → Bytes) (P : A → Type 0) {read_count : Parser ℕ} {p : Parser A}
    {xs : Bytes} (limit : ℕ) (values : List A)
    → Reads read_count xs (length values)
    → ((value : A) → P value → Reads p (layout value) value)
    → length values ≤ limit
    → All P values
    → Reads (counted read_count limit p) (xs ++ bytes_of_all layout values) values
unfolding counted
counted-Reads layout P {p = p} limit values c each l h =
    bind-Reads _ c (reject-Reads _ (ground arith) (repeat-Reads layout P p each values h))

-- The same, where more is read after the values.
counted_then-Reads :
    {A B : Type 0} (layout : A → Bytes) (P : A → Type 0) {read_count : Parser ℕ} {p : Parser A}
    {xs ys : Bytes} {b : B} (f : List A → Parser B) (limit : ℕ) (values : List A)
    → Reads read_count xs (length values)
    → ((value : A) → P value → Reads p (layout value) value)
    → length values ≤ limit
    → All P values
    → Reads (f values) ys b
    → Reads (counted read_count limit p >>= f) (xs ++ (bytes_of_all layout values ++ ys)) b
counted_then-Reads layout P {read_count} {p} {xs} {ys} {b} f limit values c each l h k =
    subst (λ zs. Reads (counted read_count limit p >>= f) zs b)
      (append_assoc xs (bytes_of_all layout values) ys)
      (bind-Reads f (counted-Reads layout P limit values c each l h) k)

decode_pending-Reads :
    (o : Option PendingUpload)
    → IsPending o
    → Reads (boolean >>= decode_pending) (pending_bytes o) o
unfolding decode_pending decode_upload
decode_pending-Reads none t = last-Reads decode_pending (boolean-Reads false) (pure-Reads none)
decode_pending-Reads (some pending) t = bind-Reads decode_pending (boolean-Reads true) (
    last-Reads _
      (bind-Reads _ (u8-Reads pending.kind) (
        reject-Reads _ (ground (arith, t.kind_known)) (
          bind-Reads _ (array-Reads pending.batch_id t.batch_id_size) (
            last-Reads _ (framed-Reads pending.exact_projection (omega (arith, t.projection_fits)))
              (pure-Reads pending)))))
      (pure-Reads (some pending)))

-- The counts and numbers that fit their fields.
pub record IsSized (s : DeviceState) : Type 0 where
  pub version_fits : s.bundle_version < 256 ^ 4
  pub classical_next_fits : s.next_classical_one_time_id < 256 ^ 4
  pub pq_next_fits : s.next_pq_one_time_id < 256 ^ 4
  pub retired_few : length s.retired ≤ max_retired_signed_pairs
  pub classical_few : length s.classical_one_time ≤ max_classical_one_time
  pub pq_few : length s.pq_one_time ≤ max_pq_one_time

pub read_state-Reads :
    (s : DeviceState) → IsTyped s → IsSized s → Reads read_state (fields_bytes s) s
unfolding read_state decode_classical_signed decode_pq_signed
read_state-Reads s t z = bind-Reads _ (array-Reads s.user_id t.user_id_size) (
    bind-Reads _ (u32-Reads s.registration_id t.registration_fits) (
      bind-Reads _ (u32-Reads s.bundle_version z.version_fits) (
        bind-Reads _ (u32-Reads s.next_classical_one_time_id z.classical_next_fits) (
          bind-Reads _ (u32-Reads s.next_pq_one_time_id z.pq_next_fits) (
            bind-Reads _ (array-Reads s.device_signing_public t.signing_public_size) (
              bind-Reads _ (array-Reads s.identity_public t.identity_public_size) (
                bind-Reads _ (array-Reads s.device_signing_secret t.signing_secret_size) (
                  bind-Reads _ (array-Reads s.identity_secret t.identity_secret_size) (
                    bind-Reads _ (decode_signed-Reads 32 32 s.current_classical t.classical_typed) (
                      bind-Reads _ (decode_signed-Reads 1184 2400 s.current_pq t.pq_typed) (
                        bind-Reads _ (array-Reads s.cross_signature t.cross_signature_size) (
                          counted_then-Reads retired_bytes IsRetiredPair _ max_retired_signed_pairs
                            s.retired (u8-Reads (length s.retired)) decode_retired-Reads
                            z.retired_few t.retired_typed
                            (counted_then-Reads one_time_bytes (IsOneTimeKey 32 32) _
                              max_classical_one_time s.classical_one_time
                              (u16-Reads (length s.classical_one_time)
                                (omega (arith, z.classical_few)))
                              (decode_one_time-Reads 32 32) z.classical_few t.classical_keys_typed
                              (counted_then-Reads one_time_bytes (IsOneTimeKey 1184 2400) _
                                max_pq_one_time s.pq_one_time
                                (u16-Reads (length s.pq_one_time) (omega (arith, z.pq_few)))
                                (decode_one_time-Reads 1184 2400) z.pq_few t.pq_keys_typed
                                (last-Reads _ (decode_pending-Reads s.pending t.pending_typed)
                                  (pure-Reads s))))))))))))))))

pub read_magic-Reads : (magic : Bytes) → length magic ≡ 8 → Reads (read_magic magic) magic tt
unfolding read_magic
read_magic-Reads magic h =
    last-Reads _ (take-Reads magic h) (pass-Reads _ (ground (arith, bytes_eq_iff magic magic)))
