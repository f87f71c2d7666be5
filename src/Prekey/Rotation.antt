-- ===== src/Prekey/Rotation.antt =====
-- prekey_state.rs: `prepare_rotation`, which replaces the signed prekeys and retires the old pair.
use communication_platform.Base.{
  ℕ, ◌+◌, Bool, ◌||◌, none, some, [], ◌∷◌, ◌++◌, length, leb, ltb, if◌then◌else◌, Result, ok, err,
  ok_or, state_violation, resource_exhausted, ◌>>=◌ as bind_result,
}
use communication_platform.Base.Bytes.{Bytes}
use communication_platform.Provider.{KeyProvider}
use communication_platform.Protocol.Framing.{checked_add}
use communication_platform.Protocol.Writing.{Writer, extend, push_u32, written_by, ◌>>◌ as followed}
use communication_platform.DeviceSignatures.{
  DeviceBundle, encode_cross_signature, encode_signed_prekey, encode_pq_signed_prekey,
}
use communication_platform.Prekey.{
  SignedKey, DeviceState, ik_public, is_rotation, prune_retired, key_id_max, u32_end, u32_max,
  upload_magic, upload_rotation, max_retired_signed_pairs,
}
use communication_platform.Prekey.Checks.{signed_prekey}
use communication_platform.Prekey.Operations.{
  Operation, ◌>>=◌, ◌>>◌, return, attempt, fail_if, modify, sample,
}
use communication_platform.Prekey.Replenish.{Upload, keep_pending}
use communication_platform.Prekey.Identity.{parse_self_signing_secret}

-- `a.saturating_add(b)` on `u32`.
abbrev pub saturating_add : ℕ → ℕ → ℕ
saturating_add a b = if ltb (a + b) u32_end then a + b else u32_max

-- `id.checked_add(1).filter(|id| *id <= KEY_ID_MAX).ok_or(StateViolation)`
unfoldable pub next_signed_id : ℕ → Result ℕ
next_signed_id id =
    bind_result (ok_or (checked_add u32_end id 1) state_violation)
      λ next. if leb next key_id_max then ok next else err state_violation

-- The pair is younger than seven days.
unfoldable pub too_early : ℕ → DeviceState → Bool
too_early coarse_day s =
    ltb coarse_day (saturating_add s.current_classical.created_day 7)
    || ltb coarse_day (saturating_add s.current_pq.created_day 7)

-- The replaced keys, and what was made for them.
pub record Replacement : Type 0 where
  pub classical : SignedKey
  pub pq : SignedKey
  pub bundle_version : ℕ
  pub cross_signature : Bytes

-- The old pair is retained for eight days after the rotation.
unfoldable pub replace : ℕ → Replacement → DeviceState → DeviceState
replace coarse_day new s = record s {
  current_classical = new.classical;
  current_pq = new.pq;
  retired =
      s.retired
      ++ (record {
        retain_through_day = saturating_add coarse_day 8;
        classical = s.current_classical;
        pq = s.current_pq;
      }
          ∷ []);
  bundle_version = new.bundle_version;
  cross_signature = new.cross_signature;
}

unfoldable pub write_rotation : Bytes → Replacement → Writer
write_rotation batch_id new = followed (extend upload_magic) (
    followed (extend batch_id) (
      followed (extend (upload_rotation ∷ [])) (
        followed (push_u32 new.bundle_version) (
          followed (push_u32 new.classical.id) (
            followed (extend new.classical.public) (
              followed (extend new.classical.signature) (
                followed (push_u32 new.pq.id) (
                  followed (extend new.pq.public)
                    (followed (extend new.pq.signature) (extend new.cross_signature))))))))))

-- The bundle that the account's self-signing key signs.
abbrev pub rotated_bundle : DeviceState → Bytes → ℕ → Bytes → ℕ → Bytes → ℕ → DeviceBundle
rotated_bundle s device_id spk_id spk_public pq_id pq_public bundle_version = record {
  user_id = s.user_id;
  device_id = device_id;
  ik_public = ik_public s;
  spk_id = spk_id;
  spk_public = spk_public;
  pq_signed_prekey = some (record { id = pq_id; public = pq_public });
  registration_id = s.registration_id;
  bundle_version = bundle_version;
}

-- The three numbers of the next bundle.
unfoldable pub next_numbers : DeviceState → Result (ℕ × ℕ × ℕ)
next_numbers s = bind_result (next_signed_id s.current_classical.id) λ spk_id.
    bind_result (next_signed_id s.current_pq.id) λ pq_id.
      bind_result (ok_or (checked_add u32_end s.bundle_version 1) state_violation)
        λ bundle_version. ok (spk_id, pq_id, bundle_version)

module _ {E : Type 0} (p : KeyProvider E) where
  -- The next X25519 key, which the device's key signs.
  unfoldable pub make_classical : ℕ → DeviceState → ℕ → Operation E SignedKey
  make_classical coarse_day s spk_id = do
    secret ← sample (p.random_bytes 32)
    public ← attempt (p.x25519_public secret)
    message ← attempt (encode_signed_prekey (signed_prekey s.user_id spk_id public))
    signature ← attempt (p.signatures.ed25519_sign s.device_signing_secret message)
    return (record {
      id = spk_id;
      created_day = coarse_day;
      public = public;
      signature = signature;
      secret = secret;
    })

  -- The next ML-KEM key, likewise.
  unfoldable pub make_pq : ℕ → DeviceState → ℕ → Operation E SignedKey
  make_pq coarse_day s pq_id = do
    pair ← sample p.mlkem768_keypair
    message ← attempt (encode_pq_signed_prekey (signed_prekey s.user_id pq_id pair.0))
    signature ← attempt (p.signatures.ed25519_sign s.device_signing_secret message)
    return (record {
      id = pq_id;
      created_day = coarse_day;
      public = pair.0;
      signature = signature;
      secret = pair.1;
    })

  -- The keys and signatures of the next bundle; the device's state is read and not changed.
  unfoldable pub make_replacement :
      Bytes → Bytes → ℕ → DeviceState → ℕ → ℕ → ℕ → Operation E Replacement
  make_replacement self_signing_secret device_id coarse_day s spk_id pq_id bundle_version = do
    classical ← make_classical coarse_day s spk_id
    pq ← make_pq coarse_day s pq_id
    cross_bytes ← attempt (
        encode_cross_signature
          (rotated_bundle s device_id spk_id classical.public pq_id pq.public bundle_version))
    cross_signature ← attempt (p.signatures.ed25519_sign self_signing_secret cross_bytes)
    return (record {
      classical = classical;
      pq = pq;
      bundle_version = bundle_version;
      cross_signature = cross_signature;
    })

  -- The replacement in place, and the batch that publishes it.
  unfoldable pub publish_rotation : ℕ → Replacement → Operation E Upload
  publish_rotation coarse_day new = do
    modify (replace coarse_day new)
    batch_id ← sample (p.random_bytes 16)
    projection ← attempt (written_by (write_rotation batch_id new))
    keep_pending upload_rotation batch_id projection

  -- The rotation after the retired pairs are pruned, from the state `s` that is left.
  unfoldable pub rotate_pruned : Bytes → Bytes → ℕ → DeviceState → Operation E Upload
  rotate_pruned identity_package device_id coarse_day s = do
    fail_if (leb max_retired_signed_pairs (length s.retired)) resource_exhausted
    self_signing_secret ← attempt (parse_self_signing_secret p identity_package s.user_id)
    numbers ← attempt (next_numbers s)
    new ← make_replacement self_signing_secret device_id coarse_day s numbers.0 numbers.1 numbers.2
    publish_rotation coarse_day new

  -- The rotation where nothing is pending.
  unfoldable pub rotate : Bytes → Bytes → ℕ → Operation E Upload
  rotate identity_package device_id coarse_day w =
      (do
        fail_if (too_early coarse_day w.device) state_violation
        modify (prune_retired coarse_day)
        rotate_pruned identity_package device_id coarse_day (prune_retired coarse_day w.device))
        w

  unfoldable pub prepare_rotation : Bytes → Bytes → ℕ → Operation E Upload
  prepare_rotation identity_package device_id coarse_day w = elim w.device.pending [
    | some pending ↦ (
      if is_rotation pending
          then ok (record { batch_id = pending.batch_id; projection = pending.exact_projection })
          else err state_violation,
      w,
    )
    | none ↦ rotate identity_package device_id coarse_day w
  ]
