-- ===== src/Prekey/RotationSpec.antt =====
-- prekey_state.rs: what a rotation is to do, in numbers of days and bytes. It uses the encoders of
-- device_signatures.rs, the parser of the identity package and the primitives, and none of the
-- helpers of `prepare_rotation`.
use communication_platform.Base.{
  ℕ, ◌+◌, ◌^◌, ◌≤◌, ◌<◌, ◌≡◌, ◌≢◌, ◌⊎◌, none, some, List, [], ◌∷◌, ◌++◌, length, Result,
  CryptoError, ok, err, state_violation,
}
use communication_platform.Base.Bytes.{Bytes, to_be_bytes}
use communication_platform.Provider.{KeyProvider}
use communication_platform.DeviceSignatures.{encode_cross_signature}
use communication_platform.Prekey.{
  SignedKey, RetiredSignedPair, PendingUpload, DeviceState, ik_public, upload_magic,
}
use communication_platform.Prekey.Identity.{parse_self_signing_secret}
use communication_platform.Prekey.Replenish.{Upload}
use communication_platform.Prekey.Rotation.{Replacement}
use communication_platform.Prekey.Rotated.{IsClassical, IsPq}

-- The key was made at least seven days before; the last day of `u32` always counts as such.
abbrev pub IsOld : ℕ → SignedKey → Type 0
IsOld day key = (key.created_day + 7 ≤ day) ⊎ (4294967295 ≤ day)

abbrev pub IsDue : ℕ → DeviceState → Type 0
IsDue day s = IsOld day s.current_classical × IsOld day s.current_pq

-- The eighth day after `day`, or the last day of `u32` where there is no such day.
abbrev pub IsEighth : ℕ → ℕ → Type 0
IsEighth day through =
    ((day + 8 < 2 ^ 32) × (through ≡ day + 8)) ⊎ ((2 ^ 32 ≤ day + 8) × (through ≡ 4294967295))

-- `left` are the pairs that are still retained on `day`, in their order.
pub data Retained (day : ℕ) : List RetiredSignedPair → List RetiredSignedPair → Type 0 where
  none_left : Retained day [] []
  kept :
      {pair : RetiredSignedPair} {pairs left : List RetiredSignedPair}
      → day ≤ pair.retain_through_day
      → Retained day pairs left
      → Retained day (pair ∷ pairs) (pair ∷ left)
  dropped :
      {pair : RetiredSignedPair} {pairs left : List RetiredSignedPair}
      → pair.retain_through_day < day
      → Retained day pairs left
      → Retained day (pair ∷ pairs) left

-- The bytes that publish the new keys.
abbrev pub rotation_bytes : Bytes → Replacement → Bytes
rotation_bytes batch_id new =
    upload_magic
    ++ (batch_id
        ++ ((2 ∷ [])
            ++ (to_be_bytes 4 new.bundle_version
                ++ (to_be_bytes 4 new.classical.id
                    ++ (new.classical.public
                        ++ (new.classical.signature
                            ++ (to_be_bytes 4 new.pq.id
                                ++ (new.pq.public
                                    ++ (new.pq.signature ++ new.cross_signature)))))))))

module _ {E : Type 0} (p : KeyProvider E) (identity_package device_id : Bytes) (day : ℕ)
    (s : DeviceState) where
  -- The new keys are of the next identifiers and of this day, and the account's key of the identity
  -- package signs the device's next bundle with them.
  pub record IsNew (new : Replacement) : Type 0 where
    pub classical : IsClassical p day s (s.current_classical.id + 1) new.classical
    pub pq : IsPq p day s (s.current_pq.id + 1) new.pq
    pub next_version : new.bundle_version ≡ s.bundle_version + 1
    pub in_range :
        (new.classical.id ≤ 2147483647) × (new.pq.id ≤ 2147483647) × (new.bundle_version < 2 ^ 32)
    pub self_signing_secret : Bytes
    pub parsed : parse_self_signing_secret p identity_package s.user_id ≡ ok self_signing_secret
    pub cross_signed :
        (message : Bytes) × (encode_cross_signature (record {
          user_id = s.user_id;
          device_id = device_id;
          ik_public = ik_public s;
          spk_id = s.current_classical.id + 1;
          spk_public = new.classical.public;
          pq_signed_prekey = some (record { id = s.current_pq.id + 1; public = new.pq.public });
          registration_id = s.registration_id;
          bundle_version = s.bundle_version + 1;
        })
          ≡ ok message)
        × (p.signatures.ed25519_sign self_signing_secret message ≡ ok new.cross_signature)

  -- The device with the new keys: the pair that was current is the last of the retired ones, of
  -- which at most three are there, and is retained for eight days.
  pub record IsReplaced (new : Replacement) (d : DeviceState) : Type 0 where
    pub left : List RetiredSignedPair
    pub retained : Retained day s.retired left
    pub few : length left < 3
    pub through : ℕ
    pub eighth : IsEighth day through
    pub is_new : IsNew new
    pub replaced : d ≡ record s {
      current_classical = new.classical;
      current_pq = new.pq;
      retired =
          left
          ++ (record {
            retain_through_day = through;
            classical = s.current_classical;
            pq = s.current_pq;
          }
              ∷ []);
      bundle_version = s.bundle_version + 1;
      cross_signature = new.cross_signature;
    }

  -- The device with fewer retired pairs and nothing else changed.
  abbrev pub IsPruned : DeviceState → Type 0
  IsPruned d =
      (left : List RetiredSignedPair) × Retained day s.retired left
      × (d ≡ record s { retired = left })

  -- A rotation that is due fails, with the device pruned or with new keys, or returns a batch, which
  -- is pending over the new keys.
  abbrev pub Rotates : Result Upload → DeviceState → Type 0
  Rotates x d =
      (((e : CryptoError) × (x ≡ err e)) × (IsPruned d ⊎ ((new : Replacement) × IsReplaced new d)))
      ⊎ ((upload : Upload) × (x ≡ ok upload)
          × ((e : E) × ((p.random_bytes 16 e).0 ≡ ok upload.batch_id))
          × ((new : Replacement) × (rotation_bytes upload.batch_id new ≡ upload.projection)
              × ((base : DeviceState) × IsReplaced new base
                  × (d ≡ record base {
                    pending = some (record {
                      batch_id = upload.batch_id;
                      kind = 2;
                      exact_projection = upload.projection;
                    });
                  }))))

  -- What becomes of a rotation, by what is pending and by the age of the keys.
  abbrev pub IsRotated : Result Upload → DeviceState → Type 0
  IsRotated x d =
      ((pending : PendingUpload) × (s.pending ≡ some pending)
        × (d ≡ s)
        × (((pending.kind ≡ 2)
              × (x
                  ≡ ok (record {
                    batch_id = pending.batch_id;
                    projection = pending.exact_projection;
                  })))
            ⊎ ((pending.kind ≢ 2) × (x ≡ err state_violation))))
      ⊎ (((s.pending ≡ none) × (¬ IsDue day s) × (d ≡ s) × (x ≡ err state_violation))
          ⊎ ((s.pending ≡ none) × IsDue day s × Rotates x d))
