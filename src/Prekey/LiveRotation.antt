-- ===== src/Prekey/LiveRotation.antt =====
-- prekey_state.rs: a rotation keeps a device live, with each of its results.
use communication_platform.Base.{
  ℕ, ◌+◌, ◌^◌, ◌≤◌, ◌<◌, ◌≡◌, refl, sym, subst, ◌∙◌, inl, inr, [], ◌∷◌, length, take-length, arith,
  Result, ok, refuse-eq-ok, not, false, true, Bool,
}
use communication_platform.Base.Bytes.{
  Bytes, bytes_eq, bytes_eq_iff, to_be_bytes, length-to_be_bytes,
}
use communication_platform.Provider.{KeyProvider}
use communication_platform.Protocol.Writing.{written_by, written_by-Writes}
use communication_platform.DeviceSignatures.{
  from_halves, device_signing_public, encode_signed_prekey, encode_pq_signed_prekey,
}
use communication_platform.Prekey.{
  SignedKey, RetiredSignedPair, DeviceState, ik_public, prune_retired, upload_magic,
  upload_rotation, key_id_max,
}
use communication_platform.Prekey.Checks.{
  check_verifying_key, validate_classical_signed, validate_pq_signed, signed_prekey,
}
use communication_platform.Prekey.Operations.{World}
use communication_platform.Prekey.Replenish.{Upload}
use communication_platform.Prekey.Rotation.{
  saturating_add, Replacement, replace, write_rotation, prepare_rotation,
}
use communication_platform.Prekey.RotationSpec.{rotation_bytes}
use communication_platform.Prekey.RotationLayout.{write_rotation-Writes}
use communication_platform.Prekey.Typed.{
  IsSignedKey, IsRetiredPair, max_projection_bytes, length-then,
}
use communication_platform.Prekey.Live.{IsLive, IsValidPair, All-snoc, prune_retired-IsLive}
use communication_platform.Prekey.LiveKeys.{IsHonest, matching, embedded}
use communication_platform.Prekey.LiveUploads.{set_pending-IsLive}
use communication_platform.Prekey.Rotated.{IsClassical, IsPq, Follows, with_batch}
use communication_platform.Prekey.RotationLaws.{RotationResult, prepare_rotation-IsResult}

length-rotation_bytes :
    (batch_id : Bytes) (new : Replacement)
    → length batch_id ≡ 16
    → IsSignedKey 32 32 new.classical
    → IsSignedKey 1184 2400 new.pq
    → length new.cross_signature ≡ 64
    → length (rotation_bytes batch_id new) ≤ max_projection_bytes
length-rotation_bytes batch_id new hb hc hq hx =
    let signed : length new.cross_signature ≤ 64 = omega arith in
    let total : length (rotation_bytes batch_id new) ≤ 1445 = length-then upload_magic _ refl (
      length-then batch_id _ hb (
        length-then (upload_rotation ∷ []) _ refl (
          length-then (to_be_bytes 4 new.bundle_version) _ (length-to_be_bytes 4 _) (
            length-then (to_be_bytes 4 new.classical.id) _ (length-to_be_bytes 4 _) (
              length-then new.classical.public _ hc.public_size (
                length-then new.classical.signature _ hc.signature_size (
                  length-then (to_be_bytes 4 new.pq.id) _ (length-to_be_bytes 4 _) (
                    length-then new.pq.public _ hq.public_size
                      (length-then new.pq.signature _ hq.signature_size signed))))))))) in
    omega arith

module _ {E : Type 0} (p : KeyProvider E) (honest : IsHonest p) where
  -- The key under which the device's signatures verify.
  signing_key :
      (s : DeviceState)
      → IsLive p s
      → device_signing_public (ik_public s) ≡ p.verifying_key s.device_signing_secret
  unfolding device_signing_public ik_public from_halves check_verifying_key
  signing_key s h =
      rw h.typed.signing_public_size at (take-length s.device_signing_public s.identity_public)
      ∙ sym (
          (bytes_eq_iff _ _).0
            (not_false _ (refuse-eq-ok (not (bytes_eq _ s.device_signing_public)) _ h.signing)))
    where
      not_false : (b : Bool) → not b ≡ false → b ≡ true
      not_false true e = refl
      not_false false e = cc

  verified :
      (s : DeviceState) (message signature : Bytes)
      → IsLive p s
      → p.signatures.ed25519_sign s.device_signing_secret message ≡ ok signature
      → p.signatures.ed25519_verify (device_signing_public (ik_public s)) message signature ≡ ok tt
  verified s message signature h e =
      subst (λ key. p.signatures.ed25519_verify key message signature ≡ ok tt)
        (sym (signing_key s h)) (honest.signs s.device_signing_secret message signature e).1

  module _ (day : ℕ) (s : DeviceState) (live : IsLive p s) (id : ℕ) (key : SignedKey) where
    classical-IsSignedKey :
        day < 256 ^ 4 → id ≤ key_id_max → IsClassical p day s id key → IsSignedKey 32 32 key
    classical-IsSignedKey dated fits c = record {
      id_fits = omega (arith, c.numbered);
      day_fits = omega (arith, c.dated);
      public_size = honest.sized key.secret key.public c.public;
      signature_size = (honest.signs _ c.signed.0 _ c.signed.2).0;
      secret_size = honest.draws 32 c.drawn.0 key.secret c.drawn.1;
    }

    pq-IsSignedKey :
        day < 256 ^ 4 → id ≤ key_id_max → IsPq p day s id key → IsSignedKey 1184 2400 key
    pq-IsSignedKey dated fits c =
        let t = honest.pairs c.paired.0 key.public key.secret c.paired.1 in
        record {
          id_fits = omega (arith, c.numbered);
          day_fits = omega (arith, c.dated);
          public_size = t.0;
          signature_size = (honest.signs _ c.signed.0 _ c.signed.2).0;
          secret_size = t.1;
        }

    classical-valid :
        IsClassical p day s id key → validate_classical_signed p (ik_public s) s.user_id key ≡ ok tt
    unfolding validate_classical_signed
    classical-valid c =
        let written =
          subst (λ n. encode_signed_prekey (signed_prekey s.user_id n key.public) ≡ ok c.signed.0)
            (sym c.numbered) c.signed.1 in
        rw (matching p honest key.secret key.public c.public, written)
          (verified s c.signed.0 key.signature live c.signed.2)

    pq-valid : IsPq p day s id key → validate_pq_signed p (ik_public s) s.user_id key ≡ ok tt
    unfolding validate_pq_signed
    pq-valid c =
        let written =
          subst
            (λ n. encode_pq_signed_prekey (signed_prekey s.user_id n key.public) ≡ ok c.signed.0)
            (sym c.numbered) c.signed.1 in
        rw
          (
            embedded p honest key.secret key.public
                (honest.pairs c.paired.0 key.public key.secret c.paired.1).2,
            written,
          )
          (verified s c.signed.0 key.signature live c.signed.2)

  module _ (identity_package device_id : Bytes) (day : ℕ) (dated : day < 256 ^ 4)
      (new : Replacement) (s : DeviceState) (live : IsLive p s)
      (follows : Follows p identity_package device_id day s new) where
    classical_made : IsClassical p day s (s.current_classical.id + 1) new.classical
    classical_made = follows.replacement.made

    pq_made : IsPq p day s (s.current_pq.id + 1) new.pq
    pq_made = follows.replacement.made_pq

    new_classical-IsSignedKey : IsSignedKey 32 32 new.classical
    new_classical-IsSignedKey =
        classical-IsSignedKey day s live _ new.classical dated (omega (arith, follows.spk_fits))
          classical_made

    new_pq-IsSignedKey : IsSignedKey 1184 2400 new.pq
    new_pq-IsSignedKey =
        pq-IsSignedKey day s live _ new.pq dated (omega (arith, follows.pq_fits)) pq_made

    cross_signature_size : length new.cross_signature ≡ 64
    cross_signature_size = let t = follows.replacement.cross_signed in (honest.signs _ t.0 _ t.2).0

    retired_pair : RetiredSignedPair
    retired_pair = record {
      retain_through_day = saturating_add day 8;
      classical = s.current_classical;
      pq = s.current_pq;
    }

    retired_pair-IsRetiredPair : IsRetiredPair retired_pair
    unfolding retired_pair
    retired_pair-IsRetiredPair = record {
      day_fits = ground arith;
      classical_typed = live.typed.classical_typed;
      pq_typed = live.typed.pq_typed;
    }

    -- The new keys are valid, and so is the retired pair, which was current.
    replace-IsLive : IsLive p (replace day new s)
    unfolding replace ik_public retired_pair
    replace-IsLive = ground (
      arith,
      live,
      new_classical-IsSignedKey,
      new_pq-IsSignedKey,
      cross_signature_size,
      classical-valid day s live _ new.classical classical_made,
      pq-valid day s live _ new.pq pq_made,
      All-snoc IsRetiredPair s.retired retired_pair live.typed.retired_typed
          retired_pair-IsRetiredPair,
      All-snoc (IsValidPair p (ik_public s) s.user_id) s.retired retired_pair live.retired_valid
          (record { classical_valid = live.classical_valid; pq_valid = live.pq_valid }),
    )

    rotation_fits :
        (batch_id projection : Bytes)
        → length batch_id ≡ 16
        → written_by (write_rotation batch_id new) ≡ ok projection
        → length projection ≤ max_projection_bytes
    rotation_fits batch_id projection sized e =
        let w = written_by-Writes (write_rotation-Writes batch_id new) in
        let same : rotation_bytes batch_id new ≡ projection = cc (sym w ∙ e) in
        subst (λ xs. length xs ≤ max_projection_bytes) same
          (length-rotation_bytes batch_id new sized new_classical-IsSignedKey new_pq-IsSignedKey
            cross_signature_size)

    with_batch-IsLive :
        (upload : Upload)
        → length upload.batch_id ≡ 16
        → written_by (write_rotation upload.batch_id new) ≡ ok upload.projection
        → IsLive p (with_batch p upload (replace day new s))
    with_batch-IsLive upload sized written =
        set_pending-IsLive p _ (replace day new s) replace-IsLive (record {
          kind_known = inr refl;
          batch_id_size = sized;
          projection_fits = rotation_fits upload.batch_id upload.projection sized written;
        })

  -- A rotation on a day of `u32` keeps a device live, with each of its results.
  pub prepare_rotation-IsLive :
      (identity_package device_id : Bytes) (day : ℕ) (w : World E)
      → day < 256 ^ 4
      → IsLive p w.device
      → IsLive p (prepare_rotation p identity_package device_id day w).1.device
  prepare_rotation-IsLive identity_package device_id day w dated h =
      kept _ _ (prepare_rotation-IsResult p identity_package device_id day w)
    where
      pruned : IsLive p (prune_retired day w.device)
      pruned = prune_retired-IsLive p day w.device h

      kept :
          (x : Result Upload) (d : DeviceState)
          → RotationResult p identity_package device_id day w.device x d
          → IsLive p d
      kept x d (inl (same, rest)) = subst (IsLive p) (sym same) h
      kept x d (inr (free, due, inl (failed, same))) = subst (IsLive p) (sym same) pruned
      kept x d (inr (free, due, inr (new, follows, inl (failed, same)))) =
          subst (IsLive p) (sym same)
            (replace-IsLive identity_package device_id day dated new _ pruned follows)
      kept x d (inr (free, due, inr (new, follows, inr (upload, done, drawn, written, same)))) =
          subst (IsLive p) (sym same) (
            with_batch-IsLive identity_package device_id day dated new _ pruned follows upload
              (honest.draws 16 drawn.0 upload.batch_id drawn.1) written)
