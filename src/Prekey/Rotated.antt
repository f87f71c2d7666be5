-- ===== src/Prekey/Rotated.antt =====
-- prekey_state.rs: what a rotation makes, and what can become of it after the pruning.
use communication_platform.Base.{
  ℕ, ◌+◌, ◌<◌, ◌≡◌, refl, ap, ◌⊎◌, inl, inr, some, length, leb, arith, Result, ok, err, false,
  CryptoError, resource_exhausted,
}
use communication_platform.Base.Bytes.{Bytes}
use communication_platform.Provider.{KeyProvider}
use communication_platform.Protocol.Writing.{written_by}
use communication_platform.DeviceSignatures.{
  encode_signed_prekey, encode_pq_signed_prekey, encode_cross_signature,
}
use communication_platform.Prekey.{
  SignedKey, DeviceState, key_id_max, max_retired_signed_pairs, upload_rotation, u32_end,
}
use communication_platform.Prekey.Checks.{signed_prekey}
use communication_platform.Prekey.Operations.{◌>>=◌}
use communication_platform.Prekey.Replenish.{Upload, keep_pending}
use communication_platform.Prekey.Rotation.{
  Replacement, next_signed_id, next_numbers, rotated_bundle, make_classical, make_pq,
  make_replacement, replace, publish_rotation, rotate_pruned, write_rotation,
}
use communication_platform.Prekey.Identity.{parse_self_signing_secret}
use communication_platform.Prekey.Triples.{
  Triple, modify-Triple, bind-Triple, attempt-cases, sample-cases, fail_if-cases, Gives,
  attempt-Gives, sample-Gives, return-Gives, bind-Gives,
}

module _ {E : Type 0} (p : KeyProvider E) where
  -- A key drawn from the random source, with its public key and the device's signature over it.
  pub record IsClassical (coarse_day : ℕ) (s : DeviceState) (spk_id : ℕ) (key : SignedKey)
      : Type 0 where
    pub numbered : key.id ≡ spk_id
    pub dated : key.created_day ≡ coarse_day
    pub drawn : (e : E) × ((p.random_bytes 32 e).0 ≡ ok key.secret)
    pub public : p.x25519_public key.secret ≡ ok key.public
    pub signed :
        (message : Bytes) × (encode_signed_prekey (signed_prekey s.user_id spk_id key.public)
          ≡ ok message)
        × (p.signatures.ed25519_sign s.device_signing_secret message ≡ ok key.signature)

  pub record IsPq (coarse_day : ℕ) (s : DeviceState) (pq_id : ℕ) (key : SignedKey) : Type 0 where
    pub numbered : key.id ≡ pq_id
    pub dated : key.created_day ≡ coarse_day
    pub paired : (e : E) × ((p.mlkem768_keypair e).0 ≡ ok (key.public, key.secret))
    pub signed :
        (message : Bytes) × (encode_pq_signed_prekey (signed_prekey s.user_id pq_id key.public)
          ≡ ok message)
        × (p.signatures.ed25519_sign s.device_signing_secret message ≡ ok key.signature)

  -- The new keys, numbered and dated as asked, and the account's signature over the new bundle.
  pub record IsReplacement (self_signing_secret device_id : Bytes) (coarse_day : ℕ)
      (s : DeviceState) (spk_id pq_id bundle_version : ℕ) (new : Replacement) : Type 0 where
    pub made : IsClassical coarse_day s spk_id new.classical
    pub made_pq : IsPq coarse_day s pq_id new.pq
    pub versioned : new.bundle_version ≡ bundle_version
    pub cross_signed :
        (message : Bytes) × (encode_cross_signature (
            rotated_bundle s device_id spk_id new.classical.public pq_id new.pq.public
              bundle_version)
          ≡ ok message)
        × (p.signatures.ed25519_sign self_signing_secret message ≡ ok new.cross_signature)

  module _ (coarse_day : ℕ) (s : DeviceState) where
    make_classical-Gives :
        (spk_id : ℕ) (P : DeviceState → Type 0)
        → Triple P
            (make_classical p coarse_day s spk_id)
            (Gives P (IsClassical coarse_day s spk_id))
    unfolding make_classical
    make_classical-Gives spk_id P =
        let Good = IsClassical coarse_day s spk_id in
        sample-Gives P Good (p.random_bytes 32) λ secret e h1.
          attempt-Gives P Good (p.x25519_public secret) λ public h2.
            attempt-Gives P Good (encode_signed_prekey (signed_prekey s.user_id spk_id public))
              λ message h3.
                attempt-Gives P Good (p.signatures.ed25519_sign s.device_signing_secret message)
                  λ signature h4. return-Gives P Good _ (record {
                    numbered = refl;
                    dated = refl;
                    drawn = (e, h1);
                    public = h2;
                    signed = (message, h3, h4);
                  })

    make_pq-Gives :
        (pq_id : ℕ) (P : DeviceState → Type 0)
        → Triple P (make_pq p coarse_day s pq_id) (Gives P (IsPq coarse_day s pq_id))
    unfolding make_pq
    make_pq-Gives pq_id P =
        let Good = IsPq coarse_day s pq_id in
        sample-Gives P Good p.mlkem768_keypair λ pair e h1.
          attempt-Gives P Good (encode_pq_signed_prekey (signed_prekey s.user_id pq_id pair.0))
            λ message h2.
              attempt-Gives P Good (p.signatures.ed25519_sign s.device_signing_secret message)
                λ signature h3. return-Gives P Good _ (record {
                  numbered = refl;
                  dated = refl;
                  paired = (e, h1);
                  signed = (message, h2, h3);
                })

    make_replacement-Gives :
        (self_signing_secret device_id : Bytes) (spk_id pq_id bundle_version : ℕ)
        (P : DeviceState → Type 0)
        → Triple P
            (make_replacement p self_signing_secret device_id coarse_day s spk_id pq_id
              bundle_version)
            (Gives P (
              IsReplacement self_signing_secret device_id coarse_day s spk_id pq_id bundle_version))
    unfolding make_replacement
    make_replacement-Gives self_signing_secret device_id spk_id pq_id bundle_version P =
        let Good =
          IsReplacement self_signing_secret device_id coarse_day s spk_id pq_id bundle_version in
        bind-Gives P _ Good _ _ (make_classical-Gives spk_id P) λ classical h1.
          bind-Gives P _ Good _ _ (make_pq-Gives pq_id P) λ pq h2.
            attempt-Gives P Good
              (encode_cross_signature
                (rotated_bundle s device_id spk_id classical.public pq_id pq.public bundle_version))
              λ message h3.
                attempt-Gives P Good (p.signatures.ed25519_sign self_signing_secret message)
                  λ signature h4. return-Gives P Good _ (record {
                    made = h1;
                    made_pq = h2;
                    versioned = refl;
                    cross_signed = (message, h3, h4);
                  })

  abbrev pub Failed : Result Upload → Type 0
  Failed x = (e : CryptoError) × (x ≡ err e)

  -- The state with a batch that is to be uploaded.
  abbrev pub with_batch : Upload → DeviceState → DeviceState
  with_batch upload s = record s {
    pending = some (record {
      batch_id = upload.batch_id;
      kind = upload_rotation;
      exact_projection = upload.projection;
    });
  }

  module _ (identity_package device_id : Bytes) (coarse_day : ℕ) (s : DeviceState) where
    -- The keys that follow those of `s`, made with room for the pair that they retire.
    pub record Follows (new : Replacement) : Type 0 where
      pub has_place : length s.retired < max_retired_signed_pairs
      pub spk_fits : s.current_classical.id < key_id_max
      pub pq_fits : s.current_pq.id < key_id_max
      pub version_fits : s.bundle_version + 1 < u32_end
      pub self_signing_secret : Bytes
      pub parsed : parse_self_signing_secret p identity_package s.user_id ≡ ok self_signing_secret
      pub replacement :
          IsReplacement self_signing_secret device_id coarse_day s
            (s.current_classical.id + 1)
            (s.current_pq.id + 1)
            (s.bundle_version + 1)
            new

    -- A rotation changes nothing, or puts new keys in place, and with them a batch if it succeeds.
    abbrev pub Outcome : Result Upload → DeviceState → Type 0
    Outcome x d =
        (Failed x × (d ≡ s))
        ⊎ ((new : Replacement) × Follows new
            × ((Failed x × (d ≡ replace coarse_day new s))
                ⊎ ((upload : Upload) × (x ≡ ok upload)
                    × ((e : E) × ((p.random_bytes 16 e).0 ≡ ok upload.batch_id))
                    × (written_by (write_rotation upload.batch_id new) ≡ ok upload.projection)
                    × (d ≡ with_batch upload (replace coarse_day new s)))))

    publish_rotation-Outcome :
        (new : Replacement)
        → Follows new
        → Triple {E = E} (λ d. d ≡ s) (publish_rotation p coarse_day new) Outcome
    unfolding publish_rotation keep_pending
    publish_rotation-Outcome new follows =
        bind-Triple _ _ (λ x d. d ≡ placed) Outcome
          (modify-Triple (λ d. d ≡ placed) (replace coarse_day new)
            (λ d h. ap (replace coarse_day new) h))
          (λ u.
            sample-cases _ Outcome (p.random_bytes 16)
              (λ batch_id e drawn.
                attempt-cases {f = keep_pending upload_rotation batch_id} _ Outcome
                  (written_by (write_rotation batch_id new))
                  (λ projection written. record {
                    holds = λ w h.
                        let upload : Upload = record {
                          batch_id = batch_id;
                          projection = projection;
                        } in
                        inr (
                          new,
                          follows,
                          inr (upload, refl, (e, drawn), written, ap (with_batch upload) h),
                        );
                  })
                  failed)
              failed)
          failed
      where
        placed : DeviceState
        placed = replace coarse_day new s

        failed : (e : CryptoError) (d : DeviceState) → d ≡ placed → Outcome (err e) d
        failed e d h = inr (new, follows, inl ((e, refl), h))

    next_numbers-ok :
        {spk_id pq_id bundle_version : ℕ}
        → next_numbers s ≡ ok (spk_id, pq_id, bundle_version)
        → ((spk_id ≡ s.current_classical.id + 1) × (s.current_classical.id < key_id_max))
          × ((pq_id ≡ s.current_pq.id + 1) × (s.current_pq.id < key_id_max))
          × ((bundle_version ≡ s.bundle_version + 1) × (s.bundle_version + 1 < u32_end))
    unfolding next_numbers next_signed_id
    next_numbers-ok h = ground arith

    -- All cases of a rotation whose retired pairs are pruned.
    pub rotate_pruned-Outcome :
        Triple {E = E}
          (λ d. d ≡ s)
          (rotate_pruned p identity_package device_id coarse_day s)
          Outcome
    unfolding rotate_pruned
    rotate_pruned-Outcome =
        fail_if-cases _ Outcome (leb max_retired_signed_pairs (length s.retired)) resource_exhausted
          (λ place.
            attempt-cases _ Outcome (parse_self_signing_secret p identity_package s.user_id)
              (λ self_signing_secret parsed.
                attempt-cases _ Outcome (next_numbers s)
                  (λ numbers next. replaced place self_signing_secret parsed numbers next) same)
              same)
          (same resource_exhausted)
      where
        same : (e : CryptoError) (d : DeviceState) → d ≡ s → Outcome (err e) d
        same e d h = inl ((e, refl), h)

        replaced :
            leb max_retired_signed_pairs (length s.retired) ≡ false
            → (self_signing_secret : Bytes)
            → parse_self_signing_secret p identity_package s.user_id ≡ ok self_signing_secret
            → (numbers : ℕ × ℕ × ℕ) → next_numbers s ≡ ok numbers
            → Triple {E = E}
                (λ d. d ≡ s)
                (make_replacement p self_signing_secret device_id coarse_day s numbers.0 numbers.1
                    numbers.2
                  >>= λ new. publish_rotation p coarse_day new)
                Outcome
        replaced place secret parsed (a, b, v) next =
            let ((ea, fa), (eb, fb), (ev, fv)) = next_numbers-ok next in
            bind-Triple _ _
              (Gives (λ d. d ≡ s)
                (IsReplacement secret device_id coarse_day s (s.current_classical.id + 1)
                  (s.current_pq.id + 1) (s.bundle_version + 1)))
              Outcome
              (rw (ea, eb, ev)
                (make_replacement-Gives coarse_day s secret device_id (s.current_classical.id + 1)
                  (s.current_pq.id + 1) (s.bundle_version + 1) (λ d. d ≡ s)))
              (λ new. record {
                holds = λ w h.
                    (publish_rotation-Outcome new (record {
                      has_place = ground arith;
                      spk_fits = fa;
                      pq_fits = fb;
                      version_fits = fv;
                      self_signing_secret = secret;
                      parsed = parsed;
                      replacement = h.1;
                    })).holds
                      w h.0;
              })
              same
