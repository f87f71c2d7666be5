-- ===== src/Prekey/RotationCases.antt =====
-- prekey_state.rs: `prepare_rotation` against what RotationSpec.antt says of a rotation.
use communication_platform.Base.{
  ℕ, ◌≡◌, refl, sym, ap, subst, ◌∙◌, inl, inr, Bool-cases, Option-cases, false, none, some, List,
  [], ◌∷◌, ==_iff, leb, arith, Result, ok, err, state_violation,
}
use communication_platform.Base.Bytes.{Bytes}
use communication_platform.Provider.{KeyProvider}
use communication_platform.Protocol.Writing.{written_by-Writes}
use communication_platform.Prekey.{
  ik_public, RetiredSignedPair, PendingUpload, DeviceState, prune_retired, retain_through,
  is_rotation,
}
use communication_platform.Prekey.Operations.{World}
use communication_platform.Prekey.Replenish.{Upload}
use communication_platform.Prekey.Rotation.{
  saturating_add, Replacement, replace, too_early, prepare_rotation,
}
use communication_platform.Prekey.Rotated.{Outcome, Follows, rotate_pruned-Outcome}
use communication_platform.Prekey.RotationLaws.{
  prepare_rotation-busy, prepare_rotation-free, rotate-early, rotate-due,
}
use communication_platform.Prekey.RotationSpec.{
  IsDue, IsEighth, Retained, none_left, kept, dropped, rotation_bytes, IsNew, IsReplaced, Rotates,
  IsRotated,
}
use communication_platform.Prekey.RotationLayout.{write_rotation-Writes}

pub retain_through-Retained :
    (day : ℕ) (pairs : List RetiredSignedPair) → Retained day pairs (retain_through day pairs)
unfolding retain_through
retain_through-Retained day [] = none_left
retain_through-Retained day (pair ∷ pairs) = elim (Bool-cases (leb day pair.retain_through_day)) [
  | inl e ↦ rw e (kept (ground arith) (retain_through-Retained day pairs))
  | inr e ↦ rw e (dropped (ground arith) (retain_through-Retained day pairs))
]

saturating_add-IsEighth : (day : ℕ) → IsEighth day (saturating_add day 8)
saturating_add-IsEighth day = ground arith

IsDue-too_early : (day : ℕ) (s : DeviceState) → too_early day s ≡ false → IsDue day s
unfolding too_early
IsDue-too_early day s e = ground arith

pub too_early-IsDue : (day : ℕ) (s : DeviceState) → IsDue day s → too_early day s ≡ false
unfolding too_early
too_early-IsDue day s h = ground arith

module _ {E : Type 0} (p : KeyProvider E) (identity_package device_id : Bytes) (day : ℕ)
    (s : DeviceState) where
  Follows-IsNew :
      (new : Replacement)
      → Follows p identity_package device_id day (prune_retired day s) new
      → IsNew p identity_package device_id day s new
  unfolding prune_retired ik_public
  Follows-IsNew new f =
      let made = f.replacement.made in
      let made_pq = f.replacement.made_pq in
      record {
        classical = record {
          numbered = made.numbered;
          dated = made.dated;
          drawn = made.drawn;
          public = made.public;
          signed = made.signed;
        };
        pq = record {
          numbered = made_pq.numbered;
          dated = made_pq.dated;
          paired = made_pq.paired;
          signed = made_pq.signed;
        };
        next_version = f.replacement.versioned;
        in_range = (
          omega (arith, made.numbered, f.spk_fits),
          omega (arith, made_pq.numbered, f.pq_fits),
          omega (arith, f.replacement.versioned, f.version_fits),
        );
        self_signing_secret = f.self_signing_secret;
        parsed = f.parsed;
        cross_signed = f.replacement.cross_signed;
      }

  replace-IsReplaced :
      (new : Replacement)
      → Follows p identity_package device_id day (prune_retired day s) new
      → IsReplaced p identity_package device_id day s new (replace day new (prune_retired day s))
  unfolding prune_retired replace
  replace-IsReplaced new f = record {
    left = retain_through day s.retired;
    retained = retain_through-Retained day s.retired;
    few = f.has_place;
    through = saturating_add day 8;
    eighth = saturating_add-IsEighth day;
    is_new = Follows-IsNew new f;
    replaced =
        ap (λ version. record (replace day new (prune_retired day s)) { bundle_version = version })
          f.replacement.versioned;
  }

  Outcome-Rotates :
      (x : Result Upload) (d : DeviceState)
      → Outcome p identity_package device_id day (prune_retired day s) x d
      → Rotates p identity_package device_id day s x d
  unfolding prune_retired
  Outcome-Rotates x d (inl (failed, same)) =
      inl (failed, inl (retain_through day s.retired, retain_through-Retained day s.retired, same))
  Outcome-Rotates x d (inr (new, follows, inl (failed, same))) = inl (
    failed,
    inr (
      new,
      subst (IsReplaced p identity_package device_id day s new) (sym same)
          (replace-IsReplaced new follows),
    ),
  )
  Outcome-Rotates x d (inr (new, follows, inr (upload, done, drawn, written, same))) =
      let bytes : rotation_bytes upload.batch_id new ≡ upload.projection =
        let w = written_by-Writes (write_rotation-Writes upload.batch_id new) in
        cc (sym w ∙ written) in
      inr (upload, done, drawn, (new, bytes, (_, replace-IsReplaced new follows, same)))

module _ {E : Type 0} (p : KeyProvider E) (identity_package device_id : Bytes) (day : ℕ)
    (w : World E) where
  abbrev Meets : Result Upload × World E → Type 0
  Meets q = IsRotated p identity_package device_id day w.device q.0 q.1.device

  busy_case :
      (pending : PendingUpload)
      → w.device.pending ≡ some pending
      → Meets (prepare_rotation p identity_package device_id day w)
  unfolding is_rotation
  busy_case pending busy =
      let e = prepare_rotation-busy p identity_package device_id day w pending busy in
      elim (Bool-cases (is_rotation pending)) [
        | inl held ↦
            let q : prepare_rotation p identity_package device_id day w ≡ (
              ok (record { batch_id = pending.batch_id; projection = pending.exact_projection }),
              w,
            ) =
              e ∙ rw held refl in
            subst Meets (sym q) (inl (pending, busy, refl, inl ((==_iff _ _).0 held, refl)))
        | inr other ↦
            let q : prepare_rotation p identity_package device_id day w ≡ (err state_violation, w) =
              e ∙ rw other refl in
            subst Meets (sym q)
              (inl (pending, busy, refl, inr (λ same. absurd (differs pending same other), refl)))
      ]
    where
      differs : (pending : PendingUpload) → pending.kind ≡ 2 → is_rotation pending ≡ false → ⊥
      differs pending same other = ground (arith, same)

  free_case : w.device.pending ≡ none → Meets (prepare_rotation p identity_package device_id day w)
  free_case free =
      let e = prepare_rotation-free p identity_package device_id day w free in
      elim (Bool-cases (too_early day w.device)) [
        | inl early ↦
            subst Meets (sym (e ∙ rotate-early p identity_package device_id day w early)) (
              inr (
                inl (
                  free,
                  λ due. absurd (cc (sym early ∙ too_early-IsDue day w.device due)),
                  refl,
                  refl,
                )))
        | inr late ↦ subst Meets (sym (e ∙ rotate-due p identity_package device_id day w late)) (
            inr (
              inr (
                free,
                IsDue-too_early day w.device late,
                Outcome-Rotates p identity_package device_id day w.device _ _ (
                    (rotate_pruned-Outcome p identity_package device_id day
                        (prune_retired day w.device)).holds
                      (record w { device = prune_retired day w.device }) refl),
              )))
      ]

  -- With a batch pending, a rotation changes nothing: it returns the batch if that is a rotation, and
  -- is a StateViolation else. With none pending, where one of the current keys is less than seven
  -- days old and it is not the last day of `u32`, it is a StateViolation that changes nothing. In
  -- all other cases it drops the retired pairs whose last day has passed, and fails with no further
  -- change or with new keys in place, or succeeds with the batch that it returns pending over the
  -- new keys. These have the next identifiers and this day, come from the random source, and are
  -- signed by the device and, as its bundle of the next version, by the account; the old pair is
  -- retained through the eighth day after, or the last of `u32`, with at most two others.
  pub prepare_rotation-cases : Meets (prepare_rotation p identity_package device_id day w)
  prepare_rotation-cases = elim (Option-cases w.device.pending) [
    | inl free ↦ free_case free
    | inr (pending, busy) ↦ busy_case pending busy
  ]
