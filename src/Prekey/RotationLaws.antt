-- ===== src/Prekey/RotationLaws.antt =====
-- prekey_state.rs: the result and the state of each rotation, and that it keeps the invariant.
use communication_platform.Base.{
  ℕ, ◌≡◌, refl, sym, subst, if◌then◌else◌, ◌⊎◌, Option-cases, Bool, true, false, inl, inr, none,
  some, [], ◌∷◌, length-append, arith, Result, ok, err, state_violation,
}
use communication_platform.Base.Bytes.{Bytes}
use communication_platform.Provider.{KeyProvider}
use communication_platform.Prekey.{
  RetiredSignedPair, PendingUpload, DeviceState, prune_retired, is_rotation,
}
use communication_platform.Prekey.Operations.{World}
use communication_platform.Prekey.Replenish.{Upload}
use communication_platform.Prekey.Rotation.{
  saturating_add, Replacement, replace, too_early, rotate, rotate_pruned, prepare_rotation,
}
use communication_platform.Prekey.Ids.{Ascends-snoc}
use communication_platform.Prekey.Soundness.{IsSound, prune_retired-HasRoom}
use communication_platform.Prekey.Rotated.{Outcome, Follows, rotate_pruned-Outcome}

module _ {E : Type 0} (p : KeyProvider E) where
  -- What becomes of the device: it stays as it is, or the outcome is that of the pruned device.
  abbrev pub RotationResult : Bytes → Bytes → ℕ → DeviceState → Result Upload → DeviceState → Type 0
  RotationResult identity_package device_id day s x d =
      ((d ≡ s)
        × ((x ≡ err state_violation)
            ⊎ ((pending : PendingUpload) × (s.pending ≡ some pending)
                × (is_rotation pending ≡ true)
                × (x
                    ≡ ok (record {
                      batch_id = pending.batch_id;
                      projection = pending.exact_projection;
                    })))))
      ⊎ ((s.pending ≡ none)
          × (too_early day s ≡ false)
          × Outcome p identity_package device_id day (prune_retired day s) x d)

  pub prepare_rotation-busy :
      (identity_package device_id : Bytes) (day : ℕ) (w : World E) (pending : PendingUpload)
      → w.device.pending ≡ some pending
      → prepare_rotation p identity_package device_id day w ≡ (
        if is_rotation pending
            then ok (record { batch_id = pending.batch_id; projection = pending.exact_projection })
            else err state_violation,
        w,
      )
  unfolding prepare_rotation
  prepare_rotation-busy identity_package device_id day w pending busy = ground (arith, busy)

  pub prepare_rotation-free :
      (identity_package device_id : Bytes) (day : ℕ) (w : World E)
      → w.device.pending ≡ none
      → prepare_rotation p identity_package device_id day w
        ≡ rotate p identity_package device_id day w
  unfolding prepare_rotation
  prepare_rotation-free identity_package device_id day w free = ground (arith, free)

  pub rotate-early :
      (identity_package device_id : Bytes) (day : ℕ) (w : World E)
      → too_early day w.device ≡ true
      → rotate p identity_package device_id day w ≡ (err state_violation, w)
  unfolding rotate
  rotate-early identity_package device_id day w e = rw e refl

  pub rotate-due :
      (identity_package device_id : Bytes) (day : ℕ) (w : World E)
      → too_early day w.device ≡ false
      → rotate p identity_package device_id day w
        ≡ rotate_pruned p identity_package device_id day
            (prune_retired day w.device)
            (record w { device = prune_retired day w.device })
  unfolding rotate
  rotate-due identity_package device_id day w e = rw e refl

  module _ (identity_package device_id : Bytes) (day : ℕ) (w : World E) where
    abbrev IsResult : Result Upload × World E → Type 0
    IsResult q = RotationResult identity_package device_id day w.device q.0 q.1.device

    rotate-IsResult :
        w.device.pending ≡ none
        → (early : Bool) → too_early day w.device ≡ early
        → IsResult (rotate p identity_package device_id day w)
    unfolding rotate
    rotate-IsResult free true e = rw (e, rotate) (inl (refl, inl refl))
    rotate-IsResult free false e =
        let pruned = prune_retired day w.device in
        let t =
          (rotate_pruned-Outcome p identity_package device_id day pruned).holds
            (record w { device = pruned }) refl in
        inr (free, e, rw (e, rotate) t)

    held-IsResult :
        (pending : PendingUpload)
        → w.device.pending ≡ some pending
        → (held : Bool) → is_rotation pending ≡ held
        → IsResult (
          if held
              then ok
                  (record { batch_id = pending.batch_id; projection = pending.exact_projection })
              else err state_violation,
          w,
        )
    held-IsResult pending busy true e = inl (refl, inr (pending, busy, e, refl))
    held-IsResult pending busy false e = inl (refl, inl refl)

    -- A rotation is refused with `StateViolation` or returns the rotation that is pending, and
    -- changes nothing; or it was due with nothing pending, and either fails and leaves the pruned
    -- state or that state with new keys, or returns a batch that is pending over the new keys:
    -- they are numbered one further, made from the random source, signed by the device and, as a
    -- bundle of the next version, by the account, and the old pair is retired for eight days.
    pub prepare_rotation-IsResult : IsResult (prepare_rotation p identity_package device_id day w)
    prepare_rotation-IsResult = elim (Option-cases w.device.pending) [
      | inl free ↦
          subst IsResult (sym (prepare_rotation-free identity_package device_id day w free))
            (rotate-IsResult free (too_early day w.device) refl)
      | inr (pending, busy) ↦
          subst IsResult (sym (prepare_rotation-busy identity_package device_id day w pending busy))
            (held-IsResult pending busy (is_rotation pending) refl)
    ]

module _ {E : Type 0} (p : KeyProvider E) (base : DeviceState) where
  replace-IsSound :
      (identity_package device_id : Bytes) (day : ℕ) (new : Replacement) (s : DeviceState)
      → IsSound base s
      → Follows p identity_package device_id day s new
      → IsSound base (replace day new s)
  unfolding replace
  replace-IsSound identity_package device_id day new s h f =
      let made = f.replacement.made.numbered in
      let made_pq = f.replacement.made_pq.numbered in
      let versioned = f.replacement.versioned in
      let pair : RetiredSignedPair = record {
        retain_through_day = saturating_add day 8;
        classical = s.current_classical;
        pq = s.current_pq;
      } in
      record {
        classical_ascends = h.classical_ascends;
        pq_ascends = h.pq_ascends;
        classical_next = h.classical_next;
        pq_next = h.pq_next;
        classical_few = h.classical_few;
        pq_few = h.pq_few;
        retired_classical_ascends =
            Ascends-snoc (λ (pair : RetiredSignedPair). pair.classical.id) s.retired 0
              s.current_classical.id new.classical.id pair h.retired_classical_ascends (omega arith)
              (omega (arith, made));
        retired_pq_ascends =
            Ascends-snoc (λ (pair : RetiredSignedPair). pair.pq.id) s.retired 0 s.current_pq.id
              new.pq.id pair h.retired_pq_ascends (omega arith) (omega (arith, made_pq));
        retired_few = omega (arith, length-append s.retired (pair ∷ []), f.has_place);
        classical_id_fits = omega (arith, made, f.spk_fits);
        pq_id_fits = omega (arith, made_pq, f.pq_fits);
        classical_history = h.classical_history;
        pq_history = h.pq_history;
        version_grows = omega (arith, versioned, h.version_grows);
        version_positive = omega (arith, versioned);
        version_fits = omega (arith, versioned, f.version_fits);
      }

  -- A rotation keeps the invariant, with each of its results.
  pub prepare_rotation-IsSound :
      (identity_package device_id : Bytes) (day : ℕ) (w : World E)
      → IsSound base w.device
      → IsSound base (prepare_rotation p identity_package device_id day w).1.device
  prepare_rotation-IsSound identity_package device_id day w h =
      kept _ _ (prepare_rotation-IsResult p identity_package device_id day w)
    where
      pruned : IsSound base (prune_retired day w.device)
      pruned = prune_retired-HasRoom day w.device h

      kept :
          (x : Result Upload) (d : DeviceState)
          → RotationResult p identity_package device_id day w.device x d
          → IsSound base d
      kept x d (inl (same, rest)) = subst (IsSound base) (sym same) h
      kept x d (inr (free, due, inl (failed, same))) = subst (IsSound base) (sym same) pruned
      kept x d (inr (free, due, inr (new, follows, inl (failed, same)))) =
          subst (IsSound base) (sym same)
            (replace-IsSound identity_package device_id day new _ pruned follows)
      kept x d (inr (free, due, inr (new, follows, inr (upload, done, drawn, written, same)))) =
          let r = replace-IsSound identity_package device_id day new _ pruned follows in
          subst (IsSound base) (sym same) (ground (arith, r))
