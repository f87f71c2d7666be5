-- ===== src/Prekey/Retries.antt =====
-- prekey_state.rs: uploads that are prepared again, committed, and one-time keys that are consumed.
use communication_platform.Base.{
  ℕ, ◌-◌, ◌≡◌, ◌≢◌, inl, inr, refl, sym, ap, ◌∙◌, subst, true, List, ◌⊎◌, none, some, ok, err,
  Result, state_violation, invalid_argument, arith, Bool-cases, Option-cases, ◌==◌, if◌then◌else◌,
}
use communication_platform.Base.Bytes.{Bytes, bytes_eq, bytes_eq_iff}
use communication_platform.Provider.{KeyProvider}
use communication_platform.Protocol.Writing.{written_by}
use communication_platform.Prekey.{
  DeviceState, PendingUpload, classical_one_time, consume_classical_one_time, position_id,
  is_rotation, upload_replenish, upload_rotation, remove_at,
}
use communication_platform.Prekey.Operations.{World, commit_pending_upload, fail_if, sample, modify}
use communication_platform.Prekey.Replenish.{
  Upload, Generated, too_many, check_room, generate, generate_classical, generate_pq, sort_one_time,
  keep_pending, publish, replenish, prepare_replenishment, write_replenishment,
}
use communication_platform.Prekey.Rotation.{prepare_rotation}
use communication_platform.Prekey.Ids.{mark, find_id-remove_at, position_id-none}
use communication_platform.Prekey.Soundness.{IsSound}
use communication_platform.Prekey.RotationLaws.{
  RotationResult, prepare_rotation-busy, prepare_rotation-IsResult,
}
use communication_platform.Prekey.Triples.{Triple, skip-Triple, attempt-cases}

-- A successful operation leaves its batch pending.
abbrev pub Holds : ℕ → Result Upload → DeviceState → Type 0
Holds kind (ok upload) s =
    s.pending
    ≡ some
        (record { batch_id = upload.batch_id; kind = kind; exact_projection = upload.projection })
Holds kind (err e) s = Unit {0}

keep_pending-Holds :
    {E : Type 0} (kind : ℕ) (batch_id projection : Bytes)
    → Triple {E = E} (λ s. Unit {0}) (keep_pending kind batch_id projection) (Holds kind)
unfolding keep_pending
keep_pending-Holds kind batch_id projection = record { holds = λ w h. refl }

publish-Holds :
    {E : Type 0} (batch_id : Bytes) (classical pq : List Generated)
    → Triple {E = E} (λ s. Unit {0}) (publish batch_id classical pq) (Holds upload_replenish)
unfolding publish
publish-Holds batch_id classical pq = record {
  holds = λ w.
      (attempt-cases {f = keep_pending upload_replenish batch_id} (λ s. Unit {0})
          (Holds upload_replenish)
          (written_by (write_replenishment batch_id w.device.bundle_version classical pq))
          (λ projection e. keep_pending-Holds upload_replenish batch_id projection)
          (λ e s h. tt)).holds
        w;
}

module _ {E : Type 0} (p : KeyProvider E) where
  replenish-Holds :
      (sc sq tc tq : ℕ) → Triple (λ s. Unit {0}) (replenish p sc sq tc tq) (Holds upload_replenish)
  unfolding replenish
  replenish-Holds sc sq tc tq =
      skip-Triple (fail_if (too_many sc sq tc tq) invalid_argument) _ (Holds upload_replenish)
        (λ u1.
          skip-Triple (check_room (tc - sc) (tq - sq)) _ (Holds upload_replenish)
            (λ u2.
              skip-Triple (sample (p.random_bytes 16)) _ (Holds upload_replenish)
                (λ batch_id.
                  skip-Triple (generate (tc - sc) (generate_classical p)) _ (Holds upload_replenish)
                    (λ classical.
                      skip-Triple (generate (tq - sq) (generate_pq p)) _ (Holds upload_replenish)
                        (λ pq.
                          skip-Triple (modify sort_one_time) _ (Holds upload_replenish)
                            (λ u3. publish-Holds batch_id classical pq) (λ e s. tt))
                        (λ e s. tt))
                    (λ e s. tt))
                (λ e s. tt))
            (λ e s. tt))
        (λ e s. tt)

  prepare_replenishment-busy :
      (sc sq tc tq : ℕ) (w : World E) (pending : PendingUpload)
      → w.device.pending ≡ some pending
      → prepare_replenishment p sc sq tc tq w
        ≡ (ok (record { batch_id = pending.batch_id; projection = pending.exact_projection }), w)
  unfolding prepare_replenishment
  prepare_replenishment-busy sc sq tc tq w pending busy = ground (arith, busy)

  prepare_replenishment-free :
      (sc sq tc tq : ℕ) (w : World E)
      → w.device.pending ≡ none
      → prepare_replenishment p sc sq tc tq w ≡ replenish p sc sq tc tq w
  unfolding prepare_replenishment
  prepare_replenishment-free sc sq tc tq w free = ground (arith, free)

  -- When a replenishment succeeds, every further one, whatever the counts and targets, returns the
  -- same batch and projection and changes nothing, the random source included.
  pub prepare_replenishment-retry :
      (sc sq tc tq sc' sq' tc' tq' : ℕ) (w v : World E) (upload : Upload)
      → prepare_replenishment p sc sq tc tq w ≡ (ok upload, v)
      → prepare_replenishment p sc' sq' tc' tq' v ≡ (ok upload, v)
  prepare_replenishment-retry sc sq tc tq sc' sq' tc' tq' w v upload g =
      elim (Option-cases w.device.pending) [
        | inl free ↦
            let s : replenish p sc sq tc tq w ≡ (ok upload, v) =
              sym (prepare_replenishment-free sc sq tc tq w free) ∙ g in
            prepare_replenishment-busy sc' sq' tc' tq' v _ (
              subst (λ q. Holds upload_replenish q.0 q.1.device) s
                ((replenish-Holds sc sq tc tq).holds w tt))
        | inr (pending, busy) ↦
            let s = sym (prepare_replenishment-busy sc sq tc tq w pending busy) ∙ g in
            subst (λ x. prepare_replenishment p sc' sq' tc' tq' x ≡ (ok upload, v))
              (ap (λ q. q.1) s) (prepare_replenishment-busy sc' sq' tc' tq' w pending busy ∙ s)
      ]

  rotation_ok :
      (identity_package device_id : Bytes) (day : ℕ) (s d : DeviceState) (upload : Upload)
      → RotationResult p identity_package device_id day s (ok upload) d
      → (pending : PendingUpload) × (d.pending ≡ some pending)
        × (is_rotation pending ≡ true)
        × (upload ≡ record { batch_id = pending.batch_id; projection = pending.exact_projection })
  unfolding is_rotation
  rotation_ok identity_package device_id day s d upload (inl (same, inl refused)) = cc
  rotation_ok identity_package device_id day s d upload
        (inl (same, inr (pending, busy, rotation, result))) =
      (pending, ap (λ x. x.pending) same ∙ busy, rotation, cc)
  rotation_ok identity_package device_id day s d upload (inr (free, due, inl ((e, failed), same))) =
      cc
  rotation_ok identity_package device_id day s d upload
        (inr (free, due, inr (new, follows, inl ((e, failed), same)))) =
      cc
  rotation_ok identity_package device_id day s d upload
        (inr (free, due, inr (new, follows, inr (made, done, drawn, written, same)))) =
      (
        record {
          batch_id = made.batch_id;
          kind = upload_rotation;
          exact_projection = made.projection;
        },
        ap (λ x. x.pending) same,
        refl,
        cc,
      )

  -- When a rotation succeeds, every further one, whatever its arguments, returns the same batch and
  -- projection and changes nothing, the random source included.
  pub prepare_rotation-retry :
      (identity_package device_id identity_package' device_id' : Bytes) (day day' : ℕ)
      (w v : World E) (upload : Upload)
      → prepare_rotation p identity_package device_id day w ≡ (ok upload, v)
      → prepare_rotation p identity_package' device_id' day' v ≡ (ok upload, v)
  prepare_rotation-retry identity_package device_id identity_package' device_id' day day' w v upload
        g =
      let (pending, busy, rotation, same) =
        rotation_ok identity_package device_id day w.device v.device upload (
          subst (λ q. RotationResult p identity_package device_id day w.device q.0 q.1.device) g
            (prepare_rotation-IsResult p identity_package device_id day w)) in
      prepare_rotation-busy p identity_package' device_id' day' v pending busy
      ∙ rw (rotation, same) refl

-- A commit succeeds exactly when a batch with that identifier is pending; then nothing is pending and
-- the rest is as it was, and otherwise it is a `StateViolation` that changes nothing.
pub commit_pending_upload-cases :
    (batch_id : Bytes) (s : DeviceState)
    → (((pending : PendingUpload) × (s.pending ≡ some pending) × (pending.batch_id ≡ batch_id))
        × (commit_pending_upload batch_id s ≡ (ok tt, record s { pending = none })))
      ⊎ (((pending : PendingUpload) → s.pending ≡ some pending → pending.batch_id ≢ batch_id)
          × (commit_pending_upload batch_id s ≡ (err state_violation, s)))
unfolding commit_pending_upload
commit_pending_upload-cases batch_id s = elim (Option-cases s.pending) [
  | inl free ↦ inr (λ pending busy. cc, ground (arith, free))
  | inr (pending, busy) ↦ elim (Bool-cases (bytes_eq pending.batch_id batch_id)) [
    | inl equal ↦ inl (
      (pending, busy, (bytes_eq_iff pending.batch_id batch_id).0 equal),
      ground (arith, busy, equal),
    )
    | inr other ↦ inr (
      λ pending' busy' e.
          absurd (ground (arith, busy, busy', bytes_eq_iff pending.batch_id batch_id, e)),
      ground (arith, busy, other),
    )
  ]
]

-- In a state with the invariant, an X25519 one-time key is consumed exactly when it is there; then it is gone
-- and each other key is found as before, and otherwise it is a `StateViolation` that changes nothing.
pub consume_classical_one_time-cases :
    {base : DeviceState} (id : ℕ) (s : DeviceState)
    → IsSound base s
    → ((classical_one_time id s ≡ none)
        × (consume_classical_one_time id s ≡ (err state_violation, s)))
      ⊎ ((left : DeviceState) × (consume_classical_one_time id s ≡ (ok tt, left))
          × (classical_one_time id s ≢ none)
          × ((other : ℕ)
              → classical_one_time other left
                ≡ (if other == id then none else classical_one_time other s)))
unfolding consume_classical_one_time classical_one_time
consume_classical_one_time-cases id s h =
    elim (Option-cases (position_id id s.classical_one_time)) [
      | inl missing ↦
          inl (position_id-none id s.classical_one_time missing, ground (arith, missing))
      | inr (position, found) ↦
          let (there, others) =
            find_id-remove_at id s.classical_one_time 0 (mark s.next_classical_one_time_id) position
              h.classical_ascends found in
          inr (
            record s { classical_one_time = remove_at position s.classical_one_time },
            ground (arith, found),
            there,
            others,
          )
    ]
