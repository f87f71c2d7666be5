-- ===== src/Prekey/Steps.antt =====
-- prekey_state.rs: the life of a device's prekeys as a step relation. The environment chooses the
-- operations, their arguments, within the types of the source, and the random source; failed operations are steps too.
use communication_platform.Base.{ℕ, ◌<◌, ◌^◌, ◌≡◌, ◌⊎◌, inl, inr, ◌∙◌, none, Option}
use communication_platform.Base.Bytes.{Bytes}
use communication_platform.Provider.{KeyProvider}
use communication_platform.Prekey.{
  DeviceState, OneTimeKey, classical_one_time, pq_one_time, consume_classical_one_time,
  consume_pq_one_time, prune_retired,
}
use communication_platform.Prekey.Operations.{World, commit_pending_upload}
use communication_platform.Prekey.Replenish.{prepare_replenishment}
use communication_platform.Prekey.Rotation.{prepare_rotation}
use communication_platform.Prekey.Ids.{mark}
use communication_platform.Prekey.Soundness.{
  IsSound, IsSound-self, consume_classical_one_time-HasRoom, consume_pq_one_time-HasRoom,
  prune_retired-HasRoom, commit_pending_upload-HasRoom,
}
use communication_platform.Prekey.Growth.{prepare_replenishment-IsSound}
use communication_platform.Prekey.RotationLaws.{prepare_rotation-IsSound}

abbrev pub with_device : {E : Type 0} → World E → DeviceState → World E
with_device w s = record w { device = s }

module _ {E : Type 0} (p : KeyProvider E) where
  pub data Step : World E → World E → Type 0 where
    replenished : (sc sq tc tq : ℕ) (w : World E) → Step w (prepare_replenishment p sc sq tc tq w).1
    rotated :
        (identity_package device_id : Bytes) (day : ℕ) (w : World E)
        → day < 256 ^ 4
        → Step w (prepare_rotation p identity_package device_id day w).1
    committed :
        (batch_id : Bytes) (w : World E)
        → Step w (with_device w (commit_pending_upload batch_id w.device).1)
    consumed :
        (id : ℕ) (w : World E) → Step w (with_device w (consume_classical_one_time id w.device).1)
    consumed_pq :
        (id : ℕ) (w : World E) → Step w (with_device w (consume_pq_one_time id w.device).1)
    pruned : (day : ℕ) (w : World E) → Step w (with_device w (prune_retired day w.device))

  pub data Reach (w : World E) : World E → Type 0 where
    here : Reach w w
    next : {u v : World E} → Reach w u → Step u v → Reach w v

  pub Step-IsSound :
      {base : DeviceState} {w v : World E}
      → Step w v
      → IsSound base w.device
      → IsSound base v.device
  Step-IsSound {base} (replenished sc sq tc tq w) h =
      prepare_replenishment-IsSound p base sc sq tc tq w h
  Step-IsSound {base} (rotated identity_package device_id day w dated) h =
      prepare_rotation-IsSound p base identity_package device_id day w h
  Step-IsSound (committed batch_id w) h = commit_pending_upload-HasRoom batch_id w.device h
  Step-IsSound (consumed id w) h = consume_classical_one_time-HasRoom id w.device h
  Step-IsSound (consumed_pq id w) h = consume_pq_one_time-HasRoom id w.device h
  Step-IsSound (pruned day w) h = prune_retired-HasRoom day w.device h

  -- In every state that replenishments, rotations, commits, consumptions and prunings, failed ones
  -- included, lead to from a state with the invariant, the invariant holds: identifiers ascend below
  -- their high-water marks, the stores keep within their limits, and no mark, bundle version or
  -- consumed key of the first state has come back.
  pub Reach-IsSound :
      {base : DeviceState} {w v : World E}
      → IsSound base w.device
      → Reach w v
      → IsSound base v.device
  Reach-IsSound h here = h
  Reach-IsSound h (next r s) = Step-IsSound s (Reach-IsSound h r)

  -- A one-time key, X25519 or ML-KEM, that a state with the invariant does not have, of an
  -- identifier below its high-water mark, is in no state that steps lead to from there.
  pub Reach-one_time_none :
      {base : DeviceState} (w v : World E) (id : ℕ)
      → IsSound base w.device
      → Reach w v
      → (id < mark w.device.next_classical_one_time_id
          → classical_one_time id w.device ≡ none
          → classical_one_time id v.device ≡ none)
        × (id < mark w.device.next_pq_one_time_id
            → pq_one_time id w.device ≡ none
            → pq_one_time id v.device ≡ none)
  unfolding classical_one_time pq_one_time
  Reach-one_time_none w v id h r =
      let t = Reach-IsSound (IsSound-self w.device h) r in
      (λ l e. gone e (t.classical_history.kept id l), λ l e. gone e (t.pq_history.kept id l))
    where
      gone :
          {now before : Option OneTimeKey}
          → before ≡ none
          → (now ≡ none) ⊎ (now ≡ before)
          → now ≡ none
      gone e (inl k) = k
      gone e (inr k) = k ∙ e
