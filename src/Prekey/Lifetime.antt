-- ===== src/Prekey/Lifetime.antt =====
-- prekey_state.rs: storing a device's state after any operations, and reading it back.
use communication_platform.Base.{◌≤◌, ◌≡◌, ℕ, length, ok}
use communication_platform.Base.Bytes.{Bytes}
use communication_platform.Provider.{KeyProvider}
use communication_platform.Protocol.Framing.{max_input_bytes}
use communication_platform.Prekey.{DeviceState}
use communication_platform.Prekey.Operations.{World}
use communication_platform.Prekey.Codec.{encode_device_state}
use communication_platform.Prekey.Migration.{decode_device_state}
use communication_platform.Prekey.Soundness.{IsSound}
use communication_platform.Prekey.Persistence.{IsKeyed, decode_device_state-encode_device_state}
use communication_platform.Prekey.Steps.{
  Step, Reach, here, next, replenished, rotated, committed, consumed, consumed_pq, pruned,
  Reach-IsSound,
}
use communication_platform.Prekey.Live.{
  IsLive, IsLive-IsGenuine, consume_classical_one_time-IsLive, consume_pq_one_time-IsLive,
  prune_retired-IsLive, commit_pending_upload-IsLive,
}
use communication_platform.Prekey.LiveKeys.{IsHonest}
use communication_platform.Prekey.LiveUploads.{prepare_replenishment-IsLive}
use communication_platform.Prekey.LiveRotation.{prepare_rotation-IsLive}

module _ {E : Type 0} (p : KeyProvider E) (honest : IsHonest p) where
  Step-IsLive : {w v : World E} → Step p w v → IsLive p w.device → IsLive p v.device
  Step-IsLive (replenished sc sq tc tq w) h = prepare_replenishment-IsLive p honest sc sq tc tq w h
  Step-IsLive (rotated identity_package device_id day w dated) h =
      prepare_rotation-IsLive p honest identity_package device_id day w dated h
  Step-IsLive (committed batch_id w) h = commit_pending_upload-IsLive p batch_id w.device h
  Step-IsLive (consumed id w) h = consume_classical_one_time-IsLive p id w.device h
  Step-IsLive (consumed_pq id w) h = consume_pq_one_time-IsLive p id w.device h
  Step-IsLive (pruned day w) h = prune_retired-IsLive p day w.device h

  Reach-IsLive : {w v : World E} → IsLive p w.device → Reach p w v → IsLive p v.device
  Reach-IsLive h here = h
  Reach-IsLive h (next r s) = Step-IsLive s (Reach-IsLive h r)

  -- With primitives that do what they document, every state that replenishments, rotations, commits,
  -- consumptions and prunings, failed ones included, lead to from a live state with the invariant is
  -- stored within the bound on inputs, and `decode_device_state` returns it from what is stored, on
  -- whatever day.
  pub Reach-stored :
      {base : DeviceState} (keyed : IsKeyed p) (w v : World E) (day : ℕ)
      → IsLive p w.device
      → IsSound base w.device
      → Reach p w v
      → (stored : Bytes) × (encode_device_state p v.device ≡ ok stored)
        × (length stored ≤ max_input_bytes)
        × (decode_device_state p stored day ≡ ok v.device)
  Reach-stored {base} keyed w v day live sound r =
      let alive = Reach-IsLive live r in
      let kept = Reach-IsSound p sound r in
      decode_device_state-encode_device_state p base v.device keyed alive.typed kept day
        (IsLive-IsGenuine p v.device alive kept)
