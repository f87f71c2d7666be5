-- ===== src/Prekey/RotationLayout.antt =====
-- prekey_state.rs: the bytes that publish a rotation, as they are written.
use communication_platform.Base.Bytes.{Bytes}
use communication_platform.Protocol.Writing.{Writes, then-Writes, extend-Writes, push_u32-Writes}
use communication_platform.Prekey.Rotation.{Replacement, write_rotation}
use communication_platform.Prekey.RotationSpec.{rotation_bytes}

pub write_rotation-Writes :
    (batch_id : Bytes) (new : Replacement)
    → Writes (write_rotation batch_id new) (rotation_bytes batch_id new)
unfolding write_rotation
write_rotation-Writes batch_id new = then-Writes (extend-Writes _) (
    then-Writes (extend-Writes _) (
      then-Writes (extend-Writes _) (
        then-Writes (push_u32-Writes _) (
          then-Writes (push_u32-Writes _) (
            then-Writes (extend-Writes _) (
              then-Writes (extend-Writes _) (
                then-Writes (push_u32-Writes _) (
                  then-Writes (extend-Writes _)
                    (then-Writes (extend-Writes _) (extend-Writes _))))))))))
