-- ===== src/Group/Canonical.antt =====
-- group_control.rs: the deterministic CBOR of a control event, as it is written.
use communication_platform.Base.{
  List, [], ◌∷◌, length, Result, input_too_large, ◌>>=◌ as bind_result,
}
use communication_platform.Base.Bytes.{Bytes}
use communication_platform.Protocol.Writing.{
  Writer, ◌>>◌, write_nothing, with_value, try_from, written_by,
}
use communication_platform.Cbor.{Minicbor, written, encode_key}
use communication_platform.Room.Canonical.{at_most, encode_user_ids, encode_hash}
use communication_platform.Group.{
  GroupControl, ControlBody, Member, create, add_member, remove_member, change_role, rename, kind,
  group_control_version, max_group_control_bytes,
}

module _ (m : Minicbor) where
  unfoldable pub encode_each_member : List Member → Writer
  encode_each_member [] = write_nothing
  encode_each_member (x ∷ xs) = do
    written (m.enc_array 2)
    written (m.enc_bytes x.user_id)
    written (m.enc_u8 x.role)
    encode_each_member xs

  unfoldable pub encode_body : ControlBody → Writer
  unfolding encode_user_ids encode_each_member
  encode_body (create name description invitation_policy history_policy members) = do
    written (m.enc_map 5)
    encode_key m 0
    written (m.enc_str name)
    encode_key m 1
    written (m.enc_str description)
    encode_key m 2
    written (m.enc_u8 invitation_policy)
    encode_key m 3
    written (m.enc_u8 history_policy)
    encode_key m 4
    with_value (try_from 8 (length members) input_too_large) λ n. written (m.enc_array n)
    encode_each_member members
  encode_body (add_member user_ids) = do
    written (m.enc_map 1)
    encode_key m 0
    encode_user_ids m user_ids
  encode_body (remove_member user_id) = do
    written (m.enc_map 1)
    encode_key m 0
    written (m.enc_bytes user_id)
  encode_body (change_role user_id role) = do
    written (m.enc_map 2)
    encode_key m 0
    written (m.enc_bytes user_id)
    encode_key m 1
    written (m.enc_u8 role)
  encode_body (rename name description) = do
    written (m.enc_map 2)
    encode_key m 0
    written (m.enc_str name)
    encode_key m 1
    written (m.enc_str description)

  unfoldable pub write_control : GroupControl → Writer
  unfolding encode_hash encode_body
  write_control c = do
    written (m.enc_map 10)
    encode_key m 0
    written (m.enc_u8 group_control_version)
    encode_key m 1
    written (m.enc_bytes c.event_id)
    encode_key m 2
    written (m.enc_bytes c.group_id)
    encode_key m 3
    written (m.enc_u32 c.revision)
    encode_key m 4
    encode_hash m c.previous_state_hash
    encode_key m 5
    written (m.enc_bytes c.signer_user_id)
    encode_key m 6
    written (m.enc_bytes c.signer_device_id)
    encode_key m 7
    written (m.enc_u64 c.created_ms)
    encode_key m 8
    written (m.enc_u8 (kind c.body))
    encode_key m 9
    encode_body c.body

  unfoldable pub encode_control : GroupControl → Result Bytes
  unfolding write_control at_most
  encode_control c = bind_result (written_by (write_control c)) (at_most max_group_control_bytes)
