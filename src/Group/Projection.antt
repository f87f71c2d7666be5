-- ===== src/Group/Projection.antt =====
-- group_control.rs: the projection frame that Dart exchanges, as it is written.
use communication_platform.Base.{List, [], ◌∷◌, length, input_too_large}
use communication_platform.Protocol.Writing.{
  Writer, ◌>>◌, extend, write_nothing, with_value, try_from, push_u16, push_u32, push_u64,
  push_frame,
}
use communication_platform.Room.Projection.{push_user_ids, push_hash}
use communication_platform.Group.{
  GroupControl, ControlBody, Member, create, add_member, remove_member, change_role, rename, kind,
  group_control_version,
}

unfoldable pub extend_members : List Member → Writer
extend_members [] = write_nothing
extend_members (x ∷ xs) = do extend x.user_id; extend (x.role ∷ []); extend_members xs

unfoldable pub push_members : List Member → Writer
unfolding extend_members
push_members members = do
  with_value (try_from 2 (length members) input_too_large) push_u16
  extend_members members

unfoldable pub encode_body : ControlBody → Writer
unfolding push_user_ids push_members
encode_body (create name description invitation_policy history_policy members) = do
  push_frame name
  push_frame description
  extend (invitation_policy ∷ [])
  extend (history_policy ∷ [])
  push_members members
encode_body (add_member user_ids) = push_user_ids user_ids
encode_body (remove_member user_id) = extend user_id
encode_body (change_role user_id role) = do extend user_id; extend (role ∷ [])
encode_body (rename name description) = do push_frame name; push_frame description

unfoldable pub encode_projection : GroupControl → Writer
unfolding push_hash encode_body
encode_projection c = do
  extend (group_control_version ∷ [])
  extend c.event_id
  extend c.group_id
  push_u32 c.revision
  push_hash c.previous_state_hash
  extend c.signer_user_id
  extend c.signer_device_id
  push_u64 c.created_ms
  extend (kind c.body ∷ [])
  encode_body c.body
