-- ===== src/Room/Projection.antt =====
-- room_control.rs: the projection frame that Dart exchanges, as it is written.
use communication_platform.Base.{Option, none, some, List, [], ◌∷◌, length, input_too_large}
use communication_platform.Base.Bytes.{Bytes}
use communication_platform.Protocol.Writing.{
  Writer, ◌>>◌, extend, write_nothing, with_value, try_from, push_u16, push_u32, push_u64,
  push_frame,
}
use communication_platform.Room.{
  RoomControl, ControlBody, create, add_members, remove_member, rename, kind, room_control_version,
}

-- `for user_id in user_ids { output.extend_from_slice(user_id); }`
unfoldable pub extend_each : List Bytes → Writer
extend_each [] = write_nothing
extend_each (x ∷ xs) = do extend x; extend_each xs

unfoldable pub push_user_ids : List Bytes → Writer
unfolding extend_each
push_user_ids user_ids = do
  with_value (try_from 2 (length user_ids) input_too_large) push_u16
  extend_each user_ids

unfoldable pub push_hash : Option Bytes → Writer
push_hash (some hash) = do extend (1 ∷ []); extend hash
push_hash none = extend (0 ∷ [])

unfoldable pub encode_body : ControlBody → Writer
unfolding push_user_ids
encode_body (create name members) = do push_frame name; push_user_ids members
encode_body (add_members user_ids) = push_user_ids user_ids
encode_body (remove_member user_id) = extend user_id
encode_body (rename name) = push_frame name

unfoldable pub encode_projection : RoomControl → Writer
unfolding push_hash encode_body
encode_projection c = do
  extend (room_control_version ∷ [])
  extend c.event_id
  extend c.room_id
  push_u32 c.revision
  push_hash c.previous_state_hash
  extend c.signer_user_id
  extend c.signer_device_id
  push_u64 c.created_ms
  extend (kind c.body ∷ [])
  encode_body c.body
