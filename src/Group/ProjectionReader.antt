-- ===== src/Group/ProjectionReader.antt =====
-- group_control.rs: the projection frame that Dart exchanges, as it is read.
use communication_platform.Base.{
  ℕ, zero, suc, not, List, [], ◌∷◌, length, ltb, ◌==◌, if◌then◌else◌, Result, ok, input_too_large,
  malformed_input, unsupported_version, unsupported_operation, ◌>>=◌ as bind_result,
}
use communication_platform.Base.Bytes.{Bytes}
use communication_platform.Base.Text.{is_utf8, char_count}
use communication_platform.Protocol.Framing.{
  Parser, pure, fail, ◌>>=◌, ◌>>◌, reject, lift, finish, run, u8, u16, u32, u64, array, framed,
}
use communication_platform.Room.ProjectionReader.{arrays, read_hash}
use communication_platform.Group.{
  GroupControl, ControlBody, Member, create, add_member, remove_member, change_role, rename,
  validate, group_control_version, kind_create, kind_add_member, kind_remove_member,
  kind_change_role, kind_rename, max_members, max_name_bytes, max_name_scalars,
  max_description_bytes, max_description_scalars,
}

unfoldable pub projection_text : ℕ → ℕ → Parser Bytes
projection_text maximum_bytes maximum_scalars = do
  bytes ← framed
  reject (ltb maximum_bytes (length bytes)) input_too_large
  reject (not (is_utf8 bytes)) malformed_input
  reject (ltb maximum_scalars (char_count bytes)) input_too_large
  pure bytes

unfoldable pub read_members : ℕ → Parser (List Member)
read_members zero = pure []
read_members (suc count) = do
  user_id ← array 16
  role ← u8
  xs ← read_members count
  pure (record { user_id = user_id; role = role } ∷ xs)

unfoldable pub read_create : Parser ControlBody
unfolding projection_text read_members
read_create = do
  name ← projection_text max_name_bytes max_name_scalars
  description ← projection_text max_description_bytes max_description_scalars
  invitation_policy ← u8
  history_policy ← u8
  count ← u16
  reject (ltb max_members count) input_too_large
  members ← read_members count
  pure (create name description invitation_policy history_policy members)

unfoldable pub read_add_member : Parser ControlBody
read_add_member = do
  count ← u16
  reject (not (ltb count max_members)) input_too_large
  user_ids ← arrays count
  pure (add_member user_ids)

unfoldable pub read_remove_member : Parser ControlBody
read_remove_member = do user_id ← array 16; pure (remove_member user_id)

unfoldable pub read_change_role : Parser ControlBody
read_change_role = do user_id ← array 16; role ← u8; pure (change_role user_id role)

unfoldable pub read_rename : Parser ControlBody
unfolding projection_text
read_rename = do
  name ← projection_text max_name_bytes max_name_scalars
  description ← projection_text max_description_bytes max_description_scalars
  pure (rename name description)

unfoldable pub read_body : ℕ → Parser ControlBody
unfolding read_create read_add_member read_remove_member read_change_role read_rename
read_body kind =
    if kind == kind_create
    then read_create
    else if kind == kind_add_member
    then read_add_member
    else if kind == kind_remove_member
    then read_remove_member
    else if kind == kind_change_role
    then read_change_role
    else if kind == kind_rename
    then read_rename
    else fail unsupported_operation

unfoldable pub read_control : Parser GroupControl
unfolding read_hash read_body
read_control = do
  version ← u8
  reject (not (version == group_control_version)) unsupported_version
  event_id ← array 16
  group_id ← array 32
  revision ← u32
  previous_state_hash ← u8 >>= read_hash
  signer_user_id ← array 16
  signer_device_id ← array 16
  created_ms ← u64
  body ← u8 >>= read_body
  pure (record {
    event_id = event_id;
    group_id = group_id;
    revision = revision;
    previous_state_hash = previous_state_hash;
    signer_user_id = signer_user_id;
    signer_device_id = signer_device_id;
    created_ms = created_ms;
    body = body;
  })

-- `validate(&control)?; Ok(control)`
unfoldable pub validated : GroupControl → Result GroupControl
validated c = bind_result (validate c) λ _. ok c

unfoldable pub decode_projection : Bytes → Result GroupControl
unfolding read_control validated
decode_projection input = run (read_control >>= λ c. finish >> lift (validated c)) input
