-- ===== src/Room/ProjectionReader.antt =====
-- room_control.rs: the projection frame that Dart exchanges, as it is read.
use communication_platform.Base.{
  ℕ, zero, suc, ◌-◌, not, Option, none, some, List, [], ◌∷◌, length, ltb, ◌==◌, if◌then◌else◌,
  Result, ok, input_too_large, malformed_input, unsupported_version, unsupported_operation,
  ◌>>=◌ as bind_result,
}
use communication_platform.Base.Bytes.{Bytes}
use communication_platform.Base.Text.{is_utf8, char_count}
use communication_platform.Protocol.Framing.{
  Parser, pure, fail, ◌>>=◌, ◌>>◌, reject, lift, finish, run, u8, u16, u32, u64, array, framed,
}
use communication_platform.Room.{
  RoomControl, ControlBody, create, add_members, remove_member, rename, validate,
  room_control_version, kind_create, kind_add_members, kind_remove_member, kind_rename, max_members,
  max_name_bytes, max_name_scalars,
}

-- `std::str::from_utf8(bytes)` leaves the bytes as they are.
unfoldable pub projection_text : Parser Bytes
projection_text = do
  bytes ← framed
  reject (ltb max_name_bytes (length bytes)) input_too_large
  reject (not (is_utf8 bytes)) malformed_input
  reject (ltb max_name_scalars (char_count bytes)) input_too_large
  pure bytes

-- `for _ in 0..count { user_ids.push(reader.array()?); }`
unfoldable pub arrays : ℕ → Parser (List Bytes)
arrays zero = pure []
arrays (suc count) = do x ← array 16; xs ← arrays count; pure (x ∷ xs)

unfoldable pub projection_user_ids : ℕ → Parser (List Bytes)
unfolding arrays
projection_user_ids maximum = do
  count ← u16
  reject (ltb maximum count) input_too_large
  arrays count

unfoldable pub read_hash : ℕ → Parser (Option Bytes)
read_hash tag = if tag == 0 then pure none else if tag == 1 then present else fail malformed_input
  where
    present : Parser (Option Bytes)
    present = do hash ← array 32; pure (some hash)

unfoldable pub read_create : Parser ControlBody
read_create = do
  name ← projection_text
  members ← projection_user_ids max_members
  pure (create name members)

unfoldable pub read_add_members : Parser ControlBody
read_add_members = do user_ids ← projection_user_ids (max_members - 1); pure (add_members user_ids)

unfoldable pub read_remove_member : Parser ControlBody
read_remove_member = do user_id ← array 16; pure (remove_member user_id)

unfoldable pub read_rename : Parser ControlBody
read_rename = do name ← projection_text; pure (rename name)

unfoldable pub read_body : ℕ → Parser ControlBody
unfolding read_create read_add_members read_remove_member read_rename
read_body kind =
    if kind == kind_create
    then read_create
    else if kind == kind_add_members
    then read_add_members
    else if kind == kind_remove_member
    then read_remove_member
    else if kind == kind_rename
    then read_rename
    else fail unsupported_operation

unfoldable pub read_control : Parser RoomControl
unfolding read_hash read_body
read_control = do
  version ← u8
  reject (not (version == room_control_version)) unsupported_version
  event_id ← array 16
  room_id ← array 32
  revision ← u32
  previous_state_hash ← u8 >>= read_hash
  signer_user_id ← array 16
  signer_device_id ← array 16
  created_ms ← u64
  body ← u8 >>= read_body
  pure (record {
    event_id = event_id;
    room_id = room_id;
    revision = revision;
    previous_state_hash = previous_state_hash;
    signer_user_id = signer_user_id;
    signer_device_id = signer_device_id;
    created_ms = created_ms;
    body = body;
  })

-- `validate(&control)?; Ok(control)`
unfoldable pub validated : RoomControl → Result RoomControl
validated c = bind_result (validate c) λ _. ok c

unfoldable pub decode_projection : Bytes → Result RoomControl
unfolding read_control validated
decode_projection input = run (read_control >>= λ c. finish >> lift (validated c)) input
