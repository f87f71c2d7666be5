-- ===== src/Room/CanonicalReader.antt =====
-- room_control.rs: the deterministic CBOR of a control event, as it is read.
use communication_platform.Base.{
  ℕ, zero, suc, ◌-◌, ◌^◌, not, true, List, [], ◌∷◌, ltb, ◌==◌, if◌then◌else◌, Result, ok, refuse,
  input_too_large, malformed_input, unsupported_version, unsupported_operation,
  ◌>>=◌ as bind_result,
}
use communication_platform.Base.Bytes.{Bytes, bytes_eq}
use communication_platform.Protocol.Framing.{
  Parser, pure, fail, ◌>>=◌, ◌>>◌, reject, lift, finish, run,
}
use communication_platform.Cbor.{
  Minicbor, read_exact_map, read_key, read_uint, read_exact_bytes, read_nullable, read_array_len,
  read_text,
}
use communication_platform.Room.{
  RoomControl, ControlBody, create, add_members, remove_member, rename, validate,
  room_control_version, kind_create, kind_add_members, kind_remove_member, kind_rename, max_members,
  max_name_bytes, max_name_scalars,
}
use communication_platform.Room.Canonical.{encode_control}

-- `u8::try_from(value)` and `u32::try_from(value)`, with `MalformedInput`.
unfoldable pub narrow : ℕ → ℕ → Parser ℕ
narrow width value = if ltb value (256 ^ width) then pure value else fail malformed_input

module _ (m : Minicbor) where
  unfoldable pub read_each : ℕ → Parser (List Bytes)
  read_each zero = pure []
  read_each (suc count) = do x ← read_exact_bytes m 16; xs ← read_each count; pure (x ∷ xs)

  unfoldable pub decode_user_ids : ℕ → Parser (List Bytes)
  unfolding read_each
  decode_user_ids maximum = do
    count ← read_array_len m
    reject (ltb maximum count) input_too_large
    read_each count

  unfoldable pub decode_create : Parser ControlBody
  unfolding decode_user_ids
  decode_create = do
    read_exact_map m 2
    read_key m 0
    name ← read_text m max_name_bytes max_name_scalars true
    read_key m 1
    members ← decode_user_ids max_members
    pure (create name members)

  unfoldable pub decode_add_members : Parser ControlBody
  unfolding decode_user_ids
  decode_add_members = do
    read_exact_map m 1
    read_key m 0
    user_ids ← decode_user_ids (max_members - 1)
    pure (add_members user_ids)

  unfoldable pub decode_remove_member : Parser ControlBody
  decode_remove_member = do
    read_exact_map m 1
    read_key m 0
    user_id ← read_exact_bytes m 16
    pure (remove_member user_id)

  unfoldable pub decode_rename : Parser ControlBody
  decode_rename = do
    read_exact_map m 1
    read_key m 0
    name ← read_text m max_name_bytes max_name_scalars true
    pure (rename name)

  unfoldable pub decode_body : ℕ → Parser ControlBody
  unfolding decode_create decode_add_members decode_remove_member decode_rename
  decode_body kind =
      if kind == kind_create
      then decode_create
      else if kind == kind_add_members
      then decode_add_members
      else if kind == kind_remove_member
      then decode_remove_member
      else if kind == kind_rename
      then decode_rename
      else fail unsupported_operation

  unfoldable pub read_event : Parser RoomControl
  unfolding decode_body narrow
  read_event = do
    read_exact_map m 10
    read_key m 0
    version ← read_uint m
    reject (not (version == room_control_version)) unsupported_version
    read_key m 1
    event_id ← read_exact_bytes m 16
    read_key m 2
    room_id ← read_exact_bytes m 32
    read_key m 3
    revision ← read_uint m >>= narrow 4
    read_key m 4
    previous_state_hash ← read_nullable m 32
    read_key m 5
    signer_user_id ← read_exact_bytes m 16
    read_key m 6
    signer_device_id ← read_exact_bytes m 16
    read_key m 7
    created_ms ← read_uint m
    read_key m 8
    kind ← read_uint m >>= narrow 1
    read_key m 9
    body ← decode_body kind
    pure (record {
      event_id = event_id;
      room_id = room_id;
      revision = revision;
      previous_state_hash = previous_state_hash;
      signer_user_id = signer_user_id;
      signer_device_id = signer_device_id;
      created_ms = created_ms;
      body = body;
    })

  -- `validate(&control)?; if encode_control(&control)? != input { return Err(MalformedInput) }`
  unfoldable pub checked : Bytes → RoomControl → Result RoomControl
  unfolding validate encode_control
  checked input c = bind_result (validate c) λ _.
      bind_result (encode_control m c)
        λ output. bind_result (refuse (not (bytes_eq output input)) malformed_input) λ _. ok c

  unfoldable pub decode_control : Bytes → Result RoomControl
  unfolding read_event checked
  decode_control input = run (read_event >>= λ c. finish >> lift (checked input c)) input
