-- ===== src/Group/CanonicalReader.antt =====
-- group_control.rs: the deterministic CBOR of a control event, as it is read.
use communication_platform.Base.{
  ℕ, zero, suc, not, true, false, List, [], ◌∷◌, ltb, ◌==◌, if◌then◌else◌, Result, ok, refuse,
  input_too_large, malformed_input, unsupported_version, unsupported_operation,
  ◌>>=◌ as bind_result,
}
use communication_platform.Base.Bytes.{Bytes, bytes_eq}
use communication_platform.Protocol.Framing.{
  Parser, pure, fail, ◌>>=◌, ◌>>◌, reject, lift, finish, run,
}
use communication_platform.Cbor.{
  Minicbor, read_exact_map, read_key, read_uint, read_exact_bytes, read_nullable, read_array_len,
  read_text,
}
use communication_platform.Room.CanonicalReader.{narrow, read_each}
use communication_platform.Group.{
  GroupControl, ControlBody, Member, create, add_member, remove_member, change_role, rename,
  validate, group_control_version, kind_create, kind_add_member, kind_remove_member,
  kind_change_role, kind_rename, max_members, max_name_bytes, max_name_scalars,
  max_description_bytes, max_description_scalars,
}
use communication_platform.Group.Canonical.{encode_control}

module _ (m : Minicbor) where
  unfoldable pub decode_members : ℕ → Parser (List Member)
  decode_members zero = pure []
  decode_members (suc count) = do
    size ← read_array_len m
    reject (not (size == 2)) malformed_input
    user_id ← read_exact_bytes m 16
    role ← read_uint m >>= narrow 1
    xs ← decode_members count
    pure (record { user_id = user_id; role = role } ∷ xs)

  unfoldable pub decode_create : Parser ControlBody
  unfolding decode_members
  decode_create = do
    read_exact_map m 5
    read_key m 0
    name ← read_text m max_name_bytes max_name_scalars true
    read_key m 1
    description ← read_text m max_description_bytes max_description_scalars false
    read_key m 2
    invitation_policy ← read_uint m >>= narrow 1
    read_key m 3
    history_policy ← read_uint m >>= narrow 1
    read_key m 4
    count ← read_array_len m
    reject (ltb max_members count) input_too_large
    members ← decode_members count
    pure (create name description invitation_policy history_policy members)

  unfoldable pub decode_add_member : Parser ControlBody
  decode_add_member = do
    read_exact_map m 1
    read_key m 0
    count ← read_array_len m
    reject (not (ltb count max_members)) input_too_large
    user_ids ← read_each m count
    pure (add_member user_ids)

  unfoldable pub decode_remove_member : Parser ControlBody
  decode_remove_member = do
    read_exact_map m 1
    read_key m 0
    user_id ← read_exact_bytes m 16
    pure (remove_member user_id)

  unfoldable pub decode_change_role : Parser ControlBody
  decode_change_role = do
    read_exact_map m 2
    read_key m 0
    user_id ← read_exact_bytes m 16
    read_key m 1
    role ← read_uint m >>= narrow 1
    pure (change_role user_id role)

  unfoldable pub decode_rename : Parser ControlBody
  decode_rename = do
    read_exact_map m 2
    read_key m 0
    name ← read_text m max_name_bytes max_name_scalars true
    read_key m 1
    description ← read_text m max_description_bytes max_description_scalars false
    pure (rename name description)

  unfoldable pub decode_body : ℕ → Parser ControlBody
  unfolding decode_create decode_add_member decode_remove_member decode_change_role decode_rename
  decode_body kind =
      if kind == kind_create
      then decode_create
      else if kind == kind_add_member
      then decode_add_member
      else if kind == kind_remove_member
      then decode_remove_member
      else if kind == kind_change_role
      then decode_change_role
      else if kind == kind_rename
      then decode_rename
      else fail unsupported_operation

  unfoldable pub read_event : Parser GroupControl
  unfolding decode_body narrow
  read_event = do
    read_exact_map m 10
    read_key m 0
    version ← read_uint m
    reject (not (version == group_control_version)) unsupported_version
    read_key m 1
    event_id ← read_exact_bytes m 16
    read_key m 2
    group_id ← read_exact_bytes m 32
    read_key m 3
    revision ← read_uint m >>= narrow 4
    read_key m 4
    previous_state_hash ← read_nullable m 32
    read_key m 5
    signer_user_id ← read_exact_bytes m 16
    read_key m 6
    signer_device_id ← read_exact_bytes m 16
    read_key m 7
    created_ms ← read_uint m
    read_key m 8
    kind ← read_uint m >>= narrow 1
    read_key m 9
    body ← decode_body kind
    pure (record {
      event_id = event_id;
      group_id = group_id;
      revision = revision;
      previous_state_hash = previous_state_hash;
      signer_user_id = signer_user_id;
      signer_device_id = signer_device_id;
      created_ms = created_ms;
      body = body;
    })

  -- `validate(&control)?; if encode_control(&control)? != input { return Err(MalformedInput) }`
  unfoldable pub checked : Bytes → GroupControl → Result GroupControl
  unfolding validate encode_control
  checked input c = bind_result (validate c) λ _.
      bind_result (encode_control m c)
        λ output. bind_result (refuse (not (bytes_eq output input)) malformed_input) λ _. ok c

  unfoldable pub decode_control : Bytes → Result GroupControl
  unfolding read_event checked
  decode_control input = run (read_event >>= λ c. finish >> lift (checked input c)) input
