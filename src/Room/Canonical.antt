-- ===== src/Room/Canonical.antt =====
-- room_control.rs: the deterministic CBOR of a control event, as it is written.
use communication_platform.Base.{
  ℕ, Option, none, some, List, [], ◌∷◌, length, ltb, Result, ok, refuse, input_too_large,
  ◌>>=◌ as bind_result,
}
use communication_platform.Base.Bytes.{Bytes}
use communication_platform.Protocol.Writing.{
  Writer, ◌>>◌, write_nothing, with_value, try_from, written_by,
}
use communication_platform.Cbor.{Minicbor, written, encode_key}
use communication_platform.Room.{
  RoomControl, ControlBody, create, add_members, remove_member, rename, kind, room_control_version,
  max_room_control_bytes,
}

-- The length check, and what it lets through.
unfoldable pub at_most : ℕ → Bytes → Result Bytes
at_most maximum output =
    bind_result (refuse (ltb maximum (length output)) input_too_large) λ _. ok output

module _ (m : Minicbor) where
  -- `for user_id in user_ids { written(encoder.bytes(user_id))?; }`
  unfoldable pub encode_each : List Bytes → Writer
  encode_each [] = write_nothing
  encode_each (x ∷ xs) = do written (m.enc_bytes x); encode_each xs

  unfoldable pub encode_user_ids : List Bytes → Writer
  unfolding encode_each
  encode_user_ids user_ids = do
    with_value (try_from 8 (length user_ids) input_too_large) λ n. written (m.enc_array n)
    encode_each user_ids

  unfoldable pub encode_hash : Option Bytes → Writer
  encode_hash (some hash) = written (m.enc_bytes hash)
  encode_hash none = written m.enc_null

  unfoldable pub encode_body : ControlBody → Writer
  unfolding encode_user_ids
  encode_body (create name members) = do
    written (m.enc_map 2)
    encode_key m 0
    written (m.enc_str name)
    encode_key m 1
    encode_user_ids members
  encode_body (add_members user_ids) = do
    written (m.enc_map 1)
    encode_key m 0
    encode_user_ids user_ids
  encode_body (remove_member user_id) = do
    written (m.enc_map 1)
    encode_key m 0
    written (m.enc_bytes user_id)
  encode_body (rename name) = do written (m.enc_map 1); encode_key m 0; written (m.enc_str name)

  unfoldable pub write_control : RoomControl → Writer
  unfolding encode_hash encode_body
  write_control c = do
    written (m.enc_map 10)
    encode_key m 0
    written (m.enc_u8 room_control_version)
    encode_key m 1
    written (m.enc_bytes c.event_id)
    encode_key m 2
    written (m.enc_bytes c.room_id)
    encode_key m 3
    written (m.enc_u32 c.revision)
    encode_key m 4
    encode_hash c.previous_state_hash
    encode_key m 5
    written (m.enc_bytes c.signer_user_id)
    encode_key m 6
    written (m.enc_bytes c.signer_device_id)
    encode_key m 7
    written (m.enc_u64 c.created_ms)
    encode_key m 8
    written (m.enc_u8 (kind c.body))
    encode_key m 9
    encode_body c.body

  unfoldable pub encode_control : RoomControl → Result Bytes
  unfolding write_control at_most
  encode_control c = bind_result (written_by (write_control c)) (at_most max_room_control_bytes)
