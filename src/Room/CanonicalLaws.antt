-- ===== src/Room/CanonicalLaws.antt =====
-- room_control.rs: an encoder of RFC 8949 makes the canonical form of an event one layout of bytes,
-- and the reader reads it back.
pub mod Sizes
pub mod Back
use communication_platform.Base.{
  ℕ, ◌+◌, ◌*◌, ◌^◌, ◌≤◌, ◌<◌, ◌≡◌, refl, Bool, true, false, not, Option, none, some, List, [], ◌∷◌,
  ◌++◌, length, length-append, All, ltb, ◌==◌, arith, Result, ok, ◌>>=◌ as bind_result, append-nil,
}
use communication_platform.Base.Bytes.{Bytes, IsArray, bytes_eq, bytes_eq_iff}
use communication_platform.Base.Text.{IsText}
use communication_platform.Protocol.Framing.{Parser, ◌>>=◌, ◌>>◌, finish, lift, run, usize_end}
use communication_platform.Protocol.Reads.{
  Reads, pure-Reads, bind-Reads, then-Reads, last-Reads, reject-Reads,
}
use communication_platform.Protocol.Writing.{
  Writes, nothing-Writes, then-Writes, with_value-Writes, written_by-Writes,
}
use communication_platform.Cbor.{Minicbor, IsCbor, head, encode_key, read_key, read_exact_map}
use communication_platform.Cbor.Laws.{
  item, nullable_item, WithinText, read_uint-Reads, read_key-Reads, read_exact_map-Reads,
  read_array_len-Reads, read_exact_bytes-Reads, read_text-Reads, read_nullable-Reads,
}
use communication_platform.Cbor.Encoding.{
  length-head, length-item, map-Writes, array-Writes, key-Writes, u8-Writes, u32-Writes, u64-Writes,
  bytes-Writes, str-Writes, null-Writes,
}
use communication_platform.Room.{
  RoomControl, ControlBody, create, add_members, remove_member, rename, kind, room_control_version,
  IsTyped, IsTypedBody, IsTypedHash, validate, max_name_bytes, max_name_scalars, max_members,
  max_room_control_bytes,
}
use communication_platform.Room.Canonical.{
  at_most, encode_each, encode_user_ids, encode_hash, encode_body, write_control, encode_control,
}
use communication_platform.Room.CanonicalReader.{
  narrow, read_each, decode_user_ids, decode_create, decode_add_members, decode_remove_member,
  decode_rename, decode_body, read_event, checked, decode_control,
}
use communication_platform.Room.Validity.{IsName, IsBody, IsValid, validate_iff}

abbrev pub items : List Bytes → Bytes
items [] = []
items (x ∷ xs) = item 2 x ++ items xs

abbrev pub array_items : List Bytes → Bytes
array_items xs = head 4 (length xs) ++ items xs

abbrev pub body_map : ControlBody → Bytes
body_map (create name members) =
    head 5 2 ++ (head 0 0 ++ (item 3 name ++ (head 0 1 ++ array_items members)))
body_map (add_members user_ids) = head 5 1 ++ (head 0 0 ++ array_items user_ids)
body_map (remove_member user_id) = head 5 1 ++ (head 0 0 ++ item 2 user_id)
body_map (rename name) = head 5 1 ++ (head 0 0 ++ item 3 name)

abbrev pub tail_map : RoomControl → Bytes
tail_map c =
    head 0 5
    ++ (item 2 c.signer_user_id
        ++ (head 0 6
            ++ (item 2 c.signer_device_id
                ++ (head 0 7
                    ++ (head 0 c.created_ms
                        ++ (head 0 8
                            ++ (head 0 (kind c.body) ++ (head 0 9 ++ body_map c.body))))))))

-- The canonical form as a layout of bytes.
abbrev pub canonical : RoomControl → Bytes
canonical c =
    head 5 10
    ++ (head 0 0
        ++ (head 0 room_control_version
            ++ (head 0 1
                ++ (item 2 c.event_id
                    ++ (head 0 2
                        ++ (item 2 c.room_id
                            ++ (head 0 3
                                ++ (head 0 c.revision
                                    ++ (head 0 4
                                        ++ (nullable_item c.previous_state_hash
                                            ++ tail_map c))))))))))

module _ (m : Minicbor) (cbor : IsCbor m) where
  encode_each-Writes :
      (xs : List Bytes) → All (IsArray 16) xs → Writes (encode_each m xs) (items xs)
  unfolding encode_each
  encode_each-Writes [] h = nothing-Writes
  encode_each-Writes (x ∷ xs) h =
      then-Writes (bytes-Writes m cbor x (omega (arith, h.0.size))) (encode_each-Writes xs h.1)

  encode_user_ids-Writes :
      (xs : List Bytes)
      → All (IsArray 16) xs
      → length xs ≤ 50
      → Writes (encode_user_ids m xs) (array_items xs)
  unfolding encode_user_ids
  encode_user_ids-Writes xs t h =
      then-Writes (with_value-Writes _ (ground arith) (array-Writes m cbor _ (omega arith)))
        (encode_each-Writes xs t)

  encode_hash-Writes :
      (o : Option Bytes) → IsTypedHash o → Writes (encode_hash m o) (nullable_item o)
  unfolding encode_hash
  encode_hash-Writes none t = null-Writes m cbor
  encode_hash-Writes (some hash) t = bytes-Writes m cbor hash (omega (arith, t.size))

  encode_body-Writes :
      (signer : Bytes) (b : ControlBody)
      → IsTypedBody b
      → IsBody signer b
      → Writes (encode_body m b) (body_map b)
  unfolding encode_body
  encode_body-Writes signer (create name members) t v =
      then-Writes (map-Writes m cbor 2 (omega arith)) (
        then-Writes (key-Writes m cbor 0 (omega arith)) (
          then-Writes (str-Writes m cbor name (omega (arith, v))) (
            then-Writes (key-Writes m cbor 1 (omega arith))
              (encode_user_ids-Writes members t.1 (omega (arith, v))))))
  encode_body-Writes signer (add_members user_ids) t v =
      then-Writes (map-Writes m cbor 1 (omega arith)) (
        then-Writes (key-Writes m cbor 0 (omega arith))
          (encode_user_ids-Writes user_ids t (omega (arith, v))))
  encode_body-Writes signer (remove_member user_id) t v =
      then-Writes (map-Writes m cbor 1 (omega arith)) (
        then-Writes (key-Writes m cbor 0 (omega arith))
          (bytes-Writes m cbor user_id (omega (arith, t.size))))
  encode_body-Writes signer (rename name) t v =
      then-Writes (map-Writes m cbor 1 (omega arith)) (
        then-Writes (key-Writes m cbor 0 (omega arith)) (str-Writes m cbor name (omega (arith, v))))

  kind_small : (b : ControlBody) → kind b < 2 ^ 8
  unfolding kind
  kind_small b = ground arith

  pub write_control-Writes :
      (c : RoomControl) → IsTyped c → IsValid c → Writes (write_control m c) (canonical c)
  unfolding write_control
  write_control-Writes c t v =
      let key = key-Writes m cbor in
      then-Writes (map-Writes m cbor 10 (omega arith)) (
        then-Writes (key 0 (omega arith)) (
          then-Writes (u8-Writes m cbor _ (omega arith)) (
            then-Writes (key 1 (omega arith)) (
              then-Writes (bytes-Writes m cbor c.event_id (omega (arith, t.event_id_typed.size))) (
                then-Writes (key 2 (omega arith)) (
                  then-Writes (bytes-Writes m cbor c.room_id (omega (arith, t.room_id_typed.size)))
                    (then-Writes (key 3 (omega arith)) (
                      then-Writes (u32-Writes m cbor c.revision t.revision_typed) (
                        then-Writes (key 4 (omega arith)) (
                          then-Writes (encode_hash-Writes c.previous_state_hash t.hash_typed) (
                            then-Writes (key 5 (omega arith)) (
                              then-Writes
                                (bytes-Writes m cbor c.signer_user_id
                                  (omega (arith, t.signer_user_id_typed.size)))
                                (then-Writes (key 6 (omega arith)) (
                                  then-Writes
                                    (bytes-Writes m cbor c.signer_device_id
                                      (omega (arith, t.signer_device_id_typed.size)))
                                    (then-Writes (key 7 (omega arith)) (
                                      then-Writes
                                        (u64-Writes m cbor c.created_ms t.created_ms_typed)
                                        (then-Writes (key 8 (omega arith)) (
                                          then-Writes (u8-Writes m cbor _ (kind_small c.body)) (
                                            then-Writes (key 9 (omega arith)) (
                                              encode_body-Writes c.signer_user_id c.body
                                                t.body_typed v.6))))))))))))))))))))
