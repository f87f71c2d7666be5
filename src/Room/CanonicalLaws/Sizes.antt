-- ===== src/Room/CanonicalLaws/Sizes.antt =====
-- room_control.rs: the canonical form stays far below the bound on its bytes.
use communication_platform.Base.{
  ℕ, ◌+◌, ◌*◌, ◌≤◌, Option, none, some, List, [], ◌∷◌, ◌++◌, length, length-append, All, arith,
}
use communication_platform.Base.Bytes.{Bytes, IsArray}
use communication_platform.Cbor.{head}
use communication_platform.Cbor.Laws.{item, nullable_item}
use communication_platform.Cbor.Encoding.{length-head, length-item}
use communication_platform.Room.{
  RoomControl, ControlBody, create, add_members, remove_member, rename, kind, IsTyped, IsTypedBody,
  IsTypedHash,
}
use communication_platform.Room.CanonicalLaws.{items, array_items, body_map, tail_map, canonical}
use communication_platform.Room.Validity.{IsBody, IsValid}

length-items : (xs : List Bytes) → All (IsArray 16) xs → length (items xs) ≤ 25 * length xs
length-items [] h = omega arith
length-items (x ∷ xs) h =
    omega
      (arith, length-append (item 2 x) (items xs), length-item 2 x, h.0.size, length-items xs h.1)

length-array_items :
    (xs : List Bytes) → All (IsArray 16) xs → length (array_items xs) ≤ 9 + 25 * length xs
length-array_items xs h = omega (
  arith,
  length-append (head 4 (length xs)) (items xs),
  length-head 4 (length xs),
  length-items xs h,
)

append_le : {a b : ℕ} (xs ys : Bytes) → length xs ≤ a → length ys ≤ b → length (xs ++ ys) ≤ a + b
append_le xs ys h k = omega (arith, length-append xs ys)

length-body_map :
    (signer : Bytes) (b : ControlBody)
    → IsTypedBody b
    → IsBody signer b
    → length (body_map b) ≤ 1700
length-body_map signer (create name members) t v = omega (
  arith,
  v,
  append_le _ _ (length-head 5 2) (
      append_le _ _ (length-head 0 0) (
        append_le _ _ (length-item 3 name)
          (append_le _ _ (length-head 0 1) (length-array_items members t.1)))),
)
length-body_map signer (add_members user_ids) t v = omega (
  arith,
  v,
  append_le _ _ (length-head 5 1) (append_le _ _ (length-head 0 0) (length-array_items user_ids t)),
)
length-body_map signer (remove_member user_id) t v = omega (
  arith,
  t.size,
  append_le _ _ (length-head 5 1) (append_le _ _ (length-head 0 0) (length-item 2 user_id)),
)
length-body_map signer (rename name) t v = omega (
  arith,
  v,
  append_le _ _ (length-head 5 1) (append_le _ _ (length-head 0 0) (length-item 3 name)),
)

length-nullable : (o : Option Bytes) → IsTypedHash o → length (nullable_item o) ≤ 41
length-nullable none t = omega arith
length-nullable (some hash) t = omega (arith, t.size, length-item 2 hash)

length-tail_map : (c : RoomControl) → IsTyped c → IsValid c → length (tail_map c) ≤ 1900
length-tail_map c t v = omega (
  arith,
  t.signer_user_id_typed.size,
  t.signer_device_id_typed.size,
  append_le _ _ (length-head 0 5) (
      append_le _ _ (length-item 2 c.signer_user_id) (
        append_le _ _ (length-head 0 6) (
          append_le _ _ (length-item 2 c.signer_device_id) (
            append_le _ _ (length-head 0 7) (
              append_le _ _ (length-head 0 c.created_ms) (
                append_le _ _ (length-head 0 8) (
                  append_le _ _ (length-head 0 (kind c.body)) (
                    append_le _ _ (length-head 0 9)
                      (length-body_map c.signer_user_id c.body t.body_typed v.6))))))))),
)

pub length-canonical : (c : RoomControl) → IsTyped c → IsValid c → length (canonical c) ≤ 2200
length-canonical c t v = omega (
  arith,
  t.event_id_typed.size,
  t.room_id_typed.size,
  append_le _ _ (length-head 5 10) (
      append_le _ _ (length-head 0 0) (
        append_le _ _ (length-head 0 1) (
          append_le _ _ (length-head 0 1) (
            append_le _ _ (length-item 2 c.event_id) (
              append_le _ _ (length-head 0 2) (
                append_le _ _ (length-item 2 c.room_id) (
                  append_le _ _ (length-head 0 3) (
                    append_le _ _ (length-head 0 c.revision) (
                      append_le _ _ (length-head 0 4) (
                        append_le _ _ (length-nullable c.previous_state_hash t.hash_typed)
                          (length-tail_map c t v))))))))))),
)

pub filled : (c : RoomControl) → 1 ≤ length (canonical c)
unfolding head
filled c = omega arith
