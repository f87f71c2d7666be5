-- ===== src/Room/ProjectionLaws.antt =====
-- room_control.rs: the projection frame and its reader are inverse to one another.
pub mod Accepted
use communication_platform.Base.{
  append-nil, ℕ, ◌+◌, ◌*◌, ◌^◌, ◌≤◌, ◌<◌, ◌≡◌, refl, Bool, true, false, not, Option, none, some,
  List, [], ◌∷◌, ◌++◌, length, length-append, All, ltb, ◌==◌, arith, Result, ok,
  ◌>>=◌ as bind_result, input_too_large, append_assoc,
}
use communication_platform.Base.Bytes.{Bytes, IsArray, to_be_bytes, length-to_be_bytes}
use communication_platform.Base.Text.{IsText, is_utf8, char_count}
use communication_platform.Protocol.Framing.{
  Parser, usize_end, max_input_bytes, ◌>>=◌, ◌>>◌, finish, lift, run, u8, u16,
}
use communication_platform.Protocol.Reads.{
  Reads, ReadsAll, frame, pure-Reads, bind-Reads, last-Reads, skip-Reads, reject-Reads, array-Reads,
  u8-Reads, u16-Reads, u32-Reads, u64-Reads, framed-Reads, lift-Reads, Reads-ReadsAll,
  bind-ReadsAll, finish-ReadsAll, run-ReadsAll, checked-ReadsAll,
}
use communication_platform.Protocol.Writing.{
  Writes, extend-Writes, nothing-Writes, then-Writes, push_u16-Writes, push_u32-Writes,
  push_u64-Writes, with_value-Writes, push_frame-Writes, written_by, written_by-Writes, push_u16,
  try_from,
}
use communication_platform.Room.{
  RoomControl, ControlBody, create, add_members, remove_member, rename, kind, room_control_version,
  IsTyped, IsTypedBody, IsTypedHash, validate,
}
use communication_platform.Room.Projection.{
  extend_each, push_user_ids, push_hash, encode_body, encode_projection,
}
use communication_platform.Room.ProjectionReader.{
  projection_text, arrays, projection_user_ids, read_hash, read_create, read_add_members,
  read_remove_member, read_rename, read_body, read_control, validated, decode_projection,
}
use communication_platform.Room.Validity.{IsName, IsBody, IsValid, validate_iff}

abbrev pub joined : List Bytes → Bytes
joined [] = []
joined (x ∷ xs) = x ++ joined xs

abbrev pub counted : List Bytes → Bytes
counted xs = to_be_bytes 2 (length xs) ++ joined xs

abbrev pub hash_bytes : Option Bytes → Bytes
hash_bytes none = 0 ∷ []
hash_bytes (some hash) = 1 ∷ hash

abbrev pub body_bytes : ControlBody → Bytes
body_bytes (create name members) = frame name ++ counted members
body_bytes (add_members user_ids) = counted user_ids
body_bytes (remove_member user_id) = user_id
body_bytes (rename name) = frame name

-- The frame as a layout of bytes.
abbrev pub projection : RoomControl → Bytes
projection c =
    (room_control_version ∷ [])
    ++ (c.event_id
        ++ (c.room_id
            ++ (to_be_bytes 4 c.revision
                ++ (hash_bytes c.previous_state_hash
                    ++ (c.signer_user_id
                        ++ (c.signer_device_id
                            ++ (to_be_bytes 8 c.created_ms
                                ++ ((kind c.body ∷ []) ++ body_bytes c.body))))))))

extend_each-Writes : (xs : List Bytes) → Writes (extend_each xs) (joined xs)
unfolding extend_each
extend_each-Writes [] = nothing-Writes
extend_each-Writes (x ∷ xs) = then-Writes (extend-Writes x) (extend_each-Writes xs)

push_user_ids-Writes :
    (xs : List Bytes) → length xs < 256 ^ 2 → Writes (push_user_ids xs) (counted xs)
unfolding push_user_ids
push_user_ids-Writes xs h =
    then-Writes (with_value-Writes push_u16 (ground arith) (push_u16-Writes _))
      (extend_each-Writes xs)

push_hash-Writes : (o : Option Bytes) → Writes (push_hash o) (hash_bytes o)
unfolding push_hash
push_hash-Writes none = extend-Writes _
push_hash-Writes (some hash) = then-Writes (extend-Writes _) (extend-Writes hash)

-- The sizes that an encoder of a body asks for.
abbrev pub IsShort : ControlBody → Type 0
IsShort (create name members) = (length name < 256 ^ 4) × (length members < 256 ^ 2)
IsShort (add_members user_ids) = length user_ids < 256 ^ 2
IsShort (remove_member user_id) = Unit {0}
IsShort (rename name) = length name < 256 ^ 4

encode_body-Writes : (b : ControlBody) → IsShort b → Writes (encode_body b) (body_bytes b)
unfolding encode_body
encode_body-Writes (create name members) h =
    then-Writes (push_frame-Writes name h.0) (push_user_ids-Writes members h.1)
encode_body-Writes (add_members user_ids) h = push_user_ids-Writes user_ids h
encode_body-Writes (remove_member user_id) h = extend-Writes user_id
encode_body-Writes (rename name) h = push_frame-Writes name h

pub encode_projection-Writes :
    (c : RoomControl) → IsShort c.body → Writes (encode_projection c) (projection c)
unfolding encode_projection
encode_projection-Writes c h = then-Writes (extend-Writes _) (
    then-Writes (extend-Writes c.event_id) (
      then-Writes (extend-Writes c.room_id) (
        then-Writes (push_u32-Writes c.revision) (
          then-Writes (push_hash-Writes c.previous_state_hash) (
            then-Writes (extend-Writes c.signer_user_id) (
              then-Writes (extend-Writes c.signer_device_id) (
                then-Writes (push_u64-Writes c.created_ms)
                  (then-Writes (extend-Writes _) (encode_body-Writes c.body h)))))))))

-- Reading.

projection_text-Reads :
    (name : Bytes) → IsText name → IsName name → Reads projection_text (frame name) name
unfolding projection_text
projection_text-Reads name t n = last-Reads _ (framed-Reads name (omega (arith, n))) (
    reject-Reads _ (ground (arith, n)) (
      reject-Reads _ (ground (arith, t.valid))
        (reject-Reads _ (ground (arith, n)) (pure-Reads name))))

arrays-Reads : (xs : List Bytes) → All (IsArray 16) xs → Reads (arrays (length xs)) (joined xs) xs
unfolding arrays
arrays-Reads [] h = pure-Reads []
arrays-Reads (x ∷ xs) h =
    bind-Reads _ (array-Reads x h.0.size) (last-Reads _ (arrays-Reads xs h.1) (pure-Reads (x ∷ xs)))

projection_user_ids-Reads :
    (n : ℕ) (xs : List Bytes)
    → All (IsArray 16) xs
    → length xs ≤ n
    → length xs < 256 ^ 2
    → Reads (projection_user_ids n) (counted xs) xs
unfolding projection_user_ids
projection_user_ids-Reads n xs t l h =
    bind-Reads _ (u16-Reads (length xs) h) (reject-Reads _ (ground arith) (arrays-Reads xs t))

read_hash-Reads : (o : Option Bytes) → IsTypedHash o → Reads (u8 >>= read_hash) (hash_bytes o) o
unfolding read_hash
read_hash-Reads none t = last-Reads read_hash (u8-Reads 0) (pure-Reads none)
read_hash-Reads (some hash) t =
    bind-Reads read_hash (u8-Reads 1)
      (last-Reads _ (array-Reads hash t.size) (pure-Reads (some hash)))

read_body-Reads :
    (signer : Bytes) (b : ControlBody)
    → IsTypedBody b
    → IsBody signer b
    → Reads (u8 >>= read_body) ((kind b ∷ []) ++ body_bytes b) b
unfolding read_body kind
read_body-Reads signer (create name members) t v = bind-Reads read_body (u8-Reads 1) (
    bind-Reads _ (projection_text-Reads name t.0 v.0) (
      last-Reads _ (projection_user_ids-Reads _ members t.1 (omega (arith, v)) (omega (arith, v)))
        (pure-Reads (create name members))))
read_body-Reads signer (add_members user_ids) t v = bind-Reads read_body (u8-Reads 2) (
    last-Reads _ (projection_user_ids-Reads _ user_ids t (omega (arith, v)) (omega (arith, v)))
      (pure-Reads (add_members user_ids)))
read_body-Reads signer (remove_member user_id) t v =
    bind-Reads read_body (u8-Reads 3)
      (last-Reads _ (array-Reads user_id t.size) (pure-Reads (remove_member user_id)))
read_body-Reads signer (rename name) t v =
    bind-Reads read_body (u8-Reads 4)
      (last-Reads _ (projection_text-Reads name t v) (pure-Reads (rename name)))

read_control-Reads : (c : RoomControl) → IsTyped c → IsValid c → Reads read_control (projection c) c
unfolding read_control
read_control-Reads c t v = bind-Reads _ (u8-Reads _) (
    reject-Reads _ refl (
      bind-Reads _ (array-Reads c.event_id t.event_id_typed.size) (
        bind-Reads _ (array-Reads c.room_id t.room_id_typed.size) (
          bind-Reads _ (u32-Reads c.revision t.revision_typed) (
            bind-Reads _ (read_hash-Reads c.previous_state_hash t.hash_typed) (
              bind-Reads _ (array-Reads c.signer_user_id t.signer_user_id_typed.size) (
                bind-Reads _ (array-Reads c.signer_device_id t.signer_device_id_typed.size) (
                  bind-Reads _ (u64-Reads c.created_ms t.created_ms_typed) (
                    last-Reads _ (read_body-Reads c.signer_user_id c.body t.body_typed v.6)
                      (pure-Reads c))))))))))

-- Sizes.

length-joined : (xs : List Bytes) → All (IsArray 16) xs → length (joined xs) ≡ 16 * length xs
length-joined [] h = refl
length-joined (x ∷ xs) h =
    omega (arith, length-append x (joined xs), h.0.size, length-joined xs h.1)

length-frame : (xs : Bytes) → length (frame xs) ≡ 4 + length xs
length-frame xs =
    omega (arith, length-append (to_be_bytes 4 (length xs)) xs, length-to_be_bytes 4 (length xs))

length-counted : (xs : List Bytes) → All (IsArray 16) xs → length (counted xs) ≡ 2 + 16 * length xs
length-counted xs h = omega (
  arith,
  length-append (to_be_bytes 2 (length xs)) (joined xs),
  length-to_be_bytes 2 (length xs),
  length-joined xs h,
)

length-body_bytes :
    (signer : Bytes) (b : ControlBody)
    → IsTypedBody b
    → IsBody signer b
    → length (body_bytes b) ≤ 1206
length-body_bytes signer (create name members) t v = omega (
  arith,
  v,
  length-append (frame name) (counted members),
  length-frame name,
  length-counted members t.1,
)
length-body_bytes signer (add_members user_ids) t v = omega (arith, v, length-counted user_ids t)
length-body_bytes signer (remove_member user_id) t v = omega (arith, t.size)
length-body_bytes signer (rename name) t v = omega (arith, v, length-frame name)

length-hash_bytes : (o : Option Bytes) → IsTypedHash o → length (hash_bytes o) ≤ 33
length-hash_bytes none t = omega arith
length-hash_bytes (some hash) t = omega (arith, t.size)

pub body-IsShort : (signer : Bytes) (b : ControlBody) → IsBody signer b → IsShort b
body-IsShort signer (create name members) v = (omega (arith, v), omega (arith, v))
body-IsShort signer (add_members user_ids) v = omega (arith, v)
body-IsShort signer (remove_member user_id) v = tt
body-IsShort signer (rename name) v = omega (arith, v)

pub length-projection : (c : RoomControl) → IsTyped c → IsValid c → length (projection c) ≤ 1335
length-projection c t v =
    simp
      (
        length-append, length-to_be_bytes, t.event_id_typed.size, t.room_id_typed.size,
        t.signer_user_id_typed.size, t.signer_device_id_typed.size,
      )
      (omega (
        arith,
        length-hash_bytes c.previous_state_hash t.hash_typed,
        length-body_bytes c.signer_user_id c.body t.body_typed v.6,
      ))

pub decode_projection_eq :
    (c : RoomControl) → IsTyped c → validate c ≡ ok tt → decode_projection (projection c) ≡ ok c
unfolding decode_projection validated
decode_projection_eq c t h =
    let v = (validate_iff c).0 h in
    let l = length-projection c t v in
    run-ReadsAll (checked-ReadsAll _ (read_control-Reads c t v) (rw h refl)) (omega (arith, l))

-- For an event of Rust's types that `validate` accepts, `encode_projection` returns bytes, and
-- `decode_projection` returns the event from exactly these bytes.
pub decode_projection-encode_projection :
    (c : RoomControl)
    → IsTyped c
    → validate c ≡ ok tt
    → (output : Bytes) × (written_by (encode_projection c) ≡ ok output)
      × (decode_projection output ≡ ok c)
decode_projection-encode_projection c t h =
    let v = (validate_iff c).0 h in
    (
      projection c,
      written_by-Writes (encode_projection-Writes c (body-IsShort _ c.body v.6)),
      decode_projection_eq c t h,
    )
