-- ===== src/Room.antt =====
-- frontend/native/crypto_core/src/room_control.rs: the signed control events of voice rooms. This
-- file has their data and their rules; the children have the two encodings, and sealing and opening.
pub mod Projection
pub mod ProjectionReader
pub mod Canonical
pub mod CanonicalReader
pub mod Sealing
pub mod SealingLaws
pub mod Validity
pub mod ProjectionLaws
pub mod CanonicalLaws
pub mod Tests
use mathlib.Core.Bool.{xor}
use communication_platform.Base.{
  ℕ, ◌+◌, ◌^◌, ◌<◌, ◌≡◌, Bool, true, false, not, ◌&&◌, ◌||◌, Option, none, some, List, [], ◌∷◌,
  length, replicate, All, ltb, ◌==◌, Result, ok, err, ◌>>=◌, ◌>>◌, refuse, malformed_input,
  input_too_large,
}
use communication_platform.Base.Bytes.{Bytes, IsArray, bytes_eq, bytes_lt}
use communication_platform.Base.Text.{IsText, char_count}

abbrev pub room_control_version : ℕ
room_control_version = 1

abbrev pub max_room_control_bytes : ℕ
max_room_control_bytes = 16384

abbrev pub kind_create : ℕ
kind_create = 1

abbrev pub kind_add_members : ℕ
kind_add_members = 2

abbrev pub kind_remove_member : ℕ
kind_remove_member = 3

abbrev pub kind_rename : ℕ
kind_rename = 4

abbrev pub min_create_members : ℕ
min_create_members = 2

abbrev pub max_members : ℕ
max_members = 50

abbrev pub max_name_bytes : ℕ
max_name_bytes = 400

abbrev pub max_name_scalars : ℕ
max_name_scalars = 100

abbrev pub max_created_ms : ℕ
max_created_ms = 8640000000000000

pub data ControlBody : Type 0 where
  create : Bytes → List Bytes → ControlBody
  add_members : List Bytes → ControlBody
  remove_member : Bytes → ControlBody
  rename : Bytes → ControlBody

pub record RoomControl : Type 0 where
  pub event_id : Bytes
  pub room_id : Bytes
  pub revision : ℕ
  pub previous_state_hash : Option Bytes
  pub signer_user_id : Bytes
  pub signer_device_id : Bytes
  pub created_ms : ℕ
  pub body : ControlBody

unfoldable pub kind : ControlBody → ℕ
kind (create name members) = kind_create
kind (add_members user_ids) = kind_add_members
kind (remove_member user_id) = kind_remove_member
kind (rename name) = kind_rename

-- What the Rust types say of a value: the sizes of arrays and integers, and UTF-8 strings.
abbrev pub IsTypedBody : ControlBody → Type 0
IsTypedBody (create name members) = IsText name × All (IsArray 16) members
IsTypedBody (add_members user_ids) = All (IsArray 16) user_ids
IsTypedBody (remove_member user_id) = IsArray 16 user_id
IsTypedBody (rename name) = IsText name

abbrev pub IsTypedHash : Option Bytes → Type 0
IsTypedHash none = Unit {0}
IsTypedHash (some hash) = IsArray 32 hash

pub record IsTyped (c : RoomControl) : Type 0 where
  pub event_id_typed : IsArray 16 c.event_id
  pub room_id_typed : IsArray 32 c.room_id
  pub revision_typed : c.revision < 256 ^ 4
  pub hash_typed : IsTypedHash c.previous_state_hash
  pub signer_user_id_typed : IsArray 16 c.signer_user_id
  pub signer_device_id_typed : IsArray 16 c.signer_device_id
  pub created_ms_typed : c.created_ms < 256 ^ 8
  pub body_typed : IsTypedBody c.body

unfoldable pub is_create : ControlBody → Bool
is_create (create name members) = true
is_create (add_members user_ids) = false
is_create (remove_member user_id) = false
is_create (rename name) = false

unfoldable pub is_none : Option Bytes → Bool
is_none none = true
is_none (some hash) = false

-- `user_ids.iter().all(|user_id| *user_id != [0; 16])`
unfoldable pub all_set : List Bytes → Bool
all_set [] = true
all_set (x ∷ xs) = not (bytes_eq x (replicate 16 0)) && all_set xs

-- `user_ids.windows(2).all(|pair| pair[0] < pair[1])`
unfoldable pub pairs_ascend : List Bytes → Bool
pairs_ascend [] = true
pairs_ascend (x ∷ []) = true
pairs_ascend (x ∷ (y ∷ ys)) = bytes_lt x y && pairs_ascend (y ∷ ys)

unfoldable pub ascending : List Bytes → Bool
unfolding all_set pairs_ascend
ascending user_ids = all_set user_ids && pairs_ascend user_ids

unfoldable pub contains : List Bytes → Bytes → Bool
contains [] x = false
contains (y ∷ ys) x = bytes_eq y x || contains ys x

unfoldable pub validate_name : Bytes → Result (Unit {0})
validate_name name = do
  refuse (ltb max_name_bytes (length name) || ltb max_name_scalars (char_count name))
      input_too_large
  refuse (length name == 0) malformed_input

unfoldable pub validate_body : Bytes → ControlBody → Result (Unit {0})
unfolding validate_name ascending contains
validate_body signer (create name members) = do
  validate_name name
  refuse (ltb max_members (length members)) input_too_large
  refuse
      (ltb (length members) min_create_members
        || not (ascending members)
        || not (contains members signer))
      malformed_input
validate_body signer (add_members user_ids) = do
  refuse (not (ltb (length user_ids) max_members)) input_too_large
  refuse (length user_ids == 0 || not (ascending user_ids)) malformed_input
validate_body signer (remove_member user_id) =
    refuse (bytes_eq user_id (replicate 16 0)) malformed_input
validate_body signer (rename name) = validate_name name

unfoldable pub validate : RoomControl → Result (Unit {0})
unfolding is_create is_none validate_body
validate c = do
  refuse
      (c.revision == 0
        || xor (c.revision == 1) (is_create c.body)
        || xor (c.revision == 1) (is_none c.previous_state_hash)
        || ltb max_created_ms c.created_ms
        || bytes_eq c.event_id (replicate 16 0)
        || bytes_eq c.room_id (replicate 32 0)
        || bytes_eq c.signer_user_id (replicate 16 0)
        || bytes_eq c.signer_device_id (replicate 16 0))
      malformed_input
  validate_body c.signer_user_id c.body
