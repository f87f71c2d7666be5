-- ===== src/Group.antt =====
-- frontend/native/crypto_core/src/group_control.rs: the signed control events of groups. This file
-- has their data and their rules; what the code repeats of rooms is taken from there.
pub mod Projection
pub mod ProjectionReader
pub mod Canonical
pub mod CanonicalReader
pub mod Sealing
pub mod SealingLaws
pub mod Domains
pub mod Validity
pub mod Tests
use mathlib.Core.Bool.{xor}
use communication_platform.Base.{
  ℕ, ◌+◌, ◌^◌, ◌<◌, Bool, true, false, not, ◌&&◌, ◌||◌, Option, List, [], ◌∷◌, length, replicate,
  All, ltb, ◌==◌, if◌then◌else◌, suc, Result, ok, ◌>>=◌, ◌>>◌, refuse, malformed_input,
  input_too_large,
}
use communication_platform.Base.Bytes.{Bytes, IsByte, IsArray, bytes_eq, bytes_lt}
use communication_platform.Base.Text.{IsText, char_count}
use communication_platform.Room.{is_none, pairs_ascend, IsTypedHash}

abbrev pub group_control_version : ℕ
group_control_version = 1

abbrev pub max_group_control_bytes : ℕ
max_group_control_bytes = 16384

abbrev pub kind_create : ℕ
kind_create = 1

abbrev pub kind_add_member : ℕ
kind_add_member = 2

abbrev pub kind_remove_member : ℕ
kind_remove_member = 3

abbrev pub kind_change_role : ℕ
kind_change_role = 4

abbrev pub kind_rename : ℕ
kind_rename = 5

abbrev pub role_owner : ℕ
role_owner = 0

abbrev pub max_role : ℕ
max_role = 2

abbrev pub max_invitation_policy : ℕ
max_invitation_policy = 2

abbrev pub max_history_policy : ℕ
max_history_policy = 1

abbrev pub max_members : ℕ
max_members = 50

abbrev pub max_name_bytes : ℕ
max_name_bytes = 400

abbrev pub max_name_scalars : ℕ
max_name_scalars = 100

abbrev pub max_description_bytes : ℕ
max_description_bytes = 4000

abbrev pub max_description_scalars : ℕ
max_description_scalars = 1000

abbrev pub max_created_ms : ℕ
max_created_ms = 8640000000000000

pub record Member : Type 0 where
  pub user_id : Bytes
  pub role : ℕ

pub data ControlBody : Type 0 where
  create : Bytes → Bytes → ℕ → ℕ → List Member → ControlBody
  add_member : List Bytes → ControlBody
  remove_member : Bytes → ControlBody
  change_role : Bytes → ℕ → ControlBody
  rename : Bytes → Bytes → ControlBody

pub record GroupControl : Type 0 where
  pub event_id : Bytes
  pub group_id : Bytes
  pub revision : ℕ
  pub previous_state_hash : Option Bytes
  pub signer_user_id : Bytes
  pub signer_device_id : Bytes
  pub created_ms : ℕ
  pub body : ControlBody

unfoldable pub kind : ControlBody → ℕ
kind (create name description invitation_policy history_policy members) = kind_create
kind (add_member user_ids) = kind_add_member
kind (remove_member user_id) = kind_remove_member
kind (change_role user_id role) = kind_change_role
kind (rename name description) = kind_rename

-- What the Rust types say of a value.
abbrev pub IsTypedMember : Member → Type 0
IsTypedMember x = IsArray 16 x.user_id × IsByte x.role

abbrev pub IsTypedBody : ControlBody → Type 0
IsTypedBody (create name description invitation_policy history_policy members) =
    IsText name
    × IsText description
    × IsByte invitation_policy
    × IsByte history_policy
    × All IsTypedMember members
IsTypedBody (add_member user_ids) = All (IsArray 16) user_ids
IsTypedBody (remove_member user_id) = IsArray 16 user_id
IsTypedBody (change_role user_id role) = IsArray 16 user_id × IsByte role
IsTypedBody (rename name description) = IsText name × IsText description

pub record IsTyped (c : GroupControl) : Type 0 where
  pub event_id_typed : IsArray 16 c.event_id
  pub group_id_typed : IsArray 32 c.group_id
  pub revision_typed : c.revision < 256 ^ 4
  pub hash_typed : IsTypedHash c.previous_state_hash
  pub signer_user_id_typed : IsArray 16 c.signer_user_id
  pub signer_device_id_typed : IsArray 16 c.signer_device_id
  pub created_ms_typed : c.created_ms < 256 ^ 8
  pub body_typed : IsTypedBody c.body

unfoldable pub is_create : ControlBody → Bool
is_create (create name description invitation_policy history_policy members) = true
is_create (add_member user_ids) = false
is_create (remove_member user_id) = false
is_create (change_role user_id role) = false
is_create (rename name description) = false

-- `members.iter().filter(|member| member.role == ROLE_OWNER).count()`
unfoldable pub owners : List Member → ℕ
owners [] = 0
owners (x ∷ xs) = let rest = owners xs in if x.role == role_owner then suc rest else rest

-- `members.iter().any(|member| member.role > MAX_ROLE)`
unfoldable pub any_unknown_role : List Member → Bool
any_unknown_role [] = false
any_unknown_role (x ∷ xs) = ltb max_role x.role || any_unknown_role xs

-- `members.windows(2).all(|pair| pair[0].user_id < pair[1].user_id)`
unfoldable pub members_ascend : List Member → Bool
members_ascend [] = true
members_ascend (x ∷ []) = true
members_ascend (x ∷ (y ∷ ys)) = bytes_lt x.user_id y.user_id && members_ascend (y ∷ ys)

unfoldable pub validate_metadata : Bytes → Bytes → Result (Unit {0})
validate_metadata name description = do
  refuse
      (ltb max_name_bytes (length name)
        || ltb max_name_scalars (char_count name)
        || ltb max_description_bytes (length description)
        || ltb max_description_scalars (char_count description))
      input_too_large
  refuse (length name == 0) malformed_input

unfoldable pub validate_body : ControlBody → Result (Unit {0})
unfolding validate_metadata owners any_unknown_role members_ascend pairs_ascend
validate_body (create name description invitation_policy history_policy members) = do
  validate_metadata name description
  refuse (ltb max_members (length members)) input_too_large
  refuse
      (ltb max_invitation_policy invitation_policy
        || ltb max_history_policy history_policy
        || length members == 0
        || not (owners members == 1)
        || any_unknown_role members
        || not (members_ascend members))
      malformed_input
validate_body (add_member user_ids) = do
  refuse (not (ltb (length user_ids) max_members)) input_too_large
  refuse (length user_ids == 0 || not (pairs_ascend user_ids)) malformed_input
validate_body (remove_member user_id) = ok tt
validate_body (change_role user_id role) = refuse (ltb max_role role) malformed_input
validate_body (rename name description) = validate_metadata name description

unfoldable pub validate : GroupControl → Result (Unit {0})
unfolding is_create is_none validate_body
validate c = do
  refuse
      (c.revision == 0
        || xor (c.revision == 1) (is_create c.body)
        || xor (c.revision == 1) (is_none c.previous_state_hash)
        || ltb max_created_ms c.created_ms
        || bytes_eq c.event_id (replicate 16 0)
        || bytes_eq c.group_id (replicate 32 0)
        || bytes_eq c.signer_user_id (replicate 16 0)
        || bytes_eq c.signer_device_id (replicate 16 0))
      malformed_input
  validate_body c.body
