-- ===== src/Group/Validity.antt =====
-- group_control.rs: what `validate` accepts, without its tests.
use mathlib.Core.Bool.{xor}
use communication_platform.Base.{
  ◌≤◌, ◌<◌, ◌≡◌, ◌≢◌, ◌↔◌, ◌⊎◌, true, false, ◌||◌, none, List, [], ◌∷◌, length, replicate, ◌==◌, ok,
  arith,
}
use communication_platform.Base.Bytes.{Bytes, bytes_lt}
use communication_platform.Base.Text.{char_count}
use communication_platform.Room.{is_none}
use communication_platform.Room.Validity.{
  Ascends, pairs_ascend_iff, revision_iff, is_none_iff, guards_iff, differs_iff, in_time,
}
use communication_platform.Group.{
  GroupControl, ControlBody, Member, create, add_member, remove_member, change_role, rename, owners,
  any_unknown_role, members_ascend, validate_metadata, validate_body, validate, is_create,
  max_members, max_name_bytes, max_name_scalars, max_description_bytes, max_description_scalars,
  max_created_ms, max_role, max_invitation_policy, max_history_policy, role_owner,
}

-- Each member's identifier is below the next one's.
abbrev pub MembersAscend : List Member → Type 0
MembersAscend [] = Unit {0}
MembersAscend (x ∷ []) = Unit {0}
MembersAscend (x ∷ (y ∷ ys)) = (bytes_lt x.user_id y.user_id ≡ true) × MembersAscend (y ∷ ys)

abbrev pub KnownRoles : List Member → Type 0
KnownRoles [] = Unit {0}
KnownRoles (x ∷ xs) = (x.role ≤ max_role) × KnownRoles xs

abbrev pub NoOwner : List Member → Type 0
NoOwner [] = Unit {0}
NoOwner (x ∷ xs) = (x.role ≢ role_owner) × NoOwner xs

-- One member is the owner, and no other.
abbrev pub OneOwner : List Member → Type 0
OneOwner [] = ⊥
OneOwner (x ∷ xs) = ((x.role ≡ role_owner) × NoOwner xs) ⊎ ((x.role ≢ role_owner) × OneOwner xs)

abbrev pub IsMetadata : Bytes → Bytes → Type 0
IsMetadata name description =
    (1 ≤ length name)
    × (length name ≤ max_name_bytes)
    × (char_count name ≤ max_name_scalars)
    × (length description ≤ max_description_bytes)
    × (char_count description ≤ max_description_scalars)

abbrev pub IsBody : ControlBody → Type 0
IsBody (create name description invitation_policy history_policy members) =
    IsMetadata name description
    × (invitation_policy ≤ max_invitation_policy)
    × (history_policy ≤ max_history_policy)
    × (length members ≤ max_members)
    × OneOwner members
    × KnownRoles members
    × MembersAscend members
IsBody (add_member user_ids) =
    (1 ≤ length user_ids) × (length user_ids < max_members) × Ascends user_ids
IsBody (remove_member user_id) = Unit {0}
IsBody (change_role user_id role) = role ≤ max_role
IsBody (rename name description) = IsMetadata name description

NoOwner-iff : (xs : List Member) → owners xs ≡ 0 ↔ NoOwner xs
unfolding owners
NoOwner-iff [] = ground arith
NoOwner-iff (x ∷ xs) = ground (arith, NoOwner-iff xs)

OneOwner-iff : (xs : List Member) → owners xs ≡ 1 ↔ OneOwner xs
unfolding owners
OneOwner-iff [] = ground arith
OneOwner-iff (x ∷ xs) = ground (arith, NoOwner-iff xs, OneOwner-iff xs)

KnownRoles-iff : (xs : List Member) → any_unknown_role xs ≡ false ↔ KnownRoles xs
unfolding any_unknown_role
KnownRoles-iff [] = ground arith
KnownRoles-iff (x ∷ xs) = ground (arith, KnownRoles-iff xs)

members_ascend_iff : (xs : List Member) → members_ascend xs ≡ true ↔ MembersAscend xs
unfolding members_ascend
members_ascend_iff [] = ground arith
members_ascend_iff (x ∷ []) = ground arith
members_ascend_iff (x ∷ (y ∷ ys)) = ground (arith, members_ascend_iff (y ∷ ys))

validate_metadata_iff :
    (name description : Bytes)
    → validate_metadata name description ≡ ok tt ↔ IsMetadata name description
unfolding validate_metadata
validate_metadata_iff name description = ground arith

not_empty : (xs : List Member) → OneOwner xs → (length xs == 0) ≡ false
not_empty [] h = absurd h
not_empty (x ∷ xs) h = ground arith

validate_body_iff : (body : ControlBody) → validate_body body ≡ ok tt ↔ IsBody body
unfolding validate_body
validate_body_iff (create name description invitation_policy history_policy members) = ground (
  arith,
  validate_metadata_iff name description,
  OneOwner-iff members,
  not_empty members,
  KnownRoles-iff members,
  members_ascend_iff members,
)
validate_body_iff (add_member user_ids) = ground (arith, pairs_ascend_iff user_ids)
validate_body_iff (remove_member user_id) = ground arith
validate_body_iff (change_role user_id role) = ground arith
validate_body_iff (rename name description) = validate_metadata_iff name description

-- The first revision, and only it, creates the room and has no state before it.
abbrev pub IsFirst : GroupControl → Type 0
IsFirst c = (c.revision ≡ 1) × (is_create c.body ≡ true) × (c.previous_state_hash ≡ none)

abbrev pub IsLater : GroupControl → Type 0
IsLater c = (2 ≤ c.revision) × (is_create c.body ≡ false) × (is_none c.previous_state_hash ≡ false)

abbrev pub IsValid : GroupControl → Type 0
IsValid c =
    (IsFirst c ⊎ IsLater c)
    × (c.created_ms ≤ max_created_ms)
    × (c.event_id ≢ replicate 16 0)
    × (c.group_id ≢ replicate 32 0)
    × (c.signer_user_id ≢ replicate 16 0)
    × (c.signer_device_id ≢ replicate 16 0)
    × IsBody c.body

group_revision-IsFirst-IsLater :
    (c : GroupControl)
    → (c.revision == 0
          || xor (c.revision == 1) (is_create c.body)
          || xor (c.revision == 1) (is_none c.previous_state_hash))
        ≡ false
      ↔ IsFirst c ⊎ IsLater c
group_revision-IsFirst-IsLater c = ground (
  arith,
  revision_iff c.revision (is_create c.body) (is_none c.previous_state_hash),
  is_none_iff c.previous_state_hash,
)

-- `validate` accepts an event exactly when it is valid: the first revision, a creation with no hash
-- before it, or a later one that is neither; a time in range; an event, a group and a signer whose
-- identifiers are not all zeros; and a body within the limits on names, descriptions, policies,
-- roles and members, the members ascending, and on creation with exactly one owner.
pub group_validate_iff : (c : GroupControl) → validate c ≡ ok tt ↔ IsValid c
unfolding validate
group_validate_iff c =
    let g =
      guards_iff (c.revision == 0) (xor (c.revision == 1) (is_create c.body))
        (xor (c.revision == 1) (is_none c.previous_state_hash)) _ _ _ _ _ (validate_body c.body) in
    (
      λ h.
          let (r, t, i, o, u, d, b) = g.0 h in
          (
            (group_revision-IsFirst-IsLater c).0 r,
            (in_time _).0 t,
            (differs_iff _ _).0 i,
            (differs_iff _ _).0 o,
            (differs_iff _ _).0 u,
            (differs_iff _ _).0 d,
            (validate_body_iff c.body).0 b,
          ),
      λ v.
          let (r, t, i, o, u, d, b) = v in
          g.1 (
            (group_revision-IsFirst-IsLater c).1 r,
            (in_time _).1 t,
            (differs_iff _ _).1 i,
            (differs_iff _ _).1 o,
            (differs_iff _ _).1 u,
            (differs_iff _ _).1 d,
            (validate_body_iff c.body).1 b,
          ),
    )
