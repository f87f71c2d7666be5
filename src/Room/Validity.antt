-- ===== src/Room/Validity.antt =====
-- room_control.rs: what `validate` accepts, without its tests.
use mathlib.Core.Bool.{xor}
use communication_platform.Base.{
  malformed_input, ℕ, ◌≤◌, ◌<◌, ◌≡◌, ◌≢◌, ◌↔◌, ◌⊎◌, refl, Bool, true, false, Option, none, some,
  List, [], ◌∷◌, length, replicate, ltb, ◌==◌, ok, arith, Result, refuse, ◌||◌, ◌>>◌, CryptoError,
}
use communication_platform.Base.Bytes.{Bytes, bytes_eq, bytes_eq_iff, bytes_lt}
use communication_platform.Base.Text.{char_count}
use communication_platform.Room.{
  RoomControl, ControlBody, create, add_members, remove_member, rename, all_set, pairs_ascend,
  ascending, contains, validate_name, validate_body, validate, is_create, is_none, max_members,
  max_name_bytes, max_name_scalars, min_create_members, max_created_ms,
}

-- `x` stands in the list.
abbrev pub In : Bytes → List Bytes → Type 0
In x [] = ⊥
In x (y ∷ ys) = (y ≡ x) ⊎ In x ys

-- Each user is below the next in byte order.
abbrev pub Ascends : List Bytes → Type 0
Ascends [] = Unit {0}
Ascends (x ∷ []) = Unit {0}
Ascends (x ∷ (y ∷ ys)) = (bytes_lt x y ≡ true) × Ascends (y ∷ ys)

-- No user is all zeros.
abbrev pub AllSet : List Bytes → Type 0
AllSet [] = Unit {0}
AllSet (x ∷ xs) = (x ≢ replicate 16 0) × AllSet xs

abbrev pub IsName : Bytes → Type 0
IsName name =
    (1 ≤ length name) × (length name ≤ max_name_bytes) × (char_count name ≤ max_name_scalars)

-- What a body must be, for its signer.
abbrev pub IsBody : Bytes → ControlBody → Type 0
IsBody signer (create name members) =
    IsName name
    × (min_create_members ≤ length members)
    × (length members ≤ max_members)
    × AllSet members
    × Ascends members
    × In signer members
IsBody signer (add_members user_ids) =
    (1 ≤ length user_ids) × (length user_ids < max_members) × AllSet user_ids × Ascends user_ids
IsBody signer (remove_member user_id) = user_id ≢ replicate 16 0
IsBody signer (rename name) = IsName name

-- The first revision, and only it, creates the room and has no state before it.
abbrev pub IsFirst : RoomControl → Type 0
IsFirst c = (c.revision ≡ 1) × (is_create c.body ≡ true) × (c.previous_state_hash ≡ none)

abbrev pub IsLater : RoomControl → Type 0
IsLater c = (2 ≤ c.revision) × (is_create c.body ≡ false) × (is_none c.previous_state_hash ≡ false)

abbrev pub IsValid : RoomControl → Type 0
IsValid c =
    (IsFirst c ⊎ IsLater c)
    × (c.created_ms ≤ max_created_ms)
    × (c.event_id ≢ replicate 16 0)
    × (c.room_id ≢ replicate 32 0)
    × (c.signer_user_id ≢ replicate 16 0)
    × (c.signer_device_id ≢ replicate 16 0)
    × IsBody c.signer_user_id c.body

pub refuse_iff : (c : Bool) (e : CryptoError) → refuse c e ≡ ok tt ↔ c ≡ false
refuse_iff true e = (λ h. absurd (cc h), λ h. absurd (cc h))
refuse_iff false e = (λ h. refl, λ h. refl)

pub all_set_iff : (xs : List Bytes) → all_set xs ≡ true ↔ AllSet xs
unfolding all_set
all_set_iff [] = ground arith
all_set_iff (x ∷ xs) = ground (arith, all_set_iff xs, bytes_eq_iff x (replicate 16 0))

pub pairs_ascend_iff : (xs : List Bytes) → pairs_ascend xs ≡ true ↔ Ascends xs
unfolding pairs_ascend
pairs_ascend_iff [] = ground arith
pairs_ascend_iff (x ∷ []) = ground arith
pairs_ascend_iff (x ∷ (y ∷ ys)) = ground (arith, pairs_ascend_iff (y ∷ ys))

pub ascending_iff : (xs : List Bytes) → ascending xs ≡ true ↔ AllSet xs × Ascends xs
unfolding ascending
ascending_iff xs = ground (arith, all_set_iff xs, pairs_ascend_iff xs)

pub contains_iff : (xs : List Bytes) (x : Bytes) → contains xs x ≡ true ↔ In x xs
unfolding contains
contains_iff [] x = ground arith
contains_iff (y ∷ ys) x = ground (arith, contains_iff ys x, bytes_eq_iff y x)

pub validate_name_iff : (name : Bytes) → validate_name name ≡ ok tt ↔ IsName name
unfolding validate_name
validate_name_iff name = ground arith

pub validate_body_iff :
    (signer : Bytes) (body : ControlBody) → validate_body signer body ≡ ok tt ↔ IsBody signer body
unfolding validate_body
validate_body_iff signer (create name members) =
    ground (arith, validate_name_iff name, ascending_iff members, contains_iff members signer)
validate_body_iff signer (add_members user_ids) = ground (arith, ascending_iff user_ids)
validate_body_iff signer (remove_member user_id) =
    ground (arith, bytes_eq_iff user_id (replicate 16 0))
validate_body_iff signer (rename name) = validate_name_iff name

pub xor_equal : (a b : Bool) → xor a b ≡ false ↔ a ≡ b
unfolding xor
xor_equal true true = ground arith
xor_equal true false = ground arith
xor_equal false true = ground arith
xor_equal false false = ground arith

-- The two tests that tie the revision to the first event.
pub revision_iff :
    (n : ℕ) (b h : Bool)
    → (n == 0 || xor (n == 1) b || xor (n == 1) h) ≡ false
      ↔ ((n ≡ 1) × (b ≡ true) × (h ≡ true)) ⊎ ((2 ≤ n) × (b ≡ false) × (h ≡ false))
revision_iff n b h = ground (arith, xor_equal (n == 1) b, xor_equal (n == 1) h)

pub is_none_iff : (o : Option Bytes) → is_none o ≡ true ↔ o ≡ none
unfolding is_none
is_none_iff none = (λ h. refl, λ h. refl)
is_none_iff (some x) = (λ h. absurd (cc h), λ h. absurd (cc h))

revision-IsFirst-IsLater :
    (c : RoomControl)
    → (c.revision == 0
          || xor (c.revision == 1) (is_create c.body)
          || xor (c.revision == 1) (is_none c.previous_state_hash))
        ≡ false
      ↔ IsFirst c ⊎ IsLater c
revision-IsFirst-IsLater c = ground (
  arith,
  revision_iff c.revision (is_create c.body) (is_none c.previous_state_hash),
  is_none_iff c.previous_state_hash,
)

pub guards_iff :
    (a b c d e f g h : Bool) (m : Result (Unit {0}))
    → (refuse (a || b || c || d || e || f || g || h) malformed_input >> m) ≡ ok tt
      ↔ ((a || b || c) ≡ false)
        × (d ≡ false)
        × (e ≡ false)
        × (f ≡ false)
        × (g ≡ false)
        × (h ≡ false)
        × (m ≡ ok tt)
guards_iff a b c d e f g h m = ground arith

pub in_time : (n : ℕ) → ltb max_created_ms n ≡ false ↔ n ≤ max_created_ms
in_time n = ground arith

pub differs_iff : (xs ys : Bytes) → bytes_eq xs ys ≡ false ↔ xs ≢ ys
differs_iff xs ys = ground (arith, bytes_eq_iff xs ys)

-- `validate` accepts an event exactly when it is valid: the first revision, a creation with no hash
-- before it, or a later one that is neither; a time in range; identifiers that are not all zeros;
-- and a body within the limits on names and members, the members set, ascending, and on creation
-- with the signer among them.
pub validate_iff : (c : RoomControl) → validate c ≡ ok tt ↔ IsValid c
unfolding validate
validate_iff c =
    let g =
      guards_iff (c.revision == 0) (xor (c.revision == 1) (is_create c.body))
        (xor (c.revision == 1) (is_none c.previous_state_hash)) _ _ _ _ _
        (validate_body c.signer_user_id c.body) in
    (
      λ h.
          let (r, t, i, o, u, d, b) = g.0 h in
          (
            (revision-IsFirst-IsLater c).0 r,
            (in_time _).0 t,
            (differs_iff _ _).0 i,
            (differs_iff _ _).0 o,
            (differs_iff _ _).0 u,
            (differs_iff _ _).0 d,
            (validate_body_iff _ c.body).0 b,
          ),
      λ v.
          let (r, t, i, o, u, d, b) = v in
          g.1 (
            (revision-IsFirst-IsLater c).1 r,
            (in_time _).1 t,
            (differs_iff _ _).1 i,
            (differs_iff _ _).1 o,
            (differs_iff _ _).1 u,
            (differs_iff _ _).1 d,
            (validate_body_iff _ c.body).1 b,
          ),
    )
