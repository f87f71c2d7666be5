-- ===== src/Prekey.antt =====
-- prekey_state.rs: the prekeys of a device and its pending upload, with the lookups and the small
-- steps on them. `Codec`, `CodecReader` and `Migration` are the stored form, `Checks` its
-- validation, `Operations`, `Replenish`, `Rotation` and `Identity` the operations that make new
-- keys or read the account's; the other children are proofs.
pub mod Codec
pub mod CodecReader
pub mod Migration
pub mod Checks
pub mod Identity
pub mod Ids
pub mod Triples
pub mod Soundness
pub mod Growth
pub mod Rotated
pub mod RotationLaws
pub mod RotationSpec
pub mod RotationLayout
pub mod RotationCases
pub mod RotationProgress
pub mod Steps
pub mod Retries
pub mod Layout
pub mod Typed
pub mod RoundTrip
pub mod Persistence
pub mod Tests
pub mod Runs
mod LiveRuns
pub mod Live
pub mod LiveKeys
pub mod LiveUploads
pub mod LiveRotation
pub mod Lifetime
pub mod Operations
pub mod Replenish
pub mod Rotation
use mathlib.Core.Option
use communication_platform.Base.{
  ℕ, zero, suc, ◌+◌, ◌^◌, Bool, true, false, Option, none, some, List, [], ◌∷◌, map, leb, ltb, ◌==◌,
  if◌then◌else◌, Result, ok, err, ok_or, state_violation, ◌>>=◌ as bind_result,
}
use communication_platform.Base.Bytes.{Bytes, bytes_eq}
use communication_platform.Protocol.Framing.{checked_add}
use communication_platform.DeviceSignatures.{from_halves}

-- `DEVICE_V1_MAGIC`, "CPDVV001".
abbrev pub device_v1_magic : Bytes
device_v1_magic = 67 ∷ 80 ∷ 68 ∷ 86 ∷ 86 ∷ 48 ∷ 48 ∷ 49 ∷ []

-- "CPDVV002"
abbrev pub device_v2_magic : Bytes
device_v2_magic = 67 ∷ 80 ∷ 68 ∷ 86 ∷ 86 ∷ 48 ∷ 48 ∷ 50 ∷ []

-- "CPKUV001"
abbrev pub upload_magic : Bytes
upload_magic = 67 ∷ 80 ∷ 75 ∷ 85 ∷ 86 ∷ 48 ∷ 48 ∷ 49 ∷ []

-- "chat:v1:device-prekey-state-auth"
abbrev pub state_auth_domain : Bytes
state_auth_domain =
    99 ∷ 104 ∷ 97 ∷ 116 ∷ 58 ∷ 118 ∷ 49 ∷ 58 ∷ 100 ∷ 101 ∷ 118 ∷ 105 ∷ 99 ∷ 101 ∷ 45 ∷ 112 ∷ 114
    ∷ 101 ∷ 107 ∷ 101 ∷ 121 ∷ 45 ∷ 115 ∷ 116 ∷ 97 ∷ 116 ∷ 101 ∷ 45 ∷ 97 ∷ 117 ∷ 116 ∷ 104 ∷ []

abbrev pub state_auth_tag_bytes : ℕ
state_auth_tag_bytes = 32

abbrev pub max_classical_one_time : ℕ
max_classical_one_time = 400

abbrev pub max_pq_one_time : ℕ
max_pq_one_time = 240

abbrev pub max_retired_signed_pairs : ℕ
max_retired_signed_pairs = 3

abbrev pub max_backend_classical_one_time : ℕ
max_backend_classical_one_time = 200

abbrev pub max_backend_pq_one_time : ℕ
max_backend_pq_one_time = 100

abbrev pub key_id_max : ℕ
key_id_max = 2147483647

abbrev pub upload_replenish : ℕ
upload_replenish = 1

abbrev pub upload_rotation : ℕ
upload_rotation = 2

abbrev pub u32_end : ℕ
u32_end = 2 ^ 32

abbrev pub u32_max : ℕ
u32_max = 4294967295

abbrev pub mlkem768_public_bytes : ℕ
mlkem768_public_bytes = 1184

abbrev pub mlkem768_secret_bytes : ℕ
mlkem768_secret_bytes = 2400

-- `ClassicalSignedKey` and `PqSignedKey`, whose arrays differ in size only.
pub record SignedKey : Type 0 where
  pub id : ℕ
  pub created_day : ℕ
  public : Bytes
  pub signature : Bytes
  pub secret : Bytes

pub record RetiredSignedPair : Type 0 where
  pub retain_through_day : ℕ
  pub classical : SignedKey
  pub pq : SignedKey

-- `ClassicalOneTimeKey` and `PqOneTimeKey`.
pub record OneTimeKey : Type 0 where
  pub id : ℕ
  public : Bytes
  pub secret : Bytes

pub record PendingUpload : Type 0 where
  pub batch_id : Bytes
  pub kind : ℕ
  pub exact_projection : Bytes

unfoldable pub is_rotation : PendingUpload → Bool
is_rotation pending = pending.kind == upload_rotation

pub record DeviceState : Type 0 where
  pub user_id : Bytes
  pub registration_id : ℕ
  pub bundle_version : ℕ
  pub next_classical_one_time_id : ℕ
  pub next_pq_one_time_id : ℕ
  pub device_signing_public : Bytes
  pub identity_public : Bytes
  pub device_signing_secret : Bytes
  pub identity_secret : Bytes
  pub current_classical : SignedKey
  pub current_pq : SignedKey
  pub cross_signature : Bytes
  pub retired : List RetiredSignedPair
  pub classical_one_time : List OneTimeKey
  pub pq_one_time : List OneTimeKey
  pub pending : Option PendingUpload

unfoldable pub ik_public : DeviceState → Bytes
unfolding from_halves
ik_public s = from_halves s.device_signing_public s.identity_public

-- `iter().find(|value| id_of(value) == id)`.
unfoldable pub find_id : {A : Type 0} → (A → ℕ) → ℕ → List A → Option A
find_id id_of id [] = none
find_id id_of id (value ∷ values) =
    if id_of value == id then some value else find_id id_of id values

unfoldable pub position_id : ℕ → List OneTimeKey → Option ℕ
position_id id [] = none
position_id id (key ∷ keys) = if key.id == id then some 0 else Option.map suc (position_id id keys)

-- `Vec::remove`; the position is one that was found.
unfoldable pub remove_at : ℕ → List OneTimeKey → List OneTimeKey
remove_at position [] = []
remove_at zero (key ∷ keys) = keys
remove_at (suc position) (key ∷ keys) = key ∷ remove_at position keys

unfoldable pub signed_classical : ℕ → DeviceState → Option SignedKey
unfolding find_id
signed_classical id s =
    if s.current_classical.id == id
    then some s.current_classical
    else Option.map (λ (pair : RetiredSignedPair). pair.classical)
        (find_id (λ (pair : RetiredSignedPair). pair.classical.id) id s.retired)

unfoldable pub signed_pq : ℕ → DeviceState → Option SignedKey
unfolding find_id
signed_pq id s =
    if s.current_pq.id == id
    then some s.current_pq
    else Option.map (λ (pair : RetiredSignedPair). pair.pq)
        (find_id (λ (pair : RetiredSignedPair). pair.pq.id) id s.retired)

unfoldable pub classical_one_time : ℕ → DeviceState → Option OneTimeKey
unfolding find_id
classical_one_time id s = find_id OneTimeKey.id id s.classical_one_time

unfoldable pub pq_one_time : ℕ → DeviceState → Option OneTimeKey
unfolding find_id
pq_one_time id s = find_id OneTimeKey.id id s.pq_one_time

-- A failed consumption returns before the state is changed.
unfoldable pub consume_classical_one_time : ℕ → DeviceState → Result (Unit {0}) × DeviceState
consume_classical_one_time id s = elim (position_id id s.classical_one_time) [
  | none ↦ (err state_violation, s)
  | some position ↦
      (ok tt, record s { classical_one_time = remove_at position s.classical_one_time })
]

unfoldable pub consume_pq_one_time : ℕ → DeviceState → Result (Unit {0}) × DeviceState
consume_pq_one_time id s = elim (position_id id s.pq_one_time) [
  | none ↦ (err state_violation, s)
  | some position ↦ (ok tt, record s { pq_one_time = remove_at position s.pq_one_time })
]

unfoldable pub retain_through : ℕ → List RetiredSignedPair → List RetiredSignedPair
retain_through coarse_day [] = []
retain_through coarse_day (pair ∷ pairs) =
    let rest = retain_through coarse_day pairs in
    if leb coarse_day pair.retain_through_day then pair ∷ rest else rest

unfoldable pub prune_retired : ℕ → DeviceState → DeviceState
prune_retired coarse_day s = record s { retired = retain_through coarse_day s.retired }

-- `ids.copied().max().unwrap_or(0)`.
unfoldable pub max_id : List ℕ → ℕ
max_id [] = 0
max_id (id ∷ ids) = let rest = max_id ids in if ltb rest id then id else rest

unfoldable pub initial_next_id : List ℕ → Result ℕ
unfolding max_id
initial_next_id ids =
    if max_id ids == key_id_max
    then ok u32_max
    else ok_or (checked_add u32_end (max_id ids) 1) state_violation

-- The identifier that is taken, and the next high-water mark.
unfoldable pub take_next_id : ℕ → Result ℕ × ℕ
take_next_id high_water =
    if ltb key_id_max high_water
    then (err state_violation, high_water)
    else if high_water == key_id_max
    then (ok high_water, u32_max)
    else elim (checked_add u32_end high_water 1) [
      | none ↦ (err state_violation, high_water)
      | some next ↦ (ok high_water, next)
    ]
