-- ===== src/Pairwise.antt =====
-- pairwise.rs: the records and flags of the headers of pairwise messages. `Reading` parses headers
-- and envelopes, with the `valid_key_id` and `is_zero` of other modules, which have the same code;
-- `Writing` makes them. The sessions, their keys and the encryption are not modelled.
pub mod Reading
pub mod Writing
pub mod Headers
pub mod Buckets
pub mod Envelopes
mod Tests
use communication_platform.Base.{
  ℕ, Bool, not, ◌||◌, ◌&&◌, Option, List, [], ◌∷◌, ltb, ◌==◌, Result, refuse, malformed_input,
}
use communication_platform.Base.Bytes.{Bytes}
use communication_platform.Prekey.{key_id_max}
use Prim.Native.Nat.{bit_and}

abbrev pub protocol_version : ℕ
protocol_version = 1

abbrev pub suite : ℕ
suite = 1

abbrev pub header_version : ℕ
header_version = 1

abbrev pub flag_initial : ℕ
flag_initial = 0x01

abbrev pub flag_classical_one_time : ℕ
flag_classical_one_time = 0x02

abbrev pub flag_pq_one_time : ℕ
flag_pq_one_time = 0x04

abbrev pub flag_repair_replacement : ℕ
flag_repair_replacement = 0x08

-- `!KNOWN_HEADER_FLAGS`
abbrev pub unknown_header_flags : ℕ
unknown_header_flags = 0xf0

abbrev pub absent_prekey_id : ℕ
absent_prekey_id = 0xffffffff

abbrev pub mlkem768_ciphertext_bytes : ℕ
mlkem768_ciphertext_bytes = 1088

abbrev pub xchacha_abytes : ℕ
xchacha_abytes = 16

abbrev pub regular_header_size : ℕ
regular_header_size = 58

abbrev pub sender_block_without_repair_bytes : ℕ
sender_block_without_repair_bytes = 170

abbrev pub sender_block_repair_bytes : ℕ
sender_block_repair_bytes = 218

abbrev pub allowed_buckets : List ℕ
allowed_buckets = 1024 ∷ 4096 ∷ 16384 ∷ 65536 ∷ 262144 ∷ []

pub record InitialHeader : Type 0 where
  pub flags : ℕ
  pub session_id : Bytes
  pub ratchet_public : Bytes
  pub signed_prekey_id : ℕ
  pub one_time_prekey_id : ℕ
  pub pq_signed_prekey_id : ℕ
  pub pq_one_time_prekey_id : ℕ
  pub ephemeral_public : Bytes
  pub pq_signed_ciphertext : Bytes
  pub pq_one_time_ciphertext : Option Bytes
  pub sender_seal : Bytes

pub record RegularHeader : Type 0 where
  pub session_id : Bytes
  pub ratchet_public : Bytes
  pub previous_chain_length : ℕ
  pub message_number : ℕ

pub data RatchetHeader : Type 0 where
  initial : InitialHeader → RatchetHeader
  regular : RegularHeader → RatchetHeader

-- `flags & flag != 0`
unfoldable pub has_flag : ℕ → ℕ → Bool
has_flag flag flags = not (bit_and flags flag == 0)

unfoldable pub validate_optional_id : Bool → ℕ → Result (Unit {0})
validate_optional_id present id =
    refuse ((present && ltb key_id_max id) || (not present && not (id == absent_prekey_id)))
      malformed_input
