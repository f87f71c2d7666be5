-- ===== src/Pairwise/Reading.antt =====
-- pairwise.rs: the readers of headers and envelopes.
use communication_platform.Base.{
  ℕ, ◌+◌, Bool, true, false, not, ◌||◌, ◌&&◌, Option, none, some, List, [], ◌∷◌, length, ltb, ◌==◌,
  if◌then◌else◌, Result, ok, refuse, malformed_input, unsupported_version, ◌>>=◌ as bind_result,
}
use communication_platform.Base.Bytes.{Bytes, is_zero}
use communication_platform.Protocol.Framing.{
  Parser, pure, ◌>>=◌, ◌>>◌, reject, lift, take, u8, u16, u32, array, finish, remaining, run,
  checked_add, usize_end,
}
use communication_platform.Prekey.Checks.{valid_key_id}
use Prim.Native.Nat.{bit_and}
use communication_platform.Pairwise.{
  RatchetHeader, allowed_buckets, flag_classical_one_time, flag_initial, flag_pq_one_time,
  flag_repair_replacement, has_flag, header_version, mlkem768_ciphertext_bytes, protocol_version,
  regular_header_size, sender_block_repair_bytes, sender_block_without_repair_bytes, suite,
  unknown_header_flags, validate_optional_id, xchacha_abytes, initial, regular,
}

-- `if present { Some(reader.array()?) } else { None }`
unfoldable pub optional_array : Bool → ℕ → Parser (Option Bytes)
unfolding ◌>>=◌ array
optional_array true size = do value ← array size; pure (some value)
optional_array false size = pure none

unfoldable pub sender_seal_size : ℕ → ℕ
sender_seal_size flags =
    if has_flag flag_repair_replacement flags
    then sender_block_repair_bytes + xchacha_abytes
    else sender_block_without_repair_bytes + xchacha_abytes

-- The rest of the header of a first message.
unfoldable pub parse_initial : ℕ → Bytes → Bytes → ℕ → ℕ → Parser RatchetHeader
unfolding ◌>>=◌ ◌>>◌ reject lift take u16 u32 array finish
parse_initial flags session_id ratchet_public previous_chain_length message_number = do
  reject (not (has_flag flag_initial flags)) malformed_input
  read_signed ← u32
  signed_prekey_id ← lift (valid_key_id read_signed)
  one_time_prekey_id ← u32
  read_pq_signed ← u32
  pq_signed_prekey_id ← lift (valid_key_id read_pq_signed)
  pq_one_time_prekey_id ← u32
  lift (validate_optional_id (has_flag flag_classical_one_time flags) one_time_prekey_id)
  lift (validate_optional_id (has_flag flag_pq_one_time flags) pq_one_time_prekey_id)
  reject (has_flag flag_repair_replacement flags && not (has_flag flag_initial flags))
      malformed_input
  ephemeral_public ← array 32
  pq_signed_ciphertext ← array mlkem768_ciphertext_bytes
  pq_one_time_ciphertext ←
      optional_array (has_flag flag_pq_one_time flags) mlkem768_ciphertext_bytes
  sender_seal_length ← u16
  sender_seal ← take sender_seal_length
  finish
  reject
      ((not (previous_chain_length == 0) || not (message_number == 0))
        || not (sender_seal_length == sender_seal_size flags))
      malformed_input
  pure (
      initial (record {
        flags = flags;
        session_id = session_id;
        ratchet_public = ratchet_public;
        signed_prekey_id = signed_prekey_id;
        one_time_prekey_id = one_time_prekey_id;
        pq_signed_prekey_id = pq_signed_prekey_id;
        pq_one_time_prekey_id = pq_one_time_prekey_id;
        ephemeral_public = ephemeral_public;
        pq_signed_ciphertext = pq_signed_ciphertext;
        pq_one_time_ciphertext = pq_one_time_ciphertext;
        sender_seal = sender_seal;
      }))

-- The rest of a regular header, which is nothing.
unfoldable pub parse_regular : Bytes → Bytes → ℕ → ℕ → Parser RatchetHeader
unfolding ◌>>◌ finish
parse_regular session_id ratchet_public previous_chain_length message_number = do
  finish
  pure (
      regular (record {
        session_id = session_id;
        ratchet_public = ratchet_public;
        previous_chain_length = previous_chain_length;
        message_number = message_number;
      }))

unfoldable pub read_header : Parser RatchetHeader
unfolding ◌>>=◌ ◌>>◌ reject u8 u32 array
read_header = do
  version ← u8
  reject (not (version == header_version)) unsupported_version
  flags ← u8
  reject (not (bit_and flags unknown_header_flags == 0)) malformed_input
  session_id ← array 16
  reject (is_zero session_id) malformed_input
  ratchet_public ← array 32
  previous_chain_length ← u32
  message_number ← u32
  if flags == 0
      then parse_regular session_id ratchet_public previous_chain_length message_number
      else parse_initial flags session_id ratchet_public previous_chain_length message_number

-- `RatchetHeader::parse`.
unfoldable pub parse_ratchet_header : Bytes → Result RatchetHeader
parse_ratchet_header encoded = run read_header encoded

pub record Envelope : Type 0 where
  pub header_bytes : Bytes
  pub header : RatchetHeader
  pub ciphertext : Bytes

-- `list.contains(&n)`.
unfoldable pub contains_size : List ℕ → ℕ → Bool
contains_size [] n = false
contains_size (bucket ∷ buckets) n = (bucket == n) || contains_size buckets n

-- `header_len` is too small, or leaves no room for a ciphertext.
unfoldable pub bad_header_len : ℕ → ℕ → Bool
bad_header_len header_len size =
    ltb header_len regular_header_size
    || elim (checked_add usize_end header_len (4 + xchacha_abytes + 4)) [
      | none ↦ true
      | some minimum ↦ ltb size minimum
    ]

-- `reader.take(input.len() - reader.position())`
unfoldable pub take_ciphertext : Parser Bytes
unfolding take remaining
take_ciphertext r = take (remaining r) r

unfoldable pub read_envelope : ℕ → Parser (Bytes × Bytes)
unfolding ◌>>=◌ ◌>>◌ reject u8 u16 take
read_envelope size = do
  version ← u8
  reject (not (version == protocol_version)) unsupported_version
  cipher_suite ← u8
  reject (not (cipher_suite == suite)) unsupported_version
  header_len ← u16
  reject (bad_header_len header_len size) malformed_input
  header_bytes ← take header_len
  ciphertext ← take_ciphertext
  pure (header_bytes, ciphertext)

-- `Envelope::parse`.
unfoldable pub parse_envelope : Bytes → Result Envelope
parse_envelope input =
    bind_result (refuse (not (contains_size allowed_buckets (length input))) malformed_input) λ _.
      bind_result (run (read_envelope (length input)) input) λ parts.
        bind_result (parse_ratchet_header parts.0)
          λ header. ok (record { header_bytes = parts.0; header = header; ciphertext = parts.1 })

-- The kind of the envelope, 1 for a first message, and the session.
unfoldable pub inspect_public_header : Bytes → Result (ℕ × Bytes)
inspect_public_header input = bind_result (parse_envelope input) λ envelope. elim envelope.header [
  | initial header ↦ ok (1, header.session_id)
  | regular header ↦ ok (0, header.session_id)
]
