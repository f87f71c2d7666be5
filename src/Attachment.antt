-- ===== src/Attachment.antt =====
-- frontend/native/crypto_core/src/attachment.rs: the sizes and the header of an encrypted attachment.
-- The children have the sessions and the operations on them.
pub mod Sessions
pub mod Requests
pub mod Operations
pub mod Sizes
pub mod Headers
pub mod Canonicity
pub mod Invariants
pub mod Soundness
pub mod Tests
use communication_platform.Base.{
  ℕ, ◌+◌, ◌-◌, ◌*◌, ◌/◌, ◌^◌, Bool, not, ◌||◌, Option, none, some, List, [], ◌∷◌, ◌++◌, length,
  take, drop, ltb, leb, ◌==◌, if◌then◌else◌, Result, ok, err, ok_or, refuse, input_too_large,
  malformed_input, unsupported_version, ◌>>=◌, ◌>>◌,
}
use communication_platform.Base.Bytes.{Bytes, to_be_bytes, from_be_bytes, bytes_eq}
use communication_platform.Protocol.Framing.{checked_add}
use communication_platform.Protocol.Writing.{try_from}

abbrev pub attachment_max_io_bytes : ℕ
attachment_max_io_bytes = 262144

abbrev pub attachment_chunk_bytes : ℕ
attachment_chunk_bytes = 65536

abbrev pub attachment_header_bytes : ℕ
attachment_header_bytes = 66

abbrev pub secretstream_abytes : ℕ
secretstream_abytes = 17

abbrev pub secretstream_header_bytes : ℕ
secretstream_header_bytes = 24

abbrev pub secretstream_key_bytes : ℕ
secretstream_key_bytes = 32

abbrev pub format_version : ℕ
format_version = 1

abbrev pub attachment_buckets : List ℕ
attachment_buckets = 65536 ∷ 262144 ∷ 1048576 ∷ 4194304 ∷ 16777216 ∷ 67108864 ∷ []

-- `b"CPARQ001"`.
abbrev pub request_create : Bytes
request_create = 67 ∷ 80 ∷ 65 ∷ 82 ∷ 81 ∷ 48 ∷ 48 ∷ 49 ∷ []

-- `b"CPAPR001"`.
abbrev pub request_push : Bytes
request_push = 67 ∷ 80 ∷ 65 ∷ 80 ∷ 82 ∷ 48 ∷ 48 ∷ 49 ∷ []

-- `b"CPAPD001"`.
abbrev pub request_pull : Bytes
request_pull = 67 ∷ 80 ∷ 65 ∷ 80 ∷ 68 ∷ 48 ∷ 48 ∷ 49 ∷ []

-- `b"CPAPC001"`.
abbrev pub request_chunk : Bytes
request_chunk = 67 ∷ 80 ∷ 65 ∷ 80 ∷ 67 ∷ 48 ∷ 48 ∷ 49 ∷ []

-- `b"CPAPX001"`.
abbrev pub request_close : Bytes
request_close = 67 ∷ 80 ∷ 65 ∷ 80 ∷ 88 ∷ 48 ∷ 48 ∷ 49 ∷ []

-- `b"CPAPN001"`.
abbrev pub request_random : Bytes
request_random = 67 ∷ 80 ∷ 65 ∷ 80 ∷ 78 ∷ 48 ∷ 48 ∷ 49 ∷ []

-- `b"CPARE001"`.
abbrev pub response_create : Bytes
response_create = 67 ∷ 80 ∷ 65 ∷ 82 ∷ 69 ∷ 48 ∷ 48 ∷ 49 ∷ []

-- `b"CPARO001"`.
abbrev pub response_chunk : Bytes
response_chunk = 67 ∷ 80 ∷ 65 ∷ 82 ∷ 79 ∷ 48 ∷ 48 ∷ 49 ∷ []

-- `b"CPARX001"`.
abbrev pub response_close : Bytes
response_close = 67 ∷ 80 ∷ 65 ∷ 82 ∷ 88 ∷ 48 ∷ 48 ∷ 49 ∷ []

-- `b"CPARN001"`.
abbrev pub response_random : Bytes
response_random = 67 ∷ 80 ∷ 65 ∷ 82 ∷ 78 ∷ 48 ∷ 48 ∷ 49 ∷ []

-- `b"CPAFV001"`.
abbrev pub header_magic : Bytes
header_magic = 67 ∷ 80 ∷ 65 ∷ 70 ∷ 86 ∷ 48 ∷ 48 ∷ 49 ∷ []

pub record AttachmentHeader : Type 0 where
  pub bytes : Bytes
  pub plaintext_size : ℕ
  pub stream_size : ℕ

abbrev pub u64_end : ℕ
u64_end = 2 ^ 64

-- `a.checked_mul(b)` on `u64`.
abbrev pub checked_mul : ℕ → ℕ → Option ℕ
checked_mul a b = if ltb (a * b) u64_end then some (a * b) else none

-- The quotient is asked for only on a chunk size that is not zero.
unfoldable pub chunk_count : ℕ → ℕ → Result ℕ
chunk_count plaintext_size chunk =
    if plaintext_size == 0
    then ok 1
    else (ok_or (checked_add u64_end plaintext_size (chunk - 1)) input_too_large >>= λ sum.
        ok (sum / chunk))

unfoldable pub encrypted_stream_size : ℕ → ℕ → Result ℕ
unfolding chunk_count
encrypted_stream_size plaintext_size chunk_size = do
  count ← chunk_count plaintext_size chunk_size
  overhead ← ok_or (checked_mul count secretstream_abytes) input_too_large
  ok_or (checked_add u64_end overhead plaintext_size) input_too_large

-- `into_iter().find(|bucket| *bucket >= required)`
unfoldable pub find_bucket : List ℕ → ℕ → Option ℕ
find_bucket [] required = none
find_bucket (bucket ∷ buckets) required =
    let rest = find_bucket buckets required in if leb required bucket then some bucket else rest

unfoldable pub bucket_for_stream : ℕ → Result ℕ
unfolding find_bucket
bucket_for_stream stream_size = do
  required ←
      ok_or (checked_add u64_end stream_size (attachment_header_bytes + secretstream_header_bytes))
        input_too_large
  ok_or (find_bucket attachment_buckets required) input_too_large

-- `checked_add(..).is_none_or(|required| required > bucket_size)`
unfoldable pub does_not_fit : ℕ → ℕ → Bool
does_not_fit stream_size bucket_size =
    elim (checked_add u64_end stream_size (attachment_header_bytes + secretstream_header_bytes)) [
      | none ↦ Bool.true
      | some required ↦ ltb bucket_size required
    ]

unfoldable pub make_header : ℕ → ℕ → ℕ → ℕ → Bytes → Result AttachmentHeader
unfolding does_not_fit
make_header plaintext_size stream_size bucket_size chunk_size metadata_hash = do
  refuse (not (length metadata_hash == 32) || does_not_fit stream_size bucket_size) input_too_large
  bucket ← try_from 4 bucket_size input_too_large
  ok (record {
    bytes =
        header_magic
        ++ ((format_version ∷ 0 ∷ [])
            ++ (to_be_bytes 4 chunk_size
                ++ (to_be_bytes 8 plaintext_size
                    ++ (to_be_bytes 8 stream_size ++ (to_be_bytes 4 bucket ++ metadata_hash)))));
    plaintext_size = plaintext_size;
    stream_size = stream_size;
  })

-- `&bytes[start..end]` within the array.
abbrev pub part : ℕ → ℕ → Bytes → Bytes
part start end bytes = take (end - start) (drop start bytes)

unfoldable pub parse_header : Bytes → Result AttachmentHeader
parse_header bytes = do
  refuse
      (not (bytes_eq (part 0 8 bytes) header_magic)
        || not (bytes_eq (part 8 9 bytes) (format_version ∷ []))
        || not (bytes_eq (part 9 10 bytes) (0 ∷ [])))
      unsupported_version
  let chunk_size = from_be_bytes (part 10 14 bytes)
  let plaintext_size = from_be_bytes (part 14 22 bytes)
  let stream_size = from_be_bytes (part 22 30 bytes)
  let bucket_size = from_be_bytes (part 30 34 bytes)
  refuse (not (chunk_size == attachment_chunk_bytes)) malformed_input
  bucket ← bucket_for_stream stream_size
  refuse (not (bucket == bucket_size)) malformed_input
  expected ← encrypted_stream_size plaintext_size chunk_size
  refuse (not (expected == stream_size)) malformed_input
  make_header plaintext_size stream_size bucket_size chunk_size (part 34 66 bytes)
