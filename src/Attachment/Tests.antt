-- ===== src/Attachment/Tests.antt =====
-- attachment.rs: small sizes, and a session that is pushed to with a toy stream.
use communication_platform.Base.{
  ℕ, ◌+◌, ◌*◌, ◌≤◌, ◌≡◌, refl, false, [], ◌∷◌, ◌++◌, replicate, All, arith, ok,
}
use communication_platform.Base.Bytes.{
  Bytes, IsBytes, all_bytes, all_bytes_sound, bytes_eq, from_be_bytes, to_be_bytes,
}
use communication_platform.Attachment.{
  AttachmentHeader, header_magic, attachment_buckets, attachment_chunk_bytes, secretstream_abytes,
  encrypted_stream_size, bucket_for_stream, make_header, parse_header, request_push,
}
use communication_platform.Attachment.Sessions.{Streams, World, push, lookup}
use communication_platform.Attachment.Operations.{operation}
use communication_platform.Attachment.Sizes.{
  IsChunkCount, encrypted_stream_size-chunks, bucket_for_stream-smallest,
}
use communication_platform.Attachment.Headers.{parse_header-make_header}
use communication_platform.Attachment.Canonicity.{parse_header-canonical}
use communication_platform.Attachment.Invariants.{IsSound}
use communication_platform.Attachment.Soundness.{operation-IsSound}

encrypted_stream_size-chunks_example :
    (count : ℕ) × IsChunkCount 70000 count
    × (encrypted_stream_size 70000 attachment_chunk_bytes
        ≡ ok (secretstream_abytes * count + 70000))
encrypted_stream_size-chunks_example = encrypted_stream_size-chunks 70000 (omega arith)

bucket_of_70034 : bucket_for_stream 70034 ≡ ok 262144
unfolding bucket_for_stream
bucket_of_70034 = refl

bucket_for_stream-smallest_example :
    (70034 + 90 ≤ 262144)
    × (262144 ≤ 67108864)
    × All (λ other. 70034 + 90 ≤ other → 262144 ≤ other) attachment_buckets
bucket_for_stream-smallest_example = bucket_for_stream-smallest 70034 262144 bucket_of_70034

size_of_70000 : encrypted_stream_size 70000 attachment_chunk_bytes ≡ ok 70034
unfolding encrypted_stream_size
size_of_70000 = refl

parse_header-make_header_example :
    (header : AttachmentHeader) × (make_header 70000 70034 262144 attachment_chunk_bytes
        (replicate 32 4)
      ≡ ok header)
    × (parse_header header.bytes ≡ ok header)
parse_header-make_header_example =
    parse_header-make_header 70000 70034 262144 (replicate 32 4) (omega arith) size_of_70000
      bucket_of_70034 refl

-- The same header, as bytes.
abbrev header_of_70000 : Bytes
header_of_70000 =
    header_magic
    ++ ((1 ∷ 0 ∷ 0 ∷ 1 ∷ 0 ∷ 0 ∷ 0 ∷ 0 ∷ 0 ∷ 0 ∷ 0 ∷ 1 ∷ 17 ∷ 112 ∷ [])
        ++ ((0 ∷ 0 ∷ 0 ∷ 0 ∷ 0 ∷ 1 ∷ 17 ∷ 146 ∷ 0 ∷ 4 ∷ 0 ∷ 0 ∷ []) ++ replicate 32 4))

header_of_70000-IsBytes : IsBytes header_of_70000
unfolding all_bytes
header_of_70000-IsBytes = all_bytes_sound header_of_70000 refl

parses :
    parse_header header_of_70000
    ≡ ok (record { bytes = header_of_70000; plaintext_size = 70000; stream_size = 70034 })
unfolding parse_header bytes_eq from_be_bytes to_be_bytes bucket_for_stream encrypted_stream_size
    make_header
parses = refl

parse_header-canonical_example :
    (header_of_70000 ≡ header_of_70000)
    × (encrypted_stream_size 70000 attachment_chunk_bytes ≡ ok 70034)
    × ((bucket : ℕ) × (bucket_for_stream 70034 ≡ ok bucket))
parse_header-canonical_example =
    parse_header-canonical header_of_70000
      (record { bytes = header_of_70000; plaintext_size = 70000; stream_size = 70034 })
      header_of_70000-IsBytes refl parses

-- A stream that only pads: 17 bytes more for each chunk.
abbrev padding : Streams (Unit {0}) (Unit {0})
padding = record {
  push_init = λ key. ok (tt, replicate 24 0);
  push = λ stream plaintext header final_message. (ok (plaintext ++ replicate 17 0), tt);
  pull_init = λ key header. ok tt;
  pull = λ stream ciphertext header. (ok (ciphertext, false), tt);
  sha256 = λ bytes. replicate 32 0;
  random = λ draw size. ok (replicate size 1);
}

-- Three bytes are announced, and none has passed.
abbrev waiting : World (Unit {0}) (Unit {0})
waiting = record {
  sessions =
      (
        5,
        push tt (record {
          header = record { bytes = []; plaintext_size = 3; stream_size = 20 };
          plaintext_seen = 0;
          stream_seen = 0;
          final_seen = false;
        }),
      )
      ∷ [];
  draws = 0;
}

abbrev last_chunk : Bytes
last_chunk = request_push ++ (0 ∷ 0 ∷ 0 ∷ 0 ∷ 0 ∷ 0 ∷ 0 ∷ 5 ∷ 1 ∷ 10 ∷ 20 ∷ 30 ∷ [])

waiting-IsSound : IsSound waiting
unfolding lookup
waiting-IsSound = ground arith

operation-IsSound_example : IsSound ((operation padding 2 last_chunk waiting).1)
operation-IsSound_example = operation-IsSound padding 2 last_chunk waiting waiting-IsSound
