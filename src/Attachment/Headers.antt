-- ===== src/Attachment/Headers.antt =====
-- attachment.rs: a header that is made is parsed back.
use communication_platform.Base.{
  ℕ, ◌^◌, ◌<◌, ◌≡◌, refl, true, [], ◌∷◌, ◌++◌, length, take, arith, ok, append-nil, take-length,
  ==_self,
}
use communication_platform.Base.Bytes.{
  Bytes, to_be_bytes, from_be_bytes-to_be_bytes, bytes_eq, bytes_eq_iff,
}
use communication_platform.Attachment.{
  AttachmentHeader, header_magic, format_version, attachment_chunk_bytes, encrypted_stream_size,
  bucket_for_stream, make_header, parse_header, part, does_not_fit,
}
use communication_platform.Attachment.Sizes.{bucket_for_stream-smallest}

laid_out : ℕ → ℕ → ℕ → ℕ → Bytes → Bytes
laid_out chunk plaintext stream bucket hash =
    header_magic
    ++ ((format_version ∷ 0 ∷ [])
        ++ (to_be_bytes 4 chunk
            ++ (to_be_bytes 8 plaintext
                ++ (to_be_bytes 8 stream ++ (to_be_bytes 4 bucket ++ hash)))))

pub take_whole : (n : ℕ) (xs : Bytes) → length xs ≡ n → take n xs ≡ xs
take_whole n xs h = rw (← h) (rw (append-nil xs) at (take-length xs []))

module _ (chunk plaintext stream bucket : ℕ) (hash : Bytes) where
  chunk_part : part 10 14 (laid_out chunk plaintext stream bucket hash) ≡ to_be_bytes 4 chunk
  unfolding laid_out to_be_bytes
  chunk_part = refl

  plaintext_part :
      part 14 22 (laid_out chunk plaintext stream bucket hash) ≡ to_be_bytes 8 plaintext
  unfolding laid_out to_be_bytes
  plaintext_part = refl

  stream_part : part 22 30 (laid_out chunk plaintext stream bucket hash) ≡ to_be_bytes 8 stream
  unfolding laid_out to_be_bytes
  stream_part = refl

  bucket_part : part 30 34 (laid_out chunk plaintext stream bucket hash) ≡ to_be_bytes 4 bucket
  unfolding laid_out to_be_bytes
  bucket_part = refl

  hash_part : length hash ≡ 32 → part 34 66 (laid_out chunk plaintext stream bucket hash) ≡ hash
  unfolding laid_out to_be_bytes
  hash_part h = take_whole 32 hash h

  magic_part : bytes_eq (part 0 8 (laid_out chunk plaintext stream bucket hash)) header_magic ≡ true
  unfolding laid_out to_be_bytes
  magic_part = (bytes_eq_iff _ _).1 refl

  version_part : bytes_eq (part 8 9 (laid_out chunk plaintext stream bucket hash)) (1 ∷ []) ≡ true
  unfolding laid_out to_be_bytes
  version_part = (bytes_eq_iff _ _).1 refl

  zero_part : bytes_eq (part 9 10 (laid_out chunk plaintext stream bucket hash)) (0 ∷ []) ≡ true
  unfolding laid_out to_be_bytes
  zero_part = (bytes_eq_iff _ _).1 refl

make_header_eq :
    (plaintext stream bucket : ℕ) (hash : Bytes)
    → bucket_for_stream stream ≡ ok bucket
    → length hash ≡ 32
    → make_header plaintext stream bucket attachment_chunk_bytes hash
      ≡ ok (record {
        bytes = laid_out attachment_chunk_bytes plaintext stream bucket hash;
        plaintext_size = plaintext;
        stream_size = stream;
      })
unfolding make_header does_not_fit laid_out
make_header_eq plaintext stream bucket hash b l =
    ground (arith, bucket_for_stream-smallest stream bucket b, l)

-- For a plaintext size below 2^64 with its stream size and bucket as computed, and a hash of 32
-- bytes, `make_header` returns a header, and `parse_header` returns it from its bytes.
pub parse_header-make_header :
    (plaintext stream bucket : ℕ) (hash : Bytes)
    → plaintext < 2 ^ 64
    → encrypted_stream_size plaintext attachment_chunk_bytes ≡ ok stream
    → bucket_for_stream stream ≡ ok bucket
    → length hash ≡ 32
    → (header : AttachmentHeader) × (make_header plaintext stream bucket attachment_chunk_bytes hash
        ≡ ok header)
      × (parse_header header.bytes ≡ ok header)
unfolding parse_header
parse_header-make_header plaintext stream bucket hash p e b l =
    let made = make_header_eq plaintext stream bucket hash b l in
    let smallest = bucket_for_stream-smallest stream bucket b in
    (
      _,
      made,
      rw
          (
            magic_part attachment_chunk_bytes plaintext stream bucket hash,
            version_part attachment_chunk_bytes plaintext stream bucket hash,
            zero_part attachment_chunk_bytes plaintext stream bucket hash,
            chunk_part attachment_chunk_bytes plaintext stream bucket hash,
            plaintext_part attachment_chunk_bytes plaintext stream bucket hash,
            stream_part attachment_chunk_bytes plaintext stream bucket hash,
            bucket_part attachment_chunk_bytes plaintext stream bucket hash,
            hash_part attachment_chunk_bytes plaintext stream bucket hash l,
            from_be_bytes-to_be_bytes 4 attachment_chunk_bytes (omega arith),
            from_be_bytes-to_be_bytes 8 plaintext p,
            from_be_bytes-to_be_bytes 8 stream (omega (arith, smallest)),
            from_be_bytes-to_be_bytes 4 bucket (omega (arith, smallest)),
            b,
            ==_self bucket,
            e,
            ==_self stream,
          )
          made,
    )
