-- ===== src/Attachment/Sizes.antt =====
-- attachment.rs: the size of an encrypted stream, and the bucket that it is padded to.
use communication_platform.Base.{
  ℕ, zero, suc, ◌+◌, ◌-◌, ◌*◌, ◌/◌, ◌^◌, ◌≤◌, ◌<◌, ◌≡◌, ◌⊎◌, inl, inr, refl, All, arith, ok,
}
use communication_platform.Attachment.{
  attachment_buckets, attachment_chunk_bytes, secretstream_abytes, chunk_count,
  encrypted_stream_size, find_bucket, bucket_for_stream,
}

-- How many chunks of 64 KiB carry `n` bytes: as few as hold them, and one for none.
abbrev pub IsChunkCount : ℕ → ℕ → Type 0
IsChunkCount n count =
    (1 ≤ count)
    × (n ≤ attachment_chunk_bytes * count)
    × ((count ≡ 1) ⊎ (attachment_chunk_bytes * (count - 1) < n))

chunk_count_eq :
    (n : ℕ)
    → n ≤ 2 ^ 62
    → (count : ℕ) × (chunk_count n attachment_chunk_bytes ≡ ok count)
      × IsChunkCount n count
      × (count ≤ n + 1)
unfolding chunk_count
chunk_count_eq zero h = (1, refl, (omega arith, omega arith, inl refl), omega arith)
chunk_count_eq (suc n) h = (
  (suc n + 65535) / 65536,
  ground arith,
  (omega arith, omega arith, inr (omega arith)),
  omega arith,
)

-- For up to 2^58 bytes in chunks of 64 KiB, the stream size is the size and 17 bytes for each of the
-- fewest chunks that hold it, and for at least one.
pub encrypted_stream_size-chunks :
    (n : ℕ)
    → n ≤ 2 ^ 58
    → (count : ℕ) × IsChunkCount n count
      × (encrypted_stream_size n attachment_chunk_bytes ≡ ok (secretstream_abytes * count + n))
unfolding encrypted_stream_size
encrypted_stream_size-chunks n h =
    let (count, e, c, l) = chunk_count_eq n (omega arith) in (count, c, rw e (ground arith))

-- A bucket that is returned holds the stream with its 90 header bytes, is at most 64 MiB, and is the
-- smallest such bucket.
pub bucket_for_stream-smallest :
    (n bucket : ℕ)
    → bucket_for_stream n ≡ ok bucket
    → (n + 90 ≤ bucket)
      × (bucket ≤ 67108864)
      × All (λ other. n + 90 ≤ other → bucket ≤ other) attachment_buckets
unfolding bucket_for_stream find_bucket
bucket_for_stream-smallest n bucket e = ground (arith, e)
