-- ===== src/Attachment/Requests.antt =====
-- attachment.rs: the requests of the six operations, as they are read.
use communication_platform.Base.{
  ℕ, Bool, not, ◌||◌, length, ltb, ◌==◌, ok, input_too_large, malformed_input,
}
use communication_platform.Base.Bytes.{Bytes}
use communication_platform.Protocol.Framing.{
  Parser, pure, ◌>>=◌, ◌>>◌, reject, expect, take, remaining, array, u8, u32, u64, framed,
  is_finished,
}
use communication_platform.Attachment.{
  attachment_chunk_bytes, attachment_header_bytes, secretstream_abytes, secretstream_key_bytes,
  secretstream_header_bytes, request_create, request_push, request_pull, request_chunk,
  request_close, request_random,
}

-- `reader.take(reader.remaining())`.
unfoldable pub take_rest : Parser Bytes
take_rest r = take (remaining r) r

-- `!reader.is_finished()`, as a test among others.
unfoldable pub at_end : Parser Bool
at_end r = ok (is_finished r, r)

pub record CreatePush : Type 0 where
  pub plaintext_size : ℕ
  pub chunk_size : ℕ
  pub bucket_size : ℕ
  pub metadata : Bytes

unfoldable pub read_create_push : Parser CreatePush
unfolding at_end
read_create_push = do
  expect request_create
  plaintext_size ← u64
  chunk_size ← u32
  bucket_size ← u64
  metadata ← framed
  reject (ltb 4096 (length metadata)) input_too_large
  finished ← at_end
  reject (not finished || not (chunk_size == attachment_chunk_bytes)) malformed_input
  pure (record {
    plaintext_size = plaintext_size;
    chunk_size = chunk_size;
    bucket_size = bucket_size;
    metadata = metadata;
  })

unfoldable pub read_push : Parser (ℕ × Bool × Bytes)
unfolding take_rest
read_push = do
  expect request_push
  handle ← u64
  flag ← u8
  plaintext ← take_rest
  reject (ltb attachment_chunk_bytes (length plaintext)) input_too_large
  pure (handle, not (flag == 0), plaintext)

pub record CreatePull : Type 0 where
  pub key : Bytes
  pub header_bytes : Bytes
  pub stream_header : Bytes
  pub metadata : Bytes

unfoldable pub read_create_pull : Parser CreatePull
unfolding at_end
read_create_pull = do
  expect request_pull
  key ← array secretstream_key_bytes
  header_bytes ← array attachment_header_bytes
  stream_header ← array secretstream_header_bytes
  metadata ← framed
  reject (ltb 4096 (length metadata)) input_too_large
  finished ← at_end
  reject (not finished) malformed_input
  pure (record {
    key = key;
    header_bytes = header_bytes;
    stream_header = stream_header;
    metadata = metadata;
  })

unfoldable pub read_chunk : Parser (ℕ × Bytes)
unfolding take_rest
read_chunk = do
  expect request_chunk
  handle ← u64
  ciphertext ← take_rest
  reject (ltb (length ciphertext) secretstream_abytes) malformed_input
  pure (handle, ciphertext)

unfoldable pub read_close : Parser (ℕ × Bool)
unfolding at_end
read_close = do
  expect request_close
  handle ← u64
  flag ← u8
  finished ← at_end
  reject (not finished) malformed_input
  pure (handle, not (flag == 0))

unfoldable pub read_random : Parser ℕ
unfolding at_end
read_random = do
  expect request_random
  length ← u32
  finished ← at_end
  reject (not finished || ltb attachment_chunk_bytes length) input_too_large
  pure length
