-- ===== src/Cbor.antt =====
-- The interface of minicbor that the crate uses, and the canonical readers of
-- frontend/native/crypto_core/src/application.rs, lines 1189 to 1525.
pub mod Bits
pub mod Encoding
pub mod Laws
pub mod Tests
use Prim.Native.Nat.{bit_and, bit_or}
use communication_platform.Base.{
  ℕ, zero, ◌+◌, ◌*◌, ◌/◌, ◌^◌, ◌<◌, ◌≤◌, ◌≡◌, Bool, true, false, not, ◌&&◌, ◌||◌, Option, none,
  some, List, [], ◌∷◌, ◌++◌, length, ltb, leb, ◌==◌, if◌then◌else◌, Result, CryptoError, ok, err,
  malformed_input, input_too_large, internal_failure,
}
use communication_platform.Base.Bytes.{Bytes, to_be_bytes}
use communication_platform.Base.Text.{IsText, char_count}
use communication_platform.Protocol.Framing.{Reader, Parser, pure, fail, ◌>>=◌, ◌>>◌, reject}
use communication_platform.Protocol.Reads.{Reads}
use communication_platform.Protocol.Writing.{Writer, Writes, extend, write_error}

-- What the crate calls of minicbor 2.3. An encoder's method appends bytes to the vector or fails; a
-- decoder is its input with a position, and a method that fails is `none`.
pub record Minicbor : Type 0 where
  pub enc_map : ℕ → Option Bytes
  pub enc_array : ℕ → Option Bytes
  pub enc_u8 : ℕ → Option Bytes
  pub enc_u32 : ℕ → Option Bytes
  pub enc_u64 : ℕ → Option Bytes
  pub enc_bytes : Bytes → Option Bytes
  pub enc_str : Bytes → Option Bytes
  pub enc_null : Option Bytes
  pub dec_map : Reader → Option (Option ℕ × Reader)
  pub dec_array : Reader → Option (Option ℕ × Reader)
  pub dec_u64 : Reader → Option (ℕ × Reader)
  pub dec_bytes : Reader → Option (Bytes × Reader)
  pub dec_str : Reader → Option (Bytes × Reader)
  pub dec_null : Reader → Option (Unit {0} × Reader)

-- `decoder.method().map_err(|_| MalformedInput)?`
unfoldable pub decoded {ℓ} : {A : Type ℓ} → (Reader → Option (A × Reader)) → Parser A
decoded d r = elim (d r) [ none ↦ err malformed_input | some q ↦ ok q ]

-- `written(encoder.method(..))`: any encoder error becomes `InternalFailure`.
unfoldable pub written : Option Bytes → Writer
unfolding extend write_error
written none = write_error internal_failure
written (some bytes) = extend bytes

-- The head of a data item in the shortest form (RFC 8949, 4.2.1).
unfoldable pub head : ℕ → ℕ → Bytes
head major n =
    if ltb n 24
    then (major * 32 + n) ∷ []
    else if ltb n (2 ^ 8)
    then (major * 32 + 24) ∷ to_be_bytes 1 n
    else if ltb n (2 ^ 16)
    then (major * 32 + 25) ∷ to_be_bytes 2 n
    else if ltb n (2 ^ 32)
    then (major * 32 + 26) ∷ to_be_bytes 4 n
    else (major * 32 + 27) ∷ to_be_bytes 8 n

-- The documented behaviour: an item is written in the shortest form, and read back.
pub record IsCbor (m : Minicbor) : Type 0 where
  pub map_head : (n : ℕ) → n < 2 ^ 64 → m.enc_map n ≡ some (head 5 n)
  pub array_head : (n : ℕ) → n < 2 ^ 64 → m.enc_array n ≡ some (head 4 n)
  pub u8_head : (n : ℕ) → n < 2 ^ 8 → m.enc_u8 n ≡ some (head 0 n)
  pub u32_head : (n : ℕ) → n < 2 ^ 32 → m.enc_u32 n ≡ some (head 0 n)
  pub u64_head : (n : ℕ) → n < 2 ^ 64 → m.enc_u64 n ≡ some (head 0 n)
  pub bytes_item :
      (xs : Bytes) → length xs < 2 ^ 64 → m.enc_bytes xs ≡ some (head 2 (length xs) ++ xs)
  pub str_item : (xs : Bytes) → length xs < 2 ^ 64 → m.enc_str xs ≡ some (head 3 (length xs) ++ xs)
  pub null_item : m.enc_null ≡ some (0xf6 ∷ [])
  pub map_back : (n : ℕ) → n < 2 ^ 64 → Reads (decoded m.dec_map) (head 5 n) (some n)
  pub array_back : (n : ℕ) → n < 2 ^ 64 → Reads (decoded m.dec_array) (head 4 n) (some n)
  pub u64_back : (n : ℕ) → n < 2 ^ 64 → Reads (decoded m.dec_u64) (head 0 n) n
  pub bytes_back :
      (xs : Bytes) → length xs < 2 ^ 64 → Reads (decoded m.dec_bytes) (head 2 (length xs) ++ xs) xs
  pub str_back :
      (xs : Bytes)
      → length xs < 2 ^ 64
      → IsText xs
      → Reads (decoded m.dec_str) (head 3 (length xs) ++ xs) xs
  pub null_back : Reads (decoded m.dec_null) (0xf6 ∷ []) tt

-- `decoder.input().get(decoder.position())`.
byte_at : Bytes → ℕ → Option ℕ
byte_at [] i = none
byte_at (b ∷ bs) zero = some b
byte_at (b ∷ bs) (ℕ.suc i) = byte_at bs i

unfoldable pub peek : Parser ℕ
unfolding byte_at
peek r = elim (byte_at r.input r.position) [ none ↦ err malformed_input | some b ↦ ok (b, r) ]

unfoldable pub canonical_length_header : ℕ → ℕ → ℕ → Bool
canonical_length_header first length major =
    if ltb length 24
    then first == bit_or (major * 2 ^ 5) length
    else if ltb length (2 ^ 8)
    then first == bit_or (major * 2 ^ 5) 0x18
    else if ltb length (2 ^ 16)
    then first == bit_or (major * 2 ^ 5) 0x19
    else if ltb length (2 ^ 32)
    then first == bit_or (major * 2 ^ 5) 0x1a
    else first == bit_or (major * 2 ^ 5) 0x1b

-- `first >> 5 != major || first & 0x1f == 0x1f`
unfoldable pub wrong_item : ℕ → ℕ → Bool
wrong_item major first = not (first / 2 ^ 5 == major) || bit_and first 0x1f == 0x1f

-- `option.ok_or(MalformedInput)?`
unfoldable pub definite : Option ℕ → Parser ℕ
definite none = fail malformed_input
definite (some n) = pure n

-- The `canonical` test of `read_uint`.
unfoldable pub shortest_uint : ℕ → ℕ → Bool
shortest_uint first value =
    if ltb value 24
    then first == value
    else if ltb value (2 ^ 8)
    then first == 0x18
    else if ltb value (2 ^ 16)
    then first == 0x19
    else if ltb value (2 ^ 32)
    then first == 0x1a
    else first == 0x1b

-- The `canonical` test of `read_array_len`.
unfoldable pub shortest_array : ℕ → ℕ → Bool
shortest_array first length =
    if ltb length 24
    then first == bit_or 0x80 length
    else if ltb length (2 ^ 8)
    then first == 0x98
    else if ltb length (2 ^ 16)
    then first == 0x99
    else if ltb length (2 ^ 32)
    then first == 0x9a
    else first == 0x9b

module _ (m : Minicbor) where
  -- A 64-bit length always fits `usize`.
  unfoldable pub read_map_len : Parser ℕ
  unfolding ◌>>=◌ ◌>>◌ peek
  read_map_len = do
    first ← peek
    reject (wrong_item 5 first) malformed_input
    length ← decoded m.dec_map >>= definite
    reject (not (canonical_length_header first length 5)) malformed_input
    pure length

  unfoldable pub read_exact_map : ℕ → Parser (Unit {0})
  unfolding ◌>>=◌ ◌>>◌
  read_exact_map expected = do
    length ← read_map_len
    reject (not (length == expected)) malformed_input

  unfoldable pub read_uint : Parser ℕ
  unfolding ◌>>=◌ ◌>>◌ peek
  read_uint = do
    first ← peek
    reject (wrong_item 0 first) malformed_input
    value ← decoded m.dec_u64
    reject (not (shortest_uint first value)) malformed_input
    pure value

  unfoldable pub read_key : ℕ → Parser (Unit {0})
  unfolding ◌>>=◌ ◌>>◌
  read_key expected = do value ← read_uint; reject (not (value == expected)) malformed_input

  unfoldable pub read_array_len : Parser ℕ
  unfolding ◌>>=◌ ◌>>◌ peek
  read_array_len = do
    first ← peek
    reject (wrong_item 4 first) malformed_input
    length ← decoded m.dec_array >>= definite
    reject (not (shortest_array first length)) malformed_input
    pure length

  unfoldable pub read_bytes : Parser Bytes
  unfolding ◌>>=◌ ◌>>◌ peek
  read_bytes = do
    first ← peek
    reject (wrong_item 2 first) malformed_input
    bytes ← decoded m.dec_bytes
    reject (not (canonical_length_header first (length bytes) 2)) malformed_input
    pure bytes

  unfoldable pub read_exact_bytes : ℕ → Parser Bytes
  unfolding ◌>>=◌ ◌>>◌
  read_exact_bytes size = do
    bytes ← read_bytes
    reject (not (length bytes == size)) malformed_input
    pure bytes

  unfoldable pub read_text : ℕ → ℕ → Bool → Parser Bytes
  unfolding ◌>>=◌ ◌>>◌ peek
  read_text maximum_bytes maximum_scalars require_non_empty = do
    first ← peek
    reject (wrong_item 3 first) malformed_input
    text ← decoded m.dec_str
    reject (not (canonical_length_header first (length text) 3)) malformed_input
    reject (ltb maximum_bytes (length text) || ltb maximum_scalars (char_count text))
        input_too_large
    reject (require_non_empty && length text == 0) malformed_input
    pure text

  -- `if peek(decoder)? == 0xf6 { decoder.null()..; None } else { Some(read_exact_bytes(decoder)?) }`
  unfoldable pub read_nullable : ℕ → Parser (Option Bytes)
  unfolding ◌>>=◌ ◌>>◌ peek
  read_nullable size = do first ← peek; if first == 0xf6 then null_item else some_bytes
    where
      null_item : Parser (Option Bytes)
      null_item = decoded m.dec_null >> pure none

      some_bytes : Parser (Option Bytes)
      some_bytes = do bytes ← read_exact_bytes size; pure (some bytes)

  -- The encoder's calls, each with its error mapped.
  unfoldable pub encode_key : ℕ → Writer
  unfolding written
  encode_key key = written (m.enc_u8 key)
