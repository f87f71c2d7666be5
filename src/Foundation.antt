-- ===== src/Foundation.antt =====
-- frontend/native/crypto_core/src/cbor.rs: the typed record of the foundation layer.
use communication_platform.Base.{
  ℕ, zero, suc, ◌+◌, ◌/◌, ◌^◌, Bool, not, Option, none, some, [], ◌∷◌, length, ltb, ◌==◌,
  if◌then◌else◌, Result, ok, err, ok_or, refuse, malformed_input, input_too_large,
  ◌>>=◌ as bind_result,
}
use Prim.Native.Nat.{bit_and}
use communication_platform.Base.Bytes.{Bytes, from_be_bytes}
use communication_platform.Protocol.Framing.{
  Reader, Parser, pure, fail, ◌>>=◌, ◌>>◌, reject, lift, run, finish, bounded_bytes,
  max_input_bytes, checked_add, slice, usize_end,
}
use communication_platform.Protocol.Writing.{Writer, ◌>>◌ as followed, written_by}
use communication_platform.Cbor.{Minicbor, decoded, written, peek}

abbrev pub max_cbor_bytes : ℕ
max_cbor_bytes = max_input_bytes

pub record FoundationRecord : Type 0 where
  pub version : ℕ
  pub kind : ℕ
  pub payload : Bytes

-- What the loop over the entries has found.
pub record Found : Type 0 where
  pub next_key : ℕ
  pub version : Option ℕ
  pub kind : Option ℕ
  pub payload : Option Bytes

-- `next_key.saturating_add(1)` on `u8`.
abbrev pub next : ℕ → ℕ
next key = if key == 255 then 255 else suc key

-- `first & 0x1f`, to the length of a header.
unfoldable pub header_len : ℕ → Option ℕ
header_len additional =
    if ltb additional 24
    then some 1
    else if additional == 24
    then some 2
    else if additional == 25
    then some 3
    else if additional == 26
    then some 5
    else if additional == 27
    then some 9
    else none

-- The bytes after the first one, big-endian; each is asked for in turn.
unfoldable pub declared_len : ℕ → ℕ → Reader → Option ℕ
declared_len additional size r =
    if size == 1
    then some additional
    else elim (slice r.input (r.position + 1) (r.position + size)) [
      | none ↦ none
      | some bytes ↦ some (from_be_bytes bytes)
    ]

unfoldable pub is_shortest : ℕ → ℕ → Bool
is_shortest length size =
    if ltb length 24
    then size == 1
    else if ltb length (2 ^ 8)
    then size == 2
    else if ltb length (2 ^ 16)
    then size == 3
    else if ltb length (2 ^ 32)
    then size == 5
    else size == 9

-- `datatype_is_u8` is `decoder.datatype() == U8`, and `dec_u8` is `decoder.u8()`.
module _ (m : Minicbor) (datatype_is_u8 : Reader → Option Bool)
    (dec_u8 : Reader → Option (ℕ × Reader)) where
  unfoldable pub datatype : Parser Bool
  datatype r = elim (datatype_is_u8 r) [ none ↦ err malformed_input | some b ↦ ok (b, r) ]

  unfoldable pub read_canonical_u8 : Parser ℕ
  unfolding datatype
  read_canonical_u8 = do
    first ← peek
    reject (ltb 23 first) malformed_input
    is_u8 ← datatype
    reject (not is_u8) malformed_input
    decoded dec_u8

  unfoldable pub declared : ℕ → ℕ → Parser ℕ
  declared additional size r = elim (declared_len additional size r) [
    | none ↦ err malformed_input
    | some n ↦ ok (n, r)
  ]

  unfoldable pub read_canonical_bytes : Parser Bytes
  unfolding declared
  read_canonical_bytes = do
    first ← peek
    reject (not (first / 2 ^ 5 == 2)) malformed_input
    size ← lift (ok_or (header_len (bit_and first 0x1f)) malformed_input)
    length ← declared (bit_and first 0x1f) size
    reject (not (is_shortest length size)) malformed_input
    decoded m.dec_bytes

  unfoldable pub read_entry : Found → ℕ → Parser Found
  unfolding read_canonical_u8 read_canonical_bytes
  read_entry found key =
      if key == 0
      then version
      else if key == 1
      then kind
      else if key == 2
      then payload
      else fail malformed_input
    where
      version : Parser Found
      version = do
        v ← read_canonical_u8
        pure (record found { next_key = next found.next_key; version = some v })

      kind : Parser Found
      kind = do
        v ← read_canonical_u8
        pure (record found { next_key = next found.next_key; kind = some v })

      payload : Parser Found
      payload = do
        bytes ← read_canonical_bytes
        reject (ltb max_cbor_bytes (length bytes)) input_too_large
        pure (record found { next_key = next found.next_key; payload = some bytes })

  unfoldable pub read_entries : ℕ → Found → Parser Found
  unfolding read_entry
  read_entries zero found = pure found
  read_entries (suc count) found = do
    key ← read_canonical_u8
    reject (not (key == found.next_key)) malformed_input
    found' ← read_entry found key
    read_entries count found'

  unfoldable pub complete : Found → Result FoundationRecord
  complete found = bind_result (ok_or found.version malformed_input) λ version.
      bind_result (ok_or found.kind malformed_input) λ kind.
        bind_result (ok_or found.payload malformed_input)
          λ payload. ok (record { version = version; kind = kind; payload = payload })

  -- `bounded.as_slice().first() != Some(&0xa3)`
  unfoldable pub starts_with_map : Bytes → Bool
  starts_with_map [] = Bool.false
  starts_with_map (b ∷ bs) = b == 0xa3

  -- `MAX_CBOR_ITEMS.min(3)` is 3.
  unfoldable pub read_record : Parser Found
  unfolding read_entries
  read_record = do
    map_len ← decoded m.dec_map
    reject (elim map_len [ none ↦ Bool.true | some n ↦ not (n == 3) ]) malformed_input
    read_entries 3 (record { next_key = 0; version = none; kind = none; payload = none })

  unfoldable pub decode_foundation_record : Bytes → Result FoundationRecord
  unfolding starts_with_map read_record complete
  decode_foundation_record input = bind_result (bounded_bytes input max_cbor_bytes) λ bytes.
      bind_result (refuse (not (starts_with_map bytes)) malformed_input)
        λ _. run (read_record >>= λ found. finish >> lift (complete found)) bytes

unfoldable pub write_record : Minicbor → ℕ → ℕ → Bytes → Writer
write_record m version kind payload = followed (written (m.enc_map 3)) (
    followed (written (m.enc_u8 0)) (
      followed (written (m.enc_u8 version)) (
        followed (written (m.enc_u8 1)) (
          followed (written (m.enc_u8 kind))
            (followed (written (m.enc_u8 2)) (written (m.enc_bytes payload)))))))

unfoldable pub encode_foundation_record : Minicbor → ℕ → ℕ → Bytes → Result Bytes
unfolding write_record
encode_foundation_record m version kind payload =
    bind_result (bounded_bytes payload max_cbor_bytes) λ bounded.
      bind_result (ok_or (checked_add usize_end (length payload) 16) input_too_large) λ capacity.
        bind_result (written_by (write_record m version kind bounded)) λ encoded.
          bind_result (refuse (ltb max_cbor_bytes (length encoded)) input_too_large) λ _. ok encoded
