-- ===== src/Cbor/Encoding.antt =====
-- The encoder's calls write items in their shortest form, and how long such items are.
use communication_platform.Base.{
  ℕ, ◌+◌, ◌^◌, ◌<◌, ◌≤◌, ◌≡◌, Option, some, none, length, length-append, arith,
}
use communication_platform.Base.Bytes.{Bytes, length-to_be_bytes}
use communication_platform.Protocol.Writing.{Writes, extend-Writes}
use communication_platform.Cbor.{Minicbor, IsCbor, written, head, encode_key}
use communication_platform.Cbor.Laws.{item, nullable_item}

pub written-Writes : {o : Option Bytes} {xs : Bytes} → o ≡ some xs → Writes (written o) xs
unfolding written
written-Writes {xs} h = rw h (extend-Writes xs)

pub length-head : (major n : ℕ) → length (head major n) ≤ 9
unfolding head
length-head major n = ground (
  arith,
  length-to_be_bytes 1 n,
  length-to_be_bytes 2 n,
  length-to_be_bytes 4 n,
  length-to_be_bytes 8 n,
)

pub length-item : (major : ℕ) (xs : Bytes) → length (item major xs) ≤ 9 + length xs
length-item major xs =
    omega (arith, length-append (head major (length xs)) xs, length-head major (length xs))

module _ (m : Minicbor) (cbor : IsCbor m) where
  pub map-Writes : (n : ℕ) → n < 2 ^ 64 → Writes (written (m.enc_map n)) (head 5 n)
  map-Writes n h = written-Writes (cbor.map_head n h)

  pub array-Writes : (n : ℕ) → n < 2 ^ 64 → Writes (written (m.enc_array n)) (head 4 n)
  array-Writes n h = written-Writes (cbor.array_head n h)

  pub key-Writes : (k : ℕ) → k < 2 ^ 8 → Writes (encode_key m k) (head 0 k)
  unfolding encode_key
  key-Writes k h = written-Writes (cbor.u8_head k h)

  pub u8-Writes : (n : ℕ) → n < 2 ^ 8 → Writes (written (m.enc_u8 n)) (head 0 n)
  u8-Writes n h = written-Writes (cbor.u8_head n h)

  pub u32-Writes : (n : ℕ) → n < 2 ^ 32 → Writes (written (m.enc_u32 n)) (head 0 n)
  u32-Writes n h = written-Writes (cbor.u32_head n h)

  pub u64-Writes : (n : ℕ) → n < 2 ^ 64 → Writes (written (m.enc_u64 n)) (head 0 n)
  u64-Writes n h = written-Writes (cbor.u64_head n h)

  pub bytes-Writes :
      (xs : Bytes) → length xs < 2 ^ 64 → Writes (written (m.enc_bytes xs)) (item 2 xs)
  bytes-Writes xs h = written-Writes (cbor.bytes_item xs h)

  pub str-Writes : (xs : Bytes) → length xs < 2 ^ 64 → Writes (written (m.enc_str xs)) (item 3 xs)
  str-Writes xs h = written-Writes (cbor.str_item xs h)

  pub null-Writes : Writes (written m.enc_null) (nullable_item none)
  null-Writes = written-Writes cbor.null_item
