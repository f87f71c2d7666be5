-- ===== src/Protocol/Framing.antt =====
-- The byte reader and the writers of protocol.rs, and the input bounds of bounds.rs.
-- A `usize` has 64 bits. `&mut Reader` is state passing: a parser returns the reader it leaves.
use communication_platform.Base.{
  ℕ, ◌+◌, ◌-◌, ◌^◌, Bool, true, false, ◌&&◌, Option, none, some, [], ◌∷◌, length, ltb, leb, ◌==◌,
  if◌then◌else◌, Result, CryptoError, ok, err, ok_or, malformed_input, input_too_large,
  panic_contained, ◌>>=◌ as bind_result,
}
use communication_platform.Base.{take as list_take, drop as list_drop}
use communication_platform.Base.Bytes.{Bytes, from_be_bytes, bytes_eq}

abbrev pub max_input_bytes : ℕ
max_input_bytes = 1048576

abbrev pub usize_end : ℕ
usize_end = 2 ^ 64

-- `a.checked_add(b)` on integers below `bound`.
abbrev pub checked_add : ℕ → ℕ → ℕ → Option ℕ
checked_add bound a b = if ltb (a + b) bound then some (a + b) else none

-- `input.get(start..end)`.
abbrev pub slice : Bytes → ℕ → ℕ → Option Bytes
slice input start end =
    if leb start end && leb end (length input)
    then some (list_take (end - start) (list_drop start input))
    else none

-- `BoundedBytes::new(bytes, max)`, with `as_slice`.
unfoldable pub bounded_bytes : Bytes → ℕ → Result Bytes
bounded_bytes bytes max = if ltb max (length bytes) then err input_too_large else ok bytes

pub record Reader : Type 0 where
  pub input : Bytes
  pub position : ℕ

abbrev pub Parser {ℓ} : Type ℓ → Type ℓ
Parser A = Reader → Result (A × Reader)

abbrev pub pure {ℓ} : {A : Type ℓ} → A → Parser A
pure a r = ok (a, r)

-- `return Err(e)`.
abbrev pub fail {ℓ} : {A : Type ℓ} → CryptoError → Parser A
fail e r = err e

infixl 5 ◌>>=◌ ◌>>◌
unfoldable pub ◌>>=◌ {ℓ κ} : {A : Type ℓ} {B : Type κ} → Parser A → (A → Parser B) → Parser B
◌>>=◌ m f r = elim (m r) [ ok (a, r') ↦ f a r' | err e ↦ err e ]

unfoldable pub ◌>>◌ {ℓ} : {B : Type ℓ} → Parser (Unit {0}) → Parser B → Parser B
unfolding ◌>>=◌
m >> k = m >>= λ _. k

-- `if b { return Err(e) }` in a function that reads.
unfoldable pub reject : Bool → CryptoError → Parser (Unit {0})
reject true e = fail e
reject false e = pure tt

-- `e?` for a result that does not touch the reader.
unfoldable pub lift {ℓ} : {A : Type ℓ} → Result A → Parser A
lift (ok a) = pure a
lift (err e) = fail e

-- `Reader::new`.
unfoldable pub new_reader : Bytes → Reader
new_reader input = record { input = input; position = 0 }

unfoldable pub take : ℕ → Parser Bytes
take length r = bind_result (ok_or (checked_add usize_end r.position length) malformed_input) λ end.
    bind_result (ok_or (slice r.input r.position end) malformed_input)
      λ value. ok (value, record r { position = end })

unfoldable pub expect : Bytes → Parser (Unit {0})
unfolding ◌>>=◌ take reject
expect expected = do
  value ← take (length expected)
  if bytes_eq value expected then pure tt else fail malformed_input

unfoldable pub remaining : Reader → ℕ
remaining r = length r.input - r.position

unfoldable pub array : ℕ → Parser Bytes
unfolding ◌>>=◌ take
array size = do value ← take size; if length value == size then pure value else fail malformed_input

-- `bytes[0]`, which panics on an empty slice.
abbrev pub first_byte : Bytes → Parser ℕ
first_byte [] = fail panic_contained
first_byte (b ∷ bs) = pure b

unfoldable pub u8 : Parser ℕ
unfolding ◌>>=◌ take
u8 = take 1 >>= first_byte

-- `match value { 0 => Ok(false), 1 => Ok(true), _ => Err(..) }`
abbrev pub read_flag : ℕ → Parser Bool
read_flag value =
    if value == 0 then pure false else if value == 1 then pure true else fail malformed_input

unfoldable pub boolean : Parser Bool
unfolding ◌>>=◌ u8
boolean = u8 >>= read_flag

unfoldable pub u16 : Parser ℕ
unfolding ◌>>=◌ array
u16 = do value ← array 2; pure (from_be_bytes value)

unfoldable pub u32 : Parser ℕ
unfolding ◌>>=◌ array
u32 = do value ← array 4; pure (from_be_bytes value)

unfoldable pub u64 : Parser ℕ
unfolding ◌>>=◌ array
u64 = do value ← array 8; pure (from_be_bytes value)

-- A `u32` always fits a 64-bit `usize`.
unfoldable pub framed : Parser Bytes
unfolding ◌>>=◌ u32 take
framed = do size ← u32; if ltb max_input_bytes size then fail input_too_large else take size

unfoldable pub is_finished : Reader → Bool
is_finished r = r.position == length r.input

-- `if !reader.is_finished() { return Err(MalformedInput) }`
unfoldable pub finish : Parser (Unit {0})
unfolding is_finished
finish r = if is_finished r then ok (tt, r) else err malformed_input

-- What the caller of a decoder sees: the reader is dropped.
unfoldable pub run {ℓ} : {A : Type ℓ} → Parser A → Bytes → Result A
unfolding new_reader
run p input = bind_result (p (new_reader input)) λ q. ok q.0
