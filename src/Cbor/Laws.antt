-- ===== src/Cbor/Laws.antt =====
-- The canonical readers read back every item in its shortest form.
use communication_platform.Base.{
  ℕ, ◌+◌, ◌*◌, ◌^◌, ◌<◌, ◌≤◌, ◌≡◌, refl, ◌∙◌, Bool, true, false, not, ◌&&◌, ◌||◌, ◌≢◌, ==_self,
  Option, none, some, [], ◌∷◌, ◌++◌, length, ltb, ◌==◌, if◌then◌else◌, arith, ok, append-nil,
  malformed_input,
}
use communication_platform.Base.Bytes.{Bytes, to_be_bytes}
use communication_platform.Base.Text.{IsText, char_count}
use communication_platform.Protocol.Framing.{Parser, pure, ◌>>=◌, ◌>>◌, reject}
use communication_platform.Protocol.Reads.{
  Reads, between, chain, last-Reads, pure-Reads, reject-Reads, pass-Reads,
}
use communication_platform.Cbor.{
  Minicbor, IsCbor, head, byte_at, peek, canonical_length_header, wrong_item, definite,
  shortest_uint, shortest_array, read_map_len, read_exact_map, read_uint, read_key, read_array_len,
  read_bytes, read_exact_bytes, read_text, read_nullable,
}
use communication_platform.Cbor.Bits.{low_five, tag_map, tag_array, tag_bytes, tag_text}

-- The first byte of a head, and the rest.
head_byte : ℕ → ℕ → ℕ
head_byte major n =
    if ltb n 24
    then major * 32 + n
    else if ltb n (2 ^ 8)
    then major * 32 + 24
    else if ltb n (2 ^ 16)
    then major * 32 + 25
    else if ltb n (2 ^ 32)
    then major * 32 + 26
    else major * 32 + 27

head_tail : ℕ → Bytes
head_tail n =
    if ltb n 24
    then []
    else if ltb n (2 ^ 8)
    then to_be_bytes 1 n
    else if ltb n (2 ^ 16)
    then to_be_bytes 2 n
    else if ltb n (2 ^ 32)
    then to_be_bytes 4 n
    else to_be_bytes 8 n

head_parts : (major n : ℕ) → head major n ≡ head_byte major n ∷ head_tail n
unfolding head head_byte head_tail
head_parts major n = ground arith

-- The major type stands in the top three bits, and the length is no reserved value.
right_item : (major n : ℕ) → major < 8 → wrong_item major (head_byte major n) ≡ false
unfolding wrong_item head_byte
right_item major n h = ground (
  arith,
  low_five (major * 32 + n),
  low_five (major * 32 + 24),
  low_five (major * 32 + 25),
  low_five (major * 32 + 26),
  low_five (major * 32 + 27),
)

uint_is_shortest : (n : ℕ) → shortest_uint (head_byte 0 n) n ≡ true
unfolding shortest_uint head_byte
uint_is_shortest n = ground arith

array_is_shortest : (n : ℕ) → shortest_array (head_byte 4 n) n ≡ true
unfolding shortest_array head_byte
array_is_shortest n = ground (arith, tag_array n)

map_is_canonical : (n : ℕ) → canonical_length_header (head_byte 5 n) n 5 ≡ true
unfolding canonical_length_header head_byte
map_is_canonical n = ground (arith, tag_map n)

bytes_is_canonical : (n : ℕ) → canonical_length_header (head_byte 2 n) n 2 ≡ true
unfolding canonical_length_header head_byte
bytes_is_canonical n = ground (arith, tag_bytes n)

text_is_canonical : (n : ℕ) → canonical_length_header (head_byte 3 n) n 3 ≡ true
unfolding canonical_length_header head_byte
text_is_canonical n = ground (arith, tag_text n)

byte_at_append :
    (passed rest : Bytes) (b : ℕ) → byte_at (passed ++ (b ∷ rest)) (length passed) ≡ some b
unfolding byte_at
byte_at_append [] rest b = refl
byte_at_append (x ∷ passed) rest b = byte_at_append passed rest b

peek_at :
    (passed rest : Bytes) (b : ℕ)
    → peek (between passed (b ∷ rest)) ≡ ok (b, between passed (b ∷ rest))
unfolding peek
peek_at passed rest b = rw (byte_at_append passed rest b, peek)

-- `peek` looks at the byte that the next step reads.
pub peek-Reads {ℓ} :
    {A : Type ℓ} (f : ℕ → Parser A) (b : ℕ) {xs : Bytes} {a : A}
    → Reads (f b) (b ∷ xs) a
    → Reads (peek >>= f) (b ∷ xs) a
peek-Reads f b {xs} m = record {
  reads = λ passed rest h. chain peek f _ (peek_at passed (xs ++ rest) b) ∙ m.reads passed rest h;
}

definite-Reads : (n : ℕ) → Reads (definite (some n)) [] n
unfolding definite
definite-Reads n = pure-Reads n

-- The last step of the readers: a test that holds, and the value.
judged-Reads {ℓ} :
    {A : Type ℓ} {c : Bool} (a : A)
    → c ≡ true
    → Reads (reject (not c) malformed_input >> pure a) [] a
judged-Reads a h = rw h (reject-Reads malformed_input refl (pure-Reads a))

-- The first steps of the readers, in front of an item with the right head.
headed-Reads {ℓ} :
    {A : Type ℓ} (major n : ℕ) (f : ℕ → Parser A) (ys : Bytes) {a : A}
    → major < 8
    → Reads (f (head_byte major n)) (head major n ++ ys) a
    → Reads
        (peek >>= λ first. reject (wrong_item major first) malformed_input >> f first)
        (head major n ++ ys)
        a
headed-Reads major n f ys l k = rw (head_parts major n) (
    peek-Reads _ _
      (reject-Reads malformed_input (right_item major n l) (rw (head_parts major n) at k)))

bare-Reads {ℓ} :
    {A : Type ℓ} (major n : ℕ) (f : ℕ → Parser A) {a : A}
    → major < 8
    → Reads (f (head_byte major n)) (head major n) a
    → Reads
        (peek >>= λ first. reject (wrong_item major first) malformed_input >> f first)
        (head major n)
        a
bare-Reads major n f {a} l k =
    let k' : Reads (f (head_byte major n)) (head major n ++ []) a =
      rw (append-nil (head major n)) k in
    rw (append-nil (head major n)) at (headed-Reads major n f [] l k')

-- The head of a byte string is not the `null` byte.
not_null : (n : ℕ) → (head_byte 2 n == 0xf6) ≡ false
unfolding head_byte
not_null n = ground arith

-- A byte string or a text, as it is written.
abbrev pub item : ℕ → Bytes → Bytes
item major xs = head major (length xs) ++ xs

-- The limits of `read_text` on a text.
abbrev pub nullable_item : Option Bytes → Bytes
nullable_item none = 0xf6 ∷ []
nullable_item (some xs) = item 2 xs

pub record WithinText (max_bytes max_scalars : ℕ) (non_empty : Bool) (xs : Bytes) : Type 0 where
  pub text : IsText xs
  pub few_bytes : length xs ≤ max_bytes
  pub few_scalars : char_count xs ≤ max_scalars
  pub filled : non_empty ≡ true → xs ≢ []

non_empty_passes : (e : Bool) (xs : Bytes) → (e ≡ true → xs ≢ []) → (e && length xs == 0) ≡ false
non_empty_passes false xs h = refl
non_empty_passes true [] h = absurd (h refl refl)
non_empty_passes true (x ∷ xs) h = ground arith

few_passes : (b s n k : ℕ) → n ≤ b → k ≤ s → (ltb b n || ltb s k) ≡ false
few_passes b s n k h l = ground arith

module _ (m : Minicbor) (cbor : IsCbor m) where
  pub read_uint-Reads : (n : ℕ) → n < 2 ^ 64 → Reads (read_uint m) (head 0 n) n
  unfolding read_uint
  read_uint-Reads n h =
      bare-Reads 0 n _ (omega arith)
        (last-Reads _ (cbor.u64_back n h) (judged-Reads n (uint_is_shortest n)))

  pub read_key-Reads : (n : ℕ) → n < 2 ^ 64 → Reads (read_key m n) (head 0 n) tt
  unfolding read_key
  read_key-Reads n h = last-Reads _ (read_uint-Reads n h) (rw (==_self n) (pass-Reads _ refl))

  pub read_map_len-Reads : (n : ℕ) → n < 2 ^ 64 → Reads (read_map_len m) (head 5 n) n
  unfolding read_map_len
  read_map_len-Reads n h = bare-Reads 5 n _ (omega arith) (
      last-Reads _ (last-Reads definite (cbor.map_back n h) (definite-Reads n))
        (judged-Reads n (map_is_canonical n)))

  pub read_exact_map-Reads : (n : ℕ) → n < 2 ^ 64 → Reads (read_exact_map m n) (head 5 n) tt
  unfolding read_exact_map
  read_exact_map-Reads n h =
      last-Reads _ (read_map_len-Reads n h) (rw (==_self n) (pass-Reads _ refl))

  pub read_array_len-Reads : (n : ℕ) → n < 2 ^ 64 → Reads (read_array_len m) (head 4 n) n
  unfolding read_array_len
  read_array_len-Reads n h = bare-Reads 4 n _ (omega arith) (
      last-Reads _ (last-Reads definite (cbor.array_back n h) (definite-Reads n))
        (judged-Reads n (array_is_shortest n)))

  pub read_bytes-Reads : (xs : Bytes) → length xs < 2 ^ 64 → Reads (read_bytes m) (item 2 xs) xs
  unfolding read_bytes
  read_bytes-Reads xs h =
      headed-Reads 2 (length xs) _ xs (omega arith)
        (last-Reads _ (cbor.bytes_back xs h) (judged-Reads xs (bytes_is_canonical (length xs))))

  pub read_exact_bytes-Reads :
      {n : ℕ} (xs : Bytes)
      → length xs ≡ n
      → n < 2 ^ 64
      → Reads (read_exact_bytes m n) (item 2 xs) xs
  unfolding read_exact_bytes
  read_exact_bytes-Reads {n} xs e h =
      last-Reads _ (read_bytes-Reads xs (omega arith)) (judged-Reads xs (rw e (==_self n)))

  pub read_text-Reads :
      (b s : ℕ) (e : Bool) (xs : Bytes)
      → b < 2 ^ 64
      → WithinText b s e xs
      → Reads (read_text m b s e) (item 3 xs) xs
  unfolding read_text
  read_text-Reads b s e xs l w = headed-Reads 3 (length xs) _ xs (omega arith) (
      last-Reads _ (cbor.str_back xs (omega (arith, w.few_bytes)) w.text) (
        rw (text_is_canonical (length xs)) (
          reject-Reads _ refl (
            reject-Reads _ (few_passes b s _ _ w.few_bytes w.few_scalars)
              (reject-Reads _ (non_empty_passes e xs w.filled) (pure-Reads xs))))))

  pub read_nullable-Reads :
      {n : ℕ} (o : Option Bytes)
      → ((xs : Bytes) → o ≡ some xs → length xs ≡ n)
      → n < 2 ^ 64
      → Reads (read_nullable m n) (nullable_item o) o
  unfolding read_nullable
  read_nullable-Reads none e h = peek-Reads _ _ (last-Reads _ cbor.null_back (pure-Reads none))
  read_nullable-Reads {n} (some xs) e h =
      rw (head_parts 2 (length xs))
        (peek-Reads _ _ (rw (not_null (length xs)) (rw (head_parts 2 (length xs)) at present)))
    where
      present : Reads (read_exact_bytes m n >>= λ bytes. pure (some bytes)) (item 2 xs) (some xs)
      present = last-Reads _ (read_exact_bytes-Reads xs (e xs refl) h) (pure-Reads (some xs))
