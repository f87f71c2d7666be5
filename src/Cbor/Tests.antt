-- ===== src/Cbor/Tests.antt =====
-- A concrete encoder and decoder of RFC 8949 items, which shows that what is asked of minicbor can
-- hold. It stands for no code of the crate.
use communication_platform.Base.{
  ℕ, ◌+◌, ◌*◌, ◌/◌, ◌%◌, ◌^◌, ◌<◌, ◌≡◌, refl, Bool, true, false, not, Option, none, some, [], ◌∷◌,
  ◌++◌, length, ltb, ◌==◌, if◌then◌else◌, ok, err, malformed_input, arith,
}
use communication_platform.Base.Bytes.{Bytes, to_be_bytes}
use communication_platform.Protocol.Framing.{
  Reader, Parser, pure, fail, ◌>>=◌, ◌>>◌, reject, take, u8, u16, u32, u64,
}
use communication_platform.Protocol.Reads.{
  Reads, pure-Reads, bind-Reads, last-Reads, reject-Reads, pass-Reads, take-Reads, u8-Reads,
  u16-Reads, u32-Reads, u64-Reads,
}
use communication_platform.Cbor.{Minicbor, IsCbor, decoded, head}

abbrev as_option : {A : Type 0} → Parser A → Reader → Option (A × Reader)
as_option p r = elim (p r) [ ok q ↦ some q | err e ↦ none ]

abbrev pub read_length : ℕ → Parser ℕ
read_length low =
    if ltb low 24
    then pure low
    else if low == 24
    then u8
    else if low == 25
    then u16
    else if low == 26
    then u32
    else if low == 27
    then u64
    else fail malformed_input

abbrev pub read_head : ℕ → Parser ℕ
read_head major = do
  first ← u8
  reject (not (first / 32 == major)) malformed_input
  read_length (first % 32)

abbrev read_string : ℕ → Parser Bytes
read_string major = do size ← read_head major; take size

abbrev read_definite : ℕ → Parser (Option ℕ)
read_definite major = do n ← read_head major; pure (some n)

abbrev read_null : Parser (Unit {0})
read_null = do first ← u8; reject (not (first == 0xf6)) malformed_input

abbrev pub small_cbor : Minicbor
small_cbor = record {
  enc_map = λ n. some (head 5 n);
  enc_array = λ n. some (head 4 n);
  enc_u8 = λ n. some (head 0 n);
  enc_u32 = λ n. some (head 0 n);
  enc_u64 = λ n. some (head 0 n);
  enc_bytes = λ xs. some (head 2 (length xs) ++ xs);
  enc_str = λ xs. some (head 3 (length xs) ++ xs);
  enc_null = some (0xf6 ∷ []);
  dec_map = as_option (read_definite 5);
  dec_array = as_option (read_definite 4);
  dec_u64 = as_option (read_head 0);
  dec_bytes = as_option (read_string 2);
  dec_str = as_option (read_string 3);
  dec_null = as_option read_null;
}

decoded-Reads :
    {A : Type 0} (p : Parser A) {xs : Bytes} {a : A}
    → Reads p xs a
    → Reads (decoded (as_option p)) xs a
unfolding decoded
decoded-Reads p m = record { reads = λ passed rest h. rw (decoded, m.reads passed rest h) refl }

by_test :
    {A : Type 0} {x y : A} (P : A → Type 0) (c : Bool)
    → (c ≡ true → P x)
    → (c ≡ false → P y)
    → P (if c then x else y)
by_test P true h k = h refl
by_test P false h k = k refl

first_byte-Reads :
    (major v n : ℕ) (zs : Bytes)
    → v < 32
    → Reads (read_length v) zs n
    → Reads (read_head major) ((major * 32 + v) ∷ zs) n
first_byte-Reads major v n zs h m =
    let low : (major * 32 + v) % 32 ≡ v = omega arith in
    let high : ((major * 32 + v) / 32 == major) ≡ true = ground arith in
    bind-Reads _ (u8-Reads (major * 32 + v)) (reject-Reads _ (rw high refl) (rw low m))

one_byte-Reads : (n : ℕ) → n < 256 → Reads u8 (to_be_bytes 1 n) n
unfolding to_be_bytes
one_byte-Reads n h = let small : n % 256 ≡ n = omega arith in rw small (u8-Reads n)

read_head-Reads : (major n : ℕ) → n < 2 ^ 64 → Reads (read_head major) (head major n) n
unfolding head
read_head-Reads major n h =
    let P = λ (xs : Bytes). Reads (read_head major) xs n in
    by_test P (ltb n 24) (λ c. first_byte-Reads major n n [] (ground arith) (rw c (pure-Reads n)))
      λ _.
        by_test P (ltb n (2 ^ 8))
          (λ c. first_byte-Reads major 24 n _ (omega arith) (one_byte-Reads n (ground arith)))
          λ _.
            by_test P (ltb n (2 ^ 16))
              (λ c. first_byte-Reads major 25 n _ (omega arith) (u16-Reads n (ground arith)))
              λ _.
                by_test P (ltb n (2 ^ 32))
                  (λ c. first_byte-Reads major 26 n _ (omega arith) (u32-Reads n (ground arith)))
                  λ _. first_byte-Reads major 27 n _ (omega arith) (u64-Reads n (omega arith))

read_string-Reads :
    (major : ℕ) (xs : Bytes)
    → length xs < 2 ^ 64
    → Reads (read_string major) (head major (length xs) ++ xs) xs
read_string-Reads major xs h =
    bind-Reads _ (read_head-Reads major (length xs) h) (take-Reads xs refl)

read_definite-Reads :
    (major n : ℕ) → n < 2 ^ 64 → Reads (read_definite major) (head major n) (some n)
read_definite-Reads major n h = last-Reads _ (read_head-Reads major n h) (pure-Reads (some n))

pub small_cbor-IsCbor : IsCbor small_cbor
small_cbor-IsCbor = record {
  map_head = λ n h. refl;
  array_head = λ n h. refl;
  u8_head = λ n h. refl;
  u32_head = λ n h. refl;
  u64_head = λ n h. refl;
  bytes_item = λ xs h. refl;
  str_item = λ xs h. refl;
  null_item = refl;
  map_back = λ n h. decoded-Reads _ (read_definite-Reads 5 n h);
  array_back = λ n h. decoded-Reads _ (read_definite-Reads 4 n h);
  u64_back = λ n h. decoded-Reads _ (read_head-Reads 0 n h);
  bytes_back = λ xs h. decoded-Reads _ (read_string-Reads 2 xs h);
  str_back = λ xs h t. decoded-Reads _ (read_string-Reads 3 xs h);
  null_back = decoded-Reads _ (last-Reads _ (u8-Reads 0xf6) (pass-Reads _ refl));
}
