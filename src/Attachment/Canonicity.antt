-- ===== src/Attachment/Canonicity.antt =====
-- attachment.rs: the header that is parsed has the bytes that it is parsed from.
use communication_platform.Base.{
  ℕ, zero, suc, ◌+◌, ◌-◌, ◌≤◌, ◌≡◌, refl, sym, ap, ◌∙◌, Bool, true, false, not, ◌||◌, [], ◌∷◌, ◌++◌,
  length, take, drop, take-append-drop, length-take, arith, ok, refuse, refuse-eq-ok, >>=-eq-ok,
  unsupported_version, malformed_input, ◌==◌, ==_iff,
}
use communication_platform.Base.Bytes.{
  Bytes, IsBytes, IsArray, to_be_bytes, from_be_bytes, to_be_bytes-from_be_bytes, bytes_eq,
  bytes_eq_iff,
}
use communication_platform.Attachment.Headers.{take_whole}
use communication_platform.Attachment.{
  AttachmentHeader, header_magic, format_version, attachment_chunk_bytes, encrypted_stream_size,
  bucket_for_stream, make_header, parse_header, part,
}

drop_nil : (n : ℕ) → drop {A = ℕ} n [] ≡ []
drop_nil zero = refl
drop_nil (suc n) = refl

drop-drop : (m n k : ℕ) (xs : Bytes) → m + n ≡ k → drop n (drop m xs) ≡ drop k xs
drop-drop zero n k xs e = ap (λ j. drop j xs) (omega arith)
drop-drop (suc m) n zero xs e = absurd (omega arith)
drop-drop (suc m) n (suc k) [] e = drop_nil n
drop-drop (suc m) n (suc k) (x ∷ xs) e = drop-drop m n k xs (omega arith)

All-take : (n : ℕ) (xs : Bytes) → IsBytes xs → IsBytes (take n xs)
All-take zero xs h = tt
All-take (suc n) [] h = tt
All-take (suc n) (x ∷ xs) h = (h.0, All-take n xs h.1)

All-drop : (n : ℕ) (xs : Bytes) → IsBytes xs → IsBytes (drop n xs)
All-drop zero xs h = h
All-drop (suc n) [] h = tt
All-drop (suc n) (x ∷ xs) h = All-drop n xs h.1

length-drop : (n : ℕ) (xs : Bytes) → length (drop n xs) ≡ length xs - n
length-drop zero xs = omega arith
length-drop (suc n) [] = omega arith
length-drop (suc n) (x ∷ xs) = omega (arith, length-drop n xs)

-- What starts at `start` is the part up to `end` and what starts there.
piece :
    (start end : ℕ) (xs : Bytes) → start ≤ end → drop start xs ≡ part start end xs ++ drop end xs
piece start end xs h =
    sym (take-append-drop (end - start) (drop start xs))
    ∙ ap (λ ys. part start end xs ++ ys) (drop-drop start (end - start) end xs (omega arith))

part-IsArray :
    (start end size : ℕ) (xs : Bytes)
    → IsBytes xs
    → length xs ≡ 66
    → start + size ≡ end
    → end ≤ 66
    → IsArray size (part start end xs)
part-IsArray start end size xs h l e k = record {
  size = omega (arith, length-take (end - start) (drop start xs), length-drop start xs);
  bytes = All-take (end - start) (drop start xs) (All-drop start xs h);
}

number :
    (start end size : ℕ) (xs : Bytes)
    → IsBytes xs
    → length xs ≡ 66
    → start + size ≡ end
    → end ≤ 66
    → to_be_bytes size (from_be_bytes (part start end xs)) ≡ part start end xs
number start end size xs h l e k =
    to_be_bytes-from_be_bytes size (part start end xs) (part-IsArray start end size xs h l e k)

-- The 66 bytes, as the parts that are parsed.
parts_of :
    (xs : Bytes)
    → length xs ≡ 66
    → part 0 8 xs
        ++ (part 8 9 xs
            ++ (part 9 10 xs
                ++ (part 10 14 xs
                    ++ (part 14 22 xs ++ (part 22 30 xs ++ (part 30 34 xs ++ part 34 66 xs))))))
      ≡ xs
parts_of xs l =
    rw
      (
        ← last,
        ← piece 30 34 xs (omega arith),
        ← piece 22 30 xs (omega arith),
        ← piece 14 22 xs (omega arith),
        ← piece 10 14 xs (omega arith),
        ← piece 9 10 xs (omega arith),
        ← piece 8 9 xs (omega arith),
        ← piece 0 8 xs (omega arith),
      )
      refl
  where
    last : drop 34 xs ≡ part 34 66 xs
    last = sym (take_whole 32 (drop 34 xs) (omega (arith, length-drop 34 xs)))

-- What `make_header` returns, where it succeeds.
made :
    (plaintext stream bucket chunk : ℕ) (hash : Bytes) (header : AttachmentHeader)
    → make_header plaintext stream bucket chunk hash ≡ ok header
    → (header.bytes
        ≡ header_magic
          ++ ((format_version ∷ 0 ∷ [])
              ++ (to_be_bytes 4 chunk
                  ++ (to_be_bytes 8 plaintext
                      ++ (to_be_bytes 8 stream ++ (to_be_bytes 4 bucket ++ hash))))))
      × (header.plaintext_size ≡ plaintext)
      × (header.stream_size ≡ stream)
unfolding make_header
made plaintext stream bucket chunk hash header e = ground (arith, e)

replace_heads :
    {a b c a' b' c' : Bytes} (rest whole : Bytes)
    → a ≡ a'
    → b ≡ b'
    → c ≡ c'
    → a ++ (b ++ (c ++ rest)) ≡ whole
    → a' ++ (b' ++ (c' ++ rest)) ≡ whole
replace_heads rest whole d e f h = rw (d, e, f) at h

all_true : (a b c : Bool) → (not a || not b || not c) ≡ false → (a ≡ true) × (b ≡ true) × (c ≡ true)
all_true a b c h = ground (arith, h)

module _ (bytes : Bytes) (header : AttachmentHeader) (h : IsBytes bytes)
    (l : length bytes ≡ 66) where
  written_back :
      bytes_eq (part 0 8 bytes) header_magic ≡ true
      → bytes_eq (part 8 9 bytes) (format_version ∷ []) ≡ true
      → bytes_eq (part 9 10 bytes) (0 ∷ []) ≡ true
      → make_header
          (from_be_bytes (part 14 22 bytes))
          (from_be_bytes (part 22 30 bytes))
          (from_be_bytes (part 30 34 bytes))
          (from_be_bytes (part 10 14 bytes))
          (part 34 66 bytes)
        ≡ ok header
      → (header.bytes ≡ bytes)
        × (header.plaintext_size ≡ from_be_bytes (part 14 22 bytes))
        × (header.stream_size ≡ from_be_bytes (part 22 30 bytes))
  written_back magic version zeros g =
      let (b, s, q) = made _ _ _ _ _ header g in
      (
        b
            ∙ rw
                (
                  number 10 14 4 bytes h l refl (omega arith),
                  number 14 22 8 bytes h l refl (omega arith),
                  number 22 30 8 bytes h l refl (omega arith),
                  number 30 34 4 bytes h l refl (omega arith),
                )
                (replace_heads _ bytes ((bytes_eq_iff _ _).0 magic) ((bytes_eq_iff _ _).0 version)
                  ((bytes_eq_iff _ _).0 zeros) (parts_of bytes l)),
        s,
        q,
      )

-- For a header of 66 bytes that `parse_header` accepts, the header that it returns, which
-- `make_header` has written again from the sizes, has exactly the accepted bytes; the size of the
-- stream is that of the plaintext in chunks of 64 KiB, and there is a bucket for it.
pub parse_header-canonical :
    (bytes : Bytes) (header : AttachmentHeader)
    → IsBytes bytes
    → length bytes ≡ 66
    → parse_header bytes ≡ ok header
    → (header.bytes ≡ bytes)
      × (encrypted_stream_size header.plaintext_size attachment_chunk_bytes ≡ ok header.stream_size)
      × ((bucket : ℕ) × (bucket_for_stream header.stream_size ≡ ok bucket))
unfolding parse_header
parse_header-canonical bytes header h l g =
    let chunk = from_be_bytes (part 10 14 bytes) in
    let plaintext = from_be_bytes (part 14 22 bytes) in
    let stream = from_be_bytes (part 22 30 bytes) in
    let bucket_size = from_be_bytes (part 30 34 bytes) in
    let (u1, h1, g1) =
      >>=-eq-ok
        (refuse
          (not (bytes_eq (part 0 8 bytes) header_magic)
            || not (bytes_eq (part 8 9 bytes) (format_version ∷ []))
            || not (bytes_eq (part 9 10 bytes) (0 ∷ [])))
          unsupported_version)
        _ g in
    let (u2, h2, g2) =
      >>=-eq-ok (refuse (not (chunk == attachment_chunk_bytes)) malformed_input) _ g1 in
    let (bucket, h3, g3) = >>=-eq-ok (bucket_for_stream stream) _ g2 in
    let (u4, h4, g4) = >>=-eq-ok (refuse (not (bucket == bucket_size)) malformed_input) _ g3 in
    let (expected, h5, g5) = >>=-eq-ok (encrypted_stream_size plaintext chunk) _ g4 in
    let (u6, h6, g6) = >>=-eq-ok (refuse (not (expected == stream)) malformed_input) _ g5 in
    let (magic, version, zeros) = all_true _ _ _ (refuse-eq-ok _ _ h1) in
    let (same, s, q) = written_back bytes header h l magic version zeros g6 in
    let sized : expected ≡ stream =
      (==_iff _ _).0 (ground (arith, refuse-eq-ok (not (expected == stream)) malformed_input h6)) in
    let chunks : chunk ≡ attachment_chunk_bytes =
      (==_iff _ _).0
        (ground (arith, refuse-eq-ok (not (chunk == attachment_chunk_bytes)) malformed_input h2)) in
    (
      same,
      rw (s, q) (ap (encrypted_stream_size plaintext) (sym chunks) ∙ h5 ∙ ap ok sized),
      (bucket, rw q h3),
    )
