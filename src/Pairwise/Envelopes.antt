-- ===== src/Pairwise/Envelopes.antt =====
-- pairwise.rs: what is read from an envelope.
use communication_platform.Base.{
  ℕ, ◌+◌, ◌-◌, ◌^◌, ◌≤◌, ◌<◌, ◌≡◌, refl, sym, subst, true, false, [], ◌∷◌, ◌++◌, append-nil, length,
  length-append, arith, ltb, ◌==◌, ok, err, malformed_input, internal_failure, if◌then◌else◌,
  Bool-cases, inl, inr, ap, ==_iff, unsupported_version,
}
use communication_platform.Base.Bytes.{Bytes, to_be_bytes}
use communication_platform.Protocol.Framing.{usize_end, run, remaining}
use communication_platform.Protocol.Reads.{
  ReadsAll, map-ReadsAll, bind-ReadsAll, reject-ReadsAll, u8-Reads, u16-Reads, take-Reads,
  run-ReadsAll,
}
use communication_platform.Pairwise.{RatchetHeader, initial, regular, allowed_buckets}
use communication_platform.Pairwise.Reading.{
  contains_size, bad_header_len, take_ciphertext, read_envelope, parse_envelope,
  inspect_public_header,
}
use communication_platform.Pairwise.Writing.{choose_bucket, assemble_envelope}
use communication_platform.Pairwise.Headers.{
  header_bytes_of, IsHeader, parse_ratchet_header-written,
}
use communication_platform.Pairwise.Buckets.{choose_bucket-eq-ok, bucket_small}

take_ciphertext-ReadsAll : (xs : Bytes) → ReadsAll take_ciphertext xs xs
unfolding take_ciphertext remaining
take_ciphertext-ReadsAll xs = record {
  reads_all = λ passed h.
      let left : length (passed ++ xs) - length passed ≡ length xs =
        omega (arith, length-append passed xs) in
      rw left (rw (append-nil xs) at ((take-Reads xs refl).reads passed [] (rw (append-nil xs) h)));
}

good_header_len :
    (header_len size : ℕ)
    → 58 ≤ header_len
    → header_len < 256 ^ 2
    → header_len + 24 ≤ size
    → bad_header_len header_len size ≡ false
unfolding bad_header_len
good_header_len header_len size long small room = ground arith

read_envelope-ReadsAll :
    (size : ℕ) (encoded ciphertext : Bytes)
    → length encoded < 256 ^ 2
    → 58 ≤ length encoded
    → length encoded + 24 ≤ size
    → ReadsAll
        (read_envelope size)
        (1 ∷ (1 ∷ (to_be_bytes 2 (length encoded) ++ (encoded ++ ciphertext))))
        (encoded, ciphertext)
unfolding read_envelope
read_envelope-ReadsAll size encoded ciphertext small long room = bind-ReadsAll _ (u8-Reads 1) (
    reject-ReadsAll unsupported_version refl (
      bind-ReadsAll _ (u8-Reads 1) (
        reject-ReadsAll unsupported_version refl (
          bind-ReadsAll _ (u16-Reads (length encoded) small) (
            reject-ReadsAll malformed_input (good_header_len (length encoded) size long small room)
              (bind-ReadsAll _ (take-Reads encoded refl) (
                map-ReadsAll (λ ciphertext. (encoded, ciphertext))
                  (take_ciphertext-ReadsAll ciphertext))))))))

-- What `inspect_public_header` says of a header: its kind and its session.
abbrev pub public_header : RatchetHeader → ℕ × Bytes
public_header (initial h) = (1, h.session_id)
public_header (regular h) = (0, h.session_id)

module _ (encoded ciphertext output : Bytes) (bucket : ℕ)
    (assembled : assemble_envelope bucket encoded ciphertext ≡ ok output) where
  -- The layout, its size, and that the size of the header fits its field.
  assembled-layout :
      (1 ∷ (1 ∷ (to_be_bytes 2 (length encoded) ++ (encoded ++ ciphertext))) ≡ output)
      × (length output ≡ bucket)
      × (length encoded < 256 ^ 2)
  unfolding assemble_envelope
  assembled-layout =
      let whole : Bytes = 1 ∷ (1 ∷ (to_be_bytes 2 (length encoded) ++ (encoded ++ ciphertext))) in
      let small : length encoded < 256 ^ 2 = ground (arith, assembled) in
      let fits : ltb (length encoded) (256 ^ 2) ≡ true = ground arith in
      judged whole small (rw fits at assembled)
    where
      judged :
          (whole : Bytes)
          → length encoded < 256 ^ 2
          → (if length whole == bucket then ok whole else err internal_failure) ≡ ok output
          → (whole ≡ output) × (length output ≡ bucket) × (length encoded < 256 ^ 2)
      judged whole small e = elim (Bool-cases (length whole == bucket)) [
        | inl same ↦
            let is : whole ≡ output = cc (rw same at e) in
            (is, rw (ap length (sym is)) ((==_iff _ _).0 same), small)
        | inr other ↦ let impossible : err internal_failure ≡ ok output = rw other at e in cc
      ]

-- An envelope that is made of a well-formed header, in the form in which it is written, and a
-- ciphertext, for the size that `choose_bucket` returned, is parsed as that header and that
-- ciphertext; and `inspect_public_header` says of it what the header says. A well-formed header has
-- fields of the sizes of their types and a session that is not all zeros; that of a first message
-- has besides only known flags, with the flag of a first message, identifiers of signed keys up to
-- 2^31 - 1, those of one-time keys likewise where they are flagged and 2^32 - 1 where they are not, a
-- second ciphertext exactly where its key is flagged, and a seal of the size for the flags.
pub parse_envelope-assembled :
    (header : RatchetHeader) (encoded ciphertext output : Bytes) (inner_len bucket : ℕ)
    → IsHeader header
    → header_bytes_of header ≡ ok encoded
    → choose_bucket (length encoded) inner_len ≡ ok bucket
    → assemble_envelope bucket encoded ciphertext ≡ ok output
    → (parse_envelope output
        ≡ ok (record { header_bytes = encoded; header = header; ciphertext = ciphertext }))
      × (inspect_public_header output ≡ ok (public_header header))
unfolding parse_envelope inspect_public_header
parse_envelope-assembled header encoded ciphertext output inner_len bucket t written chosen made =
    let (layout, size, small) = assembled-layout encoded ciphertext output bucket made in
    let (parsed, long) = parse_ratchet_header-written header encoded t written (omega arith) in
    let good = choose_bucket-eq-ok (length encoded) inner_len bucket chosen in
    let allowed : contains_size allowed_buckets (length output) ≡ true = rw size good.allowed in
    let short : length output < usize_end = rw size (bucket_small bucket good.allowed) in
    let read : run (read_envelope (length output)) output ≡ ok (encoded, ciphertext) =
      run-ReadsAll
        (subst (λ xs. ReadsAll (read_envelope (length output)) xs (encoded, ciphertext)) layout
          (read_envelope-ReadsAll (length output) encoded ciphertext small long
            (omega (arith, good.holds_all, size))))
        short in
    let whole : parse_envelope output
        ≡ ok (record { header_bytes = encoded; header = header; ciphertext = ciphertext }) =
      rw (allowed, read, parsed) refl in
    (whole, inspected header whole)
  where
    inspected :
        (h : RatchetHeader)
        → parse_envelope output
          ≡ ok (record { header_bytes = encoded; header = h; ciphertext = ciphertext })
        → inspect_public_header output ≡ ok (public_header h)
    inspected (initial h) e = rw e refl
    inspected (regular h) e = rw e refl
