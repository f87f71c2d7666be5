-- ===== src/Pairwise/Tests.antt =====
-- pairwise.rs: a first message, without one-time keys, in an envelope.
use communication_platform.Base.{
  ℕ, ◌+◌, ◌<◌, ◌≡◌, ◌⊎◌, refl, none, [], ◌∷◌, ◌++◌, length, replicate, arith, ok, err,
  input_too_large,
}
use communication_platform.Base.Bytes.{Bytes, to_be_bytes, is_zero}
use communication_platform.Pairwise.{InitialHeader, initial, has_flag, validate_optional_id}
use communication_platform.Pairwise.Reading.{
  sender_seal_size, parse_envelope, inspect_public_header,
}
use communication_platform.Pairwise.Writing.{
  initial_header_prefix, initial_header_bytes, first_bucket, choose_bucket, assemble_envelope,
}
use communication_platform.Pairwise.Headers.{IsInitial}
use communication_platform.Pairwise.Buckets.{IsBucket, choose_bucket-cases}
use communication_platform.Pairwise.Envelopes.{public_header, parse_envelope-assembled}

abbrev first_header : InitialHeader
first_header = record {
  flags = 1;
  session_id = replicate 16 1;
  ratchet_public = replicate 32 2;
  signed_prekey_id = 7;
  one_time_prekey_id = 0xffffffff;
  pq_signed_prekey_id = 8;
  pq_one_time_prekey_id = 0xffffffff;
  ephemeral_public = replicate 32 3;
  pq_signed_ciphertext = replicate 1088 4;
  pq_one_time_ciphertext = none;
  sender_seal = replicate 186 5;
}

first_header-IsInitial : IsInitial first_header
unfolding has_flag validate_optional_id sender_seal_size is_zero
first_header-IsInitial = record {
  known = refl;
  first = refl;
  session_size = refl;
  session_nonzero = refl;
  ratchet_size = refl;
  signed_fits = omega arith;
  pq_signed_fits = omega arith;
  one_time_fits = omega arith;
  pq_one_time_fits = omega arith;
  one_time_valid = refl;
  pq_one_time_valid = refl;
  ephemeral_size = refl;
  ciphertext_size = refl;
  announced = refl;
  seal_size = refl;
}

abbrev encoded : Bytes
encoded =
    1
    ∷ (1
        ∷ (replicate 16 1
            ++ (replicate 32 2
                ++ ((0 ∷ 0 ∷ 0 ∷ 0 ∷ 0 ∷ 0 ∷ 0 ∷ 0 ∷ [])
                    ++ ((0 ∷ 0 ∷ 0 ∷ 7 ∷ 255 ∷ 255 ∷ 255 ∷ 255 ∷ [])
                        ++ ((0 ∷ 0 ∷ 0 ∷ 8 ∷ 255 ∷ 255 ∷ 255 ∷ 255 ∷ [])
                            ++ (replicate 32 3
                                ++ (replicate 1088 4 ++ ((0 ∷ 186 ∷ []) ++ replicate 186 5)))))))))

written : initial_header_bytes first_header ≡ ok encoded
unfolding initial_header_bytes initial_header_prefix to_be_bytes
written = refl

chosen : choose_bucket (length encoded) 100 ≡ ok 4096
unfolding choose_bucket first_bucket
chosen = refl

abbrev envelope : Bytes
envelope = 1 ∷ (1 ∷ ((5 ∷ 102 ∷ []) ++ (encoded ++ replicate 2710 6)))

assembled : assemble_envelope 4096 encoded (replicate 2710 6) ≡ ok envelope
unfolding assemble_envelope to_be_bytes
assembled = refl

parse_envelope-assembled_example :
    (parse_envelope envelope
      ≡ ok (record {
        header_bytes = encoded;
        header = initial first_header;
        ciphertext = replicate 2710 6;
      }))
    × (inspect_public_header envelope ≡ ok (public_header (initial first_header)))
parse_envelope-assembled_example =
    parse_envelope-assembled (initial first_header) encoded (replicate 2710 6) envelope 100 4096
      first_header-IsInitial written chosen assembled

choose_bucket-cases_example :
    ((bucket : ℕ) × (choose_bucket 58 942 ≡ ok bucket) × IsBucket (24 + 58 + 942) bucket)
    ⊎ ((choose_bucket 58 942 ≡ err input_too_large) × (262144 < 24 + 58 + 942))
choose_bucket-cases_example = choose_bucket-cases 58 942
