-- ===== src/Pairwise/Writing.antt =====
-- pairwise.rs: what is written of headers and envelopes.
use communication_platform.Base.{
  ℕ, ◌+◌, Option, none, some, List, [], ◌∷◌, ◌++◌, length, leb, ◌==◌, if◌then◌else◌, Result, ok,
  err, ok_or, input_too_large, internal_failure, ◌>>=◌ as bind_result,
}
use communication_platform.Base.Bytes.{Bytes, to_be_bytes}
use communication_platform.Protocol.Framing.{checked_add, usize_end}
use communication_platform.Protocol.Writing.{try_from}
use communication_platform.Pairwise.{
  InitialHeader, RegularHeader, allowed_buckets, header_version, protocol_version, suite,
  xchacha_abytes,
}

abbrev pub optional_bytes : Option Bytes → Bytes
optional_bytes none = []
optional_bytes (some ciphertext) = ciphertext

-- The arguments are the fields of the header but for the seal.
unfoldable pub initial_header_prefix : InitialHeader → Bytes
initial_header_prefix h =
    header_version
    ∷ (h.flags
        ∷ (h.session_id
            ++ (h.ratchet_public
                ++ (to_be_bytes 4 0
                    ++ (to_be_bytes 4 0
                        ++ (to_be_bytes 4 h.signed_prekey_id
                            ++ (to_be_bytes 4 h.one_time_prekey_id
                                ++ (to_be_bytes 4 h.pq_signed_prekey_id
                                    ++ (to_be_bytes 4 h.pq_one_time_prekey_id
                                        ++ (h.ephemeral_public
                                            ++ (h.pq_signed_ciphertext
                                                ++ optional_bytes
                                                    h.pq_one_time_ciphertext)))))))))))

-- What `initiate` makes of the prefix and the seal.
unfoldable pub initial_header_bytes : InitialHeader → Result Bytes
initial_header_bytes h =
    bind_result (try_from 2 (length h.sender_seal) input_too_large)
      λ size. ok (initial_header_prefix h ++ (to_be_bytes 2 size ++ h.sender_seal))

-- The fields are those of the session's state that the header takes.
unfoldable pub regular_header_bytes : RegularHeader → Bytes
regular_header_bytes h =
    header_version
    ∷ (0
        ∷ (h.session_id
            ++ (h.ratchet_public
                ++ (to_be_bytes 4 h.previous_chain_length ++ to_be_bytes 4 h.message_number))))

-- `find(|bucket| *bucket >= minimum)`
unfoldable pub first_bucket : List ℕ → ℕ → Option ℕ
first_bucket [] minimum = none
first_bucket (bucket ∷ buckets) minimum =
    if leb minimum bucket then some bucket else first_bucket buckets minimum

abbrev and_add : Option ℕ → ℕ → Option ℕ
and_add none b = none
and_add (some a) b = checked_add usize_end a b

unfoldable pub choose_bucket : ℕ → ℕ → Result ℕ
choose_bucket header_len inner_len =
    bind_result
      (ok_or (and_add (and_add (checked_add usize_end 4 header_len) (xchacha_abytes + 4)) inner_len)
        input_too_large)
      λ minimum. ok_or (first_bucket allowed_buckets minimum) input_too_large

-- What `encrypt_envelope` makes of the ciphertext.
unfoldable pub assemble_envelope : ℕ → Bytes → Bytes → Result Bytes
assemble_envelope bucket header ciphertext =
    bind_result (try_from 2 (length header) input_too_large) λ size.
      let output : Bytes =
        protocol_version ∷ (suite ∷ (to_be_bytes 2 size ++ (header ++ ciphertext))) in
      if length output == bucket then ok output else err internal_failure
