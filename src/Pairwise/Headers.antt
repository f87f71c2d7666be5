-- ===== src/Pairwise/Headers.antt =====
-- pairwise.rs: what is read from a header.
use communication_platform.Base.{
  ℕ, ◌^◌, ◌≤◌, ◌<◌, ◌≡◌, refl, sym, ◌∙◌, subst, Bool-cases, inl, inr, Bool, true, false, not, ◌&&◌,
  Option, none, some, [], ◌∷◌, ◌++◌, append-nil, append_assoc, length, length-append, arith, ◌==◌,
  ==_iff, ltb, Result, ok, malformed_input, unsupported_version,
}
use communication_platform.Base.Bytes.{Bytes, to_be_bytes, length-to_be_bytes, is_zero}
use communication_platform.Protocol.Framing.{usize_end}
use communication_platform.Protocol.Reads.{
  Reads, ReadsAll, pure-Reads, Reads-ReadsAll, bind-ReadsAll, then-ReadsAll, reject-ReadsAll,
  finish-ReadsAll, last-ReadsAll, last-Reads, lift-Reads, u8-Reads, u16-Reads, u32-Reads,
  array-Reads, take-Reads, run-ReadsAll,
}
use communication_platform.Prekey.{key_id_max}
use communication_platform.Prekey.Checks.{valid_key_id}
use communication_platform.Pairwise.{
  InitialHeader, RegularHeader, RatchetHeader, initial, regular, has_flag, flag_initial,
  flag_classical_one_time, flag_pq_one_time, flag_repair_replacement, unknown_header_flags,
  validate_optional_id, mlkem768_ciphertext_bytes,
}
use communication_platform.Pairwise.Reading.{
  optional_array, sender_seal_size, parse_initial, parse_regular, read_header, parse_ratchet_header,
}
use communication_platform.Pairwise.Writing.{
  optional_bytes, initial_header_prefix, initial_header_bytes, regular_header_bytes,
}
use Prim.Native.Nat.{bit_and}

-- The fields are of Rust's types, and the session is not all zeros.
pub record IsRegular (h : RegularHeader) : Type 0 where
  pub session_size : length h.session_id ≡ 16
  pub session_nonzero : is_zero h.session_id ≡ false
  pub ratchet_size : length h.ratchet_public ≡ 32
  pub previous_fits : h.previous_chain_length < 256 ^ 4
  pub number_fits : h.message_number < 256 ^ 4

-- A ciphertext is there exactly when it is announced.
abbrev pub IsAnnounced : Bool → Option Bytes → Type 0
IsAnnounced present none = present ≡ false
IsAnnounced present (some ciphertext) =
    (present ≡ true) × (length ciphertext ≡ mlkem768_ciphertext_bytes)

-- Likewise; the flags are known and announce what is there, identifiers of signed keys are in range,
-- and the seal has its size.
pub record IsInitial (h : InitialHeader) : Type 0 where
  pub known : (bit_and h.flags unknown_header_flags == 0) ≡ true
  pub first : has_flag flag_initial h.flags ≡ true
  pub session_size : length h.session_id ≡ 16
  pub session_nonzero : is_zero h.session_id ≡ false
  pub ratchet_size : length h.ratchet_public ≡ 32
  pub signed_fits : h.signed_prekey_id ≤ key_id_max
  pub pq_signed_fits : h.pq_signed_prekey_id ≤ key_id_max
  pub one_time_fits : h.one_time_prekey_id < 256 ^ 4
  pub pq_one_time_fits : h.pq_one_time_prekey_id < 256 ^ 4
  pub one_time_valid :
      validate_optional_id (has_flag flag_classical_one_time h.flags) h.one_time_prekey_id ≡ ok tt
  pub pq_one_time_valid :
      validate_optional_id (has_flag flag_pq_one_time h.flags) h.pq_one_time_prekey_id ≡ ok tt
  pub ephemeral_size : length h.ephemeral_public ≡ 32
  pub ciphertext_size : length h.pq_signed_ciphertext ≡ mlkem768_ciphertext_bytes
  pub announced : IsAnnounced (has_flag flag_pq_one_time h.flags) h.pq_one_time_ciphertext
  pub seal_size : length h.sender_seal ≡ sender_seal_size h.flags

parse_regular-ReadsAll :
    (h : RegularHeader)
    → ReadsAll
        (parse_regular h.session_id h.ratchet_public h.previous_chain_length h.message_number)
        []
        (regular h)
unfolding parse_regular
parse_regular-ReadsAll h = finish-ReadsAll (Reads-ReadsAll (pure-Reads (regular h)))

read_header-regular :
    (h : RegularHeader) → IsRegular h → ReadsAll read_header (regular_header_bytes h) (regular h)
unfolding read_header regular_header_bytes
read_header-regular h t = bind-ReadsAll _ (u8-Reads 1) (
    reject-ReadsAll unsupported_version refl (
      bind-ReadsAll _ (u8-Reads 0) (
        reject-ReadsAll malformed_input refl (
          bind-ReadsAll _ (array-Reads h.session_id t.session_size) (
            reject-ReadsAll malformed_input t.session_nonzero (
              bind-ReadsAll _ (array-Reads h.ratchet_public t.ratchet_size) (
                bind-ReadsAll _ (u32-Reads h.previous_chain_length t.previous_fits) (
                  last-ReadsAll _ (u32-Reads h.message_number t.number_fits)
                    (parse_regular-ReadsAll h)))))))))

optional_array-Reads :
    (present : Bool) (o : Option Bytes)
    → IsAnnounced present o
    → Reads (optional_array present mlkem768_ciphertext_bytes) (optional_bytes o) o
unfolding optional_array
optional_array-Reads present none h = rw h (unfold optional_array in pure-Reads none)
optional_array-Reads present (some ciphertext) (h, k) = rw h (
    unfold optional_array in last-Reads _ (array-Reads ciphertext k) (pure-Reads (some ciphertext)))

valid : (id : ℕ) → id ≤ key_id_max → valid_key_id id ≡ ok id
unfolding valid_key_id
valid id h = ground arith

-- What the seal of a first message is read from.
abbrev initial_tail : InitialHeader → Bytes
initial_tail h =
    to_be_bytes 4 h.signed_prekey_id
    ++ (to_be_bytes 4 h.one_time_prekey_id
        ++ (to_be_bytes 4 h.pq_signed_prekey_id
            ++ (to_be_bytes 4 h.pq_one_time_prekey_id
                ++ (h.ephemeral_public
                    ++ (h.pq_signed_ciphertext
                        ++ (optional_bytes h.pq_one_time_ciphertext
                            ++ (to_be_bytes 2 (length h.sender_seal) ++ h.sender_seal)))))))

seal_fits : (flags : ℕ) → sender_seal_size flags < 256 ^ 2
unfolding sender_seal_size
seal_fits flags = ground arith

replaces_first :
    (flags : ℕ)
    → has_flag flag_initial flags ≡ true
    → (has_flag flag_repair_replacement flags && not (has_flag flag_initial flags)) ≡ false
replaces_first flags e = ground (arith, e)

parse_initial-ReadsAll :
    (h : InitialHeader)
    → IsInitial h
    → ReadsAll
        (parse_initial h.flags h.session_id h.ratchet_public 0 0)
        (initial_tail h)
        (initial h)
unfolding parse_initial
parse_initial-ReadsAll h t = reject-ReadsAll malformed_input (rw t.first refl) (
    bind-ReadsAll _ (u32-Reads h.signed_prekey_id (omega (arith, t.signed_fits))) (
      bind-ReadsAll _ (lift-Reads (valid h.signed_prekey_id t.signed_fits)) (
        bind-ReadsAll _ (u32-Reads h.one_time_prekey_id t.one_time_fits) (
          bind-ReadsAll _ (u32-Reads h.pq_signed_prekey_id (omega (arith, t.pq_signed_fits))) (
            bind-ReadsAll _ (lift-Reads (valid h.pq_signed_prekey_id t.pq_signed_fits)) (
              bind-ReadsAll _ (u32-Reads h.pq_one_time_prekey_id t.pq_one_time_fits) (
                then-ReadsAll (lift-Reads t.one_time_valid) (
                  then-ReadsAll (lift-Reads t.pq_one_time_valid) (
                    reject-ReadsAll malformed_input (replaces_first h.flags t.first) (
                      bind-ReadsAll _ (array-Reads h.ephemeral_public t.ephemeral_size) (
                        bind-ReadsAll _ (array-Reads h.pq_signed_ciphertext t.ciphertext_size) (
                          bind-ReadsAll _
                            (optional_array-Reads (has_flag flag_pq_one_time h.flags)
                              h.pq_one_time_ciphertext t.announced)
                            (bind-ReadsAll _ (u16-Reads (length h.sender_seal) small) (
                              last-ReadsAll _ (take-Reads h.sender_seal refl) (
                                finish-ReadsAll (
                                  reject-ReadsAll malformed_input sized
                                    (Reads-ReadsAll (pure-Reads (initial h)))))))))))))))))))
  where
    small : length h.sender_seal < 256 ^ 2
    small = rw t.seal_size (seal_fits h.flags)

    sized : not (length h.sender_seal == sender_seal_size h.flags) ≡ false
    sized = ground (arith, t.seal_size)

not_regular : (flags : ℕ) → has_flag flag_initial flags ≡ true → (flags == 0) ≡ false
unfolding has_flag
not_regular flags e = elim (Bool-cases (flags == 0)) [
  | inl none_set ↦
      let z : flags ≡ 0 = (==_iff flags 0).0 none_set in
      let set : has_flag flag_initial 0 ≡ true = subst (λ n. has_flag flag_initial n ≡ true) z e in
      cc
  | inr other ↦ other
]

prefix_then :
    (h : InitialHeader)
    → initial_header_prefix h ++ (to_be_bytes 2 (length h.sender_seal) ++ h.sender_seal)
      ≡ 1
        ∷ (h.flags
            ∷ (h.session_id
                ++ (h.ratchet_public ++ (to_be_bytes 4 0 ++ (to_be_bytes 4 0 ++ initial_tail h)))))
unfolding initial_header_prefix
prefix_then h = simp append_assoc

read_header-initial :
    (h : InitialHeader)
    → IsInitial h
    → ReadsAll read_header
        (1
          ∷ (h.flags
              ∷ (h.session_id
                  ++ (h.ratchet_public
                      ++ (to_be_bytes 4 0 ++ (to_be_bytes 4 0 ++ initial_tail h))))))
        (initial h)
unfolding read_header
read_header-initial h t = bind-ReadsAll _ (u8-Reads 1) (
    reject-ReadsAll unsupported_version refl (
      bind-ReadsAll _ (u8-Reads h.flags) (
        reject-ReadsAll malformed_input (rw t.known refl) (
          bind-ReadsAll _ (array-Reads h.session_id t.session_size) (
            reject-ReadsAll malformed_input t.session_nonzero (
              bind-ReadsAll _ (array-Reads h.ratchet_public t.ratchet_size) (
                bind-ReadsAll _ (u32-Reads 0 (omega arith)) (
                  bind-ReadsAll _ (u32-Reads 0 (omega arith))
                    (rw (not_regular h.flags t.first) (parse_initial-ReadsAll h t))))))))))

-- The header, as the sender writes it.
abbrev pub header_bytes_of : RatchetHeader → Result Bytes
header_bytes_of (initial h) = initial_header_bytes h
header_bytes_of (regular h) = ok (regular_header_bytes h)

abbrev pub IsHeader : RatchetHeader → Type 0
IsHeader (initial h) = IsInitial h
IsHeader (regular h) = IsRegular h

header_long :
    (flags : ℕ) (session ratchet tail : Bytes) (a b : ℕ)
    → length session ≡ 16
    → length ratchet ≡ 32
    → 58
      ≤ length
          (1 ∷ (flags ∷ (session ++ (ratchet ++ (to_be_bytes 4 a ++ (to_be_bytes 4 b ++ tail))))))
header_long flags session ratchet tail a b h k = omega (
  arith,
  length-append session (ratchet ++ (to_be_bytes 4 a ++ (to_be_bytes 4 b ++ tail))),
  length-append ratchet (to_be_bytes 4 a ++ (to_be_bytes 4 b ++ tail)),
  length-append (to_be_bytes 4 a) (to_be_bytes 4 b ++ tail),
  length-append (to_be_bytes 4 b) tail,
  length-to_be_bytes 4 a,
  length-to_be_bytes 4 b,
)

written_initial :
    (h : InitialHeader) (encoded : Bytes)
    → IsInitial h
    → initial_header_bytes h ≡ ok encoded
    → 1
        ∷ (h.flags
            ∷ (h.session_id
                ++ (h.ratchet_public ++ (to_be_bytes 4 0 ++ (to_be_bytes 4 0 ++ initial_tail h)))))
      ≡ encoded
unfolding initial_header_bytes
written_initial h encoded t e =
    let small : ltb (length h.sender_seal) (256 ^ 2) ≡ true =
      ground (arith, t.seal_size, seal_fits h.flags) in
    let same : initial_header_prefix h ++ (to_be_bytes 2 (length h.sender_seal) ++ h.sender_seal)
        ≡ encoded =
      cc (rw small at e) in
    sym (prefix_then h) ∙ same

-- What is written of a header is a header's, of at least the size of a regular one.
pub parse_ratchet_header-written :
    (h : RatchetHeader) (encoded : Bytes)
    → IsHeader h
    → header_bytes_of h ≡ ok encoded
    → length encoded < usize_end
    → (parse_ratchet_header encoded ≡ ok h) × (58 ≤ length encoded)
unfolding parse_ratchet_header regular_header_bytes
parse_ratchet_header-written (initial h) encoded t e small =
    let same = written_initial h encoded t e in
    (
      run-ReadsAll
          (subst (λ xs. ReadsAll read_header xs (initial h)) same (read_header-initial h t)) small,
      subst (λ xs. 58 ≤ length xs) same
          (header_long h.flags h.session_id h.ratchet_public (initial_tail h) 0 0 t.session_size
            t.ratchet_size),
    )
parse_ratchet_header-written (regular h) encoded t e small =
    let same : regular_header_bytes h ≡ encoded = cc in
    (
      run-ReadsAll
          (subst (λ xs. ReadsAll read_header xs (regular h)) same (read_header-regular h t)) small,
      subst (λ xs. 58 ≤ length xs) same
          (rw (append-nil (to_be_bytes 4 h.message_number)) at (
            header_long 0 h.session_id h.ratchet_public [] h.previous_chain_length h.message_number
              t.session_size t.ratchet_size)),
    )
