-- ===== src/Prekey/Persistence.antt =====
-- prekey_state.rs: a well-formed state that satisfies the invariant and the decoder's checks is
-- stored, and what is stored is read back as it was.
use communication_platform.Base.{
  ℕ, suc, ◌+◌, ◌-◌, ◌≤◌, ◌≡◌, refl, ◌∙◌, false, some, List, [], ◌∷◌, ◌++◌, length, length-append,
  take-length, drop-length, arith, ok, ltb, replicate, length-replicate,
}
use communication_platform.Base.Bytes.{Bytes, bytes_eq, bytes_eq_iff}
use communication_platform.Provider.{KeyProvider}
use communication_platform.Protocol.Framing.{max_input_bytes, slice}
use communication_platform.Protocol.Hashing.{hkdf_sha256, hmac_sha256}
use communication_platform.Protocol.Reads.{then-Reads, checked-ReadsAll, run-ReadsAll}
use communication_platform.Prekey.{
  OneTimeKey, DeviceState, device_v2_magic, state_auth_tag_bytes, state_auth_domain,
}
use communication_platform.Prekey.Checks.{
  ids, any_not_ascending, validate_sorted, device_auth_key, check_x25519, check_verifying_key,
  validate_device_material,
}
use communication_platform.Prekey.Codec.{encode_device_state}
use communication_platform.Prekey.CodecReader.{
  any_reached, bad_next_id, misplaced, judge_v2, decode_v2,
}
use communication_platform.Prekey.Migration.{decode_device_state}
use communication_platform.Prekey.Layout.{state_bytes, write_state-layout}
use communication_platform.Prekey.Typed.{IsTyped, IsPending-IsFramed, length-state_bytes}
use communication_platform.Prekey.RoundTrip.{IsSized, read_state-Reads, read_magic-Reads}
use communication_platform.Prekey.Ids.{Ascends, Ascends-le, mark}
use communication_platform.Prekey.Soundness.{IsSound}

module _ (hi : ℕ) where
  any_not_ascending-Ascends :
      (keys : List OneTimeKey) (lo : ℕ)
      → Ascends OneTimeKey.id lo keys hi
      → any_not_ascending (ids keys) ≡ false
  unfolding any_not_ascending ids
  any_not_ascending-Ascends [] lo h = refl
  any_not_ascending-Ascends (a ∷ []) lo h = refl
  any_not_ascending-Ascends (a ∷ (b ∷ keys)) lo h =
      ground (arith, any_not_ascending-Ascends (b ∷ keys) (suc a.id) h.1)

  any_reached-Ascends :
      (next : ℕ) (keys : List OneTimeKey) (lo : ℕ)
      → hi ≤ next
      → Ascends OneTimeKey.id lo keys hi
      → any_reached next keys ≡ false
  unfolding any_reached
  any_reached-Ascends next [] lo l h = refl
  any_reached-Ascends next (key ∷ keys) lo l h = ground (
    arith,
    Ascends-le OneTimeKey.id keys (suc key.id) hi h.1,
    any_reached-Ascends next keys (suc key.id) l h.1,
  )

pub misplaced-IsSound :
    {base : DeviceState} (s : DeviceState) → IsTyped s → IsSound base s → misplaced s ≡ false
unfolding misplaced bad_next_id
misplaced-IsSound s t h = ground (
  arith,
  h,
  t.user_id_nonzero,
  any_reached-Ascends (mark s.next_classical_one_time_id) s.next_classical_one_time_id
      s.classical_one_time 0 (ground (arith, h.classical_next)) h.classical_ascends,
  any_reached-Ascends (mark s.next_pq_one_time_id) s.next_pq_one_time_id s.pq_one_time 0
      (ground (arith, h.pq_next)) h.pq_ascends,
)

-- The two functions of the key schedule return 32 bytes.
pub record IsKeyed {E : Type 0} (p : KeyProvider E) : Type 0 where
  pub expands :
      (secret : Bytes)
      → length secret ≡ 32
      → (key : Bytes) × (p.hkdf (replicate 32 0) secret state_auth_domain 32 ≡ some key)
        × (length key ≡ 32)
  pub authenticates :
      (key message : Bytes)
      → length key ≡ 32
      → (tag : Bytes) × (p.hmac key message ≡ some tag) × (length tag ≡ 32)

-- The checks of the decoder that call the primitives.
pub record IsGenuine {E : Type 0} (p : KeyProvider E) (s : DeviceState) : Type 0 where
  pub signing : check_verifying_key p s.device_signing_secret s.device_signing_public ≡ ok tt
  pub identity : check_x25519 p s.identity_secret s.identity_public ≡ ok tt
  pub current : check_x25519 p s.current_classical.secret s.current_classical.public ≡ ok tt
  pub material : validate_device_material p s ≡ ok tt

-- A second version is recognised by its magic.
choose_v2 :
    {E : Type 0} (p : KeyProvider E) (input : Bytes) (day : ℕ)
    → slice input 0 8 ≡ some device_v2_magic
    → decode_device_state p input day ≡ decode_v2 p input
unfolding decode_device_state bytes_eq
choose_v2 p input day h = ground (arith, h)

module _ {E : Type 0} (p : KeyProvider E) (base s : DeviceState) (keyed : IsKeyed p)
    (typed : IsTyped s) (sound : IsSound base s) where
  sized : IsSized s
  sized = record {
    version_fits = sound.version_fits;
    classical_next_fits = ground (arith, sound.classical_next);
    pq_next_fits = ground (arith, sound.pq_next);
    retired_few = sound.retired_few;
    classical_few = omega (arith, sound.classical_few);
    pq_few = omega (arith, sound.pq_few);
  }

  fits : length (state_bytes s) + 32 ≤ max_input_bytes
  fits = length-state_bytes s typed sized.retired_few sized.classical_few sized.pq_few

  auth_key : (key : Bytes) × (device_auth_key p s.identity_secret ≡ ok key) × (length key ≡ 32)
  unfolding device_auth_key hkdf_sha256
  auth_key =
      let (key, e, l) = keyed.expands s.identity_secret typed.identity_secret_size in
      (key, ground (arith, e, l, typed.identity_secret_size, length-replicate {A = ℕ} 32 0), l)

  tag_of :
      (key : Bytes)
      → length key ≡ 32
      → (tag : Bytes) × (hmac_sha256 p key (state_bytes s) ≡ ok tag) × (length tag ≡ 32)
  unfolding hmac_sha256
  tag_of key l =
      let (tag, e, k) = keyed.authenticates key (state_bytes s) l in
      (tag, ground (arith, e, l, fits), k)

  -- A state with the invariant is stored: it is never too large, and only the primitives can fail.
  pub encode_device_state-ok :
      (key tag : Bytes)
      → device_auth_key p s.identity_secret ≡ ok key
      → hmac_sha256 p key (state_bytes s) ≡ ok tag
      → length tag ≡ 32
      → encode_device_state p s ≡ ok (state_bytes s ++ tag)
  unfolding encode_device_state
  encode_device_state-ok key tag hk ht lt =
      let written =
        write_state-layout s (omega (arith, sized.retired_few)) (omega (arith, sized.classical_few))
          (omega (arith, sized.pq_few)) (IsPending-IsFramed s.pending typed.pending_typed) in
      let small : ltb max_input_bytes (length (state_bytes s ++ tag)) ≡ false =
        ground (arith, length-append (state_bytes s) tag, fits, lt) in
      rw (written, hk, ht, small) refl

  judge_v2-ok :
      (key tag : Bytes)
      → device_auth_key p s.identity_secret ≡ ok key
      → hmac_sha256 p key (state_bytes s) ≡ ok tag
      → IsGenuine p s
      → judge_v2 p (state_bytes s) tag s ≡ ok s
  unfolding judge_v2 validate_sorted
  judge_v2-ok key tag hk ht g =
      let placed = misplaced-IsSound s typed sound in
      let same = (bytes_eq_iff tag tag).1 refl in
      let sorted =
        any_not_ascending-Ascends (mark s.next_classical_one_time_id) s.classical_one_time 0
          sound.classical_ascends in
      let sorted_pq =
        any_not_ascending-Ascends (mark s.next_pq_one_time_id) s.pq_one_time 0 sound.pq_ascends in
      rw (placed, hk, ht, same, g.signing, g.identity, g.current, sorted, sorted_pq, g.material)
        refl

  decode_v2-ok :
      (key tag : Bytes)
      → device_auth_key p s.identity_secret ≡ ok key
      → hmac_sha256 p key (state_bytes s) ≡ ok tag
      → length tag ≡ 32
      → IsGenuine p s
      → decode_v2 p (state_bytes s ++ tag) ≡ ok s
  unfolding decode_v2
  decode_v2-ok key tag hk ht lt g =
      let total = length-append (state_bytes s) tag in
      let long : ltb (length (state_bytes s ++ tag)) (state_auth_tag_bytes + 8) ≡ false =
        ground (arith, total, lt) in
      let cut : length (state_bytes s ++ tag) - state_auth_tag_bytes ≡ length (state_bytes s) =
        omega (arith, total, lt) in
      let read =
        run-ReadsAll
          (checked-ReadsAll (judge_v2 p (state_bytes s) tag)
            (then-Reads (read_magic-Reads device_v2_magic refl) (read_state-Reads s typed sized))
            (judge_v2-ok key tag hk ht g))
          (omega (arith, fits)) in
      rw (long, cut, take-length (state_bytes s) tag, drop-length (state_bytes s) tag) read

  magic_of : (tag : Bytes) → slice (state_bytes s ++ tag) 0 8 ≡ some device_v2_magic
  magic_of tag = ground arith

  -- With a key schedule that returns 32 bytes, a state is stored within the bound on inputs, and
  -- `decode_device_state` returns it from what is stored, on whatever day, if its byte strings have
  -- the sizes of their arrays and its integers are below 2^32, its account is not all zeros, its
  -- identifiers of keys are at most 2^31 - 1, its pending batch, if there is one, is of a known kind
  -- with a projection of at most 126,033 bytes, and it satisfies the invariant and passes the checks
  -- that call the primitives.
  pub decode_device_state-encode_device_state :
      (day : ℕ)
      → IsGenuine p s
      → (stored : Bytes) × (encode_device_state p s ≡ ok stored)
        × (length stored ≤ max_input_bytes)
        × (decode_device_state p stored day ≡ ok s)
  decode_device_state-encode_device_state day g =
      let (key, hk, lk) = auth_key in
      let (tag, ht, lt) = tag_of key lk in
      (
        state_bytes s ++ tag,
        encode_device_state-ok key tag hk ht lt,
        omega (arith, length-append (state_bytes s) tag, fits, lt),
        choose_v2 p (state_bytes s ++ tag) day (magic_of tag) ∙ decode_v2-ok key tag hk ht lt g,
      )
