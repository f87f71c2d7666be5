-- ===== src/Prekey/Live.antt =====
-- prekey_state.rs: what the decoder checks of a state, as a property of its keys, and that the steps
-- that make no keys keep it.
use communication_platform.Base.{
  ℕ, zero, suc, ◌≡◌, inl, inr, refl, Bool-cases, Option-cases, List, [], ◌∷◌, ◌++◌, All, All-append,
  leb, arith, ok, false, >>=-eq-ok,
}
use communication_platform.Base.Bytes.{Bytes}
use communication_platform.Provider.{KeyProvider}
use communication_platform.Prekey.{
  SignedKey, RetiredSignedPair, OneTimeKey, DeviceState, ik_public, position_id, remove_at,
  retain_through, prune_retired, consume_classical_one_time, consume_pq_one_time,
}
use communication_platform.Prekey.Checks.{
  check_verifying_key, check_x25519, validate_classical_signed, validate_pq_signed,
  validate_pq_public_in_secret, any_retired_not_ascending, validate_retired,
  validate_classical_keys, validate_pq_keys, validate_device_material,
}
use communication_platform.Prekey.Operations.{commit_pending_upload}
use communication_platform.Prekey.Replenish.{insert_by_id, sort_by_id, sort_one_time}
use communication_platform.Prekey.Typed.{IsTyped, IsRetiredPair, IsOneTimeKey}
use communication_platform.Prekey.Ids.{Ascends}
use communication_platform.Prekey.Soundness.{IsSound}
use communication_platform.Prekey.Persistence.{IsGenuine}

module _ {A : Type 0} (P : A → Type 0) where
  pub All-snoc : (xs : List A) (x : A) → All P xs → P x → All P (xs ++ (x ∷ []))
  All-snoc xs x h k = All-append P xs (x ∷ []) h (k, tt)

module _ (P : OneTimeKey → Type 0) where
  pub All-remove_at :
      (position : ℕ) (keys : List OneTimeKey) → All P keys → All P (remove_at position keys)
  unfolding remove_at
  All-remove_at position [] h = h
  All-remove_at zero (key ∷ keys) h = h.1
  All-remove_at (suc position) (key ∷ keys) h = (h.0, All-remove_at position keys h.1)

  All-insert_by_id :
      (key : OneTimeKey) (keys : List OneTimeKey)
      → P key
      → All P keys
      → All P (insert_by_id key keys)
  unfolding insert_by_id
  All-insert_by_id key [] k h = (k, tt)
  All-insert_by_id key (other ∷ keys) k h = elim (Bool-cases (leb key.id other.id)) [
    | inl e ↦ rw e (k, h)
    | inr e ↦ rw e (h.0, All-insert_by_id key keys k h.1)
  ]

  pub All-sort_by_id : (keys : List OneTimeKey) → All P keys → All P (sort_by_id keys)
  unfolding sort_by_id
  All-sort_by_id [] h = h
  All-sort_by_id (key ∷ keys) h =
      All-insert_by_id key (sort_by_id keys) h.0 (All-sort_by_id keys h.1)

module _ (P : RetiredSignedPair → Type 0) where
  pub All-retain_through :
      (day : ℕ) (pairs : List RetiredSignedPair) → All P pairs → All P (retain_through day pairs)
  unfolding retain_through
  All-retain_through day [] h = h
  All-retain_through day (pair ∷ pairs) h = elim (Bool-cases (leb day pair.retain_through_day)) [
    | inl e ↦ rw e (h.0, All-retain_through day pairs h.1)
    | inr e ↦ rw e (All-retain_through day pairs h.1)
  ]

module _ {E : Type 0} (p : KeyProvider E) where
  pub record IsValidPair (ik user_id : Bytes) (pair : RetiredSignedPair) : Type 0 where
    pub classical_valid : validate_classical_signed p ik user_id pair.classical ≡ ok tt
    pub pq_valid : validate_pq_signed p ik user_id pair.pq ≡ ok tt

  pub record IsValidKey (key : OneTimeKey) : Type 0 where
    pub matches : check_x25519 p key.secret key.public ≡ ok tt

  pub record IsValidPqKey (key : OneTimeKey) : Type 0 where
    pub matches : validate_pq_public_in_secret key.secret key.public ≡ ok tt

  -- Each key has its size, its public half and, where it is signed, its signature.
  pub record IsLive (s : DeviceState) : Type 0 where
    pub typed : IsTyped s
    pub signing : check_verifying_key p s.device_signing_secret s.device_signing_public ≡ ok tt
    pub identity : check_x25519 p s.identity_secret s.identity_public ≡ ok tt
    pub classical_valid :
        validate_classical_signed p (ik_public s) s.user_id s.current_classical ≡ ok tt
    pub pq_valid : validate_pq_signed p (ik_public s) s.user_id s.current_pq ≡ ok tt
    pub retired_valid : All (IsValidPair (ik_public s) s.user_id) s.retired
    pub keys_valid : All IsValidKey s.classical_one_time
    pub pq_keys_valid : All IsValidPqKey s.pq_one_time

  valid_retired :
      (ik user_id : Bytes) (pairs : List RetiredSignedPair)
      → All (IsValidPair ik user_id) pairs
      → validate_retired p ik user_id pairs ≡ ok tt
  unfolding validate_retired
  valid_retired ik user_id [] h = refl
  valid_retired ik user_id (pair ∷ pairs) h =
      rw (h.0.classical_valid, h.0.pq_valid) (valid_retired ik user_id pairs h.1)

  valid_keys :
      (keys : List OneTimeKey) → All IsValidKey keys → validate_classical_keys p keys ≡ ok tt
  unfolding validate_classical_keys
  valid_keys [] h = refl
  valid_keys (key ∷ keys) h = rw h.0.matches (valid_keys keys h.1)

  valid_pq_keys : (keys : List OneTimeKey) → All IsValidPqKey keys → validate_pq_keys p keys ≡ ok tt
  unfolding validate_pq_keys
  valid_pq_keys [] h = refl
  valid_pq_keys (key ∷ keys) h = rw h.0.matches (valid_pq_keys keys h.1)

  retired_ascending :
      (pairs : List RetiredSignedPair) (lo hi lo' hi' : ℕ)
      → Ascends (λ (pair : RetiredSignedPair). pair.classical.id) lo pairs hi
      → Ascends (λ (pair : RetiredSignedPair). pair.pq.id) lo' pairs hi'
      → any_retired_not_ascending pairs ≡ false
  unfolding any_retired_not_ascending
  retired_ascending [] lo hi lo' hi' h k = refl
  retired_ascending (a ∷ []) lo hi lo' hi' h k = refl
  retired_ascending (a ∷ (b ∷ pairs)) lo hi lo' hi' h k =
      ground
        (arith, retired_ascending (b ∷ pairs) (suc a.classical.id) hi (suc a.pq.id) hi' h.1 k.1)

  current_of :
      (ik user_id : Bytes) (key : SignedKey)
      → validate_classical_signed p ik user_id key ≡ ok tt
      → check_x25519 p key.secret key.public ≡ ok tt
  unfolding validate_classical_signed
  current_of ik user_id key v =
      let (u, e, rest) = >>=-eq-ok (check_x25519 p key.secret key.public) _ v in e

  -- A live state with the invariant passes the decoder's checks.
  pub IsLive-IsGenuine :
      {base : DeviceState} (s : DeviceState) → IsLive s → IsSound base s → IsGenuine p s
  unfolding validate_device_material
  IsLive-IsGenuine s h k = record {
    signing = h.signing;
    identity = h.identity;
    current = current_of (ik_public s) s.user_id s.current_classical h.classical_valid;
    material =
        rw
          (
            h.classical_valid,
            h.pq_valid,
            retired_ascending s.retired 0 s.current_classical.id 0 s.current_pq.id
                k.retired_classical_ascends k.retired_pq_ascends,
            valid_retired (ik_public s) s.user_id s.retired h.retired_valid,
            valid_keys s.classical_one_time h.keys_valid,
          )
          (valid_pq_keys s.pq_one_time h.pq_keys_valid);
  }

  pub consume_classical_one_time-IsLive :
      (id : ℕ) (s : DeviceState) → IsLive s → IsLive (consume_classical_one_time id s).1
  unfolding consume_classical_one_time ik_public
  consume_classical_one_time-IsLive id s h =
      elim (Option-cases (position_id id s.classical_one_time)) [
        | inl none_found ↦ rw (none_found, consume_classical_one_time) h
        | inr (position, found) ↦
            rw (found, consume_classical_one_time)
              (ground (
                arith,
                h,
                All-remove_at IsValidKey position s.classical_one_time h.keys_valid,
                All-remove_at (IsOneTimeKey 32 32) position s.classical_one_time
                    h.typed.classical_keys_typed,
              ))
      ]

  pub consume_pq_one_time-IsLive :
      (id : ℕ) (s : DeviceState) → IsLive s → IsLive (consume_pq_one_time id s).1
  unfolding consume_pq_one_time ik_public
  consume_pq_one_time-IsLive id s h = elim (Option-cases (position_id id s.pq_one_time)) [
    | inl none_found ↦ rw (none_found, consume_pq_one_time) h
    | inr (position, found) ↦
        rw (found, consume_pq_one_time)
          (ground (
            arith,
            h,
            All-remove_at IsValidPqKey position s.pq_one_time h.pq_keys_valid,
            All-remove_at (IsOneTimeKey 1184 2400) position s.pq_one_time h.typed.pq_keys_typed,
          ))
  ]

  pub prune_retired-IsLive : (day : ℕ) (s : DeviceState) → IsLive s → IsLive (prune_retired day s)
  unfolding prune_retired ik_public
  prune_retired-IsLive day s h = ground (
    arith,
    h,
    All-retain_through (IsValidPair (ik_public s) s.user_id) day s.retired h.retired_valid,
    All-retain_through IsRetiredPair day s.retired h.typed.retired_typed,
  )

  pub commit_pending_upload-IsLive :
      (batch_id : Bytes) (s : DeviceState) → IsLive s → IsLive (commit_pending_upload batch_id s).1
  unfolding commit_pending_upload ik_public
  commit_pending_upload-IsLive batch_id s h = ground (arith, h)

  pub sort_one_time-IsLive : (s : DeviceState) → IsLive s → IsLive (sort_one_time s)
  unfolding ik_public
  sort_one_time-IsLive s h = ground (
    arith,
    h,
    All-sort_by_id IsValidKey s.classical_one_time h.keys_valid,
    All-sort_by_id (IsOneTimeKey 32 32) s.classical_one_time h.typed.classical_keys_typed,
    All-sort_by_id IsValidPqKey s.pq_one_time h.pq_keys_valid,
    All-sort_by_id (IsOneTimeKey 1184 2400) s.pq_one_time h.typed.pq_keys_typed,
  )
