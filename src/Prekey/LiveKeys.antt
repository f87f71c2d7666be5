-- ===== src/Prekey/LiveKeys.antt =====
-- prekey_state.rs: the keys that are made, with primitives that do what they document, are live.
use communication_platform.Base.{
  ℕ, zero, suc, ◌≤◌, ◌≡◌, refl, ap, some, List, [], ◌∷◌, length, All, arith, Result, ok, err,
}
use communication_platform.Base.Bytes.{Bytes, bytes_eq_iff}
use communication_platform.Provider.{KeyProvider}
use communication_platform.Protocol.Framing.{slice}
use communication_platform.Prekey.{OneTimeKey, DeviceState, ik_public, key_id_max, take_next_id}
use communication_platform.Prekey.Checks.{check_x25519, validate_pq_public_in_secret}
use communication_platform.Prekey.Operations.{World, Operation}
use communication_platform.Prekey.Replenish.{
  Generated, next_classical_id, next_pq_id, push_classical, push_pq, generate_classical,
  generate_pq, generate,
}
use communication_platform.Prekey.Typed.{IsOneTimeKey}
use communication_platform.Prekey.Live.{IsLive, IsValidKey, IsValidPqKey, All-snoc}
use communication_platform.Prekey.Triples.{
  Triple, Gives, attempt-Gives, sample-Gives, return-Gives, bind-Gives, modify-Gives,
}

-- The sizes of what the primitives return, FIPS 203's place of the public key in the secret key, and
-- signatures that verify under the signer's public key.
pub record IsHonest {E : Type 0} (p : KeyProvider E) : Type 0 where
  pub draws : (n : ℕ) (e : E) (xs : Bytes) → (p.random_bytes n e).0 ≡ ok xs → length xs ≡ n
  pub sized : (secret public : Bytes) → p.x25519_public secret ≡ ok public → length public ≡ 32
  pub pairs :
      (e : E) (public secret : Bytes)
      → (p.mlkem768_keypair e).0 ≡ ok (public, secret)
      → (length public ≡ 1184) × (length secret ≡ 2400) × (slice secret 1152 2336 ≡ some public)
  pub signs :
      (secret message signature : Bytes)
      → p.signatures.ed25519_sign secret message ≡ ok signature
      → (length signature ≡ 64)
        × (p.signatures.ed25519_verify (p.verifying_key secret) message signature ≡ ok tt)

taken_fits : (high_water id after : ℕ) → take_next_id high_water ≡ (ok id, after) → id ≤ key_id_max
unfolding take_next_id
taken_fits high_water id after h = ground arith

-- As many keys as asked for, with public keys of a size.
abbrev pub AreMade : ℕ → ℕ → List Generated → Type 0
AreMade count size keys = (length keys ≡ count) × All (λ key. length key.public ≡ size) keys

module _ {E : Type 0} (p : KeyProvider E) (honest : IsHonest p) where
  abbrev Fits : ℕ → Type 0
  Fits id = id ≤ key_id_max

  next_classical_id-Gives : Triple {E = E} (IsLive p) next_classical_id (Gives (IsLive p) Fits)
  unfolding next_classical_id
  next_classical_id-Gives = record {
    holds = λ w h. each w h (take_next_id w.device.next_classical_one_time_id) refl;
  }
    where
      each :
          (w : World E)
          → IsLive p w.device
          → (q : Result ℕ × ℕ) → take_next_id w.device.next_classical_one_time_id ≡ q
          → Gives (IsLive p) Fits q.0 (record w.device { next_classical_one_time_id = q.1 })
      each w h (ok id, after) e = (unfold ik_public in ground (arith, h), taken_fits _ id after e)
      each w h (err x, after) e = unfold ik_public in ground (arith, h)

  next_pq_id-Gives : Triple {E = E} (IsLive p) next_pq_id (Gives (IsLive p) Fits)
  unfolding next_pq_id
  next_pq_id-Gives = record {
    holds = λ w h. each w h (take_next_id w.device.next_pq_one_time_id) refl;
  }
    where
      each :
          (w : World E)
          → IsLive p w.device
          → (q : Result ℕ × ℕ) → take_next_id w.device.next_pq_one_time_id ≡ q
          → Gives (IsLive p) Fits q.0 (record w.device { next_pq_one_time_id = q.1 })
      each w h (ok id, after) e = (unfold ik_public in ground (arith, h), taken_fits _ id after e)
      each w h (err x, after) e = unfold ik_public in ground (arith, h)

  push_classical-IsLive :
      (key : OneTimeKey) (s : DeviceState)
      → IsOneTimeKey 32 32 key
      → IsValidKey p key
      → IsLive p s
      → IsLive p (push_classical key s)
  unfolding ik_public
  push_classical-IsLive key s t v h = ground (
    arith,
    h,
    All-snoc (IsValidKey p) s.classical_one_time key h.keys_valid v,
    All-snoc (IsOneTimeKey 32 32) s.classical_one_time key h.typed.classical_keys_typed t,
  )

  push_pq-IsLive :
      (key : OneTimeKey) (s : DeviceState)
      → IsOneTimeKey 1184 2400 key
      → IsValidPqKey p key
      → IsLive p s
      → IsLive p (push_pq key s)
  unfolding ik_public
  push_pq-IsLive key s t v h = ground (
    arith,
    h,
    All-snoc (IsValidPqKey p) s.pq_one_time key h.pq_keys_valid v,
    All-snoc (IsOneTimeKey 1184 2400) s.pq_one_time key h.typed.pq_keys_typed t,
  )

  pub matching :
      (secret public : Bytes)
      → p.x25519_public secret ≡ ok public
      → check_x25519 p secret public ≡ ok tt
  unfolding check_x25519
  matching secret public e = rw (e, (bytes_eq_iff public public).1 refl) refl

  pub embedded :
      (secret public : Bytes)
      → slice secret 1152 2336 ≡ some public
      → validate_pq_public_in_secret secret public ≡ ok tt
  unfolding validate_pq_public_in_secret
  embedded secret public e = ground (arith, e, bytes_eq_iff public public)

  generate_classical-Gives :
      Triple (IsLive p) (generate_classical p) (Gives (IsLive p) (λ key. length key.public ≡ 32))
  unfolding generate_classical
  generate_classical-Gives =
      let Good = λ (key : Generated). length key.public ≡ 32 in
      bind-Gives (IsLive p) Fits Good _ _ next_classical_id-Gives λ id fits.
        sample-Gives (IsLive p) Good (p.random_bytes 32) λ secret e h1.
          attempt-Gives (IsLive p) Good (p.x25519_public secret) λ public h2.
            let key : OneTimeKey = record { id = id; public = public; secret = secret } in
            modify-Gives (IsLive p) Good (push_classical key)
              (λ s.
                push_classical-IsLive key s
                  (record {
                    id_fits = fits;
                    public_size = honest.sized secret public h2;
                    secret_size = honest.draws 32 e secret h1;
                  })
                  (record { matches = matching secret public h2 }))
              (return-Gives (IsLive p) Good (record { id = id; public = public })
                (honest.sized secret public h2))

  generate_pq-Gives :
      Triple (IsLive p) (generate_pq p) (Gives (IsLive p) (λ key. length key.public ≡ 1184))
  unfolding generate_pq
  generate_pq-Gives =
      let Good = λ (key : Generated). length key.public ≡ 1184 in
      bind-Gives (IsLive p) Fits Good _ _ next_pq_id-Gives λ id fits.
        sample-Gives (IsLive p) Good p.mlkem768_keypair λ pair e h.
          let t = honest.pairs e pair.0 pair.1 h in
          let key : OneTimeKey = record { id = id; public = pair.0; secret = pair.1 } in
          modify-Gives (IsLive p) Good (push_pq key)
            (λ s.
              push_pq-IsLive key s (record { id_fits = fits; public_size = t.0; secret_size = t.1 })
                (record { matches = embedded pair.1 pair.0 t.2 }))
            (return-Gives (IsLive p) Good (record { id = id; public = pair.0 }) t.0)

  generate-Gives :
      (size : ℕ) (one : Operation E Generated)
      → Triple (IsLive p) one (Gives (IsLive p) (λ key. length key.public ≡ size))
      → (count : ℕ) → Triple (IsLive p) (generate count one) (Gives (IsLive p) (AreMade count size))
  unfolding generate
  generate-Gives size one t zero = return-Gives (IsLive p) (AreMade 0 size) [] (refl, tt)
  generate-Gives size one t (suc count) =
      bind-Gives (IsLive p) (λ key. length key.public ≡ size) (AreMade (suc count) size) one _ t
        λ key h.
          bind-Gives (IsLive p) (AreMade count size) (AreMade (suc count) size) (generate count one)
            _ (generate-Gives size one t count)
            λ keys k.
              return-Gives (IsLive p) (AreMade (suc count) size) (key ∷ keys) (ap suc k.0, (h, k.1))

  pub generate_classical_all-Gives :
      (count : ℕ)
      → Triple
          (IsLive p)
          (generate count (generate_classical p))
          (Gives (IsLive p) (AreMade count 32))
  generate_classical_all-Gives count =
      generate-Gives 32 (generate_classical p) generate_classical-Gives count

  pub generate_pq_all-Gives :
      (count : ℕ)
      → Triple (IsLive p) (generate count (generate_pq p)) (Gives (IsLive p) (AreMade count 1184))
  generate_pq_all-Gives count = generate-Gives 1184 (generate_pq p) generate_pq-Gives count
