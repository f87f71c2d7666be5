-- ===== src/Provider.antt =====
-- The trait of frontend/native/crypto_core/src/provider.rs through which the protocol code reaches
-- the primitives. Its implementation calls other libraries, so it is a parameter here.
use communication_platform.Base.{ℕ, ◌≡◌, Option, Result, ok, ◌≤◌, length}
use communication_platform.Base.Bytes.{Bytes}

pub record CryptoProvider : Type 0 where
  pub ed25519_sign : Bytes → Bytes → Result Bytes
  pub ed25519_verify : Bytes → Bytes → Bytes → Result (Unit {0})
  pub sha256 : Bytes → Result Bytes

-- What the prekeys use besides: the other methods of the trait, and the third-party functions that
-- prekey_state.rs and protocol.rs call. `E` is the state of the random source.
pub record KeyProvider (E : Type 0) : Type 0 where
  pub signatures : CryptoProvider
  pub random_bytes : ℕ → E → Result Bytes × E
  pub x25519_public : Bytes → Result Bytes
  -- The public key, and the secret key.
  pub mlkem768_keypair : E → Result (Bytes × Bytes) × E
  -- `SigningKey::from_bytes(secret).verifying_key().to_bytes()`.
  pub verifying_key : Bytes → Bytes
  -- `Hkdf::<Sha256>::extract(Some(salt), input_key_material)`, expanded to `info` and a length.
  pub hkdf : Bytes → Bytes → Bytes → ℕ → Option Bytes
  -- `Hmac::<Sha256>`, from a key and a message.
  pub hmac : Bytes → Bytes → Option Bytes

-- A key pair whose signatures verify, and a hash of 32 bytes, on messages within the input bound.
pub record IsSigner (p : CryptoProvider) (secret public : Bytes) : Type 0 where
  pub signs :
      (message : Bytes)
      → length message ≤ 1048576
      → (signature : Bytes) × (p.ed25519_sign secret message ≡ ok signature)
        × (p.ed25519_verify public message signature ≡ ok tt)
  pub hashes :
      (message : Bytes)
      → length message ≤ 1048576
      → (digest : Bytes) × (p.sha256 message ≡ ok digest)
