-- ===== src/Prekey/LiveRuns.antt =====
-- prekey_state.rs: the toy device is live, with its primitives, and is stored after two operations.
use communication_platform.Base.{
  ℕ, ◌≤◌, ◌≡◌, refl, subst, some, length, replicate, length-replicate, arith, ok,
}
use communication_platform.Base.Bytes.{Bytes, to_be_bytes, bytes_eq}
use communication_platform.Protocol.Framing.{max_input_bytes, slice}
use communication_platform.Protocol.Writing.{◌>>◌}
use communication_platform.DeviceSignatures.{
  from_halves, device_signing_public, encode_signed_prekey, encode_pq_signed_prekey, encode_prekey,
  new_encoder, field,
}
use communication_platform.Prekey.{ik_public}
use communication_platform.Prekey.Checks.{
  check_verifying_key, check_x25519, validate_pq_public_in_secret, validate_classical_signed,
  validate_pq_signed,
}
use communication_platform.Prekey.Codec.{encode_device_state}
use communication_platform.Prekey.Migration.{decode_device_state}
use communication_platform.Prekey.Replenish.{prepare_replenishment}
use communication_platform.Prekey.Rotation.{prepare_rotation}
use communication_platform.Prekey.Steps.{here, next, replenished, rotated}
use communication_platform.Prekey.Live.{IsLive}
use communication_platform.Prekey.LiveKeys.{IsHonest}
use communication_platform.Prekey.Lifetime.{Reach-stored}
use communication_platform.Prekey.Tests.{toy, toy-IsKeyed, device, device-IsTyped, device-IsSound}
use communication_platform.Prekey.Runs.{world, identity_package}

-- What the key pair of zeros has.
abbrev IsPair : Bytes → Bytes → Type 0
IsPair public secret =
    (length public ≡ 1184) × (length secret ≡ 2400) × (slice secret 1152 2336 ≡ some public)

zeros-IsPair : IsPair (replicate 1184 0) (replicate 2400 0)
zeros-IsPair = (length-replicate {A = ℕ} 1184 0, length-replicate {A = ℕ} 2400 0, refl)

mlkem768_keypair-IsPair :
    (public secret : Bytes)
    → (toy.mlkem768_keypair 0).0 ≡ ok (public, secret)
    → IsPair public secret
mlkem768_keypair-IsPair public secret h =
    let e : replicate 1184 0 ≡ public = cc in
    let k : replicate 2400 0 ≡ secret = cc in
    subst (λ xs. IsPair xs secret) e (subst (λ ys. IsPair (replicate 1184 0) ys) k zeros-IsPair)

toy-IsHonest : IsHonest toy
toy-IsHonest = record {
  draws = λ n e xs h. ground (arith, h, length-replicate {A = ℕ} n 7);
  sized = λ secret public h. ground (arith, h, length-replicate {A = ℕ} 32 0);
  pairs = λ e public secret h. mlkem768_keypair-IsPair public secret h;
  signs = λ secret message signature h. (ground (arith, h, length-replicate {A = ℕ} 64 5), refl);
}

device-IsLive : IsLive toy device
unfolding check_verifying_key check_x25519 validate_classical_signed validate_pq_signed
    validate_pq_public_in_secret ik_public from_halves device_signing_public encode_signed_prekey
    encode_pq_signed_prekey encode_prekey new_encoder field ◌>>◌ bytes_eq to_be_bytes
device-IsLive = record {
  typed = device-IsTyped;
  signing = refl;
  identity = refl;
  classical_valid = refl;
  pq_valid = refl;
  retired_valid = (record { classical_valid = refl; pq_valid = refl }, tt);
  keys_valid = (record { matches = refl }, tt);
  pq_keys_valid = (record { matches = refl }, tt);
}

Reach-stored_example :
    (stored : Bytes) × (encode_device_state toy
        (prepare_rotation toy identity_package
          (replicate 16 2)
          27
          (prepare_replenishment toy 9 3 10 3 world).1).1.device
      ≡ ok stored)
    × (length stored ≤ max_input_bytes)
    × (decode_device_state toy stored 30
        ≡ ok
            (prepare_rotation toy identity_package
              (replicate 16 2)
              27
              (prepare_replenishment toy 9 3 10 3 world).1).1.device)
Reach-stored_example =
    Reach-stored toy toy-IsHonest toy-IsKeyed world
      (prepare_rotation toy identity_package (replicate 16 2) 27
        (prepare_replenishment toy 9 3 10 3 world).1).1
      30 device-IsLive device-IsSound
      (next (next here (replenished 9 3 10 3 world)) (
        rotated identity_package (replicate 16 2) 27 (prepare_replenishment toy 9 3 10 3 world).1
          (omega arith)))
