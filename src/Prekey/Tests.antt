-- ===== src/Prekey/Tests.antt =====
-- prekey_state.rs: a device with one key of each kind and one retired pair, and toy primitives.
use communication_platform.Base.{
  ℕ, suc, ◌≤◌, ◌≡◌, inl, refl, none, some, [], ◌∷◌, length, replicate, length-replicate, arith, ok,
}
use communication_platform.Base.Bytes.{Bytes, to_be_bytes, bytes_eq, is_zero}
use communication_platform.Provider.{KeyProvider}
use communication_platform.Protocol.Framing.{max_input_bytes}
use communication_platform.Protocol.Writing.{◌>>◌}
use communication_platform.DeviceSignatures.{
  from_halves, device_signing_public, encode_signed_prekey, encode_pq_signed_prekey, encode_prekey,
  new_encoder, field,
}
use communication_platform.Prekey.{ik_public, SignedKey, DeviceState}
use communication_platform.Prekey.Checks.{
  check_verifying_key, check_x25519, validate_device_material, validate_pq_public_in_secret,
  validate_classical_signed, validate_pq_signed, any_retired_not_ascending, validate_retired,
  validate_classical_keys, validate_pq_keys,
}
use communication_platform.Prekey.Codec.{encode_device_state}
use communication_platform.Prekey.Migration.{decode_device_state}
use communication_platform.Prekey.Typed.{IsTyped, IsSignedKey}
use communication_platform.Prekey.Ids.{History-self}
use communication_platform.Prekey.Soundness.{IsSound}
use communication_platform.Prekey.Persistence.{
  IsKeyed, IsGenuine, decode_device_state-encode_device_state,
}

abbrev pub classical_key : ℕ → ℕ → SignedKey
classical_key id day = record {
  id = id;
  created_day = day;
  public = replicate 32 0;
  signature = replicate 64 5;
  secret = replicate 32 8;
}

abbrev pub pq_key : ℕ → ℕ → SignedKey
pq_key id day = record {
  id = id;
  created_day = day;
  public = replicate 1184 0;
  signature = replicate 64 5;
  secret = replicate 2400 0;
}

abbrev pub device : DeviceState
device = record {
  user_id = replicate 16 1;
  registration_id = 300;
  bundle_version = 2;
  next_classical_one_time_id = 5;
  next_pq_one_time_id = 3;
  device_signing_public = replicate 32 0;
  identity_public = replicate 32 0;
  device_signing_secret = replicate 32 6;
  identity_secret = replicate 32 7;
  current_classical = classical_key 2 20;
  current_pq = pq_key 2 20;
  cross_signature = replicate 64 5;
  retired =
      record { retain_through_day = 28; classical = classical_key 1 13; pq = pq_key 1 13 } ∷ [];
  classical_one_time = record { id = 4; public = replicate 32 0; secret = replicate 32 9 } ∷ [];
  pq_one_time = record { id = 2; public = replicate 1184 0; secret = replicate 2400 0 } ∷ [];
  pending = none;
}

-- Public keys are zeros, all signatures are alike and verify, and the random source counts its calls.
abbrev pub toy : KeyProvider ℕ
toy = record {
  signatures = record {
    ed25519_sign = λ secret message. ok (replicate 64 5);
    ed25519_verify = λ public message signature. ok tt;
    sha256 = λ message. ok (replicate 32 0);
  };
  random_bytes = λ n calls. (ok (replicate n 7), suc calls);
  x25519_public = λ secret. ok (replicate 32 0);
  mlkem768_keypair = λ calls. (ok (replicate 1184 0, replicate 2400 0), suc calls);
  verifying_key = λ secret. replicate 32 0;
  hkdf = λ salt input info size. some (replicate 32 3);
  hmac = λ key message. some (replicate 32 4);
}

pub toy-IsKeyed : IsKeyed toy
toy-IsKeyed = record {
  expands = λ secret h. (replicate 32 3, refl, refl);
  authenticates = λ key message h. (replicate 32 4, refl, refl);
}

classical_key-IsSignedKey :
    (id day : ℕ) → id ≤ 9 → day ≤ 99 → IsSignedKey 32 32 (classical_key id day)
classical_key-IsSignedKey id day h k = record {
  id_fits = omega arith;
  day_fits = omega arith;
  public_size = refl;
  signature_size = refl;
  secret_size = refl;
}

pq_key-IsSignedKey : (id day : ℕ) → id ≤ 9 → day ≤ 99 → IsSignedKey 1184 2400 (pq_key id day)
pq_key-IsSignedKey id day h k = record {
  id_fits = omega arith;
  day_fits = omega arith;
  public_size = length-replicate {A = ℕ} 1184 0;
  signature_size = refl;
  secret_size = length-replicate {A = ℕ} 2400 0;
}

pub device-IsTyped : IsTyped device
unfolding is_zero
device-IsTyped = record {
  user_id_size = refl;
  user_id_nonzero = refl;
  registration_fits = omega arith;
  signing_public_size = refl;
  identity_public_size = refl;
  signing_secret_size = refl;
  identity_secret_size = refl;
  classical_typed = classical_key-IsSignedKey 2 20 (omega arith) (omega arith);
  pq_typed = pq_key-IsSignedKey 2 20 (omega arith) (omega arith);
  cross_signature_size = refl;
  retired_typed = (
    record {
      day_fits = omega arith;
      classical_typed = classical_key-IsSignedKey 1 13 (omega arith) (omega arith);
      pq_typed = pq_key-IsSignedKey 1 13 (omega arith) (omega arith);
    },
    tt,
  );
  classical_keys_typed =
      (record { id_fits = omega arith; public_size = refl; secret_size = refl }, tt);
  pq_keys_typed = (
    record {
      id_fits = omega arith;
      public_size = length-replicate {A = ℕ} 1184 0;
      secret_size = length-replicate {A = ℕ} 2400 0;
    },
    tt,
  );
  pending_typed = tt;
}

pub device-IsSound : IsSound device device
device-IsSound = record {
  classical_ascends = (omega arith, omega arith);
  pq_ascends = (omega arith, omega arith);
  classical_next = inl (omega arith);
  pq_next = inl (omega arith);
  classical_few = omega arith;
  pq_few = omega arith;
  retired_classical_ascends = (omega arith, omega arith);
  retired_pq_ascends = (omega arith, omega arith);
  retired_few = omega arith;
  classical_id_fits = omega arith;
  pq_id_fits = omega arith;
  classical_history = History-self 5 device.classical_one_time;
  pq_history = History-self 3 device.pq_one_time;
  version_grows = omega arith;
  version_positive = omega arith;
  version_fits = omega arith;
}

device-IsGenuine : IsGenuine toy device
unfolding check_verifying_key check_x25519 validate_device_material validate_classical_signed
    validate_pq_signed any_retired_not_ascending validate_retired validate_classical_keys
    validate_pq_keys validate_pq_public_in_secret ik_public from_halves device_signing_public
    encode_signed_prekey encode_pq_signed_prekey encode_prekey new_encoder field ◌>>◌ bytes_eq
    to_be_bytes
device-IsGenuine = record { signing = refl; identity = refl; current = refl; material = refl }

decode_device_state-encode_device_state_example :
    (stored : Bytes) × (encode_device_state toy device ≡ ok stored)
    × (length stored ≤ max_input_bytes)
    × (decode_device_state toy stored 30 ≡ ok device)
decode_device_state-encode_device_state_example =
    decode_device_state-encode_device_state toy device device toy-IsKeyed device-IsTyped
      device-IsSound 30 device-IsGenuine
