-- ===== src/Room/Tests.antt =====
-- room_control.rs: a small event, sealed and opened with a toy signer.
use mathlib.Core.Bool.{xor}
use communication_platform.Base.{
  ℕ, zero, suc, ◌≤◌, ◌≡◌, refl, none, [], ◌∷◌, length, replicate, arith, ok, length-replicate, ◌↔◌,
}
use communication_platform.Base.Bytes.{
  all_bytes, all_bytes_sound, Bytes, IsByte, IsBytes, IsArray, to_be_bytes, bytes_eq, bytes_lt,
}
use communication_platform.Base.Text.{is_utf8, char_count}
use communication_platform.Protocol.Writing.{written_by}
use communication_platform.Provider.{CryptoProvider, IsSigner}
use communication_platform.Cbor.{head}
use communication_platform.Cbor.Tests.{small_cbor, small_cbor-IsCbor}
use communication_platform.Room.{
  RoomControl, create, IsTyped, kind, validate, max_room_control_bytes,
}
use communication_platform.Room.Validity.{IsValid, validate_iff}
use communication_platform.Room.Projection.{encode_projection}
use communication_platform.Room.ProjectionReader.{decode_projection}
use communication_platform.Room.ProjectionLaws.{
  projection, decode_projection_eq, decode_projection-encode_projection,
}
use communication_platform.Room.ProjectionLaws.Accepted.{encode_projection-decode_projection}
use communication_platform.Room.Canonical.{encode_control}
use communication_platform.Room.CanonicalReader.{decode_control}
use communication_platform.Room.CanonicalLaws.{canonical}
use communication_platform.Room.CanonicalLaws.Back.{
  decode_control_eq, decode_control-encode_control, encode_control-decode_control,
}
use communication_platform.Room.Sealing.{
  with_domain, state_hash, DeviceSigner, SealedRoomControl, OpenedRoomControl, seal, open_control,
  signature_domain, state_hash_domain,
}
use communication_platform.Room.SealingLaws.{
  in_domain, with_domain_eq, state_hash_eq, open_control-seal, open_control-eq-ok,
}

replicate-IsBytes : (n b : ℕ) → IsByte b → IsBytes (replicate n b)
replicate-IsBytes zero b h = tt
replicate-IsBytes (suc n) b h = (h, replicate-IsBytes n b h)

replicate-IsArray : (n b : ℕ) → IsByte b → IsArray n (replicate n b)
replicate-IsArray n b h = record { size = length-replicate n b; bytes = replicate-IsBytes n b h }

-- A room named `r` of two members, made by the first.
abbrev control : RoomControl
control = record {
  event_id = replicate 16 7;
  room_id = replicate 32 9;
  revision = 1;
  previous_state_hash = none;
  signer_user_id = replicate 16 1;
  signer_device_id = replicate 16 3;
  created_ms = 1000;
  body = create (114 ∷ []) (replicate 16 1 ∷ (replicate 16 2 ∷ []));
}

control-IsTyped : IsTyped control
unfolding is_utf8
control-IsTyped = record {
  event_id_typed = replicate-IsArray 16 7 (omega arith);
  room_id_typed = replicate-IsArray 32 9 (omega arith);
  revision_typed = omega arith;
  hash_typed = tt;
  signer_user_id_typed = replicate-IsArray 16 1 (omega arith);
  signer_device_id_typed = replicate-IsArray 16 3 (omega arith);
  created_ms_typed = omega arith;
  body_typed = (
    record { bytes = (omega arith, tt); valid = refl },
    (replicate-IsArray 16 1 (omega arith), (replicate-IsArray 16 2 (omega arith), tt)),
  );
}

control_validates : validate control ≡ ok tt
unfolding validate bytes_eq bytes_lt char_count xor
control_validates = refl

decode_projection-encode_projection_example :
    (output : Bytes) × (written_by (encode_projection control) ≡ ok output)
    × (decode_projection output ≡ ok control)
decode_projection-encode_projection_example =
    decode_projection-encode_projection control control-IsTyped control_validates

validate_iff_example : validate control ≡ ok tt ↔ IsValid control
validate_iff_example = validate_iff control

projection-IsBytes : IsBytes (projection control)
unfolding all_bytes to_be_bytes kind
projection-IsBytes = all_bytes_sound (projection control) refl

projection_decodes : decode_projection (projection control) ≡ ok control
projection_decodes = decode_projection_eq control control-IsTyped control_validates

decode_control-encode_control_example :
    (output : Bytes) × (encode_control small_cbor control ≡ ok output)
    × (1 ≤ length output)
    × (length output ≤ max_room_control_bytes)
    × (decode_control small_cbor output ≡ ok control)
decode_control-encode_control_example =
    decode_control-encode_control small_cbor small_cbor-IsCbor control control-IsTyped
      control_validates

-- Signs nothing: every signature is accepted.
abbrev toy_provider : CryptoProvider
toy_provider = record {
  ed25519_sign = λ secret message. ok (5 ∷ []);
  ed25519_verify = λ public message signature. ok tt;
  sha256 = λ message. ok (replicate 32 0);
}

toy_provider-IsSigner : IsSigner toy_provider [] []
toy_provider-IsSigner = record {
  signs = λ message h. (5 ∷ [], refl, refl);
  hashes = λ message h. (replicate 32 0, refl);
}

abbrev device : DeviceSigner
device = record { user_id = replicate 16 1; device_signing_secret = [] }

open_control-seal_example :
    (sealed : SealedRoomControl) × (seal small_cbor toy_provider device (projection control)
      ≡ ok sealed)
    × (open_control small_cbor toy_provider [] sealed.canonical sealed.signature
        ≡ ok (record { projection = projection control; state_hash = sealed.state_hash }))
open_control-seal_example =
    open_control-seal small_cbor toy_provider [] device (projection control) control
      small_cbor-IsCbor toy_provider-IsSigner projection-IsBytes projection_decodes refl

encode_projection-decode_projection_example :
    IsTyped control
    × (validate control ≡ ok tt)
    × (written_by (encode_projection control) ≡ ok (projection control))
encode_projection-decode_projection_example =
    encode_projection-decode_projection (projection control) control projection-IsBytes
      projection_decodes

canonical_decodes : decode_control small_cbor (canonical control) ≡ ok control
canonical_decodes =
    decode_control_eq small_cbor small_cbor-IsCbor control control-IsTyped control_validates

encode_control-decode_control_example :
    (validate control ≡ ok tt) × (encode_control small_cbor control ≡ ok (canonical control))
encode_control-decode_control_example =
    encode_control-decode_control small_cbor (canonical control) control canonical_decodes

abbrev sealed : SealedRoomControl
sealed = record { canonical = canonical control; signature = 5 ∷ []; state_hash = replicate 32 0 }

encodes : encode_control small_cbor control ≡ ok (canonical control)
encodes = encode_control-decode_control_example.1

signing :
    with_domain signature_domain (canonical control)
    ≡ ok (in_domain signature_domain (canonical control))
unfolding head kind to_be_bytes
signing = with_domain_eq signature_domain (canonical control) (omega arith)

hashing : state_hash small_cbor toy_provider (canonical control) ≡ ok (replicate 32 0)
unfolding head kind to_be_bytes
hashing = state_hash_eq small_cbor toy_provider (canonical control) (omega arith)

seals : seal small_cbor toy_provider device (projection control) ≡ ok sealed
unfolding seal head bytes_eq
seals = rw (seal, projection_decodes, encodes, signing, hashing) refl

abbrev opened : OpenedRoomControl
opened = record { projection = projection control; state_hash = replicate 32 0 }

projection_writes : written_by (encode_projection control) ≡ ok (projection control)
projection_writes = encode_projection-decode_projection_example.2

opens : open_control small_cbor toy_provider [] (canonical control) (5 ∷ []) ≡ ok opened
unfolding open_control head to_be_bytes kind
opens = rw (signing, canonical_decodes, projection_writes, hashing) refl

open_control-eq-ok_example :
    (toy_provider.ed25519_verify [] (in_domain signature_domain (canonical control)) (5 ∷ [])
      ≡ ok tt)
    × (toy_provider.sha256 (in_domain state_hash_domain (canonical control)) ≡ ok opened.state_hash)
    × ((c : RoomControl) × (validate c ≡ ok tt)
        × (encode_control small_cbor c ≡ ok (canonical control))
        × (written_by (encode_projection c) ≡ ok opened.projection))
open_control-eq-ok_example =
    open_control-eq-ok small_cbor toy_provider [] (canonical control) (5 ∷ []) opened opens
