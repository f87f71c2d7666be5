-- ===== src/Group/Tests.antt =====
-- group_control.rs: the theorems at small inputs.
use communication_platform.Base.Bytes.{Bytes}
use communication_platform.Protocol.Framing.{
  run, ◌>>=◌, ◌>>◌, reject, u8, finish, is_finished, lift, new_reader, take, u16, array,
}
use communication_platform.Cbor.{
  read_exact_map, read_map_len, wrong_item, decoded, definite, canonical_length_header, read_key,
  read_uint, shortest_uint, read_exact_bytes, read_bytes, read_nullable, encode_key, peek,
  read_array_len, read_text, shortest_array, written, head,
}
use communication_platform.Base.Bytes.{bytes_eq, bytes_lt, to_be_bytes, from_be_bytes}
use communication_platform.Base.Text.{char_count}
use communication_platform.Group.Canonical.{encode_body, encode_each_member, write_control}
use communication_platform.Group.CanonicalReader.{
  checked, decode_body, decode_change_role, read_event,
}
use communication_platform.Group.{is_create, kind, validate_body}
use communication_platform.Protocol.Writing.{extend, ◌>>◌ as then}
use communication_platform.Room.Canonical.{at_most, encode_hash}
use communication_platform.Room.CanonicalReader.{narrow}
use communication_platform.Room.{is_none}
use mathlib.Core.Bool.{xor}
use communication_platform.Provider.{CryptoProvider}
use communication_platform.Protocol.Writing.{written_by, push_u32, push_u64}
use communication_platform.Protocol.Framing.{u32, u64}
use communication_platform.Room.Projection.{push_hash}
use communication_platform.Room.ProjectionReader.{read_hash}
use communication_platform.Room.Sealing.{DeviceSigner}
use communication_platform.Room.SealingLaws.{in_domain, with_domain_eq}
use communication_platform.Group.Projection.{
  encode_projection, encode_body as encode_projection_body,
}
use communication_platform.Group.ProjectionReader.{
  decode_projection, read_control, read_body as read_projection_body, read_change_role, validated,
}
use communication_platform.Group.Sealing.{
  OpenedGroupControl, SealedGroupControl, state_hash, seal, open_control,
}
use communication_platform.Group.SealingLaws.{group_open_control-eq-ok}
use communication_platform.Base.{◌++◌, ◌≡◌, ◌≢◌, ◌↔◌, refl, some, [], ◌∷◌, arith, replicate, ok}
use communication_platform.Cbor.Tests.{small_cbor}
use communication_platform.Group.{GroupControl, change_role, validate}
use communication_platform.Group.Canonical.{encode_control}
use communication_platform.Group.CanonicalReader.{decode_control}
use communication_platform.Group.Validity.{IsValid, group_validate_iff}
use communication_platform.Group.SealingLaws.{group_encode_control-decode_control}
use communication_platform.Room.Sealing.{
  with_domain, signature_domain as room_signature, state_hash_domain as room_state_hash,
}
use communication_platform.Group.Sealing.{signature_domain, state_hash_domain}
use communication_platform.Group.Domains.{with_domain-apart}

with_domain-apart_example :
    (with_domain room_signature (1 ∷ []) ≢ with_domain signature_domain (2 ∷ []))
    × (with_domain room_state_hash (1 ∷ []) ≢ with_domain state_hash_domain (2 ∷ []))
    × (with_domain room_signature (1 ∷ []) ≢ with_domain state_hash_domain (2 ∷ []))
    × (with_domain room_state_hash (1 ∷ []) ≢ with_domain signature_domain (2 ∷ []))
    × (with_domain room_signature (1 ∷ []) ≢ with_domain room_state_hash (2 ∷ []))
    × (with_domain signature_domain (1 ∷ []) ≢ with_domain state_hash_domain (2 ∷ []))
with_domain-apart_example = with_domain-apart (1 ∷ []) (2 ∷ []) (omega arith) (omega arith)

-- The second event of a group: a member becomes an administrator.
abbrev control : GroupControl
control = record {
  event_id = replicate 16 7;
  group_id = replicate 32 9;
  revision = 2;
  previous_state_hash = some (replicate 32 6);
  signer_user_id = replicate 16 1;
  signer_device_id = replicate 16 3;
  created_ms = 1000;
  body = change_role (replicate 16 2) 1;
}

group_validate_iff_example : validate control ≡ ok tt ↔ IsValid control
group_validate_iff_example = group_validate_iff control

abbrev canonical : Bytes
canonical =
    (170 ∷ 0 ∷ 1 ∷ 1 ∷ 80 ∷ [])
    ++ (replicate 16 7
        ++ ((2 ∷ 88 ∷ 32 ∷ [])
            ++ (replicate 32 9
                ++ ((3 ∷ 2 ∷ 4 ∷ 88 ∷ 32 ∷ [])
                    ++ (replicate 32 6
                        ++ ((5 ∷ 80 ∷ [])
                            ++ (replicate 16 1
                                ++ ((6 ∷ 80 ∷ [])
                                    ++ (replicate 16 3
                                        ++ ((7 ∷ 25 ∷ 3 ∷ 232 ∷ 8 ∷ 4 ∷ 9 ∷ 162 ∷ 0 ∷ 80 ∷ [])
                                            ++ (replicate 16 2 ++ (1 ∷ 1 ∷ []))))))))))))

decodes : decode_control small_cbor canonical ≡ ok control
unfolding decode_control run ◌>>=◌ ◌>>◌ read_exact_map read_map_len reject wrong_item decoded u8
    definite canonical_length_header read_key read_uint shortest_uint read_exact_bytes read_bytes
    read_nullable bytes_eq bytes_lt char_count encode_key peek read_array_len read_text
    shortest_array written encode_body encode_control encode_each_member write_control checked
    decode_body decode_change_role read_event is_create kind validate validate_body finish
    is_finished lift new_reader take extend then at_most encode_hash narrow is_none head to_be_bytes
    from_be_bytes u16 array xor
decodes = refl

group_encode_control-decode_control_example :
    (validate control ≡ ok tt) × (encode_control small_cbor control ≡ ok canonical)
group_encode_control-decode_control_example =
    group_encode_control-decode_control small_cbor canonical control decodes

-- Signs nothing: every signature is accepted.
abbrev toy_provider : CryptoProvider
toy_provider = record {
  ed25519_sign = λ secret message. ok (5 ∷ []);
  ed25519_verify = λ public message signature. ok tt;
  sha256 = λ message. ok (replicate 32 0);
}

abbrev projection : Bytes
projection =
    (1 ∷ [])
    ++ (replicate 16 7
        ++ (replicate 32 9
            ++ ((0 ∷ 0 ∷ 0 ∷ 2 ∷ 1 ∷ [])
                ++ (replicate 32 6
                    ++ (replicate 16 1
                        ++ (replicate 16 3
                            ++ ((0 ∷ 0 ∷ 0 ∷ 0 ∷ 0 ∷ 0 ∷ 3 ∷ 232 ∷ 4 ∷ [])
                                ++ (replicate 16 2 ++ (1 ∷ [])))))))))

projection_writes : written_by (encode_projection control) ≡ ok projection
unfolding encode_projection push_hash encode_projection_body push_u32 push_u64 extend then
    to_be_bytes kind
projection_writes = refl

projection_decodes : decode_projection projection ≡ ok control
unfolding decode_projection read_control read_hash read_projection_body read_change_role validated
    u32 u64 run ◌>>=◌ ◌>>◌ read_exact_map read_map_len reject wrong_item decoded u8 definite
    canonical_length_header read_key read_uint shortest_uint read_exact_bytes read_bytes
    read_nullable bytes_eq bytes_lt char_count encode_key peek read_array_len read_text
    shortest_array written encode_body encode_control encode_each_member write_control checked
    decode_body decode_change_role read_event is_create kind validate validate_body finish
    is_finished lift new_reader take extend then at_most encode_hash narrow is_none head to_be_bytes
    from_be_bytes u16 array xor
projection_decodes = refl

signing : with_domain signature_domain canonical ≡ ok (in_domain signature_domain canonical)
signing = with_domain_eq signature_domain canonical (omega arith)

hashing : with_domain state_hash_domain canonical ≡ ok (in_domain state_hash_domain canonical)
hashing = with_domain_eq state_hash_domain canonical (omega arith)

abbrev opened : OpenedGroupControl
opened = record { projection = projection; state_hash = replicate 32 0 }

opens : open_control small_cbor toy_provider [] canonical (5 ∷ []) ≡ ok opened
unfolding open_control state_hash
opens = rw (signing, decodes, projection_writes, hashing) refl

group_open_control-eq-ok_example :
    (toy_provider.ed25519_verify [] (in_domain signature_domain canonical) (5 ∷ []) ≡ ok tt)
    × (toy_provider.sha256 (in_domain state_hash_domain canonical) ≡ ok opened.state_hash)
    × ((c : GroupControl) × (validate c ≡ ok tt)
        × (encode_control small_cbor c ≡ ok canonical)
        × (written_by (encode_projection c) ≡ ok opened.projection))
group_open_control-eq-ok_example =
    group_open_control-eq-ok small_cbor toy_provider [] canonical (5 ∷ []) opened opens

abbrev device : DeviceSigner
device = record { user_id = replicate 16 1; device_signing_secret = [] }

abbrev sealed : SealedGroupControl
sealed = record { canonical = canonical; signature = 5 ∷ []; state_hash = replicate 32 0 }

encodes : encode_control small_cbor control ≡ ok canonical
encodes = group_encode_control-decode_control_example.1

seals : seal small_cbor toy_provider device projection ≡ ok sealed
unfolding seal state_hash bytes_eq
seals = rw (projection_decodes, encodes, signing, hashing) refl
