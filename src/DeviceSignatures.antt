-- ===== src/DeviceSignatures.antt =====
-- device_signatures.rs: the identities that devices publish, the bytes that are signed for them, and
-- the checks of these signatures. `Transcripts` shows what the bytes stand for.
pub mod Transcripts
pub mod Injective
mod Tests
use communication_platform.Base.{
  ℕ, ◌<◌, ◌^◌, Option, none, some, [], ◌∷◌, ◌++◌, length, ltb, ◌==◌, if◌then◌else◌, Result, ok, err,
  ok_or, refuse, malformed_input, input_too_large, ◌>>=◌ as bind_result,
}
use communication_platform.Base.{take as list_take, drop as list_drop}
use communication_platform.Base.Bytes.{Bytes, IsArray, to_be_bytes}
use communication_platform.Protocol.Framing.{max_input_bytes, usize_end, checked_add}
use communication_platform.Protocol.Writing.{Writer, ◌>>◌, try_from}
use communication_platform.Provider.{CryptoProvider}

abbrev pub device_signing_public_key_bytes : ℕ
device_signing_public_key_bytes = 32

abbrev pub identity_public_key_bytes : ℕ
identity_public_key_bytes = 32

abbrev pub ik_public_bytes : ℕ
ik_public_bytes = 64

abbrev pub ed25519_signature_bytes : ℕ
ed25519_signature_bytes = 64

-- `b"chat:v1:device-bundle"`.
abbrev pub cross_signature_domain : Bytes
cross_signature_domain =
    99 ∷ 104 ∷ 97 ∷ 116 ∷ 58 ∷ 118 ∷ 49 ∷ 58 ∷ 100 ∷ 101 ∷ 118 ∷ 105 ∷ 99 ∷ 101 ∷ 45 ∷ 98 ∷ 117
    ∷ 110 ∷ 100 ∷ 108 ∷ 101 ∷ []

-- `b"chat:v1:cross-signing-keys"`.
abbrev pub master_signature_domain : Bytes
master_signature_domain =
    99 ∷ 104 ∷ 97 ∷ 116 ∷ 58 ∷ 118 ∷ 49 ∷ 58 ∷ 99 ∷ 114 ∷ 111 ∷ 115 ∷ 115 ∷ 45 ∷ 115 ∷ 105 ∷ 103
    ∷ 110 ∷ 105 ∷ 110 ∷ 103 ∷ 45 ∷ 107 ∷ 101 ∷ 121 ∷ 115 ∷ []

-- `b"chat:v1:signed-prekey"`.
abbrev pub signed_prekey_domain : Bytes
signed_prekey_domain =
    99 ∷ 104 ∷ 97 ∷ 116 ∷ 58 ∷ 118 ∷ 49 ∷ 58 ∷ 115 ∷ 105 ∷ 103 ∷ 110 ∷ 101 ∷ 100 ∷ 45 ∷ 112 ∷ 114
    ∷ 101 ∷ 107 ∷ 101 ∷ 121 ∷ []

-- `b"chat:v1:pq-signed-prekey"`.
abbrev pub pq_signed_prekey_domain : Bytes
pq_signed_prekey_domain =
    99 ∷ 104 ∷ 97 ∷ 116 ∷ 58 ∷ 118 ∷ 49 ∷ 58 ∷ 112 ∷ 113 ∷ 45 ∷ 115 ∷ 105 ∷ 103 ∷ 110 ∷ 101 ∷ 100
    ∷ 45 ∷ 112 ∷ 114 ∷ 101 ∷ 107 ∷ 101 ∷ 121 ∷ []

-- A `RawUuid` is its 16 bytes, an `IkPublic` its 64 and an `Ed25519Signature` its 64.
unfoldable pub from_halves : Bytes → Bytes → Bytes
from_halves device_signing_public identity_public = device_signing_public ++ identity_public

-- `bytes.try_into()` into an array, with `MalformedInput` for another length.
abbrev pub try_into : ℕ → Bytes → Result Bytes
try_into size bytes = if length bytes == size then ok bytes else err malformed_input

unfoldable pub ik_public : Bytes → Result Bytes
ik_public bytes = try_into ik_public_bytes bytes

unfoldable pub device_signing_public : Bytes → Bytes
device_signing_public ik = list_take device_signing_public_key_bytes ik

unfoldable pub identity_public : Bytes → Bytes
identity_public ik = list_drop device_signing_public_key_bytes ik

unfoldable pub ed25519_signature : Bytes → Result Bytes
ed25519_signature bytes = try_into ed25519_signature_bytes bytes

pub record PublicPrekey : Type 0 where
  pub id : ℕ
  pub public : Bytes

pub record DeviceBundle : Type 0 where
  pub user_id : Bytes
  pub device_id : Bytes
  pub ik_public : Bytes
  pub spk_id : ℕ
  pub spk_public : Bytes
  pub pq_signed_prekey : Option PublicPrekey
  pub registration_id : ℕ
  pub bundle_version : ℕ

pub record CrossSigningIdentity : Type 0 where
  pub user_id : Bytes
  pub self_signing_public : Bytes
  pub user_signing_public : Bytes

pub record SignedPrekey : Type 0 where
  pub user_id : Bytes
  pub prekey : PublicPrekey

-- `Encoder::new`, with what the fields append to it.
unfoldable pub new_encoder : Bytes → Writer → Result Bytes
new_encoder domain fields =
    bind_result (refuse (ltb max_input_bytes (length domain)) input_too_large) λ _. fields domain

-- `Encoder::field`.
unfoldable pub field : Bytes → Writer
field value bytes = bind_result (try_from 4 (length value) input_too_large) λ field_length.
    bind_result (ok_or (checked_add usize_end 4 (length value)) input_too_large) λ appended.
      bind_result (ok_or (checked_add usize_end (length bytes) appended) input_too_large)
        λ encoded_length.
          bind_result (refuse (ltb max_input_bytes encoded_length) input_too_large)
            λ _. ok ((bytes ++ to_be_bytes 4 field_length) ++ value)

unfoldable pub pq_fields : Option PublicPrekey → Writer
pq_fields none = do field []; field []
pq_fields (some prekey) = do field (to_be_bytes 4 prekey.id); field prekey.public

unfoldable pub encode_cross_signature : DeviceBundle → Result Bytes
unfolding new_encoder
encode_cross_signature bundle = new_encoder cross_signature_domain do
  field bundle.user_id
  field bundle.device_id
  field bundle.ik_public
  field (to_be_bytes 4 bundle.spk_id)
  field bundle.spk_public
  pq_fields bundle.pq_signed_prekey
  field (to_be_bytes 4 bundle.registration_id)
  field (to_be_bytes 4 bundle.bundle_version)

unfoldable pub encode_master_signature : CrossSigningIdentity → Result Bytes
unfolding new_encoder
encode_master_signature identity = new_encoder master_signature_domain do
  field identity.user_id
  field identity.self_signing_public
  field identity.user_signing_public

unfoldable pub encode_prekey : Bytes → SignedPrekey → Result Bytes
unfolding new_encoder
encode_prekey domain signed =
    new_encoder domain
      do field signed.user_id; field (to_be_bytes 4 signed.prekey.id); field signed.prekey.public

unfoldable pub encode_signed_prekey : SignedPrekey → Result Bytes
unfolding encode_prekey
encode_signed_prekey signed = encode_prekey signed_prekey_domain signed

unfoldable pub encode_pq_signed_prekey : SignedPrekey → Result Bytes
unfolding encode_prekey
encode_pq_signed_prekey signed = encode_prekey pq_signed_prekey_domain signed

module _ (p : CryptoProvider) where
  unfoldable pub verify_cross_signature : DeviceBundle → Bytes → Bytes → Result (Unit {0})
  verify_cross_signature bundle self_signing_public signature =
      bind_result (encode_cross_signature bundle)
        λ signed. p.ed25519_verify self_signing_public signed signature

  unfoldable pub verify_master_signature : CrossSigningIdentity → Bytes → Bytes → Result (Unit {0})
  verify_master_signature identity master_public signature =
      bind_result (encode_master_signature identity)
        λ signed. p.ed25519_verify master_public signed signature

  unfoldable pub verify_signed_prekey : SignedPrekey → Bytes → Bytes → Result (Unit {0})
  verify_signed_prekey prekey ik signature =
      bind_result (encode_signed_prekey prekey)
        λ signed. p.ed25519_verify (device_signing_public ik) signed signature

  unfoldable pub verify_pq_signed_prekey : SignedPrekey → Bytes → Bytes → Result (Unit {0})
  verify_pq_signed_prekey prekey ik signature =
      bind_result (encode_pq_signed_prekey prekey)
        λ signed. p.ed25519_verify (device_signing_public ik) signed signature
