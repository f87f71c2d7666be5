-- ===== src/Group/Sealing.antt =====
-- group_control.rs: signing an event, and opening a signed one.
use communication_platform.Base.{
  not, [], ◌∷◌, length, ltb, ◌==◌, Result, ok, refuse, malformed_input, input_too_large,
  invalid_argument, ◌>>=◌, ◌>>◌,
}
use communication_platform.Base.Bytes.{Bytes, bytes_eq}
use communication_platform.Protocol.Writing.{written_by}
use communication_platform.Provider.{CryptoProvider}
use communication_platform.Cbor.{Minicbor}
use communication_platform.Room.Sealing.{DeviceSigner, with_domain}
use communication_platform.Group.{max_group_control_bytes}
use communication_platform.Group.Projection.{encode_projection}
use communication_platform.Group.ProjectionReader.{decode_projection}
use communication_platform.Group.Canonical.{encode_control}
use communication_platform.Group.CanonicalReader.{decode_control}

-- `b"chat:v1:group-control"` and `b"chat:v1:group-control-state"`.
abbrev pub signature_domain : Bytes
signature_domain =
    99 ∷ 104 ∷ 97 ∷ 116 ∷ 58 ∷ 118 ∷ 49 ∷ 58 ∷ 103 ∷ 114 ∷ 111 ∷ 117 ∷ 112 ∷ 45 ∷ 99 ∷ 111 ∷ 110
    ∷ 116 ∷ 114 ∷ 111 ∷ 108 ∷ []

abbrev pub state_hash_domain : Bytes
state_hash_domain =
    99 ∷ 104 ∷ 97 ∷ 116 ∷ 58 ∷ 118 ∷ 49 ∷ 58 ∷ 103 ∷ 114 ∷ 111 ∷ 117 ∷ 112 ∷ 45 ∷ 99 ∷ 111 ∷ 110
    ∷ 116 ∷ 114 ∷ 111 ∷ 108 ∷ 45 ∷ 115 ∷ 116 ∷ 97 ∷ 116 ∷ 101 ∷ []

pub record SealedGroupControl : Type 0 where
  pub canonical : Bytes
  pub signature : Bytes
  pub state_hash : Bytes

pub record OpenedGroupControl : Type 0 where
  pub projection : Bytes
  pub state_hash : Bytes

module _ (m : Minicbor) (p : CryptoProvider) where
  unfoldable pub state_hash : Bytes → Result Bytes
  unfolding with_domain
  state_hash canonical = with_domain state_hash_domain canonical >>= p.sha256

  unfoldable pub seal : DeviceSigner → Bytes → Result SealedGroupControl
  unfolding with_domain state_hash
  seal device projection = do
    control ← decode_projection projection
    refuse (not (bytes_eq control.signer_user_id device.user_id)) invalid_argument
    canonical ← encode_control m control
    message ← with_domain signature_domain canonical
    signature ← p.ed25519_sign device.device_signing_secret message
    hash ← state_hash canonical
    ok (record { canonical = canonical; signature = signature; state_hash = hash })

  unfoldable pub open_control : Bytes → Bytes → Bytes → Result OpenedGroupControl
  unfolding with_domain state_hash
  open_control signing_public canonical signature = do
    refuse (length canonical == 0) malformed_input
    refuse (ltb max_group_control_bytes (length canonical)) input_too_large
    message ← with_domain signature_domain canonical
    p.ed25519_verify signing_public message signature
    control ← decode_control m canonical
    projection ← written_by (encode_projection control)
    hash ← state_hash canonical
    ok (record { projection = projection; state_hash = hash })
