-- ===== src/Room/SealingLaws.antt =====
-- room_control.rs: what is sealed opens to the same event, and what opens was signed and canonical.
use communication_platform.Base.{
  ◌+◌, ◌^◌, ◌<◌, ◌≡◌, refl, sym, ap, ◌∙◌, false, ◌++◌, length, length-append, arith, ltb, ltb→le,
  ◌==◌, ok, refuse, malformed_input, input_too_large, >>=-eq-ok, refuse-eq-ok,
}
use communication_platform.Base.Bytes.{
  Bytes, IsBytes, bytes_eq_iff, to_be_bytes, length-to_be_bytes,
}
use communication_platform.Protocol.Reads.{frame}
use communication_platform.Protocol.Writing.{
  then-Writes, extend-Writes, push_frame-Writes, written_by, written_by-Writes,
}
use communication_platform.Provider.{CryptoProvider, IsSigner}
use communication_platform.Cbor.{Minicbor, IsCbor}
use communication_platform.Room.{RoomControl, validate, max_room_control_bytes}
use communication_platform.Room.Projection.{encode_projection}
use communication_platform.Room.ProjectionReader.{decode_projection}
use communication_platform.Room.ProjectionLaws.Accepted.{encode_projection-decode_projection}
use communication_platform.Room.Canonical.{encode_control}
use communication_platform.Room.CanonicalReader.{decode_control}
use communication_platform.Room.CanonicalLaws.Back.{
  decode_control-encode_control, encode_control-decode_control,
}
use communication_platform.Room.Sealing.{
  DeviceSigner, SealedRoomControl, OpenedRoomControl, with_domain, signature_domain,
  state_hash_domain, state_hash, seal, open_control,
}

-- The bytes that are signed and hashed.
abbrev pub in_domain : Bytes → Bytes → Bytes
in_domain domain canonical = domain ++ frame canonical

pub with_domain_eq :
    (domain canonical : Bytes)
    → length canonical < 256 ^ 4
    → with_domain domain canonical ≡ ok (in_domain domain canonical)
unfolding with_domain
with_domain_eq domain canonical h =
    written_by-Writes (then-Writes (extend-Writes domain) (push_frame-Writes canonical h))

length-in_domain :
    (domain canonical : Bytes)
    → length (in_domain domain canonical) ≡ length domain + (4 + length canonical)
length-in_domain domain canonical = omega (
  arith,
  length-append domain (frame canonical),
  length-append (to_be_bytes 4 (length canonical)) canonical,
  length-to_be_bytes 4 (length canonical),
)

module _ (m : Minicbor) (p : CryptoProvider) where
  pub state_hash_eq :
      (canonical : Bytes)
      → length canonical < 256 ^ 4
      → state_hash m p canonical ≡ p.sha256 (in_domain state_hash_domain canonical)
  unfolding state_hash
  state_hash_eq canonical h = rw (with_domain_eq state_hash_domain canonical h) refl

  -- For a projection frame that decodes to an event of the device's own account, with an encoder and
  -- decoder of RFC 8949 and a key pair whose signatures verify, `seal` returns a sealed event, and
  -- opening its bytes and signature returns the frame and the state hash.
  pub open_control-seal :
      (public : Bytes) (device : DeviceSigner) (projection : Bytes) (c : RoomControl)
      → IsCbor m
      → IsSigner p device.device_signing_secret public
      → IsBytes projection
      → decode_projection projection ≡ ok c
      → c.signer_user_id ≡ device.user_id
      → (sealed : SealedRoomControl) × (seal m p device projection ≡ ok sealed)
        × (open_control m p public sealed.canonical sealed.signature
            ≡ ok (record { projection = projection; state_hash = sealed.state_hash }))
  unfolding seal open_control state_hash
  open_control-seal public device projection c cbor signer h d own =
      let (t, v, w) = encode_projection-decode_projection projection c h d in
      let (output, e, n, l, back) = decode_control-encode_control m cbor c t v in
      let signed = in_domain signature_domain output in
      let hashed = in_domain state_hash_domain output in
      let (signature, s, f) =
        signer.signs signed (omega (arith, length-in_domain signature_domain output)) in
      let (digest, g) =
        signer.hashes hashed (omega (arith, length-in_domain state_hash_domain output)) in
      let signing = with_domain_eq signature_domain output (omega arith) in
      let hashing = with_domain_eq state_hash_domain output (omega arith) in
      let mine = (bytes_eq_iff c.signer_user_id device.user_id).1 own in
      let some_bytes : (length output == 0) ≡ false = ground arith in
      let few_bytes : ltb max_room_control_bytes (length output) ≡ false = ground arith in
      (
        record { canonical = output; signature = signature; state_hash = digest },
        rw (d, mine, e, signing, s, hashing, g) refl,
        rw (some_bytes, few_bytes, signing, f, back, w, hashing, g) refl,
      )

  -- When an event opens, the signature verified over the signature domain and the framed bytes, the
  -- hash is that of the hash domain and the framed bytes, and the bytes are the canonical form of an
  -- event that `validate` accepts, whose projection is returned.
  pub open_control-eq-ok :
      (public canonical signature : Bytes) (opened : OpenedRoomControl)
      → open_control m p public canonical signature ≡ ok opened
      → (p.ed25519_verify public (in_domain signature_domain canonical) signature ≡ ok tt)
        × (p.sha256 (in_domain state_hash_domain canonical) ≡ ok opened.state_hash)
        × ((c : RoomControl) × (validate c ≡ ok tt)
            × (encode_control m c ≡ ok canonical)
            × (written_by (encode_projection c) ≡ ok opened.projection))
  unfolding open_control state_hash
  open_control-eq-ok public canonical signature opened g =
      let (u1, h1, g1) = >>=-eq-ok (refuse (length canonical == 0) malformed_input) _ g in
      let (u2, h2, g2) =
        >>=-eq-ok (refuse (ltb max_room_control_bytes (length canonical)) input_too_large) _ g1 in
      let (message, h3, g3) = >>=-eq-ok (with_domain signature_domain canonical) _ g2 in
      let (u4, h4, g4) = >>=-eq-ok (p.ed25519_verify public message signature) _ g3 in
      let (c, h5, g5) = >>=-eq-ok (decode_control m canonical) _ g4 in
      let (projection, h6, g6) = >>=-eq-ok (written_by (encode_projection c)) _ g5 in
      let (hash, h7, g7) = >>=-eq-ok (state_hash m p canonical) _ g6 in
      let few = ltb→le _ _ (refuse-eq-ok (ltb max_room_control_bytes (length canonical)) _ h2) in
      let framed_eq = with_domain_eq signature_domain canonical (omega arith) in
      let same : message ≡ in_domain signature_domain canonical = cc in
      let (v, w) = encode_control-decode_control m canonical c h5 in
      let hashing = state_hash_eq canonical (omega arith) in
      let result : record { projection = projection; state_hash = hash } ≡ opened = cc in
      (
        rw (← same) h4,
        sym hashing ∙ h7 ∙ ap (λ o. ok o.state_hash) result,
        (c, v, w, h6 ∙ ap (λ o. ok o.projection) result),
      )
