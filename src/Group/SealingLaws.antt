-- ===== src/Group/SealingLaws.antt =====
-- group_control.rs: what opens was signed and canonical.
use communication_platform.Base.{
  ◌^◌, ◌≤◌, ◌<◌, ◌≡◌, refl, sym, ap, ◌∙◌, not, length, arith, ltb, ltb→le, ◌==◌, ok, refuse,
  malformed_input, input_too_large, >>=-eq-ok, refuse-eq-ok,
}
use communication_platform.Base.Bytes.{Bytes, bytes_eq, bytes_eq_iff}
use communication_platform.Protocol.Accepts.{run-judged}
use communication_platform.Protocol.Writing.{written_by}
use communication_platform.Provider.{CryptoProvider}
use communication_platform.Cbor.{Minicbor}
use communication_platform.Room.Canonical.{at_most}
use communication_platform.Room.Sealing.{with_domain}
use communication_platform.Room.SealingLaws.{in_domain, with_domain_eq}
use communication_platform.Group.{GroupControl, validate, max_group_control_bytes}
use communication_platform.Group.Projection.{encode_projection}
use communication_platform.Group.Canonical.{write_control, encode_control}
use communication_platform.Group.CanonicalReader.{read_event, checked, decode_control}
use communication_platform.Group.Sealing.{
  OpenedGroupControl, signature_domain, state_hash_domain, state_hash, open_control,
}

module _ (m : Minicbor) where
  -- Whatever minicbor does, an event that `decode_control` returns is one that `validate` accepts,
  -- and its input is what `encode_control` returns for that event.
  pub group_encode_control-decode_control :
      (input : Bytes) (c : GroupControl)
      → decode_control m input ≡ ok c
      → (validate c ≡ ok tt) × (encode_control m c ≡ ok input)
  unfolding decode_control checked
  group_encode_control-decode_control input c g =
      let (a, r, h, k) = run-judged (read_event m) (checked m input) input g in
      let (u1, h1, g1) = >>=-eq-ok (validate a) _ k in
      let (output, h2, g2) = >>=-eq-ok (encode_control m a) _ g1 in
      let (u3, h3, g3) = >>=-eq-ok (refuse (not (bytes_eq output input)) malformed_input) _ g2 in
      let same : a ≡ c = cc in
      let equal = refuse-eq-ok (not (bytes_eq output input)) malformed_input h3 in
      let whole : output ≡ input = (bytes_eq_iff output input).0 (ground arith) in
      rw (← same) (h1, rw (← whole) h2)

  encode_control-bound :
      (c : GroupControl) (output : Bytes)
      → encode_control m c ≡ ok output
      → length output ≤ max_group_control_bytes
  unfolding encode_control at_most
  encode_control-bound c output g =
      let (xs, h, k) = >>=-eq-ok (written_by (write_control m c)) _ g in ground arith

module _ (m : Minicbor) (p : CryptoProvider) where
  pub state_hash_eq :
      (canonical : Bytes)
      → length canonical < 256 ^ 4
      → state_hash m p canonical ≡ p.sha256 (in_domain state_hash_domain canonical)
  unfolding state_hash
  state_hash_eq canonical h = rw (with_domain_eq state_hash_domain canonical h) refl

  -- When an event opens, the signature verified over the signature domain and the framed bytes, the
  -- hash is that of the hash domain and the framed bytes, and the bytes are the canonical form of an
  -- event that `validate` accepts, whose projection is returned.
  pub group_open_control-eq-ok :
      (public canonical signature : Bytes) (opened : OpenedGroupControl)
      → open_control m p public canonical signature ≡ ok opened
      → (p.ed25519_verify public (in_domain signature_domain canonical) signature ≡ ok tt)
        × (p.sha256 (in_domain state_hash_domain canonical) ≡ ok opened.state_hash)
        × ((c : GroupControl) × (validate c ≡ ok tt)
            × (encode_control m c ≡ ok canonical)
            × (written_by (encode_projection c) ≡ ok opened.projection))
  unfolding open_control state_hash
  group_open_control-eq-ok public canonical signature opened g =
      let (u1, h1, g1) = >>=-eq-ok (refuse (length canonical == 0) malformed_input) _ g in
      let (u2, h2, g2) =
        >>=-eq-ok (refuse (ltb max_group_control_bytes (length canonical)) input_too_large) _ g1 in
      let (message, h3, g3) = >>=-eq-ok (with_domain signature_domain canonical) _ g2 in
      let (u4, h4, g4) = >>=-eq-ok (p.ed25519_verify public message signature) _ g3 in
      let (c, h5, g5) = >>=-eq-ok (decode_control m canonical) _ g4 in
      let (projection, h6, g6) = >>=-eq-ok (written_by (encode_projection c)) _ g5 in
      let (hash, h7, g7) = >>=-eq-ok (state_hash m p canonical) _ g6 in
      let few = ltb→le _ _ (refuse-eq-ok (ltb max_group_control_bytes (length canonical)) _ h2) in
      let framed_eq = with_domain_eq signature_domain canonical (omega arith) in
      let same : message ≡ in_domain signature_domain canonical = cc in
      let (v, w) = group_encode_control-decode_control m canonical c h5 in
      let hashing = state_hash_eq canonical (omega arith) in
      let result : record { projection = projection; state_hash = hash } ≡ opened = cc in
      (
        rw (← same) h4,
        sym hashing ∙ h7 ∙ ap (λ o. ok o.state_hash) result,
        (c, v, w, h6 ∙ ap (λ o. ok o.projection) result),
      )
