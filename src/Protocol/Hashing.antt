-- ===== src/Protocol/Hashing.antt =====
-- protocol.rs: `hkdf_sha256` and `hmac_sha256`, around the third-party functions.
use communication_platform.Base.{
  ℕ, ◌||◌, length, ltb, Result, ok_or, refuse, input_too_large, output_too_small, invalid_argument,
  ◌>>◌,
}
use communication_platform.Base.Bytes.{Bytes}
use communication_platform.Provider.{KeyProvider}
use communication_platform.Protocol.Framing.{max_input_bytes}

module _ {E : Type 0} (p : KeyProvider E) where
  unfoldable pub hkdf_sha256 : Bytes → Bytes → Bytes → ℕ → Result Bytes
  hkdf_sha256 salt input_key_material info output_len = do
    refuse
        (ltb max_input_bytes (length salt)
          || ltb max_input_bytes (length input_key_material)
          || ltb max_input_bytes (length info)
          || ltb max_input_bytes output_len)
        input_too_large
    ok_or (p.hkdf salt input_key_material info output_len) output_too_small

  unfoldable pub hmac_sha256 : Bytes → Bytes → Result Bytes
  hmac_sha256 key input = do
    refuse (ltb max_input_bytes (length key) || ltb max_input_bytes (length input)) input_too_large
    ok_or (p.hmac key input) invalid_argument
