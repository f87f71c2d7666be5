-- ===== src/Prekey/Identity.antt =====
-- prekey_state.rs: `parse_self_signing_secret`, which reads the account's identity package.
use communication_platform.Base.{
  ℕ, ◌||◌, Bool, not, ◌/◌, ◌%◌, [], ◌∷◌, length, ◌==◌, leb, Result, ok, refuse,
  authentication_failed, ◌>>=◌ as bind_result, ◌>>◌ as check, if◌then◌else◌,
}
use communication_platform.Base.Bytes.{Bytes, bytes_eq}
use communication_platform.Provider.{KeyProvider}
use communication_platform.Protocol.Framing.{
  Parser, pure, ◌>>=◌, ◌>>◌, reject, lift, run, u8, u16, u32, array, take,
}
use communication_platform.DeviceSignatures.{encode_master_signature}
use communication_platform.Prekey.Checks.{check_verifying_key}
use communication_platform.Prekey.CodecReader.{read_magic}
use communication_platform.Prekey.Migration.{authentic_end}

-- "CPIDV001"
abbrev pub identity_magic : Bytes
identity_magic = 67 ∷ 80 ∷ 73 ∷ 68 ∷ 86 ∷ 48 ∷ 48 ∷ 49 ∷ []

pub record IdentityPackage : Type 0 where
  pub flags : ℕ
  pub master_public : Bytes
  pub self_signing_public : Bytes
  pub user_signing_public : Bytes
  pub master_signature : Bytes
  pub master_secret : Bytes
  pub self_signing_secret : Bytes
  pub user_signing_secret : Bytes
  pub recovery_secret : Bytes
  pub backup : Bytes

-- `flags & 1 != 0` and `flags & 2 != 0`; `flags & !0b11 != 0` is `4 <= flags`.
abbrev pub has_recovery : ℕ → Bool
has_recovery flags = flags % 2 == 1

abbrev pub has_backup : ℕ → Bool
has_backup flags = (flags / 2) % 2 == 1

-- A `u32` fits `usize`.
unfoldable pub read_identity : Bytes → Parser IdentityPackage
read_identity expected_user_id = do
  flags ← u8
  reject (leb 4 flags) authentication_failed
  user_id ← take 16
  reject (not (bytes_eq user_id expected_user_id)) authentication_failed
  master_public ← array 32
  self_signing_public ← array 32
  user_signing_public ← array 32
  master_signature ← array 64
  recovery_len ← u16
  backup_len ← u32
  master_secret ← array 32
  self_signing_secret ← array 32
  user_signing_secret ← array 32
  recovery_secret ← take recovery_len
  backup ← take backup_len
  pure (record {
    flags = flags;
    master_public = master_public;
    self_signing_public = self_signing_public;
    user_signing_public = user_signing_public;
    master_signature = master_signature;
    master_secret = master_secret;
    self_signing_secret = self_signing_secret;
    user_signing_secret = user_signing_secret;
    recovery_secret = recovery_secret;
    backup = backup;
  })

-- `left == right` on Booleans.
abbrev pub same : Bool → Bool → Bool
same left right = if left then right else not right

-- A flag without its part, or a part without its flag.
unfoldable pub parts_disagree : IdentityPackage → Bool
parts_disagree i =
    same (has_recovery i.flags) (length i.recovery_secret == 0)
    || same (has_backup i.flags) (length i.backup == 0)

module _ {E : Type 0} (p : KeyProvider E) where
  unfoldable pub judge_identity : Bytes → IdentityPackage → Result Bytes
  judge_identity expected_user_id i = check (refuse (parts_disagree i) authentication_failed) (
      check (check_verifying_key p i.master_secret i.master_public) (
        check (check_verifying_key p i.self_signing_secret i.self_signing_public) (
          check (check_verifying_key p i.user_signing_secret i.user_signing_public) (
            bind_result
              (encode_master_signature (record {
                user_id = expected_user_id;
                self_signing_public = i.self_signing_public;
                user_signing_public = i.user_signing_public;
              }))
              λ signed.
                check (p.signatures.ed25519_verify i.master_public signed i.master_signature)
                  (ok i.self_signing_secret)))))

  unfoldable pub parse_self_signing_secret : Bytes → Bytes → Result Bytes
  parse_self_signing_secret input expected_user_id =
      run
        ((read_magic identity_magic >> read_identity expected_user_id) >>= λ i.
          authentic_end >> lift (judge_identity expected_user_id i))
        input
