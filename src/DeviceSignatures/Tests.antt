-- ===== src/DeviceSignatures/Tests.antt =====
-- device_signatures.rs: a bundle with no post-quantum prekey.
use communication_platform.Base.{◌≡◌, refl, ◌∙◌, none, replicate, arith, ok}
use communication_platform.Base.Bytes.{to_be_bytes}
use communication_platform.DeviceSignatures.{DeviceBundle}
use communication_platform.DeviceSignatures.Transcripts.{
  Statement, cross, encode_statement, transcript, bounded, encode_statement-transcript,
}
use communication_platform.DeviceSignatures.Injective.{encode_statement-injective}

abbrev bundle : DeviceBundle
bundle = record {
  user_id = replicate 16 1;
  device_id = replicate 16 2;
  ik_public = replicate 64 3;
  spk_id = 7;
  spk_public = replicate 32 4;
  pq_signed_prekey = none;
  registration_id = 300;
  bundle_version = 1;
}

encode_statement-transcript_example :
    encode_statement (cross bundle) ≡ bounded (transcript (cross bundle))
encode_statement-transcript_example = encode_statement-transcript (cross bundle)

within : bounded (transcript (cross bundle)) ≡ ok (transcript (cross bundle))
unfolding to_be_bytes
within = refl

encoded : encode_statement (cross bundle) ≡ ok (transcript (cross bundle))
encoded = encode_statement-transcript (cross bundle) ∙ within

encode_statement-injective_example : ◌≡◌ {A = Statement} (cross bundle) (cross bundle)
encode_statement-injective_example =
    encode_statement-injective (cross bundle) (cross bundle) (transcript (cross bundle))
      (omega arith, omega arith, omega arith, tt) (omega arith, omega arith, omega arith, tt)
      encoded encoded
