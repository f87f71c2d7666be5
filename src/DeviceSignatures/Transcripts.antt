-- ===== src/DeviceSignatures/Transcripts.antt =====
-- device_signatures.rs: the bytes that are signed, as a domain with frames after it.
use communication_platform.Base.{
  ◌+◌, ◌≡◌, sym, Option, none, some, [], ◌∷◌, ◌++◌, length, length-append, append_assoc, append-nil,
  List, subst, arith, ltb, if◌then◌else◌, Result, ok, err, input_too_large,
}
use communication_platform.Base.Bytes.{Bytes, to_be_bytes, length-to_be_bytes}
use communication_platform.Protocol.Framing.{max_input_bytes}
use communication_platform.Protocol.Reads.{frame}
use communication_platform.Protocol.Writing.{Writer, ◌>>◌}
use communication_platform.DeviceSignatures.{
  PublicPrekey, DeviceBundle, CrossSigningIdentity, SignedPrekey, field, pq_fields, new_encoder,
  encode_cross_signature, encode_master_signature, encode_prekey, encode_signed_prekey,
  encode_pq_signed_prekey, cross_signature_domain, master_signature_domain, signed_prekey_domain,
  pq_signed_prekey_domain,
}

-- The result of a writer that stops with `InputTooLarge` past the bound on inputs.
abbrev pub bounded : Bytes → Result Bytes
bounded output = if ltb max_input_bytes (length output) then err input_too_large else ok output

-- `w` appends `xs` within the bound, and is refused beyond it.
pub record Appends (w : Writer) (xs : Bytes) : Type 0 where
  pub appends : (output : Bytes) → w output ≡ bounded (output ++ xs)

pub length-frame : (value : Bytes) → length (frame value) ≡ 4 + length value
length-frame value =
    omega (
      arith,
      length-append (to_be_bytes 4 (length value)) value,
      length-to_be_bytes 4 (length value),
    )

pub field-Appends : (value : Bytes) → Appends (field value) (frame value)
unfolding field
field-Appends value = record {
  appends = λ output. ground (
    arith,
    length-append output (frame value),
    length-frame value,
    append_assoc output (to_be_bytes 4 (length value)) value,
  );
}

pub then-Appends :
    {v w : Writer} {xs ys : Bytes} → Appends v xs → Appends w ys → Appends (v >> w) (xs ++ ys)
unfolding ◌>>◌
then-Appends {v} {w} {xs} {ys} m k = record {
  appends = λ output. rw (m.appends output) (
      ground (
        arith,
        k.appends (output ++ xs),
        append_assoc output xs ys,
        length-append (output ++ xs) ys,
      ));
}

pub new_encoder-bounded :
    (domain : Bytes) {w : Writer} {xs : Bytes}
    → Appends w xs
    → new_encoder domain w ≡ bounded (domain ++ xs)
unfolding new_encoder
new_encoder-bounded domain {w} {xs} m = ground (arith, m.appends domain, length-append domain xs)

-- The two fields of an optional prekey: both are empty where there is none.
abbrev pub pq_id : Option PublicPrekey → Bytes
pq_id none = []
pq_id (some prekey) = to_be_bytes 4 prekey.id

abbrev pub pq_public : Option PublicPrekey → Bytes
pq_public none = []
pq_public (some prekey) = prekey.public

pq_fields-Appends :
    (o : Option PublicPrekey) → Appends (pq_fields o) (frame (pq_id o) ++ frame (pq_public o))
unfolding pq_fields
pq_fields-Appends none = then-Appends (field-Appends _) (field-Appends _)
pq_fields-Appends (some prekey) = then-Appends (field-Appends _) (field-Appends _)

-- Fields in a row.
abbrev pub frames : List Bytes → Bytes
frames [] = []
frames (value ∷ values) = frame value ++ frames values

pq_then-Appends :
    (o : Option PublicPrekey) {w : Writer} {xs : Bytes}
    → Appends w xs
    → Appends (pq_fields o >> w) (frame (pq_id o) ++ (frame (pq_public o) ++ xs))
pq_then-Appends o {w} {xs} m =
    subst (Appends (pq_fields o >> w)) (append_assoc (frame (pq_id o)) (frame (pq_public o)) xs)
      (then-Appends (pq_fields-Appends o) m)

last-Appends : (value : Bytes) → Appends (field value) (frames (value ∷ []))
last-Appends value =
    subst (Appends (field value)) (sym (append-nil (frame value))) (field-Appends value)

-- What devices sign.
pub data Statement : Type 0 where
  cross : DeviceBundle → Statement
  master : CrossSigningIdentity → Statement
  signed : SignedPrekey → Statement
  pq_signed : SignedPrekey → Statement

unfoldable pub encode_statement : Statement → Result Bytes
encode_statement (cross bundle) = encode_cross_signature bundle
encode_statement (master identity) = encode_master_signature identity
encode_statement (signed prekey) = encode_signed_prekey prekey
encode_statement (pq_signed prekey) = encode_pq_signed_prekey prekey

abbrev pub cross_fields : DeviceBundle → List Bytes
cross_fields b =
    b.user_id
    ∷ b.device_id
    ∷ b.ik_public
    ∷ to_be_bytes 4 b.spk_id
    ∷ b.spk_public
    ∷ pq_id b.pq_signed_prekey
    ∷ pq_public b.pq_signed_prekey
    ∷ to_be_bytes 4 b.registration_id
    ∷ to_be_bytes 4 b.bundle_version
    ∷ []

abbrev pub master_fields : CrossSigningIdentity → List Bytes
master_fields i = i.user_id ∷ i.self_signing_public ∷ i.user_signing_public ∷ []

abbrev pub prekey_fields : SignedPrekey → List Bytes
prekey_fields s = s.user_id ∷ to_be_bytes 4 s.prekey.id ∷ s.prekey.public ∷ []

-- The domain of a statement and the frames of its fields.
abbrev pub transcript : Statement → Bytes
transcript (cross bundle) = cross_signature_domain ++ frames (cross_fields bundle)
transcript (master identity) = master_signature_domain ++ frames (master_fields identity)
transcript (signed prekey) = signed_prekey_domain ++ frames (prekey_fields prekey)
transcript (pq_signed prekey) = pq_signed_prekey_domain ++ frames (prekey_fields prekey)

prekey_fields-Appends :
    (s : SignedPrekey)
    → Appends
        (field s.user_id >> (field (to_be_bytes 4 s.prekey.id) >> field s.prekey.public))
        (frames (prekey_fields s))
prekey_fields-Appends s =
    then-Appends (field-Appends _) (then-Appends (field-Appends _) (last-Appends _))

-- Each of the four encoders returns the domain and the length-framed fields when these are within
-- the bound of 1 MiB on inputs, and `InputTooLarge` in all other cases.
pub encode_statement-transcript : (s : Statement) → encode_statement s ≡ bounded (transcript s)
unfolding encode_statement encode_cross_signature encode_master_signature encode_signed_prekey
    encode_pq_signed_prekey encode_prekey
encode_statement-transcript (cross b) = new_encoder-bounded cross_signature_domain (
    then-Appends (field-Appends _) (
      then-Appends (field-Appends _) (
        then-Appends (field-Appends _) (
          then-Appends (field-Appends _) (
            then-Appends (field-Appends _)
              (pq_then-Appends _ (then-Appends (field-Appends _) (last-Appends _))))))))
encode_statement-transcript (master i) =
    new_encoder-bounded master_signature_domain
      (then-Appends (field-Appends _) (then-Appends (field-Appends _) (last-Appends _)))
encode_statement-transcript (signed s) =
    new_encoder-bounded signed_prekey_domain (prekey_fields-Appends s)
encode_statement-transcript (pq_signed s) =
    new_encoder-bounded pq_signed_prekey_domain (prekey_fields-Appends s)
