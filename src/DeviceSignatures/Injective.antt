-- ===== src/DeviceSignatures/Injective.antt =====
-- device_signatures.rs: two statements with the same signed bytes are the same statement.
use communication_platform.Base.{
  ℕ, ◌^◌, ◌≤◌, ◌<◌, ◌≡◌, refl, sym, ap, ◌∙◌, List, Option, none, some, [], ◌∷◌, ◌++◌, length,
  length-append, append_assoc, arith, ok, drop,
}
use communication_platform.Base.Bytes.{
  Bytes, to_be_bytes, length-to_be_bytes, from_be_bytes, from_be_bytes-to_be_bytes,
}
use communication_platform.Protocol.Framing.{max_input_bytes}
use communication_platform.Protocol.Reads.{frame}
use communication_platform.DeviceSignatures.{
  PublicPrekey, DeviceBundle, CrossSigningIdentity, SignedPrekey, cross_signature_domain,
  master_signature_domain, signed_prekey_domain, pq_signed_prekey_domain,
}
use communication_platform.DeviceSignatures.Transcripts.{
  Statement, cross, master, signed, pq_signed, encode_statement, transcript, cross_fields,
  master_fields, prekey_fields, frames, length-frame, pq_id, pq_public, bounded,
  encode_statement-transcript,
}

append_cancel :
    {A : Type 0} (xs ys : List A) {us vs : List A}
    → length xs ≡ length ys
    → xs ++ us ≡ ys ++ vs
    → (xs ≡ ys) × (us ≡ vs)
append_cancel [] [] l e = (refl, e)
append_cancel [] (y ∷ ys) l e = absurd (omega arith)
append_cancel (x ∷ xs) [] l e = absurd (omega arith)
append_cancel (x ∷ xs) (y ∷ ys) {us} {vs} l e =
    let t : xs ++ us ≡ ys ++ vs = cc in ground (arith, append_cancel xs ys (omega arith) t)

frame_cancel :
    (a b : Bytes) {xs ys : Bytes}
    → length a < 256 ^ 4
    → length b < 256 ^ 4
    → frame a ++ xs ≡ frame b ++ ys
    → (a ≡ b) × (xs ≡ ys)
frame_cancel a b {xs} {ys} ha hb e =
    let (h, t) =
      append_cancel (to_be_bytes 4 (length a)) (to_be_bytes 4 (length b))
        (length-to_be_bytes 4 (length a) ∙ sym (length-to_be_bytes 4 (length b)))
        (sym (append_assoc (to_be_bytes 4 (length a)) a xs)
          ∙ e
          ∙ append_assoc (to_be_bytes 4 (length b)) b ys) in
    append_cancel a b
      (sym (from_be_bytes-to_be_bytes 4 (length a) ha)
        ∙ ap from_be_bytes h
        ∙ from_be_bytes-to_be_bytes 4 (length b) hb)
      t

frames-injective :
    (fs gs : List Bytes)
    → length fs ≡ length gs
    → length (frames fs) ≤ max_input_bytes
    → length (frames gs) ≤ max_input_bytes
    → frames fs ≡ frames gs
    → fs ≡ gs
frames-injective [] [] l h k e = refl
frames-injective [] (g ∷ gs) l h k e = absurd (omega arith)
frames-injective (f ∷ fs) [] l h k e = absurd (omega arith)
frames-injective (f ∷ fs) (g ∷ gs) l h k e =
    let p = length-append (frame f) (frames fs) in
    let q = length-append (frame g) (frames gs) in
    let (same, rest) =
      frame_cancel f g (omega (arith, p, length-frame f)) (omega (arith, q, length-frame g)) e in
    ground
      (arith, p, q, frames-injective fs gs (omega arith) (omega (arith, p)) (omega (arith, q)) rest)

-- Integers are below 2^32, and a prekey's public key is what it is.
abbrev pub IsPrekey : PublicPrekey → Type 0
IsPrekey prekey = prekey.id < 256 ^ 4

abbrev pub IsPqPrekey : Option PublicPrekey → Type 0
IsPqPrekey none = Unit {0}
IsPqPrekey (some prekey) = IsPrekey prekey

abbrev pub IsStatement : Statement → Type 0
IsStatement (cross b) =
    (b.spk_id < 256 ^ 4)
    × (b.registration_id < 256 ^ 4)
    × (b.bundle_version < 256 ^ 4)
    × IsPqPrekey b.pq_signed_prekey
IsStatement (master i) = Unit {0}
IsStatement (signed s) = IsPrekey s.prekey
IsStatement (pq_signed s) = IsPrekey s.prekey

int_cancel : (a b : ℕ) → a < 256 ^ 4 → b < 256 ^ 4 → to_be_bytes 4 a ≡ to_be_bytes 4 b → a ≡ b
int_cancel a b h k e =
    sym (from_be_bytes-to_be_bytes 4 a h) ∙ ap from_be_bytes e ∙ from_be_bytes-to_be_bytes 4 b k

pq_cancel :
    (o q : Option PublicPrekey)
    → IsPqPrekey o
    → IsPqPrekey q
    → pq_id o ≡ pq_id q
    → pq_public o ≡ pq_public q
    → o ≡ q
pq_cancel none none h k e f = refl
pq_cancel none (some b) h k e f = absurd (omega (arith, ap length e, length-to_be_bytes 4 b.id))
pq_cancel (some a) none h k e f = absurd (omega (arith, ap length e, length-to_be_bytes 4 a.id))
pq_cancel (some a) (some b) h k e f = ground (arith, int_cancel a.id b.id h k e)

cross-injective :
    (a b : DeviceBundle)
    → IsStatement (cross a)
    → IsStatement (cross b)
    → cross_fields a ≡ cross_fields b
    → a ≡ b
cross-injective a b h k e =
    let ids : (a.user_id ≡ b.user_id)
        × (a.device_id ≡ b.device_id)
        × (a.ik_public ≡ b.ik_public)
        × (to_be_bytes 4 a.spk_id ≡ to_be_bytes 4 b.spk_id)
        × (a.spk_public ≡ b.spk_public)
        × (pq_id a.pq_signed_prekey ≡ pq_id b.pq_signed_prekey)
        × (pq_public a.pq_signed_prekey ≡ pq_public b.pq_signed_prekey)
        × (to_be_bytes 4 a.registration_id ≡ to_be_bytes 4 b.registration_id)
        × (to_be_bytes 4 a.bundle_version ≡ to_be_bytes 4 b.bundle_version) =
      (cc, cc, cc, cc, cc, cc, cc, cc, cc) in
    ground (
      arith,
      ids,
      int_cancel a.spk_id b.spk_id h.0 k.0 ids.3,
      pq_cancel a.pq_signed_prekey b.pq_signed_prekey h.3 k.3 ids.5 ids.6,
      int_cancel a.registration_id b.registration_id h.1 k.1 ids.7,
      int_cancel a.bundle_version b.bundle_version h.2 k.2 ids.8,
    )

prekey-injective :
    (a b : SignedPrekey)
    → IsPrekey a.prekey
    → IsPrekey b.prekey
    → prekey_fields a ≡ prekey_fields b
    → a ≡ b
prekey-injective a b h k e =
    let ids : (a.user_id ≡ b.user_id)
        × (to_be_bytes 4 a.prekey.id ≡ to_be_bytes 4 b.prekey.id)
        × (a.prekey.public ≡ b.prekey.public) =
      (cc, cc, cc) in
    ground (arith, ids, int_cancel a.prekey.id b.prekey.id h k ids.1)

master-injective : (a b : CrossSigningIdentity) → master_fields a ≡ master_fields b → a ≡ b
master-injective a b e =
    let ids : (a.user_id ≡ b.user_id)
        × (a.self_signing_public ≡ b.self_signing_public)
        × (a.user_signing_public ≡ b.user_signing_public) =
      (cc, cc, cc) in
    ground (arith, ids)

within_bound :
    (t output : Bytes) → bounded t ≡ ok output → (t ≡ output) × (length t ≤ max_input_bytes)
within_bound t output h = ground arith

module _ (domain : Bytes) (fs gs : List Bytes) (counted : length fs ≡ length gs) where
  fields_cancel :
      length (domain ++ frames fs) ≤ max_input_bytes
      → length (domain ++ frames gs) ≤ max_input_bytes
      → domain ++ frames fs ≡ domain ++ frames gs
      → fs ≡ gs
  fields_cancel h k e =
      frames-injective fs gs counted (omega (arith, length-append domain (frames fs)))
        (omega (arith, length-append domain (frames gs))) (append_cancel domain domain refl e).1

-- The byte that follows "chat:v1:".
abbrev ninth : Bytes → ℕ
ninth xs = first (drop 8 xs)
  where
    first : Bytes → ℕ
    first [] = 0
    first (x ∷ rest) = x

transcript-injective :
    (s t : Statement)
    → IsStatement s
    → IsStatement t
    → length (transcript s) ≤ max_input_bytes
    → length (transcript t) ≤ max_input_bytes
    → transcript s ≡ transcript t
    → s ≡ t
transcript-injective (cross a) (cross b) h k l m e = ap cross (
    cross-injective a b h k
      (fields_cancel cross_signature_domain (cross_fields a) (cross_fields b) refl l m e))
transcript-injective (cross a) (master b) h k l m e = absurd (omega (arith, ap ninth e))
transcript-injective (cross a) (signed b) h k l m e = absurd (omega (arith, ap ninth e))
transcript-injective (cross a) (pq_signed b) h k l m e = absurd (omega (arith, ap ninth e))
transcript-injective (master a) (cross b) h k l m e = absurd (omega (arith, ap ninth e))
transcript-injective (master a) (master b) h k l m e = ap master (
    master-injective a b
      (fields_cancel master_signature_domain (master_fields a) (master_fields b) refl l m e))
transcript-injective (master a) (signed b) h k l m e = absurd (omega (arith, ap ninth e))
transcript-injective (master a) (pq_signed b) h k l m e = absurd (omega (arith, ap ninth e))
transcript-injective (signed a) (cross b) h k l m e = absurd (omega (arith, ap ninth e))
transcript-injective (signed a) (master b) h k l m e = absurd (omega (arith, ap ninth e))
transcript-injective (signed a) (signed b) h k l m e = ap signed (
    prekey-injective a b h k
      (fields_cancel signed_prekey_domain (prekey_fields a) (prekey_fields b) refl l m e))
transcript-injective (signed a) (pq_signed b) h k l m e = absurd (omega (arith, ap ninth e))
transcript-injective (pq_signed a) (cross b) h k l m e = absurd (omega (arith, ap ninth e))
transcript-injective (pq_signed a) (master b) h k l m e = absurd (omega (arith, ap ninth e))
transcript-injective (pq_signed a) (signed b) h k l m e = absurd (omega (arith, ap ninth e))
transcript-injective (pq_signed a) (pq_signed b) h k l m e = ap pq_signed (
    prekey-injective a b h k
      (fields_cancel pq_signed_prekey_domain (prekey_fields a) (prekey_fields b) refl l m e))

-- Two statements with integers below 2^32, whether device bundles, cross-signing identities or
-- prekeys of either kind, whose encoders return the same bytes are the same statement.
pub encode_statement-injective :
    (s t : Statement) (output : Bytes)
    → IsStatement s
    → IsStatement t
    → encode_statement s ≡ ok output
    → encode_statement t ≡ ok output
    → s ≡ t
encode_statement-injective s t output h k e f =
    let (a, l) = within_bound (transcript s) output (sym (encode_statement-transcript s) ∙ e) in
    let (b, m) = within_bound (transcript t) output (sym (encode_statement-transcript t) ∙ f) in
    transcript-injective s t h k l m (a ∙ sym b)
