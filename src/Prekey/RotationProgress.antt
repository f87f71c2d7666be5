-- ===== src/Prekey/RotationProgress.antt =====
-- prekey_state.rs: when a rotation succeeds.
use communication_platform.Base.{
  ℕ, ◌+◌, ◌^◌, ◌≤◌, ◌<◌, ◌≡◌, refl, ap, subst, ◌∙◌, Bool, false, none, List, [], ◌∷◌, length,
  length-append, arith, Result, CryptoError, ok, resource_exhausted,
}
use communication_platform.Base.Bytes.{Bytes, to_be_bytes, length-to_be_bytes}
use communication_platform.Provider.{KeyProvider}
use communication_platform.Protocol.Reads.{frame}
use communication_platform.Protocol.Writing.{written_by, written_by-Writes}
use communication_platform.DeviceSignatures.{
  from_halves, DeviceBundle, encode_signed_prekey, encode_pq_signed_prekey, encode_cross_signature,
}
use communication_platform.DeviceSignatures.Transcripts.{
  Statement, cross_fields, cross, signed, pq_signed, encode_statement, transcript, frames,
  length-frame, encode_statement-transcript,
}
use communication_platform.Prekey.{
  DeviceState, RetiredSignedPair, ik_public, prune_retired, retain_through, upload_rotation,
}
use communication_platform.Prekey.Checks.{signed_prekey}
use communication_platform.Prekey.Typed.{IsTyped, IsRetiredPair}
use communication_platform.Prekey.Live.{All-retain_through}
use communication_platform.Prekey.Identity.{parse_self_signing_secret}
use communication_platform.Prekey.Operations.{
  World, Operation, ◌>>=◌, after, return, attempt, fail_if, modify, sample,
}
use communication_platform.Prekey.Replenish.{Upload, keep_pending}
use communication_platform.Prekey.Rotation.{
  Replacement, rotated_bundle, next_numbers, next_signed_id, make_classical, make_pq,
  make_replacement, replace, publish_rotation, write_rotation, rotate_pruned, prepare_rotation,
}
use communication_platform.Prekey.RotationLaws.{prepare_rotation-free, rotate-due}
use communication_platform.Prekey.RotationSpec.{
  IsDue, Retained, none_left, kept, dropped, rotation_bytes,
}
use communication_platform.Prekey.RotationLayout.{write_rotation-Writes}
use communication_platform.Prekey.RotationCases.{too_early-IsDue, retain_through-Retained}

-- Primitives that succeed, with results of the documented sizes: X25519 on secrets of 32 bytes, and
-- signatures on messages within the bound on inputs.
pub record IsWorking {E : Type 0} (p : KeyProvider E) : Type 0 where
  pub draws :
      (n : ℕ) (e : E)
      → (xs : Bytes) × (rest : E) × (p.random_bytes n e ≡ (ok xs, rest)) × (length xs ≡ n)
  pub public_keys :
      (secret : Bytes)
      → length secret ≡ 32
      → (public : Bytes) × (p.x25519_public secret ≡ ok public) × (length public ≡ 32)
  pub pairs :
      (e : E)
      → (pair : Bytes × Bytes) × (rest : E) × (p.mlkem768_keypair e ≡ (ok pair, rest))
        × (length pair.0 ≡ 1184)
  pub signs :
      (secret message : Bytes)
      → length message ≤ 1048576
      → (signature : Bytes) × (p.signatures.ed25519_sign secret message ≡ ok signature)

-- `m` succeeds from every state and random source, with a value that has `Good`.
record Yields {E A : Type 0} (m : Operation E A) (Good : A → Type 0) : Type 0 where
  yields : (w : World E) → (a : A) × (v : World E) × (m w ≡ (ok a, v)) × Good a

module _ {E A B : Type 0} {m : Operation E A} {f : A → Operation E B} {Good : A → Type 0}
    {Last : B → Type 0} where
  bind-Yields : Yields m Good → ((a : A) → Good a → Yields (f a) Last) → Yields (m >>= f) Last
  bind-Yields t k = record {
    yields = λ w.
        let (a, v, e, g) = t.yields w in
        let (b, u, d, h) = (k a g).yields v in (b, u, ap (λ q. after q f) e ∙ d, h);
  }

module _ {E A : Type 0} (Good : A → Type 0) where
  return-Yields : (a : A) → Good a → Yields {E = E} (return a) Good
  return-Yields a g = record { yields = λ w. (a, w, refl, g) }

  attempt-Yields : (x : Result A) (a : A) → x ≡ ok a → Good a → Yields {E = E} (attempt x) Good
  attempt-Yields x a e g = record { yields = λ w. (a, w, rw e refl, g) }

  sample-Yields :
      (draw : E → Result A × E)
      → ((e : E) → (a : A) × (rest : E) × (draw e ≡ (ok a, rest)) × Good a)
      → Yields (sample draw) Good
  sample-Yields draw k = record {
    yields =
        λ w. let (a, rest, e, g) = k w.entropy in (a, record w { entropy = rest }, rw e refl, g);
  }

abbrev Any : {A : Type 0} → A → Type 0
Any a = Unit {0}

modify-Yields :
    {E : Type 0} (change : DeviceState → DeviceState) → Yields {E = E} (modify change) Any
modify-Yields change = record { yields = λ w. (tt, _, refl, tt) }

fail_if-Yields :
    {E : Type 0} (b : Bool) (e : CryptoError) → b ≡ false → Yields {E = E} (fail_if b e) Any
fail_if-Yields b e h = record { yields = λ w. (tt, w, rw h refl, tt) }

-- The size of fields in a row.
abbrev total : List Bytes → ℕ
total [] = 0
total (value ∷ values) = 4 + length value + total values

length-frames : (values : List Bytes) → length (frames values) ≡ total values
length-frames [] = refl
length-frames (value ∷ values) =
    omega
      (arith, length-append (frame value) (frames values), length-frame value, length-frames values)

statement_fits :
    (s : Statement) → length (transcript s) ≤ 1048576 → encode_statement s ≡ ok (transcript s)
statement_fits s h = encode_statement-transcript s ∙ ground arith

prekey_fits :
    (user_id public : Bytes) (id : ℕ)
    → length user_id ≡ 16
    → length public ≤ 1184
    → (encode_signed_prekey (signed_prekey user_id id public)
        ≡ ok (transcript (signed (signed_prekey user_id id public))))
      × (length (transcript (signed (signed_prekey user_id id public))) ≤ 1048576)
      × (encode_pq_signed_prekey (signed_prekey user_id id public)
          ≡ ok (transcript (pq_signed (signed_prekey user_id id public))))
      × (length (transcript (pq_signed (signed_prekey user_id id public))) ≤ 1048576)
unfolding encode_statement
prekey_fits user_id public id h k =
    let fields = length-frames (user_id ∷ to_be_bytes 4 id ∷ public ∷ []) in
    let four = length-to_be_bytes 4 id in
    let small : length (transcript (signed (signed_prekey user_id id public))) ≤ 1048576 =
      omega (arith, fields, four) in
    let small_pq : length (transcript (pq_signed (signed_prekey user_id id public))) ≤ 1048576 =
      omega (arith, fields, four) in
    (
      statement_fits (signed (signed_prekey user_id id public)) small,
      small,
      statement_fits (pq_signed (signed_prekey user_id id public)) small_pq,
      small_pq,
    )

bundle_fits :
    (b : DeviceBundle)
    → total (cross_fields b) ≤ 1048000
    → (encode_cross_signature b ≡ ok (transcript (cross b)))
      × (length (transcript (cross b)) ≤ 1048576)
unfolding encode_statement
bundle_fits b h =
    let small : length (transcript (cross b)) ≤ 1048576 =
      omega (arith, length-frames (cross_fields b)) in
    (statement_fits (cross b) small, small)

keep_pending-Yields :
    {E : Type 0} (batch_id projection : Bytes)
    → Yields {E = E} (keep_pending upload_rotation batch_id projection) Any
unfolding keep_pending
keep_pending-Yields batch_id projection = record { yields = λ w. (_, _, refl, tt) }

module _ {E : Type 0} (p : KeyProvider E) (works : IsWorking p) (day : ℕ) (s : DeviceState)
    (typed : IsTyped s) where
  make_classical-Yields :
      (id : ℕ) → Yields (make_classical p day s id) (λ key. length key.public ≡ 32)
  unfolding make_classical
  make_classical-Yields id =
      bind-Yields
        (sample-Yields (λ secret. length secret ≡ 32) (p.random_bytes 32) (works.draws 32))
        λ secret h.
          let (public, e, k) = works.public_keys secret h in
          bind-Yields (attempt-Yields (λ a. length a ≡ 32) (p.x25519_public secret) public e k)
            λ a l.
              let (written, small, other, other_small) =
                prekey_fits s.user_id a id typed.user_id_size (omega arith) in
              bind-Yields (attempt-Yields (λ message. length message ≤ 1048576) _ _ written small)
                λ message m.
                  let (signature, d) = works.signs s.device_signing_secret message m in
                  bind-Yields (attempt-Yields Any _ signature d tt)
                    λ b any. return-Yields (λ key. length key.public ≡ 32) _ l

  make_pq-Yields : (id : ℕ) → Yields (make_pq p day s id) (λ key. length key.public ≡ 1184)
  unfolding make_pq
  make_pq-Yields id =
      bind-Yields (sample-Yields (λ pair. length pair.0 ≡ 1184) p.mlkem768_keypair works.pairs)
        λ pair l.
          let (one, two, written, small) =
            prekey_fits s.user_id pair.0 id typed.user_id_size (omega arith) in
          bind-Yields (attempt-Yields (λ message. length message ≤ 1048576) _ _ written small)
            λ message m.
              let (signature, d) = works.signs s.device_signing_secret message m in
              bind-Yields (attempt-Yields Any _ signature d tt)
                λ b any. return-Yields (λ key. length key.public ≡ 1184) _ l

  make_replacement-Yields :
      (secret device_id : Bytes) (spk_id pq_id version : ℕ)
      → length device_id ≡ 16
      → Yields (make_replacement p secret device_id day s spk_id pq_id version) Any
  unfolding make_replacement ik_public from_halves
  make_replacement-Yields secret device_id spk_id pq_id version hd =
      bind-Yields (make_classical-Yields spk_id) λ classical l.
        bind-Yields (make_pq-Yields pq_id) λ pq k.
          let (written, small) =
            bundle_fits (rotated_bundle s device_id spk_id classical.public pq_id pq.public version)
              (omega (
                arith,
                typed.user_id_size,
                typed.signing_public_size,
                typed.identity_public_size,
                length-append s.device_signing_public s.identity_public,
                length-to_be_bytes 4 spk_id,
                length-to_be_bytes 4 pq_id,
                length-to_be_bytes 4 s.registration_id,
                length-to_be_bytes 4 version,
              )) in
          bind-Yields (attempt-Yields (λ message. length message ≤ 1048576) _ _ written small)
            λ message m.
              let (signature, d) = works.signs secret message m in
              bind-Yields (attempt-Yields Any _ signature d tt) λ b any. return-Yields Any _ tt

  publish_rotation-Yields : (new : Replacement) → Yields (publish_rotation p day new) Any
  unfolding publish_rotation
  publish_rotation-Yields new =
      bind-Yields
        {f = λ u. sample (p.random_bytes 16) >>= λ batch_id.
          attempt (written_by (write_rotation batch_id new))
          >>= keep_pending upload_rotation batch_id}
        (modify-Yields (replace day new))
        λ u any. bind-Yields (sample-Yields Any (p.random_bytes 16) drawn) λ batch_id any'.
          bind-Yields
            (attempt-Yields Any _ (rotation_bytes batch_id new)
              (written_by-Writes (write_rotation-Writes batch_id new)) tt)
            λ projection any''. keep_pending-Yields batch_id projection
    where
      drawn : (e : E) → (a : Bytes) × (rest : E) × (p.random_bytes 16 e ≡ (ok a, rest)) × Any a
      drawn e = let (xs, rest, d, l) = works.draws 16 e in (xs, rest, d, tt)

next_numbers-fits :
    (s : DeviceState)
    → s.current_classical.id < 2147483647
    → s.current_pq.id < 2147483647
    → s.bundle_version + 1 < 2 ^ 32
    → next_numbers s ≡ ok (s.current_classical.id + 1, s.current_pq.id + 1, s.bundle_version + 1)
unfolding next_numbers next_signed_id
next_numbers-fits s h k l = ground arith

-- Two lists that are left of the same pairs are the same.
Retained-unique :
    (day : ℕ) {pairs left other : List RetiredSignedPair}
    → Retained day pairs left
    → Retained day pairs other
    → left ≡ other
Retained-unique day none_left none_left = refl
Retained-unique day (kept {pair} l h) (kept k g) = ap (λ xs. pair ∷ xs) (Retained-unique day h g)
Retained-unique day (kept l h) (dropped k g) = absurd (omega arith)
Retained-unique day (dropped l h) (kept k g) = absurd (omega arith)
Retained-unique day (dropped l h) (dropped k g) = Retained-unique day h g

module _ {E : Type 0} (p : KeyProvider E) (works : IsWorking p) (identity_package device_id : Bytes)
    (day : ℕ) (s : DeviceState) (typed : IsTyped s) where
  rotate_pruned-Yields :
      (secret : Bytes)
      → length (retain_through day s.retired) < 3
      → parse_self_signing_secret p identity_package s.user_id ≡ ok secret
      → length device_id ≡ 16
      → s.current_classical.id < 2147483647
      → s.current_pq.id < 2147483647
      → s.bundle_version + 1 < 2 ^ 32
      → Yields (rotate_pruned p identity_package device_id day (prune_retired day s)) Any
  unfolding rotate_pruned prune_retired
  rotate_pruned-Yields secret few parsed hd hc hq hv =
      bind-Yields
        {f = λ u. attempt (parse_self_signing_secret p identity_package s.user_id) >>= rest}
        (fail_if-Yields _ resource_exhausted (ground arith))
        λ u any. bind-Yields {f = rest} (attempt-Yields Any _ secret parsed tt) λ a any'.
          bind-Yields (attempt-Yields Any _ _ numbers tt) λ three any''.
            bind-Yields
              (make_replacement-Yields p works day (prune_retired day s) pruned a device_id three.0
                three.1 three.2 hd)
              λ new last. publish_rotation-Yields p works day (prune_retired day s) pruned new
    where
      pruned : IsTyped (prune_retired day s)
      pruned =
          ground (arith, typed, All-retain_through IsRetiredPair day s.retired typed.retired_typed)

      numbers :
          next_numbers (prune_retired day s)
          ≡ ok (s.current_classical.id + 1, s.current_pq.id + 1, s.bundle_version + 1)
      numbers = next_numbers-fits (prune_retired day s) hc hq hv

      rest : Bytes → Operation E Upload
      rest self_signing_secret = attempt (next_numbers (prune_retired day s)) >>= λ three.
          make_replacement p self_signing_secret device_id day (prune_retired day s) three.0 three.1
            three.2
          >>= publish_rotation p day

-- With primitives that succeed, from a well-formed state with nothing pending and both current keys
-- due, of which fewer than three retired pairs are retained on the day and whose identifiers and
-- version can be counted on, and with an identity package that parses and a device identifier of 16
-- bytes, a rotation succeeds.
pub prepare_rotation-succeeds :
    {E : Type 0} (p : KeyProvider E) (identity_package device_id secret : Bytes) (day : ℕ)
    (left : List RetiredSignedPair) (w : World E)
    → IsWorking p
    → IsTyped w.device
    → w.device.pending ≡ none
    → IsDue day w.device
    → Retained day w.device.retired left
    → length left < 3
    → parse_self_signing_secret p identity_package w.device.user_id ≡ ok secret
    → length device_id ≡ 16
    → w.device.current_classical.id < 2147483647
    → w.device.current_pq.id < 2147483647
    → w.device.bundle_version + 1 < 2 ^ 32
    → (upload : Upload) × (v : World E) × (prepare_rotation p identity_package device_id day w
        ≡ (ok upload, v))
prepare_rotation-succeeds p identity_package device_id secret day left w works typed free due
      retained few parsed hd hc hq hv =
    let same = Retained-unique day retained (retain_through-Retained day w.device.retired) in
    let room : length (retain_through day w.device.retired) < 3 =
      subst (λ pairs. length pairs < 3) same few in
    let (upload, v, e, any) =
      (rotate_pruned-Yields p works identity_package device_id day w.device typed secret room parsed
          hd hc hq hv).yields
        (record w { device = prune_retired day w.device }) in
    (
      upload,
      v,
      prepare_rotation-free p identity_package device_id day w free
          ∙ rotate-due p identity_package device_id day w (too_early-IsDue day w.device due)
          ∙ e,
    )
