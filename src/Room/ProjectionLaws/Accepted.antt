-- ===== src/Room/ProjectionLaws/Accepted.antt =====
-- room_control.rs: a projection frame that the reader accepts is the one frame of its value.
use communication_platform.Base.{
  ℕ, zero, suc, ◌≡◌, refl, not, Option, none, some, List, [], ◌∷◌, ◌++◌, length, All, ltb, ◌==◌,
  arith, ok, append-nil, >>=-eq-ok,
}
use communication_platform.Base.Bytes.{Bytes, IsArray, IsBytes}
use communication_platform.Base.Text.{IsText, is_utf8, char_count}
use communication_platform.Protocol.Framing.{◌>>=◌, u8}
use communication_platform.Protocol.Reads.{frame}
use communication_platform.Protocol.Accepts.{
  Accepts, weaken, bind-Accepts, pure-Accepts, guard-Accepts, build-Accepts, match-Accepts,
  fail-Accepts, run-Accepts,
}
use communication_platform.Protocol.Fields.{
  array-Accepts, u8-Accepts, u16-Accepts, u32-Accepts, u64-Accepts, framed-Accepts,
}
use communication_platform.Protocol.Writing.{written_by, written_by-Writes}
use communication_platform.Room.{
  RoomControl, ControlBody, create, add_members, remove_member, rename, kind, room_control_version,
  IsTyped, IsTypedBody, IsTypedHash, validate, max_name_bytes, max_name_scalars, kind_create,
  kind_add_members, kind_remove_member, kind_rename,
}
use communication_platform.Room.Projection.{encode_projection}
use communication_platform.Room.ProjectionReader.{
  projection_text, arrays, projection_user_ids, read_hash, read_create, read_add_members,
  read_remove_member, read_rename, read_body, read_control, validated, decode_projection,
}
use communication_platform.Room.ProjectionLaws.{
  joined, counted, hash_bytes, body_bytes, projection, encode_projection-Writes, body-IsShort,
}
use communication_platform.Room.Validity.{validate_iff}

IsNameFrame : Bytes → Bytes → Type 0
IsNameFrame name xs = (xs ≡ frame name) × IsText name

projection_text-Accepts : Accepts projection_text IsNameFrame
unfolding projection_text IsNameFrame
projection_text-Accepts =
    weaken IsNameFrame
      (bind-Accepts _ framed-Accepts λ bytes. guard-Accepts (ltb max_name_bytes (length bytes)) _ (
        guard-Accepts (not (is_utf8 bytes)) _
          (guard-Accepts (ltb max_name_scalars (char_count bytes)) _ (pure-Accepts bytes))))
      λ name xs (bytes, ys, zs, s, (f, h, l), (a, (b, (c, (z, e))))). (
        ground (arith, append-nil (frame bytes)),
        rw e (record { bytes = h; valid = ground arith }),
      )

arrays-Accepts :
    (n : ℕ) → Accepts (arrays n) (λ xs ys. (ys ≡ joined xs) × All (IsArray 16) xs × (length xs ≡ n))
unfolding arrays
arrays-Accepts zero = weaken _ (pure-Accepts []) λ xs ys (z, e). rw (z, e) (refl, tt, refl)
arrays-Accepts (suc n) =
    weaken _
      (bind-Accepts _ (array-Accepts 16) λ x. build-Accepts (λ xs. x ∷ xs) (arrays-Accepts n))
      λ xs ys (x, us, vs, s, (f, h), (t, (g, i, l), e)).
        rw (s, f, g, e) (refl, (h, i), omega (arith, l))

IsCounted : List Bytes → Bytes → Type 0
IsCounted user_ids xs = (xs ≡ counted user_ids) × All (IsArray 16) user_ids

projection_user_ids-Accepts : (maximum : ℕ) → Accepts (projection_user_ids maximum) IsCounted
unfolding projection_user_ids IsCounted
projection_user_ids-Accepts maximum =
    weaken IsCounted
      (bind-Accepts _ u16-Accepts λ n. guard-Accepts (ltb maximum n) _ (arrays-Accepts n))
      λ user_ids xs (n, us, vs, s, (f, l), (g, (h, i, e))). (rw (s, f, h, e) refl, i)

IsHash : Option Bytes → Bytes → Type 0
IsHash hash xs = (xs ≡ hash_bytes hash) × IsTypedHash hash

read_hash-Accepts : (tag : ℕ) → Accepts (read_hash tag) (λ hash xs. IsHash hash (tag ∷ xs))
unfolding read_hash IsHash
read_hash-Accepts tag =
    match-Accepts tag 0 (λ h. weaken _ (pure-Accepts none) λ o xs (z, e). rw (z, e, h) (refl, tt))
      (match-Accepts tag 1
        (λ h.
          weaken _ (build-Accepts some (array-Accepts 32))
            λ o xs (hash, (f, t), e). rw (f, e, h) (refl, t))
        (fail-Accepts _))

IsBodyFrame : ℕ → ControlBody → Bytes → Type 0
IsBodyFrame tag body xs = (tag ≡ kind body) × (xs ≡ body_bytes body) × IsTypedBody body

read_body-Accepts : (tag : ℕ) → Accepts (read_body tag) (IsBodyFrame tag)
unfolding read_body read_create read_add_members read_remove_member read_rename IsBodyFrame
    IsNameFrame IsCounted kind
read_body-Accepts tag =
    match-Accepts tag kind_create
      (λ h.
        weaken _
          (bind-Accepts _ projection_text-Accepts
            λ name. build-Accepts (create name) (projection_user_ids-Accepts _))
          λ body xs (name, ys, zs, s, (f, t), (user_ids, (g, i), e)).
            rw (h, s, f, g, e) (refl, refl, (t, i)))
      (match-Accepts tag kind_add_members
        (λ h.
          weaken _ (build-Accepts add_members (projection_user_ids-Accepts _))
            λ body xs (user_ids, (g, i), e). rw (h, g, e) (refl, refl, i))
        (match-Accepts tag kind_remove_member
          (λ h.
            weaken _ (build-Accepts remove_member (array-Accepts 16))
              λ body xs (user_id, (f, t), e). rw (h, f, e) (refl, refl, t))
          (match-Accepts tag kind_rename
            (λ h.
              weaken _ (build-Accepts rename projection_text-Accepts)
                λ body xs (name, (f, t), e). rw (h, f, e) (refl, refl, t))
            (fail-Accepts _))))

IsControl : RoomControl → Bytes → Type 0
IsControl c xs = (xs ≡ projection c) × IsTyped c

u8-read_hash-Accepts : Accepts (u8 >>= read_hash) IsHash
unfolding IsHash
u8-read_hash-Accepts =
    weaken _ (bind-Accepts read_hash u8-Accepts read_hash-Accepts)
      λ o xs (tag, ys, zs, s, (f, b), (g, t)). (rw (s, f) g, t)

IsTaggedBody : ControlBody → Bytes → Type 0
IsTaggedBody body xs = (xs ≡ (kind body ∷ []) ++ body_bytes body) × IsTypedBody body

body-Accepts : Accepts (u8 >>= read_body) IsTaggedBody
unfolding IsBodyFrame IsTaggedBody
body-Accepts =
    weaken _ (bind-Accepts read_body u8-Accepts read_body-Accepts)
      λ body xs (tag, ys, zs, s, (f, b), (k, g, t)). (rw (s, f, k, g) refl, t)

read_control-Accepts : Accepts read_control IsControl
unfolding read_control IsControl IsHash IsTaggedBody
read_control-Accepts =
    weaken _
      (bind-Accepts _ u8-Accepts λ version.
        guard-Accepts (not (version == room_control_version)) _ (
          bind-Accepts _ (array-Accepts 16) λ event_id. bind-Accepts _ (array-Accepts 32) λ room_id.
            bind-Accepts _ u32-Accepts λ revision. bind-Accepts _ u8-read_hash-Accepts λ hash.
              bind-Accepts _ (array-Accepts 16) λ signer_user_id.
                bind-Accepts _ (array-Accepts 16) λ signer_device_id.
                  bind-Accepts _ u64-Accepts λ created_ms. build-Accepts _ body-Accepts))
      λ c xs
          (
            v,
            y1,
            z1,
            s1,
            (f1, b1),
            (
              hv,
              (
                i,
                y2,
                z2,
                s2,
                (f2, t2),
                (
                  r,
                  y3,
                  z3,
                  s3,
                  (f3, t3),
                  (
                    n,
                    y4,
                    z4,
                    s4,
                    (f4, t4),
                    (
                      p,
                      y5,
                      z5,
                      s5,
                      (f5, t5),
                      (
                        u,
                        y6,
                        z6,
                        s6,
                        (f6, t6),
                        (d, y7, z7, s7, (f7, t7), (m, y8, z8, s8, (f8, t8), (b, (fb, tb), e))),
                      ),
                    ),
                  ),
                ),
              ),
            ),
          ).
        let version : v ≡ room_control_version = ground arith in
        (
          rw (s1, f1, version, s2, f2, s3, f3, s4, f4, s5, f5, s6, f6, s7, f7, s8, f8, fb, e) refl,
          rw e (record {
            event_id_typed = t2;
            room_id_typed = t3;
            revision_typed = t4;
            hash_typed = t5;
            signer_user_id_typed = t6;
            signer_device_id_typed = t7;
            created_ms_typed = t8;
            body_typed = tb;
          }),
        )

-- A frame of bytes that `decode_projection` accepts gives an event of Rust's types that `validate`
-- accepts, and `encode_projection` returns exactly that frame for it.
pub encode_projection-decode_projection :
    (input : Bytes) (c : RoomControl)
    → IsBytes input
    → decode_projection input ≡ ok c
    → IsTyped c × (validate c ≡ ok tt) × (written_by (encode_projection c) ≡ ok input)
unfolding decode_projection validated IsControl
encode_projection-decode_projection input c h g =
    let (a, (e, t), k) = run-Accepts read_control validated input read_control-Accepts h g in
    let (u, v, w) = >>=-eq-ok (validate a) (λ _. ok a) k in
    let same : a ≡ c = cc in
    rw (← same) (
      t,
      v,
      rw e (
          written_by-Writes (
            encode_projection-Writes a
              (body-IsShort a.signer_user_id a.body ((validate_iff a).0 v).6))),
    )
