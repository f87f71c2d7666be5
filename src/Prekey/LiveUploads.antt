-- ===== src/Prekey/LiveUploads.antt =====
-- prekey_state.rs: a replenishment keeps a device live, with each of its results.
use communication_platform.Base.{
  ℕ, ◌+◌, ◌-◌, ◌^◌, ◌≤◌, ◌<◌, ◌≡◌, refl, sym, subst, ◌∙◌, Option-cases, inl, inr, some, List, [],
  ◌∷◌, ◌++◌, length, length-append, arith, Result, CryptoError, ok, invalid_argument,
  resource_exhausted, false,
}
use communication_platform.Base.Bytes.{Bytes, to_be_bytes, length-to_be_bytes}
use communication_platform.Provider.{KeyProvider}
use communication_platform.Protocol.Repeat.{bytes_of_all, write_each-Writes}
use communication_platform.Protocol.Writing.{
  Writes, written_by, written_by-Writes, extend-Writes, then-Writes, push_u16, push_u16-Writes,
  push_u32-Writes, with_value-Writes,
}
use communication_platform.Prekey.{
  DeviceState, PendingUpload, ik_public, upload_magic, upload_replenish,
}
use communication_platform.Prekey.Operations.{World, ◌>>=◌, ◌>>◌, modify}
use communication_platform.Prekey.Replenish.{
  Generated, write_generated, write_replenishment, keep_pending, generate_pq, generate, too_many,
  no_room, check_room, publish, sort_one_time, replenish, prepare_replenishment,
}
use communication_platform.Prekey.Typed.{max_projection_bytes, length-bytes_of_all, IsUpload}
use communication_platform.Prekey.Live.{IsLive, sort_one_time-IsLive}
use communication_platform.Prekey.LiveKeys.{
  IsHonest, AreMade, generate_classical_all-Gives, generate_pq_all-Gives,
}
use communication_platform.Prekey.Triples.{
  Triple, Gives, bind-Triple, keep-Triple, fail_if-Triple, attempt-cases, sample-cases,
  fail_if-cases,
}

abbrev generated_bytes : Generated → Bytes
generated_bytes key = to_be_bytes 4 key.id ++ key.public

abbrev replenishment_bytes : Bytes → ℕ → List Generated → List Generated → Bytes
replenishment_bytes batch_id version classical pq =
    upload_magic
    ++ (batch_id
        ++ ((upload_replenish ∷ [])
            ++ (to_be_bytes 4 version
                ++ (to_be_bytes 2 (length classical)
                    ++ (bytes_of_all generated_bytes classical
                        ++ (to_be_bytes 2 (length pq) ++ bytes_of_all generated_bytes pq))))))

write_generated-Writes : (key : Generated) → Writes (write_generated key) (generated_bytes key)
unfolding write_generated
write_generated-Writes key = then-Writes (push_u32-Writes _) (extend-Writes _)

write_replenishment-Writes :
    (batch_id : Bytes) (version : ℕ) (classical pq : List Generated)
    → length classical < 256 ^ 2
    → length pq < 256 ^ 2
    → Writes
        (write_replenishment batch_id version classical pq)
        (replenishment_bytes batch_id version classical pq)
unfolding write_replenishment
write_replenishment-Writes batch_id version classical pq hc hq = then-Writes (extend-Writes _) (
    then-Writes (extend-Writes _) (
      then-Writes (extend-Writes _) (
        then-Writes (push_u32-Writes _) (
          then-Writes (with_value-Writes push_u16 (ground arith) (push_u16-Writes _)) (
            then-Writes
              (write_each-Writes generated_bytes write_generated write_generated-Writes classical)
              (then-Writes (with_value-Writes push_u16 (ground arith) (push_u16-Writes _))
                (write_each-Writes generated_bytes write_generated write_generated-Writes pq)))))))

length-generated_bytes :
    (size : ℕ) (key : Generated)
    → length key.public ≡ size
    → length (generated_bytes key) ≡ 4 + size
length-generated_bytes size key h =
    omega (arith, length-append (to_be_bytes 4 key.id) key.public, length-to_be_bytes 4 key.id)

module _ {n m : ℕ} (batch_id : Bytes) (version : ℕ) (classical pq : List Generated)
    (sized : length batch_id ≡ 16) (made : AreMade n 32 classical) (made_pq : AreMade m 1184 pq)
    (few : n ≤ 200) (few_pq : m ≤ 100) where
  length-replenishment_bytes :
      length (replenishment_bytes batch_id version classical pq) ≤ max_projection_bytes
  length-replenishment_bytes =
      let keys = bytes_of_all generated_bytes classical in
      let pq_keys = bytes_of_all generated_bytes pq in
      omega (
        arith,
        sized,
        made.0,
        made_pq.0,
        length-bytes_of_all generated_bytes (λ key. length key.public ≡ 32) 36
            (length-generated_bytes 32) classical made.1,
        length-bytes_of_all generated_bytes (λ key. length key.public ≡ 1184) 1188
            (length-generated_bytes 1184) pq made_pq.1,
        length-append (to_be_bytes 2 (length pq)) pq_keys,
        length-to_be_bytes 2 (length pq),
        length-to_be_bytes 2 (length classical),
        length-to_be_bytes 4 version,
        length-append keys (to_be_bytes 2 (length pq) ++ pq_keys),
        length-append (to_be_bytes 2 (length classical))
            (keys ++ (to_be_bytes 2 (length pq) ++ pq_keys)),
        length-append (to_be_bytes 4 version)
            (to_be_bytes 2 (length classical) ++ (keys ++ (to_be_bytes 2 (length pq) ++ pq_keys))),
        length-append batch_id (
            (upload_replenish ∷ [])
            ++ (to_be_bytes 4 version
                ++ (to_be_bytes 2 (length classical)
                    ++ (keys ++ (to_be_bytes 2 (length pq) ++ pq_keys))))),
      )

  projection_fits :
      (projection : Bytes)
      → written_by (write_replenishment batch_id version classical pq) ≡ ok projection
      → length projection ≤ max_projection_bytes
  projection_fits projection e =
      let w = written_by-Writes (
        write_replenishment-Writes batch_id version classical pq (omega (arith, made.0))
          (omega (arith, made_pq.0))) in
      let same : replenishment_bytes batch_id version classical pq ≡ projection = cc (sym w ∙ e) in
      subst (λ xs. length xs ≤ max_projection_bytes) same length-replenishment_bytes

pub set_pending-IsLive :
    {E : Type 0} (p : KeyProvider E) (pending : PendingUpload) (s : DeviceState)
    → IsLive p s
    → IsUpload pending
    → IsLive p (record s { pending = some pending })
unfolding ik_public
set_pending-IsLive p pending s h u = ground (arith, h, u)

module _ {E : Type 0} (p : KeyProvider E) (honest : IsHonest p) where
  abbrev Stays : {A : Type 0} → Result A → DeviceState → Type 0
  Stays x s = IsLive p s

  check_room-Stays : (c q : ℕ) → Triple {E = E} (IsLive p) (check_room c q) Stays
  unfolding check_room
  check_room-Stays c q = record {
    holds = λ w h.
        (fail_if-Triple {E = E} (IsLive p) (no_room c q w.device) resource_exhausted).holds w h;
  }

  publish-Stays :
      {n m : ℕ} (batch_id : Bytes) (classical pq : List Generated)
      → length batch_id ≡ 16
      → AreMade n 32 classical
      → AreMade m 1184 pq
      → n ≤ 200
      → m ≤ 100
      → Triple {E = E} (IsLive p) (publish batch_id classical pq) Stays
  unfolding publish keep_pending
  publish-Stays batch_id classical pq hb hc hq ln lm = record {
    holds = λ w.
        (attempt-cases {f = keep_pending upload_replenish batch_id} (IsLive p) Stays
            (written_by (write_replenishment batch_id w.device.bundle_version classical pq))
            (λ projection e.
              let u : IsUpload (record {
                batch_id = batch_id;
                kind = upload_replenish;
                exact_projection = projection;
              }) =
                record {
                  kind_known = inl refl;
                  batch_id_size = hb;
                  projection_fits =
                      projection_fits batch_id w.device.bundle_version classical pq hb hc hq ln lm
                        projection e;
                } in
              record { holds = λ v h. set_pending-IsLive p _ v.device h u })
            (λ e s h. h)).holds
          w;
  }

  few_keys : (sc sq tc tq : ℕ) → too_many sc sq tc tq ≡ false → (tc - sc ≤ 200) × (tq - sq ≤ 100)
  unfolding too_many
  few_keys sc sq tc tq h = ground arith

  replenish-Stays : (sc sq tc tq : ℕ) → Triple (IsLive p) (replenish p sc sq tc tq) Stays
  unfolding replenish
  replenish-Stays sc sq tc tq =
      fail_if-cases (IsLive p) Stays (too_many sc sq tc tq) invalid_argument
        (λ within.
          keep-Triple (check_room (tc - sc) (tq - sq)) _ (IsLive p) Stays
            (check_room-Stays (tc - sc) (tq - sq))
            (λ u.
              sample-cases (IsLive p) Stays (p.random_bytes 16)
                (λ batch_id e drawn.
                  bind-Triple _ _ (Gives (IsLive p) (AreMade (tc - sc) 32)) Stays
                    (generate_classical_all-Gives p honest (tc - sc))
                    (λ classical.
                      made_then within batch_id classical (honest.draws 16 e batch_id drawn))
                    stays)
                stays)
            stays)
        (λ s h. h)
    where
      stays : (e : CryptoError) (s : DeviceState) → IsLive p s → IsLive p s
      stays e s h = h

      made_then :
          too_many sc sq tc tq ≡ false
          → (batch_id : Bytes) (classical : List Generated) → length batch_id ≡ 16
          → Triple
              (λ s. IsLive p s × AreMade (tc - sc) 32 classical)
              (generate (tq - sq) (generate_pq p) >>= λ pq.
                modify sort_one_time >> publish batch_id classical pq)
              Stays
      made_then within batch_id classical hb =
          let few = few_keys sc sq tc tq within in
          record {
            holds = λ w h.
                (bind-Triple _ _ (Gives (IsLive p) (AreMade (tq - sq) 1184)) Stays
                    (generate_pq_all-Gives p honest (tq - sq))
                    (λ pq. record {
                      holds = λ v k.
                          (publish-Stays batch_id classical pq hb h.1 k.1 few.0 few.1).holds
                            (record v { device = sort_one_time v.device })
                            (sort_one_time-IsLive p v.device k.0);
                    })
                    stays).holds
                  w h.0;
          }

  -- A replenishment keeps a device live, with each of its results.
  pub prepare_replenishment-IsLive :
      (sc sq tc tq : ℕ) (w : World E)
      → IsLive p w.device
      → IsLive p (prepare_replenishment p sc sq tc tq w).1.device
  unfolding prepare_replenishment
  prepare_replenishment-IsLive sc sq tc tq w h = elim (Option-cases w.device.pending) [
    | inl free ↦ rw (free, prepare_replenishment) ((replenish-Stays sc sq tc tq).holds w h)
    | inr (pending, busy) ↦ rw (busy, prepare_replenishment) h
  ]
