-- ===== src/Prekey/Growth.antt =====
-- prekey_state.rs: the making of one-time keys keeps the invariant, on each path.
use communication_platform.Base.{
  ℕ, zero, suc, ◌-◌, ◌≤◌, ◌≡◌, refl, Bool-cases, Option-cases, inl, inr, List, [], ◌∷◌,
  length-append, arith, Result, ok, err, CryptoError,
}
use communication_platform.Base.Bytes.{Bytes}
use communication_platform.Protocol.Writing.{written_by}
use communication_platform.Provider.{KeyProvider}
use communication_platform.Prekey.{upload_replenish, OneTimeKey, DeviceState}
use communication_platform.Prekey.Operations.{World, Operation, ◌>>=◌, ◌>>◌, modify, sample}
use communication_platform.Prekey.Replenish.{
  next_classical_id, next_pq_id, push_classical, push_pq, sort_one_time,
}
use communication_platform.Prekey.Ids.{
  Ascends, Ascends-snoc, Ascends-wider, mark, take_next_id-mark, sort_by_id-Ascends, History-moved,
  History-snoc,
}
use communication_platform.Prekey.Soundness.{HasRoom, IsSound, HasRoom-less}
use communication_platform.Prekey.Triples.{
  Triple, return-Triple, fail_if-Triple, modify-Triple, sample-Triple, bind-Triple, keep-Triple,
  attempt-Keeps,
}
use communication_platform.Prekey.Replenish.{
  Generated, generate_classical, generate_pq, generate, publish, replenish, prepare_replenishment,
  check_room, no_room, too_many, keep_pending, write_replenishment,
}

-- The state between the taking of an identifier and the key that gets it.
pub record Taken (base : DeviceState) (c q id : ℕ) (s : DeviceState) : Type 0 where
  pub room : HasRoom base c q s
  pub before : Ascends OneTimeKey.id 0 s.classical_one_time id
  pub late : mark base.next_classical_one_time_id ≤ id
  pub marked : mark s.next_classical_one_time_id ≡ suc id

pub record TakenPq (base : DeviceState) (c q id : ℕ) (s : DeviceState) : Type 0 where
  pub room : HasRoom base c q s
  pub before : Ascends OneTimeKey.id 0 s.pq_one_time id
  pub late : mark base.next_pq_one_time_id ≤ id
  pub marked : mark s.next_pq_one_time_id ≡ suc id

abbrev AfterId :
    DeviceState → ℕ → ℕ → (ℕ → ℕ → ℕ → DeviceState → Type 0) → Result ℕ → DeviceState → Type 0
AfterId base c q P (ok id) s = P c q id s
AfterId base c q P (err e) s = HasRoom base c q s

next_classical_id-Triple :
    {E : Type 0} (base : DeviceState) (c q : ℕ)
    → Triple {E = E} (HasRoom base c q) next_classical_id (AfterId base c q (Taken base))
unfolding next_classical_id
next_classical_id-Triple {E} base c q = record { holds = each }
  where
    each :
        (w : World E)
        → HasRoom base c q w.device
        → AfterId base c q (Taken base) (next_classical_id w).0 (next_classical_id w).1.device
    each w h = elim (take_next_id-mark w.device.next_classical_one_time_id h.classical_next) [
      | inl (refused, full) ↦ rw (refused, next_classical_id) h
      | inr (high_water, taken, fits, moved, next) ↦
          rw (taken, next_classical_id)
            (record {
              room = ground (
                arith,
                h,
                next,
                Ascends-wider OneTimeKey.id w.device.classical_one_time 0 0
                    (mark w.device.next_classical_one_time_id) (mark high_water) h.classical_ascends
                    (omega arith) (omega arith),
                History-moved h.classical_history high_water (omega arith),
              );
              before = h.classical_ascends;
              late = h.classical_history.grown;
              marked = moved;
            })
    ]

next_pq_id-Triple :
    {E : Type 0} (base : DeviceState) (c q : ℕ)
    → Triple {E = E} (HasRoom base c q) next_pq_id (AfterId base c q (TakenPq base))
unfolding next_pq_id
next_pq_id-Triple {E} base c q = record { holds = each }
  where
    each :
        (w : World E)
        → HasRoom base c q w.device
        → AfterId base c q (TakenPq base) (next_pq_id w).0 (next_pq_id w).1.device
    each w h = elim (take_next_id-mark w.device.next_pq_one_time_id h.pq_next) [
      | inl (refused, full) ↦ rw (refused, next_pq_id) h
      | inr (high_water, taken, fits, moved, next) ↦
          rw (taken, next_pq_id)
            (record {
              room = ground (
                arith,
                h,
                next,
                Ascends-wider OneTimeKey.id w.device.pq_one_time 0 0
                    (mark w.device.next_pq_one_time_id) (mark high_water) h.pq_ascends (omega arith)
                    (omega arith),
                History-moved h.pq_history high_water (omega arith),
              );
              before = h.pq_ascends;
              late = h.pq_history.grown;
              marked = moved;
            })
    ]

push_classical-HasRoom :
    {base : DeviceState} {c q id : ℕ} (key : OneTimeKey) (s : DeviceState)
    → key.id ≡ id
    → Taken base (suc c) q id s
    → HasRoom base c q (push_classical key s)
push_classical-HasRoom key s e t = ground (
  arith,
  t.room,
  Ascends-snoc OneTimeKey.id s.classical_one_time 0 key.id (mark s.next_classical_one_time_id) key
      (rw e t.before) (omega arith) (omega (arith, t.marked)),
  length-append s.classical_one_time (key ∷ []),
  History-snoc t.room.classical_history key (omega (arith, t.late)),
)

push_pq-HasRoom :
    {base : DeviceState} {c q id : ℕ} (key : OneTimeKey) (s : DeviceState)
    → key.id ≡ id
    → TakenPq base c (suc q) id s
    → HasRoom base c q (push_pq key s)
push_pq-HasRoom key s e t = ground (
  arith,
  t.room,
  Ascends-snoc OneTimeKey.id s.pq_one_time 0 key.id (mark s.next_pq_one_time_id) key (rw e t.before)
      (omega arith) (omega (arith, t.marked)),
  length-append s.pq_one_time (key ∷ []),
  History-snoc t.room.pq_history key (omega (arith, t.late)),
)

pub sort_one_time-HasRoom :
    {base : DeviceState} {c q : ℕ} (s : DeviceState)
    → HasRoom base c q s
    → HasRoom base c q (sort_one_time s)
sort_one_time-HasRoom s h =
    rw
      (
        sort_by_id-Ascends s.classical_one_time 0 (mark s.next_classical_one_time_id)
            h.classical_ascends,
        sort_by_id-Ascends s.pq_one_time 0 (mark s.next_pq_one_time_id) h.pq_ascends,
      )
      h

module _ {E : Type 0} (p : KeyProvider E) (base : DeviceState) (c q : ℕ) where
  abbrev Room : {A : Type 0} → Result A → DeviceState → Type 0
  Room x s = HasRoom base c q s

  generate_classical-Triple : Triple (HasRoom base (suc c) q) (generate_classical p) Room
  unfolding generate_classical
  generate_classical-Triple =
      bind-Triple _ _ (AfterId base (suc c) q (Taken base)) Room
        (next_classical_id-Triple base (suc c) q)
        (λ id.
          keep-Triple _ _ (Taken base (suc c) q id) Room (sample-Triple _ (p.random_bytes 32))
            (λ secret.
              keep-Triple _ _ (Taken base (suc c) q id) Room
                (attempt-Keeps _ (p.x25519_public secret))
                (λ public.
                  let key : OneTimeKey = record { id = id; public = public; secret = secret } in
                  bind-Triple _ _ Room Room
                    (modify-Triple _ (push_classical key) (λ s. push_classical-HasRoom key s refl))
                    (λ u. return-Triple Room (record { id = id; public = public }) (λ s h. h))
                    (λ e s h. h))
                less)
            less)
        (λ e s h. HasRoom-less h (omega arith) (omega arith))
    where
      less :
          {id : ℕ} (e : CryptoError) (s : DeviceState)
          → Taken base (suc c) q id s
          → HasRoom base c q s
      less e s t = HasRoom-less t.room (omega arith) (omega arith)

  generate_pq-Triple : Triple (HasRoom base c (suc q)) (generate_pq p) Room
  unfolding generate_pq
  generate_pq-Triple =
      bind-Triple _ _ (AfterId base c (suc q) (TakenPq base)) Room
        (next_pq_id-Triple base c (suc q))
        (λ id.
          keep-Triple _ _ (TakenPq base c (suc q) id) Room (sample-Triple _ p.mlkem768_keypair)
            (λ pair.
              let key : OneTimeKey = record { id = id; public = pair.0; secret = pair.1 } in
              bind-Triple _ _ Room Room
                (modify-Triple _ (push_pq key) (λ s. push_pq-HasRoom key s refl))
                (λ u. return-Triple Room (record { id = id; public = pair.0 }) (λ s h. h))
                (λ e s h. h))
            (λ e s t. HasRoom-less t.room (omega arith) (omega arith)))
        (λ e s h. HasRoom-less h (omega arith) (omega arith))

descend :
    (P : ℕ → DeviceState → Type 0)
    → ((n : ℕ) (s : DeviceState) → P (suc n) s → P n s)
    → (n : ℕ) (s : DeviceState) → P n s
    → P zero s
descend P less zero s h = h
descend P less (suc n) s h = descend P less n s (less n s h)

-- A loop each of whose turns uses up one place.
generate-Triple :
    {E : Type 0} (P : ℕ → DeviceState → Type 0) (one : Operation E Generated)
    → ((n : ℕ) → Triple (P (suc n)) one (λ x s. P n s))
    → ((n : ℕ) (s : DeviceState) → P (suc n) s → P n s)
    → (count : ℕ) → Triple (P count) (generate count one) (λ x s. P zero s)
unfolding generate
generate-Triple P one turn less zero = return-Triple _ [] (λ s h. h)
generate-Triple P one turn less (suc count) =
    bind-Triple one _ (λ x s. P count s) (λ x s. P zero s) (turn count)
      (λ key.
        bind-Triple (generate count one) _ (λ x s. P zero s) (λ x s. P zero s)
          (generate-Triple P one turn less count)
          (λ keys. return-Triple (λ x s. P zero s) (key ∷ keys) (λ s h. h)) (λ e s h. h))
      (λ e s h. descend P less count s h)

module _ {E : Type 0} (p : KeyProvider E) (base : DeviceState) where
  pub generate-classical :
      (count q : ℕ)
      → Triple
          (HasRoom base count q)
          (generate count (generate_classical p))
          (λ x s. HasRoom base 0 q s)
  generate-classical count q =
      generate-Triple (λ n. HasRoom base n q) (generate_classical p)
        (λ n. generate_classical-Triple p base n q)
        (λ n s h. HasRoom-less h (omega arith) (omega arith)) count

  pub generate-pq :
      (count c : ℕ)
      → Triple (HasRoom base c count) (generate count (generate_pq p)) (λ x s. HasRoom base c 0 s)
  generate-pq count c =
      generate-Triple (λ n. HasRoom base c n) (generate_pq p) (λ n. generate_pq-Triple p base c n)
        (λ n s h. HasRoom-less h (omega arith) (omega arith)) count

  abbrev Kept : {A : Type 0} → Result A → DeviceState → Type 0
  Kept x s = IsSound base s

  pub keep_pending-Keeps :
      (kind : ℕ) (batch_id projection : Bytes)
      → Triple {E = E} (IsSound base) (keep_pending kind batch_id projection) Kept
  unfolding keep_pending
  keep_pending-Keeps kind batch_id projection =
      bind-Triple _ _ Kept Kept (modify-Triple _ _ (λ s h. ground (arith, h)))
        (λ u.
          return-Triple Kept (record { batch_id = batch_id; projection = projection }) (λ s h. h))
        (λ e s h. h)

  publish-Keeps :
      (batch_id : Bytes) (classical pq : List Generated)
      → Triple {E = E} (IsSound base) (publish batch_id classical pq) Kept
  unfolding publish
  publish-Keeps batch_id classical pq = record {
    holds = λ w.
        (keep-Triple _ (keep_pending upload_replenish batch_id) (IsSound base) Kept
            (attempt-Keeps _
              (written_by (write_replenishment batch_id w.device.bundle_version classical pq)))
            (λ projection. keep_pending-Keeps upload_replenish batch_id projection)
            (λ e s h. h)).holds
          w;
  }

  abbrev Made : ℕ → ℕ → Result (Unit {0}) → DeviceState → Type 0
  Made c q (ok u) s = HasRoom base c q s
  Made c q (err e) s = IsSound base s

  check_room-Triple : (c q : ℕ) → Triple {E = E} (IsSound base) (check_room c q) (Made c q)
  unfolding check_room no_room
  check_room-Triple c q = record {
    holds = λ w h. elim (Bool-cases (no_room c q w.device)) [
      | inl full ↦ rw (full, check_room) h
      | inr free ↦ rw (free, check_room) (ground (arith, h))
    ];
  }

  pub replenish-Keeps :
      (sc sq tc tq : ℕ) → Triple {E = E} (IsSound base) (replenish p sc sq tc tq) Kept
  unfolding replenish
  replenish-Keeps sc sq tc tq =
      keep-Triple _ _ (IsSound base) Kept (fail_if-Triple _ (too_many sc sq tc tq) _)
        (λ u1.
          bind-Triple _ _ (Made (tc - sc) (tq - sq)) Kept (check_room-Triple _ _)
            (λ u2. rest (tc - sc) (tq - sq)) (λ e s h. h))
        (λ e s h. h)
    where
      sound : (c q : ℕ) (e : CryptoError) (s : DeviceState) → HasRoom base c q s → IsSound base s
      sound c q e s h = HasRoom-less h (omega arith) (omega arith)

      rest :
          (c q : ℕ)
          → Triple {E = E}
              (HasRoom base c q)
              (sample (p.random_bytes 16) >>= λ batch_id.
                generate c (generate_classical p) >>= λ classical.
                generate q (generate_pq p) >>= λ pq.
                modify sort_one_time >> publish batch_id classical pq)
              Kept
      rest c q =
          keep-Triple _ _ (HasRoom base c q) Kept (sample-Triple _ (p.random_bytes 16))
            (λ batch_id.
              bind-Triple _ _ (λ x s. HasRoom base 0 q s) Kept (generate-classical c q)
                (λ classical.
                  bind-Triple _ _ Kept Kept (generate-pq q 0)
                    (λ pq.
                      bind-Triple _ _ Kept Kept
                        (modify-Triple _ sort_one_time sort_one_time-HasRoom)
                        (λ u. publish-Keeps batch_id classical pq) (λ e s h. h))
                    (λ e s h. h))
                (sound 0 q))
            (sound c q)

  -- `prepare_replenishment` keeps the invariant, with each of its results.
  pub prepare_replenishment-IsSound :
      (sc sq tc tq : ℕ) (w : World E)
      → IsSound base w.device
      → IsSound base (prepare_replenishment p sc sq tc tq w).1.device
  unfolding prepare_replenishment
  prepare_replenishment-IsSound sc sq tc tq w h = elim (Option-cases w.device.pending) [
    | inl free ↦ rw (free, prepare_replenishment) ((replenish-Keeps sc sq tc tq).holds w h)
    | inr (pending, busy) ↦ rw (busy, prepare_replenishment) h
  ]
