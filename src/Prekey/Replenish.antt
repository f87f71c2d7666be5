-- ===== src/Prekey/Replenish.antt =====
-- prekey_state.rs: `prepare_replenishment`, which makes one-time keys up to the server's targets.
use communication_platform.Base.{
  ℕ, zero, suc, Bool, ◌+◌, ◌-◌, ◌||◌, none, some, List, [], ◌∷◌, ◌++◌, length, leb, ltb,
  if◌then◌else◌, ok, resource_exhausted, invalid_argument,
}
use communication_platform.Base.Bytes.{Bytes}
use communication_platform.Provider.{KeyProvider}
use communication_platform.Protocol.Repeat.{write_each}
use communication_platform.Protocol.Writing.{
  Writer, extend, push_u16, push_u32, try_from, with_value, written_by, ◌>>◌ as followed,
}
use communication_platform.Prekey.{
  OneTimeKey, DeviceState, take_next_id, upload_magic, upload_replenish, max_classical_one_time,
  max_pq_one_time, max_backend_classical_one_time, max_backend_pq_one_time,
}
use communication_platform.Prekey.Operations.{
  Operation, ◌>>=◌, ◌>>◌, return, attempt, fail_if, modify, sample,
}

-- An identifier and a public key, as they are published.
pub record Generated : Type 0 where
  pub id : ℕ
  pub public : Bytes

-- The batch and its exact projection.
pub record Upload : Type 0 where
  pub batch_id : Bytes
  pub projection : Bytes

-- `take_next_id(&mut state.next_classical_one_time_id)`.
unfoldable pub next_classical_id : {E : Type 0} → Operation E ℕ
next_classical_id w =
    let (taken, high_water) = take_next_id w.device.next_classical_one_time_id in
    (taken, record w { device = record w.device { next_classical_one_time_id = high_water } })

unfoldable pub next_pq_id : {E : Type 0} → Operation E ℕ
next_pq_id w =
    let (taken, high_water) = take_next_id w.device.next_pq_one_time_id in
    (taken, record w { device = record w.device { next_pq_one_time_id = high_water } })

abbrev pub push_classical : OneTimeKey → DeviceState → DeviceState
push_classical key s = record s { classical_one_time = s.classical_one_time ++ (key ∷ []) }

abbrev pub push_pq : OneTimeKey → DeviceState → DeviceState
push_pq key s = record s { pq_one_time = s.pq_one_time ++ (key ∷ []) }

-- `sort_unstable_by_key(|key| key.id)`; the order of equal identifiers is left open there.
unfoldable pub insert_by_id : OneTimeKey → List OneTimeKey → List OneTimeKey
insert_by_id key [] = key ∷ []
insert_by_id key (other ∷ others) =
    if leb key.id other.id then key ∷ (other ∷ others) else other ∷ insert_by_id key others

unfoldable pub sort_by_id : List OneTimeKey → List OneTimeKey
sort_by_id [] = []
sort_by_id (key ∷ keys) = insert_by_id key (sort_by_id keys)

abbrev pub sort_one_time : DeviceState → DeviceState
sort_one_time s = record s {
  classical_one_time = sort_by_id s.classical_one_time;
  pq_one_time = sort_by_id s.pq_one_time;
}

unfoldable pub write_generated : Generated → Writer
write_generated key = followed (push_u32 key.id) (extend key.public)

unfoldable pub write_replenishment : Bytes → ℕ → List Generated → List Generated → Writer
write_replenishment batch_id bundle_version classical pq = followed (extend upload_magic) (
    followed (extend batch_id) (
      followed (extend (upload_replenish ∷ [])) (
        followed (push_u32 bundle_version) (
          followed (with_value (try_from 2 (length classical) resource_exhausted) push_u16) (
            followed (write_each write_generated classical) (
              followed (with_value (try_from 2 (length pq) resource_exhausted) push_u16)
                (write_each write_generated pq)))))))

-- `state.pending = Some(..); Ok((batch_id, projection))`
unfoldable pub keep_pending : {E : Type 0} → ℕ → Bytes → Bytes → Operation E Upload
keep_pending kind batch_id projection = do
  modify λ s. record s {
    pending = some (record { batch_id = batch_id; kind = kind; exact_projection = projection });
  }
  return (record { batch_id = batch_id; projection = projection })

-- `for _ in 0..count { generated.push(..) }`
unfoldable pub generate : {E : Type 0} → ℕ → Operation E Generated → Operation E (List Generated)
generate zero one = return []
generate (suc count) one = do key ← one; keys ← generate count one; return (key ∷ keys)

unfoldable pub too_many : ℕ → ℕ → ℕ → ℕ → Bool
too_many server_classical_count server_pq_count target_classical target_pq =
    ltb max_backend_classical_one_time target_classical
    || ltb max_backend_pq_one_time target_pq
    || ltb max_backend_classical_one_time server_classical_count
    || ltb max_backend_pq_one_time server_pq_count

unfoldable pub no_room : ℕ → ℕ → DeviceState → Bool
no_room add_classical add_pq s =
    ltb max_classical_one_time (length s.classical_one_time + add_classical)
    || ltb max_pq_one_time (length s.pq_one_time + add_pq)

unfoldable pub check_room : {E : Type 0} → ℕ → ℕ → Operation E (Unit {0})
check_room add_classical add_pq w =
    fail_if (no_room add_classical add_pq w.device) resource_exhausted w

unfoldable pub publish : {E : Type 0} → Bytes → List Generated → List Generated → Operation E Upload
publish batch_id classical pq w =
    (attempt (written_by (write_replenishment batch_id w.device.bundle_version classical pq))
        >>= keep_pending upload_replenish batch_id)
      w

module _ {E : Type 0} (p : KeyProvider E) where
  -- One turn of the loop on X25519 keys.
  unfoldable pub generate_classical : Operation E Generated
  generate_classical = do
    id ← next_classical_id
    secret ← sample (p.random_bytes 32)
    public ← attempt (p.x25519_public secret)
    modify (push_classical (record { id = id; public = public; secret = secret }))
    return (record { id = id; public = public })

  -- One turn of the loop on ML-KEM keys.
  unfoldable pub generate_pq : Operation E Generated
  generate_pq = do
    id ← next_pq_id
    pair ← sample p.mlkem768_keypair
    modify (push_pq (record { id = id; public = pair.0; secret = pair.1 }))
    return (record { id = id; public = pair.0 })

  -- The operation where nothing is pending; `saturating_sub` stops at 0, and the sums of lengths are
  -- far below the end of `usize`.
  unfoldable pub replenish : ℕ → ℕ → ℕ → ℕ → Operation E Upload
  replenish server_classical_count server_pq_count target_classical target_pq = do
    fail_if (too_many server_classical_count server_pq_count target_classical target_pq)
        invalid_argument
    check_room (target_classical - server_classical_count) (target_pq - server_pq_count)
    batch_id ← sample (p.random_bytes 16)
    classical ← generate (target_classical - server_classical_count) generate_classical
    pq ← generate (target_pq - server_pq_count) generate_pq
    modify sort_one_time
    publish batch_id classical pq

  unfoldable pub prepare_replenishment : ℕ → ℕ → ℕ → ℕ → Operation E Upload
  prepare_replenishment server_classical_count server_pq_count target_classical target_pq w =
      elim w.device.pending [
        | some pending ↦
            (ok (record { batch_id = pending.batch_id; projection = pending.exact_projection }), w)
        | none ↦ replenish server_classical_count server_pq_count target_classical target_pq w
      ]
