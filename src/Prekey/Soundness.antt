-- ===== src/Prekey/Soundness.antt =====
-- prekey_state.rs: the invariant of a device's prekeys, and that each step keeps it.
use communication_platform.Base.{ℕ, ◌+◌, ◌^◌, ◌≤◌, ◌<◌, Option-cases, inl, inr, length, arith}
use communication_platform.Base.Bytes.{Bytes}
use communication_platform.Prekey.{
  OneTimeKey, RetiredSignedPair, DeviceState, key_id_max, max_classical_one_time, max_pq_one_time,
  max_retired_signed_pairs, consume_classical_one_time, consume_pq_one_time, position_id,
  prune_retired,
}
use communication_platform.Prekey.Operations.{commit_pending_upload}
use communication_platform.Prekey.Ids.{
  Ascends, mark, IsNext, remove_at-Ascends, length-remove_at, retain_through-Ascends,
  length-retain_through, History, History-self, History-remove_at,
}

-- Identifiers ascend below their marks, and the stores keep within their limits, also after
-- `classical` and `pq` more keys. The device was once in the state `base`: since then the marks and
-- the version have not gone back, and no key has come back.
pub record HasRoom (base : DeviceState) (classical pq : ℕ) (s : DeviceState) : Type 0 where
  pub classical_ascends :
      Ascends OneTimeKey.id 0 s.classical_one_time (mark s.next_classical_one_time_id)
  pub pq_ascends : Ascends OneTimeKey.id 0 s.pq_one_time (mark s.next_pq_one_time_id)
  pub classical_next : IsNext s.next_classical_one_time_id
  pub pq_next : IsNext s.next_pq_one_time_id
  pub classical_few : length s.classical_one_time + classical ≤ max_classical_one_time
  pub pq_few : length s.pq_one_time + pq ≤ max_pq_one_time
  pub retired_classical_ascends :
      Ascends (λ (pair : RetiredSignedPair). pair.classical.id) 0 s.retired s.current_classical.id
  pub retired_pq_ascends :
      Ascends (λ (pair : RetiredSignedPair). pair.pq.id) 0 s.retired s.current_pq.id
  pub retired_few : length s.retired ≤ max_retired_signed_pairs
  pub classical_id_fits : s.current_classical.id ≤ key_id_max
  pub pq_id_fits : s.current_pq.id ≤ key_id_max
  pub classical_history :
      History base.next_classical_one_time_id base.classical_one_time s.next_classical_one_time_id
        s.classical_one_time
  pub pq_history :
      History base.next_pq_one_time_id base.pq_one_time s.next_pq_one_time_id s.pq_one_time
  pub version_grows : base.bundle_version ≤ s.bundle_version
  pub version_positive : 1 ≤ s.bundle_version
  pub version_fits : s.bundle_version < 2 ^ 32

abbrev pub IsSound : DeviceState → DeviceState → Type 0
IsSound base s = HasRoom base 0 0 s

pub HasRoom-less :
    {base : DeviceState} {c q c' q' : ℕ} {s : DeviceState}
    → HasRoom base c q s
    → c' ≤ c
    → q' ≤ q
    → HasRoom base c' q' s
HasRoom-less h k l = ground arith

pub consume_classical_one_time-HasRoom :
    {base : DeviceState} {c q : ℕ} (id : ℕ) (s : DeviceState)
    → HasRoom base c q s
    → HasRoom base c q (consume_classical_one_time id s).1
unfolding consume_classical_one_time
consume_classical_one_time-HasRoom id s h =
    elim (Option-cases (position_id id s.classical_one_time)) [
      | inl none_found ↦ rw (none_found, consume_classical_one_time) h
      | inr (position, found) ↦
          rw (found, consume_classical_one_time)
            (ground (
              arith,
              h,
              remove_at-Ascends position s.classical_one_time 0 (mark s.next_classical_one_time_id)
                  h.classical_ascends,
              length-remove_at position s.classical_one_time,
              History-remove_at h.classical_history id 0 (mark s.next_classical_one_time_id)
                  position h.classical_ascends found,
            ))
    ]

pub consume_pq_one_time-HasRoom :
    {base : DeviceState} {c q : ℕ} (id : ℕ) (s : DeviceState)
    → HasRoom base c q s
    → HasRoom base c q (consume_pq_one_time id s).1
unfolding consume_pq_one_time
consume_pq_one_time-HasRoom id s h = elim (Option-cases (position_id id s.pq_one_time)) [
  | inl none_found ↦ rw (none_found, consume_pq_one_time) h
  | inr (position, found) ↦
      rw (found, consume_pq_one_time)
        (ground (
          arith,
          h,
          remove_at-Ascends position s.pq_one_time 0 (mark s.next_pq_one_time_id) h.pq_ascends,
          length-remove_at position s.pq_one_time,
          History-remove_at h.pq_history id 0 (mark s.next_pq_one_time_id) position h.pq_ascends
              found,
        ))
]

pub prune_retired-HasRoom :
    {base : DeviceState} {c q : ℕ} (day : ℕ) (s : DeviceState)
    → HasRoom base c q s
    → HasRoom base c q (prune_retired day s)
unfolding prune_retired
prune_retired-HasRoom day s h = ground (
  arith,
  h,
  retain_through-Ascends (λ (pair : RetiredSignedPair). pair.classical.id) day s.retired 0
      s.current_classical.id h.retired_classical_ascends,
  retain_through-Ascends (λ (pair : RetiredSignedPair). pair.pq.id) day s.retired 0 s.current_pq.id
      h.retired_pq_ascends,
  length-retain_through day s.retired,
)

pub commit_pending_upload-HasRoom :
    {base : DeviceState} {c q : ℕ} (batch_id : Bytes) (s : DeviceState)
    → HasRoom base c q s
    → HasRoom base c q (commit_pending_upload batch_id s).1
unfolding commit_pending_upload
commit_pending_upload-HasRoom batch_id s h = ground (arith, h)

-- A device with the invariant starts its own history.
pub IsSound-self : {base : DeviceState} (s : DeviceState) → IsSound base s → IsSound s s
IsSound-self s h = ground (
  arith,
  h,
  History-self s.next_classical_one_time_id s.classical_one_time,
  History-self s.next_pq_one_time_id s.pq_one_time,
)
