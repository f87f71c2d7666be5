-- ===== src/Prekey/Runs.antt =====
-- prekey_state.rs: the toy device replenishes its keys, rotates them, consumes one and commits.
use communication_platform.Base.{
  ℕ, suc, ◌<◌, ◌≡◌, ◌⊎◌, ◌≢◌, inl, refl, none, some, [], ◌∷◌, ◌++◌, replicate, length-replicate,
  arith, ok, err, state_violation, if◌then◌else◌, ◌==◌, ◌≤◌,
}
use communication_platform.Base.Bytes.{Bytes, to_be_bytes, from_be_bytes, bytes_eq}
use communication_platform.Protocol.Framing.{
  run, new_reader, u8, u16, u32, array, take, ◌>>=◌ as read_then, ◌>>◌ as read_next, reject, lift,
  is_finished,
}
use communication_platform.Protocol.Repeat.{write_each}
use communication_platform.Protocol.Writing.{
  ◌>>◌, extend, push_u16, push_u32, with_value, write_nothing,
}
use communication_platform.DeviceSignatures.{
  from_halves, encode_signed_prekey, encode_pq_signed_prekey, encode_cross_signature,
  encode_master_signature, encode_prekey, new_encoder, field, pq_fields,
}
use communication_platform.Prekey.{
  DeviceState, PendingUpload, ik_public, upload_magic, key_id_max, take_next_id, retain_through,
  prune_retired, classical_one_time, pq_one_time, consume_classical_one_time,
}
use communication_platform.Prekey.Checks.{check_verifying_key}
use communication_platform.Prekey.CodecReader.{read_magic}
use communication_platform.Prekey.Migration.{authentic_end}
use communication_platform.Prekey.Identity.{
  parse_self_signing_secret, read_identity, judge_identity, parts_disagree, identity_magic,
}
use communication_platform.Prekey.Operations.{World, commit_pending_upload}
use communication_platform.Prekey.Replenish.{
  Upload, prepare_replenishment, replenish, too_many, no_room, check_room, publish, generate,
  generate_classical, generate_pq, next_classical_id, next_pq_id, sort_by_id, insert_by_id,
  write_replenishment, write_generated, keep_pending,
}
use communication_platform.Prekey.Rotation.{
  prepare_rotation, rotate, rotate_pruned, too_early, next_numbers, next_signed_id,
  make_replacement, make_classical, make_pq, replace, publish_rotation, write_rotation,
}
use communication_platform.Prekey.Ids.{mark, IsNext, take_next_id-mark}
use communication_platform.Prekey.Soundness.{IsSound}
use communication_platform.Prekey.Steps.{
  Reach, here, next, replenished, rotated, consumed, with_device, Reach-IsSound,
  Reach-one_time_none,
}
use communication_platform.Prekey.RotationSpec.{IsRotated, kept, none_left}
use communication_platform.Prekey.RotationCases.{prepare_rotation-cases}
use communication_platform.Prekey.RotationProgress.{IsWorking, prepare_rotation-succeeds}
use communication_platform.Prekey.Retries.{
  prepare_replenishment-retry, prepare_rotation-retry, commit_pending_upload-cases,
  consume_classical_one_time-cases,
}
use communication_platform.Prekey.Tests.{device, toy, device-IsSound, device-IsTyped}

abbrev pub world : World ℕ
world = record { device = device; entropy = 0 }

-- One X25519 key is missing at the server.
abbrev replenished_upload : Upload
replenished_upload = record {
  batch_id = replicate 16 7;
  projection =
      upload_magic
      ++ (replicate 16 7
          ++ (1 ∷ 0 ∷ 0 ∷ 0 ∷ 2 ∷ 0 ∷ 1 ∷ 0 ∷ 0 ∷ 0 ∷ 5 ∷ [])
          ++ (replicate 32 0 ++ (0 ∷ 0 ∷ [])));
}

replenishes : (prepare_replenishment toy 9 3 10 3 world).0 ≡ ok replenished_upload
unfolding prepare_replenishment replenish too_many no_room check_room publish generate
    generate_classical generate_pq next_classical_id next_pq_id take_next_id sort_by_id insert_by_id
    write_replenishment write_generated keep_pending write_each ◌>>◌ extend push_u16 push_u32
    with_value write_nothing to_be_bytes
replenishes = refl

abbrev replenished_world : World ℕ
replenished_world = (prepare_replenishment toy 9 3 10 3 world).1

replenishes_both :
    prepare_replenishment toy 9 3 10 3 world ≡ (ok replenished_upload, replenished_world)
replenishes_both = λ i. (replenishes i, replenished_world)

prepare_replenishment-retry_example :
    prepare_replenishment toy 0 0 200 100 replenished_world
    ≡ (ok replenished_upload, replenished_world)
prepare_replenishment-retry_example =
    prepare_replenishment-retry toy 9 3 10 3 0 0 200 100 world replenished_world replenished_upload
      replenishes_both

-- An identity package without a recovery secret and a backup.
abbrev pub identity_package : Bytes
identity_package =
    identity_magic
    ++ ((0 ∷ [])
        ++ (replicate 16 1
            ++ (replicate 96 0 ++ (replicate 64 5 ++ (replicate 6 0 ++ replicate 96 1)))))

parses : parse_self_signing_secret toy identity_package device.user_id ≡ ok (replicate 32 1)
unfolding parse_self_signing_secret read_magic read_identity authentic_end judge_identity
    parts_disagree check_verifying_key encode_master_signature new_encoder field ◌>>◌ run new_reader
    read_then read_next reject lift is_finished take u8 u16 u32 array from_be_bytes to_be_bytes
    bytes_eq
parses = refl

abbrev rotated_upload : Upload
rotated_upload = record {
  batch_id = replicate 16 7;
  projection =
      upload_magic
      ++ (replicate 16 7
          ++ (2 ∷ 0 ∷ 0 ∷ 0 ∷ 3 ∷ 0 ∷ 0 ∷ 0 ∷ 3 ∷ [])
          ++ (replicate 32 0
              ++ (replicate 64 5
                  ++ ((0 ∷ 0 ∷ 0 ∷ 3 ∷ [])
                      ++ (replicate 1184 0 ++ (replicate 64 5 ++ replicate 64 5))))));
}

rotates : (prepare_rotation toy identity_package (replicate 16 2) 27 world).0 ≡ ok rotated_upload
unfolding prepare_rotation rotate rotate_pruned too_early next_numbers next_signed_id
    make_replacement make_classical make_pq replace publish_rotation write_rotation prune_retired
    retain_through ik_public from_halves encode_signed_prekey encode_pq_signed_prekey
    encode_cross_signature encode_prekey pq_fields keep_pending extend push_u32
    parse_self_signing_secret read_magic read_identity authentic_end judge_identity parts_disagree
    check_verifying_key encode_master_signature new_encoder field ◌>>◌ run new_reader read_then
    read_next reject lift is_finished take u8 u16 u32 array from_be_bytes to_be_bytes bytes_eq
rotates = refl

abbrev rotated_world : World ℕ
rotated_world = (prepare_rotation toy identity_package (replicate 16 2) 27 world).1

rotates_both :
    prepare_rotation toy identity_package (replicate 16 2) 27 world
    ≡ (ok rotated_upload, rotated_world)
rotates_both = λ i. (rotates i, rotated_world)

prepare_rotation-retry_example :
    prepare_rotation toy [] [] 0 rotated_world ≡ (ok rotated_upload, rotated_world)
prepare_rotation-retry_example =
    prepare_rotation-retry toy identity_package (replicate 16 2) [] [] 27 0 world rotated_world
      rotated_upload rotates_both

prepare_rotation-cases_example :
    IsRotated toy identity_package
      (replicate 16 2)
      27
      device
      (prepare_rotation toy identity_package (replicate 16 2) 27 world).0
      (prepare_rotation toy identity_package (replicate 16 2) 27 world).1.device
prepare_rotation-cases_example =
    prepare_rotation-cases toy identity_package (replicate 16 2) 27 world

toy-IsWorking : IsWorking toy
toy-IsWorking = record {
  draws = λ n e. (replicate n 7, suc e, refl, length-replicate n 7);
  public_keys = λ secret h. (replicate 32 0, refl, refl);
  pairs = λ e. ((replicate 1184 0, replicate 2400 0), suc e, refl, length-replicate {A = ℕ} 1184 0);
  signs = λ secret message h. (replicate 64 5, refl);
}

-- The pair that is retained through day 28 stays.
prepare_rotation-succeeds_example :
    (upload : Upload) × (v : World ℕ) × (prepare_rotation toy identity_package
        (replicate 16 2)
        27
        world
      ≡ (ok upload, v))
prepare_rotation-succeeds_example =
    prepare_rotation-succeeds toy identity_package (replicate 16 2) (replicate 32 1) 27
      device.retired world toy-IsWorking device-IsTyped refl (inl (omega arith), inl (omega arith))
      (kept (omega arith) none_left) (omega arith) parses refl (omega arith) (omega arith)
      (omega arith)

-- The device is replenished and rotated, and consumes the key of identifier 4.
abbrev consumed_world : World ℕ
consumed_world = with_device world (consume_classical_one_time 4 device).1

consumes_and_replenishes :
    Reach toy consumed_world (prepare_replenishment toy 9 3 10 3 consumed_world).1
consumes_and_replenishes = next here (replenished 9 3 10 3 consumed_world)

Reach-IsSound_example :
    IsSound device
      (prepare_rotation toy identity_package
        (replicate 16 2)
        27
        (prepare_replenishment toy 9 3 10 3 world).1).1.device
Reach-IsSound_example = Reach-IsSound toy device-IsSound (
    next (next here (replenished 9 3 10 3 world)) (
      rotated identity_package (replicate 16 2) 27 (prepare_replenishment toy 9 3 10 3 world).1
        (omega arith)))

consumed-IsSound : IsSound device consumed_world.device
consumed-IsSound = Reach-IsSound toy device-IsSound (next here (consumed 4 world))

Reach-one_time_none_example :
    (4 < mark consumed_world.device.next_classical_one_time_id
      → classical_one_time 4 consumed_world.device ≡ none
      → classical_one_time 4 (prepare_replenishment toy 9 3 10 3 consumed_world).1.device ≡ none)
    × (4 < mark consumed_world.device.next_pq_one_time_id
        → pq_one_time 4 consumed_world.device ≡ none
        → pq_one_time 4 (prepare_replenishment toy 9 3 10 3 consumed_world).1.device ≡ none)
Reach-one_time_none_example =
    Reach-one_time_none toy consumed_world (prepare_replenishment toy 9 3 10 3 consumed_world).1 4
      consumed-IsSound consumes_and_replenishes

consume_classical_one_time-cases_example :
    ((classical_one_time 4 device ≡ none)
      × (consume_classical_one_time 4 device ≡ (err state_violation, device)))
    ⊎ ((left : DeviceState) × (consume_classical_one_time 4 device ≡ (ok tt, left))
        × (classical_one_time 4 device ≢ none)
        × ((other : ℕ)
            → classical_one_time other left
              ≡ (if other == 4 then none else classical_one_time other device)))
consume_classical_one_time-cases_example = consume_classical_one_time-cases 4 device device-IsSound

commit_pending_upload-cases_example :
    (((pending : PendingUpload) × (rotated_world.device.pending ≡ some pending)
        × (pending.batch_id ≡ replicate 16 7))
      × (commit_pending_upload (replicate 16 7) rotated_world.device
          ≡ (ok tt, record rotated_world.device { pending = none })))
    ⊎ (((pending : PendingUpload)
          → rotated_world.device.pending ≡ some pending
          → pending.batch_id ≢ replicate 16 7)
        × (commit_pending_upload (replicate 16 7) rotated_world.device
            ≡ (err state_violation, rotated_world.device)))
commit_pending_upload-cases_example =
    commit_pending_upload-cases (replicate 16 7) rotated_world.device

take_next_id-mark_example :
    ((take_next_id key_id_max ≡ (err state_violation, key_id_max))
      × (mark key_id_max ≡ suc key_id_max))
    ⊎ ((after : ℕ) × (take_next_id key_id_max ≡ (ok (mark key_id_max), after))
        × (mark key_id_max ≤ key_id_max)
        × (mark after ≡ suc (mark key_id_max))
        × IsNext after)
take_next_id-mark_example = take_next_id-mark key_id_max (inl (omega arith))
