-- ===== src/Room/CanonicalLaws/Back.antt =====
-- room_control.rs: the canonical form is read back, within its bound on bytes.
use communication_platform.Base.{
  >>=-eq-ok, refuse-eq-ok, refuse, malformed_input, not, ℕ, ◌^◌, ◌≤◌, ◌<◌, ◌≡◌, refl, ap, true,
  Option, none, some, List, [], ◌∷◌, ◌++◌, length, All, ltb, arith, ok,
}
use communication_platform.Base.Bytes.{Bytes, IsArray, bytes_eq, bytes_eq_iff}
use communication_platform.Base.Text.{IsText}
use communication_platform.Protocol.Framing.{Parser, ◌>>=◌, ◌>>◌}
use communication_platform.Protocol.Reads.{
  Reads, pure-Reads, bind-Reads, then-Reads, last-Reads, reject-Reads, checked-ReadsAll,
  run-ReadsAll,
}
use communication_platform.Protocol.Accepts.{run-judged}
use communication_platform.Protocol.Writing.{written_by, written_by-Writes}
use communication_platform.Cbor.{Minicbor, IsCbor, head, read_key, read_exact_map, read_text}
use communication_platform.Cbor.Laws.{
  item, read_uint-Reads, read_key-Reads, read_exact_map-Reads, read_array_len-Reads,
  read_exact_bytes-Reads, read_text-Reads, read_nullable-Reads,
}
use communication_platform.Room.{
  RoomControl, ControlBody, create, add_members, remove_member, rename, kind, room_control_version,
  IsTyped, IsTypedBody, IsTypedHash, validate, max_name_bytes, max_name_scalars,
  max_room_control_bytes,
}
use communication_platform.Room.Canonical.{at_most, write_control, encode_control}
use communication_platform.Room.CanonicalReader.{
  narrow, read_each, decode_user_ids, decode_body, read_event, checked, decode_control,
}
use communication_platform.Room.CanonicalLaws.{
  items, array_items, body_map, canonical, write_control-Writes,
}
use communication_platform.Room.CanonicalLaws.Sizes.{length-canonical, filled}
use communication_platform.Room.Validity.{IsName, IsBody, IsValid, validate_iff}

module _ (m : Minicbor) (cbor : IsCbor m) where
  narrow-Reads : (width n : ℕ) → n < 256 ^ width → Reads (narrow width n) [] n
  unfolding narrow
  narrow-Reads width n h =
      let fits : ltb n (256 ^ width) ≡ true = ground arith in rw fits (pure-Reads n)

  read_each-Reads :
      (xs : List Bytes) → All (IsArray 16) xs → Reads (read_each m (length xs)) (items xs) xs
  unfolding read_each
  read_each-Reads [] h = pure-Reads []
  read_each-Reads (x ∷ xs) h =
      bind-Reads _ (read_exact_bytes-Reads m cbor x h.0.size (omega arith))
        (last-Reads _ (read_each-Reads xs h.1) (pure-Reads (x ∷ xs)))

  decode_user_ids-Reads :
      (n : ℕ) (xs : List Bytes)
      → All (IsArray 16) xs
      → length xs ≤ n
      → length xs ≤ 50
      → Reads (decode_user_ids m n) (array_items xs) xs
  unfolding decode_user_ids
  decode_user_ids-Reads n xs t l h =
      bind-Reads _ (read_array_len-Reads m cbor (length xs) (omega arith))
        (reject-Reads _ (ground arith) (read_each-Reads xs t))

  name-Reads :
      (name : Bytes)
      → IsText name
      → IsName name
      → Reads (read_text m max_name_bytes max_name_scalars true) (item 3 name) name
  name-Reads name t n =
      read_text-Reads m cbor max_name_bytes max_name_scalars true name (omega arith) (record {
        text = t;
        few_bytes = n.1;
        few_scalars = n.2;
        filled = λ _ e. omega (arith, n.0, ap length e);
      })

  map_key-Reads {ℓ} :
      {A : Type ℓ} {k : Parser A} {xs : Bytes} {a : A} (n : ℕ)
      → n < 2 ^ 64
      → Reads k xs a
      → Reads (read_exact_map m n >> (read_key m 0 >> k)) (head 5 n ++ (head 0 0 ++ xs)) a
  map_key-Reads n h k =
      then-Reads (read_exact_map-Reads m cbor n h)
        (then-Reads (read_key-Reads m cbor 0 (omega arith)) k)

  decode_body-Reads :
      (signer : Bytes) (b : ControlBody)
      → IsTypedBody b
      → IsBody signer b
      → Reads (decode_body m (kind b)) (body_map b) b
  unfolding decode_body kind
  decode_body-Reads signer (create name members) t v = map_key-Reads 2 (omega arith) (
      bind-Reads _ (name-Reads name t.0 v.0) (
        then-Reads (read_key-Reads m cbor 1 (omega arith)) (
          last-Reads _ (decode_user_ids-Reads _ members t.1 (omega (arith, v)) (omega (arith, v)))
            (pure-Reads (create name members)))))
  decode_body-Reads signer (add_members user_ids) t v = map_key-Reads 1 (omega arith) (
      last-Reads _ (decode_user_ids-Reads _ user_ids t (omega (arith, v)) (omega (arith, v)))
        (pure-Reads (add_members user_ids)))
  decode_body-Reads signer (remove_member user_id) t v = map_key-Reads 1 (omega arith) (
      last-Reads _ (read_exact_bytes-Reads m cbor user_id t.size (omega arith))
        (pure-Reads (remove_member user_id)))
  decode_body-Reads signer (rename name) t v =
      map_key-Reads 1 (omega arith) (last-Reads _ (name-Reads name t v) (pure-Reads (rename name)))

  hash_size : (o : Option Bytes) → IsTypedHash o → (xs : Bytes) → o ≡ some xs → length xs ≡ 32
  hash_size none t xs e = cc
  hash_size (some hash) t xs e = let same : xs ≡ hash = cc in rw same t.size

  kind_fits : (b : ControlBody) → kind b < 256 ^ 1
  unfolding kind
  kind_fits b = ground arith

  -- An item under its key.
  keyed-Reads {ℓ κ} :
      {A : Type ℓ} {B : Type κ} {p : Parser A} (k : ℕ) (f : A → Parser B) {xs ys : Bytes} {a : A}
      {b : B}
      → k < 2 ^ 64
      → Reads p xs a
      → Reads (f a) ys b
      → Reads (read_key m k >> (p >>= f)) (head 0 k ++ (xs ++ ys)) b
  keyed-Reads k f h m' n' = then-Reads (read_key-Reads m cbor k h) (bind-Reads f m' n')

  read_event-Reads :
      (c : RoomControl) → IsTyped c → IsValid c → Reads (read_event m) (canonical c) c
  unfolding read_event
  read_event-Reads c t v = then-Reads (read_exact_map-Reads m cbor 10 (omega arith)) (
      keyed-Reads 0 _ (omega arith) (read_uint-Reads m cbor room_control_version (omega arith)) (
        reject-Reads _ refl (
          keyed-Reads 1 _ (omega arith)
            (read_exact_bytes-Reads m cbor c.event_id t.event_id_typed.size (omega arith))
            (keyed-Reads 2 _ (omega arith)
              (read_exact_bytes-Reads m cbor c.room_id t.room_id_typed.size (omega arith))
              (keyed-Reads 3 _ (omega arith)
                (last-Reads _ (read_uint-Reads m cbor c.revision (omega (arith, t.revision_typed)))
                  (narrow-Reads 4 c.revision t.revision_typed))
                (keyed-Reads 4 _ (omega arith)
                  (read_nullable-Reads m cbor c.previous_state_hash
                    (hash_size c.previous_state_hash t.hash_typed) (omega arith))
                  (keyed-Reads 5 _ (omega arith)
                    (read_exact_bytes-Reads m cbor c.signer_user_id t.signer_user_id_typed.size
                      (omega arith))
                    (keyed-Reads 6 _ (omega arith)
                      (read_exact_bytes-Reads m cbor c.signer_device_id
                        t.signer_device_id_typed.size (omega arith))
                      (keyed-Reads 7 _ (omega arith)
                        (read_uint-Reads m cbor c.created_ms t.created_ms_typed)
                        (keyed-Reads 8 _ (omega arith)
                          (last-Reads _
                            (read_uint-Reads m cbor (kind c.body) (omega (arith, kind_fits c.body)))
                            (narrow-Reads 1 (kind c.body) (kind_fits c.body)))
                          (then-Reads (read_key-Reads m cbor 9 (omega arith)) (
                            last-Reads _
                              (decode_body-Reads c.signer_user_id c.body t.body_typed v.6)
                              (pure-Reads c)))))))))))))

  checked_eq :
      (c : RoomControl) (input : Bytes)
      → validate c ≡ ok tt
      → encode_control m c ≡ ok input
      → checked m input c ≡ ok c
  unfolding checked
  checked_eq c input h e = rw (h, e, (bytes_eq_iff input input).1 refl) refl

  pub encode_control_eq :
      (c : RoomControl) → IsTyped c → IsValid c → encode_control m c ≡ ok (canonical c)
  unfolding encode_control at_most
  encode_control_eq c t v =
      rw (written_by-Writes (write_control-Writes m cbor c t v))
        (ground (arith, length-canonical c t v))

  pub decode_control_eq :
      (c : RoomControl) → IsTyped c → validate c ≡ ok tt → decode_control m (canonical c) ≡ ok c
  unfolding decode_control
  decode_control_eq c t h =
      let v = (validate_iff c).0 h in
      let l = length-canonical c t v in
      run-ReadsAll
        (checked-ReadsAll _ (read_event-Reads c t v)
          (checked_eq c (canonical c) h (encode_control_eq c t v)))
        (omega (arith, l))

  -- With an encoder and decoder of RFC 8949, an event of Rust's types that `validate` accepts has a
  -- canonical form of 1 to 16384 bytes, and `decode_control` returns the event from it.
  pub decode_control-encode_control :
      (c : RoomControl)
      → IsTyped c
      → validate c ≡ ok tt
      → (output : Bytes) × (encode_control m c ≡ ok output)
        × (1 ≤ length output)
        × (length output ≤ max_room_control_bytes)
        × (decode_control m output ≡ ok c)
  decode_control-encode_control c t h =
      let v = (validate_iff c).0 h in
      let l = length-canonical c t v in
      (canonical c, encode_control_eq c t v, filled c, omega (arith, l), decode_control_eq c t h)

module _ (m : Minicbor) where
  -- Whatever minicbor does, an event that `decode_control` returns is one that `validate` accepts,
  -- and its input is what `encode_control` returns for that event.
  pub encode_control-decode_control :
      (input : Bytes) (c : RoomControl)
      → decode_control m input ≡ ok c
      → (validate c ≡ ok tt) × (encode_control m c ≡ ok input)
  unfolding decode_control checked
  encode_control-decode_control input c g =
      let (a, r, h, k) = run-judged (read_event m) (checked m input) input g in
      let (u1, h1, g1) = >>=-eq-ok (validate a) _ k in
      let (output, h2, g2) = >>=-eq-ok (encode_control m a) _ g1 in
      let (u3, h3, g3) = >>=-eq-ok (refuse (not (bytes_eq output input)) malformed_input) _ g2 in
      let same : a ≡ c = cc in
      let equal = refuse-eq-ok (not (bytes_eq output input)) malformed_input h3 in
      let whole : output ≡ input = (bytes_eq_iff output input).0 (ground arith) in
      rw (← same) (h1, rw (← whole) h2)

  pub encode_control-bound :
      (c : RoomControl) (output : Bytes)
      → encode_control m c ≡ ok output
      → length output ≤ max_room_control_bytes
  unfolding encode_control at_most
  encode_control-bound c output g =
      let (xs, h, k) = >>=-eq-ok (written_by (write_control m c)) _ g in ground arith
