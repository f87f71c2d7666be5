-- ===== src/Attachment/Operations.antt =====
-- attachment.rs: the six operations, from the request's bytes to the response and the next table.
use communication_platform.Base.{
  ℕ, ◌+◌, ◌%◌, ◌^◌, Bool, false, not, ◌&&◌, ◌||◌, none, some, [], ◌∷◌, ◌++◌, length, ltb, ◌==◌,
  if◌then◌else◌, Result, ok, err, refuse, input_too_large, malformed_input, invalid_handle,
  wrong_handle_type, authentication_failed, unsupported_operation, state_violation,
  ◌>>=◌ as bind_result,
}
use communication_platform.Base.Bytes.{Bytes, to_be_bytes, bytes_eq}
use communication_platform.Protocol.Framing.{run}
use communication_platform.Attachment.{
  AttachmentHeader, attachment_max_io_bytes, attachment_chunk_bytes, secretstream_abytes,
  secretstream_key_bytes, response_create, response_chunk, response_close, response_random,
  encrypted_stream_size, bucket_for_stream, make_header, parse_header, part,
}
use communication_platform.Attachment.Sessions.{
  Streams, Seen, Session, World, push, pull, seen_of, lookup, update, remove, draw, allocate_handle,
}
use communication_platform.Attachment.Requests.{
  CreatePush, CreatePull, read_create_push, read_push, read_create_pull, read_chunk, read_close,
  read_random,
}

-- `*plaintext_seen + plaintext.len() as u64`.
abbrev pub plus64 : ℕ → ℕ → ℕ
plus64 a b = (a + b) % 2 ^ 64

-- The three tests of a push before the stream is touched.
unfoldable pub push_refused : Seen → Bool → ℕ → Bool
push_refused seen final_message size =
    (seen.final_seen || ltb seen.header.plaintext_size (plus64 seen.plaintext_seen size))
    || (not final_message && not (ltb (plus64 seen.plaintext_seen size) seen.header.plaintext_size))
    || (final_message && not (plus64 seen.plaintext_seen size == seen.header.plaintext_size))

-- The counters after a chunk, before `final_seen` is set.
unfoldable pub counted : Seen → ℕ → ℕ → Seen
counted seen plaintext stream = record seen {
  plaintext_seen = plus64 seen.plaintext_seen plaintext;
  stream_seen = plus64 seen.stream_seen stream;
}

unfoldable pub pull_overflows : Seen → ℕ → ℕ → Bool
pull_overflows seen stream plaintext =
    ltb seen.header.stream_size (plus64 seen.stream_seen stream)
    || ltb seen.header.plaintext_size (plus64 seen.plaintext_seen plaintext)

unfoldable pub pull_incomplete : Seen → Bool → Bool
pull_incomplete seen final_message =
    final_message
    && (not (seen.stream_seen == seen.header.stream_size)
        || not (seen.plaintext_seen == seen.header.plaintext_size))

module _ {Push Pull : Type 0} (streams : Streams Push Pull) where
  abbrev pub Outcome : Type 0
  Outcome = Result Bytes × World Push Pull

  -- What follows a step that leaves the table as it is: `?` returns its error.
  abbrev pub when_ok : {A : Type 0} → Result A → World Push Pull → (A → Outcome) → Outcome
  when_ok (err e) w f = (err e, w)
  when_ok (ok a) w f = f a

  -- The header that a creation request asks for.
  unfoldable pub requested_header : CreatePush → Result AttachmentHeader
  unfolding encrypted_stream_size bucket_for_stream make_header
  requested_header request =
      bind_result (encrypted_stream_size request.plaintext_size request.chunk_size) λ stream_size.
        bind_result (bucket_for_stream stream_size) λ bucket.
          bind_result (refuse (not (request.bucket_size == bucket)) malformed_input) λ _.
            make_header request.plaintext_size stream_size request.bucket_size request.chunk_size
              (streams.sha256 request.metadata)

  abbrev pub fresh : AttachmentHeader → Seen
  fresh header = record { header = header; plaintext_seen = 0; stream_seen = 0; final_seen = false }

  unfoldable pub start_push : AttachmentHeader → World Push Pull → Outcome
  unfolding draw allocate_handle
  start_push header w =
      let (drawn, w1) = draw streams secretstream_key_bytes w in
      when_ok drawn w1 λ key. when_ok (streams.push_init key) w1 λ (stream, stream_header).
        let (allocated, w2) = allocate_handle streams (push stream (fresh header)) w1 in
        (
          bind_result allocated λ handle. ok (
              response_create
              ++ (to_be_bytes 8 handle
                  ++ (key
                      ++ (header.bytes ++ (stream_header ++ to_be_bytes 8 header.stream_size))))),
          w2,
        )

  unfoldable pub create_push : Bytes → World Push Pull → Outcome
  unfolding read_create_push requested_header start_push
  create_push input w =
      when_ok (bind_result (run read_create_push input) requested_header) w
        λ header. start_push header w

  -- `SecretVec::input` refuses nothing of at most 64 KiB; the chunk's size is checked before.
  unfoldable pub push_stream : ℕ → Push → Seen → Bool → Bytes → World Push Pull → Outcome
  unfolding update counted
  push_stream handle stream seen final_message plaintext w =
      let (encrypted, stream') = streams.push stream plaintext seen.header.bytes final_message in
      elim encrypted [
        | err e ↦ (err e, record w { sessions = update handle (push stream' seen) w.sessions })
        | ok bytes ↦
            let seen' = counted seen (length plaintext) (length bytes) in
            if ltb seen'.header.stream_size seen'.stream_seen
            then (
              err state_violation,
              record w { sessions = update handle (push stream' seen') w.sessions },
            )
            else (
              ok (response_chunk ++ ((0 ∷ []) ++ bytes)),
              record w {
                sessions =
                    update handle (push stream' (record seen' { final_seen = final_message }))
                      w.sessions;
              },
            )
      ]

  unfoldable pub push_session : ℕ → Bool → Bytes → World Push Pull → Outcome
  unfolding lookup push_refused push_stream
  push_session handle final_message plaintext w = elim (lookup handle w.sessions) [
    | none ↦ (err invalid_handle, w)
    | some (pull stream seen) ↦ (err wrong_handle_type, w)
    | some (push stream seen) ↦
        if push_refused seen final_message (length plaintext)
        then (err state_violation, w)
        else push_stream handle stream seen final_message plaintext w
  ]

  unfoldable pub push_chunk : Bytes → World Push Pull → Outcome
  unfolding read_push push_session
  push_chunk input w =
      when_ok (run read_push input) w
        λ (handle, final_message, plaintext). push_session handle final_message plaintext w

  -- The session that a pull request asks for.
  unfoldable pub requested_session : CreatePull → Result (Session Push Pull)
  unfolding parse_header
  requested_session request = bind_result (parse_header request.header_bytes) λ header.
      bind_result
        (refuse (not (bytes_eq (streams.sha256 request.metadata) (part 34 66 header.bytes)))
          authentication_failed)
        λ _.
          bind_result (streams.pull_init request.key request.stream_header)
            λ stream. ok (pull stream (fresh header))

  unfoldable pub start_pull : Session Push Pull → World Push Pull → Outcome
  unfolding allocate_handle
  start_pull session w =
      let (allocated, w') = allocate_handle streams session w in
      (bind_result allocated λ handle. ok (response_create ++ to_be_bytes 8 handle), w')

  unfoldable pub create_pull : Bytes → World Push Pull → Outcome
  unfolding read_create_pull requested_session start_pull
  create_pull input w =
      when_ok (bind_result (run read_create_pull input) requested_session) w
        λ session. start_pull session w

  unfoldable pub pull_stream : ℕ → Pull → Seen → Bytes → World Push Pull → Outcome
  unfolding update counted pull_overflows pull_incomplete
  pull_stream handle stream seen ciphertext w =
      let (decrypted, stream') = streams.pull stream ciphertext seen.header.bytes in
      elim decrypted [
        | err e ↦ (err e, record w { sessions = update handle (pull stream' seen) w.sessions })
        | ok (plaintext, final_message) ↦
            let seen' = counted seen (length plaintext) (length ciphertext) in
            if pull_overflows seen (length ciphertext) (length plaintext)
            then (
              err state_violation,
              record w { sessions = update handle (pull stream' seen) w.sessions },
            )
            else if pull_incomplete seen' final_message
            then (
              err state_violation,
              record w { sessions = update handle (pull stream' seen') w.sessions },
            )
            else (
              ok (response_chunk ++ (((if final_message then 1 else 0) ∷ []) ++ plaintext)),
              record w {
                sessions =
                    update handle (pull stream' (record seen' { final_seen = final_message }))
                      w.sessions;
              },
            )
      ]

  unfoldable pub pull_session : ℕ → Bytes → World Push Pull → Outcome
  unfolding lookup pull_stream
  pull_session handle ciphertext w = elim (lookup handle w.sessions) [
    | none ↦ (err invalid_handle, w)
    | some (push stream seen) ↦ (err wrong_handle_type, w)
    | some (pull stream seen) ↦
        if seen.final_seen || ltb (attachment_chunk_bytes + secretstream_abytes) (length ciphertext)
        then (err state_violation, w)
        else pull_stream handle stream seen ciphertext w
  ]

  unfoldable pub pull_chunk : Bytes → World Push Pull → Outcome
  unfolding read_chunk pull_session
  pull_chunk input w =
      when_ok (run read_chunk input) w λ (handle, ciphertext). pull_session handle ciphertext w

  unfoldable pub end_session : ℕ → Bool → World Push Pull → Outcome
  unfolding lookup remove
  end_session handle abort w = elim (lookup handle w.sessions) [
    | none ↦ (err invalid_handle, w)
    | some session ↦
        if not abort && not ((seen_of session).final_seen)
        then (err state_violation, w)
        else (ok response_close, record w { sessions = remove handle w.sessions })
  ]

  unfoldable pub close_session : Bytes → World Push Pull → Outcome
  unfolding read_close end_session
  close_session input w =
      when_ok (run read_close input) w λ (handle, abort). end_session handle abort w

  unfoldable pub random_bytes : Bytes → World Push Pull → Outcome
  unfolding read_random draw
  random_bytes input w = when_ok (run read_random input) w λ size.
      let (drawn, w') = draw streams size w in
      (bind_result drawn λ bytes. ok (response_random ++ bytes), w')

  unfoldable pub operation : ℕ → Bytes → World Push Pull → Outcome
  unfolding create_push push_chunk create_pull pull_chunk close_session random_bytes
  operation number input w =
      if ltb attachment_max_io_bytes (length input)
      then (err input_too_large, w)
      else if number == 1
      then create_push input w
      else if number == 2
      then push_chunk input w
      else if number == 3
      then create_pull input w
      else if number == 4
      then pull_chunk input w
      else if number == 5
      then close_session input w
      else if number == 6
      then random_bytes input w
      else (err unsupported_operation, w)
