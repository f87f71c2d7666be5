-- ===== src/Attachment/Soundness.antt =====
-- attachment.rs: every operation keeps the table of sessions sound.
use communication_platform.Base.{
  ℕ, ◌+◌, ◌≡◌, refl, subst, Bool, true, false, not, ◌||◌, Option, none, some, length, ltb, ◌==◌,
  if◌then◌else◌, arith, >>=-eq-ok, refuse, authentication_failed, Result, ok, err,
}
use communication_platform.Base.Bytes.{Bytes, bytes_eq}
use communication_platform.Protocol.Framing.{run}
use communication_platform.Attachment.{
  AttachmentHeader, part, parse_header, attachment_max_io_bytes, attachment_chunk_bytes,
  secretstream_abytes,
}
use communication_platform.Attachment.Requests.{
  CreatePull, read_push, read_create_pull, read_chunk, read_close, read_random,
}
use communication_platform.Attachment.Sessions.{
  Streams, Seen, Session, World, push, pull, lookup, remove, draw,
}
use communication_platform.Attachment.Operations.{
  push_refused, requested_session, fresh, start_push, create_push, push_session, push_chunk,
  start_pull, create_pull, pull_session, pull_chunk, when_ok, end_session, close_session,
  random_bytes, operation,
}
use communication_platform.Attachment.Invariants.{
  IsSoundSession, IsSound, if_both, lookup-IsSoundSession, length-remove, remove-IsSoundTable,
  allocate-IsSound, IsPut-IsSound, pushed, pulled,
}

module _ {Push Pull : Type 0} (streams : Streams Push Pull) where
  push_session-IsSound :
      (handle : ℕ) (final_message : Bool) (plaintext : Bytes) (w : World Push Pull)
      → IsSound w
      → IsSound ((push_session streams handle final_message plaintext w).1)
  unfolding push_session
  push_session-IsSound handle final_message plaintext w t = split (lookup handle w.sessions) refl
    where
      judged :
          (stream : Push) (seen : Seen) (c : Bool)
          → lookup handle w.sessions ≡ some (push stream seen)
          → push_refused seen final_message (length plaintext) ≡ c
          → IsSound ((push_session streams handle final_message plaintext w).1)
      judged stream seen true e k = rw (push_session, e, k) t
      judged stream seen false e k =
          rw (push_session, e, k)
            (IsPut-IsSound streams handle w _ t (
              pushed streams handle stream seen final_message plaintext w k
                (lookup-IsSoundSession handle w.sessions (push stream seen) t.1 e)))

      split :
          (o : Option (Session Push Pull))
          → lookup handle w.sessions ≡ o
          → IsSound ((push_session streams handle final_message plaintext w).1)
      split none e = rw (push_session, e) t
      split (some (pull stream seen)) e = rw (push_session, e) t
      split (some (push stream seen)) e = judged stream seen _ e refl

  pull_session-IsSound :
      (handle : ℕ) (ciphertext : Bytes) (w : World Push Pull)
      → IsSound w
      → IsSound ((pull_session streams handle ciphertext w).1)
  unfolding pull_session
  pull_session-IsSound handle ciphertext w t = split (lookup handle w.sessions) refl
    where
      judged :
          (stream : Pull) (seen : Seen) (c : Bool)
          → lookup handle w.sessions ≡ some (pull stream seen)
          → (seen.final_seen
              || ltb (attachment_chunk_bytes + secretstream_abytes) (length ciphertext))
            ≡ c
          → IsSound ((pull_session streams handle ciphertext w).1)
      judged stream seen true e k = rw (pull_session, e, k) t
      judged stream seen false e k =
          rw (pull_session, e, k)
            (IsPut-IsSound streams handle w _ t (
              pulled streams handle stream seen ciphertext w (ground (arith, k))
                (lookup-IsSoundSession handle w.sessions (pull stream seen) t.1 e)))

      split :
          (o : Option (Session Push Pull))
          → lookup handle w.sessions ≡ o
          → IsSound ((pull_session streams handle ciphertext w).1)
      split none e = rw (pull_session, e) t
      split (some (push stream seen)) e = rw (pull_session, e) t
      split (some (pull stream seen)) e = judged stream seen _ e refl

  end_session-IsSound :
      (handle : ℕ) (abort : Bool) (w : World Push Pull)
      → IsSound w
      → IsSound ((end_session streams handle abort w).1)
  unfolding end_session
  end_session-IsSound handle abort w t = split (lookup handle w.sessions) refl
    where
      removed : IsSound (record w { sessions = remove handle w.sessions })
      removed = (
        omega (arith, length-remove handle w.sessions),
        remove-IsSoundTable handle w.sessions t.1,
      )

      split :
          (o : Option (Session Push Pull))
          → lookup handle w.sessions ≡ o
          → IsSound ((end_session streams handle abort w).1)
      split none e = rw (end_session, e) t
      split (some s) e =
          rw (end_session, e)
            (if_both (λ (q : Result Bytes × World Push Pull). IsSound (q.1)) _ t removed)

  after :
      {A : Type 0} (q : Result A) (w : World Push Pull) (f : A → Result Bytes × World Push Pull)
      → IsSound w
      → ((a : A) → q ≡ ok a → IsSound ((f a).1))
      → IsSound ((when_ok streams q w f).1)
  after (err e) w f t h = t
  after (ok a) w f t h = h a refl

  fresh-IsSoundSession :
      (header : AttachmentHeader) (stream : Push)
      → IsSoundSession {Push = Push} {Pull = Pull} (push stream (fresh streams header))
  fresh-IsSoundSession header stream = ground arith

  create_push-IsSound :
      (input : Bytes) (w : World Push Pull) → IsSound w → IsSound ((create_push streams input w).1)
  unfolding create_push start_push draw
  create_push-IsSound input w t =
      after _ w (λ header. start_push streams header w) t
        λ header _.
          after (streams.random w.draws 32) (record w { draws = ℕ.suc w.draws }) _ t
            λ key _.
              after (streams.push_init key) (record w { draws = ℕ.suc w.draws }) _ t
                λ x _.
                  allocate-IsSound streams (push x.0 (fresh streams header)) _
                    (fresh-IsSoundSession header x.0) t

  requested-IsSoundSession :
      (request : CreatePull) (s : Session Push Pull)
      → requested_session streams request ≡ ok s
      → IsSoundSession s
  unfolding requested_session
  requested-IsSoundSession request s e =
      let (header, h1, g1) = >>=-eq-ok (parse_header request.header_bytes) _ e in
      let (u, h2, g2) =
        >>=-eq-ok
          (refuse (not (bytes_eq (streams.sha256 request.metadata) (part 34 66 header.bytes)))
            authentication_failed)
          _ g1 in
      let (stream, h3, g3) = >>=-eq-ok (streams.pull_init request.key request.stream_header) _ g2 in
      let same : pull stream (fresh streams header) ≡ s = cc in
      subst IsSoundSession same (ground arith)

  create_pull-IsSound :
      (input : Bytes) (w : World Push Pull) → IsSound w → IsSound ((create_pull streams input w).1)
  unfolding create_pull start_pull
  create_pull-IsSound input w t =
      after _ w (λ session. start_pull streams session w) t
        λ session e.
          let (request, h, g) = >>=-eq-ok (run read_create_pull input) _ e in
          allocate-IsSound streams session w (requested-IsSoundSession request session g) t

  push_chunk-IsSound :
      (input : Bytes) (w : World Push Pull) → IsSound w → IsSound ((push_chunk streams input w).1)
  unfolding push_chunk
  push_chunk-IsSound input w t =
      after (run read_push input) w _ t λ x _. push_session-IsSound x.0 x.1 x.2 w t

  pull_chunk-IsSound :
      (input : Bytes) (w : World Push Pull) → IsSound w → IsSound ((pull_chunk streams input w).1)
  unfolding pull_chunk
  pull_chunk-IsSound input w t =
      after (run read_chunk input) w _ t λ x _. pull_session-IsSound x.0 x.1 w t

  close_session-IsSound :
      (input : Bytes) (w : World Push Pull)
      → IsSound w
      → IsSound ((close_session streams input w).1)
  unfolding close_session
  close_session-IsSound input w t =
      after (run read_close input) w _ t λ x _. end_session-IsSound x.0 x.1 w t

  random_bytes-IsSound :
      (input : Bytes) (w : World Push Pull) → IsSound w → IsSound ((random_bytes streams input w).1)
  unfolding random_bytes draw
  random_bytes-IsSound input w t = after (run read_random input) w _ t λ _ _. t

  either :
      (c : Bool) (x y : Result Bytes × World Push Pull)
      → IsSound (x.1)
      → IsSound (y.1)
      → IsSound ((if c then x else y).1)
  either true x y h k = h
  either false x y h k = k

  -- Every operation, whatever its input and whether it succeeds or fails, keeps the table sound: at
  -- most 64 sessions under distinct handles that are not zero, no session past its announced
  -- plaintext, no pull session past its announced stream, and a final session with all of its
  -- plaintext, in no more than its stream's size for a push and exactly that for a pull.
  pub operation-IsSound :
      (number : ℕ) (input : Bytes) (w : World Push Pull)
      → IsSound w
      → IsSound ((operation streams number input w).1)
  unfolding operation
  operation-IsSound number input w t = either (ltb attachment_max_io_bytes (length input)) _ _ t (
      either (number == 1) _ _ (create_push-IsSound input w t) (
        either (number == 2) _ _ (push_chunk-IsSound input w t) (
          either (number == 3) _ _ (create_pull-IsSound input w t) (
            either (number == 4) _ _ (pull_chunk-IsSound input w t) (
              either (number == 5) _ _ (close_session-IsSound input w t)
                (either (number == 6) _ _ (random_bytes-IsSound input w t) t))))))
