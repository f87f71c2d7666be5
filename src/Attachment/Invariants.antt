-- ===== src/Attachment/Invariants.antt =====
-- attachment.rs: what holds of the table of sessions after every operation.
use communication_platform.Base.{
  ℕ, ◌≤◌, ◌<◌, ◌≡◌, ◌≢◌, ◌⊎◌, inl, inr, sym, refl, subst, Bool, true, false, none, some, List, [],
  ◌∷◌, length, ltb, ◌==◌, if◌then◌else◌, arith, Result, ok, err,
}
use communication_platform.Base.Bytes.{Bytes, from_be_bytes}
use communication_platform.Attachment.Sessions.{
  Streams, Seen, Session, World, push, pull, lookup, update, remove, draw, allocate_handle,
  insert_session, nonzero,
}
use communication_platform.Attachment.Operations.{
  plus64, push_refused, counted, pull_overflows, pull_incomplete, push_stream, pull_stream,
}

-- No more plaintext than announced has passed, and all of it when the stream is complete.
abbrev pub IsBounded : Seen → Type 0
IsBounded seen =
    (seen.plaintext_seen ≤ seen.header.plaintext_size)
    × (seen.final_seen ≡ true → seen.plaintext_seen ≡ seen.header.plaintext_size)

-- A pull session also counts the stream exactly; a push session bounds it when it is complete.
abbrev pub IsSoundSession : {Push Pull : Type 0} → Session Push Pull → Type 0
IsSoundSession (push stream seen) =
    IsBounded seen × (seen.final_seen ≡ true → seen.stream_seen ≤ seen.header.stream_size)
IsSoundSession (pull stream seen) =
    IsBounded seen
    × (seen.stream_seen ≤ seen.header.stream_size)
    × (seen.final_seen ≡ true → seen.stream_seen ≡ seen.header.stream_size)

pub if_both {ℓ} :
    {A : Type ℓ} {x y : A} (P : A → Type 0) (c : Bool) → P x → P y → P (if c then x else y)
if_both P true h k = h
if_both P false h k = k

module _ {Push Pull : Type 0} where
  abbrev pub IsSoundTable : List (ℕ × Session Push Pull) → Type 0
  IsSoundTable [] = Unit {0}
  IsSoundTable ((h, s) ∷ rest) =
      (h ≢ 0) × IsSoundSession s × (lookup h rest ≡ none) × IsSoundTable rest

  -- At most 64 sessions, under distinct handles that are not zero, and each sound.
  abbrev pub IsSound : World Push Pull → Type 0
  IsSound w = (length w.sessions ≤ 64) × IsSoundTable w.sessions

  pub lookup-IsSoundSession :
      (handle : ℕ) (table : List (ℕ × Session Push Pull)) (s : Session Push Pull)
      → IsSoundTable table
      → lookup handle table ≡ some s
      → IsSoundSession s
  unfolding lookup
  lookup-IsSoundSession handle [] s t e = absurd (cc e)
  lookup-IsSoundSession handle ((h, x) ∷ rest) s t e =
      found (h == handle) e (lookup-IsSoundSession handle rest s t.3)
    where
      found :
          (c : Bool)
          → (if c then some x else lookup handle rest) ≡ some s
          → (lookup handle rest ≡ some s → IsSoundSession s)
          → IsSoundSession s
      found true k f = let same : x ≡ s = cc in subst IsSoundSession same t.1
      found false k f = f k

  lookup-update :
      (h handle : ℕ) (s : Session Push Pull) (table : List (ℕ × Session Push Pull))
      → lookup h table ≡ none
      → lookup h (update handle s table) ≡ none
  unfolding lookup update
  lookup-update h handle s [] e = e
  lookup-update h handle s ((k, x) ∷ rest) e = ground (arith, lookup-update h handle s rest)

  length-update :
      (handle : ℕ) (s : Session Push Pull) (table : List (ℕ × Session Push Pull))
      → length (update handle s table) ≡ length table
  unfolding update
  length-update handle s [] = refl
  length-update handle s ((k, x) ∷ rest) = ground (arith, length-update handle s rest)

  update-IsSoundTable :
      (handle : ℕ) (s : Session Push Pull) (table : List (ℕ × Session Push Pull))
      → IsSoundSession s
      → IsSoundTable table
      → IsSoundTable (update handle s table)
  unfolding update
  update-IsSoundTable handle s [] h t = tt
  update-IsSoundTable handle s ((k, x) ∷ rest) h t =
      if_both IsSoundTable (k == handle) (t.0, h, t.2, t.3)
        (t.0, t.1, lookup-update k handle s rest t.2, update-IsSoundTable handle s rest h t.3)

  lookup-remove :
      (h handle : ℕ) (table : List (ℕ × Session Push Pull))
      → lookup h table ≡ none
      → lookup h (remove handle table) ≡ none
  unfolding lookup remove
  lookup-remove h handle [] e = e
  lookup-remove h handle ((k, x) ∷ rest) e = ground (arith, lookup-remove h handle rest)

  pub length-remove :
      (handle : ℕ) (table : List (ℕ × Session Push Pull))
      → length (remove handle table) ≤ length table
  unfolding remove
  length-remove handle [] = omega arith
  length-remove handle ((k, x) ∷ rest) = ground (arith, length-remove handle rest)

  pub remove-IsSoundTable :
      (handle : ℕ) (table : List (ℕ × Session Push Pull))
      → IsSoundTable table
      → IsSoundTable (remove handle table)
  unfolding remove
  remove-IsSoundTable handle [] t = tt
  remove-IsSoundTable handle ((k, x) ∷ rest) t =
      if_both IsSoundTable (k == handle) t.3
        (t.0, t.1, lookup-remove k handle rest t.2, remove-IsSoundTable handle rest t.3)

  put-IsSound :
      (handle : ℕ) (s : Session Push Pull) (w : World Push Pull)
      → IsSoundSession s
      → IsSound w
      → IsSound (record w { sessions = update handle s w.sessions })
  put-IsSound handle s w h t = (
    omega (arith, length-update handle s w.sessions),
    update-IsSoundTable handle s w.sessions h t.1,
  )

module _ {Push Pull : Type 0} (streams : Streams Push Pull) where
  -- A table that an insertion leaves is the old one, or has one more session under a free handle.
  inserted :
      (handle : ℕ) (s : Session Push Pull) (w : World Push Pull)
      → ((insert_session streams handle s w).1 ≡ w)
        ⊎ ((lookup handle w.sessions ≡ none)
            × (length w.sessions < 64)
            × ((insert_session streams handle s w).1
                ≡ record w { sessions = (handle, s) ∷ w.sessions }))
  unfolding insert_session
  inserted handle s w = ground arith

  insert-IsSound :
      (handle : ℕ) (s : Session Push Pull) (w : World Push Pull)
      → handle ≢ 0
      → IsSoundSession s
      → IsSound w
      → IsSound ((insert_session streams handle s w).1)
  insert-IsSound handle s w n h t = elim (inserted handle s w) [
    | inl e ↦ subst IsSound (sym e) t
    | inr (l, k, e) ↦ subst IsSound (sym e) (omega arith, (n, h, l, t.1))
  ]

  IsAllocated : Session Push Pull → World Push Pull → Type 0
  IsAllocated s w =
      ((allocate_handle streams s w).1 ≡ record w { draws = ℕ.suc w.draws })
      ⊎ ((bytes : Bytes) × ((allocate_handle streams s w).1
            ≡ (insert_session streams (nonzero (from_be_bytes bytes)) s
                (record w { draws = ℕ.suc w.draws })).1))

  allocated : (s : Session Push Pull) (w : World Push Pull) → IsAllocated s w
  unfolding allocate_handle draw IsAllocated
  allocated s w = split (streams.random w.draws 8) refl
    where
      split : (q : Result Bytes) → streams.random w.draws 8 ≡ q → IsAllocated s w
      split (err e) h = inl (rw h refl)
      split (ok bytes) h = inr (bytes, rw h refl)

  handle_set : (n : ℕ) → nonzero n ≢ 0
  handle_set n = ground arith

  pub allocate-IsSound :
      (s : Session Push Pull) (w : World Push Pull)
      → IsSoundSession s
      → IsSound w
      → IsSound ((allocate_handle streams s w).1)
  unfolding IsAllocated
  allocate-IsSound s w h t = elim (allocated s w) [
    | inl e ↦ subst IsSound (sym e) t
    | inr (bytes, e) ↦
        subst IsSound (sym e) (
          insert-IsSound (nonzero (from_be_bytes bytes)) s _ (handle_set (from_be_bytes bytes)) h t)
  ]

  -- `w'` is `w` with a sound session written back.
  pub IsPut : ℕ → World Push Pull → World Push Pull → Type 0
  IsPut handle w w' =
      (s : Session Push Pull) × IsSoundSession s
      × (w' ≡ record w { sessions = update handle s w.sessions })

  pub IsPut-IsSound :
      (handle : ℕ) (w w' : World Push Pull) → IsSound w → IsPut handle w w' → IsSound w'
  unfolding IsPut
  IsPut-IsSound handle w w' t (s, h, e) = subst IsSound (sym e) (put-IsSound handle s w h t)

  pub pushed :
      (handle : ℕ) (stream : Push) (seen : Seen) (final_message : Bool) (plaintext : Bytes)
      (w : World Push Pull)
      → push_refused seen final_message (length plaintext) ≡ false
      → IsSoundSession {Push = Push} {Pull = Pull} (push stream seen)
      → IsPut handle w ((push_stream streams handle stream seen final_message plaintext w).1)
  unfolding push_stream push_refused counted IsPut
  pushed handle stream seen final_message plaintext w r h =
      split (streams.push stream plaintext seen.header.bytes final_message).0 refl
    where
      next : Push
      next = (streams.push stream plaintext seen.header.bytes final_message).1

      judged :
          (bytes : Bytes) (c : Bool)
          → ltb seen.header.stream_size (plus64 seen.stream_seen (length bytes)) ≡ c
          → (streams.push stream plaintext seen.header.bytes final_message).0 ≡ ok bytes
          → IsPut handle w ((push_stream streams handle stream seen final_message plaintext w).1)
      judged bytes true k e = (
        push next (counted seen (length plaintext) (length bytes)),
        ground (arith, h, r),
        ground (arith, e, k),
      )
      judged bytes false k e = (
        push next (record (counted seen (length plaintext) (length bytes)) {
          final_seen = final_message;
        }),
        ground (arith, h, r),
        ground (arith, e, k),
      )

      split :
          (q : Result Bytes)
          → (streams.push stream plaintext seen.header.bytes final_message).0 ≡ q
          → IsPut handle w ((push_stream streams handle stream seen final_message plaintext w).1)
      split (err e) k = (push next seen, h, rw (push_stream, k) refl)
      split (ok bytes) k = judged bytes _ refl k

  pub pulled :
      (handle : ℕ) (stream : Pull) (seen : Seen) (ciphertext : Bytes) (w : World Push Pull)
      → seen.final_seen ≡ false
      → IsSoundSession {Push = Push} {Pull = Pull} (pull stream seen)
      → IsPut handle w ((pull_stream streams handle stream seen ciphertext w).1)
  unfolding pull_stream pull_overflows pull_incomplete counted IsPut
  pulled handle stream seen ciphertext w r h =
      split (streams.pull stream ciphertext seen.header.bytes).0 refl
    where
      next : Pull
      next = (streams.pull stream ciphertext seen.header.bytes).1

      after : Bytes → Seen
      after plaintext = counted seen (length plaintext) (length ciphertext)

      judged :
          (plaintext : Bytes) (final_message c d : Bool)
          → pull_overflows seen (length ciphertext) (length plaintext) ≡ c
          → pull_incomplete (after plaintext) final_message ≡ d
          → (streams.pull stream ciphertext seen.header.bytes).0 ≡ ok (plaintext, final_message)
          → IsPut handle w ((pull_stream streams handle stream seen ciphertext w).1)
      judged plaintext final_message true d k l e = (pull next seen, h, ground (arith, e, k))
      judged plaintext final_message false true k l e =
          (pull next (after plaintext), ground (arith, h, r, k), ground (arith, e, k, l))
      judged plaintext final_message false false k l e = (
        pull next (record (after plaintext) { final_seen = final_message }),
        ground (arith, h, r, k, l),
        ground (arith, e, k, l),
      )

      split :
          (q : Result (Bytes × Bool))
          → (streams.pull stream ciphertext seen.header.bytes).0 ≡ q
          → IsPut handle w ((pull_stream streams handle stream seen ciphertext w).1)
      split (err e) k = (pull next seen, h, rw (pull_stream, k) refl)
      split (ok (plaintext, final_message)) k = judged plaintext final_message _ _ refl refl k
