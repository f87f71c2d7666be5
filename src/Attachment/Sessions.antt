-- ===== src/Attachment/Sessions.antt =====
-- attachment.rs: the table of sessions behind the mutex, and the stream primitives that it holds.
-- One operation runs at a time; a poisoned lock, which needs a panic, does not occur here.
use communication_platform.Base.{
  ℕ, Bool, Option, none, some, List, [], ◌∷◌, length, ltb, ◌==◌, if◌then◌else◌, Result, ok, err,
  resource_exhausted,
}
use communication_platform.Base.Bytes.{Bytes, from_be_bytes}
use communication_platform.Attachment.{AttachmentHeader}

-- The functions of provider.rs that attachments call. A stream is advanced also where it fails.
pub record Streams (Push Pull : Type 0) : Type 0 where
  pub push_init : Bytes → Result (Push × Bytes)
  pub push : Push → Bytes → Bytes → Bool → Result Bytes × Push
  pub pull_init : Bytes → Bytes → Result Pull
  pub pull : Pull → Bytes → Bytes → Result (Bytes × Bool) × Pull
  pub sha256 : Bytes → Bytes
  pub random : ℕ → ℕ → Result Bytes

-- The fields that the two variants of `Session` share, without the stream.
pub record Seen : Type 0 where
  pub header : AttachmentHeader
  pub plaintext_seen : ℕ
  pub stream_seen : ℕ
  pub final_seen : Bool

pub data Session (Push Pull : Type 0) : Type 0 where
  push : Push → Seen → Session Push Pull
  pull : Pull → Seen → Session Push Pull

-- The map, and how many times the random source has been asked; its answer may depend on that.
pub record World (Push Pull : Type 0) : Type 0 where
  pub sessions : List (ℕ × Session Push Pull)
  pub draws : ℕ

abbrev pub seen_of : {Push Pull : Type 0} → Session Push Pull → Seen
seen_of (push stream seen) = seen
seen_of (pull stream seen) = seen

module _ {S : Type 0} where
  -- `HashMap::get` and `get_mut`.
  unfoldable pub lookup : ℕ → List (ℕ × S) → Option S
  lookup handle [] = none
  lookup handle ((h, s) ∷ rest) =
      let below = lookup handle rest in if h == handle then some s else below

  -- A write through `get_mut`.
  unfoldable pub update : ℕ → S → List (ℕ × S) → List (ℕ × S)
  update handle s [] = []
  update handle s ((h, t) ∷ rest) =
      let below = update handle s rest in if h == handle then (h, s) ∷ rest else (h, t) ∷ below

  -- `HashMap::remove`.
  unfoldable pub remove : ℕ → List (ℕ × S) → List (ℕ × S)
  remove handle [] = []
  remove handle ((h, s) ∷ rest) =
      let below = remove handle rest in if h == handle then rest else (h, s) ∷ below

-- `if handle == 0 { handle = 1; }`
abbrev pub nonzero : ℕ → ℕ
nonzero handle = if handle == 0 then 1 else handle

module _ {Push Pull : Type 0} (streams : Streams Push Pull) where
  -- A draw of `size` random bytes.
  unfoldable pub draw : ℕ → World Push Pull → Result Bytes × World Push Pull
  draw size w = (streams.random w.draws size, record w { draws = ℕ.suc w.draws })

  unfoldable pub insert_session :
      ℕ → Session Push Pull → World Push Pull → Result ℕ × World Push Pull
  unfolding lookup
  insert_session handle session w =
      if ltb (length w.sessions) 64
      then elim (lookup handle w.sessions) [
        | none ↦ (ok handle, record w { sessions = (handle, session) ∷ w.sessions })
        | some other ↦ (err resource_exhausted, w)
      ]
      else (err resource_exhausted, w)

  unfoldable pub allocate_handle : Session Push Pull → World Push Pull → Result ℕ × World Push Pull
  unfolding draw insert_session
  allocate_handle session w =
      let (drawn, w') = draw 8 w in
      elim drawn [
        | err e ↦ (err e, w')
        | ok bytes ↦ insert_session (nonzero (from_be_bytes bytes)) session w'
      ]
