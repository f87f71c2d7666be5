-- ===== src/Protocol/Writing.antt =====
-- The writers of protocol.rs. A function that appends to `output: &mut Vec<u8>` is a `Writer`; a
-- `do` block runs one after the other.
use communication_platform.Base.{
  ℕ, ◌^◌, ◌≡◌, refl, [], ◌++◌, ap, ◌∙◌, length, ltb, if◌then◌else◌, append-nil, append_assoc,
  Result, CryptoError, ok, err, ok_or, refuse, input_too_large, ◌>>=◌ as bind_result, ◌<◌, arith,
}
use communication_platform.Base.Bytes.{Bytes, to_be_bytes}
use communication_platform.Protocol.Framing.{usize_end, max_input_bytes, checked_add}
use communication_platform.Protocol.Reads.{frame}

abbrev pub Writer : Type 0
Writer = Bytes → Result Bytes

-- `output.extend_from_slice(bytes)`; `output.push(b)` is `extend (b ∷ [])`.
unfoldable pub extend : Bytes → Writer
extend bytes output = ok (output ++ bytes)

infixl 5 ◌>>◌
unfoldable pub ◌>>◌ : Writer → Writer → Writer
v >> w = λ output. bind_result (v output) w

unfoldable pub write_nothing : Writer
write_nothing output = ok output

-- `return Err(e)`.
unfoldable pub write_error : CryptoError → Writer
write_error e output = err e

unfoldable pub push_u16 : ℕ → Writer
unfolding extend
push_u16 value = extend (to_be_bytes 2 value)

unfoldable pub push_u32 : ℕ → Writer
unfolding extend
push_u32 value = extend (to_be_bytes 4 value)

unfoldable pub push_u64 : ℕ → Writer
unfolding extend
push_u64 value = extend (to_be_bytes 8 value)

-- `try_from(value)` into an unsigned integer of `width` bytes, with the caller's error.
abbrev pub try_from : ℕ → ℕ → CryptoError → Result ℕ
try_from width value e = if ltb value (256 ^ width) then ok value else err e

-- `writer(value?)`.
unfoldable pub with_value : Result ℕ → (ℕ → Writer) → Writer
with_value (ok a) w = w a
with_value (err e) w = write_error e

unfoldable pub push_frame : Bytes → Writer
unfolding ◌>>◌ extend push_u32 with_value
push_frame value = do with_value (try_from 4 (length value) input_too_large) push_u32; extend value

-- The bound that `reserve` checks; the allocation itself is taken to succeed.
unfoldable pub reserve : ℕ → Writer
reserve additional output =
    bind_result (ok_or (checked_add usize_end (length output) additional) input_too_large)
      λ final_len.
        bind_result (refuse (ltb max_input_bytes final_len) input_too_large) λ _. ok output

-- What stands in a new vector after a writer has run.
abbrev pub written_by : Writer → Result Bytes
written_by w = w []

-- `w` appends `xs`, and does not fail.
pub record Writes (w : Writer) (xs : Bytes) : Type 0 where
  pub writes : (output : Bytes) → w output ≡ ok (output ++ xs)

pub extend-Writes : (xs : Bytes) → Writes (extend xs) xs
unfolding extend
extend-Writes xs = record { writes = λ output. refl }

pub nothing-Writes : Writes write_nothing []
unfolding write_nothing
nothing-Writes = record { writes = λ output. rw append-nil refl }

pub then-Writes :
    {v w : Writer} {xs ys : Bytes} → Writes v xs → Writes w ys → Writes (v >> w) (xs ++ ys)
unfolding ◌>>◌
then-Writes {v} {w} {xs} {ys} m k = record {
  writes =
      λ output. rw (m.writes output) (k.writes (output ++ xs) ∙ ap ok (append_assoc output xs ys));
}

pub push_u16-Writes : (v : ℕ) → Writes (push_u16 v) (to_be_bytes 2 v)
unfolding push_u16
push_u16-Writes v = extend-Writes _

pub push_u32-Writes : (v : ℕ) → Writes (push_u32 v) (to_be_bytes 4 v)
unfolding push_u32
push_u32-Writes v = extend-Writes _

pub push_u64-Writes : (v : ℕ) → Writes (push_u64 v) (to_be_bytes 8 v)
unfolding push_u64
push_u64-Writes v = extend-Writes _

pub with_value-Writes :
    {m : Result ℕ} (w : ℕ → Writer) {a : ℕ} {xs : Bytes}
    → m ≡ ok a
    → Writes (w a) xs
    → Writes (with_value m w) xs
unfolding with_value
with_value-Writes w h k = rw h k

pub push_frame-Writes :
    (value : Bytes) → length value < 256 ^ 4 → Writes (push_frame value) (frame value)
unfolding push_frame
push_frame-Writes value h =
    then-Writes (with_value-Writes push_u32 (ground arith) (push_u32-Writes _))
      (extend-Writes value)

pub written_by-Writes : {w : Writer} {xs : Bytes} → Writes w xs → written_by w ≡ ok xs
written_by-Writes m = m.writes []
