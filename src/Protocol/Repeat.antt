-- ===== src/Protocol/Repeat.antt =====
-- The loops `for _ in 0..count` that read, and `for x in list` that write, with their rules.
use communication_platform.Base.{ℕ, zero, suc, List, [], ◌∷◌, ◌++◌, length, All}
use communication_platform.Base.Bytes.{Bytes}
use communication_platform.Protocol.Framing.{Parser, pure, ◌>>=◌}
use communication_platform.Protocol.Reads.{Reads, pure-Reads, bind-Reads, last-Reads}
use communication_platform.Protocol.Writing.{
  Writer, ◌>>◌, write_nothing, Writes, nothing-Writes, then-Writes,
}

-- `for _ in 0..count { values.push(p(reader)?); }`
unfoldable pub repeat {ℓ} : {A : Type ℓ} → ℕ → Parser A → Parser (List A)
repeat zero p = pure []
repeat (suc count) p = do value ← p; values ← repeat count p; pure (value ∷ values)

-- `for value in values { w(value) }`
unfoldable pub write_each {ℓ} : {A : Type ℓ} → (A → Writer) → List A → Writer
write_each w [] = write_nothing
write_each w (value ∷ values) = do w value; write_each w values

-- The bytes of a list, one value after the other.
abbrev pub bytes_of_all {ℓ} : {A : Type ℓ} → (A → Bytes) → List A → Bytes
bytes_of_all layout [] = []
bytes_of_all layout (value ∷ values) = layout value ++ bytes_of_all layout values

module _ {ℓ κ} {A : Type ℓ} (layout : A → Bytes) (P : A → Type κ) where
  pub repeat-Reads :
      (p : Parser A)
      → ((value : A) → P value → Reads p (layout value) value)
      → (values : List A) → All P values
      → Reads (repeat (length values) p) (bytes_of_all layout values) values
  unfolding repeat
  repeat-Reads p each [] h = pure-Reads []
  repeat-Reads p each (value ∷ values) h =
      bind-Reads _ (each value h.0)
        (last-Reads _ (repeat-Reads p each values h.1) (pure-Reads (value ∷ values)))

module _ {ℓ} {A : Type ℓ} (layout : A → Bytes) where
  pub write_each-Writes :
      (w : A → Writer)
      → ((value : A) → Writes (w value) (layout value))
      → (values : List A) → Writes (write_each w values) (bytes_of_all layout values)
  unfolding write_each
  write_each-Writes w each [] = nothing-Writes
  write_each-Writes w each (value ∷ values) =
      then-Writes (each value) (write_each-Writes w each values)
