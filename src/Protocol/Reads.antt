-- ===== src/Protocol/Reads.antt =====
-- Rules for round trips: a decoder that reads back what an encoder wrote, whatever follows.
use communication_platform.Base.{
  ℕ, ◌^◌, ◌≤◌, ◌<◌, ◌≡◌, refl, ◌∙◌, Bool, true, false, [], ◌∷◌, ◌++◌, length, length-append,
  append_assoc, append-nil, arith, Result, CryptoError, ok, take-length, drop-length, ltb, ◌==◌,
}
use communication_platform.Base.Bytes.{
  Bytes, to_be_bytes, from_be_bytes, length-to_be_bytes, from_be_bytes-to_be_bytes, bytes_eq_iff,
}
use communication_platform.Protocol.Framing.{
  Reader, Parser, pure, ◌>>=◌, ◌>>◌, reject, lift, usize_end, max_input_bytes, take, expect, array,
  first_byte, read_flag, u8, boolean, u16, u32, u64, framed, finish, run,
}

-- A reader between what it has passed and what is left.
abbrev pub between : Bytes → Bytes → Reader
between passed left = record { input = passed ++ left; position = length passed }

-- `p` reads `a` from the bytes `xs`, at any place of an input that a slice can have.
pub record Reads {ℓ} {A : Type ℓ} (p : Parser A) (xs : Bytes) (a : A) : Type ℓ where
  pub reads :
      (passed rest : Bytes)
      → length (passed ++ (xs ++ rest)) < usize_end
      → p (between passed (xs ++ rest)) ≡ ok (a, between (passed ++ xs) rest)

pub pure-Reads {ℓ} : {A : Type ℓ} (a : A) → Reads (pure a) [] a
pure-Reads a = record { reads = λ passed rest h. rw (append-nil passed) refl }

pub chain {ℓ κ} :
    {A : Type ℓ} {B : Type κ} (p : Parser A) (f : A → Parser B) (r : Reader) {s : Reader} {a : A}
    → p r ≡ ok (a, s)
    → (p >>= f) r ≡ f a s
unfolding ◌>>=◌
chain p f r e = rw (e, ◌>>=◌)

pub bind-Reads {ℓ κ} :
    {A : Type ℓ} {B : Type κ} {p : Parser A} (f : A → Parser B) {xs ys : Bytes} {a : A} {b : B}
    → Reads p xs a
    → Reads (f a) ys b
    → Reads (p >>= f) (xs ++ ys) b
bind-Reads {p} f {xs} {ys} {a} {b} m k = record { reads = both }
  where
    both :
        (passed rest : Bytes)
        → length (passed ++ ((xs ++ ys) ++ rest)) < usize_end
        → (p >>= f) (between passed ((xs ++ ys) ++ rest))
          ≡ ok (b, between (passed ++ (xs ++ ys)) rest)
    both passed rest h = rw (append_assoc xs ys rest) (
        chain p f _ (m.reads passed (ys ++ rest) (rw (append_assoc xs ys rest) at h))
        ∙ rw (← append_assoc passed xs ys) (
            k.reads (passed ++ xs) rest
              (rw (append_assoc passed xs (ys ++ rest)) (rw (append_assoc xs ys rest) at h))))

pub then-Reads {ℓ} :
    {B : Type ℓ} {p : Parser (Unit {0})} {k : Parser B} {xs ys : Bytes} {u : Unit {0}} {b : B}
    → Reads p xs u
    → Reads k ys b
    → Reads (p >> k) (xs ++ ys) b
unfolding ◌>>◌
then-Reads {k} m n = bind-Reads (λ _. k) m n

-- A step that reads nothing.
pub skip-Reads {ℓ κ} :
    {A : Type ℓ} {B : Type κ} {p : Parser A} (f : A → Parser B) {xs : Bytes} {a : A} {b : B}
    → Reads p [] a
    → Reads (f a) xs b
    → Reads (p >>= f) xs b
skip-Reads f m k = bind-Reads f m k

reject-false : (e : CryptoError) → Reads (reject false e) [] tt
unfolding reject
reject-false e = pure-Reads tt

pub pass-Reads : {c : Bool} (e : CryptoError) → c ≡ false → Reads (reject c e) [] tt
pass-Reads e h = rw h (reject-false e)

pub reject-Reads {ℓ} :
    {B : Type ℓ} {c : Bool} (e : CryptoError) {k : Parser B} {xs : Bytes} {b : B}
    → c ≡ false
    → Reads k xs b
    → Reads (reject c e >> k) xs b
reject-Reads e {k = k} {xs} {b} h m = rw h (then-Reads (reject-false e) m)

pub lift-Reads {ℓ} : {A : Type ℓ} {m : Result A} {a : A} → m ≡ ok a → Reads (lift m) [] a
lift-Reads {a} h = rw h (unfold lift in pure-Reads a)

take_at :
    (xs passed rest : Bytes)
    → length (passed ++ (xs ++ rest)) < usize_end
    → take (length xs) (between passed (xs ++ rest)) ≡ ok (xs, between (passed ++ xs) rest)
unfolding take
take_at xs passed rest h = ground (
  arith,
  length-append passed (xs ++ rest),
  length-append xs rest,
  length-append passed xs,
  append_assoc passed xs rest,
  drop-length passed (xs ++ rest),
  take-length xs rest,
)

pub take-Reads : {n : ℕ} (xs : Bytes) → length xs ≡ n → Reads (take n) xs xs
take-Reads xs e = rw (← e) (record { reads = take_at xs })

-- A last step that reads nothing.
pub last-Reads {ℓ κ} :
    {A : Type ℓ} {B : Type κ} {p : Parser A} (f : A → Parser B) {xs : Bytes} {a : A} {b : B}
    → Reads p xs a
    → Reads (f a) [] b
    → Reads (p >>= f) xs b
last-Reads f {xs} m k = rw append-nil at (bind-Reads f m k)

pub array-Reads : {n : ℕ} (xs : Bytes) → length xs ≡ n → Reads (array n) xs xs
unfolding array
array-Reads {n} xs e =
    let fits : (length xs == n) ≡ true = ground arith in
    last-Reads _ (take-Reads xs e) (rw fits (pure-Reads xs))

pub expect-Reads : (xs : Bytes) → Reads (expect xs) xs tt
unfolding expect
expect-Reads xs =
    last-Reads _ (take-Reads xs refl) (rw ((bytes_eq_iff xs xs).1 refl) (pure-Reads tt))

pub u8-Reads : (b : ℕ) → Reads u8 (b ∷ []) b
unfolding u8
u8-Reads b = last-Reads first_byte (take-Reads (b ∷ []) refl) (pure-Reads b)

-- The byte that `u8::from(flag)` is.
abbrev pub byte_of : Bool → ℕ
byte_of false = 0
byte_of true = 1

pub boolean-Reads : (b : Bool) → Reads boolean (byte_of b ∷ []) b
unfolding boolean
boolean-Reads false = last-Reads read_flag (u8-Reads 0) (pure-Reads false)
boolean-Reads true = last-Reads read_flag (u8-Reads 1) (pure-Reads true)

be_array-Reads :
    (k v : ℕ)
    → v < 256 ^ k
    → Reads (array k >>= λ value. pure (from_be_bytes value)) (to_be_bytes k v) v
be_array-Reads k v h =
    last-Reads _ (array-Reads (to_be_bytes k v) (length-to_be_bytes k v))
      (rw (from_be_bytes-to_be_bytes k v h) (pure-Reads v))

pub u16-Reads : (v : ℕ) → v < 256 ^ 2 → Reads u16 (to_be_bytes 2 v) v
unfolding u16
u16-Reads v h = be_array-Reads 2 v h

pub u32-Reads : (v : ℕ) → v < 256 ^ 4 → Reads u32 (to_be_bytes 4 v) v
unfolding u32
u32-Reads v h = be_array-Reads 4 v h

pub u64-Reads : (v : ℕ) → v < 256 ^ 8 → Reads u64 (to_be_bytes 8 v) v
unfolding u64
u64-Reads v h = be_array-Reads 8 v h

-- A frame as it is written.
abbrev pub frame : Bytes → Bytes
frame value = to_be_bytes 4 (length value) ++ value

pub framed-Reads :
    (value : Bytes) → length value ≤ max_input_bytes → Reads framed (frame value) value
unfolding framed
framed-Reads value h =
    let fits : ltb max_input_bytes (length value) ≡ false = ground arith in
    bind-Reads _ (u32-Reads (length value) (omega arith)) (rw fits (take-Reads value refl))

-- A decoder that reads all of `xs`, the end of its input.
pub record ReadsAll {ℓ} {A : Type ℓ} (p : Parser A) (xs : Bytes) (a : A) : Type ℓ where
  pub reads_all :
      (passed : Bytes)
      → length (passed ++ xs) < usize_end
      → p (between passed xs) ≡ ok (a, between (passed ++ xs) [])

pub Reads-ReadsAll {ℓ} :
    {A : Type ℓ} {p : Parser A} {xs : Bytes} {a : A} → Reads p xs a → ReadsAll p xs a
Reads-ReadsAll {xs} m = record {
  reads_all = λ passed h. rw (append-nil xs) at (m.reads passed [] (rw (append-nil xs) h));
}

pub bind-ReadsAll {ℓ κ} :
    {A : Type ℓ} {B : Type κ} {p : Parser A} (f : A → Parser B) {xs ys : Bytes} {a : A} {b : B}
    → Reads p xs a
    → ReadsAll (f a) ys b
    → ReadsAll (p >>= f) (xs ++ ys) b
bind-ReadsAll {p} f {xs} {ys} {a} {b} m k = record { reads_all = both }
  where
    both :
        (passed : Bytes)
        → length (passed ++ (xs ++ ys)) < usize_end
        → (p >>= f) (between passed (xs ++ ys)) ≡ ok (b, between (passed ++ (xs ++ ys)) [])
    both passed h =
        chain p f _ (m.reads passed ys h)
        ∙ rw (← append_assoc passed xs ys)
            (k.reads_all (passed ++ xs) (rw (append_assoc passed xs ys) h))

pub last-ReadsAll {ℓ κ} :
    {A : Type ℓ} {B : Type κ} {p : Parser A} (f : A → Parser B) {xs : Bytes} {a : A} {b : B}
    → Reads p xs a
    → ReadsAll (f a) [] b
    → ReadsAll (p >>= f) xs b
last-ReadsAll f {xs} m k = rw (append-nil xs) at (bind-ReadsAll f m k)

pub then-ReadsAll {ℓ} :
    {B : Type ℓ} {p : Parser (Unit {0})} {k : Parser B} {xs ys : Bytes} {u : Unit {0}} {b : B}
    → Reads p xs u
    → ReadsAll k ys b
    → ReadsAll (p >> k) (xs ++ ys) b
unfolding ◌>>◌
then-ReadsAll {k} m n = bind-ReadsAll (λ _. k) m n

pub reject-ReadsAll {ℓ} :
    {B : Type ℓ} {c : Bool} (e : CryptoError) {k : Parser B} {xs : Bytes} {b : B}
    → c ≡ false
    → ReadsAll k xs b
    → ReadsAll (reject c e >> k) xs b
reject-ReadsAll e {k = k} {xs} {b} h m = rw h (then-ReadsAll (reject-false e) m)

finish_at : (passed : Bytes) → finish (between passed []) ≡ ok (tt, between passed [])
unfolding finish
finish_at passed = ground (arith, append-nil passed)

-- Nothing is left where `finish` asks.
pub finish-ReadsAll {ℓ} :
    {B : Type ℓ} {k : Parser B} {b : B} → ReadsAll k [] b → ReadsAll (finish >> k) [] b
unfolding ◌>>◌
finish-ReadsAll {k} {b} m = record { reads_all = after }
  where
    after :
        (passed : Bytes)
        → length (passed ++ []) < usize_end
        → (finish >> k) (between passed []) ≡ ok (b, between (passed ++ []) [])
    after passed h = chain finish (λ _. k) _ (finish_at passed) ∙ m.reads_all passed h

pub run-ReadsAll {ℓ} :
    {A : Type ℓ} {p : Parser A} {xs : Bytes} {a : A}
    → ReadsAll p xs a
    → length xs < usize_end
    → run p xs ≡ ok a
unfolding run
run-ReadsAll m h = rw (m.reads_all [] h)

-- A value is made of what was read to the end.
pub map-ReadsAll {ℓ κ} :
    {A : Type ℓ} {B : Type κ} {p : Parser A} (g : A → B) {xs : Bytes} {a : A}
    → ReadsAll p xs a
    → ReadsAll (p >>= λ a. pure (g a)) xs (g a)
map-ReadsAll {p = p} g m = record {
  reads_all = λ passed h. chain p (λ a. pure (g a)) _ (m.reads_all passed h);
}

-- The last steps of a decoder: nothing is left, and what was read is judged.
pub checked-ReadsAll {ℓ κ} :
    {A : Type ℓ} {B : Type κ} {p : Parser A} {xs : Bytes} {a : A} {b : B} (k : A → Result B)
    → Reads p xs a
    → k a ≡ ok b
    → ReadsAll (p >>= λ a. finish >> lift (k a)) xs b
checked-ReadsAll {xs} k m e =
    rw (append-nil xs) at (
      bind-ReadsAll (λ a. finish >> lift (k a)) m (finish-ReadsAll (Reads-ReadsAll (lift-Reads e))))
