-- ===== src/Protocol/Fields.antt =====
-- What the reading functions of protocol.rs accept.
use communication_platform.Base.{
  ℕ, ◌+◌, ◌^◌, ◌≤◌, ◌<◌, ◌≡◌, refl, sym, subst, Bool, true, false, [], ◌∷◌, ◌++◌, length,
  length-append, append_assoc, append-nil, arith, CryptoError, ok, drop-length, ltb, ◌==◌,
  take-append-drop, length-take, All-front, if◌then◌else◌, take as list_take, drop as list_drop,
}
use communication_platform.Base.Bytes.{
  Bytes, IsBytes, IsByte, IsArray, to_be_bytes, from_be_bytes, to_be_bytes-from_be_bytes,
  from_be_bytes-lt,
}
use communication_platform.Protocol.Framing.{
  Reader, pure, ◌>>=◌, max_input_bytes, take, array, u8, boolean, u16, u32, u64, framed, first_byte,
  read_flag, fail,
}
use communication_platform.Protocol.Reads.{between, frame, byte_of}
use communication_platform.Protocol.Accepts.{
  Took, Accepts, weaken, Nothing, still-Accepts, Then, bind-Accepts, pure-Accepts,
}

-- A string of `n` bytes, as it stands.
abbrev pub Exactly : ℕ → Bytes → Bytes → Type 0
Exactly n value xs = (xs ≡ value) × IsArray n value

take_inverts :
    (n : ℕ) (passed rest value : Bytes) (s : Reader)
    → take n (between passed rest) ≡ ok (value, s)
    → (n ≤ length rest)
      × (value ≡ list_take n rest)
      × (s ≡ record { input = passed ++ rest; position = length passed + n })
unfolding take
take_inverts n passed rest value s e =
    ground (arith, length-append passed rest, drop-length passed rest)

take_state :
    (n : ℕ) (passed rest value : Bytes) (s : Reader)
    → take n (between passed rest) ≡ ok (value, s)
    → s ≡ between (passed ++ list_take n rest) (list_drop n rest)
take_state n passed rest value s e = ground (
  arith,
  take_inverts n passed rest value s e,
  append_assoc passed (list_take n rest) (list_drop n rest),
  take-append-drop n rest,
  length-append passed (list_take n rest),
  length-take n rest,
)

take-IsArray :
    (n : ℕ) (rest : Bytes) → IsBytes rest → n ≤ length rest → IsArray n (list_take n rest)
take-IsArray n rest h l = record {
  size = omega (arith, length-take n rest);
  bytes = All-front IsByte _ (list_drop n rest) (rw (take-append-drop n rest) h);
}

pub take-Accepts : (n : ℕ) → Accepts (take n) (Exactly n)
take-Accepts n = record { accepts = found }
  where
    found :
        (passed rest value : Bytes) (s : Reader)
        → IsBytes rest
        → take n (between passed rest) ≡ ok (value, s)
        → Took (Exactly n) passed rest value s
    found passed rest value s h e =
        let t = take_inverts n passed rest value s e in
        record {
          read = list_take n rest;
          left = list_drop n rest;
          split = sym (take-append-drop n rest);
          state = take_state n passed rest value s e;
          meets = (sym t.1, rw t.1 (take-IsArray n rest h t.0));
        }

-- A test after a read.
pub test-Accepts :
    {A : Type 0} (c : Bool) (a : A) (e : CryptoError)
    → Accepts (if c then pure a else fail e) (Nothing (λ b. (b ≡ a) × (c ≡ true)))
test-Accepts true a e = still-Accepts _ _ λ r b s g. (cc, (cc, refl))
test-Accepts false a e = still-Accepts _ _ λ r b s g. absurd (cc g)

pub array-Accepts : (n : ℕ) → Accepts (array n) (Exactly n)
unfolding array
array-Accepts n =
    weaken (Exactly n)
      (bind-Accepts _ (take-Accepts n) (λ value. test-Accepts (length value == n) value _)) tidy
  where
    tidy :
        (b xs : Bytes)
        → Then (Exactly n) (λ value. Nothing (λ b. (b ≡ value) × ((length value == n) ≡ true))) b xs
        → Exactly n b xs
    tidy b xs (value, ys, zs, e, (e', h), (z, (v, t))) =
        (ground (arith, append-nil value), subst (IsArray n) (sym v) h)

abbrev pub IsU8 : ℕ → Bytes → Type 0
IsU8 b xs = (xs ≡ b ∷ []) × IsByte b

first_byte-Accepts :
    (value : Bytes) → Accepts (first_byte value) (Nothing (λ b. (bs : Bytes) × (value ≡ b ∷ bs)))
first_byte-Accepts [] = still-Accepts _ _ λ r c s g. absurd (cc g)
first_byte-Accepts (b ∷ bs) = still-Accepts _ _ λ r c s g. (cc, (bs, cc))

single : (b : ℕ) (bs : Bytes) → IsArray 1 (b ∷ bs) → (bs ≡ []) × IsByte b
single b [] h = (refl, h.bytes.0)
single b (c ∷ bs) h = absurd (omega (arith, h.size))

pub u8-Accepts : Accepts u8 IsU8
unfolding u8
u8-Accepts = weaken IsU8 (bind-Accepts first_byte (take-Accepts 1) first_byte-Accepts) tidy
  where
    tidy :
        (b : ℕ) (xs : Bytes)
        → Then (Exactly 1) (λ value. Nothing (λ b. (bs : Bytes) × (value ≡ b ∷ bs))) b xs
        → IsU8 b xs
    tidy b xs (value, ys, zs, e, (e', h), (z, (bs, v))) =
        let t = single b bs (subst (IsArray 1) v h) in (ground (arith, append-nil value, t.0), t.1)

abbrev pub IsFlag : Bool → Bytes → Type 0
IsFlag b xs = xs ≡ byte_of b ∷ []

read_flag-Accepts : (v : ℕ) → Accepts (read_flag v) (Nothing (λ b. v ≡ byte_of b))
read_flag-Accepts v = still-Accepts _ _ λ r b s g. (ground arith, ground arith)

pub boolean-Accepts : Accepts boolean IsFlag
unfolding boolean
boolean-Accepts = weaken IsFlag (bind-Accepts read_flag u8-Accepts read_flag-Accepts) tidy
  where
    tidy :
        (b : Bool) (xs : Bytes) → Then IsU8 (λ v. Nothing (λ b. v ≡ byte_of b)) b xs → IsFlag b xs
    tidy b xs (v, ys, zs, e, (e', h), (z, g)) = ground arith

-- The integer `v` in `k` bytes.
abbrev pub IsInt : ℕ → ℕ → Bytes → Type 0
IsInt k v xs = (xs ≡ to_be_bytes k v) × (v < 256 ^ k)

be_array-Accepts : (k : ℕ) → Accepts (array k >>= λ value. pure (from_be_bytes value)) (IsInt k)
be_array-Accepts k =
    weaken (IsInt k)
      (bind-Accepts _ (array-Accepts k) (λ value. pure-Accepts (from_be_bytes value))) tidy
  where
    tidy :
        (v : ℕ) (xs : Bytes)
        → Then (Exactly k) (λ value. Nothing (λ b. b ≡ from_be_bytes value)) v xs
        → IsInt k v xs
    tidy v xs (value, ys, zs, e, (e', h), (z, g)) = (
      ground (arith, append-nil value, to_be_bytes-from_be_bytes k value h),
      rw g (from_be_bytes-lt k value h),
    )

pub u16-Accepts : Accepts u16 (IsInt 2)
unfolding u16
u16-Accepts = be_array-Accepts 2

pub u32-Accepts : Accepts u32 (IsInt 4)
unfolding u32
u32-Accepts = be_array-Accepts 4

pub u64-Accepts : Accepts u64 (IsInt 8)
unfolding u64
u64-Accepts = be_array-Accepts 8

abbrev pub IsFrame : Bytes → Bytes → Type 0
IsFrame value xs = (xs ≡ frame value) × IsBytes value × (length value ≤ max_input_bytes)

guarded_take :
    (c : Bool) (n : ℕ) (e : CryptoError)
    → Accepts (if c then fail e else take n) (λ v xs. (c ≡ false) × Exactly n v xs)
guarded_take true n e = record { accepts = λ passed rest a s h g. absurd (cc g) }
guarded_take false n e = weaken _ (take-Accepts n) (λ a xs h. (refl, h))

pub framed-Accepts : Accepts framed IsFrame
unfolding framed
framed-Accepts =
    weaken IsFrame (bind-Accepts _ u32-Accepts (λ n. guarded_take (ltb max_input_bytes n) n _)) tidy
  where
    tidy :
        (value xs : Bytes)
        → Then (IsInt 4) (λ n v ys. (ltb max_input_bytes n ≡ false) × Exactly n v ys) value xs
        → IsFrame value xs
    tidy value xs (n, ys, zs, e, (e', h), (c, (z, a))) =
        (rw (e, e', z, a.size) refl, a.bytes, ground (arith, a.size))
