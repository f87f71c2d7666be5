-- ===== src/Protocol/Accepts.antt =====
-- Rules for canonicity: whatever a decoder accepts, an encoder of the same value would have written.
use communication_platform.Base.{
  ℕ, Bool, true, ==_iff, ◌==◌, if◌then◌else◌, ◌≡◌, refl, sym, ap, ◌∙◌, subst, Bool, true, false, [],
  ◌∷◌, ◌++◌, length, length-append, append_assoc, append-nil, arith, Result, CryptoError, ok, err,
  ◌>>=◌ as bind_result, All-back, if◌then◌else◌,
}
use communication_platform.Base.Bytes.{Bytes, IsBytes, IsByte}
use communication_platform.Protocol.Framing.{
  Reader, Parser, pure, ◌>>=◌, ◌>>◌, reject, lift, finish, run, fail,
}
use communication_platform.Protocol.Reads.{between}

-- `s` is a reader that `p` leaves after it read `xs` from the front of `rest`, with `E a xs`.
pub record Took {A : Type 0} (E : A → Bytes → Type 0) (passed rest : Bytes) (a : A) (s : Reader)
    : Type 0 where
  pub read : Bytes
  pub left : Bytes
  pub split : rest ≡ read ++ left
  pub state : s ≡ between (passed ++ read) left
  pub meets : E a read

pub record Accepts {A : Type 0} (p : Parser A) (E : A → Bytes → Type 0) : Type 0 where
  pub accepts :
      (passed rest : Bytes) (a : A) (s : Reader)
      → IsBytes rest
      → p (between passed rest) ≡ ok (a, s)
      → Took E passed rest a s

pub weaken :
    {A : Type 0} {p : Parser A} {E : A → Bytes → Type 0} (F : A → Bytes → Type 0)
    → Accepts p E
    → ((a : A) (xs : Bytes) → E a xs → F a xs)
    → Accepts p F
weaken F m w = record {
  accepts = λ passed rest a s h e.
      let t = m.accepts passed rest a s h e in
      record {
        read = t.read;
        left = t.left;
        split = t.split;
        state = t.state;
        meets = w a t.read t.meets;
      };
}

-- A step that reads nothing and establishes `P`.
abbrev pub Nothing : {A : Type 0} → (A → Type 0) → A → Bytes → Type 0
Nothing P a xs = (xs ≡ []) × P a

pub still-Accepts :
    {A : Type 0} (p : Parser A) (P : A → Type 0)
    → ((r : Reader) (a : A) (s : Reader) → p r ≡ ok (a, s) → (s ≡ r) × P a)
    → Accepts p (Nothing P)
still-Accepts p P f = record {
  accepts = λ passed rest a s h e.
      let k = f (between passed rest) a s e in
      record {
        read = [];
        left = rest;
        split = refl;
        state = k.0 ∙ rw append-nil refl;
        meets = (refl, k.1);
      };
}

-- What a sequence reads.
abbrev pub Then :
    {A B : Type 0} → (A → Bytes → Type 0) → (A → B → Bytes → Type 0) → B → Bytes → Type 0
Then {A} E F b xs = (a : A) × (ys : Bytes) × (zs : Bytes) × (xs ≡ ys ++ zs) × E a ys × F a b zs

module _ {A B : Type 0} {p : Parser A} (f : A → Parser B) {E : A → Bytes → Type 0}
    {F : A → B → Bytes → Type 0} (m : Accepts p E) (k : (a : A) → Accepts (f a) (F a)) where
  continue :
      (passed rest : Bytes) (a : A) (b : B) (r s : Reader)
      → IsBytes rest
      → Took E passed rest a r
      → f a r ≡ ok (b, s)
      → Took (Then E F) passed rest b s
  continue passed rest a b r s h t e =
      let u : Took (F a) (passed ++ t.read) t.left b s =
        (k a).accepts (passed ++ t.read) t.left b s
          (All-back IsByte t.read t.left (subst IsBytes t.split h))
          (subst (λ x. f a x ≡ ok (b, s)) t.state e) in
      record {
        read = t.read ++ u.read;
        left = u.left;
        split = t.split ∙ ap (◌++◌ t.read) u.split ∙ sym (append_assoc t.read u.read u.left);
        state = u.state ∙ ap (λ x. between x u.left) (append_assoc passed t.read u.read);
        meets = (a, t.read, u.read, refl, t.meets, u.meets);
      }

  first :
      (passed rest : Bytes) (b : B) (s : Reader) (q : Result (A × Reader))
      → IsBytes rest
      → p (between passed rest) ≡ q
      → (p >>= f) (between passed rest) ≡ ok (b, s)
      → Took (Then E F) passed rest b s
  unfolding ◌>>=◌
  first passed rest b s (ok (a, r)) h e g =
      continue passed rest a b r s h (m.accepts passed rest a r h e) (rw (e, ◌>>=◌) at g)
  first passed rest b s (err x) h e g = absurd (cc (rw (e, ◌>>=◌) at g))

  pub bind-Accepts : Accepts (p >>= f) (Then E F)
  bind-Accepts = record {
    accepts = λ passed rest b s h g. first passed rest b s (p (between passed rest)) h refl g;
  }

pub then-Accepts :
    {B : Type 0} {p : Parser (Unit {0})} {k : Parser B} {E : Unit {0} → Bytes → Type 0}
    {F : B → Bytes → Type 0}
    → Accepts p E
    → Accepts k F
    → Accepts (p >> k) (Then E (λ _. F))
unfolding ◌>>◌
then-Accepts {k} m n = bind-Accepts (λ _. k) m (λ _. n)

pub pure-Accepts : {A : Type 0} (a : A) → Accepts (pure a) (Nothing (λ b. b ≡ a))
pure-Accepts a = still-Accepts (pure a) (λ b. b ≡ a) λ r b s e. (cc, cc)

pub reject-Accepts : (c : Bool) (e : CryptoError) → Accepts (reject c e) (Nothing (λ _. c ≡ false))
unfolding reject
reject-Accepts true e = still-Accepts _ (λ _. true ≡ false) λ r u s g. absurd (cc g)
reject-Accepts false e = still-Accepts _ (λ _. false ≡ false) λ r u s g. (cc, refl)

pub lift-Accepts : {A : Type 0} (m : Result A) → Accepts (lift m) (Nothing (λ a. m ≡ ok a))
unfolding lift
lift-Accepts (ok b) = still-Accepts _ (λ a. ok b ≡ ok a) λ r a s g. (cc, cc)
lift-Accepts (err e) = still-Accepts _ (λ a. err e ≡ ok a) λ r a s g. absurd (cc g)

-- A test, and a value built from the last read.
pub guard-Accepts :
    {B : Type 0} {k : Parser B} {F : B → Bytes → Type 0} (c : Bool) (e : CryptoError)
    → Accepts k F
    → Accepts (reject c e >> k) (λ b xs. (c ≡ false) × F b xs)
guard-Accepts c e m =
    weaken _ (then-Accepts (reject-Accepts c e) m)
      λ b xs (u, ys, zs, s, (z, h), f). (h, rw (s, z) f)

pub build-Accepts :
    {A B : Type 0} {p : Parser A} {E : A → Bytes → Type 0} (g : A → B)
    → Accepts p E
    → Accepts (p >>= λ a. pure (g a)) (λ b xs. (a : A) × E a xs × (b ≡ g a))
build-Accepts {E} g m =
    weaken _ (bind-Accepts _ m λ a. pure-Accepts (g a))
      λ b xs (a, ys, zs, s, h, (z, e)). (a, subst (E a) (ground (arith, append-nil ys)) h, e)

pub fail-Accepts : {A : Type 0} {E : A → Bytes → Type 0} (e : CryptoError) → Accepts (fail e) E
fail-Accepts e = record { accepts = λ passed rest a s h g. absurd (cc g) }

-- A choice by a tag.
pub match-Accepts :
    {A : Type 0} {p q : Parser A} {G : A → Bytes → Type 0} (tag k : ℕ)
    → (tag ≡ k → Accepts p G)
    → Accepts q G
    → Accepts (if tag == k then p else q) G
match-Accepts {p} {q} {G} tag k m n = cases (tag == k) refl
  where
    cases : (c : Bool) → (tag == k) ≡ c → Accepts (if c then p else q) G
    cases true h = m ((==_iff tag k).0 h)
    cases false h = n

length_zero : (xs : Bytes) → length xs ≡ 0 → xs ≡ []
length_zero [] h = refl
length_zero (x ∷ xs) h = absurd (omega arith)

ends :
    {B : Type 0} (passed left : Bytes) (m : Result B) (b : B) (s : Reader)
    → (finish >> lift m) (between passed left) ≡ ok (b, s)
    → (left ≡ []) × (m ≡ ok b)
unfolding ◌>>◌ ◌>>=◌ finish lift
ends passed left (ok a) b s g = ground (arith, length-append passed left, length_zero left)
ends passed left (err e) b s g = ground arith

ok_of_run :
    {B : Type 0} (q : Result (B × Reader)) {b : B}
    → bind_result q (λ x. ok x.0) ≡ ok b
    → (s : Reader) × (q ≡ ok (b, s))
ok_of_run (ok (a, s)) g = (s, cc)
ok_of_run (err e) g = cc

pub run-eq-ok :
    {B : Type 0} (p : Parser B) (input : Bytes) {b : B}
    → run p input ≡ ok b
    → (s : Reader) × (p (between [] input) ≡ ok (b, s))
unfolding run
run-eq-ok p input g = ok_of_run (p (between [] input)) g

bind_cases :
    {A B : Type 0} (q : Result (A × Reader)) (f : A → Parser B) {b : B} {s : Reader}
    → (elim q [ ok (a, r') ↦ f a r' | err e ↦ err e ]) ≡ ok (b, s)
    → (a : A) × (r : Reader) × (q ≡ ok (a, r)) × (f a r ≡ ok (b, s))
bind_cases (ok (a, r)) f g = (a, r, refl, g)
bind_cases (err e) f g = cc

pub bind-eq-ok :
    {A B : Type 0} (p : Parser A) (f : A → Parser B) (r : Reader) {b : B} {s : Reader}
    → (p >>= f) r ≡ ok (b, s)
    → (a : A) × (r' : Reader) × (p r ≡ ok (a, r')) × (f a r' ≡ ok (b, s))
unfolding ◌>>=◌
bind-eq-ok p f r g = bind_cases (p r) f g

-- A decoder that must end where its input ends, and then judges what it has read.
pub run-Accepts :
    {A B : Type 0} (p : Parser A) (k : A → Result B) {E : A → Bytes → Type 0} (input : Bytes)
    {b : B}
    → Accepts p E
    → IsBytes input
    → run (p >>= λ a. finish >> lift (k a)) input ≡ ok b
    → (a : A) × E a input × (k a ≡ ok b)
run-Accepts p k {E} input {b} m h g =
    let (s, x) = run-eq-ok _ input g in
    let (a, r, y, z) = bind-eq-ok p _ (between [] input) x in
    let t : Took E [] input a r = m.accepts [] input a r h y in
    let (w, v) =
      ends t.read t.left (k a) b s (subst (λ q. (finish >> lift (k a)) q ≡ ok (b, s)) t.state z) in
    (a, subst (E a) (sym (t.split ∙ ap (◌++◌ t.read) w ∙ append-nil t.read)) t.meets, v)

judged :
    {B : Type 0} (r : Reader) (m : Result B) (b : B) (s : Reader)
    → (finish >> lift m) r ≡ ok (b, s)
    → m ≡ ok b
unfolding ◌>>◌ ◌>>=◌ finish lift
judged r (ok a) b s g = ground (arith)
judged r (err e) b s g = ground (arith)

-- What such a decoder returns has passed its judgement.
pub run-judged :
    {A B : Type 0} (p : Parser A) (k : A → Result B) (input : Bytes) {b : B}
    → run (p >>= λ a. finish >> lift (k a)) input ≡ ok b
    → (a : A) × (r : Reader) × (p (between [] input) ≡ ok (a, r)) × (k a ≡ ok b)
run-judged p k input {b} g =
    let (s, x) = run-eq-ok _ input g in
    let (a, r, y, z) = bind-eq-ok p _ (between [] input) x in (a, r, y, judged r (k a) b s z)
