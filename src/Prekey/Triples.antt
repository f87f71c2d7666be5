-- ===== src/Prekey/Triples.antt =====
-- prekey_state.rs: what holds of the state after an operation, with each of its results.
use communication_platform.Base.{◌≡◌, refl, ap, Bool, true, false, Result, CryptoError, ok, err}
use communication_platform.Prekey.{DeviceState}
use communication_platform.Prekey.Operations.{
  World, Operation, after, ◌>>=◌, ◌>>◌, return, attempt, fail_if, modify, sample,
}

pub record Triple {E A : Type 0} (P : DeviceState → Type 0) (m : Operation E A)
    (Q : Result A → DeviceState → Type 0) : Type 0 where
  pub holds : (w : World E) → P w.device → Q (m w).0 (m w).1.device

module _ {E : Type 0} where
  pub pre-Triple :
      {A : Type 0} {P R : DeviceState → Type 0} {m : Operation E A}
      {Q : Result A → DeviceState → Type 0}
      → Triple P m Q
      → ((s : DeviceState) → R s → P s)
      → Triple R m Q
  pre-Triple t h = record { holds = λ w x. t.holds w (h w.device x) }

  pub return-Triple :
      {A : Type 0} {P : DeviceState → Type 0} (Q : Result A → DeviceState → Type 0) (a : A)
      → ((s : DeviceState) → P s → Q (ok a) s)
      → Triple {E = E} P (return a) Q
  return-Triple Q a h = record { holds = λ w x. h w.device x }

  pub attempt-Triple :
      {A : Type 0} (P : DeviceState → Type 0) (result : Result A)
      → Triple {E = E} P (attempt result) (λ x s. (x ≡ result) × P s)
  attempt-Triple P result = record { holds = λ w x. (refl, x) }

  pub attempt-Keeps :
      {A : Type 0} (P : DeviceState → Type 0) (result : Result A)
      → Triple {E = E} P (attempt result) (λ x s. P s)
  attempt-Keeps P result = record { holds = λ w x. x }

  pub fail_if-Triple :
      (P : DeviceState → Type 0) (b : Bool) (e : CryptoError)
      → Triple {E = E} P (fail_if b e) (λ x s. P s)
  fail_if-Triple P true e = record { holds = λ w x. x }
  fail_if-Triple P false e = record { holds = λ w x. x }

  pub modify-Triple :
      {P : DeviceState → Type 0} (Q : DeviceState → Type 0) (change : DeviceState → DeviceState)
      → ((s : DeviceState) → P s → Q (change s))
      → Triple {E = E} P (modify change) (λ x s. Q s)
  modify-Triple Q change h = record { holds = λ w x. h w.device x }

  pub sample-Triple :
      {A : Type 0} (P : DeviceState → Type 0) (draw : E → Result A × E)
      → Triple P (sample draw) (λ x s. P s)
  sample-Triple P draw = record { holds = λ w x. x }

  module _ {A B : Type 0} (m : Operation E A) (f : A → Operation E B)
      (Q : Result A → DeviceState → Type 0) (R : Result B → DeviceState → Type 0) where
    after_holds :
        (x : Result A × World E)
        → ((a : A) → Triple (Q (ok a)) (f a) R)
        → ((e : CryptoError) (s : DeviceState) → Q (err e) s → R (err e) s)
        → Q x.0 x.1.device
        → R (after x f).0 (after x f).1.device
    after_holds (ok a, w) k l h = (k a).holds w h
    after_holds (err e, w) k l h = l e w.device h

    pub bind-Triple :
        {P : DeviceState → Type 0}
        → Triple P m Q
        → ((a : A) → Triple (Q (ok a)) (f a) R)
        → ((e : CryptoError) (s : DeviceState) → Q (err e) s → R (err e) s)
        → Triple P (m >>= f) R
    bind-Triple t k l = record { holds = λ w h. after_holds (m w) k l (t.holds w h) }

  -- A first step that keeps `P`, whatever its result.
  pub keep-Triple :
      {A B : Type 0} (m : Operation E A) (f : A → Operation E B) (P : DeviceState → Type 0)
      (R : Result B → DeviceState → Type 0)
      → Triple P m (λ x s. P s)
      → ((a : A) → Triple P (f a) R)
      → ((e : CryptoError) (s : DeviceState) → P s → R (err e) s)
      → Triple P (m >>= f) R
  keep-Triple m f P R t k l = bind-Triple m f (λ x s. P s) R t k l

-- A state with `P`, and a good value where there is one.
abbrev pub Gives :
    {A : Type 0} → (DeviceState → Type 0) → (A → Type 0) → Result A → DeviceState → Type 0
Gives P Good (ok a) s = P s × Good a
Gives P Good (err e) s = P s

-- Steps that leave the state as it is; what follows them may use where their values come from.
module _ {E A B : Type 0} {f : A → Operation E B} (P : DeviceState → Type 0)
    (Good : B → Type 0) where
  pub attempt-Gives :
      (result : Result A)
      → ((a : A) → result ≡ ok a → Triple P (f a) (Gives P Good))
      → Triple P (attempt result >>= f) (Gives P Good)
  attempt-Gives (ok a) k = record { holds = λ w h. (k a refl).holds w h }
  attempt-Gives (err e) k = record { holds = λ w h. h }

  sampled :
      (draw : E → Result A × E) (w : World E) (q : Result A × E)
      → draw w.entropy ≡ q
      → ((a : A) (e : E) → (draw e).0 ≡ ok a → Triple P (f a) (Gives P Good))
      → P w.device
      → Gives P Good ((sample (λ e. q) >>= f) w).0 ((sample (λ e. q) >>= f) w).1.device
  sampled draw w (ok a, e) s k h =
      (k a w.entropy (ap (λ t. t.0) s)).holds (record w { entropy = e }) h
  sampled draw w (err x, e) s k h = h

  pub sample-Gives :
      (draw : E → Result A × E)
      → ((a : A) (e : E) → (draw e).0 ≡ ok a → Triple P (f a) (Gives P Good))
      → Triple P (sample draw >>= f) (Gives P Good)
  sample-Gives draw k = record { holds = λ w h. sampled draw w (draw w.entropy) refl k h }

pub return-Gives :
    {E A : Type 0} (P : DeviceState → Type 0) (Good : A → Type 0) (a : A)
    → Good a
    → Triple {E = E} P (return a) (Gives P Good)
return-Gives P Good a g = record { holds = λ w h. (h, g) }

pub bind-Gives :
    {E A B : Type 0} (P : DeviceState → Type 0) (Have : A → Type 0) (Good : B → Type 0)
    (m : Operation E A) (f : A → Operation E B)
    → Triple P m (Gives P Have)
    → ((a : A) → Have a → Triple P (f a) (Gives P Good))
    → Triple P (m >>= f) (Gives P Good)
bind-Gives P Have Good m f t k =
    bind-Triple m f (Gives P Have) (Gives P Good) t
      (λ a. record { holds = λ w h. (k a h.1).holds w h.0 }) (λ e s h. h)

-- A result that changes nothing, with what it is.
pub attempt-cases :
    {E A B : Type 0} {f : A → Operation E B} (P : DeviceState → Type 0)
    (Q : Result B → DeviceState → Type 0) (result : Result A)
    → ((a : A) → result ≡ ok a → Triple P (f a) Q)
    → ((e : CryptoError) (s : DeviceState) → P s → Q (err e) s)
    → Triple P (attempt result >>= f) Q
attempt-cases P Q (ok a) k l = record { holds = λ w h. (k a refl).holds w h }
attempt-cases P Q (err e) k l = record { holds = λ w h. l e w.device h }

pub fail_if-cases :
    {E B : Type 0} {m : Operation E B} (P : DeviceState → Type 0)
    (Q : Result B → DeviceState → Type 0) (b : Bool) (e : CryptoError)
    → (b ≡ false → Triple P m Q)
    → ((s : DeviceState) → P s → Q (err e) s)
    → Triple P (fail_if b e >> m) Q
fail_if-cases P Q false e k l = record { holds = λ w h. (k refl).holds w h }
fail_if-cases P Q true e k l = record { holds = λ w h. l w.device h }

-- A first step of which nothing is known.
pub skip-Triple :
    {E A B : Type 0} (m : Operation E A) (f : A → Operation E B)
    (R : Result B → DeviceState → Type 0)
    → ((a : A) → Triple (λ s. Unit {0}) (f a) R)
    → ((e : CryptoError) (s : DeviceState) → R (err e) s)
    → Triple (λ s. Unit {0}) (m >>= f) R
skip-Triple m f R k l =
    bind-Triple m f (λ x s. Unit {0}) R (record { holds = λ w h. tt }) k (λ e s h. l e s)

pub modify-Gives :
    {E B : Type 0} {m : Operation E B} (P : DeviceState → Type 0) (Good : B → Type 0)
    (change : DeviceState → DeviceState)
    → ((s : DeviceState) → P s → P (change s))
    → Triple P m (Gives P Good)
    → Triple P (modify change >> m) (Gives P Good)
modify-Gives P Good change h t = record {
  holds = λ w x. t.holds (record w { device = change w.device }) (h w.device x);
}

-- A call of the random source, with where its value comes from.
module _ {E A B : Type 0} {f : A → Operation E B} (P : DeviceState → Type 0)
    (Q : Result B → DeviceState → Type 0) (draw : E → Result A × E)
    (given : (a : A) (e : E) → (draw e).0 ≡ ok a → Triple P (f a) Q)
    (failed : (e : CryptoError) (s : DeviceState) → P s → Q (err e) s) where
  drawn :
      (w : World E) (q : Result A × E)
      → draw w.entropy ≡ q
      → P w.device
      → Q ((sample (λ e. q) >>= f) w).0 ((sample (λ e. q) >>= f) w).1.device
  drawn w (ok a, e) s h = (given a w.entropy (ap (λ t. t.0) s)).holds (record w { entropy = e }) h
  drawn w (err x, e) s h = failed x w.device h

  pub sample-cases : Triple P (sample draw >>= f) Q
  sample-cases = record { holds = λ w h. drawn w (draw w.entropy) refl h }
